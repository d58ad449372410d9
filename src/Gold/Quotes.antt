-- ===== src/Gold/Quotes.antt =====
-- scripts/gold/build_gold.py: a quoted text ends where it should.
use urban_ops_intelligence_p.Prelude.{
  ℕ, ◌≡◌, refl, ap, ◌∙◌, Bool, true, false, Option, none, some, [], ◌∷◌, ◌++◌, ◌==◌, if◌then◌else◌,
  Text, codes, is_empty, any, ok, arith, Bool-cases, inl, inr, append_assoc,
}
use urban_ops_intelligence_p.Strings.{strip, upper, starts_with}
use urban_ops_intelligence_p.Gold.Literals.{quote, doubled, quoted, sql_literal}

-- A string literal of SQL after its opening quote: a doubled quote is a quote, a single one is the
-- end. The flag says that a quote was just read.
abbrev read_string : Bool → Text → Option (Text × Text)
read_string false [] = none
read_string true [] = some ([], [])
read_string false (c ∷ t) =
    let closing = read_string true t in
    let next = read_string false t in if c == quote then closing else with_char c next
  where
    with_char : ℕ → Option (Text × Text) → Option (Text × Text)
    with_char c none = none
    with_char c (some (t, rest)) = some (c ∷ t, rest)
read_string true (c ∷ t) =
    let next = read_string false t in if c == quote then with_quote next else some ([], c ∷ t)
  where
    with_quote : Option (Text × Text) → Option (Text × Text)
    with_quote none = none
    with_quote (some (t, rest)) = some (quote ∷ t, rest)

-- What a reader of SQL takes a literal for, and what is left after it.
abbrev pub read_literal : Text → Option (Text × Text)
read_literal [] = none
read_literal (c ∷ t) = if c == quote then read_string false t else none

-- The literal is not followed by another quote.
abbrev pub NoQuote : Text → Type 0
NoQuote [] = Unit
NoQuote (c ∷ t) = (c == quote) ≡ false

read_string-end : (rest : Text) → NoQuote rest → read_string true rest ≡ some ([], rest)
read_string-end [] h = refl
read_string-end (c ∷ rest) h = rw h refl

read_string-doubled :
    (t rest : Text)
    → NoQuote rest
    → read_string false (doubled t ++ (quote ∷ rest)) ≡ some (t, rest)
read_string-doubled [] rest h = read_string-end rest h
read_string-doubled (c ∷ t) rest h = elim (Bool-cases (c == quote)) [
  | inl same ↦
      let e : c ≡ quote = ground arith in rw same (rw (read_string-doubled t rest h) (rw e refl))
  | inr differ ↦ rw differ (rw differ (rw (read_string-doubled t rest h) refl))
]

-- The types whose literals are quoted texts.
abbrev pub IsText : Text → Type 0
IsText sql_type =
    any (λ s. starts_with s (upper sql_type)) (codes "VARCHAR" ∷ codes "CHAR" ∷ []) ≡ true

-- A cell of a column of characters that is not blank becomes a literal, and a reader of SQL that meets this literal, with no quote right after it, reads the cell without the space around it and goes on with what follows.
pub sql_literal-read_literal :
    (is_number : Text → Bool) (value sql_type rest : Text)
    → IsText sql_type
    → is_empty (strip value) ≡ false
    → NoQuote rest
    → (literal : Text) × (sql_literal is_number value sql_type ≡ ok literal)
      × (read_literal (literal ++ rest) ≡ some (strip value, rest))
unfolding sql_literal
sql_literal-read_literal is_number value sql_type rest is_text blank no_quote = (
  quoted (doubled (strip value)),
  rw blank (rw is_text refl),
  ap (read_string false) (append_assoc (doubled (strip value)) (quote ∷ []) rest)
      ∙ read_string-doubled (strip value) rest no_quote,
)
