-- ===== src/Ddl/Parser/Lines.antt =====
-- scripts/ddl/ddl_parser.py: the lines that declare columns, and what the pattern of a column makes of
-- them.
use urban_ops_intelligence_p.Prelude.{
  ℕ, ◌≡◌, refl, ap, sym, ◌∙◌, Bool, true, false, Option, none, some, List, [], ◌∷◌, ◌++◌, ◌==◌,
  Text, codes, text_eq, is_empty, All, append-nil, append_assoc, arith,
}
use urban_ops_intelligence_p.Config.{is_space}
use urban_ops_intelligence_p.Strings.{strip, starts_with}
use urban_ops_intelligence_p.Ddl.Scan.{is_digit, is_upper, is_word, span}
use urban_ops_intelligence_p.Ddl.Parser.{
  DdlColumn, ended, not_null_comment, typed, spaced, match_column,
}

-- Characters that all pass.
abbrev pub AllPass : (ℕ → Bool) → Text → Type 0
AllPass p t = All (λ c. p c ≡ true) t

pub span-AllPass :
    (p : ℕ → Bool) (s : Text) (c : ℕ) (t : Text)
    → AllPass p s
    → p c ≡ false
    → span p (s ++ (c ∷ t)) ≡ (s, c ∷ t)
span-AllPass p [] c t h k = rw k refl
span-AllPass p (d ∷ s) c t h k = rw (h.0, span-AllPass p s c t h.1 k) refl

-- A column as its lines declare it: comments before it and whether one of them, which may stand
-- anywhere among them, says that it is not null; then the line of the column, with its name, in
-- quotes or not, the letters of its type, its size, and a comma or none.
pub record Declared : Type 0 where
  pub first : ℕ
  pub more : Text
  pub in_quotes : Bool
  pub letter : ℕ
  pub letters : Text
  pub size : Option Text
  pub comma : Bool
  pub before : List Text
  pub required : Bool
  pub after : List Text

-- A comment line that is not `-- not_null`.
abbrev pub IsNote : Text → Type 0
IsNote line =
    (starts_with (codes "--") (strip line) ≡ true) × (text_eq (strip line) not_null_comment ≡ false)

pub record IsDeclared (d : Declared) : Type 0 where
  pub name_is_word : AllPass is_word (d.first ∷ d.more)
  pub type_is_upper : AllPass is_upper (d.letter ∷ d.letters)
  pub size_is_digits : (n : Text) → d.size ≡ some n → AllPass is_digit n × (is_empty n ≡ false)
  pub before_are_notes : All IsNote d.before
  pub after_are_notes : All IsNote d.after

abbrev pub size_text : Option Text → Text
size_text none = []
size_text (some n) = b'(' ∷ (n ++ (b')' ∷ []))

abbrev pub declared_column : Declared → DdlColumn
declared_column d = record {
  name = d.first ∷ d.more;
  sql_type = (d.letter ∷ d.letters) ++ size_text d.size;
  not_null = d.required;
}

abbrev pub in_quotes : Bool → Text → Text → Text
in_quotes true name t = b'"' ∷ (name ++ (b'"' ∷ t))
in_quotes false name t = name ++ t

abbrev pub comma_text : Bool → Text
comma_text true = b',' ∷ []
comma_text false = []

-- What follows the name of a column, behind its space.
abbrev pub rest_of : ℕ → Text → Option Text → Bool → Text
rest_of letter letters size comma = (letter ∷ letters) ++ (size_text size ++ comma_text comma)

-- The line of a column, and the comments before it.
abbrev pub column_line : Declared → Text
column_line d =
    codes "    "
    ++ in_quotes d.in_quotes (d.first ∷ d.more) (b' ' ∷ rest_of d.letter d.letters d.size d.comma)

abbrev pub required_line : Bool → List Text
required_line true = (codes "    -- not_null") ∷ []
required_line false = []

abbrev pub column_lines : Declared → List Text → List Text
column_lines d lines =
    d.before ++ (required_line d.required ++ (d.after ++ (column_line d ∷ lines)))

span-whole : (p : ℕ → Bool) (s : Text) → AllPass p s → span p s ≡ (s, [])
span-whole p [] h = refl
span-whole p (d ∷ s) h = rw (h.0, span-whole p s h.1) refl

pub upper-word : (c : ℕ) → is_upper c ≡ true → is_space c ≡ false
upper-word c h = ground arith

word-quote : (c : ℕ) → is_word c ≡ true → (b'"' == c) ≡ false
word-quote c h = ground arith

pub word-dash : (c : ℕ) → is_word c ≡ true → (is_space c ≡ false) × ((b'-' == c) ≡ false)
word-dash c h = ground arith

typed_rest :
    (name : Text) (letter : ℕ) (letters : Text) (size : Option Text) (comma : Bool)
    → AllPass is_upper (letter ∷ letters)
    → ((n : Text) → size ≡ some n → AllPass is_digit n × (is_empty n ≡ false))
    → typed name (span is_upper (rest_of letter letters size comma))
      ≡ some (name, (letter ∷ letters) ++ size_text size)
typed_rest name letter letters none true h k =
    rw (span-AllPass is_upper (letter ∷ letters) b',' [] h refl)
      (ap (λ t. some (name, t)) (sym (append-nil (letter ∷ letters))))
typed_rest name letter letters none false h k =
    let e : span is_upper ((letter ∷ letters) ++ []) ≡ (letter ∷ letters, []) =
      ap (span is_upper) (append-nil (letter ∷ letters))
      ∙ span-whole is_upper (letter ∷ letters) h in
    ap (typed name) e ∙ ap (λ t. some (name, t)) (sym (append-nil (letter ∷ letters)))
typed_rest name letter letters (some n) comma h k =
    let (digits, filled) = k n refl in
    let e : (n ++ (b')' ∷ [])) ++ comma_text comma ≡ n ++ (b')' ∷ comma_text comma) =
      append_assoc n _ _ in
    rw e (
      rw (span-AllPass is_upper (letter ∷ letters) b'(' (n ++ (b')' ∷ comma_text comma)) h refl) (
        rw (span-AllPass is_digit n b')' (comma_text comma) digits refl)
          (rw filled (by_comma comma))))
  where
    by_comma :
        (c : Bool)
        → ended name ((letter ∷ letters) ++ (b'(' ∷ (n ++ (b')' ∷ []))), comma_text c)
          ≡ some (name, (letter ∷ letters) ++ (b'(' ∷ (n ++ (b')' ∷ []))))
    by_comma true = refl
    by_comma false = refl

spaced_rest :
    (name : Text) (letter : ℕ) (letters : Text) (size : Option Text) (comma : Bool)
    → AllPass is_upper (letter ∷ letters)
    → ((n : Text) → size ≡ some n → AllPass is_digit n × (is_empty n ≡ false))
    → spaced name (span is_space (b' ' ∷ rest_of letter letters size comma))
      ≡ some (name, (letter ∷ letters) ++ size_text size)
spaced_rest name letter letters size comma h k =
    rw (upper-word letter h.0) (typed_rest name letter letters size comma h k)

pub match_line :
    (d : Declared)
    → IsDeclared d
    → match_column (column_line d)
      ≡ some (d.first ∷ d.more, (d.letter ∷ d.letters) ++ size_text d.size)
unfolding match_column
match_line d v = by_quotes d.in_quotes
  where
    by_quotes :
        (q : Bool)
        → match_column (
            codes "    "
            ++ in_quotes q (d.first ∷ d.more) (b' ' ∷ rest_of d.letter d.letters d.size d.comma))
          ≡ some (d.first ∷ d.more, (d.letter ∷ d.letters) ++ size_text d.size)
    by_quotes true =
        rw
          (span-AllPass is_word (d.first ∷ d.more) b'"'
            (b' ' ∷ rest_of d.letter d.letters d.size d.comma) v.name_is_word refl)
          (spaced_rest (d.first ∷ d.more) d.letter d.letters d.size d.comma v.type_is_upper
            v.size_is_digits)
    by_quotes false = rw (word-quote d.first v.name_is_word.0) (
        rw
          (span-AllPass is_word (d.first ∷ d.more) b' ' (rest_of d.letter d.letters d.size d.comma)
            v.name_is_word refl)
          (spaced_rest (d.first ∷ d.more) d.letter d.letters d.size d.comma v.type_is_upper
            v.size_is_digits))
