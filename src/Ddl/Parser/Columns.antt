-- ===== src/Ddl/Parser/Columns.antt =====
-- scripts/ddl/ddl_parser.py: the lines of columns are read back as the columns that they declare.
use urban_ops_intelligence_p.Prelude.{
  ℕ, ◌≡◌, refl, ap, sym, ◌∙◌, Bool, true, false, Option, none, some, List, [], ◌∷◌, ◌++◌, Text, map,
  codes, All, All-append, All-map, append_assoc, arith,
}
use urban_ops_intelligence_p.Config.{is_space}
use urban_ops_intelligence_p.Strings.{strip, strip_left, strip_right, starts_with}
use urban_ops_intelligence_p.Ddl.Scan.{is_digit}
use urban_ops_intelligence_p.Ddl.Parser.{match_column, columns_from}
use urban_ops_intelligence_p.Ddl.Parser.Lines.{
  Declared, IsDeclared, IsNote, size_text, declared_column, in_quotes, comma_text, rest_of,
  column_line, required_line, column_lines, upper-word, word-dash, match_line,
}

-- Characters that are no space.
abbrev Solid : Text → Type 0
Solid t = All (λ c. is_space c ≡ false) t

digit-space : (c : ℕ) → is_digit c ≡ true → is_space c ≡ false
digit-space c h = ground arith

rest_of-Solid : (d : Declared) → IsDeclared d → Solid (rest_of d.letter d.letters d.size d.comma)
rest_of-Solid d v =
    All-append _ (d.letter ∷ d.letters) (size_text d.size ++ comma_text d.comma)
      (All-map _ _ (λ c h. upper-word c h) (d.letter ∷ d.letters) v.type_is_upper)
      (All-append _ (size_text d.size) (comma_text d.comma) (sized d.size refl) (by_comma d.comma))
  where
    sized : (o : Option Text) → d.size ≡ o → Solid (size_text o)
    sized none e = tt
    sized (some n) e = (
      refl,
      All-append _ n (b')' ∷ []) (All-map _ _ (λ c h. digit-space c h) n (v.size_is_digits n e).0)
          (refl, tt),
    )

    by_comma : (b : Bool) → Solid (comma_text b)
    by_comma true = (refl, tt)
    by_comma false = tt

-- A line that ends in characters that are no space keeps its end.
strip_right-Solid :
    (t : Text) (c : ℕ) (u : Text) → Solid (c ∷ u) → strip_right (t ++ (c ∷ u)) ≡ t ++ (c ∷ u)
strip_right-Solid [] c [] h = rw h.0 refl
strip_right-Solid [] c (d ∷ u) h = rw (strip_right-Solid [] d u h.1) refl
strip_right-Solid (b ∷ []) c u h = rw (strip_right-Solid [] c u h) refl
strip_right-Solid (b ∷ d ∷ t) c u h = rw (strip_right-Solid (d ∷ t) c u h) refl

-- What stands before the type.
line_front :
    (q : Bool) (name rest : Text)
    → (t : Text) × (codes "    " ++ in_quotes q name (b' ' ∷ rest) ≡ t ++ rest)
line_front true name rest = (codes "    " ++ in_quotes true name (b' ' ∷ []), simp append_assoc)
line_front false name rest = (codes "    " ++ in_quotes false name (b' ' ∷ []), simp append_assoc)

no_comment :
    (d : Declared) → IsDeclared d → starts_with (codes "--") (strip (column_line d)) ≡ false
unfolding strip
no_comment d v =
    let rest = rest_of d.letter d.letters d.size d.comma in
    let (t, e) = line_front d.in_quotes (d.first ∷ d.more) rest in
    let kept =
      ap strip_right e
      ∙ (strip_right-Solid t d.letter (d.letters ++ (size_text d.size ++ comma_text d.comma))
            (rest_of-Solid d v)
          ∙ sym e) in
    ap (λ u. starts_with (codes "--") (strip_left u)) kept ∙ by_quotes d.in_quotes rest
  where
    by_quotes :
        (q : Bool) (rest : Text)
        → starts_with
            (codes "--")
            (strip_left (codes "    " ++ in_quotes q (d.first ∷ d.more) (b' ' ∷ rest)))
          ≡ false
    by_quotes true rest = refl
    by_quotes false rest =
        rw ((word-dash d.first v.name_is_word.0).0, (word-dash d.first v.name_is_word.0).1) refl

matched_step :
    (pending : Bool) (line name sql_type : Text) (lines : List Text)
    → starts_with (codes "--") (strip line) ≡ false
    → match_column line ≡ some (name, sql_type)
    → columns_from pending (line ∷ lines)
      ≡ record { name = name; sql_type = sql_type; not_null = pending } ∷ columns_from false lines
unfolding columns_from
matched_step pending line name sql_type lines h k = rw (h, k) refl

-- A column's line declares it, with what the comment before it said.
column_step :
    (pending : Bool) (d : Declared) (lines : List Text)
    → IsDeclared d
    → columns_from pending (column_line d ∷ lines)
      ≡ record (declared_column d) { not_null = pending } ∷ columns_from false lines
column_step pending d lines v =
    matched_step pending (column_line d) (d.first ∷ d.more)
      ((d.letter ∷ d.letters) ++ size_text d.size) lines (no_comment d v) (match_line d v)

comment_step :
    (pending : Bool) (lines : List Text)
    → columns_from pending (codes "    -- not_null" ∷ lines) ≡ columns_from true lines
unfolding columns_from strip
comment_step true lines = refl
comment_step false lines = refl

notes_step :
    (pending : Bool) (notes lines : List Text)
    → All IsNote notes
    → columns_from pending (notes ++ lines) ≡ columns_from pending lines
unfolding columns_from
notes_step pending [] lines h = refl
notes_step true (n ∷ notes) lines h = rw h.0.0 (notes_step true notes lines h.1)
notes_step false (n ∷ notes) lines h = rw (h.0.0, h.0.1) (notes_step false notes lines h.1)

required_step :
    (required : Bool) (lines : List Text)
    → columns_from false (required_line required ++ lines) ≡ columns_from required lines
required_step true lines = comment_step false lines
required_step false lines = refl

column_lines_step :
    (d : Declared) (lines : List Text)
    → IsDeclared d
    → columns_from false (column_lines d lines) ≡ declared_column d ∷ columns_from false lines
column_lines_step d lines v =
    notes_step false d.before (required_line d.required ++ (d.after ++ (column_line d ∷ lines)))
      v.before_are_notes
    ∙ (required_step d.required (d.after ++ (column_line d ∷ lines))
        ∙ (notes_step d.required d.after (column_line d ∷ lines) v.after_are_notes
            ∙ column_step d.required d lines v))

abbrev pub all_lines : List Declared → List Text
all_lines [] = []
all_lines (d ∷ ds) = column_lines d (all_lines ds)

no_lines : columns_from false [] ≡ []
unfolding columns_from
no_lines = refl

declared_lines :
    (ds : List Declared)
    → All IsDeclared ds
    → columns_from false (all_lines ds) ≡ map declared_column ds
declared_lines [] h = no_lines
declared_lines (d ∷ ds) h =
    column_lines_step d (all_lines ds) h.0
    ∙ ap (λ cs. declared_column d ∷ cs) (declared_lines ds h.1)

-- The lines of a block, behind the one that ends with the parenthesis, are read back as the columns that they declare: the names, quoted or not, the types with their sizes, behind a comma or none, and for each whether a comment of its own, among any others, says that it is not null.
pub columns_from-all_lines :
    (ds : List Declared)
    → All IsDeclared ds
    → columns_from false ([] ∷ all_lines ds) ≡ map declared_column ds
unfolding columns_from strip match_column
columns_from-all_lines ds h = blank_line (all_lines ds) ∙ declared_lines ds h
  where
    blank_line : (lines : List Text) → columns_from false ([] ∷ lines) ≡ columns_from false lines
    blank_line lines = refl
