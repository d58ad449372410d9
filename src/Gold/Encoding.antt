-- ===== src/Gold/Encoding.antt =====
-- scripts/gold/build_gold.py: the facts that travel in the SQL can be read back.
use urban_ops_intelligence_p.Prelude.{
  ◌≡◌, refl, ap, subst, ◌∙◌, false, List, [], ◌∷◌, ◌++◌, Text, codes, map, All, ok, err, bind-ok,
  both_ok, arith, Bool-cases, inl, inr,
}
use urban_ops_intelligence_p.Strings.{strip, split, join}
use urban_ops_intelligence_p.Strings.Pieces.{Lacks, split-join, join-Lacks}
use urban_ops_intelligence_p.Gold.Placeholders.{
  Keyword, has_delimiter, fields_of, check_cells, check_parts, SeedPlaceholders, seed_placeholders,
}

-- None of the three separators occurs.
abbrev Plain : Text → Type 0
Plain cell = Lacks b';' cell × Lacks b'|' cell × Lacks b',' cell

has_delimiter-Plain : (cell : Text) → has_delimiter cell ≡ false → Plain cell
has_delimiter-Plain cell h = ground arith

check_cells-Plain : (cells : List Text) → check_cells cells ≡ ok tt → All Plain cells
unfolding check_cells
check_cells-Plain [] h = tt
check_cells-Plain (cell ∷ cells) h = elim (Bool-cases (has_delimiter cell)) [
  | inl bad ↦ let k : err _ ≡ ok tt = rw bad at h in cc
  | inr good ↦
      let k : check_cells cells ≡ ok tt = rw good at h in
      (has_delimiter-Plain cell good, check_cells-Plain cells k)
]

check_parts-Plain : (parts : List (List Text)) → check_parts parts ≡ ok tt → All (All Plain) parts
unfolding check_parts
check_parts-Plain [] h = tt
check_parts-Plain (cells ∷ parts) h =
    let (first, later) = both_ok (check_cells cells) (check_parts parts) h in
    (check_cells-Plain cells first, check_parts-Plain parts later)

All-split {ℓ κ} :
    {A : Type ℓ} (P : A → Type κ) (xs ys : List A) → All P (xs ++ ys) → All P xs × All P ys
All-split P [] ys h = (tt, h)
All-split P (x ∷ xs) ys h = let (left, right) = All-split P xs ys h.1 in ((h.0, left), right)

All-single : (cells : List Text) → All (All Plain) (map (λ c. c ∷ []) cells) → All Plain cells
All-single [] h = tt
All-single (cell ∷ cells) h = (h.0.0, All-single cells h.1)

commas : (cells : List Text) → All Plain cells → All (Lacks b',') cells
commas [] h = tt
commas (cell ∷ cells) h = (h.0.2, commas cells h.1)

bars : (cells : List Text) → All Plain cells → All (Lacks b'|') cells
bars [] h = tt
bars (cell ∷ cells) h = (h.0.1, bars cells h.1)

semicolons : (cells : List Text) → All Plain cells → All (Lacks b';') cells
semicolons [] h = tt
semicolons (cell ∷ cells) h = (h.0.0, semicolons cells h.1)

-- The three fields of a row, as one text.
abbrev packed : Keyword → Text
packed r = join (codes ";") (fields_of r)

packed_bars :
    (rows : List Keyword)
    → All (All Plain) (map fields_of rows)
    → All (Lacks b'|') (map (join (codes ";")) (map fields_of rows))
packed_bars [] h = tt
packed_bars (r ∷ rows) h =
    (join-Lacks b'|' b';' (fields_of r) refl (bars (fields_of r) h.0), packed_bars rows h.1)

unpacked :
    (rows : List Keyword)
    → All (All Plain) (map fields_of rows)
    → map (split b';') (map (join (codes ";")) (map fields_of rows)) ≡ map fields_of rows
unpacked [] h = refl
unpacked (r ∷ rows) h =
    let first : split b';' (packed r) ≡ fields_of r =
      split-join b';' (strip r.match_priority)
        (strip r.pattern_regex ∷ strip r.priority_weight ∷ []) (semicolons (fields_of r) h.0) in
    rw first (ap (λ rest. fields_of r ∷ rest) (unpacked rows h.1))

-- Where the two seed files have at least one row each and the placeholders are built, the first text splits at its commas into the categories in the order of the file, and the second splits at its bars, and each piece at its semicolons, into the stripped fields of the rows.
pub seed_placeholders-split :
    (category : Text) (order : List Text) (r : Keyword) (rows : List Keyword) (p : SeedPlaceholders)
    → seed_placeholders (category ∷ order) (r ∷ rows) ≡ ok p
    → (split b',' p.winter_category_order ≡ category ∷ order)
      × (map (split b';') (split b'|' p.service_type_keywords) ≡ map fields_of (r ∷ rows))
unfolding seed_placeholders
seed_placeholders-split category order r rows p h =
    let fields = map fields_of (r ∷ rows) in
    let singles : List (List Text) = map (λ c. c ∷ []) (category ∷ order) in
    let packed_rows = map (join (codes ";")) fields in
    let built : SeedPlaceholders = record {
      winter_category_order = join (codes ",") (category ∷ order);
      service_type_keywords = join (codes "|") packed_rows;
    } in
    let (u, checked, e) = bind-ok (check_parts (fields ++ singles)) (λ _. ok built) p h in
    let same : built ≡ p = cc in
    let (left, right) =
      All-split (All Plain) fields singles (check_parts-Plain (fields ++ singles) checked) in
    let plain = All-single (category ∷ order) right in
    subst
      (λ q.
        (split b',' q.winter_category_order ≡ category ∷ order)
        × (map (split b';') (split b'|' q.service_type_keywords) ≡ fields))
      same
      (
        split-join b',' category order (commas (category ∷ order) plain),
        ap (map (split b';')) (
              split-join b'|' (packed r) (map (join (codes ";")) (map fields_of rows))
                (packed_bars (r ∷ rows) left))
            ∙ unpacked (r ∷ rows) left,
      )
