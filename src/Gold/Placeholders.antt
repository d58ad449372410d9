-- ===== src/Gold/Placeholders.antt =====
-- scripts/gold/build_gold.py: the facts of the seed files that travel in the SQL.
use urban_ops_intelligence_p.Prelude.{
  Bool, ◌||◌, List, [], ◌∷◌, ◌++◌, ◌==◌, if◌then◌else◌, Text, codes, any, map, delimiter_in_seed,
  Result, ok, err, ◌>>=◌,
}
use urban_ops_intelligence_p.Strings.{strip, join}

-- A row of service_type_keywords.csv.
pub record Keyword : Type 0 where
  pub match_priority : Text
  pub pattern_regex : Text
  pub priority_weight : Text

-- `";" in cell or "|" in cell or "'" in cell or "," in cell`
abbrev pub has_delimiter : Text → Bool
has_delimiter cell =
    any (λ c. c == b';') cell
    || (any (λ c. c == b'|') cell || (any (λ c. c == 39) cell || any (λ c. c == b',') cell))

abbrev pub fields_of : Keyword → List Text
fields_of r = strip r.match_priority ∷ strip r.pattern_regex ∷ strip r.priority_weight ∷ []

-- The loop over the cells of one tuple.
unfoldable pub check_cells : List Text → Result (Unit {0})
check_cells [] = ok tt
check_cells (cell ∷ cells) =
    let later = check_cells cells in
    if has_delimiter cell then err (delimiter_in_seed cell) else later

unfoldable pub check_parts : List (List Text) → Result (Unit {0})
check_parts [] = ok tt
check_parts (cells ∷ parts) = let later = check_parts parts in check_cells cells >>= λ _. later

pub record SeedPlaceholders : Type 0 where
  pub winter_category_order : Text
  pub service_type_keywords : Text

-- `seed_placeholders`, of the categories and of the rows of the two files
unfoldable pub seed_placeholders : List Text → List Keyword → Result SeedPlaceholders
seed_placeholders order rows = check_parts (map fields_of rows ++ map (λ c. c ∷ []) order) >>= λ _.
    ok (record {
      winter_category_order = join (codes ",") order;
      service_type_keywords = join (codes "|") (map (join (codes ";")) (map fields_of rows));
    })
