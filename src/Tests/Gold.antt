-- ===== src/Tests/Gold.antt =====
-- A Gold build of one table in a small warehouse.
use urban_ops_intelligence_p.Prelude.{
  ℕ, zero, suc, ◌+◌, ◌≡◌, ◌↔◌, refl, sym, ap, ◌∙◌, Bool, true, false, none, some, List, [], ◌∷◌,
  ◌++◌, if◌then◌else◌, Text, codes, is_empty, map, length, arith, ok,
}
use urban_ops_intelligence_p.Strings.{strip, split, starts_with, replace, decimal}
use urban_ops_intelligence_p.Gold.Tables.{Table, tables, check_order, selected}
use urban_ops_intelligence_p.Gold.Order.{DepsFirst, check_order-DepsFirst}
use urban_ops_intelligence_p.Gold.Literals.{sql_literal}
use urban_ops_intelligence_p.Gold.Quotes.{read_literal, sql_literal-read_literal}
use urban_ops_intelligence_p.Gold.Placeholders.{
  Keyword, fields_of, check_cells, check_parts, SeedPlaceholders, seed_placeholders,
}
use urban_ops_intelligence_p.Gold.Encoding.{seed_placeholders-split}
use urban_ops_intelligence_p.Gold.Selects.{
  normalise_prefix, schema_name, dml_selects, render_select,
}
use urban_ops_intelligence_p.Gold.ExtraGates.{extra_gates}
use urban_ops_intelligence_p.Gold.Builder.{
  Warehouse, Inputs, count_sql, insert_sql, selects_of, gates_of,
}
use urban_ops_intelligence_p.Gold.Build.{
  insert_all, created, rebuild, build, build_loop, check_gates,
}
use urban_ops_intelligence_p.Gold.Rebuilt.{Tabular, chosen_in_turn, rebuild-rows}
use urban_ops_intelligence_p.Gold.Green.{AllGreen, build-AllGreen}

check_order-DepsFirst_example : (check_order tables ≡ ok tt) ↔ DepsFirst [] tables
check_order-DepsFirst_example = check_order-DepsFirst tables

abbrev numeric : Text → Bool
numeric t = true

not_blank : is_empty (strip (codes "O'Connor")) ≡ false
unfolding strip
not_blank = refl

sql_literal-read_literal_example :
    (literal : Text) × (sql_literal numeric (codes "O'Connor") (codes "varchar") ≡ ok literal)
    × (read_literal (literal ++ codes ", 1)") ≡ some (strip (codes "O'Connor"), codes ", 1)"))
sql_literal-read_literal_example =
    sql_literal-read_literal numeric (codes "O'Connor") (codes "varchar") (codes ", 1)") refl
      not_blank refl

abbrev plow : Keyword
plow = record {
  match_priority = codes "1";
  pattern_regex = codes " plow.*";
  priority_weight = codes "0.5";
}

abbrev placeholders : SeedPlaceholders
placeholders = record {
  winter_category_order = codes "plowing,sanding";
  service_type_keywords = codes "1;plow.*;0.5";
}

encoded : seed_placeholders (codes "plowing" ∷ codes "sanding" ∷ []) (plow ∷ []) ≡ ok placeholders
unfolding seed_placeholders check_parts check_cells strip
encoded = refl

seed_placeholders-split_example :
    (split b',' placeholders.winter_category_order ≡ codes "plowing" ∷ codes "sanding" ∷ [])
    × (map (split b';') (split b'|' placeholders.service_type_keywords) ≡ map fields_of (plow ∷ []))
seed_placeholders-split_example =
    seed_placeholders-split (codes "plowing") (codes "sanding" ∷ []) plow [] placeholders encoded

-- A warehouse that has one table and counts its rows: an INSERT adds one.
abbrev executed : Text → ℕ → ℕ
executed sql n = if starts_with (codes "INSERT") sql then n + 1 else n

abbrev counter : Warehouse
counter = record {
  S = ℕ;
  run = λ sql n. ok (executed sql n);
  purge = λ prefix n. ok 0;
  scalar = λ sql n. ok n;
}

abbrev units : ℕ → List (Unit {0})
units zero = []
units (suc n) = tt ∷ units n

length-units : (n : ℕ) → n ≡ length (units n)
length-units zero = refl
length-units (suc n) = omega (arith, length-units n)

units-append : (n : ℕ) → units (suc n) ≡ units n ++ (tt ∷ [])
units-append zero = refl
units-append (suc n) = ap (λ us. tt ∷ us) (units-append n)

units-executed :
    (sql : Text) (s t : ℕ)
    → starts_with (codes "INSERT") sql ≡ true
    → ok (executed sql s) ≡ ok t
    → units t ≡ units s ++ (tt ∷ [])
units-executed sql s t inserts h =
    let grown : executed sql s ≡ s + 1 = rw inserts refl in
    let same : executed sql s ≡ t = cc in
    let e : t ≡ suc s = sym same ∙ grown ∙ omega arith in ap units e ∙ units-append s

abbrev counter_tabular : Tabular counter
counter_tabular = record {
  Row = Unit;
  rows = λ name n. units n;
  chosen = λ select n. tt ∷ [];
  count_law = λ name s n h. (let same : s ≡ n = cc in sym same ∙ length-units s);
  insert_law =
      λ name columns select s t h. units-executed (insert_sql name columns select) s t refl h;
}

abbrev inputs : Inputs
inputs = record {
  bucket = codes "lake";
  location_prefix = [];
  forecast_version = [];
  run_id = codes "l2";
  built_at = codes "2026-02-09 06:00:00";
  seeds = ok placeholders;
  is_number = numeric;
  columns = λ name. (codes "plow_zone", codes "VARCHAR") ∷ [];
  create_sql = λ name. codes "CREATE TABLE " ++ name;
  csv_rows = λ name. [];
  csv_date = λ name. codes "2026-01-01";
  dml_file = λ name. some (codes "SELECT 1;");
  intelligence_file = λ name. none;
  artefacts = [];
  prediction_cells = 1298;
  declared_gates = λ name. record { query = count_sql name; expected = 1; at_least = false } ∷ [];
}

abbrev zone_table : Table
zone_table = record {
  name = codes "dim_plow_zone";
  stage = codes "dims";
  deps = [];
  seed = none;
  from_artefacts = false;
  intelligence = false;
  per_model_version = false;
}

rebuilt : rebuild counter inputs zone_table 7 ≡ ok 1
unfolding rebuild created insert_all selects_of render_select normalise_prefix schema_name
    dml_selects replace split strip
rebuilt = refl

rebuild-rows_example :
    (selects : List Text) × (fresh : ℕ) × (selects_of inputs zone_table ≡ ok selects)
    × (created counter inputs zone_table 7 ≡ ok fresh)
    × (units 1
        ≡ chosen_in_turn counter counter_tabular
            (codes "dim_plow_zone")
            (codes "plow_zone" ∷ [])
            selects
            fresh)
rebuild-rows_example = rebuild-rows counter counter_tabular inputs zone_table 7 1 rebuilt

build-AllGreen_example :
    (build counter inputs (some (codes "dim_plow_zone")) 7 ≡ ok (0, 1))
    ↔ AllGreen counter inputs (some (codes "dim_plow_zone")) 7 1
build-AllGreen_example = build-AllGreen counter inputs (some (codes "dim_plow_zone")) 7 1

green_test : build counter inputs (some (codes "dim_plow_zone")) 7 ≡ ok (0, 1)
unfolding build build_loop check_gates gates_of extra_gates decimal selected check_order rebuild
    created insert_all selects_of render_select normalise_prefix schema_name dml_selects replace
    split strip
green_test = refl
