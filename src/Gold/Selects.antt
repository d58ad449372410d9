-- ===== src/Gold/Selects.antt =====
-- scripts/gold/build_gold.py and scripts/ddl/apply_ddl.py: the SELECT statements of a table.
use urban_ops_intelligence_p.Prelude.{
  ℕ, zero, suc, ◌+◌, ◌-◌, Bool, true, false, not, ◌&&◌, Option, none, some, List, [], ◌∷◌, ◌++◌,
  ◌==◌, if◌then◌else◌, Text, codes, text_eq, is_empty, any, keep, map, length, lookup, Exception,
  seed_mismatch, no_select_file, Result, ok, err, ◌>>=◌,
}
use urban_ops_intelligence_p.Calendar.{pad_four}
use urban_ops_intelligence_p.Strings.{strip, strip_end, split, join, replace}
use urban_ops_intelligence_p.Gold.Literals.{quoted, sql_literal}
use urban_ops_intelligence_p.Gold.Placeholders.{SeedPlaceholders}

-- `normalise_prefix`
unfoldable pub normalise_prefix : Text → Text
normalise_prefix location_prefix =
    join (codes "/")
      (keep (λ part. not (is_empty (strip part))) (split b'/' (strip location_prefix)))

-- `schema_name`
unfoldable pub schema_name : Text → Text → Text
schema_name layer location_prefix =
    let prefix = normalise_prefix location_prefix in
    let base = codes "uoip_" ++ layer in
    if is_empty prefix
    then base
    else base ++ (b'_' ∷ replace (codes "/") (codes "_") (replace (codes "-") (codes "_") prefix))

abbrev pub lineage_columns : List Text
lineage_columns = codes "etl_run_id" ∷ codes "built_at" ∷ codes "source_max_ingest_date" ∷ []

-- A column of a table's DDL: its name and its type.
abbrev pub Column : Type 0
Column = Text × Text

abbrev pub expected_columns : List Column → List Column
expected_columns columns = keep (λ c. not (any (text_eq c.0) lineage_columns)) columns

abbrev pub same_texts : List Text → List Text → Bool
same_texts [] [] = true
same_texts [] (t ∷ ts) = false
same_texts (s ∷ ss) [] = false
same_texts (s ∷ ss) (t ∷ ts) = text_eq s t && same_texts ss ts

-- The run's id, the time of the build, and the day of the input's last change, as their texts.
pub record Lineage : Type 0 where
  pub run_id : Text
  pub built_at : Text
  pub source_date : Text

abbrev pub lineage_cells : Lineage → List Text
lineage_cells l =
    quoted l.run_id
    ∷ (codes "TIMESTAMP " ++ quoted l.built_at)
    ∷ (codes "DATE " ++ quoted l.source_date)
    ∷ []

abbrev pub tuple_of : List Text → Text
tuple_of cells = codes "(" ++ (join (codes ", ") cells ++ codes ")")

abbrev pub values_select : List Text → List Text → Text
values_select tuples columns =
    codes "SELECT * FROM (VALUES"
    ++ (10 ∷ codes "  ")
    ++ (join (b',' ∷ 10 ∷ codes "  ") tuples
        ++ (10 ∷ codes ") AS t(")
        ++ (join (codes ", ") columns ++ codes ")"))

module _ (is_number : Text → Bool) where
  -- The cells of a row, each as a literal of its column's type; another number of cells is an error.
  unfoldable pub literals : Exception → List Text → List Column → Result (List Text)
  literals e [] [] = ok []
  literals e [] (c ∷ cs) = err e
  literals e (cell ∷ cells) [] = err e
  literals e (cell ∷ cells) (c ∷ cs) =
      let later = literals e cells cs in
      sql_literal is_number cell c.1 >>= λ first. later >>= λ rest. ok (first ∷ rest)

  abbrev row_literals : Text → ℕ → List Text → List Column → Result (List Text)
  row_literals name line row columns =
      if length row == length columns
      then literals (seed_mismatch name line) row columns
      else err (seed_mismatch name line)

  unfoldable pub seed_tuples :
      Text → ℕ → Lineage → List Column → List (List Text) → Result (List Text)
  seed_tuples name line l columns [] = ok []
  seed_tuples name line l columns (row ∷ rows) =
      let later = seed_tuples name (suc line) l columns rows in
      row_literals name line row columns >>= λ cells.
      later >>= λ tuples. ok (tuple_of (cells ++ lineage_cells l) ∷ tuples)

  -- `seed_select`, of the rows that Python's CSV reader gives
  unfoldable pub seed_select : Text → Lineage → List Column → List (List Text) → Result Text
  seed_select name l columns [] = err (seed_mismatch name 0)
  seed_select name l columns (header ∷ body) =
      let expected = expected_columns columns in
      if same_texts (map strip header) (map (λ c. c.0) expected)
      then (seed_tuples name 2 l expected body >>= λ tuples.
          ok (values_select tuples (map (λ c. c.0) expected ++ lineage_columns)))
      else err (seed_mismatch name 1)

-- `(f"{y}-01-01", f"{y + 1}-01-01")`, for years of four digits
abbrev pub year_bounds : ℕ → Text × Text
year_bounds y = (pad_four y ++ codes "-01-01", pad_four (y + 1) ++ codes "-01-01")

-- `range(first, first + count)`
abbrev pub years_from : ℕ → ℕ → List ℕ
years_from first zero = []
years_from first (suc count) = first ∷ years_from (first + 1) count

-- `CHUNKED`: the first and the last year
abbrev pub chunked : List (Text × (ℕ × ℕ))
chunked =
    (codes "fact_winter_request_daily_by_label", (2008, 2026))
    ∷ (codes "fact_service_request_zone_event", (2008, 2026))
    ∷ (codes "dim_service_type", (2008, 2026))
    ∷ (codes "dim_admin_label", (2008, 2026))
    ∷ []

abbrev chunk_of : Text → ℕ → Text
chunk_of text y =
    replace (codes "{chunk_end}") (year_bounds y).1
      (replace (codes "{chunk_start}") (year_bounds y).0 text)

abbrev chunks_of : Text → Option (ℕ × ℕ) → List Text
chunks_of text none = text ∷ []
chunks_of text (some (first, last)) = map (chunk_of text) (years_from first (suc last - first))

-- `dml_selects`, of the rendered text of the file
unfoldable pub dml_selects : Text → Text → List Text
dml_selects name text = chunks_of text (lookup name chunked)

abbrev pub moved_layer : Text → Text → Text → Text → Text
moved_layer bucket prefix layer text =
    replace (codes "s3a://" ++ (bucket ++ (b'/' ∷ (layer ++ codes "/"))))
      (codes "s3a://" ++ (bucket ++ (b'/' ∷ (prefix ++ (b'/' ∷ (layer ++ codes "/")))))) text

-- `_render_select`, of what `seed_placeholders` makes and of what the file holds, `none` where it
-- does not exist
unfoldable pub render_select :
    Text → Text → Lineage → Result SeedPlaceholders → Text → Option Text → Result Text
render_select bucket location_prefix l made path none = err (no_select_file path)
render_select bucket location_prefix l made path (some file) = made >>= λ seeds.
    let prefix = normalise_prefix location_prefix in
    let text = replace (codes "{bucket}") bucket file in
    let moved =
      if is_empty prefix
      then text
      else moved_layer bucket prefix (codes "gold")
          (moved_layer bucket prefix (codes "silver") text) in
    let silver =
      replace (codes "{{ silver }}") (schema_name (codes "silver") location_prefix) moved in
    let order = replace (codes "{winter_category_order}") seeds.winter_category_order silver in
    let keywords = replace (codes "{service_type_keywords}") seeds.service_type_keywords order in
    let stamped =
      replace (codes "{built_at}") l.built_at (replace (codes "{etl_run_id}") l.run_id keywords) in
    ok (strip_end b';' (strip stamped))
