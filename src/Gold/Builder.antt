-- ===== src/Gold/Builder.antt =====
-- scripts/gold/build_gold.py: the builder. Trino and the object store are a parameter.
use urban_ops_intelligence_p.Prelude.{
  ℕ, ◌-◌, ◌*◌, Bool, false, not, ◌||◌, Option, none, some, List, [], ◌∷◌, ◌++◌, ◌==◌, leb,
  if◌then◌else◌, Text, codes, text_eq, is_empty, keep, map, length, seed_mismatch, no_artefact,
  Result, ok, err, ◌>>=◌,
}
use urban_ops_intelligence_p.Strings.{join}
use urban_ops_intelligence_p.Gold.Tables.{Table}
use urban_ops_intelligence_p.Gold.ExtraGates.{Gate, extra_gates}
use urban_ops_intelligence_p.Gold.Placeholders.{SeedPlaceholders}
use urban_ops_intelligence_p.Gold.Selects.{
  schema_name, Column, Lineage, lineage_columns, expected_columns, lineage_cells, same_texts,
  tuple_of, values_select, literals, seed_select, dml_selects, render_select,
}
use urban_ops_intelligence_p.Gold.Versions.{intelligence_selects}

-- Trino and the object store behind it: a statement that is executed, a prefix that is purged, and
-- a query that returns one number.
pub record Warehouse : Type 1 where
  pub S : Type 0
  pub run : Text → S → Result S
  pub purge : Text → S → Result S
  pub scalar : Text → S → Result ℕ

-- The rows of one training run.
pub record Artefact : Type 0 where
  pub model_version : Text
  pub source_date : Text
  pub rows : List (List Text)

-- What the builder reads: its arguments, the files of the repository, and the artefacts. The columns
-- and the CREATE statement are what the parser of the DDL files gives.
pub record Inputs : Type 0 where
  pub bucket : Text
  pub location_prefix : Text
  pub forecast_version : Text
  pub run_id : Text
  pub built_at : Text
  pub seeds : Result SeedPlaceholders
  pub is_number : Text → Bool
  pub columns : Text → List Column
  pub create_sql : Text → Text
  pub csv_rows : Text → List (List Text)
  pub csv_date : Text → Text
  pub dml_file : Text → Option Text
  pub intelligence_file : Text → Option Text
  pub artefacts : List Artefact
  pub prediction_cells : ℕ
  pub declared_gates : Text → List Gate

abbrev prediction_columns : List Text
prediction_columns =
    codes "snowfall_event_id"
    ∷ codes "plow_zone"
    ∷ codes "model_version"
    ∷ codes "predicted_count"
    ∷ codes "baseline_count"
    ∷ codes "actual_count"
    ∷ []

-- `_quote`
abbrev quoted_column : Text → Text
quoted_column name =
    if text_eq name (codes "type") || text_eq name (codes "date")
    then codes "\"" ++ (name ++ codes "\"")
    else name

abbrev pub drop_sql : Text → Text
drop_sql name = codes "DROP TABLE IF EXISTS " ++ name

abbrev pub count_sql : Text → Text
count_sql name = codes "SELECT COUNT(*) FROM " ++ name

abbrev pub insert_sql : Text → List Text → Text → Text
insert_sql name columns select =
    codes "INSERT INTO "
    ++ (name
        ++ (codes " ("
            ++ (join (codes ", ") (map quoted_column columns) ++ (codes ")" ++ (10 ∷ select)))))

-- `_table_prefix`
abbrev pub table_prefix : Text → Text → Text
table_prefix prefix name =
    join (codes "/") (keep (λ p. not (is_empty p)) (prefix ∷ codes "gold" ∷ name ∷ []))

module _ (inputs : Inputs) where
  abbrev lineage : Text → Lineage
  lineage source_date = record {
    run_id = inputs.run_id;
    built_at = inputs.built_at;
    source_date = source_date;
  }

  unfoldable pub artefact_tuples : Lineage → List Column → List (List Text) → Result (List Text)
  artefact_tuples l columns [] = ok []
  artefact_tuples l columns (row ∷ rows) =
      let later = artefact_tuples l columns rows in
      literals inputs.is_number (seed_mismatch l.run_id (length row)) row columns >>= λ cells.
      later >>= λ tuples. ok (tuple_of (cells ++ lineage_cells l) ∷ tuples)

  -- `artefact_select`
  unfoldable pub artefact_select : List Column → Artefact → Result Text
  artefact_select columns artefact =
      let expected = expected_columns columns in
      let names = map (λ c. c.0) expected in
      if same_texts names prediction_columns
      then (artefact_tuples (lineage artefact.source_date) expected artefact.rows >>= λ tuples.
          ok (values_select tuples (names ++ lineage_columns)))
      else err (seed_mismatch artefact.model_version 0)

  unfoldable pub artefact_selects : List Column → List Artefact → Result (List Text)
  artefact_selects columns [] = ok []
  artefact_selects columns (artefact ∷ artefacts) =
      let later = artefact_selects columns artefacts in
      artefact_select columns artefact >>= λ select. later >>= λ selects. ok (select ∷ selects)

  -- The end of `load_artefacts`
  abbrev loaded : List Artefact → Result (List Artefact)
  loaded [] = err no_artefact
  loaded (artefact ∷ artefacts) = ok (artefact ∷ artefacts)

  abbrev rendered : Text → Option Text → Result Text
  rendered path file =
      render_select inputs.bucket inputs.location_prefix (lineage []) inputs.seeds path file

  abbrev stored_selects : Table → Result (List Text)
  stored_selects table =
      if table.from_artefacts
      then (loaded inputs.artefacts >>= artefact_selects (inputs.columns table.name))
      else if table.intelligence
      then (rendered table.name (inputs.intelligence_file table.name) >>= λ text.
          loaded inputs.artefacts >>= λ artefacts.
          intelligence_selects table.per_model_version text inputs.forecast_version
            (map (λ a. a.model_version) artefacts))
      else rendered table.name (inputs.dml_file table.name) >>= λ text.
          ok (dml_selects table.name text)

  abbrev selects_from : Table → Option Text → Result (List Text)
  selects_from table none = stored_selects table
  selects_from table (some seed) =
      seed_select inputs.is_number table.name (lineage (inputs.csv_date seed))
        (inputs.columns table.name) (inputs.csv_rows seed)
      >>= λ select. ok (select ∷ [])

  -- The branches of `rebuild` that choose where the rows come from.
  unfoldable pub selects_of : Table → Result (List Text)
  selects_of table = selects_from table table.seed

  abbrev seed_row_gate : Text → Option Text → List Gate
  seed_row_gate name none = []
  seed_row_gate name (some seed) =
      record {
        query = count_sql name;
        expected = length (inputs.csv_rows seed) - 1;
        at_least = false;
      }
      ∷ []

  -- `_dynamic_extra_gates`
  abbrev dynamic_extra_gates : Table → List Gate
  dynamic_extra_gates table =
      let versions = length inputs.artefacts in
      let whole : ℕ → Gate =
        λ n. record { query = count_sql table.name; expected = n; at_least = false } in
      let distinct : Gate = record {
        query = codes "SELECT COUNT(DISTINCT model_version) FROM " ++ table.name;
        expected = versions;
        at_least = false;
      } in
      if table.per_model_version
      then whole (versions * 374) ∷ distinct ∷ []
      else if table.from_artefacts
      then whole (versions * inputs.prediction_cells) ∷ distinct ∷ []
      else []

  -- The gates of a table in the order in which `check_gates` asks them.
  unfoldable pub gates_of : Table → List Gate
  gates_of table =
      inputs.declared_gates table.name
      ++ (seed_row_gate table.name table.seed
          ++ (extra_gates table.name (schema_name (codes "silver") inputs.location_prefix)
                inputs.prediction_cells
              ++ dynamic_extra_gates table))

abbrev pub meets : Gate → ℕ → Bool
meets gate actual = if gate.at_least then leb gate.expected actual else actual == gate.expected
