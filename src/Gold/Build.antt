-- ===== src/Gold/Build.antt =====
-- scripts/gold/build_gold.py: the rebuild of a table, its gates, and the build.
use urban_ops_intelligence_p.Prelude.{
  ℕ, Option, List, [], ◌∷◌, ◌++◌, ◌==◌, if◌then◌else◌, Text, codes, is_empty, map, stale_rows,
  Result, ok, err, ◌>>=◌,
}
use urban_ops_intelligence_p.Gold.Tables.{Table, tables, check_order, selected}
use urban_ops_intelligence_p.Gold.ExtraGates.{Gate}
use urban_ops_intelligence_p.Gold.Builder.{
  Warehouse, Inputs, drop_sql, count_sql, insert_sql, table_prefix, selects_of, gates_of, meets,
}

module _ (W : Warehouse) where
  -- The last loop of `rebuild`.
  unfoldable pub insert_all : Text → List Text → List Text → W.S → Result W.S
  insert_all name columns [] s = ok s
  insert_all name columns (select ∷ selects) s =
      W.run (insert_sql name columns select) s >>= λ t. insert_all name columns selects t

  -- The table as it is created: dropped, purged, and made anew.
  unfoldable pub created : Inputs → Table → W.S → Result W.S
  created inputs table s = W.run (drop_sql table.name) s >>= λ dropped.
      W.purge (table_prefix inputs.location_prefix table.name) dropped >>= λ purged.
      W.run (inputs.create_sql table.name) purged

  -- `rebuild`, of a run that is not dry
  unfoldable pub rebuild : Inputs → Table → W.S → Result W.S
  rebuild inputs table s = selects_of inputs table >>= λ selects.
      created inputs table s >>= λ fresh. W.scalar (count_sql table.name) fresh >>= λ stale.
      if stale == 0
      then insert_all table.name (map (λ c. c.0) (inputs.columns table.name)) selects fresh
      else err (stale_rows table.name stale)

  -- The gates that fail, by their queries.
  unfoldable pub check_gates : List Gate → W.S → Result (List Text)
  check_gates [] s = ok []
  check_gates (gate ∷ gates) s = W.scalar gate.query s >>= λ actual.
      check_gates gates s >>= λ failures.
      ok (if meets gate actual then failures else gate.query ∷ failures)

  -- The loop of `build`.
  unfoldable pub build_loop : Inputs → List Table → W.S → Result (List Text × W.S)
  build_loop inputs [] s = ok ([], s)
  build_loop inputs (table ∷ rest) s = rebuild inputs table s >>= λ rebuilt.
      W.scalar (count_sql table.name) rebuilt >>= λ rows.
      check_gates (gates_of inputs table) rebuilt >>= λ failures.
      build_loop inputs rest rebuilt >>= λ later. ok (failures ++ later.0, later.1)

  -- An exit code, and the state that is left.
  abbrev pub concluded : List Text → W.S → ℕ × W.S
  concluded failures s = (if is_empty failures then 0 else 1, s)

  abbrev pub connected : Result ℕ → W.S → Result (ℕ × W.S) → Result (ℕ × W.S)
  connected (ok one) s rest = rest
  connected (err e) s rest = ok (2, s)

  -- `build`, of a run that is not dry
  unfoldable pub build : Inputs → Option Text → W.S → Result (ℕ × W.S)
  build inputs only s = check_order tables >>= λ _.
      if is_empty (selected only tables)
      then ok (2, s)
      else connected (W.scalar (codes "SELECT 1") s) s
          (build_loop inputs (selected only tables) s >>= λ built. ok (concluded built.0 built.1))

  -- `main`: without a bucket nothing is built.
  unfoldable pub main : Inputs → Option Text → W.S → Result (ℕ × W.S)
  main inputs only s = if is_empty inputs.bucket then ok (2, s) else build inputs only s
