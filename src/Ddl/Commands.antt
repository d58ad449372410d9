-- ===== src/Ddl/Commands.antt =====
-- scripts/ddl/apply_ddl.py and sync_partitions.py: the commands, on Trino and on the bucket.
pub mod Laws
pub mod Kept
pub mod Purged
pub mod Teardown
use urban_ops_intelligence_p.Prelude.{
  ℕ, ◌+◌, Bool, true, false, ◌&&◌, Option, none, some, List, [], ◌∷◌, ◌++◌, ◌==◌, ltb,
  if◌then◌else◌, Text, codes, is_empty, length, Exception, index_error, purge_refused, read_back,
  Result, ok, err, ◌>>=◌,
}
use urban_ops_intelligence_p.Loader.Writes.{Outcome}
use urban_ops_intelligence_p.Gold.Selects.{normalise_prefix, schema_name}
use urban_ops_intelligence_p.Ddl.Parser.{
  DdlColumn, Ddl, Layer, silver, gold, layer_text, layer, parse_ddl,
}
use urban_ops_intelligence_p.Ddl.Apply.{
  smoke_rows, TrinoSettings, Environment, variable, load_trino_settings, folder_of, render_ddl,
  insert_statement,
}

-- Trino, which runs a statement in a schema and returns its rows, and the bucket: the pages of a
-- listing, each of which may raise, and the deletion of some objects, which answers with the keys
-- that it could not delete.
pub record Cluster : Type 1 where
  pub S : Type 0
  pub execute : Text → Text → S → Outcome S (List (List ℕ))
  pub pages : S → Text → List (Result (List Text))
  pub delete : List Text → S → Outcome S (List Text)

-- A file of `sql/ddl`: its stem, its text, and what is parsed.
pub record TableFile : Type 0 where
  pub table : Text
  pub text : Text
  pub ddl : Ddl

pub record Grouped : Type 0 where
  pub silver_tables : List TableFile
  pub gold_tables : List TableFile

abbrev pub grouped_at : Layer → Grouped → List TableFile
grouped_at silver g = g.silver_tables
grouped_at gold g = g.gold_tables

abbrev filed : Layer → TableFile → Grouped → Grouped
filed silver f g = record g { silver_tables = f ∷ g.silver_tables }
filed gold f g = record g { gold_tables = f ∷ g.gold_tables }

-- `load_all_ddl` and then `tables_by_layer`, of the sorted files
unfoldable pub load_tables : List (Text × Text) → Result (List TableFile)
load_tables [] = ok []
load_tables ((stem, text) ∷ files) =
    let rest = load_tables files in
    parse_ddl stem text >>= λ ddl.
    rest >>= λ later. ok (record { table = stem; text = text; ddl = ddl } ∷ later)

unfoldable pub grouped_from : List TableFile → Result Grouped
grouped_from [] = ok (record { silver_tables = []; gold_tables = [] })
grouped_from (f ∷ fs) =
    let rest = grouped_from fs in layer f.ddl >>= λ l. rest >>= λ g. ok (filed l f g)

unfoldable pub tables_by_layer : List (Text × Text) → Result Grouped
tables_by_layer files = load_tables files >>= grouped_from

-- The next step, after one that returns.
abbrev pub then_do : {S A B : Type 0} → Outcome S A → (A → S → Outcome S B) → Outcome S B
then_do (ok a, s) f = f a s
then_do (err e, s) f = (err e, s)

-- `try` and `except Exception`: one failure more, or none.
abbrev pub failing : {S A : Type 0} → Outcome S A → ℕ × S
failing (ok a, s) = (0, s)
failing (err e, s) = (1, s)

abbrev pub with_value : {S A B : Type 0} → Result A → S → (A → Outcome S B) → Outcome S B
with_value (ok a) s f = f a
with_value (err e) s f = (err e, s)

-- `rows[0][0]`
abbrev cell : List (List ℕ) → Result ℕ
cell [] = err index_error
cell ([] ∷ rows) = err index_error
cell ((n ∷ row) ∷ rows) = ok n

abbrev first_column : Ddl → Result Text
first_column ddl = elim ddl.columns [ [] ↦ err index_error | c ∷ cs ↦ ok c.name ]

abbrev pub exit_code : ℕ → ℕ
exit_code failures = if failures == 0 then 0 else 2

abbrev counted_ok : ℕ → Result (Unit {0})
counted_ok count = if count == smoke_rows then ok tt else err (read_back count)

module _ (W : Cluster) where
  -- Each table with its own `try`, and the failures so far.
  unfoldable pub for_tables :
      (TableFile → W.S → Result (W.S → ℕ × W.S)) → List TableFile → ℕ → W.S → Outcome W.S ℕ
  for_tables step [] failures s = (ok failures, s)
  for_tables step (f ∷ fs) failures s =
      with_value (step f s) s (λ run. let (n, s') = run s in for_tables step fs (failures + n) s')

  -- The body of the loop of `cmd_create`: the text is rendered outside the `try`.
  abbrev create_table : Text → Text → Text → TableFile → W.S → Result (W.S → ℕ × W.S)
  create_table bucket location_prefix schema f s =
      render_ddl f.text bucket location_prefix >>= λ sql. ok (λ t. failing (W.execute schema sql t))

  abbrev create_schema_sql : TrinoSettings → Text → Text → Layer → Text → Text
  create_schema_sql settings bucket location_prefix l schema =
      codes "CREATE SCHEMA IF NOT EXISTS "
      ++ (settings.catalog
          ++ (codes "."
              ++ (schema
                  ++ (codes " WITH (location = 's3a://"
                      ++ (bucket
                          ++ (codes "/"
                              ++ (folder_of (normalise_prefix location_prefix)
                                  ++ (layer_text l ++ codes "/')"))))))))

  unfoldable pub create_layers :
      TrinoSettings → Text → Text → Grouped → List Layer → ℕ → W.S → Outcome W.S ℕ
  create_layers settings bucket location_prefix g [] failures s = (ok failures, s)
  create_layers settings bucket location_prefix g (l ∷ ls) failures s =
      let schema = schema_name (layer_text l) location_prefix in
      then_do (W.execute schema (create_schema_sql settings bucket location_prefix l schema) s)
        (λ rows t.
          then_do
            (for_tables (create_table bucket location_prefix schema) (grouped_at l g) failures t)
            (λ n u. create_layers settings bucket location_prefix g ls n u))

  -- `cmd_create`
  unfoldable pub cmd_create : List (Text × Text) → TrinoSettings → Text → Text → W.S → Outcome W.S ℕ
  cmd_create files settings bucket location_prefix s = with_value (tables_by_layer files) s (λ g.
      then_do (create_layers settings bucket location_prefix g (silver ∷ gold ∷ []) 0 s)
        (λ n t. (ok (exit_code n), t)))

  -- The body of the `try` of `cmd_smoke`.
  abbrev smoke_once : Text → TableFile → W.S → Outcome W.S (Unit {0})
  smoke_once schema f s = with_value (insert_statement f.ddl f.table) s (λ sql.
      then_do (W.execute schema sql s) (λ rows t.
        then_do (W.execute schema (codes "SELECT COUNT(*) FROM " ++ f.table) t) (λ counted u.
          with_value (cell counted) u (λ count. with_value (first_column f.ddl) u (λ name.
            then_do
              (W.execute schema
                (codes "SELECT COUNT(\"" ++ (name ++ (codes "\") FROM " ++ f.table))) u)
              (λ filled v. with_value (cell filled) v (λ non_null. (counted_ok count, v))))))))

  abbrev smoke_table : Text → TableFile → W.S → Result (W.S → ℕ × W.S)
  smoke_table schema f s = ok (λ t. failing (smoke_once schema f t))

  unfoldable pub smoke_layers : Text → Grouped → List Layer → ℕ → W.S → Outcome W.S ℕ
  smoke_layers location_prefix g [] failures s = (ok failures, s)
  smoke_layers location_prefix g (l ∷ ls) failures s =
      then_do
        (for_tables (smoke_table (schema_name (layer_text l) location_prefix)) (grouped_at l g)
          failures s)
        (λ n t. smoke_layers location_prefix g ls n t)

  -- `cmd_smoke`
  unfoldable pub cmd_smoke : List (Text × Text) → Text → W.S → Outcome W.S ℕ
  cmd_smoke files location_prefix s = with_value (tables_by_layer files) s (λ g.
      then_do (smoke_layers location_prefix g (silver ∷ gold ∷ []) 0 s)
        (λ n t. (ok (exit_code n), t)))

  -- The loop of `_purge_storage`, with the number of deleted objects; the answers are not read.
  unfoldable pub purge_pages : List (Result (List Text)) → ℕ → W.S → Outcome W.S ℕ
  purge_pages [] deleted s = (ok deleted, s)
  purge_pages (err e ∷ pages) deleted s = (err e, s)
  purge_pages (ok keys ∷ pages) deleted s =
      let rest = purge_pages pages deleted s in
      if is_empty keys
      then rest
      else then_do (W.delete keys s) (λ failed t. purge_pages pages (deleted + length keys) t)

  -- `_purge_storage`
  unfoldable pub purge_storage : Text → W.S → Outcome W.S ℕ
  purge_storage location_prefix s =
      if is_empty (normalise_prefix location_prefix)
      then (err purge_refused, s)
      else purge_pages (W.pages s (normalise_prefix location_prefix ++ codes "/")) 0 s

  abbrev pub drop_table : Text → TableFile → W.S → Result (W.S → ℕ × W.S)
  drop_table schema f s =
      ok (λ t. failing (W.execute schema (codes "DROP TABLE IF EXISTS " ++ f.table) t))

  unfoldable pub drop_layers : TrinoSettings → Text → Grouped → List Layer → ℕ → W.S → Outcome W.S ℕ
  drop_layers settings location_prefix g [] failures s = (ok failures, s)
  drop_layers settings location_prefix g (l ∷ ls) failures s =
      let schema = schema_name (layer_text l) location_prefix in
      then_do (for_tables (drop_table schema) (grouped_at l g) failures s) (λ n t.
        let (m, u) = failing (
          W.execute schema
            (codes "DROP SCHEMA IF EXISTS " ++ (settings.catalog ++ (codes "." ++ schema))) t) in
        drop_layers settings location_prefix g ls (n + m) u)

  -- `cmd_teardown`
  unfoldable pub cmd_teardown : List (Text × Text) → TrinoSettings → Text → W.S → Outcome W.S ℕ
  cmd_teardown files settings location_prefix s =
      if is_empty (normalise_prefix location_prefix)
      then (ok 2, s)
      else with_value (tables_by_layer files) s (λ g.
        then_do (drop_layers settings location_prefix g (silver ∷ gold ∷ []) 0 s)
          (λ n t. then_do (purge_storage location_prefix t) (λ deleted u. (ok (exit_code n), u))))

pub data Command : Type 0 where
  create smoke teardown : Command

-- The options of a command line that is parsed.
pub record Arguments : Type 0 where
  pub command : Command
  pub bucket : Option Text
  pub location_prefix : Text

abbrev is_teardown : Command → Bool
is_teardown teardown = true
is_teardown _ = false

abbrev bucket_of : Arguments → Environment → Text
bucket_of args env = or_variable args.bucket
  where
    or_variable : Option Text → Text
    or_variable none = variable (codes "S3_BUCKET_NAME") env
    or_variable (some b) = if is_empty b then variable (codes "S3_BUCKET_NAME") env else b

module _ (W : Cluster) (int_of : Text → Option ℕ) (files : List (Text × Text)) where
  abbrev pub dispatched : Command → TrinoSettings → Text → Text → W.S → Outcome W.S ℕ
  dispatched create settings bucket prefix s = cmd_create W files settings bucket prefix s
  dispatched smoke settings bucket prefix s = cmd_smoke W files prefix s
  dispatched teardown settings bucket prefix s = cmd_teardown W files settings prefix s

  abbrev pub configured : Arguments → Text → Result TrinoSettings → W.S → Outcome W.S ℕ
  configured args bucket (err e) s = (ok 2, s)
  configured args bucket (ok settings) s =
      dispatched args.command settings bucket args.location_prefix s

  -- `main`, on parsed arguments
  unfoldable pub main : Arguments → Environment → W.S → Outcome W.S ℕ
  main args env s =
      if is_teardown args.command && is_empty (normalise_prefix args.location_prefix)
      then (ok 2, s)
      else if is_empty (bucket_of args env)
      then (ok 2, s)
      else configured args (bucket_of args env) (load_trino_settings int_of env) s

  -- `main` of sync_partitions.py, for a schema and a table
  unfoldable pub sync_partitions : Text → Text → Environment → W.S → Outcome W.S ℕ
  sync_partitions schema table env s = synced (load_trino_settings int_of env)
    where
      synced : Result TrinoSettings → Outcome W.S ℕ
      synced (err e) = (ok 64, s)
      synced (ok settings) =
          then_do
            (W.execute schema
              (codes "CALL "
                ++ (settings.catalog
                    ++ (codes ".system.sync_partition_metadata(schema_name => '"
                        ++ (schema
                            ++ (codes "', table_name => '"
                                ++ (table ++ codes "', mode => 'FULL')"))))))
              s)
            (λ rows t. (ok 0, t))
