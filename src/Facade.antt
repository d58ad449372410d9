-- ===== src/Facade.antt =====
-- ingestion/backfill/facade.py: one document at a time, fetched and written. The parameters are the
-- platform, the services, the clock and the source's configuration.
pub mod Fetch
pub mod Resolve
pub mod Upload
use urban_ops_intelligence_p.Prelude.{
  ℕ, Bool, true, false, not, Option, none, some, List, [], ◌∷◌, ◌++◌, ◌==◌, if◌then◌else◌, Text,
  codes, text_eq, length, is_empty, keep, Phase, fetch, upload, Exception, unknown_dataset,
  no_dataset_with_strategy, not_first_of_month, static_not_windowed, snapshot_leaked, fetch_failed,
  upload_failed, all_failed, is_backfill_error, Result, ok, err, ◌>>=◌, list_of,
}
use urban_ops_intelligence_p.Calendar.{Date, next_day, next_month, month_format}
use urban_ops_intelligence_p.Config.{
  SourceConfig, DatasetConfig, PartitionStrategy, daily, monthly, static, snapshot, same_strategy,
  strategy_for, datasets_with_strategy, names,
}
use urban_ops_intelligence_p.Records.{Record}
use urban_ops_intelligence_p.Fetchers.{Fetcher, build_fetcher, Upstream}
use urban_ops_intelligence_p.Fetchers.Run
use urban_ops_intelligence_p.Manifest.{ManifestEntry}
use urban_ops_intelligence_p.Platform.{Platform, Clock}
use urban_ops_intelligence_p.Loader.{bronze_prefix}
use urban_ops_intelligence_p.Loader.Writes.{
  Outcome, with_result, write_snapshot, write_monthly_shard,
}
use urban_ops_intelligence_p.Loader.Daily.{write_daily}

abbrev pub matching :
    SourceConfig → Option PartitionStrategy → List DatasetConfig → Result (List DatasetConfig)
matching cfg none candidates = ok candidates
matching cfg (some s) candidates =
    let kept = keep (λ d. same_strategy (strategy_for cfg d) s) candidates in
    if is_empty kept then err no_dataset_with_strategy else ok kept

-- `_resolve_datasets`
unfoldable pub resolve_datasets :
    SourceConfig → Option Text → Option PartitionStrategy → Result (List DatasetConfig)
resolve_datasets cfg none strategy = matching cfg strategy cfg.datasets
resolve_datasets cfg (some name) strategy =
    let candidates = keep (λ d. text_eq d.name name) cfg.datasets in
    if is_empty candidates
    then err (unknown_dataset name (names cfg.datasets))
    else matching cfg strategy candidates

-- `ds.timestamp_field or ""` of the loader that `_loaders` holds for a name: the last one made.
abbrev field_or_blank : Option Text → Text
field_or_blank none = []
field_or_blank (some f) = f

abbrev last_field : Text → Text → List DatasetConfig → Text
last_field name field [] = field
last_field name field (d ∷ ds) =
    last_field name (if text_eq d.name name then field_or_blank d.timestamp_field else field) ds

unfoldable pub loader_field : SourceConfig → Text → Text
loader_field cfg name = last_field name [] cfg.datasets

abbrev pub or_start : Option Date → Date → Date
or_start none start = start
or_start (some day) start = day

abbrev or_month : Option Text → Date → Text
or_month none start = month_format start
or_month (some part) start = part

-- `_partition_prefix`
unfoldable pub partition_prefix : SourceConfig → DatasetConfig → ManifestEntry → Text
partition_prefix cfg ds m = bronze_prefix cfg.source.id ds.name (elim (strategy_for cfg ds) [
  | daily ↦ some m.month_partition
  | snapshot ↦ some (codes "ingest_date=" ++ m.ingest_date)
  | _ ↦ none
])

-- What the loop of `_upload_window` has gathered.
pub record Gathered : Type 0 where
  pub manifests : List ManifestEntry
  pub failures : List Exception

abbrev pub nothing_gathered : Gathered
nothing_gathered = record { manifests = []; failures = [] }

abbrev pub with_failure : Exception → Gathered → Gathered
with_failure e g = record g { failures = g.failures ++ e ∷ [] }

abbrev pub with_manifests : List ManifestEntry → Gathered → Gathered
with_manifests ms g = record g { manifests = g.manifests ++ ms }

module _ (up : Upstream) (now : Clock) (cfg : SourceConfig) where
  abbrev fetch_error : DatasetConfig → Exception → Exception
  fetch_error ds e = if is_backfill_error e then e else fetch_failed cfg.source.id ds.name e

  abbrev fetched : DatasetConfig → Result (List Record) → Result (List Record)
  fetched ds (ok rs) = ok rs
  fetched ds (err e) = err (fetch_error ds e)

  -- `_fetch_one`: the factory stands outside the `try`.
  unfoldable pub fetch_one : DatasetConfig → Date → Date → Result (List Record)
  fetch_one ds start end = build_fetcher ds start end (strategy_for cfg ds) >>= λ fetcher.
      fetched ds (list_of (Run.fetch up now.today fetcher))

module _ (P : Platform) (up : Upstream) (now : Clock) (cfg : SourceConfig) where
  abbrev one : Outcome P.State ManifestEntry → Outcome P.State (List ManifestEntry)
  one (ok m, s) = (ok (m ∷ []), s)
  one (err e, s) = (err e, s)

  abbrev write_by :
      PartitionStrategy
      → DatasetConfig
      → List Record
      → Date
      → Option Text
      → Option Date
      → P.State
      → Outcome P.State (List ManifestEntry)
  write_by daily ds records start month day s =
      write_daily P now (loader_field cfg ds.name) cfg.source.id ds.name records s
  write_by snapshot ds records start month day s = one (
      write_snapshot P now (loader_field cfg ds.name) cfg.source.id ds.name (or_start day start)
        records s)
  write_by _ ds records start month day s = one (
      write_monthly_shard P now (loader_field cfg ds.name) cfg.source.id ds.name
        (or_month month start) records s)

  -- `_write_one`
  unfoldable pub write_one :
      DatasetConfig
      → List Record
      → Date
      → Option Text
      → Option Date
      → P.State
      → Outcome P.State (List ManifestEntry)
  write_one ds = write_by (strategy_for cfg ds) ds

  -- What `_upload_window` makes of a write.
  abbrev after_write :
      DatasetConfig → Gathered → Outcome P.State (List ManifestEntry) → Gathered × P.State
  after_write ds g (ok ms, s) = (with_manifests ms g, s)
  after_write ds g (err e, s) = (with_failure (upload_failed cfg.source.id ds.name e) g, s)

  -- The loop of `_upload_window`. What is no `BackfillError` leaves it at once.
  unfoldable pub upload_loop :
      Date
      → Date
      → Option Text
      → Option Date
      → List DatasetConfig
      → Gathered
      → P.State
      → Outcome P.State Gathered
  upload_loop start end month day [] g s = (ok g, s)
  upload_loop start end month day (ds ∷ rest) g s = elim (fetch_one up now cfg ds start end) [
    | err e ↦
        if is_backfill_error e
        then upload_loop start end month day rest (with_failure e g) s
        else (err e, s)
    | ok records ↦ elim (is_empty records) [
      | true ↦ upload_loop start end month day rest g s
      | false ↦
          let (g', s') = after_write ds g (write_one ds records start month day s) in
          upload_loop start end month day rest g' s'
    ]
  ]

  abbrev concluded : List ManifestEntry → List Exception → Result (List ManifestEntry)
  concluded [] [] = ok []
  concluded [] (e ∷ es) = err (all_failed upload cfg.source.id (length (e ∷ es)) e)
  concluded (m ∷ ms) es = ok (m ∷ ms)

  abbrev conclude : Outcome P.State Gathered → Outcome P.State (List ManifestEntry)
  conclude (ok g, s) = (concluded g.manifests g.failures, s)
  conclude (err e, s) = (err e, s)

  abbrev pub leaked : Option Date → List DatasetConfig → List DatasetConfig
  leaked (some day) datasets = []
  leaked none datasets = keep (λ d. same_strategy (strategy_for cfg d) snapshot) datasets

  -- `_upload_window`
  unfoldable pub upload_datasets :
      Date
      → Date
      → Option Text
      → Option Text
      → Option Date
      → Option PartitionStrategy
      → P.State
      → Outcome P.State (List ManifestEntry)
  upload_datasets start end name month day strategy =
      with_result (resolve_datasets cfg name strategy) (λ datasets s.
        if is_empty (leaked day datasets)
        then conclude (upload_loop start end month day datasets nothing_gathered s)
        else (err (snapshot_leaked cfg.source.id (names (leaked day datasets))), s))

  -- `upload_day`
  unfoldable pub upload_day : Date → Option Text → P.State → Outcome P.State (List ManifestEntry)
  upload_day d name = upload_datasets d (next_day d) name none none (some daily)

  -- `upload_window`
  unfoldable pub upload_window :
      Date
      → Date
      → Option Text
      → Option PartitionStrategy
      → P.State
      → Outcome P.State (List ManifestEntry)
  upload_window start end name strategy s =
      if is_empty (datasets_with_strategy cfg static)
      then upload_datasets start end name none none strategy s
      else (err static_not_windowed, s)

  -- `upload_month`
  unfoldable pub upload_month : Date → Option Text → P.State → Outcome P.State (List ManifestEntry)
  upload_month month name s =
      if month.day == 1
      then upload_datasets month (next_month month) name none none (some monthly) s
      else (err not_first_of_month, s)

  -- `upload_static`
  unfoldable pub upload_static : Option Text → P.State → Outcome P.State (List ManifestEntry)
  upload_static name =
      upload_datasets now.today (next_day now.today) name (some (codes "static")) none (some static)

  -- `upload_snapshot`
  unfoldable pub upload_snapshot :
      Option Date → Option Text → P.State → Outcome P.State (List ManifestEntry)
  upload_snapshot ingest_date name =
      let d = or_start ingest_date now.today in
      upload_datasets d (next_day d) name none (some d) (some snapshot)
