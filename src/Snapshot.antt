-- ===== src/Snapshot.antt =====
-- ingestion/snapshot/collector.py and fetch.py: one day's capture of the snapshot datasets.
pub mod Collect
use urban_ops_intelligence_p.Prelude.{
  ℕ, Bool, true, false, not, ◌&&◌, ◌||◌, Option, none, some, List, [], ◌∷◌, ◌++◌, if◌then◌else◌,
  Text, codes, length, is_empty, keep, is_some, map, Exception, no_snapshot_dataset,
  not_snapshot_api, missing_resource, request_exception, snapshot_fetch_error,
  snapshot_collection_error, Result, ok, err, Generator, raises, catching,
}
use urban_ops_intelligence_p.Calendar.{Date, next_day}
use urban_ops_intelligence_p.Config.{
  SourceConfig, DatasetConfig, ApiType, open_meteo, socrata, socrata_geojson, generic_rest,
  snapshot, datasets_with_strategy, truthy,
}
use urban_ops_intelligence_p.Records.{Record}
use urban_ops_intelligence_p.Socrata.{default_page_size, new_client, fetch_all_paginated}
use urban_ops_intelligence_p.Fetchers.{Upstream, build, or_blank}
use urban_ops_intelligence_p.Fetchers.Requests.{is_socrata_error}
use urban_ops_intelligence_p.Fetchers.Run
use urban_ops_intelligence_p.Manifest.{ManifestEntry}
use urban_ops_intelligence_p.Platform.{Platform, Clock}
use urban_ops_intelligence_p.Loader.Writes.{Outcome}
use urban_ops_intelligence_p.Loader.Stream.{write_snapshot_stream}

abbrev pub default_min_records : ℕ
default_min_records = 1000

-- `resolve_min_records`
unfoldable pub resolve_min_records : DatasetConfig → Option ℕ → ℕ
resolve_min_records ds (some override) = override
resolve_min_records ds none = elim ds.snapshot_min_records [
  | none ↦ default_min_records
  | some n ↦ n
]

abbrev is_request_error : Exception → Bool
is_request_error (request_exception e) = true
is_request_error _ = false

-- The two `except` clauses: each wraps the errors of its own transport.
abbrev wrap_if : (Exception → Bool) → Text → Exception → Exception
wrap_if caught name e = if caught e then snapshot_fetch_error name e else e

-- A generator that fails before its first record if its set-up does.
abbrev started : {A : Type 0} → Result A → (A → Generator Record) → Generator Record
started (err e) run = raises e
started (ok a) run = run a

-- `fetch_snapshot_records`, by `api_type`. Open-Meteo goes through the backfill fetcher, over today.
abbrev pub fetch_by : Upstream → Clock → ApiType → DatasetConfig → Generator Record
fetch_by up now open_meteo ds =
    started (build open_meteo ds now.today (next_day now.today) snapshot)
      (λ fetcher. catching (wrap_if is_request_error ds.name) (Run.fetch up now.today fetcher))
fetch_by up now socrata ds =
    if not (truthy ds.resource_id) || not (truthy ds.domain)
    then raises (missing_resource ds.name)
    else started (new_client (or_blank ds.resource_id) (or_blank ds.domain)) (λ client.
      catching (wrap_if is_socrata_error ds.name) (
        fetch_all_paginated (up.portal client) up.rounds default_page_size none
          (some (codes ":id"))))
fetch_by up now _ ds = raises (not_snapshot_api ds.name)

unfoldable pub fetch_snapshot_records : Upstream → Clock → DatasetConfig → Generator Record
fetch_snapshot_records up now ds = fetch_by up now ds.api_type ds

-- The outcome of one dataset. A failed one has its exception.
pub record SnapshotResult : Type 0 where
  pub dataset_name : Text
  pub record_count : ℕ
  pub stored_bytes : ℕ
  pub error : Option Exception

abbrev pub is_ok : SnapshotResult → Bool
is_ok r = not (is_some r.error)

abbrev pub field_or_blank : Option Text → Text
field_or_blank none = []
field_or_blank (some f) = f

module _ (P : Platform) (up : Upstream) (now : Clock) (cfg : SourceConfig)
    (min_records : Option ℕ) where
  abbrev pub outcome : DatasetConfig → Outcome P.State ManifestEntry → SnapshotResult × P.State
  outcome ds (ok m, s) = (
    record {
      dataset_name = ds.name;
      record_count = m.record_count;
      stored_bytes = m.stored_bytes;
      error = none;
    },
    s,
  )
  outcome ds (err e, s) =
      (record { dataset_name = ds.name; record_count = 0; stored_bytes = 0; error = some e }, s)

  -- `_collect_one`
  unfoldable pub collect_one : DatasetConfig → Date → P.State → SnapshotResult × P.State
  collect_one ds d s = outcome ds (
      write_snapshot_stream P now (field_or_blank ds.timestamp_field) cfg.source.id ds.name d
        (fetch_snapshot_records up now ds) (resolve_min_records ds min_records) s)

  unfoldable pub collect_each : List DatasetConfig → Date → P.State → List SnapshotResult × P.State
  collect_each [] d s = ([], s)
  collect_each (ds ∷ rest) d s =
      let (r, s') = collect_one ds d s in let (rs, s'') = collect_each rest d s' in (r ∷ rs, s'')

  abbrev pub failures : List SnapshotResult → List SnapshotResult
  failures = keep (λ r. not (is_ok r))

  abbrev pub failure_of : List SnapshotResult → Exception
  failure_of rs =
      snapshot_collection_error cfg.source.id (length (failures rs)) (length rs)
        (map (λ r. r.dataset_name) (failures rs))

  abbrev pub concluded : List SnapshotResult × P.State → Outcome P.State (List SnapshotResult)
  concluded (rs, s) = if is_empty (failures rs) then (ok rs, s) else (err (failure_of rs), s)

  abbrev pub or_today : Option Date → Date
  or_today none = now.today
  or_today (some d) = d

  -- `SnapshotCollector(...).collect(ingest_date)`: a source without snapshot datasets is refused
  -- when the collector is made.
  unfoldable pub collect : Option Date → P.State → Outcome P.State (List SnapshotResult)
  collect ingest_date s =
      if is_empty (datasets_with_strategy cfg snapshot)
      then (err no_snapshot_dataset, s)
      else concluded (collect_each (datasets_with_strategy cfg snapshot) (or_today ingest_date) s)
