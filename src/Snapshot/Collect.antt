-- ===== src/Snapshot/Collect.antt =====
-- `SnapshotCollector.collect`: each dataset is tried, and a small pull stores nothing.
use urban_ops_intelligence_p.Prelude.{
  ℕ, ◌≡◌, ◌↔◌, ◌<◌, refl, sym, ap, ◌∙◌, true, false, Option, none, some, List, [], ◌∷◌, map, take,
  drop, length, lt→ltb, codes, arith, snapshot_too_small, ok, err, stop, yield_from,
  catching-yield_from,
}
use urban_ops_intelligence_p.Calendar.{Date}
use urban_ops_intelligence_p.Config.{
  SourceConfig, DatasetConfig, socrata, snapshot, datasets_with_strategy, truthy, is_blank, names,
}
use urban_ops_intelligence_p.Records.{Record}
use urban_ops_intelligence_p.Socrata.{default_page_size, new_client}
use urban_ops_intelligence_p.Socrata.Retry.{first_rows}
use urban_ops_intelligence_p.Socrata.Pages.{page_query, fetch_all_paginated-table}
use urban_ops_intelligence_p.Fetchers.{Upstream, or_blank}
use urban_ops_intelligence_p.Manifest.{ManifestEntry}
use urban_ops_intelligence_p.Platform.{Platform, Clock}
use urban_ops_intelligence_p.Loader.Writes.{Outcome}
use urban_ops_intelligence_p.Loader.Stream.Guard.{write_snapshot_stream-floor}
use urban_ops_intelligence_p.Snapshot.{
  SnapshotResult, resolve_min_records, fetch_snapshot_records, collect_one, fetch_by,
  field_or_blank, collect_each, collect, failures, or_today, outcome, concluded,
}

-- A snapshot of a whole portal table pulls the table.
fetch_snapshot_records-table :
    (up : Upstream) (now : Clock) (ds : DatasetConfig) (table : List Record)
    → ds.api_type ≡ socrata
    → truthy ds.resource_id ≡ true
    → truthy ds.domain ≡ true
    → is_blank (or_blank ds.domain) ≡ false
    → ((offset : ℕ)
        → first_rows
            (up.portal
              (record { resource_id = or_blank ds.resource_id; domain = or_blank ds.domain })
              (page_query default_page_size none (some (codes ":id")) offset))
            5
            0
          ≡ some (take default_page_size (drop offset table)))
    → length table < up.rounds
    → fetch_snapshot_records up now ds ≡ yield_from table stop
unfolding fetch_snapshot_records new_client
fetch_snapshot_records-table up now ds table api resource domain named answers rounds =
    ap (λ a. fetch_by up now a ds) api
    ∙ rw (resource, domain, named)
        (rw
          (fetch_all_paginated-table
            (up.portal
              (record { resource_id = or_blank ds.resource_id; domain = or_blank ds.domain }))
            up.rounds default_page_size none (some (codes ":id")) table (omega arith) answers
            rounds)
          (catching-yield_from _ table stop))

module _ (P : Platform) (up : Upstream) (now : Clock) (cfg : SourceConfig)
    (min_records : Option ℕ) where
  outcome-name :
      (ds : DatasetConfig) (o : Outcome P.State ManifestEntry)
      → (outcome P up now cfg min_records ds o).0.dataset_name ≡ ds.name
  outcome-name ds (ok m, s) = refl
  outcome-name ds (err e, s) = refl

  collect_one-name :
      (ds : DatasetConfig) (d : Date) (s : P.State)
      → (collect_one P up now cfg min_records ds d s).0.dataset_name ≡ ds.name
  unfolding collect_one
  collect_one-name ds d s = outcome-name ds _

  collect_each-names :
      (ds : List DatasetConfig) (d : Date) (s : P.State)
      → map (λ r. r.dataset_name) (collect_each P up now cfg min_records ds d s).0 ≡ names ds
  unfolding collect_each
  collect_each-names [] d s = refl
  collect_each-names (x ∷ ds) d s = λ i.
      collect_one-name x d s i
      ∷ collect_each-names ds d (collect_one P up now cfg min_records x d s).1 i

  concluded_lem :
      (out : List SnapshotResult × P.State)
      → ((concluded P up now cfg min_records out).1 ≡ out.1)
        × ((rs : List SnapshotResult)
            → ((concluded P up now cfg min_records out).0 ≡ ok rs)
              ↔ ((rs ≡ out.0) × (failures P up now cfg min_records rs ≡ [])))
  concluded_lem (out, s) = by_failures (failures P up now cfg min_records out) refl
    where
      by_failures :
          (fs : List SnapshotResult)
          → failures P up now cfg min_records out ≡ fs
          → ((concluded P up now cfg min_records (out, s)).1 ≡ s)
            × ((rs : List SnapshotResult)
                → ((concluded P up now cfg min_records (out, s)).0 ≡ ok rs)
                  ↔ ((rs ≡ out) × (failures P up now cfg min_records rs ≡ [])))
      by_failures [] e = rw e (
        refl,
        λ rs. (
          λ h. let same : rs ≡ out = cc in (same, ap (failures P up now cfg min_records) same ∙ e),
          λ h. cc,
        ),
      )
      by_failures (f ∷ fs) e = rw e (
        refl,
        λ rs. (
          λ h. cc,
          λ h.
              let none_failed = sym (ap (failures P up now cfg min_records) h.0) ∙ h.1 in
              let impossible : f ∷ fs ≡ [] = sym e ∙ none_failed in cc,
        ),
      )

  -- For a source with snapshot datasets, a collection has a result for each of them, in their
  -- order, and leaves the store as the attempts at all of them do; it returns these results just
  -- when none of them failed.
  pub collect_lem :
      (ingest_date : Option Date) (s : P.State) (d : DatasetConfig) (ds : List DatasetConfig)
      → datasets_with_strategy cfg snapshot ≡ d ∷ ds
      → (map
            (λ r. r.dataset_name)
            (collect_each P up now cfg min_records
              (d ∷ ds)
              (or_today P up now cfg min_records ingest_date)
              s).0
          ≡ names (d ∷ ds))
        × ((collect P up now cfg min_records ingest_date s).1
            ≡ (collect_each P up now cfg min_records
                (d ∷ ds)
                (or_today P up now cfg min_records ingest_date)
                s).1)
        × ((rs : List SnapshotResult)
            → ((collect P up now cfg min_records ingest_date s).0 ≡ ok rs) ↔ (
                (rs
                  ≡ (collect_each P up now cfg min_records
                      (d ∷ ds)
                      (or_today P up now cfg min_records ingest_date)
                      s).0)
                × (failures P up now cfg min_records rs ≡ [])))
  unfolding collect
  collect_lem ingest_date s d ds some_datasets =
      let results =
        collect_each P up now cfg min_records (d ∷ ds)
          (or_today P up now cfg min_records ingest_date) s in
      rw some_datasets (
        collect_each-names (d ∷ ds) (or_today P up now cfg min_records ingest_date) s,
        (concluded_lem results).0,
        (concluded_lem results).1,
      )

  -- Take a Socrata dataset with its resource and a domain that is not blank, whose portal gives
  -- each page of a table within five attempts. If the table is below the floor, and there are
  -- more rounds than rows, its result is a failure with the size of the table and the floor, and
  -- the store is left as it was.
  pub collect_one-too_small :
      (ds : DatasetConfig) (d : Date) (s : P.State) (table : List Record)
      → ds.api_type ≡ socrata
      → truthy ds.resource_id ≡ true
      → truthy ds.domain ≡ true
      → is_blank (or_blank ds.domain) ≡ false
      → ((offset : ℕ)
          → first_rows
              (up.portal
                (record { resource_id = or_blank ds.resource_id; domain = or_blank ds.domain })
                (page_query default_page_size none (some (codes ":id")) offset))
              5
              0
            ≡ some (take default_page_size (drop offset table)))
      → length table < up.rounds
      → length table < resolve_min_records ds min_records
      → collect_one P up now cfg min_records ds d s ≡ (
        record {
          dataset_name = ds.name;
          record_count = 0;
          stored_bytes = 0;
          error = some (snapshot_too_small (length table) (resolve_min_records ds min_records));
        },
        s,
      )
  unfolding collect_one
  collect_one-too_small ds d s table api resource domain named answers rounds small =
      let pulled =
        fetch_snapshot_records-table up now ds table api resource domain named answers rounds in
      rw (
        pulled,
        write_snapshot_stream-floor P now (field_or_blank ds.timestamp_field) cfg.source.id ds.name
            d (resolve_min_records ds min_records) s table,
        lt→ltb _ _ small,
      )
