-- ===== src/Tests/Uploads.antt =====
-- Uploads that fail, that are refused, and a collection of a snapshot.
use urban_ops_intelligence_p.Prelude.{
  ◌≡◌, ◌↔◌, ◌<◌, refl, true, none, some, List, [], ◌∷◌, map, length, codes, arith, upload,
  Exception, all_failed, fetch_failed, missing_timestamp_field, snapshot_too_small,
  failed_after_attempts, request_exception, socrata_fetch_failed, ok, err,
}
use urban_ops_intelligence_p.Config.{daily, snapshot, strategy_for, datasets_with_strategy, names}
use urban_ops_intelligence_p.Socrata.{
  request_with_retry, request_loop, fetch_page, fetch_all_paginated, page_loop, new_client,
}
use urban_ops_intelligence_p.Fetchers.{build_fetcher}
use urban_ops_intelligence_p.Fetchers.Build.{has_no_window}
use urban_ops_intelligence_p.Fetchers.Requests.{fetch_socrata}
use urban_ops_intelligence_p.Fetchers.Run
use urban_ops_intelligence_p.Facade.{
  resolve_datasets, fetch_one, upload_datasets, upload_snapshot, leaked,
}
use urban_ops_intelligence_p.Facade.Upload.{upload_datasets-AllFail, upload_snapshot-refused}
use urban_ops_intelligence_p.Snapshot.{
  SnapshotResult, collect, collect_each, collect_one, resolve_min_records, failures,
}
use urban_ops_intelligence_p.Snapshot.Collect.{collect_lem, collect_one-too_small}
use urban_ops_intelligence_p.Tests.Data.{
  memory, working, broken, clock, ninth, tenth, two_records, requests, crimes,
}
use urban_ops_intelligence_p.Tests.Settings.{city, crimes-Serves}

found_daily : resolve_datasets city none (some daily) ≡ ok (requests ∷ [])
unfolding resolve_datasets strategy_for
found_daily = refl

found_snapshot : resolve_datasets city none (some snapshot) ≡ ok (crimes ∷ [])
unfolding resolve_datasets strategy_for
found_snapshot = refl

-- What the broken portal ends in.
abbrev down : Exception
down =
    fetch_failed (codes "SRC-001") (codes "requests")
      (socrata_fetch_failed (codes "requests") (failed_after_attempts 5 (request_exception 500)))

fetch_fails : fetch_one broken clock city requests ninth tenth ≡ err down
unfolding fetch_one build_fetcher strategy_for new_client Run.fetch fetch_socrata
    fetch_all_paginated page_loop fetch_page request_with_retry request_loop
fetch_fails = refl

nothing_leaks : leaked memory broken clock city none (requests ∷ []) ≡ []
unfolding strategy_for
nothing_leaks = refl

upload_datasets-AllFail_example :
    upload_datasets memory broken clock city ninth tenth none none none (some daily) []
    ≡ (err (all_failed upload (codes "SRC-001") 1 down), [])
upload_datasets-AllFail_example =
    upload_datasets-AllFail memory broken clock city ninth tenth none none none (some daily)
      requests [] down [] [] found_daily nothing_leaks (fetch_fails, refl, tt)

windowless : has_no_window crimes (strategy_for city crimes) ≡ true
unfolding strategy_for
windowless = refl

upload_snapshot-refused_example :
    upload_snapshot memory working clock city none none []
    ≡ (err (missing_timestamp_field (codes "crimes")), [])
upload_snapshot-refused_example =
    upload_snapshot-refused memory working clock city none none crimes [] [] found_snapshot
      crimes-Serves (λ h. refl) windowless

snapshots : datasets_with_strategy city snapshot ≡ crimes ∷ []
unfolding datasets_with_strategy strategy_for
snapshots = refl

collect_lem_example :
    (map
        (λ r. r.dataset_name)
        (collect_each memory working clock city none (crimes ∷ []) ninth []).0
      ≡ names (crimes ∷ []))
    × ((collect memory working clock city none none []).1
        ≡ (collect_each memory working clock city none (crimes ∷ []) ninth []).1)
    × ((rs : List SnapshotResult)
        → ((collect memory working clock city none none []).0 ≡ ok rs) ↔ (
            (rs ≡ (collect_each memory working clock city none (crimes ∷ []) ninth []).0)
            × (failures memory working clock city none rs ≡ [])))
collect_lem_example = collect_lem memory working clock city none none [] crimes [] snapshots

small_table : length two_records < resolve_min_records crimes none
unfolding resolve_min_records
small_table = omega arith

collect_one-too_small_example : collect_one memory working clock city none crimes ninth [] ≡ (
  record {
    dataset_name = codes "crimes";
    record_count = 0;
    stored_bytes = 0;
    error = some (snapshot_too_small (length two_records) (resolve_min_records crimes none));
  },
  [],
)
collect_one-too_small_example =
    collect_one-too_small memory working clock city none crimes ninth [] two_records refl refl refl
      refl (λ offset. refl) (omega arith) small_table
