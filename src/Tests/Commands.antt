-- ===== src/Tests/Commands.antt =====
-- Command lines of a collection and of a backfill.
use urban_ops_intelligence_p.Prelude.{
  take, ◌++◌, if◌then◌else◌, ◌-◌, ◌≡◌, refl, true, false, none, some, [], ◌∷◌, if◌then◌else◌, Text,
  codes, is_empty, Exception, exits, ok,
}
use urban_ops_intelligence_p.Calendar.{first_of_month}
use urban_ops_intelligence_p.Calendar.Months.{month_index}
use urban_ops_intelligence_p.Config.{
  SourceConfig, datasets_with_strategy, snapshot, monthly, strategy_for, validate_source,
  validate_metadata, validate_datasets, validate_dataset, check_primary_key,
  check_field_combinations, check_partition_strategy_vs_timestamps,
}
use urban_ops_intelligence_p.Bulk.Months.{firsts, end_index}
use urban_ops_intelligence_p.Facade.{upload_month}
use urban_ops_intelligence_p.Snapshot.{failures, failure_of}
use urban_ops_intelligence_p.Registry.{read_yaml, validate, load_source_config, index_source_files}
use urban_ops_intelligence_p.CollectSnapshot.{Channels, Arguments, posted, checked_in, main}
use urban_ops_intelligence_p.CollectSnapshot.Outcomes.{attempts, main-attempted}
use urban_ops_intelligence_p.BackfillCli
use urban_ops_intelligence_p.BackfillCli.{run_standard_backfill}
use urban_ops_intelligence_p.BackfillCli.Exits.{
  some_raise, store_after, run_standard_backfill-monthly,
}
use urban_ops_intelligence_p.Tests.Data.{memory, working, clock, ninth, registry, requests, crimes}
use urban_ops_intelligence_p.Tests.Settings.{city}
use urban_ops_intelligence_p.Tests.Windows.{unused, april, ninth-IsDate, april-IsDate}
use urban_ops_intelligence_p.Tests.Registries.{file_with, city_files, city_found}

abbrev channels : Channels
channels = record {
  alert_url = codes "https://alerts.city.org";
  watchdog_url = codes "https://watchdog.city.org";
  host = codes "collector";
  post = λ url content. true;
  get = λ url. true;
}

abbrev message : Exception → Text
message e = codes "failed"

abbrev arguments : Arguments
arguments = record {
  source = codes "SRC-001";
  bucket = codes "lake";
  ingest_date = some ninth;
  min_records = none;
  dry_run = false;
}

snapshots : datasets_with_strategy city snapshot ≡ crimes ∷ []
unfolding datasets_with_strategy strategy_for
snapshots = refl

main-attempted_example : main memory working clock channels message city_files arguments [] ≡ (
    if is_empty (
      failures memory working clock city none
        (attempts memory working clock channels message city arguments (crimes ∷ []) []).0)
    then (
      (exits 0, checked_in (codes "https://watchdog.city.org") ∷ []),
      (attempts memory working clock channels message city arguments (crimes ∷ []) []).1,
    )
    else (
      (
        exits 2,
        posted (codes "https://alerts.city.org") (
              take 2000 (
                codes "❌ ["
                ++ (codes "SRC-001"
                    ++ (codes "] snapshot collection failed on "
                        ++ (codes "collector"
                            ++ (codes ": "
                                ++ message (
                                    failure_of memory working clock city none
                                      (attempts memory working clock channels message city arguments
                                        (crimes ∷ [])
                                        []).0)))))))
            ∷ [],
      ),
      (attempts memory working clock channels message city arguments (crimes ∷ []) []).1,
    ))
main-attempted_example =
    main-attempted memory working clock channels message city_files arguments city crimes [] [] refl
      refl city_found snapshots

abbrev monthly_city : SourceConfig
monthly_city =
    let base = registry (record requests { partition_strategy = none } ∷ []) in
    record base { source = record base.source { partition_strategy = monthly } }

monthly_found : load_source_config (file_with monthly_city ∷ []) (codes "SRC-001") ≡ ok monthly_city
unfolding load_source_config index_source_files read_yaml validate validate_source validate_metadata
    validate_datasets validate_dataset check_primary_key check_field_combinations
    check_partition_strategy_vs_timestamps strategy_for
monthly_found = refl

abbrev window : BackfillCli.Arguments
window = record {
  start = ninth;
  end = april;
  fetch_only = false;
  dry_run = false;
  bucket = codes "lake";
  max_workers = some 1;
}

run_standard_backfill-monthly_example :
    run_standard_backfill memory working clock unused
      (file_with monthly_city ∷ [])
      (codes "SRC-001")
      window
      []
    ≡ (
      (if some_raise
            (λ m t. upload_month memory working clock monthly_city m none t)
            (firsts (end_index april - month_index ninth) (first_of_month ninth))
            []
          then exits 2
          else exits 0),
      store_after
          (λ m t. upload_month memory working clock monthly_city m none t)
          (firsts (end_index april - month_index ninth) (first_of_month ninth))
          [],
    )
run_standard_backfill-monthly_example =
    run_standard_backfill-monthly memory working clock unused (file_with monthly_city ∷ [])
      (codes "SRC-001") window monthly_city [] monthly_found refl refl refl refl ninth-IsDate
      april-IsDate
