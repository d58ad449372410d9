-- ===== src/Tests/Settings.antt =====
-- A registry of two datasets and of none that is at fault.
use urban_ops_intelligence_p.Prelude.{
  ◌≡◌, ◌↔◌, refl, true, [], ◌∷◌, All, ok, err, missing_timestamp_field,
}
use urban_ops_intelligence_p.Config.{
  SourceConfig, snapshot, strategy_for, check_partition_strategy_vs_timestamps,
  check_field_combinations, check_primary_key, validate_dataset, validate_datasets,
  validate_metadata, validate_source,
}
use urban_ops_intelligence_p.Config.Validation.{
  Agrees, Serves, check_field_combinations-Serves, validate_source-datasets,
}
use urban_ops_intelligence_p.Fetchers.{build_fetcher}
use urban_ops_intelligence_p.Fetchers.Build.{has_no_window, build_fetcher-err}
use urban_ops_intelligence_p.Tests.Data.{registry, requests, crimes, ninth, tenth}

abbrev pub city : SourceConfig
city = registry (requests ∷ crimes ∷ [])

validates : validate_source city ≡ ok tt
unfolding validate_source validate_metadata validate_datasets validate_dataset check_primary_key
    check_field_combinations check_partition_strategy_vs_timestamps strategy_for
validates = refl

validate_source-datasets_example : All Serves city.datasets × All (Agrees city) city.datasets
validate_source-datasets_example = validate_source-datasets city validates

accepted : check_field_combinations crimes ≡ ok tt
unfolding check_field_combinations
accepted = refl

pub crimes-Serves : Serves crimes
crimes-Serves = check_field_combinations-Serves crimes accepted

build_fetcher-err_example :
    (build_fetcher crimes ninth tenth snapshot ≡ err (missing_timestamp_field crimes.name)) ↔ (
      (has_no_window crimes snapshot ≡ true)
      × (missing_timestamp_field crimes.name ≡ missing_timestamp_field crimes.name))
build_fetcher-err_example =
    build_fetcher-err crimes ninth tenth snapshot crimes-Serves (λ h. refl)
      (missing_timestamp_field crimes.name)
