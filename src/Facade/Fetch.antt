-- ===== src/Facade/Fetch.antt =====
-- The dry runs of the facade: `_fetch_window` and the five `fetch_` methods.
use urban_ops_intelligence_p.Prelude.{
  Option, some, List, [], ◌∷◌, ◌++◌, ◌==◌, if◌then◌else◌, Text, insert, is_empty, length, fetch,
  Exception, not_first_of_month, static_not_windowed, all_failed, is_backfill_error, Result, ok,
  err, ◌>>=◌,
}
use urban_ops_intelligence_p.Calendar.{Date, next_day, next_month}
use urban_ops_intelligence_p.Config.{
  SourceConfig, DatasetConfig, PartitionStrategy, daily, monthly, static, snapshot,
  datasets_with_strategy,
}
use urban_ops_intelligence_p.Records.{Record}
use urban_ops_intelligence_p.Fetchers.{Upstream}
use urban_ops_intelligence_p.Platform.{Clock}
use urban_ops_intelligence_p.Facade.{resolve_datasets, fetch_one}

-- The records of each dataset, by its name.
abbrev pub Fetched : Type 0
Fetched = List (Text × List Record)

module _ (up : Upstream) (now : Clock) (cfg : SourceConfig) where
  unfoldable pub fetch_loop :
      Date
      → Date
      → List DatasetConfig
      → Fetched
      → List Exception
      → Result (Fetched × List Exception)
  fetch_loop start end [] out failures = ok (out, failures)
  fetch_loop start end (ds ∷ rest) out failures = elim (fetch_one up now cfg ds start end) [
    | err e ↦
        if is_backfill_error e then fetch_loop start end rest out (failures ++ e ∷ []) else err e
    | ok records ↦ fetch_loop start end rest (insert ds.name records out) failures
  ]

  abbrev concluded : Fetched → List Exception → Result Fetched
  concluded [] [] = ok []
  concluded [] (e ∷ es) = err (all_failed fetch cfg.source.id (length (e ∷ es)) e)
  concluded (f ∷ fs) es = ok (f ∷ fs)

  -- `_fetch_window`
  unfoldable pub fetch_datasets :
      Date → Date → Option Text → Option PartitionStrategy → Result Fetched
  fetch_datasets start end name strategy = resolve_datasets cfg name strategy >>= λ datasets.
      fetch_loop start end datasets [] [] >>= λ (out, failures). concluded out failures

  -- `fetch_day`
  unfoldable pub fetch_day : Date → Option Text → Result Fetched
  fetch_day d name = fetch_datasets d (next_day d) name (some daily)

  -- `fetch_window`
  unfoldable pub fetch_window :
      Date → Date → Option Text → Option PartitionStrategy → Result Fetched
  fetch_window start end name strategy =
      if is_empty (datasets_with_strategy cfg static)
      then fetch_datasets start end name strategy
      else err static_not_windowed

  -- `fetch_month`
  unfoldable pub fetch_month : Date → Option Text → Result Fetched
  fetch_month month name =
      if month.day == 1
      then fetch_datasets month (next_month month) name (some monthly)
      else err not_first_of_month

  -- `fetch_static`
  unfoldable pub fetch_static : Option Text → Result Fetched
  fetch_static name = fetch_datasets now.today (next_day now.today) name (some static)

  -- `fetch_snapshot`
  unfoldable pub fetch_snapshot : Option Text → Result Fetched
  fetch_snapshot name = fetch_datasets now.today (next_day now.today) name (some snapshot)
