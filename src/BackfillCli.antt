-- ===== src/BackfillCli.antt =====
-- scripts/backfill/_common.py, _registry.py and main.py: the command line of the backfills.
pub mod Exits
use urban_ops_intelligence_p.Prelude.{
  ℕ, Bool, true, false, ◌||◌, Option, none, some, List, [], ◌∷◌, ◌==◌, if◌then◌else◌, Text, is_some,
  is_empty, any, lookup, insert, Exception, Ending, exits, crashes, Result, ok, err,
}
use urban_ops_intelligence_p.Calendar.{Date}
use urban_ops_intelligence_p.Config.{
  SourceConfig, PartitionStrategy, daily, monthly, static, snapshot,
}
use urban_ops_intelligence_p.Fetchers.{Upstream}
use urban_ops_intelligence_p.Platform.{Platform, Clock}
use urban_ops_intelligence_p.Loader.Writes.{Outcome}
use urban_ops_intelligence_p.Registry.{SourceFile, load_source_config}
use urban_ops_intelligence_p.Bulk.{
  BulkResult, Pool, backfill_daily_window, backfill_monthly_window, backfill_snapshot,
  backfill_static, fetch_daily_window, fetch_monthly_window, fetch_snapshot_once, fetch_static_once,
}

-- The command line. `bucket` is that of `--bucket`, else of the environment, blank without either.
pub record Arguments : Type 0 where
  pub start : Date
  pub end : Date
  pub fetch_only : Bool
  pub dry_run : Bool
  pub bucket : Text
  pub max_workers : Option ℕ

-- `default_max_workers`
abbrev pub default_max_workers : PartitionStrategy → ℕ
default_max_workers daily = 4
default_max_workers monthly = 2
default_max_workers static = 1
default_max_workers snapshot = 1

-- `args.max_workers or default_max_workers(strategy)`
abbrev pub workers_of : Option ℕ → PartitionStrategy → ℕ
workers_of none strategy = default_max_workers strategy
workers_of (some n) strategy = if n == 0 then default_max_workers strategy else n

abbrev pub is_failed : BulkResult → Bool
is_failed r = is_some r.error

-- `_exit_on_failure`: a call that returns leaves the exit code 0.
unfoldable pub exit_on_failure : List BulkResult → Ending
exit_on_failure results = if any is_failed results then exits 2 else exits 0

abbrev pub ended : {S : Type 0} → Outcome S (List BulkResult) → Ending × S
ended (ok results, s) = (exit_on_failure results, s)
ended (err e, s) = (crashes e, s)

abbrev returned : {S : Type 0} → List BulkResult × S → Outcome S (List BulkResult)
returned (results, s) = (ok results, s)

module _ (P : Platform) (up : Upstream) (now : Clock) (pool : Pool) (cfg : SourceConfig) where
  -- `UPLOAD_DISPATCH` and `FETCH_DISPATCH`, with the window for the windowed strategies
  abbrev pub upload_dispatch :
      PartitionStrategy → Arguments → P.State → Outcome P.State (List BulkResult)
  upload_dispatch daily args s =
      backfill_daily_window P up now cfg pool (workers_of args.max_workers daily) args.start
        args.end s
  upload_dispatch monthly args s = returned (
      backfill_monthly_window P up now cfg pool (workers_of args.max_workers monthly) args.start
        args.end s)
  upload_dispatch static args s = returned (backfill_static P up now cfg s)
  upload_dispatch snapshot args s = returned (backfill_snapshot P up now cfg none s)

  abbrev pub fetch_dispatch : PartitionStrategy → Arguments → Result (List BulkResult)
  fetch_dispatch daily args =
      fetch_daily_window up now cfg pool (workers_of args.max_workers daily) args.start args.end
  fetch_dispatch monthly args = ok (
      fetch_monthly_window up now cfg pool (workers_of args.max_workers monthly) args.start
        args.end)
  fetch_dispatch static args = ok (fetch_static_once up now cfg)
  fetch_dispatch snapshot args = ok (fetch_snapshot_once up now cfg)

module _ (P : Platform) (up : Upstream) (now : Clock) (pool : Pool) where
  abbrev pub run_source : SourceConfig → Arguments → P.State → Ending × P.State
  run_source cfg args s =
      if args.dry_run || args.fetch_only
      then ended (fetch_dispatch P up now pool cfg cfg.source.partition_strategy args, s)
      else if is_empty args.bucket
      then (exits 1, s)
      else ended (upload_dispatch P up now pool cfg cfg.source.partition_strategy args s)

  -- `run_standard_backfill`
  unfoldable pub run_standard_backfill :
      List SourceFile → Text → Arguments → P.State → Ending × P.State
  run_standard_backfill files source_id args s = elim (load_source_config files source_id) [
    | err e ↦ (crashes e, s)
    | ok cfg ↦ run_source cfg args s
  ]

-- `register_backfill`: the handlers by their sources; registering one twice raises.
unfoldable pub register_backfill :
    {H : Type 0} → Text → H → List (Text × H) → Option (List (Text × H))
register_backfill source_id handler registry =
    if is_some (lookup source_id registry) then none else some (insert source_id handler registry)

-- `main`: the handler of a source, given the rest of the command line.
unfoldable pub main :
    {S : Type 0} → List (Text × (Arguments → S → Ending × S)) → Text → Arguments → S → Ending × S
main registry source_id args s = elim (lookup source_id registry) [
  | none ↦ (exits 1, s)
  | some handler ↦ handler args s
]
