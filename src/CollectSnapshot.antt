-- ===== src/CollectSnapshot.antt =====
-- scripts/collect_snapshot.py and ingestion/snapshot/notify.py: the timer's entry point, its exit
-- codes, and the two messages that it may send.
pub mod Outcomes
use urban_ops_intelligence_p.Prelude.{
  ℕ, ◌+◌, Bool, true, false, Option, none, some, List, [], ◌∷◌, ◌++◌, ltb, if◌then◌else◌, Text,
  codes, take, is_empty, length, map, Exception, no_snapshot_dataset, is_value_error, Ending, exits,
  crashes, Result, ok, err, ◌>>=◌, list_of,
}
use urban_ops_intelligence_p.Calendar.{Date}
use urban_ops_intelligence_p.Config.{SourceConfig, DatasetConfig, snapshot, datasets_with_strategy}
use urban_ops_intelligence_p.Fetchers.{Upstream}
use urban_ops_intelligence_p.Platform.{Platform, Clock}
use urban_ops_intelligence_p.Loader.Writes.{Outcome}
use urban_ops_intelligence_p.Snapshot.{
  SnapshotResult, resolve_min_records, fetch_snapshot_records, collect,
}
use urban_ops_intelligence_p.Registry.{SourceFile, load_source_config}

abbrev pub exit_ok : ℕ
exit_ok = 0

abbrev pub exit_usage : ℕ
exit_usage = 1

abbrev pub exit_collection_failed : ℕ
exit_collection_failed = 2

abbrev pub content_limit : ℕ
content_limit = 2000

-- The two addresses, blank where they are not set, the host's name, and whether a request of each
-- kind is delivered.
pub record Channels : Type 0 where
  pub alert_url : Text
  pub watchdog_url : Text
  pub host : Text
  pub post : Text → Text → Bool
  pub get : Text → Bool

-- A request that was made: a failure notice with its content, or a check-in.
pub data Notice : Type 0 where
  posted : Text → Text → Notice
  checked_in : Text → Notice

abbrev notice_text : Channels → Text → Text → Text
notice_text channels source_id message =
    codes "❌ ["
    ++ (source_id
        ++ (codes "] snapshot collection failed on " ++ (channels.host ++ (codes ": " ++ message))))

-- `notify_failure`: the requests that it makes, and whether the notice was delivered.
unfoldable pub notify_failure : Channels → Text → Text → List Notice × Bool
notify_failure channels source_id message = if is_empty channels.alert_url then ([], false) else (
  posted channels.alert_url (take content_limit (notice_text channels source_id message)) ∷ [],
  channels.post channels.alert_url (take content_limit (notice_text channels source_id message)),
)

-- `ping_watchdog`
unfoldable pub ping_watchdog : Channels → List Notice × Bool
ping_watchdog channels =
    if is_empty channels.watchdog_url
    then ([], false)
    else (checked_in channels.watchdog_url ∷ [], channels.get channels.watchdog_url)

-- The command line, and the bucket of the environment. A bucket that is not given is blank.
pub record Arguments : Type 0 where
  pub source : Text
  pub bucket : Text
  pub ingest_date : Option Date
  pub min_records : Option ℕ
  pub dry_run : Bool

-- The loop of `_dry_run`: how many datasets a run would reject.
unfoldable pub rejections : Upstream → Clock → Option ℕ → List DatasetConfig → Result ℕ
rejections up now min_records [] = ok 0
rejections up now min_records (ds ∷ rest) =
    let later = rejections up now min_records rest in
    list_of (fetch_snapshot_records up now ds) >>= λ records. later >>= λ n.
    ok ((if ltb (length records) (resolve_min_records ds min_records) then 1 else 0) + n)

abbrev refused_or : ℕ → Ending
refused_or n = if ltb 0 n then exits exit_collection_failed else exits exit_ok

-- What the first `except` of `main` makes of an exception.
abbrev usage : Exception → Ending
usage e = if is_value_error e then exits exit_usage else crashes e

abbrev counted : Result ℕ → Ending
counted (ok n) = refused_or n
counted (err e) = usage e

module _ (up : Upstream) (now : Clock) where
  -- `_dry_run`
  unfoldable pub dry_run_of : Option ℕ → SourceConfig → Result ℕ
  dry_run_of min_records cfg =
      if is_empty (datasets_with_strategy cfg snapshot)
      then err no_snapshot_dataset
      else rejections up now min_records (datasets_with_strategy cfg snapshot)

module _ (P : Platform) (up : Upstream) (now : Clock) (channels : Channels)
    (message : Exception → Text) where
  -- What the end of `main` makes of a collection.
  abbrev pub concluded :
      Text → Outcome P.State (List SnapshotResult) → (Ending × List Notice) × P.State
  concluded source_id (ok results, s) = ((exits exit_ok, (ping_watchdog channels).0), s)
  concluded source_id (err e, s) =
      ((exits exit_collection_failed, (notify_failure channels source_id (message e)).0), s)

  abbrev pub collected :
      Arguments → Result SourceConfig → P.State → (Ending × List Notice) × P.State
  collected args (err e) s = ((usage e, []), s)
  collected args (ok cfg) s =
      if is_empty (datasets_with_strategy cfg snapshot)
      then ((exits exit_usage, []), s)
      else concluded args.source (collect P up now cfg args.min_records args.ingest_date s)

  -- `main`: a missing bucket exits before the source is loaded.
  unfoldable pub main : List SourceFile → Arguments → P.State → (Ending × List Notice) × P.State
  main files args s =
      if args.dry_run
      then (
        (counted (load_source_config files args.source >>= dry_run_of up now args.min_records), []),
        s,
      )
      else if is_empty args.bucket
      then ((exits 1, []), s)
      else collected args (load_source_config files args.source) s
