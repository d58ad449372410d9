-- ===== src/BronzeAudit/Integrity.antt =====
-- scripts/profiling/bronze_integrity_audit.py: the checks B and C over the daily datasets.
pub mod Emptiness
pub mod Faults
pub mod Clean
pub mod Caught
pub mod Returns
use urban_ops_intelligence_p.Prelude.{
  ℕ, zero, suc, ◌+◌, Bool, true, false, not, ◌&&◌, ◌||◌, Option, none, some, List, [], ◌∷◌, ◌++◌,
  if◌then◌else◌, Text, codes, is_empty, any, keep, map, Exception, is_system_exit, dataset_missing,
  Result, ok, err, ◌>>=◌, Ending, exits, crashes,
}
use urban_ops_intelligence_p.Calendar.{Date, isoformat}
use urban_ops_intelligence_p.Config.{
  SourceConfig, DatasetConfig, ApiType, socrata, daily, same_strategy, strategy_for,
}
use urban_ops_intelligence_p.Registry.{SourceFile, Registry, load_source_config, load_all_sources}
use urban_ops_intelligence_p.Platform.{Platform, Clock}
use urban_ops_intelligence_p.Strings.Sorting.{sorted_set}
use urban_ops_intelligence_p.BronzeAudit.{Reader, day_of}
use urban_ops_intelligence_p.BronzeAudit.Shards.{ShardReport, run_scan, summarize}
use urban_ops_intelligence_p.BronzeAudit.Reconcile.{
  DayReconciliation, Counter, run_reconcile, days_before, named, missing, in_excess,
}

pub data CheckName : Type 0 where
  check_b check_c : CheckName

-- An error is the check that raised with its exception.
pub record DatasetAudit : Type 0 where
  pub source_id : Text
  pub dataset : Text
  pub checks_run : List CheckName
  pub checks_skipped : List CheckName
  pub dirty_shards : List Text
  pub days_missing_rows : List Text
  pub days_excess_rows : List Text
  pub errors : List (CheckName × Exception)

abbrev pub days_of : List Text → List Text
days_of [] = []
days_of (key ∷ keys) = with_day (day_of key) (days_of keys)
  where
    with_day : Option Text → List Text → List Text
    with_day none days = days
    with_day (some d) days = d ∷ days

-- `DatasetAudit.refetch_days`
unfoldable pub refetch_days : DatasetAudit → List Text
refetch_days a = sorted_set (a.days_missing_rows ++ (a.days_excess_rows ++ days_of a.dirty_shards))

-- `DatasetAudit.is_clean`
unfoldable pub is_clean : DatasetAudit → Bool
is_clean a = is_empty (refetch_days a) && is_empty a.errors

-- `_window_days`, a set
unfoldable pub window_days : Date → ℕ → List Text
window_days end zero = []
window_days end (suc n) = isoformat (days_before end (suc n)) ∷ window_days end n

abbrev pub is_socrata : ApiType → Bool
is_socrata socrata = true
is_socrata _ = false

abbrev pub is_target : SourceConfig → DatasetConfig → Bool
is_target cfg ds = same_strategy (strategy_for cfg ds) daily && is_socrata ds.api_type

abbrev pub targets_in : Registry → List (Text × Text)
targets_in [] = []
targets_in ((sid, cfg) ∷ out) =
    map (λ ds. (cfg.source.id, ds.name)) (keep (is_target cfg) cfg.datasets) ++ targets_in out

-- `integrity_targets`
unfoldable pub integrity_targets : List SourceFile → Result (List (Text × Text))
integrity_targets files = load_all_sources files >>= λ out. ok (targets_in out)

abbrev pub new_audit : Text → Text → DatasetAudit
new_audit source_id dataset = record {
  source_id = source_id;
  dataset = dataset;
  checks_run = [];
  checks_skipped = [];
  dirty_shards = [];
  days_missing_rows = [];
  days_excess_rows = [];
  errors = [];
}

abbrev pub or_no_key : Option (List Text) → List Text
or_no_key none = []
or_no_key (some key) = key

abbrev pub with_days : DatasetAudit → List DayReconciliation → DatasetAudit
with_days a recs = record a {
  checks_run = a.checks_run ++ check_c ∷ [];
  days_missing_rows = map (λ r. r.day) (missing recs);
  days_excess_rows = map (λ r. r.day) (in_excess recs);
}

abbrev pub with_error : DatasetAudit → CheckName → Exception → DatasetAudit
with_error a check e = record a { errors = a.errors ++ (check, e) ∷ [] }

abbrev pub with_shards : DatasetAudit → List ShardReport → DatasetAudit
with_shards a reports = record a {
  checks_run = a.checks_run ++ check_b ∷ [];
  dirty_shards = map (λ s. s.key) (summarize reports).dirty_shards;
}

-- The end of the check B: what its scan returns or raises, `SystemExit` apart.
abbrev pub after_scan : DatasetAudit → Result (List ShardReport) → Result DatasetAudit
after_scan a (ok reports) = ok (with_shards a reports)
after_scan a (err e) = if is_system_exit e then err e else ok (with_error a check_b e)

-- The end of the check C.
abbrev pub after_reconcile : DatasetAudit → Result (List DayReconciliation) → Result DatasetAudit
after_reconcile a (ok recs) = ok (with_days a recs)
after_reconcile a (err e) = if is_system_exit e then err e else ok (with_error a check_c e)

abbrev found_dataset : Text → Text → Option DatasetConfig → Result DatasetConfig
found_dataset source_id dataset none = err (dataset_missing source_id dataset)
found_dataset source_id dataset (some ds) = ok ds

-- `_dataset_config`
unfoldable pub dataset_config : List SourceFile → Text → Text → Result DatasetConfig
dataset_config files source_id dataset = load_source_config files source_id >>= λ cfg.
    found_dataset source_id dataset (named dataset cfg.datasets)

module _ (P : Platform) (R : Reader P) (C : Counter) (now : Clock) (files : List SourceFile)
    (late : ℕ) where
  abbrev pub checked_keys :
      Text → Text → List Text → Option (List Text) → P.State → Result DatasetAudit
  checked_keys source_id dataset key only_days s =
      if is_empty key
      then ok (record (new_audit source_id dataset) { checks_skipped = check_b ∷ [] })
      else after_scan (new_audit source_id dataset) (run_scan P R source_id dataset key only_days s)

  -- `audit_dataset`
  unfoldable pub audit_dataset : Option (List Text) → P.State → Text → Text → Result DatasetAudit
  audit_dataset only_days s source_id dataset = dataset_config files source_id dataset >>= λ cfg.
      checked_keys source_id dataset (or_no_key cfg.primary_key) only_days s >>= λ a.
      after_reconcile a (run_reconcile P R C now files source_id dataset late only_days s)

  unfoldable pub audit_each :
      Option (List Text) → P.State → List (Text × Text) → Result (List DatasetAudit)
  audit_each only_days s [] = ok []
  audit_each only_days s ((source_id, dataset) ∷ targets) =
      let rest = audit_each only_days s targets in
      audit_dataset only_days s source_id dataset >>= λ a. rest >>= λ audits. ok (a ∷ audits)

  -- `audit_window`
  unfoldable pub audit_window : Date → ℕ → P.State → Result (List DatasetAudit)
  audit_window today days s =
      integrity_targets files >>= audit_each (some (window_days today days)) s

  -- `audit_full`
  unfoldable pub audit_full : P.State → Result (List DatasetAudit)
  audit_full s = integrity_targets files >>= audit_each none s

  abbrev pub exit_code : List DatasetAudit → ℕ
  exit_code results =
      if any (λ a. not (is_empty a.errors)) results
      then 1
      else if any (λ a. not (is_clean a)) results
      then 2
      else 0

  abbrev ended : Result (List DatasetAudit) → Ending
  ended (ok results) = exits (exit_code results)
  ended (err e) = crashes e

  -- `main`, on parsed arguments
  unfoldable pub main : Text → Bool → ℕ → P.State → Ending
  main bucket full days s =
      if is_empty bucket
      then exits 1
      else ended (if full then audit_full s else audit_window now.today days s)
