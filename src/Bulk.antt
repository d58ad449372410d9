-- ===== src/Bulk.antt =====
-- scripts/backfill/bulk.py: a window cut into documents, and one call of the facade for each: one
-- after another, or on a thread pool. `None` as a document is `none`.
pub mod Days
pub mod Months
pub mod Runs
use urban_ops_intelligence_p.Prelude.{
  ℕ, zero, suc, ◌+◌, ◌-◌, ◌*◌, Bool, true, false, Option, none, some, List, [], ◌∷◌, ◌++◌,
  if◌then◌else◌, Text, length, map, leb, is_empty, ◌||◌, Exception, is_backfill_error, Result, ok,
  err, ◌>>=◌,
}
use urban_ops_intelligence_p.Calendar.{Date, date_lt, date_le, add_days, first_of_month, next_month}
use urban_ops_intelligence_p.Calendar.Ordinal.{to_ordinal}
use urban_ops_intelligence_p.Config.{SourceConfig, DatasetConfig, ApiType, open_meteo, daily}
use urban_ops_intelligence_p.Records.{Record}
use urban_ops_intelligence_p.Fetchers.{Upstream}
use urban_ops_intelligence_p.Manifest.{ManifestEntry}
use urban_ops_intelligence_p.Platform.{Platform, Clock}
use urban_ops_intelligence_p.Loader.Writes.{Outcome}
use urban_ops_intelligence_p.Facade.{
  upload_day, upload_window, upload_month, upload_snapshot, upload_static, or_start,
}
use urban_ops_intelligence_p.Facade.Fetch.{
  Fetched, fetch_day, fetch_window, fetch_month, fetch_snapshot, fetch_static,
}

-- The outcome of one document. A failed one carries its exception, whose text the program keeps.
pub record BulkResult : Type 0 where
  pub document : Option Date
  pub manifest_count : ℕ
  pub error : Option Exception

abbrev is_open_meteo : ApiType → Bool
is_open_meteo open_meteo = true
is_open_meteo _ = false

abbrev first_is_wide : List DatasetConfig → Bool
first_is_wide [] = false
first_is_wide (d ∷ ds) = is_open_meteo d.api_type

-- `_is_wide_fetch_source`
unfoldable pub is_wide_fetch_source : SourceConfig → Bool
is_wide_fetch_source cfg = first_is_wide cfg.datasets

-- `[start + timedelta(days=i) for i in range(days)]`, from day `i` on, with `left` to go.
unfoldable pub days_from : Date → ℕ → ℕ → List Date
days_from start zero i = []
days_from start (suc left) i = add_days start i ∷ days_from start left (i + 1)

-- `_daterange`
unfoldable pub daterange : Date → Date → List Date
daterange start end =
    if date_le end start then [] else days_from start (to_ordinal end - to_ordinal start) 0

-- The loop of `_monthrange`, with fuel.
unfoldable pub month_loop : ℕ → Date → Date → List Date
month_loop zero end cur = []
month_loop (suc fuel) end cur =
    let rest = month_loop fuel end (next_month cur) in if date_lt cur end then cur ∷ rest else []

-- `_monthrange`: the fuel is the number of months up to the end of the last year.
unfoldable pub monthrange : Date → Date → List Date
monthrange start end =
    if date_le end (first_of_month start)
    then []
    else month_loop ((end.year + 1) * 12) end (first_of_month start)

abbrev pub failed : Date → Exception → BulkResult
failed d e = record { document = some d; manifest_count = 0; error = some e }

module _ {S : Type 0} where
  -- `_safe_call` on a call that returns a result or raises.
  abbrev pub safe_call : Date → Outcome S BulkResult → BulkResult × S
  safe_call d (ok r, s) = (r, s)
  safe_call d (err e, s) = (failed d e, s)

  -- The loop of `_run_parallel` without threads.
  unfoldable pub run_serial :
      (Date → S → Outcome S BulkResult) → List Date → S → List BulkResult × S
  run_serial work [] s = ([], s)
  run_serial work (d ∷ ds) s =
      let (r, s') = safe_call d (work d s) in let (rs, s'') = run_serial work ds s' in (r ∷ rs, s'')

  -- The documents that a worker counts.
  abbrev pub counted : Date → Outcome S (List ManifestEntry) → Outcome S BulkResult
  counted d (ok ms, s) =
      (ok (record { document = some d; manifest_count = length ms; error = none }), s)
  counted d (err e, s) = if is_backfill_error e then (ok (failed d e), s) else (err e, s)

-- The thread pool of `concurrent.futures`: from the size of the pool, the call for an item and the
-- items, the results in the order of completion, and what the calls leave of a state.
pub record Pool : Type 1 where
  pub run : {S : Type 0} → ℕ → (Date → S → BulkResult × S) → List Date → S → List BulkResult × S
  pub gather : ℕ → (Date → BulkResult) → List Date → List BulkResult

-- `_run_parallel`
unfoldable pub run_parallel :
    {S : Type 0}
    → Pool
    → ℕ
    → (Date → S → Outcome S BulkResult)
    → List Date
    → S
    → List BulkResult × S
run_parallel pool workers work items s =
    if is_empty items || leb workers 1
    then run_serial work items s
    else pool.run workers (λ d t. safe_call d (work d t)) items s

-- `_run_parallel` on calls that change no state.
unfoldable pub gather_parallel : Pool → ℕ → (Date → BulkResult) → List Date → List BulkResult
gather_parallel pool workers work items =
    if is_empty items || leb workers 1 then map work items else pool.gather workers work items

abbrev total_records : Fetched → ℕ
total_records [] = 0
total_records ((name, rs) ∷ out) = length rs + total_records out

abbrev tallied : Option Date → Result Fetched → Result BulkResult
tallied d (ok out) = ok (record { document = d; manifest_count = total_records out; error = none })
tallied d (err e) = err e

module _ (P : Platform) (up : Upstream) (now : Clock) (cfg : SourceConfig) where
  abbrev wide : Outcome P.State (List ManifestEntry) → Outcome P.State (List BulkResult)
  wide (ok ms, s) =
      (ok (record { document = none; manifest_count = length ms; error = none } ∷ []), s)
  wide (err e, s) =
      if is_backfill_error e
      then (ok (record { document = none; manifest_count = 0; error = some e } ∷ []), s)
      else (err e, s)

  abbrev all_ok : List BulkResult × P.State → Outcome P.State (List BulkResult)
  all_ok (rs, s) = (ok rs, s)

  -- `backfill_daily_window`
  unfoldable pub backfill_daily_window :
      Pool → ℕ → Date → Date → P.State → Outcome P.State (List BulkResult)
  backfill_daily_window pool workers start end s =
      if is_wide_fetch_source cfg
      then wide (upload_window P up now cfg start end none (some daily) s)
      else all_ok (
          run_parallel pool workers (λ d t. counted d (upload_day P up now cfg d none t))
            (daterange start end) s)

  -- `backfill_monthly_window`
  unfoldable pub backfill_monthly_window :
      Pool → ℕ → Date → Date → P.State → List BulkResult × P.State
  backfill_monthly_window pool workers start end =
      run_parallel pool workers (λ m t. counted m (upload_month P up now cfg m none t))
        (monthrange start end)

  abbrev uncaught : Date → Outcome P.State (List ManifestEntry) → Outcome P.State BulkResult
  uncaught d (ok ms, s) =
      (ok (record { document = some d; manifest_count = length ms; error = none }), s)
  uncaught d (err e, s) = (err e, s)

  abbrev snapshot_result : Outcome P.State BulkResult → BulkResult × P.State
  snapshot_result (ok r, s) = (r, s)
  snapshot_result (err e, s) = (record { document = none; manifest_count = 0; error = some e }, s)

  -- `backfill_snapshot`: the one item is `None`, which a failure is filed under.
  unfoldable pub backfill_snapshot : Option Date → P.State → List BulkResult × P.State
  backfill_snapshot ingest_date s =
      let d = or_start ingest_date now.today in
      let (r, s') = snapshot_result (uncaught d (upload_snapshot P up now cfg (some d) none s)) in
      (r ∷ [], s')

  abbrev wrote : Outcome P.State (List ManifestEntry) → BulkResult × P.State
  wrote (ok ms, s) = (record { document = none; manifest_count = length ms; error = none }, s)
  wrote (err e, s) = (record { document = none; manifest_count = 0; error = some e }, s)

  -- `backfill_static`
  unfoldable pub backfill_static : P.State → List BulkResult × P.State
  backfill_static s = let (r, s') = wrote (upload_static P up now cfg none s) in (r ∷ [], s')

module _ (up : Upstream) (now : Clock) (cfg : SourceConfig) where
  abbrev safe_fetch : Option Date → Result BulkResult → BulkResult
  safe_fetch d (ok r) = r
  safe_fetch d (err e) = record { document = d; manifest_count = 0; error = some e }

  abbrev day_fetched : Date → BulkResult
  day_fetched d = safe_fetch (some d) (tallied (some d) (fetch_day up now cfg d none))

  abbrev month_fetched : Date → BulkResult
  month_fetched d = safe_fetch (some d) (tallied (some d) (fetch_month up now cfg d none))

  -- `fetch_daily_window`: the wide fetch is outside any `try`.
  unfoldable pub fetch_daily_window : Pool → ℕ → Date → Date → Result (List BulkResult)
  fetch_daily_window pool workers start end =
      if is_wide_fetch_source cfg
      then tallied none (fetch_window up now cfg start end none (some daily)) >>= (λ r. ok (r ∷ []))
      else ok (gather_parallel pool workers day_fetched (daterange start end))

  -- `fetch_monthly_window`
  unfoldable pub fetch_monthly_window : Pool → ℕ → Date → Date → List BulkResult
  fetch_monthly_window pool workers start end =
      gather_parallel pool workers month_fetched (monthrange start end)

  -- `fetch_snapshot`
  unfoldable pub fetch_snapshot_once : List BulkResult
  fetch_snapshot_once =
      safe_fetch none (tallied (some now.today) (fetch_snapshot up now cfg none)) ∷ []

  -- `fetch_static`
  unfoldable pub fetch_static_once : List BulkResult
  fetch_static_once = safe_fetch none (tallied none (fetch_static up now cfg none)) ∷ []
