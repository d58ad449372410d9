-- ===== src/Bulk/Runs.antt =====
-- A bulk run: a result for each document, whatever the documents before it did.
use urban_ops_intelligence_p.Prelude.{
  ℕ, ◌-◌, ◌≡◌, refl, ◌∙◌, Bool, true, false, ◌||◌, leb, is_empty, if◌then◌else◌, none, some, List,
  [], ◌∷◌, length, is_backfill_error, Result, ok, err, Bool-cases, inl, inr,
}
use urban_ops_intelligence_p.Calendar.{Date, IsDate, first_of_month}
use urban_ops_intelligence_p.Calendar.Months.{month_index}
use urban_ops_intelligence_p.Config.{SourceConfig}
use urban_ops_intelligence_p.Fetchers.{Upstream}
use urban_ops_intelligence_p.Manifest.{ManifestEntry}
use urban_ops_intelligence_p.Platform.{Platform, Clock}
use urban_ops_intelligence_p.Loader.Writes.{Outcome}
use urban_ops_intelligence_p.Facade.{upload_day, upload_month}
use urban_ops_intelligence_p.Bulk.{
  BulkResult, safe_call, counted, run_serial, Pool, run_parallel, monthrange, daterange,
  is_wide_fetch_source, backfill_monthly_window, backfill_daily_window,
}
use urban_ops_intelligence_p.Bulk.Months.{firsts, end_index, monthrange-firsts}

-- What a document's call is reported as: the manifests that it returned, or what it raised.
abbrev pub report : Date → Result (List ManifestEntry) → BulkResult
report d (ok ms) = record { document = some d; manifest_count = length ms; error = none }
report d (err e) = record { document = some d; manifest_count = 0; error = some e }

module _ {S : Type 0} (call : Date → S → Outcome S (List ManifestEntry)) where
  -- The calls in turn, each on the state that the one before left.
  abbrev pub each : List Date → S → List BulkResult × S
  each [] s = ([], s)
  each (d ∷ ds) s = (report d (call d s).0 ∷ (each ds (call d s).1).0, (each ds (call d s).1).1)

  safe_call-report :
      (d : Date) (o : Outcome S (List ManifestEntry))
      → safe_call d (counted d o) ≡ (report d o.0, o.1)
  safe_call-report d (ok ms, s) = refl
  safe_call-report d (err e, s) = elim (Bool-cases (is_backfill_error e)) [
    | inl own ↦ rw own
    | inr foreign ↦ rw foreign
  ]

  pub run_serial-each :
      (ds : List Date) (s : S) → run_serial (λ d t. counted d (call d t)) ds s ≡ each ds s
  unfolding run_serial
  run_serial-each [] s = refl
  run_serial-each (d ∷ ds) s =
      rw (safe_call-report d (call d s)) (rw (run_serial-each ds (call d s).1))

module _ {S : Type 0} where
  run_parallel-serial :
      (pool : Pool) (workers : ℕ) (work : Date → S → Outcome S BulkResult) (ds : List Date) (s : S)
      → leb workers 1 ≡ true
      → run_parallel pool workers work ds s ≡ run_serial work ds s
  unfolding run_parallel
  run_parallel-serial pool workers work ds s one = rw one (either (is_empty ds))
    where
      either :
          (b : Bool)
          → (if b || true
              then run_serial work ds s
              else pool.run workers (λ d t. safe_call d (work d t)) ds s)
            ≡ run_serial work ds s
      either true = refl
      either false = refl

module _ (P : Platform) (up : Upstream) (now : Clock) (cfg : SourceConfig) where
  -- For valid dates and with at most one worker, a monthly backfill makes one call for each month of the window, in order, each on the store that the one before left, and reports each: as failed when the call raises, whatever it raises, and else with the number of manifests that came back.
  pub backfill_monthly_window-each :
      (pool : Pool) (workers : ℕ) (start end : Date) (s : P.State)
      → leb workers 1 ≡ true
      → IsDate start
      → IsDate end
      → backfill_monthly_window P up now cfg pool workers start end s
        ≡ each
            (λ m t. upload_month P up now cfg m none t)
            (firsts (end_index end - month_index start) (first_of_month start))
            s
  unfolding backfill_monthly_window
  backfill_monthly_window-each pool workers start end s one v w =
      rw (← monthrange-firsts start end v w) (
        run_parallel-serial pool workers _ (monthrange start end) s one
        ∙ run_serial-each (λ m t. upload_month P up now cfg m none t) (monthrange start end) s)

  -- With at most one worker, a daily backfill of a source that is not fetched in one call makes one call for each day of the window, in order, each on the store that the one before left, and reports each, whatever the days before it did.
  pub backfill_daily_window-each :
      (pool : Pool) (workers : ℕ) (start end : Date) (s : P.State)
      → leb workers 1 ≡ true
      → is_wide_fetch_source cfg ≡ false
      → backfill_daily_window P up now cfg pool workers start end s ≡ (
        ok (each (λ d t. upload_day P up now cfg d none t) (daterange start end) s).0,
        (each (λ d t. upload_day P up now cfg d none t) (daterange start end) s).1,
      )
  unfolding backfill_daily_window
  backfill_daily_window-each pool workers start end s one narrow = rw narrow (
      rw
        (run_parallel-serial pool workers (λ d t. counted d (upload_day P up now cfg d none t))
          (daterange start end) s one)
        (rw (run_serial-each (λ d t. upload_day P up now cfg d none t) (daterange start end) s)))
