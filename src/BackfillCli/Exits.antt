-- ===== src/BackfillCli/Exits.antt =====
-- The exit codes of a backfill.
use urban_ops_intelligence_p.Prelude.{
  ◌-◌, ◌≡◌, refl, ap, ◌∙◌, Bool, true, false, ◌||◌, none, some, List, [], ◌∷◌, if◌then◌else◌, Text,
  is_empty, any, exits, Result, ok, err,
}
use urban_ops_intelligence_p.Calendar.{Date, IsDate, first_of_month}
use urban_ops_intelligence_p.Calendar.Months.{month_index}
use urban_ops_intelligence_p.Config.{SourceConfig, monthly}
use urban_ops_intelligence_p.Fetchers.{Upstream}
use urban_ops_intelligence_p.Manifest.{ManifestEntry}
use urban_ops_intelligence_p.Platform.{Platform, Clock}
use urban_ops_intelligence_p.Loader.Writes.{Outcome}
use urban_ops_intelligence_p.Facade.{upload_month}
use urban_ops_intelligence_p.Bulk.{Pool}
use urban_ops_intelligence_p.Bulk.Months.{firsts, end_index}
use urban_ops_intelligence_p.Bulk.Runs.{each, report, backfill_monthly_window-each}
use urban_ops_intelligence_p.Registry.{SourceFile, load_source_config}
use urban_ops_intelligence_p.BackfillCli.{
  Arguments, ended, upload_dispatch, exit_on_failure, is_failed, run_standard_backfill,
}

abbrev pub is_err {ℓ} : {A : Type ℓ} → Result A → Bool
is_err (ok a) = false
is_err (err e) = true

is_failed-report : (d : Date) (r : Result (List ManifestEntry)) → is_failed (report d r) ≡ is_err r
is_failed-report d (ok ms) = refl
is_failed-report d (err e) = refl

module _ {S : Type 0} (call : Date → S → Outcome S (List ManifestEntry)) where
  -- Some call of the sequence raises.
  abbrev pub some_raise : List Date → S → Bool
  some_raise [] s = false
  some_raise (d ∷ ds) s = is_err (call d s).0 || some_raise ds (call d s).1

  -- The store after the whole sequence.
  abbrev pub store_after : List Date → S → S
  store_after [] s = s
  store_after (d ∷ ds) s = store_after ds (call d s).1

  each-store : (ds : List Date) (s : S) → (each call ds s).1 ≡ store_after ds s
  each-store [] s = refl
  each-store (d ∷ ds) s = each-store ds (call d s).1

  each-failed : (ds : List Date) (s : S) → any is_failed (each call ds s).0 ≡ some_raise ds s
  each-failed [] s = refl
  each-failed (d ∷ ds) s = rw (is_failed-report d (call d s).0, each-failed ds (call d s).1)

module _ (P : Platform) (up : Upstream) (now : Clock) (pool : Pool) where
  -- For valid dates and with `--max-workers 1`, the upload of a monthly source with a bucket makes one call for each month of the window on the store that the one before left. It exits with 2 exactly when some call raises, else with 0, and either way every month has been tried.
  pub run_standard_backfill-monthly :
      (files : List SourceFile) (source_id : Text) (args : Arguments) (cfg : SourceConfig)
      (s : P.State)
      → load_source_config files source_id ≡ ok cfg
      → cfg.source.partition_strategy ≡ monthly
      → args.dry_run || args.fetch_only ≡ false
      → is_empty args.bucket ≡ false
      → args.max_workers ≡ some 1
      → IsDate args.start
      → IsDate args.end
      → run_standard_backfill P up now pool files source_id args s ≡ (
        (if some_raise
              (λ m t. upload_month P up now cfg m none t)
              (firsts (end_index args.end - month_index args.start) (first_of_month args.start))
              s
            then exits 2
            else exits 0),
        store_after
            (λ m t. upload_month P up now cfg m none t)
            (firsts (end_index args.end - month_index args.start) (first_of_month args.start))
            s,
      )
  unfolding run_standard_backfill exit_on_failure
  run_standard_backfill-monthly files source_id args cfg s found strategy real bucket single v w =
      let months =
        firsts (end_index args.end - month_index args.start) (first_of_month args.start) in
      let call = λ (m : Date) (t : P.State). upload_month P up now cfg m none t in
      rw (found, run_standard_backfill)
        (rw (real, bucket)
          (ap (λ p. ended (upload_dispatch P up now pool cfg p args s)) strategy
            ∙ rw
                (
                  single,
                  backfill_monthly_window-each P up now cfg pool 1 args.start args.end s refl v w,
                )
                (λ i. (
                  if each-failed call months s i then exits 2 else exits 0,
                  each-store call months s i,
                ))))
