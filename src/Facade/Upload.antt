-- ===== src/Facade/Upload.antt =====
-- What an upload does when its datasets cannot be fetched, and when they may not be written.
use urban_ops_intelligence_p.Prelude.{
  suc, ◌≡◌, refl, ap, ◌∙◌, Bool, true, false, Option, some, List, [], ◌∷◌, ◌++◌, append_assoc,
  append-nil, any, Text, length, is_empty, keep, arith, upload, Exception, all_failed,
  missing_timestamp_field, snapshot_leaked, is_backfill_error, ok, err,
}
use urban_ops_intelligence_p.Calendar.{Date, next_day}
use urban_ops_intelligence_p.Config.{
  SourceConfig, DatasetConfig, PartitionStrategy, snapshot, static, datasets_with_strategy,
  same_strategy, strategy_for, names,
}
use urban_ops_intelligence_p.Config.Validation.{Serves}
use urban_ops_intelligence_p.Fetchers.{Upstream}
use urban_ops_intelligence_p.Fetchers.Build.{HasDomain, has_no_window, build_fetcher-err}
use urban_ops_intelligence_p.Platform.{Platform, Clock}
use urban_ops_intelligence_p.Loader.Writes.{with_result}
use urban_ops_intelligence_p.Facade.{
  Gathered, nothing_gathered, with_failure, resolve_datasets, fetch_one, upload_loop, leaked,
  or_start, upload_datasets, upload_window, upload_snapshot,
}

-- Where a test passes, something is kept.
kept_some :
    (p : DatasetConfig → Bool) (ds : List DatasetConfig)
    → any p ds ≡ true
    → is_empty (keep p ds) ≡ false
kept_some p [] h = cc
kept_some p (d ∷ ds) h = ground (arith, kept_some p ds)

module _ (P : Platform) (up : Upstream) (now : Clock) (cfg : SourceConfig) where
  -- Every dataset's fetch fails with a `BackfillError`.
  abbrev AllFail : Date → Date → List DatasetConfig → List Exception → Type 0
  AllFail start end [] [] = Unit
  AllFail start end [] (e ∷ es) = ⊥
  AllFail start end (ds ∷ rest) [] = ⊥
  AllFail start end (ds ∷ rest) (e ∷ es) =
      (fetch_one up now cfg ds start end ≡ err e)
      × (is_backfill_error e ≡ true)
      × AllFail start end rest es

  upload_loop-AllFail :
      (start end : Date) (month : Option Text) (day : Option Date) (datasets : List DatasetConfig)
      (es : List Exception) (g : Gathered) (s : P.State)
      → AllFail start end datasets es
      → upload_loop P up now cfg start end month day datasets g s
        ≡ (ok (record g { failures = g.failures ++ es }), s)
  unfolding upload_loop
  upload_loop-AllFail start end month day [] [] g s h = rw append-nil
  upload_loop-AllFail start end month day [] (e ∷ es) g s h = elim h [ ]
  upload_loop-AllFail start end month day (ds ∷ rest) [] g s h = elim h [ ]
  upload_loop-AllFail start end month day (ds ∷ rest) (e ∷ es) g s h =
      let later = upload_loop-AllFail start end month day rest es (with_failure e g) s h.2 in
      rw (h.0, upload_loop)
        (rw h.1
          (later ∙ λ i. (ok (record g { failures = append_assoc g.failures (e ∷ []) es i }), s)))

  -- Where a call resolves to some datasets, none of them a snapshot that may not be written, and
  -- the fetch of every one fails with a `BackfillError`, it raises one error that counts the
  -- datasets and carries the first failure, and stores nothing.
  pub upload_datasets-AllFail :
      (start end : Date) (name month : Option Text) (day : Option Date)
      (strategy : Option PartitionStrategy) (d : DatasetConfig) (ds : List DatasetConfig)
      (e : Exception) (es : List Exception) (s : P.State)
      → resolve_datasets cfg name strategy ≡ ok (d ∷ ds)
      → leaked P up now cfg day (d ∷ ds) ≡ []
      → AllFail start end (d ∷ ds) (e ∷ es)
      → upload_datasets P up now cfg start end name month day strategy s
        ≡ (err (all_failed upload cfg.source.id (length (d ∷ ds)) e), s)
  unfolding upload_datasets with_result
  upload_datasets-AllFail start end name month day strategy d ds e es s found clean h =
      rw (found, clean)
        (rw (upload_loop-AllFail start end month day (d ∷ ds) (e ∷ es) nothing_gathered s h)
          (λ i. (err (all_failed upload cfg.source.id (suc (same_length ds es h.2 i)) e), s)))
    where
      same_length :
          (xs : List DatasetConfig) (ys : List Exception)
          → AllFail start end xs ys
          → length ys ≡ length xs
      same_length [] [] k = refl
      same_length [] (y ∷ ys) k = elim k [ ]
      same_length (x ∷ xs) [] k = elim k [ ]
      same_length (x ∷ xs) (y ∷ ys) k = ap suc (same_length xs ys k.2)

  -- On a source without static datasets, a windowed call that reaches a snapshot dataset raises
  -- an error that names those it reaches, and stores nothing.
  pub upload_window-leaked :
      (start end : Date) (name : Option Text) (strategy : Option PartitionStrategy)
      (ds : List DatasetConfig) (s : P.State)
      → datasets_with_strategy cfg static ≡ []
      → resolve_datasets cfg name strategy ≡ ok ds
      → any (λ d. same_strategy (strategy_for cfg d) snapshot) ds ≡ true
      → upload_window P up now cfg start end name strategy s ≡ (
        err (
            snapshot_leaked cfg.source.id
              (names (keep (λ d. same_strategy (strategy_for cfg d) snapshot) ds))),
        s,
      )
  unfolding upload_window upload_datasets with_result
  upload_window-leaked start end name strategy ds s dynamic found reached =
      rw (dynamic, found) (rw (kept_some _ ds reached))

  -- A snapshot upload whose first dataset has the fields that its `api_type` is served by, no
  -- blank domain, and is a Socrata table without a timestamp field, raises that the field is
  -- missing, and stores nothing.
  pub upload_snapshot-refused :
      (day : Option Date) (name : Option Text) (d : DatasetConfig) (ds : List DatasetConfig)
      (s : P.State)
      → resolve_datasets cfg name (some snapshot) ≡ ok (d ∷ ds)
      → Serves d
      → HasDomain d
      → has_no_window d (strategy_for cfg d) ≡ true
      → upload_snapshot P up now cfg day name s ≡ (err (missing_timestamp_field d.name), s)
  unfolding upload_snapshot upload_datasets with_result upload_loop fetch_one
  upload_snapshot-refused day name d ds s found serves named windowless =
      let refused =
        (build_fetcher-err d (or_start day now.today) (next_day (or_start day now.today))
            (strategy_for cfg d) serves named (missing_timestamp_field d.name)).1
          (windowless, refl) in
      rw found (rw (refused, upload_loop, fetch_one))
