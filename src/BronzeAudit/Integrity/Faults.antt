-- ===== src/BronzeAudit/Integrity/Faults.antt =====
-- scripts/profiling/bronze_integrity_audit.py: what the two checks find, of the shards and the days.
use urban_ops_intelligence_p.Prelude.{
  ℕ, ◌≡◌, refl, Bool, true, not, ◌||◌, ◌&&◌, ◌==◌, Option, none, some, List, [], ◌∷◌, Text, any,
  keep, Result, ok, err, ◌>>=◌, bind-ok, arith, Bool-cases, inl, inr,
}
use urban_ops_intelligence_p.Calendar.{Date, date_le}
use urban_ops_intelligence_p.Config.{DatasetConfig, truthy}
use urban_ops_intelligence_p.Records.{Value}
use urban_ops_intelligence_p.Registry.{SourceFile, load_source_config}
use urban_ops_intelligence_p.Platform.{Platform, Clock}
use urban_ops_intelligence_p.Socrata.{Client, new_client}
use urban_ops_intelligence_p.Strings.Sorting.{sort_by}
use urban_ops_intelligence_p.BronzeAudit.{Reader, dataset_prefix, shard_lines}
use urban_ops_intelligence_p.BronzeAudit.Shards.{
  Key, ShardReport, is_dirty, keyed, scan_each, scan_shard, is_data_blob, run_scan,
}
use urban_ops_intelligence_p.BronzeAudit.Shards.Repeats.{
  IsTransitive, repeated, scan_shard-repeated,
}
use urban_ops_intelligence_p.BronzeAudit.Reconcile.{
  DayReconciliation, verdict, is_missing, is_excess, Counter, run_reconcile, upstream_count,
  from_isoformat, days_before, reconcile_loop, reconciled, reconcile_dataset, bronze_row_counts,
  named, or_blank,
}
use urban_ops_intelligence_p.BronzeAudit.Integrity.{dataset_config, found_dataset}

-- What the check B finds: an exception, or a dirty shard.
abbrev pub scan_finds : Result (List ShardReport) → Bool
scan_finds (err e) = true
scan_finds (ok reports) = any is_dirty reports

-- What the check C finds: an exception, or a day that is short or over and not tolerated.
abbrev pub reconcile_finds : Result (List DayReconciliation) → Bool
reconcile_finds (err e) = true
reconcile_finds (ok recs) = any (λ r. is_missing (verdict r) || is_excess (verdict r)) recs

-- The keys of the lines could not be read, or two lines have equal keys.
abbrev faulty : (Value → Value → Bool) → Result (List (Key × Text)) → Bool
faulty same (err e) = true
faulty same (ok rows) = repeated same rows

module _ (P : Platform) (R : Reader P) where
  abbrev pub shard_faulty : List Text → P.State → Text → Bool
  shard_faulty fields s key = faulty R.same (shard_lines P R key s >>= keyed P R fields)

  abbrev listed_faulty : List Text → List Text → P.State → Result (List Text) → Bool
  listed_faulty fields days s (err e) = true
  listed_faulty fields days s (ok keys) =
      any (shard_faulty fields s) (keep (is_data_blob P R (some days)) keys)

  -- The objects cannot be listed, or some shard of the days is faulty.
  abbrev pub any_shard_faulty : Text → Text → List Text → List Text → P.State → Bool
  any_shard_faulty source_id dataset fields days s =
      listed_faulty fields days s (R.keys_under s (dataset_prefix source_id dataset))

  abbrev report_finds : Result ShardReport → Bool
  report_finds (err e) = true
  report_finds (ok r) = is_dirty r

  scan_shard-faulty :
      (t : IsTransitive R.same) (fields : List Text) (s : P.State) (key : Text)
      → report_finds (scan_shard P R key fields s) ≡ shard_faulty fields s key
  unfolding scan_shard
  scan_shard-faulty t fields s key = by_lines (shard_lines P R key s) refl
    where
      by_rows :
          (lines : List Text) (o : Result (List (Key × Text)))
          → shard_lines P R key s ≡ ok lines
          → keyed P R fields lines ≡ o
          → report_finds (scan_shard P R key fields s) ≡ faulty R.same o
      by_rows lines (ok rows) e f =
          let (r, made, total, split, dirty) =
            scan_shard-repeated P R t key fields lines rows s e f in
          rw made dirty
      by_rows lines (err x) e f = rw (e, f) refl

      by_lines :
          (o : Result (List Text))
          → shard_lines P R key s ≡ o
          → report_finds (scan_shard P R key fields s) ≡ faulty R.same (o >>= keyed P R fields)
      by_lines (ok lines) e = by_rows lines (keyed P R fields lines) e refl
      by_lines (err x) e = rw e refl

  scan_each-faulty :
      (t : IsTransitive R.same) (fields keys : List Text) (s : P.State)
      → scan_finds (scan_each P R fields keys s) ≡ any (shard_faulty fields s) keys
  unfolding scan_each
  scan_each-faulty t fields [] s = refl
  scan_each-faulty t fields (k ∷ keys) s =
      by_report (scan_shard P R k fields s) (scan_each P R fields keys s)
        (scan_shard-faulty t fields s k) (scan_each-faulty t fields keys s)
    where
      by_report :
          (o : Result ShardReport) (later : Result (List ShardReport))
          → report_finds o ≡ shard_faulty fields s k
          → scan_finds later ≡ any (shard_faulty fields s) keys
          → scan_finds (o >>= λ report. later >>= λ reports. ok (report ∷ reports))
            ≡ (shard_faulty fields s k || any (shard_faulty fields s) keys)
      by_report (err e) later h g = rw (← h) refl
      by_report (ok r) (ok rs) h g = λ i. h i || g i
      by_report (ok r) (err e) h g = ground (arith, g)

  pub scan_finds-run_scan :
      (t : IsTransitive R.same) (source_id dataset : Text) (fields days : List Text) (s : P.State)
      → scan_finds (run_scan P R source_id dataset fields (some days) s)
        ≡ any_shard_faulty source_id dataset fields days s
  unfolding run_scan
  scan_finds-run_scan t source_id dataset fields days s =
      by_listing (R.keys_under s (dataset_prefix source_id dataset))
    where
      by_listing :
          (o : Result (List Text))
          → scan_finds
              (o >>= λ keys. scan_each P R fields (keep (is_data_blob P R (some days)) keys) s)
            ≡ listed_faulty fields days s o
      by_listing (err e) = refl
      by_listing (ok keys) = scan_each-faulty t fields (keep (is_data_blob P R (some days)) keys) s

-- A day's number of lines is not the upstream's count, which could be asked for, and the day is
-- before the tolerated ones.
abbrev differs : Date → Date → ℕ → Result ℕ → Bool
differs cutoff day rows (err e) = true
differs cutoff day rows (ok upstream) = not (rows == upstream) && not (date_le cutoff day)

module _ (C : Counter) (resource field : Text) (cutoff : Date) where
  abbrev on_day : ℕ → Result Date → Bool
  on_day rows (err e) = true
  on_day rows (ok day) = differs cutoff day rows (upstream_count C resource field day)

  abbrev pub day_faulty : Text × ℕ → Bool
  day_faulty (day_str, rows) = on_day rows (from_isoformat day_str)

  verdict-differs :
      (r : DayReconciliation)
      → (is_missing (verdict r) || is_excess (verdict r))
        ≡ (not (r.bronze_rows == r.upstream_rows) && not r.within_late_arrival_window)
  unfolding verdict
  verdict-differs r = ground arith

  reconcile_loop-faulty :
      (counts : List (Text × ℕ))
      → reconcile_finds (reconcile_loop C resource field cutoff counts) ≡ any day_faulty counts
  unfolding reconcile_loop
  reconcile_loop-faulty [] = refl
  reconcile_loop-faulty ((day_str, rows) ∷ counts) =
      by_day (from_isoformat day_str) (reconcile_loop C resource field cutoff counts)
        (reconcile_loop-faulty counts)
    where
      by_count :
          (day : Date) (upstream : Result ℕ) (later : Result (List DayReconciliation))
          → reconcile_finds later ≡ any day_faulty counts
          → reconcile_finds (
              upstream >>= λ n.
              later >>= λ recs. ok (reconciled C cutoff day_str day rows n ∷ recs))
            ≡ (differs cutoff day rows upstream || any day_faulty counts)
      by_count day (err e) later h = refl
      by_count day (ok n) (err e) h = ground (arith, h)
      by_count day (ok n) (ok recs) h =
          λ i. verdict-differs (reconciled C cutoff day_str day rows n) i || h i

      by_day :
          (o : Result Date) (later : Result (List DayReconciliation))
          → reconcile_finds later ≡ any day_faulty counts
          → reconcile_finds (
              o >>= λ day. upstream_count C resource field day >>= λ n.
              later >>= λ recs. ok (reconciled C cutoff day_str day rows n ∷ recs))
            ≡ (on_day rows o || any day_faulty counts)
      by_day (err e) later h = refl
      by_day (ok day) later h = by_count day (upstream_count C resource field day) later h

found_dataset-some :
    (source_id dataset : Text) (o : Option DatasetConfig) (ds : DatasetConfig)
    → found_dataset source_id dataset o ≡ ok ds
    → o ≡ some ds
found_dataset-some source_id dataset none ds h = cc
found_dataset-some source_id dataset (some d) ds h = cc

module _ (P : Platform) (R : Reader P) (C : Counter) (now : Clock) (source_id dataset : Text)
    (late : ℕ) (days : List Text) (s : P.State) where
  abbrev counts_faulty : Text → Text → Result (List (Text × ℕ)) → Bool
  counts_faulty resource field (err e) = true
  counts_faulty resource field (ok counts) =
      any (day_faulty C resource field (days_before now.today late)) (sort_by (λ c. c.0) counts)

  abbrev client_faulty : DatasetConfig → Result Client → Bool
  client_faulty ds (err e) = true
  client_faulty ds (ok socrata) =
      counts_faulty socrata.resource_id (or_blank ds.timestamp_field)
        (bronze_row_counts P R source_id dataset (some days) s)

  -- There is no timestamp field, the client is refused, the lines cannot be counted, or some day is
  -- faulty.
  abbrev pub any_day_faulty : DatasetConfig → Bool
  any_day_faulty ds =
      not (truthy ds.timestamp_field)
      || client_faulty ds (new_client (or_blank ds.resource_id) (or_blank ds.domain))

  reconcile_dataset-faulty :
      (ds : DatasetConfig)
      → reconcile_finds (reconcile_dataset P R C now source_id dataset late (some days) s (some ds))
        ≡ any_day_faulty ds
  reconcile_dataset-faulty ds = elim (Bool-cases (truthy ds.timestamp_field)) [
    | inl timed ↦ rw timed (by_client (new_client (or_blank ds.resource_id) (or_blank ds.domain)))
    | inr untimed ↦ rw untimed refl
  ]
    where
      by_counts :
          (socrata : Client) (o : Result (List (Text × ℕ)))
          → reconcile_finds (
              o >>= λ counts.
              reconcile_loop C socrata.resource_id
                (or_blank ds.timestamp_field)
                (days_before now.today late)
                (sort_by (λ c. c.0) counts))
            ≡ counts_faulty socrata.resource_id (or_blank ds.timestamp_field) o
      by_counts socrata (err e) = refl
      by_counts socrata (ok counts) =
          reconcile_loop-faulty C socrata.resource_id (or_blank ds.timestamp_field)
            (days_before now.today late) (sort_by (λ c. c.0) counts)

      by_client :
          (o : Result Client)
          → reconcile_finds (
              o >>= λ socrata. bronze_row_counts P R source_id dataset (some days) s >>= λ counts.
              reconcile_loop C socrata.resource_id
                (or_blank ds.timestamp_field)
                (days_before now.today late)
                (sort_by (λ c. c.0) counts))
            ≡ client_faulty ds o
      by_client (err e) = refl
      by_client (ok socrata) =
          by_counts socrata (bronze_row_counts P R source_id dataset (some days) s)

  pub reconcile_finds-run_reconcile :
      (files : List SourceFile) (ds : DatasetConfig)
      → dataset_config files source_id dataset ≡ ok ds
      → reconcile_finds (run_reconcile P R C now files source_id dataset late (some days) s)
        ≡ any_day_faulty ds
  unfolding run_reconcile dataset_config
  reconcile_finds-run_reconcile files ds found =
      let (cfg, e, h) = bind-ok (load_source_config files source_id) _ ds found in
      rw e (
        rw (found_dataset-some source_id dataset (named dataset cfg.datasets) ds h)
          (reconcile_dataset-faulty ds))
