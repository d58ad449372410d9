-- ===== src/BronzeAudit/Integrity/Caught.antt =====
-- scripts/profiling/: what the two checks raise, an audit catches.
use urban_ops_intelligence_p.Prelude.{
  ℕ, zero, suc, ◌+◌, ◌*◌, ◌≡◌, refl, Bool, true, false, Option, none, some, List, [], ◌∷◌,
  if◌then◌else◌, Text, any, keep, not, codes, ltb, ◌-◌, is_system_exit, Result, ok, err, ◌>>=◌,
  Bool-cases, inl, inr,
}
use urban_ops_intelligence_p.Calendar.{Date}
use urban_ops_intelligence_p.Config.{SourceConfig, DatasetConfig, truthy, is_blank}
use urban_ops_intelligence_p.Registry.{SourceFile, load_source_config}
use urban_ops_intelligence_p.Records.{Value, Record}
use urban_ops_intelligence_p.Loader.Daily.{parse_iso}
use urban_ops_intelligence_p.Platform.{Platform, Clock, Bytes, Object}
use urban_ops_intelligence_p.Socrata.{
  Reply, rate_limited, request_failed, rows, request_loop, max_retries, initial_backoff_secs,
  new_client,
}
use urban_ops_intelligence_p.Strings.Sorting.{sort_by}
use urban_ops_intelligence_p.BronzeAudit.{
  Reader, body_of, ends_with, day_of, is_wanted, dataset_prefix, shard_lines,
}
use urban_ops_intelligence_p.BronzeAudit.Shards.{
  Key, hashed, keyed, key_of, scan_shard, scan_each, run_scan, is_data_blob, is_hashable,
}
use urban_ops_intelligence_p.BronzeAudit.Reconcile.{
  Counts, counted, count_of, day_from, count_loop, bronze_row_counts, Counter, upstream_count,
  from_isoformat, is_day, reconcile_loop, days_before, named, or_blank, run_reconcile,
}

-- What `except Exception` catches.
abbrev pub Caught : {A : Type 0} → Result A → Type 0
Caught (ok a) = Unit
Caught (err e) = is_system_exit e ≡ false

pub Caught->>= :
    {A B : Type 0} (m : Result A) (f : A → Result B)
    → Caught m
    → ((a : A) → Caught (f a))
    → Caught (m >>= f)
Caught->>= (ok a) f h k = k a
Caught->>= (err e) f h k = h

-- The libraries that the audits call do not end the process.
pub record RaisesNoExit (P : Platform) (R : Reader P) (C : Counter) : Type 0 where
  pub lists : (s : P.State) (t : Text) → Caught (R.keys_under s t)
  pub gunzips : (b : Bytes) → Caught (R.gunzip b)
  pub decodes : (b : Bytes) → Caught (R.decode b)
  pub parses : (t : Text) → Caught (R.loads t)
  pub converts : (v : Value) → Caught (C.int_of v)

module _ (P : Platform) (R : Reader P) (C : Counter) (laws : RaisesNoExit P R C) where
  body_of-Caught : (o : Option Object) → Caught (body_of P R o)
  body_of-Caught none = refl
  body_of-Caught (some o) = tt

  unpacked-Caught : (b : Bool) (raw : Bytes) → Caught (if b then R.gunzip raw else ok raw)
  unpacked-Caught true raw = laws.gunzips raw
  unpacked-Caught false raw = tt

  shard_lines-Caught : (key : Text) (s : P.State) → Caught (shard_lines P R key s)
  unfolding shard_lines
  shard_lines-Caught key s = Caught->>= _ _ (body_of-Caught (P.object_at s key)) (λ raw.
      Caught->>= _ _ (unpacked-Caught (ends_with (codes ".gz") key) raw)
        (λ bytes. Caught->>= _ _ (laws.decodes bytes) (λ t. tt)))

  hashed-Caught : (k : Key) → Caught (hashed P R k)
  hashed-Caught k = elim (Bool-cases (any (λ c. not (is_hashable P R c)) k)) [
    | inl bad ↦ rw bad refl
    | inr good ↦ rw good tt
  ]

  keyed-Caught : (fields lines : List Text) → Caught (keyed P R fields lines)
  unfolding keyed
  keyed-Caught fields [] = tt
  keyed-Caught fields (line ∷ lines) = Caught->>= _ _ (laws.parses line) (λ r.
      Caught->>= _ _ (hashed-Caught (key_of fields r))
        (λ k. Caught->>= _ _ (keyed-Caught fields lines) (λ rows. tt)))

  scan_each-Caught : (fields keys : List Text) (s : P.State) → Caught (scan_each P R fields keys s)
  unfolding scan_each scan_shard
  scan_each-Caught fields [] s = tt
  scan_each-Caught fields (key ∷ keys) s =
      Caught->>= _ _
        (Caught->>= _ _ (shard_lines-Caught key s)
          (λ lines. Caught->>= _ _ (keyed-Caught fields lines) (λ rows. tt)))
        (λ report. Caught->>= _ _ (scan_each-Caught fields keys s) (λ reports. tt))

  -- Whatever a scan meets, it raises nothing that ends the process.
  pub run_scan-Caught :
      (source_id dataset : Text) (fields : List Text) (only_days : Option (List Text)) (s : P.State)
      → Caught (run_scan P R source_id dataset fields only_days s)
  unfolding run_scan
  run_scan-Caught source_id dataset fields only_days s =
      Caught->>= _ _ (laws.lists s (dataset_prefix source_id dataset))
        (λ keys. scan_each-Caught fields (keep (is_data_blob P R only_days) keys) s)

  request_loop-Caught :
      (reply : ℕ → Reply) (left attempt backoff : ℕ)
      → Caught (request_loop reply left attempt backoff).result
  unfolding request_loop
  request_loop-Caught reply zero attempt backoff = refl
  request_loop-Caught reply (suc left) attempt backoff =
      by_reply (reply attempt) refl (request_loop-Caught reply left (attempt + 1) (backoff * 2))
    where
      by_reply :
          (r : Reply)
          → reply attempt ≡ r
          → Caught (request_loop reply left (attempt + 1) (backoff * 2)).result
          → Caught (request_loop reply (suc left) attempt backoff).result
      by_reply rate_limited e h = rw (e, request_loop) h
      by_reply (request_failed n) e h = elim (Bool-cases (ltb attempt (max_retries - 1))) [
        | inl again ↦ rw (e, again, request_loop) h
        | inr last ↦ rw (e, last, request_loop) refl
      ]
      by_reply (rows rs) e h = rw (e, request_loop) tt

  count_of-Caught : (rs : List Record) → Caught (count_of C rs)
  count_of-Caught [] = tt
  count_of-Caught ([] ∷ rs) = refl
  count_of-Caught (((name, v) ∷ row) ∷ rs) = laws.converts v

  from_isoformat-Caught : (t : Text) → Caught (from_isoformat t)
  unfolding from_isoformat
  from_isoformat-Caught t = day_from-Caught (parse_iso t)
    where
      day_from-Caught : (d : Option Date) → Caught (day_from d)
      day_from-Caught none = refl
      day_from-Caught (some d) = elim (Bool-cases (is_day d)) [
        | inl good ↦ rw good tt
        | inr bad ↦ rw bad refl
      ]

  reconcile_loop-Caught :
      (resource field : Text) (cutoff : Date) (counts : Counts)
      → Caught (reconcile_loop C resource field cutoff counts)
  unfolding reconcile_loop upstream_count
  reconcile_loop-Caught resource field cutoff [] = tt
  reconcile_loop-Caught resource field cutoff ((day_str, n) ∷ counts) =
      Caught->>= _ _ (from_isoformat-Caught day_str) (λ day.
        Caught->>= _ _
          (Caught->>= _ _
            (request_loop-Caught (C.reply resource field day) max_retries 0 initial_backoff_secs)
            (λ rs. count_of-Caught rs))
          (λ upstream.
            Caught->>= _ _ (reconcile_loop-Caught resource field cutoff counts) (λ recs. tt)))

  count_loop-Caught :
      (only_days : Option (List Text)) (keys : List Text) (s : P.State) (counts : Counts)
      → Caught (count_loop P R only_days keys s counts)
  unfolding count_loop
  count_loop-Caught only_days [] s counts = tt
  count_loop-Caught only_days (key ∷ keys) s counts =
      Caught->>= _ _ (counted-Caught (day_of key) (is_wanted (day_of key) only_days))
        (λ counts'. count_loop-Caught only_days keys s counts')
    where
      counted-Caught :
          (d : Option Text) (wanted : Bool) → Caught (counted P R d wanted key s counts)
      counted-Caught none wanted = tt
      counted-Caught (some day) false = tt
      counted-Caught (some day) true = Caught->>= _ _ (shard_lines-Caught key s) (λ lines. tt)

  new_client-Caught : (resource domain : Text) → Caught (new_client resource domain)
  unfolding new_client
  new_client-Caught resource domain = elim (Bool-cases (is_blank domain)) [
    | inl blank ↦ rw blank refl
    | inr named ↦ rw named tt
  ]

  -- The counts are reconciled, or what is raised is caught, where the dataset is configured with a
  -- timestamp field.
  pub run_reconcile-Caught :
      (now : Clock) (files : List SourceFile) (source_id dataset : Text) (late : ℕ)
      (only_days : Option (List Text)) (s : P.State) (cfg : SourceConfig) (ds : DatasetConfig)
      → load_source_config files source_id ≡ ok cfg
      → named dataset cfg.datasets ≡ some ds
      → truthy ds.timestamp_field ≡ true
      → Caught (run_reconcile P R C now files source_id dataset late only_days s)
  unfolding run_reconcile bronze_row_counts
  run_reconcile-Caught now files source_id dataset late only_days s cfg ds loaded found timed =
      rw loaded (
        rw found (
          rw timed (
            Caught->>= _ _ (new_client-Caught (or_blank ds.resource_id) (or_blank ds.domain))
              (λ client.
                Caught->>= _ _
                  (Caught->>= _ _ (laws.lists s (dataset_prefix source_id dataset))
                    (λ keys. count_loop-Caught only_days keys s []))
                  (λ counts.
                    reconcile_loop-Caught client.resource_id (or_blank ds.timestamp_field)
                      (days_before now.today late) (sort_by (λ c. c.0) counts))))))
