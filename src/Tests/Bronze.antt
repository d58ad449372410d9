-- ===== src/Tests/Bronze.antt =====
-- A Bronze layer of one day, and the audits of it.
use urban_ops_intelligence_p.Prelude.{
  ◌+◌, ◌≡◌, refl, Bool, true, false, none, some, List, [], ◌∷◌, ◌++◌, Text, codes, text_eq,
  text_eq→eq, map, keep, ap, append-nil, Result, ok, err, arith,
}
use urban_ops_intelligence_p.Calendar.{isoformat, month_format}
use urban_ops_intelligence_p.Calendar.Iso.{IsIso}
use urban_ops_intelligence_p.Config.{DatasetConfig}
use urban_ops_intelligence_p.Registry.{SourceFile}
use urban_ops_intelligence_p.Records.{Value, text, other, Record}
use urban_ops_intelligence_p.Platform.{Object}
use urban_ops_intelligence_p.Manifest.{ManifestEntry}
use urban_ops_intelligence_p.Socrata.{rows}
use urban_ops_intelligence_p.Strings.{starts_with}
use urban_ops_intelligence_p.Loader.Daily.{write_day, parse_iso}
use urban_ops_intelligence_p.Loader.Writes.{with_result, and_then, write_pair}
use urban_ops_intelligence_p.Loader.{bronze_prefix, make_manifest, date_range, dates_of, date_of}
use urban_ops_intelligence_p.Strings.Lines.{split_lines}
use urban_ops_intelligence_p.Dq.Recorded.{data_key}
use urban_ops_intelligence_p.BronzeAudit.{Reader, shard_lines}
use urban_ops_intelligence_p.BronzeAudit.Shards.{Key, ShardReport, is_dirty, keyed, scan_shard}
use urban_ops_intelligence_p.BronzeAudit.Shards.Repeats.{
  IsTransitive, repeated, scan_shard-repeated,
}
use urban_ops_intelligence_p.BronzeAudit.Shards.Stored.{Inverts, write_day-shard_lines}
use urban_ops_intelligence_p.BronzeAudit.Reconcile.{Counter, DayReconciliation}
use urban_ops_intelligence_p.BronzeAudit.Integrity.{
  DatasetAudit, check_b, check_c, audit_window, targets_in,
}
use urban_ops_intelligence_p.BronzeAudit.Integrity.Caught.{RaisesNoExit}
use urban_ops_intelligence_p.BronzeAudit.Integrity.Returns.{target_of, audit_window-returns}
use urban_ops_intelligence_p.Tests.Data.{
  registry, memory, memory-IsObjectStore, clock, ninth, tenth, on_ninth, requests,
}
use urban_ops_intelligence_p.Tests.Registries.{
  file_with, city_files, load_file-HasId, loaded, city_loads,
}
use urban_ops_intelligence_p.Tests.Settings.{city}
use urban_ops_intelligence_p.Tests.Utf8.{decoded, decode_from, decoded-encode}

-- Equality of texts.
abbrev equal_texts : Value → Value → Bool
equal_texts (text t) (text u) = text_eq t u
equal_texts (text t) (other b u) = false
equal_texts (other b t) v = false

abbrev keys_in : List (Text × Object) → List Text
keys_in [] = []
keys_in ((k, o) ∷ s) = k ∷ keys_in s

-- Nothing is compressed, and a line is the value of the field `id`.
abbrev reader : Reader memory
reader = record {
  keys_under = λ s prefix. ok (keep (starts_with prefix) (keys_in s));
  gunzip = λ b. ok b;
  decode = λ b. ok (decoded b);
  loads = λ t. ok ((codes "id", text t) ∷ []);
  same = equal_texts;
  hashable = λ v. true;
}

reader-Inverts : Inverts memory reader
reader-Inverts = record {
  gunzip-gzip = λ b. ap ok (append-nil b);
  decode-encode = λ t. ap ok (decoded-encode t);
}

-- The shard of a day, with the lines that it holds.
abbrev shard : List Text → List (Text × Object)
shard lines =
    (
      data_key (codes "SRC-001") (codes "requests") ninth,
      record { body = joined_lines lines; content_type = []; metadata = [] },
    )
    ∷ []
  where
    joined_lines : List Text → Text
    joined_lines [] = []
    joined_lines (l ∷ ls) = l ++ (10 ∷ joined_lines ls)

abbrev twice : List Text
twice = codes "a1" ∷ codes "b2" ∷ codes "a1" ∷ []

abbrev twice_keyed : List (Key × Text)
twice_keyed = map (λ t. (some (text t) ∷ [], t)) twice

texts_trans : IsTransitive equal_texts
texts_trans (text t) (text u) (text v) h k = rw (text_eq→eq t u h) k
texts_trans (text t) (text u) (other b v) h k = cc
texts_trans (text t) (other b u) w h k = cc
texts_trans (other b t) v w h k = cc

read_twice :
    shard_lines memory reader (data_key (codes "SRC-001") (codes "requests") ninth) (shard twice)
    ≡ ok twice
unfolding shard_lines bronze_prefix isoformat month_format split_lines decoded decode_from
read_twice = refl

keyed-twice : keyed memory reader (codes "id" ∷ []) twice ≡ ok twice_keyed
unfolding keyed
keyed-twice = refl

scan_shard-repeated_example :
    (report : ShardReport) × (scan_shard memory reader
        (data_key (codes "SRC-001") (codes "requests") ninth)
        (codes "id" ∷ [])
        (shard twice)
      ≡ ok report)
    × (report.total_rows ≡ 3)
    × (report.excess_rows + report.distinct_keys ≡ report.total_rows)
    × (is_dirty report ≡ repeated equal_texts twice_keyed)
scan_shard-repeated_example =
    scan_shard-repeated memory reader texts_trans
      (data_key (codes "SRC-001") (codes "requests") ninth) (codes "id" ∷ []) twice twice_keyed
      (shard twice) read_twice keyed-twice

ninth-IsIso : IsIso ninth
ninth-IsIso = record { year_in = omega arith; month_in = omega arith; day_in = omega arith }

abbrev two_rows : List Record
two_rows = on_ninth ∷ on_ninth ∷ []

abbrev stored : Result ManifestEntry × memory.State
stored =
    write_day memory clock (codes "ts") (codes "SRC-001") (codes "requests") (isoformat ninth)
      two_rows []

abbrev manifest_in : Result ManifestEntry → ManifestEntry
manifest_in (ok m) = m
manifest_in (err e) = record {
  source_id = [];
  dataset_name = [];
  ingest_date = [];
  month_partition = [];
  filename = [];
  record_count = 0;
  file_size_bytes = 0;
  sha256_checksum = [];
  compression = none;
  stored_bytes = 0;
  data_date_min = none;
  data_date_max = none;
  fetch_timestamp = [];
  timestamp_field = [];
}

writes : stored.0 ≡ ok (manifest_in stored.0)
unfolding write_day parse_iso isoformat with_result and_then write_pair make_manifest date_range
    dates_of date_of
writes = refl

write_day-shard_lines_example :
    shard_lines memory reader (data_key (codes "SRC-001") (codes "requests") ninth) stored.1
    ≡ ok (map memory.dumps two_rows)
write_day-shard_lines_example =
    write_day-shard_lines memory reader reader-Inverts memory-IsObjectStore clock (codes "ts")
      (codes "SRC-001") (codes "requests") ninth two_rows [] (manifest_in stored.0) ninth-IsIso
      (refl, (refl, tt)) writes

-- The portal counts three rows on every day.
abbrev three : Counter
three = record {
  reply = λ resource field day n. rows (((codes "count", text (codes "3")) ∷ []) ∷ []);
  int_of = λ v. ok 3;
}

no_exit : RaisesNoExit memory reader three
no_exit = record {
  lists = λ s t. tt;
  gunzips = λ b. tt;
  decodes = λ b. tt;
  parses = λ t. tt;
  converts = λ v. tt;
}

audit_window-returns_example :
    (audits : List DatasetAudit) × (audit_window memory reader three clock city_files 7 tenth 14
        (shard twice)
      ≡ ok audits)
    × (map target_of audits ≡ targets_in loaded)
audit_window-returns_example =
    audit_window-returns memory reader three no_exit clock city_files 7 (shard twice) loaded tenth
      14 (load_file-HasId city, tt) city_loads (refl, tt)

-- The dataset with a primary key.
abbrev keyed_requests : DatasetConfig
keyed_requests = record requests { primary_key = some (codes "id" ∷ []) }

abbrev keyed_files : List SourceFile
keyed_files = file_with (registry (keyed_requests ∷ [])) ∷ []

abbrev days : List Text
days = isoformat ninth ∷ []

abbrev reconciled_three : DatasetAudit
reconciled_three = record {
  source_id = codes "SRC-001";
  dataset = codes "requests";
  checks_run = check_b ∷ check_c ∷ [];
  checks_skipped = [];
  dirty_shards = data_key (codes "SRC-001") (codes "requests") ninth ∷ [];
  days_missing_rows = [];
  days_excess_rows = [];
  errors = [];
}

abbrev on_ninth_day : DayReconciliation
on_ninth_day = record {
  day = isoformat ninth;
  bronze_rows = 3;
  upstream_rows = 3;
  within_late_arrival_window = true;
}
