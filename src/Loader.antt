-- ===== src/Loader.antt =====
-- ingestion/loaders/s3_loader.py: the texts, payloads and manifests of the Bronze layer. The writes
-- stand in the children.
pub mod Paths
pub mod Writes
pub mod Daily
pub mod Stream
use urban_ops_intelligence_p.Prelude.{
  ℕ, zero, suc, ◌+◌, ◌*◌, ◌/◌, ◌%◌, Bool, true, false, not, Option, none, some, List, [], ◌∷◌, ◌++◌,
  ltb, ◌==◌, if◌then◌else◌, Text, codes, length, is_empty, lookup, map, Exception, attribute_error,
  Result, ok, err, ◌>>=◌,
}
use urban_ops_intelligence_p.Calendar.{Date, date_lt, isoformat}
use urban_ops_intelligence_p.Records.{Value, text, other, Record, is_truthy}
use urban_ops_intelligence_p.Manifest.{ManifestEntry}
use urban_ops_intelligence_p.Platform.{Bytes, Platform, Clock}

-- `bronze_prefix`
unfoldable pub bronze_prefix : Text → Text → Option Text → Text
bronze_prefix source_id dataset_name partition =
    let base = codes "bronze/raw/" ++ (source_id ++ (codes "/" ++ dataset_name)) in
    elim partition [ none ↦ base | some p ↦ if is_empty p then base else base ++ (codes "/" ++ p) ]

-- The bytes of a code point in UTF-8. A lone surrogate, which Python refuses, is not told apart.
unfoldable pub utf8_bytes : ℕ → Bytes
utf8_bytes c =
    if ltb c 128
    then c ∷ []
    else if ltb c 2048
    then (192 + c / 64) ∷ (128 + c % 64) ∷ []
    else if ltb c 65536
    then (224 + c / 4096) ∷ (128 + c / 64 % 64) ∷ (128 + c % 64) ∷ []
    else (240 + c / 262144) ∷ (128 + c / 4096 % 64) ∷ (128 + c / 64 % 64) ∷ (128 + c % 64) ∷ []

-- `t.encode("utf-8")`
unfoldable pub encode : Text → Bytes
encode [] = []
encode (c ∷ t) = utf8_bytes c ++ encode t

abbrev pub newline : ℕ
newline = 10

-- `"\n".join(lines)`
abbrev pub join_lines : List Text → Text
join_lines [] = []
join_lines (l ∷ []) = l
join_lines (l ∷ m ∷ ls) = l ++ (newline ∷ join_lines (m ∷ ls))

-- `_to_ndjson`
unfoldable pub to_ndjson : (Record → Text) → List Record → Bytes
to_ndjson dumps records =
    if is_empty records then [] else encode (join_lines (map dumps records) ++ (newline ∷ []))

-- `raw.replace("Z", "+00:00")`
abbrev pub replace_z : Text → Text
replace_z [] = []
replace_z (c ∷ t) = let rest = replace_z t in if c == b'Z' then codes "+00:00" ++ rest else c ∷ rest

-- The date in a value: none without a usable timestamp; a truthy value that is no text has no
-- `replace`.
abbrev pub date_at : Platform → Option Value → Result (Option Date)
date_at P none = ok none
date_at P (some (text t)) = if is_empty t then ok none else ok (P.parse_timestamp (replace_z t))
date_at P (some (other b shown)) = if b then err attribute_error else ok none

unfoldable pub date_of : Platform → Text → Record → Result (Option Date)
date_of P field r = date_at P (lookup field r)

abbrev pub with_date : Option Date → List Date → List Date
with_date none ds = ds
with_date (some d) ds = d ∷ ds

unfoldable pub dates_of : Platform → Text → List Record → Result (List Date)
dates_of P field [] = ok []
dates_of P field (r ∷ rs) =
    let rest = dates_of P field rs in date_of P field r >>= λ d. rest >>= λ ds. ok (with_date d ds)

-- `min(dates)` and `max(dates)`
abbrev pub min_date : Date → List Date → Date
min_date d [] = d
min_date d (e ∷ ds) = min_date (if date_lt e d then e else d) ds

abbrev pub max_date : Date → List Date → Date
max_date d [] = d
max_date d (e ∷ ds) = max_date (if date_lt d e then e else d) ds

abbrev pub range_of : List Date → Option Text × Option Text
range_of [] = (none, none)
range_of (d ∷ ds) = (some (isoformat (min_date d ds)), some (isoformat (max_date d ds)))

-- `_date_range`
unfoldable pub date_range : Platform → Text → List Record → Result (Option Text × Option Text)
date_range P field records = dates_of P field records >>= λ ds. ok (range_of ds)

abbrev pub gzip_name : Option Text
gzip_name = some (codes "gzip")

-- `_make_manifest`
unfoldable pub make_manifest :
    Platform
    → Clock
    → Text
    → Text
    → Text
    → Date
    → Text
    → Text
    → List Record
    → Bytes
    → ℕ
    → Result ManifestEntry
make_manifest P now field source_id dataset_name ingest_date month_partition filename records
      content stored =
    date_range P field records >>= λ (data_min, data_max). ok (record {
      source_id = source_id;
      dataset_name = dataset_name;
      ingest_date = isoformat ingest_date;
      month_partition = month_partition;
      filename = filename;
      record_count = length records;
      file_size_bytes = length content;
      sha256_checksum = P.sha256 content;
      compression = gzip_name;
      stored_bytes = stored;
      data_date_min = data_min;
      data_date_max = data_max;
      fetch_timestamp = now.utc_now;
      timestamp_field = field;
    })
