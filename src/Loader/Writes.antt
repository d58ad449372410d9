-- ===== src/Loader/Writes.antt =====
-- The writes of whole objects: `_upload`, `_write_pair`, `write`, `write_snapshot` and
-- `write_monthly_shard`.
pub mod Sequence
pub mod Frame
pub mod Document
use urban_ops_intelligence_p.Prelude.{
  ℕ, Option, none, some, List, [], ◌∷◌, ◌++◌, Text, codes, length, Exception, Result, ok, err,
}
use urban_ops_intelligence_p.Calendar.{Date, isoformat, month_format}
use urban_ops_intelligence_p.Records.{Record}
use urban_ops_intelligence_p.Manifest.{ManifestEntry}
use urban_ops_intelligence_p.Platform.{
  Bytes, Meta, shown, number, Object, Call, put_object, Platform, Clock,
}
use urban_ops_intelligence_p.Loader.{bronze_prefix, encode, to_ndjson, make_manifest}
use urban_ops_intelligence_p.Loader.Paths.{
  data_file, manifest_file, key_under, ingest_partition, data_name, manifest_name,
}

-- What a call leaves: its result, and the state of the store.
abbrev pub Outcome : Type 0 → Type 0 → Type 0
Outcome S A = Result A × S

-- The next call, if the one before returned.
unfoldable pub and_then : {S A : Type 0} → Outcome S (Unit {0}) → (S → Outcome S A) → Outcome S A
and_then (ok _, s) next = next s
and_then (err e, s) next = (err e, s)

-- The same for a result that needs no store.
unfoldable pub with_result : {S A B : Type 0} → Result A → (A → S → Outcome S B) → S → Outcome S B
with_result (ok a) next s = next a s
with_result (err e) next s = (err e, s)

abbrev pub ndjson_content_type : Text
ndjson_content_type = codes "application/gzip"

abbrev pub manifest_content_type : Text
manifest_content_type = codes "application/json"

abbrev base_meta : Text → Text → List (Text × Meta) → List (Text × Meta)
base_meta source_id dataset_name extra =
    (codes "source_id", shown source_id) ∷ (codes "dataset_name", shown dataset_name) ∷ extra

-- The data object, and the object of its manifest.
abbrev pub data_object : Text → Text → ManifestEntry → Bytes → List (Text × Meta) → Object
data_object source_id dataset_name manifest compressed extra = record {
  body = compressed;
  content_type = ndjson_content_type;
  metadata =
      base_meta source_id dataset_name extra
      ++ (codes "record_count", number manifest.record_count) ∷ [];
}

abbrev pub manifest_object :
    (ManifestEntry → Text) → Text → Text → ManifestEntry → List (Text × Meta) → Object
manifest_object dumps source_id dataset_name manifest extra = record {
  body = encode (dumps manifest);
  content_type = manifest_content_type;
  metadata = base_meta source_id dataset_name extra;
}

module _ (P : Platform) where
  -- `_write_pair`: the data object, and then its manifest
  unfoldable pub write_pair :
      Text
      → Text
      → Text
      → Text
      → Text
      → ManifestEntry
      → Bytes
      → List (Text × Meta)
      → P.State
      → Outcome P.State (Unit {0})
  write_pair source_id dataset_name prefix data_filename manifest_filename manifest compressed extra
        s =
      and_then
        (P.store put_object (key_under prefix data_filename)
          (data_object source_id dataset_name manifest compressed extra) s)
        (P.store put_object (key_under prefix manifest_filename)
          (manifest_object P.dumps_manifest source_id dataset_name manifest extra))

  -- `write`: one `ingest_date=` partition
  unfoldable pub write :
      Clock → Text → Text → Text → Date → List Record → P.State → Outcome P.State ManifestEntry
  write now field source_id dataset_name ingest_date records =
      let content = to_ndjson P.dumps records in
      let compressed = P.gzip (content ∷ []) in
      with_result
        (make_manifest P now field source_id dataset_name ingest_date (month_format ingest_date)
          data_file records content (length compressed))
        (λ manifest s.
          and_then
            (write_pair source_id dataset_name
              (bronze_prefix source_id dataset_name (some (ingest_partition ingest_date))) data_file
              manifest_file manifest compressed
              ((codes "ingest_date", shown (isoformat ingest_date)) ∷ []) s)
            (λ s'. (ok manifest, s')))

  -- `write_snapshot`
  unfoldable pub write_snapshot :
      Clock → Text → Text → Text → Date → List Record → P.State → Outcome P.State ManifestEntry
  unfolding write
  write_snapshot = write

  -- `write_monthly_shard`
  unfoldable pub write_monthly_shard :
      Clock → Text → Text → Text → Text → List Record → P.State → Outcome P.State ManifestEntry
  write_monthly_shard now field source_id dataset_name month_partition records =
      let content = to_ndjson P.dumps records in
      let compressed = P.gzip (content ∷ []) in
      with_result
        (make_manifest P now field source_id dataset_name now.today month_partition
          (data_name month_partition) records content (length compressed))
        (λ manifest s.
          and_then
            (write_pair source_id dataset_name (bronze_prefix source_id dataset_name none)
              (data_name month_partition) (manifest_name month_partition) manifest compressed
              ((codes "month_partition", shown month_partition) ∷ []) s)
            (λ s'. (ok manifest, s')))
