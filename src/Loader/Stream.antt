-- ===== src/Loader/Stream.antt =====
-- `write_snapshot_stream`, `_stream_to_gzip` and `_record_date`: one day's snapshot, streamed.
pub mod Lines
pub mod Batch
pub mod Guard
use urban_ops_intelligence_p.Prelude.{
  ℕ, ◌+◌, Option, none, some, List, [], ◌∷◌, ◌++◌, ltb, if◌then◌else◌, Text, text_lt, codes, length,
  is_empty, lookup, Exception, snapshot_too_small, Result, ok, err, Generator, stop, raises, yields,
}
use urban_ops_intelligence_p.Calendar.{Date, isoformat, month_format}
use urban_ops_intelligence_p.Records.{Record, Value, is_truthy, str}
use urban_ops_intelligence_p.Manifest.{ManifestEntry}
use urban_ops_intelligence_p.Platform.{
  Bytes, shown, number, Object, put_object, upload_fileobj, Platform, Clock,
}
use urban_ops_intelligence_p.Loader.{newline, encode, replace_z, gzip_name}
use urban_ops_intelligence_p.Loader.Paths.{data_file, manifest_file, key_under, snapshot_prefix}
use urban_ops_intelligence_p.Loader.Writes.{
  Outcome, and_then, with_result, data_object, manifest_object,
}

-- The local variables of `_stream_to_gzip`. The digest is that of the bytes it was given so far.
pub record Streamed : Type 0 where
  pub count : ℕ
  pub uncompressed : ℕ
  pub digested : Bytes
  pub date_min : Option Text
  pub date_max : Option Text
  pub written : List Bytes

abbrev pub nothing_yet : Streamed
nothing_yet = record {
  count = 0;
  uncompressed = 0;
  digested = [];
  date_min = none;
  date_max = none;
  written = [];
}

abbrev pub iso_of : Option Date → Option Text
iso_of none = none
iso_of (some d) = some (isoformat d)

abbrev pub usable_date : Platform → Option Value → Option Text
usable_date P none = none
usable_date P (some v) =
    if is_truthy v then iso_of (P.parse_timestamp (replace_z (str v))) else none

-- `_record_date`
unfoldable pub record_date : Platform → Text → Record → Option Text
record_date P field r = if is_empty field then none else usable_date P (lookup field r)

-- `day if date_min is None else min(date_min, day)`, where there is a day
abbrev pub earlier : Option Text → Option Text → Option Text
earlier low none = low
earlier none (some day) = some day
earlier (some low) (some day) = some (if text_lt day low then day else low)

abbrev pub later : Option Text → Option Text → Option Text
later high none = high
later none (some day) = some day
later (some high) (some day) = some (if text_lt high day then day else high)

abbrev pub line_of : Platform → Record → Bytes
line_of P r = encode (P.dumps r ++ (newline ∷ []))

-- One round of the loop.
abbrev pub stream_step : Platform → Text → Streamed → Record → Streamed
stream_step P field acc r = record {
  count = acc.count + 1;
  uncompressed = acc.uncompressed + length (line_of P r);
  digested = acc.digested ++ line_of P r;
  date_min = earlier acc.date_min (record_date P field r);
  date_max = later acc.date_max (record_date P field r);
  written = acc.written ++ line_of P r ∷ [];
}

-- `_stream_to_gzip`: an exception of the generator ends the loop.
unfoldable pub stream_to_gzip : Platform → Text → Streamed → Generator Record → Result Streamed
stream_to_gzip P field acc stop = ok acc
stream_to_gzip P field acc (raises e) = err e
stream_to_gzip P field acc (yields r g) = stream_to_gzip P field (stream_step P field acc r) g

-- The manifest of a stream that was stored in so many bytes.
unfoldable pub stream_manifest :
    Platform → Clock → Text → Text → Text → Date → Streamed → ℕ → ManifestEntry
stream_manifest P now field source_id dataset_name ingest_date stats stored = record {
  source_id = source_id;
  dataset_name = dataset_name;
  ingest_date = isoformat ingest_date;
  month_partition = month_format ingest_date;
  filename = data_file;
  record_count = stats.count;
  file_size_bytes = stats.uncompressed;
  sha256_checksum = P.sha256 stats.digested;
  compression = gzip_name;
  stored_bytes = stored;
  data_date_min = stats.date_min;
  data_date_max = stats.date_max;
  fetch_timestamp = now.utc_now;
  timestamp_field = field;
}

abbrev pub enough : ℕ → Streamed → Result Streamed
enough min_records stats =
    if ltb stats.count min_records
    then err (snapshot_too_small stats.count min_records)
    else ok stats

abbrev pub guarded : ℕ → Result Streamed → Result Streamed
guarded min_records (err e) = err e
guarded min_records (ok stats) = enough min_records stats

module _ (P : Platform) (now : Clock) (field source_id dataset_name : Text)
    (ingest_date : Date) where
  abbrev manifest_of : Streamed → ManifestEntry
  manifest_of stats =
      stream_manifest P now field source_id dataset_name ingest_date stats
        (length (P.gzip stats.written))

  -- The upload of the temporary file, and then of the manifest.
  unfoldable pub upload_stream : Streamed → P.State → Outcome P.State ManifestEntry
  unfolding stream_manifest
  upload_stream stats s =
      and_then
        (P.store upload_fileobj
          (key_under (snapshot_prefix source_id dataset_name ingest_date) data_file)
          (data_object source_id dataset_name (manifest_of stats) (P.gzip stats.written)
            ((codes "ingest_date", shown (isoformat ingest_date)) ∷ []))
          s)
        (λ s'.
          and_then
            (P.store put_object
              (key_under (snapshot_prefix source_id dataset_name ingest_date) manifest_file)
              (manifest_object P.dumps_manifest source_id dataset_name (manifest_of stats)
                ((codes "ingest_date", shown (isoformat ingest_date)) ∷ []))
              s')
            (λ s''. (ok (manifest_of stats), s'')))

  -- `write_snapshot_stream`: nothing is uploaded before the floor is met.
  unfoldable pub write_snapshot_stream :
      Generator Record → ℕ → P.State → Outcome P.State ManifestEntry
  write_snapshot_stream records min_records =
      with_result (guarded min_records (stream_to_gzip P field nothing_yet records)) upload_stream
