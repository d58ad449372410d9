-- ===== src/Tests/Documents.antt =====
-- One document, written at once, streamed and split by day.
use urban_ops_intelligence_p.Prelude.{
  ◌≡◌, ◌≢◌, refl, some, List, [], ◌∷◌, if◌then◌else◌, ltb, length, Text, codes, keep, lookup, ok,
  err, stop, yield_from, arith, snapshot_too_small,
}
use urban_ops_intelligence_p.Calendar.{date_lt, isoformat, month_format}
use urban_ops_intelligence_p.Calendar.Iso.{IsIso}
use urban_ops_intelligence_p.Platform.{shown}
use urban_ops_intelligence_p.Records.{Record}
use urban_ops_intelligence_p.Manifest.{ManifestEntry}
use urban_ops_intelligence_p.Loader.{
  make_manifest, date_range, dates_of, date_of, to_ndjson, encode, utf8_bytes,
}
use urban_ops_intelligence_p.Loader.Paths.{key_under, snapshot_prefix, data_file, manifest_file}
use urban_ops_intelligence_p.Loader.Writes.{
  data_object, manifest_object, write, write_pair, and_then, with_result,
}
use urban_ops_intelligence_p.Loader.Writes.Frame.{Written}
use urban_ops_intelligence_p.Loader.Writes.Document.{write-Written, write-other_day}
use urban_ops_intelligence_p.Loader.Stream.{nothing_yet, write_snapshot_stream, upload_stream}
use urban_ops_intelligence_p.Loader.Stream.Guard.{after, write_snapshot_stream-floor}
use urban_ops_intelligence_p.Loader.Daily.{group_by_date, group_loop, or_nil}
use urban_ops_intelligence_p.Loader.Daily.Groups.{filed_as, group_by_date-keep}
use urban_ops_intelligence_p.Tests.Data.{
  memory, memory-IsObjectStore, clock, ninth, tenth, on_ninth, on_eighth, two_records,
}

abbrev source : Text
source = codes "SRC-001"

abbrev dataset : Text
dataset = codes "crimes"

abbrev field : Text
field = codes "ts"

-- The manifest of two records of 13 bytes each.
abbrev made : Text → Text → ManifestEntry
made month file = record {
  source_id = source;
  dataset_name = dataset;
  ingest_date = codes "2026-02-09";
  month_partition = month;
  filename = file;
  record_count = 2;
  file_size_bytes = 26;
  sha256_checksum = codes "ts20";
  compression = some (codes "gzip");
  stored_bytes = 26;
  data_date_min = some (codes "2026-02-08");
  data_date_max = some (codes "2026-02-09");
  fetch_timestamp = codes "2026-02-09T06:00:00";
  timestamp_field = field;
}

abbrev daily_manifest : ManifestEntry
daily_manifest = made (codes "2026-02") data_file

writes : (write memory clock field source dataset ninth two_records []).0 ≡ ok daily_manifest
unfolding write make_manifest date_range dates_of date_of to_ndjson encode utf8_bytes with_result
    and_then write_pair isoformat month_format date_lt
writes = refl

write-Written_example :
    Written memory memory-IsObjectStore
      (key_under (snapshot_prefix source dataset ninth) data_file)
      (key_under (snapshot_prefix source dataset ninth) manifest_file)
      (data_object source dataset daily_manifest
        (memory.gzip (to_ndjson memory.dumps two_records ∷ []))
        ((codes "ingest_date", shown (isoformat ninth)) ∷ []))
      (manifest_object memory.dumps_manifest source dataset daily_manifest
        ((codes "ingest_date", shown (isoformat ninth)) ∷ []))
      []
      (write memory clock field source dataset ninth two_records []).1
write-Written_example =
    write-Written memory memory-IsObjectStore clock field source dataset two_records [] ninth
      daily_manifest writes

differ : ninth ≢ tenth
differ e = ground arith

ninth-IsIso : IsIso ninth
ninth-IsIso = ground arith

tenth-IsIso : IsIso tenth
tenth-IsIso = ground arith

write-other_day_example :
    memory.object_at
      (write memory clock field source dataset ninth two_records []).1
      (key_under (snapshot_prefix source dataset tenth) data_file)
    ≡ memory.object_at [] (key_under (snapshot_prefix source dataset tenth) data_file)
write-other_day_example =
    write-other_day memory memory-IsObjectStore clock field source dataset two_records [] ninth
      tenth data_file ninth-IsIso tenth-IsIso differ

abbrev month : Text
month = codes "2026-02"

write_snapshot_stream-floor_example :
    write_snapshot_stream memory clock field source dataset ninth (yield_from two_records stop) 3 []
    ≡ (if ltb (length two_records) 3
        then (err (snapshot_too_small (length two_records) 3), [])
        else upload_stream memory clock field source dataset ninth
            (after memory field nothing_yet two_records)
            [])
write_snapshot_stream-floor_example =
    write_snapshot_stream-floor memory clock field source dataset ninth 3 [] two_records

abbrev by_day : List (Text × List Record)
by_day = (codes "2026-02-09", on_ninth ∷ []) ∷ (codes "2026-02-08", on_eighth ∷ []) ∷ []

grouped : group_by_date memory field two_records ≡ ok by_day
unfolding group_by_date group_loop date_of isoformat
grouped = refl

group_by_date-keep_example :
    or_nil (lookup (codes "2026-02-08") by_day)
    ≡ keep (filed_as memory field (codes "2026-02-08")) two_records
group_by_date-keep_example =
    group_by_date-keep memory field (codes "2026-02-08") two_records by_day grouped
