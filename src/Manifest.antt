-- ===== src/Manifest.antt =====
-- `ManifestEntry` of ingestion/loaders/s3_loader.py: what is written beside each data file.
use urban_ops_intelligence_p.Prelude.{ℕ, Option, Text}

pub record ManifestEntry : Type 0 where
  pub source_id : Text
  pub dataset_name : Text
  pub ingest_date : Text
  pub month_partition : Text
  pub filename : Text
  pub record_count : ℕ
  pub file_size_bytes : ℕ
  pub sha256_checksum : Text
  pub compression : Option Text
  pub stored_bytes : ℕ
  pub data_date_min : Option Text
  pub data_date_max : Option Text
  pub fetch_timestamp : Text
  pub timestamp_field : Text
