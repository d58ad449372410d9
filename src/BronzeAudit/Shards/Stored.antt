-- ===== src/BronzeAudit/Shards/Stored.antt =====
-- ingestion/loaders/s3_loader.py and scripts/profiling/: the audits read back what the loader wrote.
use urban_ops_intelligence_p.Prelude.{
  ◌≡◌, refl, ap, some, true, List, [], ◌∷◌, ◌++◌, Text, codes, map, All, ok, arith,
}
use urban_ops_intelligence_p.Calendar.{Date, isoformat, month_format}
use urban_ops_intelligence_p.Calendar.Iso.{IsIso}
use urban_ops_intelligence_p.Records.{Record}
use urban_ops_intelligence_p.Manifest.{ManifestEntry}
use urban_ops_intelligence_p.Platform.{Bytes, Platform, IsObjectStore, Clock}
use urban_ops_intelligence_p.Loader.{bronze_prefix, encode, to_ndjson, newline, join_lines}
use urban_ops_intelligence_p.Loader.Daily.{write_day}
use urban_ops_intelligence_p.Strings.Lines.{OneLine, split_lines, split_lines-join_lines}
use urban_ops_intelligence_p.Dq.Recorded.{data_key, write_day-pair_of, pair_of-data}
use urban_ops_intelligence_p.BronzeAudit.{Reader, ends_with, shard_lines}

-- Reading undoes writing: `decompress` gives back what was compressed, and `decode` what was encoded.
pub record Inverts (P : Platform) (R : Reader P) : Type 0 where
  pub gunzip-gzip : (b : Bytes) → R.gunzip (P.gzip (b ∷ [])) ≡ ok b
  pub decode-encode : (t : Text) → R.decode (encode t) ≡ ok t

ends_with-append : (s t u : Text) → ends_with s u ≡ true → ends_with s (t ++ u) ≡ true
ends_with-append s [] u h = h
ends_with-append s (d ∷ t) u h = ground (arith, ends_with-append s t u)

data_key-is_zipped :
    (source_id dataset : Text) (day : Date)
    → ends_with (codes ".gz") (data_key source_id dataset day) ≡ true
data_key-is_zipped source_id dataset day =
    ends_with-append (codes ".gz") (bronze_prefix source_id dataset (some (month_format day)))
      (codes "/data_" ++ (isoformat day ++ codes ".ndjson.gz"))
      (ends_with-append (codes ".gz") (codes "/data_") (isoformat day ++ codes ".ndjson.gz")
        (ends_with-append (codes ".gz") (isoformat day) (codes ".ndjson.gz") refl))

All-map :
    (f : Record → Text) (rs : List Record) → All (λ r. OneLine (f r)) rs → All OneLine (map f rs)
All-map f [] h = tt
All-map f (r ∷ rs) h = (h.0, All-map f rs h.1)

module _ (P : Platform) (R : Reader P) (inverts : Inverts P R) where
  decode-to_ndjson :
      (records : List Record)
      → All (λ r. OneLine (P.dumps r)) records
      → (t : Text) × (R.decode (to_ndjson P.dumps records) ≡ ok t)
        × (split_lines t ≡ map P.dumps records)
  unfolding to_ndjson encode split_lines
  decode-to_ndjson [] h = ([], nothing, no_lines)
    where
      nothing : R.decode [] ≡ ok []
      nothing = inverts.decode-encode []

      no_lines : split_lines [] ≡ []
      no_lines = refl
  decode-to_ndjson (r ∷ rs) h = (
    join_lines (map P.dumps (r ∷ rs)) ++ (newline ∷ []),
    inverts.decode-encode _,
    split_lines-join_lines (P.dumps r) (map P.dumps rs) (All-map P.dumps (r ∷ rs) h),
  )

  -- A day of records that has been written, each on a line of its own, is read back as these lines: no text of a record may hold a character that ends a line for `splitlines`.
  pub write_day-shard_lines :
      (laws : IsObjectStore P) (now : Clock) (field source_id dataset : Text) (day : Date)
      (records : List Record) (s : P.State) (m : ManifestEntry)
      → IsIso day
      → All (λ r. OneLine (P.dumps r)) records
      → (write_day P now field source_id dataset (isoformat day) records s).0 ≡ ok m
      → shard_lines P R
          (data_key source_id dataset day)
          (write_day P now field source_id dataset (isoformat day) records s).1
        ≡ ok (map P.dumps records)
  unfolding shard_lines
  write_day-shard_lines laws now field source_id dataset day records s m v one h =
      let same = write_day-pair_of P laws now field source_id dataset (λ b. 0) day records s v in
      let stored =
        pair_of-data P laws now field source_id dataset (λ b. 0) day records s m (rw same at h) in
      let (t, decoded, lines) = decode-to_ndjson records one in
      rw (same, stored.1, data_key-is_zipped source_id dataset day)
        (rw stored.2
          (rw (inverts.gunzip-gzip (to_ndjson P.dumps records)) (rw decoded (ap ok lines))))
