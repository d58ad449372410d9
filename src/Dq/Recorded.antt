-- ===== src/Dq/Recorded.antt =====
-- ingestion/loaders/s3_loader.py: the manifest that a day's write leaves, where the audit looks for it.
use urban_ops_intelligence_p.Prelude.{
  ℕ, ◌≡◌, ◌≢◌, refl, sym, ap, ◌∙◌, some, List, [], ◌∷◌, ◌++◌, Text, codes, length, drop,
  append_cancel, append_assoc, Result, ok, err, bind-ok, arith,
}
use urban_ops_intelligence_p.Calendar.{Date, isoformat, month_format, pad_four, pad_two}
use urban_ops_intelligence_p.Calendar.Iso.{IsIso, isoformat_inj}
use urban_ops_intelligence_p.Records.{Record}
use urban_ops_intelligence_p.Manifest.{ManifestEntry}
use urban_ops_intelligence_p.Platform.{Bytes, Meta, Object, Platform, IsObjectStore, Clock, shown}
use urban_ops_intelligence_p.Loader.{bronze_prefix, encode, to_ndjson, make_manifest, date_range}
use urban_ops_intelligence_p.Loader.Paths.{
  key_under, data_name, manifest_name, data_name-ne-manifest_name,
}
use urban_ops_intelligence_p.Loader.Writes.{Outcome, with_result}
use urban_ops_intelligence_p.Loader.Writes.Sequence.{and_then-returns}
use urban_ops_intelligence_p.Loader.Writes.Document.{document, document-other, document-Written}
use urban_ops_intelligence_p.Loader.Daily.{day_of, write_day}
use urban_ops_intelligence_p.Loader.Daily.Groups.{parse_iso-isoformat}
use urban_ops_intelligence_p.Dq.Manifests.{manifest_key}

abbrev pub data_key : Text → Text → Date → Text
data_key source_id dataset day =
    key_under (bronze_prefix source_id dataset (some (month_format day)))
      (data_name (isoformat day))

same_date : (a b : Date) → a.year ≡ b.year → a.month ≡ b.month → a.day ≡ b.day → a ≡ b
same_date a b y m d = ground arith

key_parts :
    (source_id dataset file : Text) (day : Date)
    → key_under (bronze_prefix source_id dataset (some (month_format day))) file
      ≡ (codes "bronze/raw/" ++ (source_id ++ (codes "/" ++ dataset)))
        ++ (codes "/" ++ (month_format day ++ (codes "/" ++ file)))
unfolding bronze_prefix month_format pad_four pad_two
key_parts source_id dataset file day = simp append_assoc

pub manifest_key-ne :
    (source_id dataset : Text) (a b : Date)
    → IsIso a
    → IsIso b
    → a ≢ b
    → manifest_key source_id dataset a ≢ manifest_key source_id dataset b
unfolding month_format pad_four pad_two
manifest_key-ne source_id dataset a b v w h e =
    let joined = append_cancel (codes "bronze/raw/" ++ (source_id ++ (codes "/" ++ dataset))) _ _ (
      sym (key_parts source_id dataset (manifest_name (isoformat a)) a)
      ∙ e
      ∙ key_parts source_id dataset (manifest_name (isoformat b)) b) in
    let (y, m, d) = isoformat_inj a b (codes ".json") (codes ".json") v w (ap (drop 18) joined) in
    h (same_date a b y m d)

pub data_key-ne :
    (source_id dataset : Text) (a b : Date)
    → data_key source_id dataset a ≢ manifest_key source_id dataset b
unfolding month_format pad_four pad_two
data_key-ne source_id dataset a b e =
    let joined = append_cancel (codes "bronze/raw/" ++ (source_id ++ (codes "/" ++ dataset))) _ _ (
      sym (key_parts source_id dataset (data_name (isoformat a)) a)
      ∙ e
      ∙ key_parts source_id dataset (manifest_name (isoformat b)) b) in
    let k : data_name (isoformat a) ≡ manifest_name (isoformat b) = ap (drop 9) joined in
    ground arith

ok_same {ℓ} : {A : Type ℓ} (a b : A) → ok a ≡ ok b → a ≡ b
ok_same a b h = cc

-- A manifest counts the records that it is made of.
make_manifest-count :
    (P : Platform) (now : Clock) (field source_id dataset : Text) (day : Date) (month file : Text)
    (records : List Record) (content : Bytes) (stored : ℕ) (m : ManifestEntry)
    → make_manifest P now field source_id dataset day month file records content stored ≡ ok m
    → m.record_count ≡ length records
unfolding make_manifest
make_manifest-count P now field source_id dataset day month file records content stored m h =
    let (range, e, k) = bind-ok (date_range P field records) _ m h in
    let same = ok_same _ m k in ap (λ x. x.record_count) (sym same)

module _ (P : Platform) (laws : IsObjectStore P) (now : Clock) (field source_id dataset : Text)
    (loads : Bytes → ℕ) where
  -- The store has a manifest of the day that counts so many records.
  abbrev pub Recorded : P.State → Date → ℕ → Type 0
  Recorded s day n =
      (o : Object) × (P.object_at s (manifest_key source_id dataset day) ≡ some o)
      × (loads o.body ≡ n)

  abbrev pub payload : List Record → Bytes
  payload records = P.gzip (to_ndjson P.dumps records ∷ [])

  -- The manifest that a day of records gets.
  abbrev pub made : Date → List Record → Result ManifestEntry
  made day records =
      make_manifest P now field source_id dataset now.today (month_format day)
        (data_name (isoformat day)) records (to_ndjson P.dumps records) (length (payload records))

  -- The pair of a day, as `write_day` writes it.
  abbrev pub pair_of : Date → List Record → P.State → Outcome P.State ManifestEntry
  pair_of day records =
      document P laws source_id dataset (bronze_prefix source_id dataset (some (month_format day)))
        (data_name (isoformat day)) (manifest_name (isoformat day)) (payload records)
        ((codes "data_date", shown (isoformat day))
          ∷ (codes "month_partition", shown (month_format day))
          ∷ [])
        (made day records)

  pub write_day-pair_of :
      (day : Date) (records : List Record) (s : P.State)
      → IsIso day
      → write_day P now field source_id dataset (isoformat day) records s ≡ pair_of day records s
  unfolding write_day with_result
  write_day-pair_of day records s v =
      let e : day_of (isoformat day) ≡ ok day = rw (parse_iso-isoformat day v, day_of) refl in
      rw e refl

  -- What is returned is the manifest that was made.
  returned_made :
      (prefix data_file manifest_file : Text) (compressed : Bytes) (extra : List (Text × Meta))
      (r : Result ManifestEntry) (s : P.State) (m : ManifestEntry)
      → (document P laws source_id dataset prefix data_file manifest_file compressed extra r s).0
        ≡ ok m
      → r ≡ ok m
  unfolding with_result
  returned_made prefix data_file manifest_file compressed extra (ok a) s m h =
      let (paired, same) = and_then-returns _ _ m h in same
  returned_made prefix data_file manifest_file compressed extra (err e) s m h = cc

  pub pair_of-Recorded :
      ((m : ManifestEntry) → loads (encode (P.dumps_manifest m)) ≡ m.record_count)
      → (day : Date) (records : List Record) (s : P.State) (m : ManifestEntry)
      → (pair_of day records s).0 ≡ ok m
      → Recorded (pair_of day records s).1 day (length records)
  pair_of-Recorded json day records s m h =
      let prefix = bronze_prefix source_id dataset (some (month_format day)) in
      let written =
        document-Written P laws source_id dataset prefix (data_name (isoformat day))
          (manifest_name (isoformat day)) (payload records) _ (made day records) s m
          (data_name-ne-manifest_name prefix (isoformat day) (isoformat day)) h in
      (
        _,
        written.manifest_stored,
        json m
            ∙ make_manifest-count P now field source_id dataset _ _ _ records _ _ m
                (returned_made prefix _ _ _ _ (made day records) s m h),
      )

  pub pair_of-other :
      (day : Date) (records : List Record) (s : P.State) (j : Text)
      → data_key source_id dataset day ≢ j
      → manifest_key source_id dataset day ≢ j
      → P.object_at (pair_of day records s).1 j ≡ P.object_at s j
  pair_of-other day records s j d m =
      document-other P laws source_id dataset _ _ _ (payload records) _ (made day records) s j d m

  -- The data object of a day that is written holds its payload.
  pub pair_of-data :
      (day : Date) (records : List Record) (s : P.State) (m : ManifestEntry)
      → (pair_of day records s).0 ≡ ok m
      → (o : Object) × (P.object_at (pair_of day records s).1 (data_key source_id dataset day)
          ≡ some o)
        × (o.body ≡ payload records)
  pair_of-data day records s m h =
      let prefix = bronze_prefix source_id dataset (some (month_format day)) in
      let written =
        document-Written P laws source_id dataset prefix (data_name (isoformat day))
          (manifest_name (isoformat day)) (payload records) _ (made day records) s m
          (data_name-ne-manifest_name prefix (isoformat day) (isoformat day)) h in
      (_, written.data_stored, refl)
