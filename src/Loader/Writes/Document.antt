-- ===== src/Loader/Writes/Document.antt =====
-- One document: what `write` and `write_monthly_shard` store when they return, and what they leave
-- alone in any case.
use urban_ops_intelligence_p.Prelude.{
  ◌≡◌, ◌≢◌, refl, sym, subst, none, List, [], ◌∷◌, Text, codes, Result, ok, arith,
}
use urban_ops_intelligence_p.Calendar.{Date, isoformat}
use urban_ops_intelligence_p.Calendar.Iso.{IsIso}
use urban_ops_intelligence_p.Records.{Record}
use urban_ops_intelligence_p.Manifest.{ManifestEntry}
use urban_ops_intelligence_p.Platform.{Bytes, Meta, shown, Platform, IsObjectStore, Clock}
use urban_ops_intelligence_p.Loader.{bronze_prefix, to_ndjson}
use urban_ops_intelligence_p.Loader.Paths.{
  data_file, manifest_file, key_under, data_name, manifest_name, snapshot_prefix, snapshot_keys-ne,
  data-ne-manifest, data_name-ne-manifest_name,
}
use urban_ops_intelligence_p.Loader.Writes.{
  Outcome, and_then, with_result, data_object, manifest_object, write_pair, write,
  write_monthly_shard,
}
use urban_ops_intelligence_p.Loader.Writes.Sequence.{
  and_then-keeps, and_then-final, and_then-returns, with_result-keeps, with_result-returned,
}
use urban_ops_intelligence_p.Loader.Writes.Frame.{Written, write_pair-other, write_pair-Written}

ok_inj {ℓ} : {A : Type ℓ} (a b : A) → ok a ≡ ok b → a ≡ b
ok_inj a b e = ground arith

module _ (P : Platform) (laws : IsObjectStore P) where
  module _ (source_id dataset_name prefix data_filename manifest_filename : Text)
      (compressed : Bytes) (extra : List (Text × Meta)) where
    -- A pair under a manifest that may not be had.
    abbrev pub document : Result ManifestEntry → P.State → Outcome P.State ManifestEntry
    document r = with_result r (λ manifest s.
        and_then
          (write_pair P source_id dataset_name prefix data_filename manifest_filename manifest
            compressed extra s)
          (λ s'. (ok manifest, s')))

    pub document-other :
        (r : Result ManifestEntry) (s : P.State) (j : Text)
        → key_under prefix data_filename ≢ j
        → key_under prefix manifest_filename ≢ j
        → P.object_at (document r s).1 j ≡ P.object_at s j
    document-other r s j d m =
        with_result-keeps (λ t. P.object_at t j ≡ P.object_at s j) r _ s refl
          (λ a.
            and_then-keeps (λ t. P.object_at t j ≡ P.object_at s j) _ _
              (write_pair-other P laws source_id dataset_name prefix data_filename manifest_filename
                a compressed extra s j d m)
              (λ t h. h))

    pub document-Written :
        (r : Result ManifestEntry) (s : P.State) (manifest : ManifestEntry)
        → key_under prefix data_filename ≢ key_under prefix manifest_filename
        → (document r s).0 ≡ ok manifest
        → Written P laws
            (key_under prefix data_filename)
            (key_under prefix manifest_filename)
            (data_object source_id dataset_name manifest compressed extra)
            (manifest_object P.dumps_manifest source_id dataset_name manifest extra)
            s
            (document r s).1
    document-Written r s manifest ne h = with_result-returned Stored r _ s manifest h (λ a e h'.
        let (paired, same) = and_then-returns _ _ manifest h' in
        and_then-final Stored _ _ paired (
          subst
            (λ (m : ManifestEntry).
              (write_pair P source_id dataset_name prefix data_filename manifest_filename m
                  compressed extra s).0
                ≡ ok tt
              → Written P laws (key_under prefix data_filename) (key_under prefix manifest_filename)
                  (data_object source_id dataset_name manifest compressed extra)
                  (manifest_object P.dumps_manifest source_id dataset_name manifest extra) s
                  (write_pair P source_id dataset_name prefix data_filename manifest_filename m
                    compressed extra s).1)
            (sym (ok_inj a manifest same))
            (write_pair-Written P laws source_id dataset_name prefix data_filename manifest_filename
              manifest compressed extra s ne)
            paired))
      where
        Stored : P.State → Type 0
        Stored =
            Written P laws (key_under prefix data_filename) (key_under prefix manifest_filename)
              (data_object source_id dataset_name manifest compressed extra)
              (manifest_object P.dumps_manifest source_id dataset_name manifest extra) s

  module _ (now : Clock) (field source_id dataset_name : Text) (records : List Record)
      (s : P.State) where
    -- `write` that returns has stored the compressed records and the manifest that it returns
    -- under the two keys of its `ingest_date=` partition, and has changed no other object.
    pub write-Written :
        (day : Date) (manifest : ManifestEntry)
        → (write P now field source_id dataset_name day records s).0 ≡ ok manifest
        → Written P laws
            (key_under (snapshot_prefix source_id dataset_name day) data_file)
            (key_under (snapshot_prefix source_id dataset_name day) manifest_file)
            (data_object source_id dataset_name manifest
              (P.gzip (to_ndjson P.dumps records ∷ []))
              ((codes "ingest_date", shown (isoformat day)) ∷ []))
            (manifest_object P.dumps_manifest source_id dataset_name manifest
              ((codes "ingest_date", shown (isoformat day)) ∷ []))
            s
            (write P now field source_id dataset_name day records s).1
    unfolding write
    write-Written day manifest h =
        document-Written source_id dataset_name (snapshot_prefix source_id dataset_name day)
          data_file manifest_file _ _ _ s manifest (data-ne-manifest _) h

    -- Writing one day, whether it returns or raises, leaves every object of the partition of
    -- another day as it was; the fields of both days fit their ISO texts.
    pub write-other_day :
        (day other_day : Date) (file : Text)
        → IsIso day
        → IsIso other_day
        → day ≢ other_day
        → P.object_at
            (write P now field source_id dataset_name day records s).1
            (key_under (snapshot_prefix source_id dataset_name other_day) file)
          ≡ P.object_at s (key_under (snapshot_prefix source_id dataset_name other_day) file)
    unfolding write
    write-other_day day other_day file v w ne =
        document-other source_id dataset_name (snapshot_prefix source_id dataset_name day) data_file
          manifest_file _ _ _ s _
          (snapshot_keys-ne source_id dataset_name day other_day data_file file v w ne)
          (snapshot_keys-ne source_id dataset_name day other_day manifest_file file v w ne)

    -- `write_monthly_shard` that returns has stored the compressed records and the manifest that
    -- it returns under the two keys of its shard, and has changed no other object.
    pub write_monthly_shard-Written :
        (month : Text) (manifest : ManifestEntry)
        → (write_monthly_shard P now field source_id dataset_name month records s).0 ≡ ok manifest
        → Written P laws
            (key_under (bronze_prefix source_id dataset_name none) (data_name month))
            (key_under (bronze_prefix source_id dataset_name none) (manifest_name month))
            (data_object source_id dataset_name manifest
              (P.gzip (to_ndjson P.dumps records ∷ []))
              ((codes "month_partition", shown month) ∷ []))
            (manifest_object P.dumps_manifest source_id dataset_name manifest
              ((codes "month_partition", shown month) ∷ []))
            s
            (write_monthly_shard P now field source_id dataset_name month records s).1
    unfolding write_monthly_shard
    write_monthly_shard-Written month manifest h =
        document-Written source_id dataset_name (bronze_prefix source_id dataset_name none)
          (data_name month) (manifest_name month) _ _ _ s manifest
          (data_name-ne-manifest_name _ month month) h
