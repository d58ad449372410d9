-- ===== src/Loader/Writes/Frame.antt =====
-- What the writes of one document store, and what they leave alone.
use urban_ops_intelligence_p.Prelude.{
  ◌≡◌, ◌≢◌, sym, ◌∙◌, inl, inr, some, List, Text, text_eq_refl, text_ne, ok,
}
use urban_ops_intelligence_p.Manifest.{ManifestEntry}
use urban_ops_intelligence_p.Platform.{Bytes, Meta, Object, Call, Platform, IsObjectStore}
use urban_ops_intelligence_p.Loader.Paths.{key_under}
use urban_ops_intelligence_p.Loader.Writes.{data_object, manifest_object, write_pair}
use urban_ops_intelligence_p.Loader.Writes.Sequence.{
  Result-cases, and_then-keeps, and_then-final, and_then-returns,
}

module _ (P : Platform) (laws : IsObjectStore P) where
  -- A call leaves the other keys alone, whether it returns or raises.
  pub store-other :
      (c : Call) (k : Text) (o : Object) (s : P.State) (j : Text)
      → k ≢ j
      → P.object_at (P.store c k o s).1 j ≡ P.object_at s j
  store-other c k o s j ne = elim (Result-cases (P.store c k o s).0) [
    | inl done ↦ laws.stored c k o s done j ∙ rw (text_ne k j ne)
    | inr (e, raised) ↦ laws.refused c k o s e raised j
  ]

  pub store_self :
      (c : Call) (k : Text) (o : Object) (s : P.State)
      → (P.store c k o s).0 ≡ ok tt
      → P.object_at (P.store c k o s).1 k ≡ some o
  store_self c k o s done = laws.stored c k o s done k ∙ rw (text_eq_refl k)

  -- A document that is written: its two objects are stored, and other keys keep theirs.
  pub record Written (data_key manifest_key : Text) (data_is manifest_is : Object) (s s' : P.State)
      : Type 0 where
    pub data_stored : P.object_at s' data_key ≡ some data_is
    pub manifest_stored : P.object_at s' manifest_key ≡ some manifest_is
    pub others_kept :
        (j : Text) → data_key ≢ j → manifest_key ≢ j → P.object_at s' j ≡ P.object_at s j

  module _ (source_id dataset_name prefix data_filename manifest_filename : Text)
      (manifest : ManifestEntry) (compressed : Bytes) (extra : List (Text × Meta))
      (s : P.State) where
    -- Whatever becomes of the pair, other keys keep their objects.
    pub write_pair-other :
        (j : Text)
        → key_under prefix data_filename ≢ j
        → key_under prefix manifest_filename ≢ j
        → P.object_at
            (write_pair P source_id dataset_name prefix data_filename manifest_filename manifest
              compressed extra s).1
            j
          ≡ P.object_at s j
    unfolding write_pair
    write_pair-other j d m =
        and_then-keeps (λ t. P.object_at t j ≡ P.object_at s j) _ _ (store-other _ _ _ s j d)
          (λ t h. store-other _ _ _ t j m ∙ h)

    pub write_pair-Written :
        key_under prefix data_filename ≢ key_under prefix manifest_filename
        → (write_pair P source_id dataset_name prefix data_filename manifest_filename manifest
            compressed extra s).0
          ≡ ok tt
        → Written
            (key_under prefix data_filename)
            (key_under prefix manifest_filename)
            (data_object source_id dataset_name manifest compressed extra)
            (manifest_object P.dumps_manifest source_id dataset_name manifest extra)
            s
            (write_pair P source_id dataset_name prefix data_filename manifest_filename manifest
              compressed extra s).1
    unfolding write_pair
    write_pair-Written ne h =
        let (first, second) = and_then-returns _ _ tt h in
        record {
          data_stored =
              and_then-final
                (λ t.
                  P.object_at t (key_under prefix data_filename)
                  ≡ some (data_object source_id dataset_name manifest compressed extra))
                _ _ first (store-other _ _ _ _ _ (λ e. ne (sym e)) ∙ store_self _ _ _ s first);
          manifest_stored =
              and_then-final
                (λ t.
                  P.object_at t (key_under prefix manifest_filename)
                  ≡ some (manifest_object P.dumps_manifest source_id dataset_name manifest extra))
                _ _ first (store_self _ _ _ _ second);
          others_kept = write_pair-other;
        }
