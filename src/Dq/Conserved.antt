-- ===== src/Dq/Conserved.antt =====
-- scripts/dq/run_audit.py and ingestion/loaders/s3_loader.py: what the daily writes store is what the
-- audit counts.
use urban_ops_intelligence_p.Prelude.{
  ℕ, ◌+◌, ◌≡◌, ◌≢◌, refl, sym, ap, ◌∙◌, some, List, [], ◌∷◌, Text, map, length, All, ok, err,
}
use urban_ops_intelligence_p.Calendar.{Date, isoformat}
use urban_ops_intelligence_p.Calendar.Iso.{IsIso}
use urban_ops_intelligence_p.Records.{Record}
use urban_ops_intelligence_p.Manifest.{ManifestEntry}
use urban_ops_intelligence_p.Platform.{Bytes, Platform, IsObjectStore, Clock}
use urban_ops_intelligence_p.Loader.{encode}
use urban_ops_intelligence_p.Loader.Writes.{Outcome}
use urban_ops_intelligence_p.Loader.Daily.{Groups, write_day, write_days, push, go_on}
use urban_ops_intelligence_p.Bulk.{daterange}
use urban_ops_intelligence_p.Dq.Manifests.{manifest_key, manifest_rows, bronze_manifest_rows}
use urban_ops_intelligence_p.Dq.Recorded.{
  data_key-ne, manifest_key-ne, Recorded, write_day-pair_of, pair_of-Recorded, pair_of-other,
}

-- The records of some days, by day.
abbrev pub Days : Type 0
Days = List (Date × List Record)

abbrev pub days_of : Days → List Date
days_of gs = map (λ g. g.0) gs

abbrev pub groups_of : Days → Groups
groups_of gs = map (λ g. (isoformat g.0, g.1)) gs

abbrev pub total_records : Days → ℕ
total_records [] = 0
total_records (g ∷ gs) = length g.1 + total_records gs

abbrev pub Distinct : List Date → Type 0
Distinct [] = Unit
Distinct (d ∷ ds) = All (λ e. e ≢ d) ds × Distinct ds

module _ (P : Platform) (laws : IsObjectStore P) (now : Clock) (field source_id dataset : Text)
    (loads : Bytes → ℕ) where
  abbrev Step : Type 0
  Step = Outcome P.State (List ManifestEntry)

  push-ok :
      (m : ManifestEntry) (r : Step) (ms : List ManifestEntry) (final : P.State)
      → push P now field source_id dataset m r ≡ (ok ms, final)
      → (rest : List ManifestEntry) × (r ≡ (ok rest, final))
  push-ok m (ok rest, s) ms final h = (rest, λ i. (ok rest, (h i).1))
  push-ok m (err e, s) ms final h = let k : err e ≡ ok ms = ap (λ p. p.0) h in cc

  go_on-ok :
      (r : Outcome P.State ManifestEntry) (rest : P.State → Step) (ms : List ManifestEntry)
      (final : P.State)
      → go_on P now field source_id dataset r rest ≡ (ok ms, final)
      → (m : ManifestEntry) × (r.0 ≡ ok m)
        × (later : List ManifestEntry) × (rest r.1 ≡ (ok later, final))
  go_on-ok (ok m, s) rest ms final h =
      let (later, e) = push-ok m (rest s) ms final h in (m, refl, later, e)
  go_on-ok (err x, s) rest ms final h = let k : err x ≡ ok ms = ap (λ p. p.0) h in cc

  go_on-keeps {ℓ} :
      (Q : P.State → Type ℓ) (r : Outcome P.State ManifestEntry) (rest : P.State → Step)
      → Q r.1
      → ((s : P.State) → Q s → Q (rest s).1)
      → Q (go_on P now field source_id dataset r rest).1
  go_on-keeps Q (ok m, s) rest h step = step s h
  go_on-keeps Q (err e, s) rest h step = h

  -- The writes of other days leave the manifest of a day as it is.
  write_days-keeps :
      (day : Date) (gs : Days) (s : P.State)
      → IsIso day
      → All IsIso (days_of gs)
      → All (λ e. e ≢ day) (days_of gs)
      → P.object_at
          (write_days P now field source_id dataset (groups_of gs) s).1
          (manifest_key source_id dataset day)
        ≡ P.object_at s (manifest_key source_id dataset day)
  unfolding write_days
  write_days-keeps day [] s v vs others = refl
  write_days-keeps day (g ∷ gs) s v vs others =
      let key = manifest_key source_id dataset day in
      let first : P.object_at (write_day P now field source_id dataset (isoformat g.0) g.1 s).1 key
          ≡ P.object_at s key =
        ap (λ r. P.object_at r.1 key)
          (write_day-pair_of P laws now field source_id dataset loads g.0 g.1 s vs.0)
        ∙ pair_of-other P laws now field source_id dataset loads g.0 g.1 s key
            (data_key-ne source_id dataset g.0 day)
            (manifest_key-ne source_id dataset g.0 day vs.0 v others.0) in
      go_on-keeps (λ t. P.object_at t key ≡ P.object_at s key) _ _ first
        (λ t h. write_days-keeps day gs t v vs.1 others.1 ∙ h)

  module _ (json : (m : ManifestEntry) → loads (encode (P.dumps_manifest m)) ≡ m.record_count) where
    abbrev RecordedIn : P.State → Date × List Record → Type 0
    RecordedIn s g = Recorded P laws now field source_id dataset loads s g.0 (length g.1)

    write_days-Recorded :
        (gs : Days) (s final : P.State) (ms : List ManifestEntry)
        → All IsIso (days_of gs)
        → Distinct (days_of gs)
        → write_days P now field source_id dataset (groups_of gs) s ≡ (ok ms, final)
        → All (RecordedIn final) gs
    unfolding write_days
    write_days-Recorded [] s final ms vs differ h = tt
    write_days-Recorded (g ∷ gs) s final ms vs differ h =
        let written = write_day P now field source_id dataset (isoformat g.0) g.1 s in
        let (m, returned, later, e) = go_on-ok written _ ms final h in
        let pair = write_day-pair_of P laws now field source_id dataset loads g.0 g.1 s vs.0 in
        let (o, there, count) =
          pair_of-Recorded P laws now field source_id dataset loads json g.0 g.1 s m
            (ap (λ r. r.0) (sym pair) ∙ returned) in
        let key = manifest_key source_id dataset g.0 in
        let kept : P.object_at final key ≡ some o =
          ap (λ r. P.object_at r.1 key) (sym e)
          ∙ write_days-keeps g.0 gs written.1 vs.0 vs.1 differ.0
          ∙ ap (λ r. P.object_at r.1 key) pair
          ∙ there in
        ((o, kept, count), write_days-Recorded gs written.1 final later vs.1 differ.1 e)

    Recorded-manifest_rows :
        (gs : Days) (s : P.State)
        → All (RecordedIn s) gs
        → manifest_rows P loads source_id dataset (days_of gs) s ≡ (total_records gs, [])
    unfolding manifest_rows
    Recorded-manifest_rows [] s h = refl
    Recorded-manifest_rows (g ∷ gs) s ((o, there, count), h) =
        rw there (rw (Recorded-manifest_rows gs s h) (λ i. (count i + total_records gs, [])))

    -- Where a manifest's JSON gives back its count, and the days of a window, which differ and whose fields fit their ISO texts, are written one after the other and the writes return, the audit's sum over the manifests of the window is the number of records that were written, and no day is missing.
    pub write_days-bronze_manifest_rows :
        (gs : Days) (start end : Date) (s final : P.State) (ms : List ManifestEntry)
        → All IsIso (days_of gs)
        → Distinct (days_of gs)
        → daterange start end ≡ days_of gs
        → write_days P now field source_id dataset (groups_of gs) s ≡ (ok ms, final)
        → bronze_manifest_rows P loads source_id dataset start end final ≡ (total_records gs, [])
    unfolding bronze_manifest_rows
    write_days-bronze_manifest_rows gs start end s final ms vs differ window h =
        ap (λ ds. manifest_rows P loads source_id dataset ds final) window
        ∙ Recorded-manifest_rows gs final (write_days-Recorded gs s final ms vs differ h)
