-- ===== src/Loader/Stream/Guard.antt =====
-- The floor of a streamed snapshot: a pull that fails or is too small uploads nothing.
use urban_ops_intelligence_p.Prelude.{
  ℕ, ◌+◌, ◌≡◌, refl, List, [], ◌∷◌, ltb, Text, Exception, snapshot_too_small, ok, err, stop, raises,
  yield_from, arith, Bool-cases, inl, inr, length, if◌then◌else◌,
}
use urban_ops_intelligence_p.Calendar.{Date}
use urban_ops_intelligence_p.Records.{Record}
use urban_ops_intelligence_p.Platform.{Platform, Clock}
use urban_ops_intelligence_p.Loader.Writes.{with_result}
use urban_ops_intelligence_p.Loader.Stream.{
  Streamed, nothing_yet, stream_step, stream_to_gzip, write_snapshot_stream, upload_stream,
}

module _ (P : Platform) (field : Text) where
  abbrev pub after : Streamed → List Record → Streamed
  after acc [] = acc
  after acc (r ∷ rs) = after (stream_step P field acc r) rs

  count-after : (rs : List Record) (acc : Streamed) → (after acc rs).count ≡ acc.count + length rs
  count-after [] acc = omega arith
  count-after (r ∷ rs) acc = omega (arith, count-after rs (stream_step P field acc r))

  stream_raises :
      (rs : List Record) (acc : Streamed) (e : Exception)
      → stream_to_gzip P field acc (yield_from rs (raises e)) ≡ err e
  unfolding stream_to_gzip
  stream_raises [] acc e = refl
  stream_raises (r ∷ rs) acc e = stream_raises rs (stream_step P field acc r) e

  stream_ends :
      (rs : List Record) (acc : Streamed)
      → stream_to_gzip P field acc (yield_from rs stop) ≡ ok (after acc rs)
  unfolding stream_to_gzip
  stream_ends [] acc = refl
  stream_ends (r ∷ rs) acc = stream_ends rs (stream_step P field acc r)

module _ (P : Platform) (now : Clock) (field source_id dataset_name : Text) (day : Date)
    (min_records : ℕ) (s : P.State) where
  -- An upstream that fails after any number of records leaves the store untouched, and its own
  -- exception is what is raised.
  pub write_snapshot_stream-failed :
      (records : List Record) (e : Exception)
      → write_snapshot_stream P now field source_id dataset_name day
          (yield_from records (raises e))
          min_records
          s
        ≡ (err e, s)
  unfolding write_snapshot_stream with_result
  write_snapshot_stream-failed records e = rw (stream_raises P field records nothing_yet e)

  -- A pull that ends below the floor leaves the store as it was and raises with the number of
  -- records and the floor; one that meets the floor goes on to the upload.
  pub write_snapshot_stream-floor :
      (records : List Record)
      → write_snapshot_stream P now field source_id dataset_name day
          (yield_from records stop)
          min_records
          s
        ≡ (if ltb (length records) min_records
            then (err (snapshot_too_small (length records) min_records), s)
            else upload_stream P now field source_id dataset_name day
                (after P field nothing_yet records)
                s)
  unfolding write_snapshot_stream with_result
  write_snapshot_stream-floor records =
      let counted : (after P field nothing_yet records).count ≡ length records =
        omega (arith, count-after P field records nothing_yet) in
      rw (stream_ends P field records nothing_yet, counted)
        (elim (Bool-cases (ltb (length records) min_records)) [
          | inl small ↦ rw small
          | inr large ↦ rw large
        ])
