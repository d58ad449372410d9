-- ===== src/BronzePaths.antt =====
-- spark/transforms/bronze_paths.py: the Bronze month folders that a window of the readers names.
use urban_ops_intelligence_p.Prelude.{
  ℕ, zero, suc, ◌+◌, ◌*◌, ◌≡◌, refl, Bool, false, List, [], ◌∷◌, ◌++◌, map, Text, codes,
  if◌then◌else◌, is_empty, keep, no_bronze_month, Result, ok, err, ◌>>=◌, Bool-cases, inl, inr,
}
use urban_ops_intelligence_p.Calendar.{
  Date, IsDate, date_lt, first_of_month, next_month, next_month_from_28, month_format,
}
use urban_ops_intelligence_p.Calendar.Months.{
  next_month_from_28-eq, next_month-IsDate, first_of_month-IsDate,
}
use urban_ops_intelligence_p.Bulk.{monthrange, month_loop}

-- `f"s3a://{bucket}/bronze/raw/{source_id}/{dataset}/{month:%Y-%m}/"`
abbrev pub folder : Text → Text → Text → Date → Text
folder bucket source_id dataset month =
    codes "s3a://"
    ++ (bucket
        ++ (codes "/bronze/raw/"
            ++ (source_id
                ++ (codes "/" ++ (dataset ++ (codes "/" ++ (month_format month ++ codes "/")))))))

-- `keep_existing`; `exists` is the answer of the Hadoop file system for a path, which may raise.
unfoldable pub keep_existing : (Text → Result Bool) → List Text → Result (List Text)
keep_existing exists [] = ok []
keep_existing exists (prefix ∷ prefixes) =
    let rest = keep_existing exists prefixes in
    exists prefix >>= λ here. rest >>= λ present. ok (if here then prefix ∷ present else present)

keep_existing-keep :
    (exists : Text → Bool) (prefixes : List Text)
    → keep_existing (λ p. ok (exists p)) prefixes ≡ ok (keep exists prefixes)
unfolding keep_existing
keep_existing-keep exists [] = refl
keep_existing-keep exists (p ∷ prefixes) = rw (keep_existing-keep exists prefixes) refl

module _ (bucket source_id dataset : Text) where
  -- The loop, with fuel.
  unfoldable prefix_loop : ℕ → Date → Date → List Text
  prefix_loop zero end month = []
  prefix_loop (suc fuel) end month =
      let rest = prefix_loop fuel end (next_month_from_28 month) in
      if date_lt month end then folder bucket source_id dataset month ∷ rest else []

  -- `month_prefixes`: the fuel is the number of months up to the end of the last year.
  unfoldable pub month_prefixes : Date → Date → List Text
  unfolding prefix_loop
  month_prefixes start end = prefix_loop ((end.year + 1) * 12) end (first_of_month start)

  prefix_loop-month_loop :
      (fuel : ℕ) (end month : Date)
      → IsDate month
      → prefix_loop fuel end month
        ≡ map (folder bucket source_id dataset) (month_loop fuel end month)
  unfolding prefix_loop month_loop
  prefix_loop-month_loop zero end month v = refl
  prefix_loop-month_loop (suc fuel) end month v =
      let later = prefix_loop-month_loop fuel end (next_month month) (next_month-IsDate month v) in
      rw (next_month_from_28-eq month v, later)
        (elim (Bool-cases (date_lt month end)) [ inl before ↦ rw before | inr past ↦ rw past ])

  -- Without a month the walk names nothing, on any fuel.
  prefix_loop-past :
      (fuel : ℕ) (end month : Date) → date_lt month end ≡ false → prefix_loop fuel end month ≡ []
  unfolding prefix_loop
  prefix_loop-past zero end month past = refl
  prefix_loop-past (suc fuel) end month past = rw past

  -- From a valid start, the readers of a window name the folders of exactly the months that a
  -- monthly backfill of the window is cut into, in the same order.
  pub month_prefixes-monthrange :
      (start end : Date)
      → IsDate start
      → month_prefixes start end ≡ map (folder bucket source_id dataset) (monthrange start end)
  unfolding month_prefixes monthrange
  month_prefixes-monthrange start end v =
      let walked =
        prefix_loop-month_loop ((end.year + 1) * 12) end (first_of_month start)
          (first_of_month-IsDate start v) in
      elim (Bool-cases (date_lt (first_of_month start) end)) [
        | inl before ↦ rw before walked
        | inr past ↦
            rw past (prefix_loop-past ((end.year + 1) * 12) end (first_of_month start) past)
      ]

  abbrev some_present : List Text → Result (List Text)
  some_present present =
      if is_empty present then err (no_bronze_month source_id dataset) else ok present

  -- `existing_month_prefixes`
  unfoldable pub existing_month_prefixes : (Text → Result Bool) → Date → Date → Result (List Text)
  existing_month_prefixes exists start end =
      keep_existing exists (month_prefixes start end) >>= some_present

  -- From a valid start, and where the file system answers for every path, the readers of a window are given the folders of exactly those months that a monthly backfill of it is cut into which exist, in that order, and an exception where none of them does.
  pub existing_month_prefixes-monthrange :
      (exists : Text → Bool) (start end : Date)
      → IsDate start
      → existing_month_prefixes (λ p. ok (exists p)) start end ≡ (
          let present =
            keep exists (map (folder bucket source_id dataset) (monthrange start end)) in
          if is_empty present then err (no_bronze_month source_id dataset) else ok present)
  unfolding existing_month_prefixes
  existing_month_prefixes-monthrange exists start end v =
      rw
        (
          keep_existing-keep exists (month_prefixes start end),
          month_prefixes-monthrange start end v,
        )
        refl
