-- ===== src/Bulk/Days.antt =====
-- `_daterange`: the days of a window.
use urban_ops_intelligence_p.Prelude.{
  ℕ, zero, suc, ◌+◌, ◌-◌, ◌≤◌, ◌<◌, ◌≡◌, refl, sym, ap, ◌∙◌, List, [], ◌∷◌, ◌++◌, All, All-map, map,
  arith, ltb, not, if◌then◌else◌, Bool-cases, inl, inr,
}
use urban_ops_intelligence_p.Calendar.{Date, IsDate, next_day, add_days}
use urban_ops_intelligence_p.Calendar.Ordinal.{to_ordinal, add_days-IsDate, to_ordinal-add_days}
use urban_ops_intelligence_p.Calendar.Order.{date_lt-to_ordinal, to_ordinal_inj}
use urban_ops_intelligence_p.Bulk.{days_from, daterange}

same_date : (a b : Date) → (a.year ≡ b.year) × (a.month ≡ b.month) × (a.day ≡ b.day) → a ≡ b
same_date a b h = ground (arith, h.0, h.1, h.2)

-- Without the early return the list is the same: it is empty when there is no day.
daterange-days_from :
    (start end : Date)
    → IsDate start
    → IsDate end
    → daterange start end ≡ days_from start (to_ordinal end - to_ordinal start) 0
unfolding daterange days_from
daterange-days_from start end v w =
    rw (date_lt-to_ordinal start end v w) (none_early (to_ordinal start) (to_ordinal end))
  where
    none_early :
        (a b : ℕ)
        → (if not (ltb a b) then [] else days_from start (b - a) 0) ≡ days_from start (b - a) 0
    none_early a b = elim (Bool-cases (ltb a b)) [
      | inl some_days ↦ rw some_days
      | inr no_days ↦ let e : b - a ≡ 0 = ground arith in rw (no_days, e)
    ]

days_from-append :
    (start : Date) (m n i : ℕ)
    → days_from start m i ++ days_from start n (i + m) ≡ days_from start (m + n) i
unfolding days_from
days_from-append start zero n i =
    let e : i + 0 ≡ i = omega arith in let z : 0 + n ≡ n = omega arith in rw (e, z)
days_from-append start (suc m) n i =
    let e : i + 1 + m ≡ i + suc m = omega arith in
    let z : suc m + n ≡ suc (m + n) = omega arith in
    rw z (ap (λ ds. add_days start i ∷ ds) (rw e at (days_from-append start m n (i + 1))))

add_days-add_days : (t : Date) (k n : ℕ) → add_days (add_days t k) n ≡ add_days t (k + n)
unfolding add_days
add_days-add_days t k zero = ap (add_days t) (omega arith)
add_days-add_days t k (suc n) =
    let e : suc (k + n) ≡ k + suc n = omega arith in
    rw (← e) (ap next_day (add_days-add_days t k n))

days_from-shift : (t : Date) (k n i : ℕ) → days_from (add_days t k) n i ≡ days_from t n (k + i)
unfolding days_from
days_from-shift t k zero i = refl
days_from-shift t k (suc n) i =
    let e : k + (i + 1) ≡ k + i + 1 = omega arith in
    λ j. add_days-add_days t k i j ∷ (rw e at (days_from-shift t k n (i + 1))) j

-- For valid dates in order, a window cut at a day in it gives the days of its two parts, one
-- after the other.
pub daterange-append :
    (start middle end : Date)
    → IsDate start
    → IsDate middle
    → IsDate end
    → to_ordinal start ≤ to_ordinal middle
    → to_ordinal middle ≤ to_ordinal end
    → daterange start middle ++ daterange middle end ≡ daterange start end
daterange-append start middle end v u w low high =
    let k = to_ordinal middle - to_ordinal start in
    let n = to_ordinal end - to_ordinal middle in
    let reach : add_days start k ≡ middle = same_date _ _ (
      to_ordinal_inj (add_days start k) middle (add_days-IsDate start k v) u
        (omega (arith, to_ordinal-add_days start k v))) in
    let span : to_ordinal end - to_ordinal start ≡ k + n = omega arith in
    let skip : k + 0 ≡ 0 + k = omega arith in
    let second : days_from middle n 0 ≡ days_from start n (0 + k) =
      (λ i. days_from (sym reach i) n 0)
      ∙ days_from-shift start k n 0
      ∙ ap (days_from start n) skip in
    rw
      (
        daterange-days_from start middle v u,
        daterange-days_from middle end u w,
        daterange-days_from start end v w,
        span,
        second,
      )
      (days_from-append start k n 0)

days_from-All :
    (start : Date) (n i : ℕ)
    → IsDate start
    → All
        (λ d.
          IsDate d
          × (to_ordinal start + i ≤ to_ordinal d)
          × (to_ordinal d < to_ordinal start + i + n))
        (days_from start n i)
unfolding days_from
days_from-All start zero i v = tt
days_from-All start (suc n) i v = (
  (
    add_days-IsDate start i v,
    omega (arith, to_ordinal-add_days start i v),
    omega (arith, to_ordinal-add_days start i v),
  ),
  All-map _ _ (λ d h. (h.0, omega (arith, h.1), omega (arith, h.2))) _
      (days_from-All start n (i + 1) v),
)

-- The numbers from `a` on, `n` of them.
abbrev pub consecutive : ℕ → ℕ → List ℕ
consecutive a zero = []
consecutive a (suc n) = a ∷ consecutive (a + 1) n

days_from-consecutive :
    (start : Date) (n i : ℕ)
    → IsDate start
    → map to_ordinal (days_from start n i) ≡ consecutive (to_ordinal start + i) n
unfolding days_from
days_from-consecutive start zero i v = refl
days_from-consecutive start (suc n) i v =
    let later : map to_ordinal (days_from start n (i + 1))
        ≡ consecutive (to_ordinal start + i + 1) n =
      let e : to_ordinal start + (i + 1) ≡ to_ordinal start + i + 1 = omega arith in
      days_from-consecutive start n (i + 1) v ∙ ap (λ a. consecutive a n) e in
    λ k. to_ordinal-add_days start i v k ∷ later k

-- For valid dates, the days of a window are valid dates, and the numbers of the days in the calendar are, in their order, those from the number of the start on, each one more than the one before, up to and without that of the end.
pub daterange_lem :
    (start end : Date)
    → IsDate start
    → IsDate end
    → (map to_ordinal (daterange start end)
        ≡ consecutive (to_ordinal start) (to_ordinal end - to_ordinal start))
      × All
          (λ d. IsDate d × (to_ordinal start ≤ to_ordinal d) × (to_ordinal d < to_ordinal end))
          (daterange start end)
daterange_lem start end v w = rw (daterange-days_from start end v w) (
  days_from-consecutive start (to_ordinal end - to_ordinal start) 0 v
      ∙ ap (λ a. consecutive a (to_ordinal end - to_ordinal start)) (omega arith),
  All-map _ _ (λ d h. (h.0, omega (arith, h.1), omega (arith, h.1, h.2))) _
      (days_from-All start (to_ordinal end - to_ordinal start) 0 v),
)
