-- ===== src/Calendar/Order.antt =====
-- The order of dates is the order of their day numbers.
use urban_ops_intelligence_p.Prelude.{
  ℕ, zero, suc, ◌+◌, ◌-◌, ◌≤◌, ◌<◌, ◌≡◌, true, false, arith, ltb,
}
use urban_ops_intelligence_p.Calendar.{Date, date_lt, days_in_month, IsDate}
use urban_ops_intelligence_p.Calendar.Ordinal.{
  before_months, before_years, days_in_year, to_ordinal, before_months_step, before_years_step,
  twelve_months,
}

before_months_mono : (y m k : ℕ) → before_months y m ≤ before_months y (k + m)
unfolding before_months
before_months_mono y m zero = let e : zero + m ≡ m = omega arith in rw e (omega arith)
before_months_mono y m (suc k) =
    let e : suc k + m ≡ suc (k + m) = omega arith in rw e (omega (arith, before_months_mono y m k))

before_years_mono : (n k : ℕ) → before_years n ≤ before_years (n + k)
unfolding before_years
before_years_mono n k = omega arith

-- A day of an earlier month of a year comes first.
months_lt :
    (y m n : ℕ)
    → 1 ≤ m
    → m < n
    → before_months y (m - 1) + days_in_month y m ≤ before_months y (n - 1)
months_lt y m n h lt =
    let e : (n - 1 - m) + m ≡ n - 1 = omega arith in
    omega (arith, before_months_step y m h, rw e at (before_months_mono y m (n - 1 - m)))

years_lt : (y z : ℕ) → 1 ≤ y → y < z → before_years (y - 1) + days_in_year y ≤ before_years (z - 1)
years_lt y z h lt =
    let e : y + (z - 1 - y) ≡ z - 1 = omega arith in
    omega (arith, before_years_step y h, rw e at (before_years_mono y (z - 1 - y)))

-- The days up to and with a date lie within its year.
day_of_year_le :
    (t : Date) → IsDate t → before_months t.year (t.month - 1) + t.day ≤ days_in_year t.year
day_of_year_le t v =
    let e : (12 - t.month) + t.month ≡ 12 = omega arith in
    omega (
      arith,
      before_months_step t.year t.month v.month_valid.0,
      rw e at (before_months_mono t.year t.month (12 - t.month)),
      twelve_months t.year,
    )

-- An earlier date has a smaller day number.
to_ordinal_lt :
    (a b : Date) → IsDate a → IsDate b → date_lt a b ≡ true → to_ordinal a < to_ordinal b
unfolding date_lt to_ordinal
to_ordinal_lt a b v w h =
    ground (arith, years_lt a.year b.year, months_lt a.year a.month b.month, day_of_year_le a v)

to_ordinal_le :
    (a b : Date) → IsDate a → IsDate b → date_lt a b ≡ false → to_ordinal b ≤ to_ordinal a
unfolding date_lt to_ordinal
to_ordinal_le a b v w h =
    ground (arith, years_lt b.year a.year, months_lt b.year b.month a.month, day_of_year_le b w)

-- The comparison of dates compares their day numbers.
pub date_lt-to_ordinal :
    (a b : Date) → IsDate a → IsDate b → date_lt a b ≡ ltb (to_ordinal a) (to_ordinal b)
date_lt-to_ordinal a b v w = ground (arith, to_ordinal_lt a b v w, to_ordinal_le a b v w)

-- Two dates with one day number are the same date.
pub to_ordinal_inj :
    (a b : Date)
    → IsDate a
    → IsDate b
    → to_ordinal a ≡ to_ordinal b
    → (a.year ≡ b.year) × (a.month ≡ b.month) × (a.day ≡ b.day)
unfolding date_lt
to_ordinal_inj a b v w e = ground (arith, date_lt-to_ordinal a b v w, date_lt-to_ordinal b a w v)
