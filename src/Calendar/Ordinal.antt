-- ===== src/Calendar/Ordinal.antt =====
-- The day number of a date, with the proleptic Gregorian formula of `date.toordinal`.
use urban_ops_intelligence_p.Prelude.{
  ℕ, zero, suc, ◌+◌, ◌-◌, ◌*◌, ◌/◌, ◌≤◌, ◌<◌, ◌≡◌, refl, if◌then◌else◌, arith,
}
use urban_ops_intelligence_p.Calendar.{
  Date, is_leap, days_in_month, IsDate, next_day, previous_day, add_days,
}

-- The days of the first `n` months of year `y`.
unfoldable pub before_months : ℕ → ℕ → ℕ
before_months y zero = 0
before_months y (suc n) = before_months y n + days_in_month y (suc n)

abbrev pub days_in_year : ℕ → ℕ
days_in_year y = if is_leap y then 366 else 365

-- The days of the first `n` years.
unfoldable pub before_years : ℕ → ℕ
before_years n = n * 365 + n / 4 - n / 100 + n / 400

-- `t.toordinal()`
unfoldable pub to_ordinal : Date → ℕ
to_ordinal t = before_years (t.year - 1) + before_months t.year (t.month - 1) + t.day

-- The closed formula grows by the length of each year.
pub before_years-suc : (n : ℕ) → before_years (suc n) ≡ before_years n + days_in_year (suc n)
unfolding before_years is_leap
before_years-suc n = ground arith

pub twelve_months : (y : ℕ) → before_months y 12 ≡ days_in_year y
unfolding before_months days_in_month is_leap
twelve_months y = ground arith

pub days_in_month-pos : (y m : ℕ) → 28 ≤ days_in_month y m
unfolding days_in_month
days_in_month-pos y m = ground arith

pub before_months_step :
    (y m : ℕ) → 1 ≤ m → before_months y m ≡ before_months y (m - 1) + days_in_month y m
unfolding before_months
before_months_step y zero h = absurd (omega arith)
before_months_step y (suc m) h = ground arith

pub before_years_step : (y : ℕ) → 1 ≤ y → before_years y ≡ before_years (y - 1) + days_in_year y
before_years_step zero h = absurd (omega arith)
before_years_step (suc n) h = ground (arith, before_years-suc n)

before_months_zero : (y : ℕ) → before_months y 0 ≡ 0
unfolding before_months
before_months_zero y = refl

pub next_day-IsDate : (t : Date) → IsDate t → IsDate (next_day t)
unfolding next_day
next_day-IsDate t v =
    ground (arith, days_in_month-pos t.year (t.month + 1), days_in_month-pos (t.year + 1) 1)

-- One day more is one more in the day number.
pub to_ordinal-next_day : (t : Date) → IsDate t → to_ordinal (next_day t) ≡ to_ordinal t + 1
unfolding to_ordinal next_day
to_ordinal-next_day t v = ground (
  arith,
  before_months_step t.year t.month,
  before_years_step t.year,
  twelve_months t.year,
  before_months_zero (t.year + 1),
)

december : (y : ℕ) → days_in_month y 12 ≡ 31
unfolding days_in_month
december y = refl

-- The day before the first day of the calendar is none: the year would be 0.
pub next_day-previous_day : (t : Date) → IsDate t → 1 < t.year → next_day (previous_day t) ≡ t
unfolding next_day previous_day
next_day-previous_day t v h =
    ground (arith, days_in_month-pos t.year (t.month - 1), december (t.year - 1))

pub add_days-IsDate : (t : Date) (n : ℕ) → IsDate t → IsDate (add_days t n)
unfolding add_days
add_days-IsDate t zero v = v
add_days-IsDate t (suc n) v = next_day-IsDate (add_days t n) (add_days-IsDate t n v)

pub to_ordinal-add_days :
    (t : Date) (n : ℕ) → IsDate t → to_ordinal (add_days t n) ≡ to_ordinal t + n
unfolding add_days
to_ordinal-add_days t zero v = omega arith
to_ordinal-add_days t (suc n) v =
    omega
      (arith, to_ordinal-next_day (add_days t n) (add_days-IsDate t n v), to_ordinal-add_days t n v)
