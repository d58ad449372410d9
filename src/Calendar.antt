-- ===== src/Calendar.antt =====
-- What the program uses of Python's `datetime.date`: the order of dates, one day more, `.replace`,
-- `.isoformat()` and `strftime("%Y-%m")`, and the two ways in which it steps to the next month.
-- Years are not bounded above. Texts of dates are right for years of four digits.
pub mod Ordinal
pub mod Order
pub mod Iso
pub mod Months
use urban_ops_intelligence_p.Prelude.{
  ℕ, zero, suc, ◌+◌, ◌-◌, ◌*◌, ◌/◌, ◌%◌, ◌≤◌, ◌≡◌, refl, Bool, true, false, not, ◌||◌, ◌&&◌, any,
  List, [], ◌∷◌, ◌++◌, ltb, ◌==◌, if◌then◌else◌, Text, codes,
}

pub record Date : Type 0 where
  pub year : ℕ
  pub month : ℕ
  pub day : ℕ

-- `calendar.isleap`
unfoldable pub is_leap : ℕ → Bool
is_leap year = (year % 4 == 0) && (not (year % 100 == 0) || (year % 400 == 0))

-- The length of a month, by its year and its number.
unfoldable pub days_in_month : ℕ → ℕ → ℕ
unfolding is_leap
days_in_month year month =
    if any (λ short. month == short) (4 ∷ 6 ∷ 9 ∷ 11 ∷ [])
    then 30
    else if month == 2
    then (if is_leap year then 29 else 28)
    else 31

-- `date(year, month, day)`
abbrev pub date : ℕ → ℕ → ℕ → Date
date a b c = record { year = a; month = b; day = c }

pub record IsDate (t : Date) : Type 0 where
  pub year_valid : 1 ≤ t.year
  pub month_valid : (1 ≤ t.month) × (t.month ≤ 12)
  pub day_valid : (1 ≤ t.day) × (t.day ≤ days_in_month t.year t.month)

-- `a < b`
unfoldable pub date_lt : Date → Date → Bool
date_lt a b =
    if a.year == b.year
    then (if a.month == b.month then ltb a.day b.day else ltb a.month b.month)
    else ltb a.year b.year

-- `a <= b`
abbrev pub date_le : Date → Date → Bool
date_le a b = not (date_lt b a)

-- `t + timedelta(days=1)`
unfoldable pub next_day : Date → Date
next_day t =
    if ltb t.day (days_in_month t.year t.month)
    then record t { day = t.day + 1 }
    else if ltb t.month 12
    then date t.year (t.month + 1) 1
    else date (t.year + 1) 1 1

-- `t - timedelta(days=1)`
unfoldable pub previous_day : Date → Date
previous_day t =
    if ltb 1 t.day
    then record t { day = t.day - 1 }
    else if ltb 1 t.month
    then date t.year (t.month - 1) (days_in_month t.year (t.month - 1))
    else date (t.year - 1) 12 31

-- `t + timedelta(days=n)`
unfoldable pub add_days : Date → ℕ → Date
add_days t zero = t
add_days t (suc n) = next_day (add_days t n)

-- `t.replace(day=1)`
abbrev pub first_of_month : Date → Date
first_of_month t = record t { day = 1 }

-- `_next_month`: the 1st of the month after
unfoldable pub next_month : Date → Date
next_month t = if t.month == 12 then date (t.year + 1) 1 1 else date t.year (t.month + 1) 1

-- `(t.replace(day=28) + timedelta(days=4)).replace(day=1)`
unfoldable pub next_month_from_28 : Date → Date
next_month_from_28 t = first_of_month (add_days (record t { day = 28 }) 4)

-- Two digits, as `%02d`.
unfoldable pub pad_two : ℕ → Text
pad_two n = (48 + n / 10) ∷ (48 + n % 10) ∷ []

-- Four digits, as `%04d`.
unfoldable pub pad_four : ℕ → Text
unfolding pad_two
pad_four n = pad_two (n / 100) ++ pad_two (n % 100)

-- `t.isoformat()`
unfoldable pub isoformat : Date → Text
unfolding pad_four
isoformat t = pad_four t.year ++ (b'-' ∷ pad_two t.month ++ (b'-' ∷ pad_two t.day))

-- `t.strftime("%Y-%m")`
unfoldable pub month_format : Date → Text
unfolding pad_four
month_format t = pad_four t.year ++ (b'-' ∷ pad_two t.month)
