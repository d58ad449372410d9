-- ===== src/Calendar/Months.antt =====
-- Steps from month to month.
use urban_ops_intelligence_p.Prelude.{
  ℕ, zero, suc, ◌+◌, ◌-◌, ◌*◌, ◌≤◌, ◌<◌, ◌↔◌, true, ◌≡◌, ap, arith, leb, Bool-cases, inl, inr,
  if◌then◌else◌, ◌∙◌,
}
use urban_ops_intelligence_p.Calendar.{
  Date, date_lt, days_in_month, IsDate, next_day, add_days, next_month, first_of_month,
  next_month_from_28,
}
use urban_ops_intelligence_p.Calendar.Ordinal.{days_in_month-pos}

-- Months counted from the start of the calendar.
abbrev pub month_index : Date → ℕ
month_index t = t.year * 12 + (t.month - 1)

pub month_index-next_month : (t : Date) → IsDate t → month_index (next_month t) ≡ month_index t + 1
unfolding next_month
month_index-next_month t v = ground arith

pub next_month-IsDate : (t : Date) → IsDate t → IsDate (next_month t)
unfolding next_month
next_month-IsDate t v =
    ground (arith, days_in_month-pos t.year (t.month + 1), days_in_month-pos (t.year + 1) 1)

pub first_of_month-IsDate : (t : Date) → IsDate t → IsDate (first_of_month t)
first_of_month-IsDate t v = ground arith

pub day-next_month : (t : Date) → (next_month t).day ≡ 1
unfolding next_month
day-next_month t = ground arith

-- `k` days after the 28th, in this month or in the next one.
abbrev after_28 : Date → ℕ → Date
after_28 t k =
    if leb (28 + k) (days_in_month t.year t.month)
    then record t { day = 28 + k }
    else record (next_month t) { day = 28 + k - days_in_month t.year t.month }

next_day-after_28 :
    (t : Date) (k : ℕ) → IsDate t → k ≤ 3 → next_day (after_28 t k) ≡ after_28 t (suc k)
unfolding next_day next_month
next_day-after_28 t k v h = elim (Bool-cases (leb (28 + k) (days_in_month t.year t.month))) [
  | inl stays ↦ rw stays (ground arith)
  | inr moved ↦ rw moved (
      ground (
        arith,
        days_in_month-pos t.year t.month,
        days_in_month-pos t.year (t.month + 1),
        days_in_month-pos (t.year + 1) 1,
      ))
]

add_days-after_28 :
    (t : Date) (k : ℕ) → IsDate t → k ≤ 4 → add_days (record t { day = 28 }) k ≡ after_28 t k
unfolding add_days
add_days-after_28 t zero v h = ground (arith, days_in_month-pos t.year t.month)
add_days-after_28 t (suc k) v h =
    ap next_day (add_days-after_28 t k v (omega arith)) ∙ next_day-after_28 t k v (omega arith)

days_in_month-le : (y m : ℕ) → days_in_month y m ≤ 31
unfolding days_in_month
days_in_month-le y m = ground arith

-- Four days after the 28th lie in the next month, whatever the length of this one.
pub next_month_from_28-eq : (t : Date) → IsDate t → next_month_from_28 t ≡ next_month t
unfolding next_month_from_28
next_month_from_28-eq t v =
    ap first_of_month (add_days-after_28 t 4 v (omega arith))
    ∙ ground (arith, days_in_month-le t.year t.month, day-next_month t)

-- Below the first of a month lie the dates of earlier months.
pub date_lt-first :
    (a b : Date)
    → IsDate a
    → IsDate b
    → b.day ≡ 1
    → (date_lt a b ≡ true) ↔ (month_index a < month_index b)
unfolding date_lt
date_lt-first a b v w e = (λ h. ground arith, λ h. ground arith)
