-- ===== src/Bulk/Months.antt =====
-- `_monthrange`: the months of a window.
use urban_ops_intelligence_p.Prelude.{
  ℕ, zero, suc, ◌+◌, ◌-◌, ◌*◌, ◌<◌, ◌≡◌, refl, ap, false, List, [], ◌∷◌, arith, ltb, if◌then◌else◌,
  Bool-cases, inl, inr, ltb→lt,
}
use urban_ops_intelligence_p.Calendar.{Date, IsDate, date_lt, first_of_month, next_month}
use urban_ops_intelligence_p.Calendar.Months.{
  month_index, month_index-next_month, next_month-IsDate, first_of_month-IsDate, day-next_month,
}
use urban_ops_intelligence_p.Bulk.{month_loop, monthrange}

-- `n` firsts of months, from `cur` on.
abbrev pub firsts : ℕ → Date → List Date
firsts zero cur = []
firsts (suc n) cur = cur ∷ firsts n (next_month cur)

-- The first month that lies wholly past a window's end: a window that ends within a month reaches
-- into it.
abbrev pub end_index : Date → ℕ
end_index end = if ltb 1 end.day then month_index end + 1 else month_index end

first_lt :
    (cur end : Date)
    → IsDate cur
    → IsDate end
    → cur.day ≡ 1
    → date_lt cur end ≡ ltb (month_index cur) (end_index end)
unfolding date_lt
first_lt cur end v w e = ground arith

not_before : (a b : ℕ) → ltb a b ≡ false → b - a ≡ 0
not_before a b h = ground arith

month_loop_step :
    (fuel : ℕ) (end cur : Date)
    → month_loop (suc fuel) end cur
      ≡ (if date_lt cur end then cur ∷ month_loop fuel end (next_month cur) else [])
unfolding month_loop
month_loop_step fuel end cur = refl

-- The fuel exceeds the number of months.
fuel_enough :
    (start end : Date)
    → IsDate start
    → IsDate end
    → end_index end - month_index start < (end.year + 1) * 12
fuel_enough start end v w = ground arith

month_loop-firsts :
    (fuel : ℕ) (end cur : Date)
    → IsDate cur
    → IsDate end
    → cur.day ≡ 1
    → end_index end - month_index cur < fuel
    → month_loop fuel end cur ≡ firsts (end_index end - month_index cur) cur
month_loop-firsts zero end cur v w e h = elim h [ ]
month_loop-firsts (suc fuel) end cur v w e h =
    let next = month_index-next_month cur v in
    let later =
      month_loop-firsts fuel end (next_month cur) (next_month-IsDate cur v) w
        (day-next_month cur) in
    rw (month_loop_step fuel end cur, first_lt cur end v w e)
      (elim (Bool-cases (ltb (month_index cur) (end_index end))) [
        | inl before ↦
            let lt = ltb→lt _ _ before in
            let count : end_index end - month_index cur
                ≡ suc (end_index end - month_index (next_month cur)) =
              omega (arith, next, lt) in
            rw (before, count) (ap (λ ms. cur ∷ ms) (later (omega (arith, next, lt))))
        | inr past ↦
            let count : end_index end - month_index cur ≡ 0 = not_before _ _ past in
            rw (past, count)
      ])

-- For valid dates, the months of a window are the firsts of its months in a row, from that of
-- the start to the last one that begins before the end; the month in which the window ends is
-- one of them unless the window ends on its first day.
pub monthrange-firsts :
    (start end : Date)
    → IsDate start
    → IsDate end
    → monthrange start end ≡ firsts (end_index end - month_index start) (first_of_month start)
unfolding monthrange
monthrange-firsts start end v w =
    let first = first_of_month-IsDate start v in
    rw (first_lt (first_of_month start) end first w refl)
      (elim (Bool-cases (ltb (month_index start) (end_index end))) [
        | inl before ↦ rw before (
            month_loop-firsts ((end.year + 1) * 12) end (first_of_month start) first w refl
              (fuel_enough start end v w))
        | inr past ↦
            let count : end_index end - month_index start ≡ 0 = not_before _ _ past in
            rw (past, count)
      ])
