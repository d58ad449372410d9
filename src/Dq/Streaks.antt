-- ===== src/Dq/Streaks.antt =====
-- scripts/dq/scorecard.py: each streak counts the failures before the newest pass.
use urban_ops_intelligence_p.Prelude.{
  ℕ, zero, suc, ◌+◌, ◌<◌, ◌≡◌, refl, sym, ap, subst, ◌∙◌, Bool, true, false, Option, none, some,
  List, [], ◌∷◌, if◌then◌else◌, Text, text_eq_iff, text_eq_refl, text_eq_sym, ltb, is_some, any,
  keep, lt→ltb, All, arith, Bool-cases, inl, inr,
}
use urban_ops_intelligence_p.Dq.Scorecard.{
  Key, key_eq, StreakRow, Streaks, extended, streak_step, streak_loop, failing_streaks,
}

abbrev pub streak_of : Key → List (Key × ℕ) → Option ℕ
streak_of k [] = none
streak_of k ((j, n) ∷ d) = let rest = streak_of k d in if key_eq j k then some n else rest

-- How often the key failed before its first pass; a check that could not run counts as neither.
abbrev pub failures_before_pass : Key → List StreakRow → ℕ
failures_before_pass k [] = 0
failures_before_pass k (row ∷ rows) =
    let rest = failures_before_pass k rows in
    if key_eq row.key k
    then (if is_some row.error_text then rest else if row.passed then 0 else suc rest)
    else rest

-- A streak of no failures is left out.
abbrev pub unless_zero : ℕ → Option ℕ
unless_zero zero = none
unless_zero (suc n) = some (suc n)

abbrev more : Option ℕ → ℕ → Option ℕ
more none n = unless_zero n
more (some m) n = some (m + n)

key_eq→eq : (j k : Key) → key_eq j k ≡ true → j ≡ k
key_eq→eq (a, b) (c, d) h = ground (arith, text_eq_iff a c, text_eq_iff b d)

key_eq_refl : (k : Key) → key_eq k k ≡ true
key_eq_refl (a, b) = ground (arith, text_eq_refl a, text_eq_refl b)

streak_of-extended_same :
    (k : Key) (d : List (Key × ℕ)) (n : ℕ)
    → more (streak_of k (extended k d)) n ≡ more (streak_of k d) (suc n)
streak_of-extended_same k [] n = rw (key_eq_refl k) (ap some (omega arith))
streak_of-extended_same k ((j, m) ∷ d) n = elim (Bool-cases (key_eq j k)) [
  | inl same ↦
      let e : some (suc m + n) ≡ some (m + suc n) = ap some (omega arith) in rw same (rw same e)
  | inr differ ↦ rw differ (rw differ (streak_of-extended_same k d n))
]

streak_of-extended_other :
    (j k : Key) (d : List (Key × ℕ))
    → key_eq j k ≡ false
    → streak_of k (extended j d) ≡ streak_of k d
streak_of-extended_other j k [] h = rw h refl
streak_of-extended_other j k ((i, m) ∷ d) h = elim (Bool-cases (key_eq i j)) [
  | inl same ↦
      let differ : key_eq i k ≡ false =
        subst (λ x. key_eq x k ≡ false) (sym (key_eq→eq i j same)) h in
      rw same (rw differ refl)
  | inr differ ↦
      rw differ (ap (λ r. if key_eq i k then some m else r) (streak_of-extended_other j k d h))
]

-- What is left to count of a key.
abbrev remaining : Key → List Key → List StreakRow → ℕ
remaining k seen rows = if any (key_eq k) seen then 0 else failures_before_pass k rows

key_eq_sym : (j k : Key) → key_eq j k ≡ key_eq k j
key_eq_sym (a, b) (c, d) = ground (arith, text_eq_sym a c, text_eq_sym b d)

-- What is counted and what is left to count, together.
abbrev total : Key → Streaks → List StreakRow → Option ℕ
total k s rows = more (streak_of k s.streaks) (remaining k s.seen_pass rows)

abbrev row_of : Key → Bool → Option Text → StreakRow
row_of k passed error_text = record { key = k; passed = passed; error_text = error_text }

own_fresh :
    (k : Key) (s : Streaks) (passed : Bool) (error : Option Text) (rows : List StreakRow)
    → any (key_eq k) s.seen_pass ≡ false
    → total k (streak_step s (row_of k passed error)) rows
      ≡ total k s (row_of k passed error ∷ rows)
unfolding streak_step
own_fresh k s passed (some e) rows fresh = rw fresh (rw (key_eq_refl k) (rw fresh refl))
own_fresh k s true none rows fresh = rw fresh (rw (key_eq_refl k) refl)
own_fresh k s false none rows fresh = rw fresh (
    rw (key_eq_refl k)
      (rw fresh (streak_of-extended_same k s.streaks (failures_before_pass k rows))))

own_row :
    (k : Key) (s : Streaks) (passed : Bool) (error : Option Text) (rows : List StreakRow)
    → total k (streak_step s (row_of k passed error)) rows
      ≡ total k s (row_of k passed error ∷ rows)
unfolding streak_step
own_row k s passed error rows = elim (Bool-cases (any (key_eq k) s.seen_pass)) [
  | inl seen ↦ rw seen (rw seen refl)
  | inr fresh ↦ own_fresh k s passed error rows fresh
]

other_fresh :
    (k : Key) (s : Streaks) (j : Key) (passed : Bool) (error : Option Text) (rows : List StreakRow)
    → key_eq j k ≡ false
    → any (key_eq j) s.seen_pass ≡ false
    → total k (streak_step s (row_of j passed error)) rows
      ≡ total k s (row_of j passed error ∷ rows)
unfolding streak_step
other_fresh k s j passed (some e) rows differ fresh = rw fresh (rw differ refl)
other_fresh k s j true none rows differ fresh =
    let back : key_eq k j ≡ false = key_eq_sym k j ∙ differ in rw fresh (rw differ (rw back refl))
other_fresh k s j false none rows differ fresh =
    rw fresh (rw differ (rw (streak_of-extended_other j k s.streaks differ) refl))

other_row :
    (k : Key) (s : Streaks) (j : Key) (passed : Bool) (error : Option Text) (rows : List StreakRow)
    → key_eq j k ≡ false
    → total k (streak_step s (row_of j passed error)) rows
      ≡ total k s (row_of j passed error ∷ rows)
unfolding streak_step
other_row k s j passed error rows differ = elim (Bool-cases (any (key_eq j) s.seen_pass)) [
  | inl seen ↦ rw seen (rw differ refl)
  | inr fresh ↦ other_fresh k s j passed error rows differ fresh
]

-- One row takes from what is left what it adds to the streak.
streak_step-total :
    (k : Key) (s : Streaks) (row : StreakRow) (rows : List StreakRow)
    → total k (streak_step s row) rows ≡ total k s (row ∷ rows)
streak_step-total k s row rows = elim (Bool-cases (key_eq row.key k)) [
  | inl same ↦
      subst
        (λ j.
          total k (streak_step s (row_of j row.passed row.error_text)) rows
          ≡ total k s (row_of j row.passed row.error_text ∷ rows))
        (sym (key_eq→eq row.key k same)) (own_row k s row.passed row.error_text rows)
  | inr differ ↦ other_row k s row.key row.passed row.error_text rows differ
]

nothing_left : (b : Bool) → ◌≡◌ {A = ℕ} (if b then 0 else 0) 0
nothing_left true = refl
nothing_left false = refl

more_none : (o : Option ℕ) → more o 0 ≡ o
more_none none = refl
more_none (some m) = ap some (omega arith)

streak_loop-streak_of :
    (k : Key) (s : Streaks) (rows : List StreakRow)
    → streak_of k (streak_loop s rows).streaks
      ≡ more (streak_of k s.streaks) (remaining k s.seen_pass rows)
unfolding streak_loop
streak_loop-streak_of k s [] =
    sym (more_none (streak_of k s.streaks))
    ∙ ap (more (streak_of k s.streaks)) (sym (nothing_left (any (key_eq k) s.seen_pass)))
streak_loop-streak_of k s (row ∷ rows) =
    streak_loop-streak_of k (streak_step s row) rows ∙ streak_step-total k s row rows

-- No streak of the loop is zero, so the last filter drops none.
abbrev Positive : List (Key × ℕ) → Type 0
Positive d = All (λ entry. 0 < entry.1) d

extended-Positive : (k : Key) (d : List (Key × ℕ)) → Positive d → Positive (extended k d)
extended-Positive k [] h = (omega arith, tt)
extended-Positive k ((j, n) ∷ d) h = elim (Bool-cases (key_eq j k)) [
  | inl same ↦ rw same (omega arith, h.1)
  | inr differ ↦ rw differ (h.0, extended-Positive k d h.1)
]

streak_step-Positive :
    (s : Streaks) (row : StreakRow) → Positive s.streaks → Positive (streak_step s row).streaks
unfolding streak_step
streak_step-Positive s row h =
    go (any (key_eq row.key) s.seen_pass) (is_some row.error_text) row.passed
  where
    go :
        (seen broken passed : Bool)
        → Positive
            (if seen
              then s
              else if broken
              then s
              else if passed
              then record { streaks = s.streaks; seen_pass = row.key ∷ s.seen_pass }
              else record { streaks = extended row.key s.streaks; seen_pass = s.seen_pass }).streaks
    go true broken passed = h
    go false true passed = h
    go false false true = h
    go false false false = extended-Positive row.key s.streaks h

streak_loop-Positive :
    (s : Streaks) (rows : List StreakRow)
    → Positive s.streaks
    → Positive (streak_loop s rows).streaks
unfolding streak_loop
streak_loop-Positive s [] h = h
streak_loop-Positive s (row ∷ rows) h =
    streak_loop-Positive (streak_step s row) rows (streak_step-Positive s row h)

keep-Positive : (d : List (Key × ℕ)) → Positive d → keep (λ entry. ltb 0 entry.1) d ≡ d
keep-Positive [] h = refl
keep-Positive ((k, n) ∷ d) h =
    rw (lt→ltb 0 n h.0) (ap (λ rest. (k, n) ∷ rest) (keep-Positive d h.1))

-- In the streaks of the score card, a rule and a table have the number of failing rows that come before their first passing one, rows that could not run set aside, and no entry where that number is zero.
pub failing_streaks-failures_before_pass :
    (k : Key) (rows : List StreakRow)
    → streak_of k (failing_streaks rows) ≡ unless_zero (failures_before_pass k rows)
unfolding failing_streaks
failing_streaks-failures_before_pass k rows =
    let start : Streaks = record { streaks = []; seen_pass = [] } in
    ap (streak_of k)
      (keep-Positive (streak_loop start rows).streaks (streak_loop-Positive start rows tt))
    ∙ streak_loop-streak_of k start rows
