-- ===== src/SnowfallEvents.antt =====
-- scripts/analysis/snowfall_events.py: the events of a daily series of snowfall. A day is its
-- ordinal number.
pub mod Segments
use urban_ops_intelligence_p.Prelude.{
  ℕ, zero, suc, ◌+◌, ◌-◌, Bool, true, false, not, ◌||◌, ◌&&◌, Option, none, some, List, [], ◌∷◌,
  ◌++◌, ◌==◌, ltb, leb, is_empty, if◌then◌else◌, map, keep,
}

-- Python's floats, with the operations on amounts of snow. `round` rounds to one digit.
pub record Amounts : Type 1 where
  pub F : Type 0
  pub none_fallen : F
  pub plus : F → F → F
  pub reaches : F → F → Bool
  pub larger : F → F → F
  pub round : F → F

abbrev pub last_of : List ℕ → ℕ
last_of [] = 0
last_of (d ∷ []) = d
last_of (d ∷ e ∷ ds) = last_of (e ∷ ds)

abbrev pub head_of : List ℕ → ℕ
head_of [] = 0
head_of (d ∷ ds) = d

-- `sorted`, of days that differ
abbrev inserted : ℕ → List ℕ → List ℕ
inserted d [] = d ∷ []
inserted d (e ∷ es) = let rest = inserted d es in if leb d e then d ∷ e ∷ es else e ∷ rest

abbrev pub sorted_days : List ℕ → List ℕ
sorted_days [] = []
sorted_days (d ∷ ds) = inserted d (sorted_days ds)

-- Whether the loop closes the run before the day.
abbrev pub closes : ℕ → List ℕ → ℕ → Bool
closes max_gap run day = not (is_empty run) && ltb (max_gap + 1) (day - last_of run)

-- The loop of `segment_events`: the runs of the events, the open run first.
unfoldable pub segments : ℕ → List ℕ → List ℕ → List (List ℕ)
segments max_gap run [] = if is_empty run then [] else run ∷ []
segments max_gap run (day ∷ days) = elim (closes max_gap run day) [
  | true ↦ run ∷ segments max_gap (day ∷ []) days
  | false ↦ segments max_gap (run ++ (day ∷ [])) days
]

module _ (A : Amounts) where
  abbrev Daily : Type 0
  Daily = List (ℕ × A.F)

  pub record Event : Type 0 where
    pub start : ℕ
    pub end : ℕ
    pub days : ℕ
    pub total_cm : A.F
    pub peak_cm : A.F
    pub accum_triggered : Bool

  -- `daily.get(day, 0.0)`
  abbrev amount_on : Daily → ℕ → A.F
  amount_on [] day = A.none_fallen
  amount_on ((d, cm) ∷ daily) day = let rest = amount_on daily day in if d == day then cm else rest

  -- The sum over the days of the window that ends on the day.
  unfoldable pub window_total : Daily → ℕ → ℕ → A.F
  window_total daily day zero = A.none_fallen
  window_total daily day (suc n) =
      A.plus (window_total daily day n)
        (if ltb day n then A.none_fallen else amount_on daily (day - n))

  -- Whether a day of the series is a hit, by its own amount or by the window that ends on it.
  unfoldable pub is_hit : Daily → A.F → Option (ℕ × A.F) → ℕ × A.F → Bool
  is_hit daily threshold none entry = A.reaches entry.1 threshold
  is_hit daily threshold (some (window_days, accum_threshold)) entry =
      A.reaches entry.1 threshold
      || A.reaches (window_total daily entry.0 window_days) accum_threshold

  unfoldable pub hits : Daily → A.F → Option (ℕ × A.F) → List ℕ
  hits daily threshold accumulation =
      sorted_days (map (λ entry. entry.0) (keep (is_hit daily threshold accumulation) daily))

  -- `sum`, from the left
  abbrev sum_from : A.F → List A.F → A.F
  sum_from total [] = total
  sum_from total (x ∷ xs) = sum_from (A.plus total x) xs

  abbrev max_of : A.F → List A.F → A.F
  max_of x [] = x
  max_of x (y ∷ ys) = max_of (A.larger x y) ys

  abbrev peak_of : List A.F → A.F
  peak_of [] = A.none_fallen
  peak_of (x ∷ xs) = A.round (max_of x xs)

  -- `_event`
  unfoldable pub event_of : Daily → A.F → List ℕ → Event
  event_of daily threshold run =
      let totals = map (amount_on daily) run in
      record {
        start = head_of run;
        end = last_of run;
        days = last_of run - head_of run + 1;
        total_cm = A.round (sum_from A.none_fallen totals);
        peak_cm = peak_of totals;
        accum_triggered = not (A.reaches (peak_of totals) threshold);
      }

  -- `segment_events`, with both options of the accumulation or with neither
  unfoldable pub segment_events : Daily → A.F → ℕ → Option (ℕ × A.F) → List Event
  segment_events daily threshold max_gap_days accumulation =
      map (event_of daily threshold) (segments max_gap_days [] (hits daily threshold accumulation))

  abbrev pairwise_gaps : List Event → List ℕ
  pairwise_gaps [] = []
  pairwise_gaps (a ∷ []) = []
  pairwise_gaps (a ∷ b ∷ events) = (b.start - a.end) ∷ pairwise_gaps (b ∷ events)

  -- `gaps_between`
  unfoldable pub gaps_between : List Event → List ℕ
  gaps_between events = keep (λ gap. leb gap 90) (pairwise_gaps events)
