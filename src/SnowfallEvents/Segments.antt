-- ===== src/SnowfallEvents/Segments.antt =====
-- scripts/analysis/snowfall_events.py: where the loop cuts the days into events.
use urban_ops_intelligence_p.Prelude.{
  ℕ, ◌+◌, ◌-◌, ◌≤◌, ◌<◌, ◌≡◌, refl, sym, ap, subst, ◌∙◌, true, false, List, [], ◌∷◌, ◌++◌, is_empty,
  All, append_assoc, arith, Bool-cases, inl, inr,
}
use urban_ops_intelligence_p.SnowfallEvents.{last_of, head_of, closes, segments}

-- The days of the runs, one run after the other.
abbrev pub joined : List (List ℕ) → List ℕ
joined [] = []
joined (run ∷ runs) = run ++ joined runs

-- Days of one event: at most the tolerated gap lies between a day and the next.
abbrev pub Tight : ℕ → List ℕ → Type 0
Tight max_gap [] = Unit
Tight max_gap (d ∷ []) = Unit
Tight max_gap (d ∷ e ∷ days) = ((e - d) ≤ (max_gap + 1)) × Tight max_gap (e ∷ days)

-- More than the tolerated gap lies between an event and the next.
abbrev pub Separated : ℕ → List (List ℕ) → Type 0
Separated max_gap [] = Unit
Separated max_gap (run ∷ []) = Unit
Separated max_gap (run ∷ next ∷ runs) =
    ((max_gap + 1) < (head_of next - last_of run)) × Separated max_gap (next ∷ runs)

cut_step :
    (max_gap : ℕ) (run : List ℕ) (day : ℕ) (days : List ℕ)
    → closes max_gap run day ≡ true
    → segments max_gap run (day ∷ days) ≡ run ∷ segments max_gap (day ∷ []) days
unfolding segments
cut_step max_gap run day days h = rw (h, segments) refl

grow_step :
    (max_gap : ℕ) (run : List ℕ) (day : ℕ) (days : List ℕ)
    → closes max_gap run day ≡ false
    → segments max_gap run (day ∷ days) ≡ segments max_gap (run ++ (day ∷ [])) days
unfolding segments
grow_step max_gap run day days h = rw (h, segments) refl

joined-segments :
    (max_gap : ℕ) (run days : List ℕ) → joined (segments max_gap run days) ≡ run ++ days
unfolding segments
joined-segments max_gap [] [] = refl
joined-segments max_gap (d ∷ run) [] = refl
joined-segments max_gap run (day ∷ days) = elim (Bool-cases (closes max_gap run day)) [
  | inl cut ↦
      ap joined (cut_step max_gap run day days cut)
      ∙ ap (λ rest. run ++ rest) (joined-segments max_gap (day ∷ []) days)
  | inr grown ↦
      ap joined (grow_step max_gap run day days grown)
      ∙ joined-segments max_gap (run ++ (day ∷ [])) days
      ∙ append_assoc run (day ∷ []) days
]

Tight-snoc :
    (max_gap d : ℕ) (run : List ℕ) (day : ℕ)
    → Tight max_gap (d ∷ run)
    → (day - last_of (d ∷ run)) ≤ (max_gap + 1)
    → Tight max_gap (d ∷ (run ++ (day ∷ [])))
Tight-snoc max_gap d [] day h k = (k, tt)
Tight-snoc max_gap d (e ∷ run) day h k = (h.0, Tight-snoc max_gap e run day h.1 k)

not_closed :
    (max_gap d : ℕ) (run : List ℕ) (day : ℕ)
    → closes max_gap (d ∷ run) day ≡ false
    → (day - last_of (d ∷ run)) ≤ (max_gap + 1)
not_closed max_gap d run day h = ground arith

closed :
    (max_gap d : ℕ) (run : List ℕ) (day : ℕ)
    → closes max_gap (d ∷ run) day ≡ true
    → (max_gap + 1) < (day - last_of (d ∷ run))
closed max_gap d run day h = ground arith

-- The runs are those of a series whose first day is `d`.
abbrev StartsAt : ℕ → List (List ℕ) → Type 0
StartsAt d [] = ⊥
StartsAt d (run ∷ runs) = head_of run ≡ d

abbrev WellCut : ℕ → ℕ → List (List ℕ) → Type 0
WellCut max_gap d runs =
    All (λ run. (is_empty run ≡ false) × Tight max_gap run) runs
    × Separated max_gap runs
    × StartsAt d runs

closed_before :
    (max_gap d : ℕ) (run : List ℕ) (day : ℕ) (runs : List (List ℕ))
    → Tight max_gap (d ∷ run)
    → (max_gap + 1) < (day - last_of (d ∷ run))
    → WellCut max_gap day runs
    → WellCut max_gap d ((d ∷ run) ∷ runs)
closed_before max_gap d run day [] tight far (each, apart, start) = elim start [ ]
closed_before max_gap d run day (next ∷ runs) tight far (each, apart, start) =
    (((refl, tight), each), (rw start far, apart), refl)

segments-WellCut :
    (max_gap d : ℕ) (run days : List ℕ)
    → Tight max_gap (d ∷ run)
    → WellCut max_gap d (segments max_gap (d ∷ run) days)
unfolding segments
segments-WellCut max_gap d run [] tight = (((refl, tight), tt), tt, refl)
segments-WellCut max_gap d run (day ∷ days) tight =
    elim (Bool-cases (closes max_gap (d ∷ run) day)) [
      | inl cut ↦ subst (WellCut max_gap d) (sym (cut_step max_gap (d ∷ run) day days cut)) (
          closed_before max_gap d run day (segments max_gap (day ∷ []) days) tight
            (closed max_gap d run day cut) (segments-WellCut max_gap day [] days tt))
      | inr grown ↦ subst (WellCut max_gap d) (sym (grow_step max_gap (d ∷ run) day days grown)) (
          segments-WellCut max_gap d (run ++ (day ∷ [])) days
            (Tight-snoc max_gap d run day tight (not_closed max_gap d run day grown)))
    ]

-- The runs that become events are not empty, give back the days in their order when they are put one after the other, have at most the tolerated gap between a day and the next of the same run, and have more than it between the last day of a run and the first of the next.
pub segments-joined :
    (max_gap : ℕ) (days : List ℕ)
    → (joined (segments max_gap [] days) ≡ days)
      × All (λ run. (is_empty run ≡ false) × Tight max_gap run) (segments max_gap [] days)
      × Separated max_gap (segments max_gap [] days)
unfolding segments
segments-joined max_gap [] = (refl, tt, tt)
segments-joined max_gap (day ∷ days) =
    let (each, apart, start) = segments-WellCut max_gap day [] days tt in
    (joined-segments max_gap [] (day ∷ days), each, apart)
