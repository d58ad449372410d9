-- ===== src/Strings/Pieces.antt =====
-- A text that is joined from pieces splits into them again.
use urban_ops_intelligence_p.Prelude.{
  ℕ, ◌≡◌, refl, ap, ◌∙◌, true, false, List, [], ◌∷◌, ◌++◌, ◌==◌, Text, any, All, arith, Bool-cases,
  inl, inr,
}
use urban_ops_intelligence_p.Strings.{onto, split, join}

-- The character does not occur.
abbrev pub Lacks : ℕ → Text → Type 0
Lacks sep t = any (λ c. c == sep) t ≡ false

split-Lacks : (sep : ℕ) (t : Text) → Lacks sep t → split sep t ≡ t ∷ []
unfolding split
split-Lacks sep [] h = refl
split-Lacks sep (c ∷ t) h = elim (Bool-cases (c == sep)) [
  | inl same ↦ let k : true ≡ false = rw same at h in cc
  | inr differ ↦
      let k : Lacks sep t = rw differ at h in rw differ (ap (onto c) (split-Lacks sep t k))
]

split-append : (sep : ℕ) (t u : Text) → Lacks sep t → split sep (t ++ (sep ∷ u)) ≡ t ∷ split sep u
unfolding split
split-append sep [] u h = let e : (sep == sep) ≡ true = ground arith in rw e refl
split-append sep (c ∷ t) u h = elim (Bool-cases (c == sep)) [
  | inl same ↦ let k : true ≡ false = rw same at h in cc
  | inr differ ↦
      let k : Lacks sep t = rw differ at h in rw differ (ap (onto c) (split-append sep t u k))
]

pub split-join :
    (sep : ℕ) (piece : Text) (pieces : List Text)
    → All (Lacks sep) (piece ∷ pieces)
    → split sep (join (sep ∷ []) (piece ∷ pieces)) ≡ piece ∷ pieces
split-join sep piece [] h = split-Lacks sep piece h.0
split-join sep piece (next ∷ pieces) h =
    split-append sep piece (join (sep ∷ []) (next ∷ pieces)) h.0
    ∙ ap (λ rest. piece ∷ rest) (split-join sep next pieces h.1)

-- A text without the character, joined by another one, stays without it.
pub Lacks-append : (sep : ℕ) (t u : Text) → Lacks sep t → Lacks sep u → Lacks sep (t ++ u)
Lacks-append sep [] u h k = k
Lacks-append sep (c ∷ t) u h k = elim (Bool-cases (c == sep)) [
  | inl same ↦ let bad : true ≡ false = rw same at h in cc
  | inr differ ↦ let rest : Lacks sep t = rw differ at h in rw differ (Lacks-append sep t u rest k)
]

pub join-Lacks :
    (sep other : ℕ) (pieces : List Text)
    → (other == sep) ≡ false
    → All (Lacks sep) pieces
    → Lacks sep (join (other ∷ []) pieces)
join-Lacks sep other [] differ h = refl
join-Lacks sep other (piece ∷ []) differ h = h.0
join-Lacks sep other (piece ∷ next ∷ pieces) differ h =
    let rest : Lacks sep (other ∷ join (other ∷ []) (next ∷ pieces)) =
      rw differ (join-Lacks sep other (next ∷ pieces) differ h.1) in
    Lacks-append sep piece (other ∷ join (other ∷ []) (next ∷ pieces)) h.0 rest
