-- ===== src/Loader/Writes/Sequence.antt =====
-- Sequences of calls: what holds after them, and what their return says.
use urban_ops_intelligence_p.Prelude.{◌≡◌, refl, ◌⊎◌, inl, inr, Exception, Result, ok, err, arith}
use urban_ops_intelligence_p.Loader.Writes.{Outcome, and_then, with_result}

pub and_then-ok :
    {S A : Type 0} (m : Outcome S (Unit {0})) (next : S → Outcome S A)
    → m.0 ≡ ok tt
    → and_then m next ≡ next m.1
unfolding and_then
and_then-ok (ok _, s) next h = refl
and_then-ok (err e, s) next h = cc

pub and_then-err :
    {S A : Type 0} (m : Outcome S (Unit {0})) (next : S → Outcome S A) (e : Exception)
    → m.0 ≡ err e
    → and_then m next ≡ (err e, m.1)
unfolding and_then
and_then-err (ok _, s) next e h = cc
and_then-err (err _, s) next e h = ground arith

pub Result-cases : (r : Result (Unit {0})) → (r ≡ ok tt) ⊎ ((e : Exception) × (r ≡ err e))
Result-cases (ok _) = inl refl
Result-cases (err e) = inr (e, refl)

-- A predicate on states that holds after each call holds after both.
pub and_then-keeps {ℓ} :
    {S A : Type 0} (Q : S → Type ℓ) (m : Outcome S (Unit {0})) (next : S → Outcome S A)
    → Q m.1
    → ((s : S) → Q s → Q (next s).1)
    → Q (and_then m next).1
unfolding and_then
and_then-keeps Q (ok _, s) next h step = step s h
and_then-keeps Q (err e, s) next h step = h

-- The state after a sequence whose first call returned.
pub and_then-final {ℓ} :
    {S A : Type 0} (Q : S → Type ℓ) (m : Outcome S (Unit {0})) (next : S → Outcome S A)
    → m.0 ≡ ok tt
    → Q (next m.1).1
    → Q (and_then m next).1
unfolding and_then
and_then-final Q (ok _, s) next h q = q
and_then-final Q (err e, s) next h q = cc

-- A sequence that returns has returned at each step.
pub and_then-returns :
    {S A : Type 0} (m : Outcome S (Unit {0})) (next : S → Outcome S A) (a : A)
    → (and_then m next).0 ≡ ok a
    → (m.0 ≡ ok tt) × ((next m.1).0 ≡ ok a)
unfolding and_then
and_then-returns (ok _, s) next a h = (refl, h)
and_then-returns (err e, s) next a h = cc

module _ {ℓ} {S A B : Type 0} (Q : S → Type ℓ) where
  pub with_result-keeps :
      (r : Result A) (next : A → S → Outcome S B) (s : S)
      → Q s
      → ((a : A) → Q (next a s).1)
      → Q (with_result r next s).1
  unfolding with_result
  with_result-keeps (ok a) next s q step = step a
  with_result-keeps (err e) next s q step = q

  -- What returned had a value to go on with.
  pub with_result-returned :
      (r : Result A) (next : A → S → Outcome S B) (s : S) (b : B)
      → (with_result r next s).0 ≡ ok b
      → ((a : A) → r ≡ ok a → (next a s).0 ≡ ok b → Q (next a s).1)
      → Q (with_result r next s).1
  unfolding with_result
  with_result-returned (ok a) next s b h step = step a refl h
  with_result-returned (err e) next s b h step = cc
