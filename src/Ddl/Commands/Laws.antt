-- ===== src/Ddl/Commands/Laws.antt =====
-- scripts/ddl/apply_ddl.py: what the commands rely on of Trino and of the bucket, and steps that may raise.
use urban_ops_intelligence_p.Prelude.{
  ◌≡◌, refl, Bool, true, false, not, ◌&&◌, List, [], Text, codes, text_eq, any, Result, ok, err,
}
use urban_ops_intelligence_p.Strings.{starts_with}
use urban_ops_intelligence_p.Loader.Writes.{Outcome}
use urban_ops_intelligence_p.Ddl.Commands.{Cluster, then_do, failing, with_value}

abbrev pub on_page : Text → Result (List Text) → Bool
on_page k (ok keys) = any (text_eq k) keys
on_page k (err e) = false

abbrev pub has_failed : Result (List Text) → Bool
has_failed (ok keys) = false
has_failed (err e) = true

-- Which objects the bucket has: a listing whose pages do not raise shows those under its prefix, and
-- no page shows another; a table that is dropped leaves its objects where they are; a deletion
-- deletes what it was given except what it answers with, and touches no other object.
pub record IsCluster (W : Cluster) (has_object : W.S → Text → Bool) : Type 0 where
  pub listed_under :
      (s : W.S) (p k : Text) → starts_with p k ≡ false → any (on_page k) (W.pages s p) ≡ false
  pub listed :
      (s : W.S) (p k : Text)
      → any has_failed (W.pages s p) ≡ false
      → any (on_page k) (W.pages s p) ≡ (starts_with p k && has_object s k)
  pub dropped :
      (schema sql : Text) (s : W.S) (k : Text)
      → starts_with (codes "DROP ") sql ≡ true
      → has_object (W.execute schema sql s).1 k ≡ has_object s k
  pub deleted :
      (keys failed : List Text) (s : W.S) (k : Text)
      → (W.delete keys s).0 ≡ ok failed
      → any (text_eq k) failed ≡ false
      → has_object (W.delete keys s).1 k ≡ (not (any (text_eq k) keys) && has_object s k)
  pub others_kept :
      (keys : List Text) (s : W.S) (k : Text)
      → any (text_eq k) keys ≡ false
      → has_object (W.delete keys s).1 k ≡ has_object s k

-- Every deletion that returns answers with no key.
abbrev pub DeletesAll : Cluster → Type 0
DeletesAll W = (keys failed : List Text) (s : W.S) → (W.delete keys s).0 ≡ ok failed → failed ≡ []

module _ {S A : Type 0} where
  pub failing-state : (o : Outcome S A) → (failing o).1 ≡ o.1
  failing-state (ok a, s) = refl
  failing-state (err e, s) = refl

module _ {S A B : Type 0} where
  -- The next step keeps what it and the first one keep.
  pub then_do-keeps :
      (K : S → Type 0) (o : Outcome S A) (f : A → S → Outcome S B)
      → K o.1
      → ((a : A) (s : S) → K s → K (f a s).1)
      → K (then_do o f).1
  then_do-keeps K (ok a, s) f h k = k a s h
  then_do-keeps K (err e, s) f h k = h

  pub with_value-keeps :
      (K : S → Type 0) (r : Result B) (s : S) (f : B → Outcome S A)
      → K s
      → ((b : B) → r ≡ ok b → K (f b).1)
      → K (with_value r s f).1
  with_value-keeps K (ok b) s f h k = k b refl
  with_value-keeps K (err e) s f h k = h

-- What returns comes from a first step that returns.
pub then_do-returned :
    {S A B : Type 0} (o : Outcome S A) (f : A → S → Outcome S B) (b : B)
    → (then_do o f).0 ≡ ok b
    → (a : A) × (o.0 ≡ ok a) × ((f a o.1).0 ≡ ok b) × (then_do o f ≡ f a o.1)
then_do-returned (ok a, s) f b h = (a, refl, h, refl)
then_do-returned (err e, s) f b h = cc

pub with_value-returned :
    {S A B : Type 0} (r : Result A) (s : S) (f : A → Outcome S B) (b : B)
    → (with_value r s f).0 ≡ ok b
    → (a : A) × (r ≡ ok a) × ((f a).0 ≡ ok b) × (with_value r s f ≡ f a)
with_value-returned (ok a) s f b h = (a, refl, h, refl)
with_value-returned (err e) s f b h = cc
