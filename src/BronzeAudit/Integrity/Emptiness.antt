-- ===== src/BronzeAudit/Integrity/Emptiness.antt =====
-- scripts/profiling/bronze_integrity_audit.py: which lists and sets of texts are empty.
use urban_ops_intelligence_p.Prelude.{
  ◌≡◌, refl, ◌∙◌, Bool, true, false, not, ◌&&◌, List, [], ◌∷◌, ◌++◌, Text, is_empty, is_some, any,
  All, keep, map, arith,
}
use urban_ops_intelligence_p.Strings.Sorting.{sort_by, placed, distinct, sorted_set}
use urban_ops_intelligence_p.BronzeAudit.{day_of}
use urban_ops_intelligence_p.BronzeAudit.Integrity.{days_of}

pub is_empty-placed : (t : Text) (ts : List Text) → is_empty (placed (λ x. x) t ts) ≡ false
is_empty-placed t [] = refl
is_empty-placed t (u ∷ ts) = ground arith

pub is_empty-distinct : (ts : List Text) → is_empty (distinct ts) ≡ is_empty ts
is_empty-distinct [] = refl
is_empty-distinct (t ∷ []) = refl
is_empty-distinct (t ∷ u ∷ ts) = ground (arith, is_empty-distinct (u ∷ ts))

pub is_empty-sort_by : (ts : List Text) → is_empty (sort_by (λ x. x) ts) ≡ is_empty ts
unfolding sort_by
is_empty-sort_by [] = refl
is_empty-sort_by (t ∷ ts) = is_empty-placed t (sort_by (λ x. x) ts)

pub is_empty-sorted_set : (ts : List Text) → is_empty (sorted_set ts) ≡ is_empty ts
unfolding sorted_set
is_empty-sorted_set ts = is_empty-sort_by (distinct ts) ∙ is_empty-distinct ts

pub is_empty-append {ℓ} :
    {A : Type ℓ} (xs ys : List A) → is_empty (xs ++ ys) ≡ (is_empty xs && is_empty ys)
is_empty-append [] ys = refl
is_empty-append (x ∷ xs) ys = refl

pub is_empty-map {ℓ} : {A : Type ℓ} (f : A → Text) (xs : List A) → is_empty (map f xs) ≡ is_empty xs
is_empty-map f [] = refl
is_empty-map f (x ∷ xs) = refl

pub is_empty-keep {ℓ} :
    {A : Type ℓ} (p : A → Bool) (xs : List A) → is_empty (keep p xs) ≡ not (any p xs)
is_empty-keep p [] = refl
is_empty-keep p (x ∷ xs) = ground (arith, is_empty-keep p xs)

-- Keys that all encode a day.
abbrev pub Dated : List Text → Type 0
Dated keys = All (λ k. is_some (day_of k) ≡ true) keys

pub is_empty-days_of : (keys : List Text) → Dated keys → is_empty (days_of keys) ≡ is_empty keys
is_empty-days_of [] h = refl
is_empty-days_of (k ∷ keys) h = ground arith
