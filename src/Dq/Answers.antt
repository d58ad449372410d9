-- ===== src/Dq/Answers.antt =====
-- scripts/dq/rules.py: a rule that the loader returns can be evaluated.
use urban_ops_intelligence_p.Prelude.{
  ◌≡◌, refl, is_some, sym, Bool, true, false, Option, none, some, [], ◌∷◌, if◌then◌else◌, Text,
  codes, text_eq, text_eq→eq, All, Result, ok, ◌>>=◌, subst, arith,
}
use urban_ops_intelligence_p.Dq.Vocabulary.{Expected, scalar, listed, Rule}
use urban_ops_intelligence_p.Dq.Comparators.{
  Numbers, single, between, point_change, change, compared, evaluate,
}
use urban_ops_intelligence_p.Dq.Rules.{fits_comparator}
use urban_ops_intelligence_p.Dq.Loaded.{Fits}

-- A value that `float` reads, or a list of such values.
abbrev pub Numeric : {F : Type 0} → Expected F → Type 0
Numeric (scalar v) = is_some v ≡ true
Numeric (listed vs) = All (λ v. is_some v ≡ true) vs

-- The check has an outcome.
abbrev pub Answers : Result Bool → Type 0
Answers r = (b : Bool) × (r ≡ ok b)

Answers-if :
    (b : Bool) (r s : Result Bool)
    → (b ≡ true → Answers r)
    → (b ≡ false → Answers s)
    → Answers (if b then r else s)
Answers-if true r s h k = h refl
Answers-if false r s h k = k refl

module _ (N : Numbers) where
  -- A comparison with one number.
  single-ok :
      (comparator : Text) (e : Expected N.F)
      → fits_comparator comparator e ≡ true
      → text_eq comparator (codes "between") ≡ false
      → Numeric e
      → (v : N.F) × (single N e ≡ ok v)
  single-ok c (scalar (some v)) fits other numeric = (v, refl)
  single-ok c (scalar none) fits other numeric = cc
  single-ok c (listed (low ∷ high ∷ [])) fits other numeric = cc
  single-ok c (listed []) fits other numeric = cc
  single-ok c (listed (low ∷ [])) fits other numeric = cc
  single-ok c (listed (low ∷ mid ∷ high ∷ vs)) fits other numeric = cc

  single-Answers :
      (comparator : Text) (e : Expected N.F) (test : N.F → Bool)
      → fits_comparator comparator e ≡ true
      → text_eq comparator (codes "between") ≡ false
      → Numeric e
      → Answers (single N e >>= λ v. ok (test v))
  single-Answers c e test fits other numeric =
      let (v, found) = single-ok c e fits other numeric in rw found (test v, refl)

  between-Answers :
      (x : N.F) (comparator : Text) (e : Expected N.F)
      → fits_comparator comparator e ≡ true
      → text_eq comparator (codes "between") ≡ true
      → Numeric e
      → Answers (between N x e)
  between-Answers x c (listed (some low ∷ some high ∷ [])) fits same numeric =
      Answers-if (N.le low x) _ _ (λ _. (N.le x high, refl)) (λ _. (false, refl))
  between-Answers x c (listed (none ∷ high ∷ [])) fits same numeric = cc
  between-Answers x c (listed (some low ∷ none ∷ [])) fits same numeric = cc
  between-Answers x c (scalar v) fits same numeric = ground arith
  between-Answers x c (listed []) fits same numeric = cc
  between-Answers x c (listed (low ∷ [])) fits same numeric = cc
  between-Answers x c (listed (low ∷ mid ∷ high ∷ vs)) fits same numeric = cc

  -- Of two different texts, at most one is the comparator.
  other_text :
      (c s : Text)
      → text_eq s (codes "between") ≡ false
      → text_eq c s ≡ true
      → text_eq c (codes "between") ≡ false
  other_text c s differ same =
      subst (λ t. text_eq t (codes "between") ≡ false) (sym (text_eq→eq c s same)) differ

  point_change-Answers :
      (c : Text) (e : Expected N.F) (x : N.F) (previous : Option N.F)
      → fits_comparator c e ≡ true
      → text_eq c (codes "between") ≡ false
      → Numeric e
      → Answers (point_change N x previous e)
  point_change-Answers c e x none fits other numeric = (true, refl)
  point_change-Answers c e x (some y) fits other numeric =
      single-Answers c e (λ v. N.le (N.distance x y) v) fits other numeric

  change-Answers :
      (c : Text) (e : Expected N.F) (x : N.F) (previous : Option N.F)
      → fits_comparator c e ≡ true
      → text_eq c (codes "between") ≡ false
      → Numeric e
      → Answers (change N x previous e)
  change-Answers c e x none fits other numeric = (true, refl)
  change-Answers c e x (some y) fits other numeric =
      Answers-if (N.equal y N.zero_number) _ _ (λ _. (N.equal x N.zero_number, refl))
        (λ _. single-Answers c e (λ v. N.le (N.percent_change x y) v) fits other numeric)

  compared-Answers :
      (rule : Rule N.F) (x : N.F) (previous : Option N.F)
      → Fits rule.comparator rule.expected
      → Numeric rule.expected
      → Answers (compared N rule x previous)
  compared-Answers rule x previous (known, fits) numeric =
      Answers-if (text_eq rule.comparator (codes ">=")) _ _
        (λ same.
          single-Answers rule.comparator _ _ fits
            (other_text rule.comparator (codes ">=") refl same) numeric)
        (λ n1.
          Answers-if (text_eq rule.comparator (codes "<=")) _ _
            (λ same.
              single-Answers rule.comparator _ _ fits
                (other_text rule.comparator (codes "<=") refl same) numeric)
            (λ n2.
              Answers-if (text_eq rule.comparator (codes "==")) _ _
                (λ same.
                  single-Answers rule.comparator _ _ fits
                    (other_text rule.comparator (codes "==") refl same) numeric)
                (λ n3.
                  Answers-if (text_eq rule.comparator (codes "between")) _ _
                    (λ same. between-Answers x rule.comparator _ fits same numeric)
                    (λ n4.
                      Answers-if (text_eq rule.comparator (codes "pct_point_change")) _ _
                        (λ same.
                          point_change-Answers rule.comparator rule.expected x previous fits n4
                            numeric)
                        (λ n5.
                          Answers-if (text_eq rule.comparator (codes "pct_change")) _ _
                            (λ same.
                              change-Answers rule.comparator rule.expected x previous fits n4
                                numeric)
                            (λ n6. ground arith))))))

  pub evaluate-Answers :
      (rule : Rule N.F) (observed previous : Option N.F)
      → Fits rule.comparator rule.expected
      → Numeric rule.expected
      → Answers (evaluate N rule observed previous)
  unfolding evaluate
  evaluate-Answers rule none previous fits numeric = (false, refl)
  evaluate-Answers rule (some x) previous fits numeric =
      compared-Answers rule x previous fits numeric
