-- ===== src/Dq/Loaded.antt =====
-- scripts/dq/rules.py: what holds of every rule that the loader returns.
use urban_ops_intelligence_p.Prelude.{
  suc, ◌≡◌, refl, Bool-cases, inl, inr, Bool, true, false, ◌||◌, List, [], ◌∷◌, Text, codes,
  text_eq, any, All, map, length, dq_rule_error, Result, ok, err, ◌>>=◌, bind-ok, subst, arith,
  Bool-cases, inl, inr, ap,
}
use urban_ops_intelligence_p.Dq.Vocabulary.{
  layers, dimensions, severities, cadences, comparators, Expected, RawRule, Rule,
}
use urban_ops_intelligence_p.Dq.Rules.{
  required, one_of, fits_comparator, validated_expected, validated_check, validate, validate_each,
  distinct_ids, load_rules,
}

-- No id occurs in the list, and none twice.
abbrev pub has_repeat : List Text → List Text → Bool
has_repeat seen [] = false
has_repeat seen (t ∷ ts) = any (text_eq t) seen || has_repeat (t ∷ seen) ts

-- The comparator is known, and the expected value has the shape that it reads.
abbrev pub Fits : {F : Type 0} → Text → Expected F → Type 0
Fits comparator expected =
    (any (text_eq comparator) comparators ≡ true) × (fits_comparator comparator expected ≡ true)

validated_expected-Fits :
    {F : Type 0} (id check_type : Text) (raw : RawRule F) (c : Text) (e : Expected F)
    → validated_expected id check_type raw ≡ ok (c, e)
    → Fits c e
unfolding validated_expected
validated_expected-Fits id check_type raw c e h = ground arith

-- What is returned, if anything is, satisfies the predicate.
abbrev Ensures {ℓ κ} : {A : Type ℓ} → (A → Type κ) → Result A → Type κ
Ensures P (ok a) = P a
Ensures P (err e) = Unit

-- A step whose result the rest does not need to know about.
after {ℓ κ η} :
    {A : Type ℓ} {B : Type κ} (P : B → Type η) (x : Result A) (f : A → Result B)
    → ((a : A) → x ≡ ok a → Ensures P (f a))
    → Ensures P (x >>= f)
after P (ok a) f h = h a refl
after P (err e) f h = tt

returned {ℓ κ} : {A : Type ℓ} (P : A → Type κ) (x : Result A) (a : A) → Ensures P x → x ≡ ok a → P a
returned P (ok b) a h e = let same : b ≡ a = cc in subst P same h
returned P (err x) a h e = cc

module _ (find_silver : Text → List Text) {F : Type 0} where
  abbrev pub RuleFits : Rule F → Type 0
  RuleFits rule = Fits rule.comparator rule.expected

  validate-Fits : (raw : RawRule F) → Ensures RuleFits (validate find_silver raw)
  unfolding validate
  validate-Fits raw = after RuleFits (required raw.id (dq_rule_error [] (codes "id"))) _ (λ id _.
      after RuleFits (one_of raw.layer layers (dq_rule_error id (codes "layer"))) _ (λ layer _.
        after RuleFits (one_of raw.dimension dimensions (dq_rule_error id (codes "dimension"))) _
          (λ dimension _.
            after RuleFits (one_of raw.severity severities (dq_rule_error id (codes "severity"))) _
              (λ severity _.
                after RuleFits (one_of raw.cadence cadences (dq_rule_error id (codes "cadence"))) _
                  (λ cadence _.
                    after RuleFits (validated_check find_silver id dimension raw) _ (λ check _.
                      after RuleFits (validated_expected id check.type raw) _ (λ comparison e.
                        validated_expected-Fits id check.type raw comparison.0 comparison.1 e)))))))

  validate_each-Fits :
      (raws : List (RawRule F)) (rules : List (Rule F))
      → validate_each find_silver raws ≡ ok rules
      → All RuleFits rules × (length rules ≡ length raws)
  unfolding validate_each
  validate_each-Fits [] [] h = (tt, refl)
  validate_each-Fits [] (rule ∷ rules) h = cc
  validate_each-Fits (raw ∷ raws) rules h =
      let (rule, first, h1) =
        bind-ok (validate find_silver raw)
          (λ r. validate_each find_silver raws >>= λ rs. ok (r ∷ rs)) rules h in
      let (rest, later, e) =
        bind-ok (validate_each find_silver raws) (λ rs. ok (rule ∷ rs)) rules h1 in
      let (fit, n) = validate_each-Fits raws rest later in
      let whole : rule ∷ rest ≡ rules = cc in
      subst (λ rs. All RuleFits rs × (length rs ≡ suc (length raws))) whole
        ((returned RuleFits _ rule (validate-Fits raw) first, fit), ap suc n)

  distinct_ids_lem :
      (seen : List Text) (rules : List (Rule F)) (u : Unit {0})
      → distinct_ids seen rules ≡ ok u
      → has_repeat seen (map (λ r. r.id) rules) ≡ false
  unfolding distinct_ids
  distinct_ids_lem seen [] u h = refl
  distinct_ids_lem seen (rule ∷ rules) u h = elim (Bool-cases (any (text_eq rule.id) seen)) [
    | inl taken ↦ let k : err _ ≡ ok u = rw taken at h in cc
    | inr fresh ↦
        let k : distinct_ids (rule.id ∷ seen) rules ≡ ok u = rw fresh at h in
        rw fresh (distinct_ids_lem (rule.id ∷ seen) rules u k)
  ]

  pub load_rules-parts :
      (raws : List (RawRule F)) (rules : List (Rule F))
      → load_rules find_silver raws ≡ ok rules
      → All RuleFits rules
        × (length rules ≡ length raws)
        × (has_repeat [] (map (λ r. r.id) rules) ≡ false)
  unfolding load_rules
  load_rules-parts [] rules h = cc
  load_rules-parts (raw ∷ raws) rules h =
      let (found, each, h1) =
        bind-ok (validate_each find_silver (raw ∷ raws)) (λ rs. distinct_ids [] rs >>= λ _. ok rs)
          rules h in
      let (u, distinct, e) = bind-ok (distinct_ids [] found) (λ _. ok found) rules h1 in
      let same : found ≡ rules = cc in
      let (fits, n) = validate_each-Fits (raw ∷ raws) found each in
      subst
        (λ rs.
          All RuleFits rs
          × (length rs ≡ suc (length raws))
          × (has_repeat [] (map (λ r. r.id) rs) ≡ false))
        same (fits, n, distinct_ids_lem [] found u distinct)
