-- ===== src/Dq/Runs.antt =====
-- scripts/dq/run_audit.py: an audit of rules that were loaded returns.
use urban_ops_intelligence_p.Prelude.{
  ◌≡◌, refl, Bool, false, Option, List, [], ◌∷◌, Text, map, keep, All, All-append, ok, Bool-cases,
  inl, inr,
}
use urban_ops_intelligence_p.Dq.Vocabulary.{Rule, RawRule, runs_on}
use urban_ops_intelligence_p.Dq.Comparators.{Numbers}
use urban_ops_intelligence_p.Dq.Rules.{load_rules}
use urban_ops_intelligence_p.Dq.Loaded.{Fits, has_repeat, load_rules-parts}
use urban_ops_intelligence_p.Dq.Answers.{Numeric, evaluate-Answers}
use urban_ops_intelligence_p.Dq.Audit.{
  Measured, measured, could_not_run, Observation, observed_tables, expand, on_cadence, logged,
  audit_loop, audit,
}

-- A check that evaluates on whatever it observes.
abbrev Usable : {F : Type 0} → Rule F → Type 0
Usable rule = Fits rule.comparator rule.expected × Numeric rule.expected

-- The rule and the table, of a row and of what it was asked for.
abbrev pub row_key : {F : Type 0} → Observation F → Text × Text
row_key row = (row.rule_id, row.table_name)

abbrev pub pair_key : {F : Type 0} → Rule F × Text → Text × Text
pair_key pair = (pair.0.id, pair.1)

module _ {F : Type 0} where
  abbrev UsablePair : Rule F × Text → Type 0
  UsablePair pair = Usable pair.0

  same_rule :
      (rule : Rule F) (ts : List Text) → Usable rule → All UsablePair (map (λ t. (rule, t)) ts)
  same_rule rule [] h = tt
  same_rule rule (t ∷ ts) h = (h, same_rule rule ts h)

  expand-Usable :
      (rules : List (Rule F))
      → All (λ r. Fits r.comparator r.expected) rules
      → All (λ r. Numeric r.expected) rules
      → All UsablePair (expand rules)
  unfolding expand
  expand-Usable [] h k = tt
  expand-Usable (rule ∷ rules) h k =
      All-append UsablePair (map (λ t. (rule, t)) (observed_tables rule)) (expand rules)
        (same_rule rule (observed_tables rule) (h.0, k.0)) (expand-Usable rules h.1 k.1)

  keep-Usable :
      (p : Rule F × Text → Bool) (pairs : List (Rule F × Text))
      → All UsablePair pairs
      → All UsablePair (keep p pairs)
  keep-Usable p [] h = tt
  keep-Usable p (pair ∷ pairs) h = elim (Bool-cases (p pair)) [
    | inl taken ↦ rw taken (h.0, keep-Usable p pairs h.1)
    | inr left ↦ rw left (keep-Usable p pairs h.1)
  ]

module _ (N : Numbers) (run_check : Rule N.F → Text → Measured N.F)
    (previous : Text → Text → Option N.F) where
  logged-returns :
      (run_id cadence : Text) (rule : Rule N.F) (table : Text) (m : Measured N.F)
      → Usable rule
      → (row : Observation N.F) × (logged N run_check previous run_id cadence rule table m ≡ ok row)
        × (row_key row ≡ pair_key (rule, table))
  logged-returns run_id cadence rule table (could_not_run message) h = (_, refl, refl)
  logged-returns run_id cadence rule table (measured observed checked failed) h =
      let (b, e) = evaluate-Answers N rule observed (previous rule.id table) h.0 h.1 in
      rw e (_, refl, refl)

  audit_loop-returns :
      (run_id cadence : Text) (pairs : List (Rule N.F × Text))
      → All UsablePair pairs
      → (rows : List (Observation N.F)) × (audit_loop N run_check previous run_id cadence pairs
          ≡ ok rows)
        × (map row_key rows ≡ map pair_key pairs)
  unfolding audit_loop
  audit_loop-returns run_id cadence [] h = ([], refl, refl)
  audit_loop-returns run_id cadence (pair ∷ pairs) h =
      let (row, e1, k1) =
        logged-returns run_id cadence pair.0 pair.1 (run_check pair.0 pair.1) h.0 in
      let (rows, e2, k2) = audit_loop-returns run_id cadence pairs h.1 in
      (row ∷ rows, rw e1 (rw e2 refl), λ i. k1 i ∷ k2 i)

  -- Rules that load have ids of their own, and if each of their expected values is a number or a list of numbers, then the audit of them returns whatever the checks measure and whatever was observed before, with one row, in their order, for each rule and table that the cadence selects.
  pub load_rules-audit :
      (find_silver : Text → List Text) (raws : List (RawRule N.F)) (rules : List (Rule N.F))
      (run_id cadence : Text)
      → load_rules find_silver raws ≡ ok rules
      → All (λ r. Numeric r.expected) rules
      → (has_repeat [] (map (λ r. r.id) rules) ≡ false)
        × (rows : List (Observation N.F)) × (audit N run_check previous run_id cadence rules
            ≡ ok rows)
        × (map row_key rows ≡ map pair_key (on_cadence N run_check previous cadence (expand rules)))
  unfolding audit
  load_rules-audit find_silver raws rules run_id cadence h numeric =
      let (fits, n, distinct) = load_rules-parts find_silver raws rules h in
      let usable =
        keep-Usable (λ pair. runs_on pair.0 cadence) (expand rules)
          (expand-Usable rules fits numeric) in
      let (rows, e, k) =
        audit_loop-returns run_id cadence (on_cadence N run_check previous cadence (expand rules))
          usable in
      (distinct, rows, e, k)
