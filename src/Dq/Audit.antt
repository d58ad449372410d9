-- ===== src/Dq/Audit.antt =====
-- scripts/dq/run_audit.py: the run of the audit, for any function that measures a check.
use urban_ops_intelligence_p.Prelude.{
  ℕ, Bool, false, not, ◌||◌, Option, none, some, List, [], ◌∷◌, ◌++◌, if◌then◌else◌, Text, codes,
  text_eq, map, keep, Result, ok, ◌>>=◌,
}
use urban_ops_intelligence_p.Dq.Vocabulary.{Rule, runs_on}
use urban_ops_intelligence_p.Dq.Comparators.{Numbers, evaluate}
use urban_ops_intelligence_p.Gold.Tables.{tables}

-- What `run_check` returns, or the text of the `CheckError` that it raises.
pub data Measured (F : Type 0) : Type 0 where
  measured : Option F → Option ℕ → Option ℕ → Measured F
  could_not_run : Text → Measured F

-- A row of the log, without the times and without the expected value as a text.
pub record Observation (F : Type 0) : Type 0 where
  pub run_id : Text
  pub cadence : Text
  pub layer : Text
  pub table_name : Text
  pub rule_id : Text
  pub dimension : Text
  pub severity : Text
  pub observed : Option F
  pub comparator : Text
  pub passed : Bool
  pub previous_observed : Option F
  pub rows_checked : Option ℕ
  pub rows_failed : Option ℕ
  pub error_text : Option Text

-- `expand`: the rules with the tables they observe.
abbrev pub observed_tables : {F : Type 0} → Rule F → List Text
observed_tables rule =
    if not (text_eq rule.table (codes "*"))
    then rule.table ∷ []
    else if text_eq rule.check.type (codes "empty_tables")
        || text_eq rule.check.type (codes "all_null_columns")
    then codes "*" ∷ []
    else map (λ t. t.name) tables

unfoldable pub expand : {F : Type 0} → List (Rule F) → List (Rule F × Text)
expand [] = []
expand (rule ∷ rules) = map (λ t. (rule, t)) (observed_tables rule) ++ expand rules

module _ (N : Numbers) (run_check : Rule N.F → Text → Measured N.F)
    (previous : Text → Text → Option N.F) where
  abbrev observation : Text → Text → Rule N.F → Text → Observation N.F
  observation run_id cadence rule table = record {
    run_id = run_id;
    cadence = cadence;
    layer = rule.layer;
    table_name = table;
    rule_id = rule.id;
    dimension = rule.dimension;
    severity = rule.severity;
    observed = none;
    comparator = rule.comparator;
    passed = false;
    previous_observed = previous rule.id table;
    rows_checked = none;
    rows_failed = none;
    error_text = none;
  }

  -- What is logged of a check; an exception of `evaluate` is not caught.
  abbrev pub logged : Text → Text → Rule N.F → Text → Measured N.F → Result (Observation N.F)
  logged run_id cadence rule table (could_not_run message) =
      ok (record (observation run_id cadence rule table) { error_text = some message })
  logged run_id cadence rule table (measured observed rows_checked rows_failed) =
      evaluate N rule observed (previous rule.id table) >>= λ passed.
      ok (record (observation run_id cadence rule table) {
        observed = observed;
        passed = passed;
        rows_checked = rows_checked;
        rows_failed = rows_failed;
      })

  unfoldable pub audit_loop : Text → Text → List (Rule N.F × Text) → Result (List (Observation N.F))
  audit_loop run_id cadence [] = ok []
  audit_loop run_id cadence (pair ∷ rest) =
      let later = audit_loop run_id cadence rest in
      logged run_id cadence pair.0 pair.1 (run_check pair.0 pair.1) >>= λ row.
      later >>= λ rows. ok (row ∷ rows)

  abbrev pub on_cadence : Text → List (Rule N.F × Text) → List (Rule N.F × Text)
  on_cadence cadence pairs = keep (λ pair. runs_on pair.0 cadence) pairs

  -- `audit`
  unfoldable pub audit : Text → Text → List (Rule N.F) → Result (List (Observation N.F))
  audit run_id cadence rules = audit_loop run_id cadence (on_cadence cadence (expand rules))
