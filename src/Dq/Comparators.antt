-- ===== src/Dq/Comparators.antt =====
-- scripts/dq/rules.py: what the comparators of a rule say of an observation.
use urban_ops_intelligence_p.Prelude.{
  Bool, true, false, Option, none, some, [], ◌∷◌, if◌then◌else◌, codes, text_eq, dq_rule_error,
  not_a_number, Result, ok, err, ◌>>=◌,
}
use urban_ops_intelligence_p.Dq.Vocabulary.{Expected, scalar, listed, Rule}

-- Python's floats, with the operations of the comparators.
pub record Numbers : Type 1 where
  pub F : Type 0
  pub le : F → F → Bool
  pub equal : F → F → Bool
  pub zero_number : F
  pub distance : F → F → F
  pub percent_change : F → F → F

-- `float(v)`
abbrev pub to_float : {F : Type 0} → Option F → Result F
to_float none = err not_a_number
to_float (some x) = ok x

module _ (N : Numbers) where
  abbrev pub single : Expected N.F → Result N.F
  single (scalar v) = to_float v
  single (listed vs) = err not_a_number

  abbrev pub between : N.F → Expected N.F → Result Bool
  between x (listed (low ∷ high ∷ [])) =
      to_float low >>= λ l. if N.le l x then (to_float high >>= λ h. ok (N.le x h)) else ok false
  between x _ = err not_a_number

  abbrev pub point_change : N.F → Option N.F → Expected N.F → Result Bool
  point_change x none expected = ok true
  point_change x (some y) expected = single expected >>= λ e. ok (N.le (N.distance x y) e)

  abbrev pub change : N.F → Option N.F → Expected N.F → Result Bool
  change x none expected = ok true
  change x (some y) expected =
      if N.equal y N.zero_number
      then ok (N.equal x N.zero_number)
      else (single expected >>= λ e. ok (N.le (N.percent_change x y) e))

  abbrev pub compared : Rule N.F → N.F → Option N.F → Result Bool
  compared rule x previous =
      if text_eq rule.comparator (codes ">=")
      then (single rule.expected >>= λ e. ok (N.le e x))
      else if text_eq rule.comparator (codes "<=")
      then (single rule.expected >>= λ e. ok (N.le x e))
      else if text_eq rule.comparator (codes "==")
      then (single rule.expected >>= λ e. ok (N.equal x e))
      else if text_eq rule.comparator (codes "between")
      then between x rule.expected
      else if text_eq rule.comparator (codes "pct_point_change")
      then point_change x previous rule.expected
      else if text_eq rule.comparator (codes "pct_change")
      then change x previous rule.expected
      else err (dq_rule_error rule.id rule.comparator)

  -- `evaluate`: `percent_change x y` is the size of the change from `y`.
  unfoldable pub evaluate : Rule N.F → Option N.F → Option N.F → Result Bool
  evaluate rule none previous = ok false
  evaluate rule (some x) previous = compared rule x previous
