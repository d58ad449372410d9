-- ===== src/Dq/Rules.antt =====
-- scripts/dq/rules.py: the validation of the rules of the audit.
use urban_ops_intelligence_p.Prelude.{
  ℕ, Bool, true, false, not, ◌||◌, ◌&&◌, Option, none, some, List, [], ◌∷◌, if◌then◌else◌, Text,
  codes, text_eq, ltb, is_some, is_empty, any, lookup, Exception, dq_rule_error, Result, ok, err,
  ◌>>=◌,
}
use urban_ops_intelligence_p.Strings.{strip, contains}
use urban_ops_intelligence_p.Dq.Vocabulary.{
  layers, dimensions, severities, cadences, check_types, cross_layer_check_types, comparators,
  Check, Expected, scalar, listed, RawRule, Rule,
}

-- `_require`
abbrev pub required {ℓ} : {A : Type ℓ} → Option A → Exception → Result A
required none e = err e
required (some a) e = ok a

-- A check that raises.
abbrev pub guard : Bool → Exception → Result (Unit {0})
guard true e = ok tt
guard false e = err e

-- `str(_require(raw, field))`, one of the allowed values
abbrev pub one_of : Option Text → List Text → Exception → Result Text
one_of none allowed e = err e
one_of (some t) allowed e = if any (text_eq t) allowed then ok t else err e

abbrev pub or_blank : Option Text → Text
or_blank none = []
or_blank (some t) = t

abbrev pub or_star : Option Text → Text
or_star none = codes "*"
or_star (some t) = t

-- `_validate_sql`, over the references that its pattern finds
abbrev sql_targets : Text → Text → List Text → Result (Unit {0})
sql_targets rule_id sql [] = ok tt
sql_targets rule_id sql (target ∷ rest) =
    let later = sql_targets rule_id sql rest in
    guard (contains (codes "{{ silver }}.") (strip target)) (dq_rule_error rule_id target) >>= λ _.
    guard (contains (codes "open_date_local") sql) (dq_rule_error rule_id sql) >>= λ _. later

abbrev nonempty_range : Option (ℕ × ℕ) → Bool
nonempty_range none = false
nonempty_range (some (first, last)) = ltb first last

-- `_validate_chunked`
unfoldable pub validate_chunked : Text → Check → Result (Unit {0})
validate_chunked rule_id check =
    guard (text_eq (or_blank (lookup (codes "chunk_by") check.entries)) (codes "calendar_year"))
      (dq_rule_error rule_id (codes "chunk_by"))
    >>= λ _.
        guard (text_eq (or_blank (lookup (codes "combine") check.entries)) (codes "additive"))
          (dq_rule_error rule_id (codes "combine"))
        >>= λ _.
            guard (nonempty_range check.chunk_range) (dq_rule_error rule_id (codes "chunk_range"))
            >>= λ _.
                guard
                  (contains (codes "{chunk_start}") (or_blank (lookup (codes "sql") check.entries))
                    && contains (codes "{chunk_end}")
                        (or_blank (lookup (codes "sql") check.entries)))
                  (dq_rule_error rule_id (codes "sql"))

abbrev has : Check → Text → Bool
has check field = is_some (lookup field check.entries)

abbrev pub fits_comparator : {F : Type 0} → Text → Expected F → Bool
fits_comparator comparator (scalar v) = not (text_eq comparator (codes "between"))
fits_comparator comparator (listed (low ∷ high ∷ [])) = text_eq comparator (codes "between")
fits_comparator comparator (listed vs) = false

-- The comparator of a rule, and the value that it compares with.
unfoldable pub validated_expected :
    {F : Type 0} → Text → Text → RawRule F → Result (Text × Expected F)
validated_expected id check_type raw =
    one_of raw.comparator comparators (dq_rule_error id (codes "comparator")) >>= λ comparator.
    required raw.expected (dq_rule_error id (codes "expected")) >>= λ expected.
    guard (fits_comparator comparator expected) (dq_rule_error id comparator) >>= λ _.
    guard (not (text_eq check_type (codes "row_count") && text_eq comparator (codes "==")))
      (dq_rule_error id check_type)
    >>= λ _. ok (comparator, expected)

-- The loop over the ids.
unfoldable pub distinct_ids : {F : Type 0} → List Text → List (Rule F) → Result (Unit {0})
distinct_ids seen [] = ok tt
distinct_ids seen (rule ∷ rest) =
    let later = distinct_ids (rule.id ∷ seen) rest in
    guard (not (any (text_eq rule.id) seen)) (dq_rule_error rule.id (codes "duplicate")) >>= λ _.
    later

-- The regular expression for references to Silver is that of Python's `re`.
module _ (find_silver : Text → List Text) where
  -- What a check of each type must carry.
  unfoldable pub validate_check : Text → Check → Result (Unit {0})
  validate_check rule_id check =
      (if text_eq check.type (codes "sql") || text_eq check.type (codes "chunked_sql")
        then (required (lookup (codes "sql") check.entries) (dq_rule_error rule_id (codes "sql"))
            >>= λ sql. sql_targets rule_id sql (find_silver sql))
        else ok tt)
      >>= λ _.
          (if text_eq check.type (codes "chunked_sql")
            then validate_chunked rule_id check
            else ok tt)
          >>= λ _.
              guard
                (not (text_eq check.type (codes "bronze_manifest_sum"))
                  || (has check (codes "source_id")
                      && has check (codes "dataset")
                      && has check (codes "silver_table")
                      && has check (codes "silver_date_column")))
                (dq_rule_error rule_id check.type)

  -- The check of a rule, in its dimension.
  unfoldable pub validated_check : {F : Type 0} → Text → Text → RawRule F → Result Check
  validated_check id dimension raw =
      required raw.check (dq_rule_error id (codes "check")) >>= λ check.
      guard (any (text_eq check.type) check_types) (dq_rule_error id check.type) >>= λ _.
      validate_check id check >>= λ _.
      guard
        (not (text_eq dimension (codes "cross_layer"))
          || any (text_eq check.type) cross_layer_check_types)
        (dq_rule_error id dimension)
      >>= λ _. ok check

  -- `_validate`
  unfoldable pub validate : {F : Type 0} → RawRule F → Result (Rule F)
  validate raw = required raw.id (dq_rule_error [] (codes "id")) >>= λ id.
      one_of raw.layer layers (dq_rule_error id (codes "layer")) >>= λ layer.
      one_of raw.dimension dimensions (dq_rule_error id (codes "dimension")) >>= λ dimension.
      one_of raw.severity severities (dq_rule_error id (codes "severity")) >>= λ severity.
      one_of raw.cadence cadences (dq_rule_error id (codes "cadence")) >>= λ cadence.
      validated_check id dimension raw >>= λ check.
      validated_expected id check.type raw >>= λ comparison. ok (record {
        id = id;
        layer = layer;
        table = or_star raw.table;
        dimension = dimension;
        check = check;
        comparator = comparison.0;
        expected = comparison.1;
        severity = severity;
        cadence = cadence;
      })

  unfoldable pub validate_each : {F : Type 0} → List (RawRule F) → Result (List (Rule F))
  validate_each [] = ok []
  validate_each (raw ∷ rest) =
      let later = validate_each rest in
      validate raw >>= λ rule. later >>= λ rules. ok (rule ∷ rules)

  -- `load_rules`, on the list of the document
  unfoldable pub load_rules : {F : Type 0} → List (RawRule F) → Result (List (Rule F))
  load_rules raw_rules =
      if is_empty raw_rules
      then err (dq_rule_error [] (codes "rules"))
      else validate_each raw_rules >>= λ rules. distinct_ids [] rules >>= λ _. ok rules
