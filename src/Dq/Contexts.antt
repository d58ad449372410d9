-- ===== src/Dq/Contexts.antt =====
-- scripts/dq/run_audit.py: what the checks of the audit ask, and what they read of their rules.
use urban_ops_intelligence_p.Prelude.{
  ℕ, ◌+◌, ◌-◌, ◌&&◌, Option, none, some, List, [], ◌∷◌, ◌==◌, ltb, if◌then◌else◌, Text, codes,
  text_eq, keep, map, lookup,
}
use urban_ops_intelligence_p.Calendar.{Date}
use urban_ops_intelligence_p.Dq.Vocabulary.{Check, Rule}
use urban_ops_intelligence_p.Dq.Audit.{Measured, could_not_run}
use urban_ops_intelligence_p.Gold.Selects.{year_bounds, years_from}

-- What a query brings: a value, or the text of its exception, which `run_check` turns into its own.
pub data Answer (A : Type 0) : Type 0 where
  answer : A → Answer A
  failed : Text → Answer A

abbrev pub on_answer : {F A : Type 0} → Answer A → (A → Measured F) → Measured F
on_answer (answer a) f = f a
on_answer (failed e) f = could_not_run e

-- The report of one table: its rows, and the nulls of each column.
pub record Profile : Type 0 where
  pub rows : ℕ
  pub nulls : List (Text × ℕ)

-- `all_null`
abbrev pub all_null : Profile → List (Text × ℕ)
all_null report = keep (λ c. (c.1 == report.rows) && ltb 0 report.rows) report.nulls

-- What the checks ask: the counts of violations of a table's assertions, its profile, the age in days
-- of the newest partition, the first row of a query, the single value of a count, and the arithmetic of
-- floats.
pub record Context (F : Type 0) : Type 0 where
  pub silver_schema : Text
  pub bucket : Text
  pub window_start : Date
  pub window_end : Date
  pub trimmed_today : Date
  pub violations : Text → Answer (List ℕ)
  pub profile_of : Text → Answer Profile
  pub partition_age : Text → Text → Answer (Option F)
  pub first_row : Text → Answer (Option (Option F × Option ℕ))
  pub silver_count : Text → Answer (Option ℕ)
  pub of_count : ℕ → F
  pub difference : ℕ → ℕ → F
  pub plus : F → F → F
  pub percent : ℕ → ℕ → F

abbrev pub sum_of : List ℕ → ℕ
sum_of [] = 0
sum_of (n ∷ ns) = n + sum_of ns

abbrev pub on_entry : {F : Type 0} → Text → Option Text → (Text → Measured F) → Measured F
on_entry field none f = could_not_run field
on_entry field (some v) f = f v

-- `rule.check[field]`, where a missing entry raises
abbrev pub with_entry : {F : Type 0} → Check → Text → (Text → Measured F) → Measured F
with_entry check field f = on_entry field (lookup field check.entries) f

-- `_listed_null_columns`
abbrev pub listed_columns : {F : Type 0} → List (Rule F) → List (Text × Text)
listed_columns [] = []
listed_columns (rule ∷ rules) =
    own (lookup (codes "column") rule.check.entries) (listed_columns rules)
  where
    own : Option Text → List (Text × Text) → List (Text × Text)
    own none later = later
    own (some column) later =
        if text_eq rule.check.type (codes "null_rate") then (rule.table, column) ∷ later else later

-- `_chunk_bounds`
abbrev pub chunk_bounds : ℕ × ℕ → List (Text × Text)
chunk_bounds range = map year_bounds (years_from range.0 (range.1 - range.0))

abbrev pub nonzero : ℕ → Option ℕ
nonzero n = if n == 0 then none else some n

abbrev pub or_zero : Option ℕ → ℕ
or_zero none = 0
or_zero (some n) = n
