-- ===== src/Dq/Vocabulary.antt =====
-- scripts/dq/rules.py: the words a rule may use, and rules before and after their validation.
use urban_ops_intelligence_p.Prelude.{
  ℕ, Bool, true, ◌||◌, Option, List, [], ◌∷◌, if◌then◌else◌, Text, codes, text_eq,
}

abbrev pub layers : List Text
layers = codes "bronze" ∷ codes "silver" ∷ codes "gold" ∷ []

abbrev pub dimensions : List Text
dimensions = codes "structural" ∷ codes "statistical" ∷ codes "business" ∷ codes "cross_layer" ∷ []

abbrev pub severities : List Text
severities = codes "error" ∷ codes "warn" ∷ []

abbrev pub cadences : List Text
cadences = codes "daily" ∷ codes "weekly" ∷ codes "manual" ∷ []

abbrev pub check_types : List Text
check_types =
    codes "ddl_assertions"
    ∷ codes "row_count"
    ∷ codes "null_rate"
    ∷ codes "empty_tables"
    ∷ codes "all_null_columns"
    ∷ codes "partition_freshness"
    ∷ codes "sql"
    ∷ codes "bronze_manifest_sum"
    ∷ codes "chunked_sql"
    ∷ []

abbrev pub cross_layer_check_types : List Text
cross_layer_check_types = codes "bronze_manifest_sum" ∷ codes "chunked_sql" ∷ codes "sql" ∷ []

abbrev pub comparators : List Text
comparators =
    codes ">="
    ∷ codes "<="
    ∷ codes "=="
    ∷ codes "between"
    ∷ codes "pct_change"
    ∷ codes "pct_point_change"
    ∷ []

-- A check: its type, the texts of its entries, and `chunk_range` where that is two whole numbers.
pub record Check : Type 0 where
  pub type : Text
  pub entries : List (Text × Text)
  pub chunk_range : Option (ℕ × ℕ)

-- An expected value, as `float` reads it: `none` for what is no number.
pub data Expected (F : Type 0) : Type 0 where
  scalar : Option F → Expected F
  listed : List (Option F) → Expected F

-- A rule as the YAML has it, `none` for a missing entry. A check that is no mapping, or that has no
-- type, is missing.
pub record RawRule (F : Type 0) : Type 0 where
  pub id : Option Text
  pub layer : Option Text
  pub table : Option Text
  pub dimension : Option Text
  pub check : Option Check
  pub comparator : Option Text
  pub expected : Option (Expected F)
  pub severity : Option Text
  pub cadence : Option Text

pub record Rule (F : Type 0) : Type 0 where
  pub id : Text
  pub layer : Text
  pub table : Text
  pub dimension : Text
  pub check : Check
  pub comparator : Text
  pub expected : Expected F
  pub severity : Text
  pub cadence : Text

-- `runs_on`
unfoldable pub runs_on : {F : Type 0} → Rule F → Text → Bool
runs_on rule cadence =
    if text_eq cadence (codes "manual")
    then true
    else if text_eq cadence (codes "weekly")
    then text_eq rule.cadence (codes "daily") || text_eq rule.cadence (codes "weekly")
    else text_eq rule.cadence (codes "daily")
