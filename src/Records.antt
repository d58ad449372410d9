-- ===== src/Records.antt =====
-- Raw records, as `json` reads them: dictionaries with text keys, in the order of their keys.
use urban_ops_intelligence_p.Prelude.{Bool, not, List, Text, is_empty}

-- What the code observes of a value: a text, or the truth and the `str()` of any other value.
pub data Value : Type 0 where
  text : Text → Value
  other : Bool → Text → Value

abbrev pub Record : Type 0
Record = List (Text × Value)

-- `bool(v)`
abbrev pub is_truthy : Value → Bool
is_truthy (text t) = not (is_empty t)
is_truthy (other b shown) = b

-- `str(v)`
abbrev pub str : Value → Text
str (text t) = t
str (other b shown) = shown
