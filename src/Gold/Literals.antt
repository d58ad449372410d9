-- ===== src/Gold/Literals.antt =====
-- scripts/gold/build_gold.py: the cells of a CSV file as literals of Trino's SQL.
use urban_ops_intelligence_p.Prelude.{
  ℕ, Bool, ◌||◌, List, [], ◌∷◌, ◌++◌, ◌==◌, if◌then◌else◌, Text, codes, text_eq, is_empty, any,
  no_literal, Result, ok, err,
}
use urban_ops_intelligence_p.Strings.{strip, upper, lower, starts_with}

abbrev pub quote : ℕ
quote = 39

-- `text.replace("'", "''")`
abbrev pub doubled : Text → Text
doubled [] = []
doubled (c ∷ t) = let rest = doubled t in if c == quote then quote ∷ quote ∷ rest else c ∷ rest

-- `"'" + text + "'"`
abbrev pub quoted : Text → Text
quoted t = quote ∷ (t ++ (quote ∷ []))

abbrev begins_with_any : List Text → Text → Bool
begins_with_any starts t = any (λ s. starts_with s t) starts

-- Whether `float(text)` returns is for Python's float to say.
module _ (is_number : Text → Bool) where
  abbrev pub literal_of : Text → Text → Result Text
  literal_of text type =
      if is_empty text
      then ok (codes "NULL")
      else if begins_with_any (codes "VARCHAR" ∷ codes "CHAR" ∷ []) type
      then ok (quoted (doubled text))
      else if starts_with (codes "BOOLEAN") type
      then (if text_eq (lower text) (codes "true") || text_eq (lower text) (codes "false")
          then ok (lower text)
          else err (no_literal text type))
      else if begins_with_any
          (codes "INTEGER" ∷ codes "BIGINT" ∷ codes "DOUBLE" ∷ codes "REAL" ∷ codes "DECIMAL" ∷ [])
          type
      then (if is_number text then ok text else err (no_literal text type))
      else if starts_with (codes "DATE") type
      then ok (codes "DATE " ++ quoted text)
      else if starts_with (codes "TIMESTAMP") type
      then ok (codes "TIMESTAMP " ++ quoted text)
      else err (no_literal text type)

  -- `sql_literal`
  unfoldable pub sql_literal : Text → Text → Result Text
  sql_literal value sql_type = literal_of (strip value) (upper sql_type)
