-- ===== src/Ddl/Apply.antt =====
-- scripts/ddl/apply_ddl.py: the settings, and the statements that are sent to Trino.
use urban_ops_intelligence_p.Prelude.{
  ℕ, ◌+◌, not, ◌&&◌, Option, none, some, List, [], ◌∷◌, ◌++◌, ◌==◌, ltb, if◌then◌else◌, Text, codes,
  text_eq, is_empty, map, drop, lookup, trino_config_error, no_smoke_literal, Result, ok, err,
  ◌>>=◌,
}
use urban_ops_intelligence_p.Strings.{strip, strip_right, strip_end, split, join, replace, decimal}
use urban_ops_intelligence_p.Gold.Selects.{normalise_prefix, moved_layer}
use urban_ops_intelligence_p.Ddl.Parser.{DdlColumn, Ddl, Layer, silver, gold, layer_text, index}

abbrev pub layers : List Layer
layers = silver ∷ gold ∷ []

abbrev pub smoke_rows : ℕ
smoke_rows = 2

pub record TrinoSettings : Type 0 where
  pub host : Text
  pub port : ℕ
  pub user : Text
  pub catalog : Text

abbrev pub Environment : Type 0
Environment = List (Text × Text)

-- `value or default`
abbrev or_default : Option Text → Text → Text
or_default none t = t
or_default (some v) t = if is_empty v then t else v

abbrev pub variable : Text → Environment → Text
variable name env = strip (or_default (lookup name env) [])

abbrev if_blank : Text → Text → Text
if_blank v t = if is_empty v then t else v

abbrev with_port : Environment → Text → Option ℕ → Result TrinoSettings
with_port env host none = err (trino_config_error (codes "TRINO_PORT"))
with_port env host (some port) = ok (record {
  host = host;
  port = port;
  user = if_blank (variable (codes "TRINO_USER") env) (codes "uoip");
  catalog = if_blank (variable (codes "TRINO_CATALOG") env) (codes "hive");
})

-- `load_trino_settings`; `int_of` is `int(t)`
unfoldable pub load_trino_settings : (Text → Option ℕ) → Environment → Result TrinoSettings
load_trino_settings int_of env =
    if is_empty (variable (codes "TRINO_HOST") env)
    then err (trino_config_error (codes "TRINO_HOST"))
    else with_port env (variable (codes "TRINO_HOST") env)
        (int_of (strip (or_default (lookup (codes "TRINO_PORT") env) (codes "8080"))))

-- `f"{normalised}/" if normalised else ""`
abbrev pub folder_of : Text → Text
folder_of normalised = if is_empty normalised then [] else normalised ++ codes "/"

-- `storage_location`
unfoldable pub storage_location : Text → Layer → Text → Text → Text
storage_location bucket layer table location_prefix =
    codes "s3a://"
    ++ (bucket
        ++ (codes "/"
            ++ (folder_of (normalise_prefix location_prefix)
                ++ (layer_text layer ++ (codes "/" ++ (table ++ codes "/"))))))

-- `render_ddl`
unfoldable pub render_ddl : Text → Text → Text → Result Text
render_ddl text bucket location_prefix =
    let prefix = normalise_prefix location_prefix in
    let filled = replace (codes "{bucket}") bucket text in
    let rendered =
      if is_empty prefix
      then filled
      else moved_layer bucket prefix (codes "gold")
          (moved_layer bucket prefix (codes "silver") filled) in
    index rendered (codes "CREATE TABLE") >>= λ start.
    ok (strip_end b';' (strip_right (drop start rendered)))

-- `sql_type.split("(")[0]`
abbrev base_type : List Text → Text
base_type [] = []
base_type (base ∷ rest) = base

abbrev literal_of : Text → Text → ℕ → Result Text
literal_of base sql_type row =
    if text_eq base (codes "VARCHAR")
    then ok (codes "'smoke_" ++ (decimal row ++ codes "'"))
    else if text_eq base (codes "INTEGER")
    then ok (decimal (row + 1))
    else if text_eq base (codes "DOUBLE")
    then ok (decimal (row + 1) ++ codes ".0")
    else if text_eq base (codes "BOOLEAN")
    then ok (if row == 0 then codes "TRUE" else codes "FALSE")
    else if text_eq base (codes "DATE")
    then ok (codes "DATE '2026-01-0" ++ (decimal (row + 1) ++ codes "'"))
    else if text_eq base (codes "TIMESTAMP")
    then ok (codes "TIMESTAMP '2026-01-0" ++ (decimal (row + 1) ++ codes " 00:00:00.000000'"))
    else err (no_smoke_literal sql_type)

-- `literal_for`
unfoldable pub literal_for : DdlColumn → ℕ → Result Text
literal_for column row =
    if ltb 0 row && not column.not_null
    then ok (codes "NULL")
    else literal_of (base_type (split b'(' column.sql_type)) column.sql_type row

unfoldable pub row_literals : List DdlColumn → ℕ → Result (List Text)
row_literals [] row = ok []
row_literals (c ∷ cs) row =
    let rest = row_literals cs row in
    literal_for c row >>= λ literal. rest >>= λ literals. ok (literal ∷ literals)

abbrev tuple_text : List Text → Text
tuple_text literals = codes "(" ++ (join (codes ", ") literals ++ codes ")")

-- `insert_statement`
unfoldable pub insert_statement : Ddl → Text → Result Text
insert_statement ddl table = row_literals ddl.columns 0 >>= λ first.
    row_literals ddl.columns 1 >>= λ second. ok (
      codes "INSERT INTO "
      ++ (table
          ++ (codes " ("
              ++ (join (codes ", ") (map (λ c. b'"' ∷ (c.name ++ (b'"' ∷ []))) ddl.columns)
                  ++ (codes ") VALUES "
                      ++ join (codes ", ") (tuple_text first ∷ tuple_text second ∷ []))))))
