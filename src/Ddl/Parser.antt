-- ===== src/Ddl/Parser.antt =====
-- scripts/ddl/ddl_parser.py: what a `CREATE TABLE` statement says of its table.
pub mod Columns
pub mod Lines
use urban_ops_intelligence_p.Prelude.{
  ℕ, zero, suc, ◌+◌, ◌-◌, Bool, true, false, not, ◌||◌, ◌&&◌, Option, none, some, List, [], ◌∷◌,
  ◌++◌, ◌==◌, if◌then◌else◌, Text, codes, text_eq, is_empty, any, keep, map, take, drop,
  substring_missing, no_layer, Result, ok, err, ◌>>=◌,
}
use urban_ops_intelligence_p.Config.{is_space}
use urban_ops_intelligence_p.Strings.{strip, starts_with}
use urban_ops_intelligence_p.Strings.Lines.{split_lines}
use urban_ops_intelligence_p.Ddl.Scan.{
  is_digit, is_upper, is_word, span, index_of, after, after_optional, after_spaces, assigned, until,
  search_in,
}

pub record DdlColumn : Type 0 where
  pub name : Text
  pub sql_type : Text
  pub not_null : Bool

pub record Ddl : Type 0 where
  pub columns : List DdlColumn
  pub partitioned_by : List Text
  pub table : Text
  pub external_location : Text

-- `Ddl.names`
abbrev pub names : Ddl → List Text
names ddl = map (λ c. c.name) ddl.columns

-- `Ddl.data_columns`
unfoldable pub data_columns : Ddl → List DdlColumn
data_columns ddl = keep (λ c. not (any (text_eq c.name) ddl.partitioned_by)) ddl.columns

-- `(\(\d+\))?`, behind the letters of a type
abbrev with_size : Text → Text → Text × Text
with_size base [] = (base, [])
with_size base (c ∷ t) = if c == b'(' then sized (span is_digit t) else (base, c ∷ t)
  where
    closed : Text → Text → Text × Text
    closed digits [] = (base, c ∷ t)
    closed digits (d ∷ u) =
        if (d == b')') && not (is_empty digits)
        then (base ++ (b'(' ∷ (digits ++ (b')' ∷ []))), u)
        else (base, c ∷ t)

    sized : Text × Text → Text × Text
    sized (digits, u) = closed digits u

-- `,?\s*$`, behind the type
abbrev ended : Text → Text × Text → Option (Text × Text)
ended name (sql_type, t) =
    if is_empty (span is_space (after_optional b',' t)).1 then some (name, sql_type) else none

abbrev pub typed : Text → Text × Text → Option (Text × Text)
typed name (base, t) = if is_empty base then none else ended name (with_size base t)

abbrev pub spaced : Text → Text × Text → Option (Text × Text)
spaced name (spaces, t) = if is_empty spaces then none else typed name (span is_upper t)

abbrev named : Text × Text → Option (Text × Text)
named (name, t) =
    if is_empty name then none else spaced name (span is_space (after_optional b'"' t))

-- `_COLUMN_RE.match(line)`: the name and the type
unfoldable pub match_column : Text → Option (Text × Text)
match_column line = elim (after_spaces 4 line) [
  | none ↦ none
  | some t ↦ named (span is_word (after_optional b'"' t))
]

abbrev pub not_null_comment : Text
not_null_comment = codes "-- not_null"

abbrev pub column_of : Bool → Option (Text × Text) → List DdlColumn
column_of pending none = []
column_of pending (some (name, sql_type)) =
    record { name = name; sql_type = sql_type; not_null = pending } ∷ []

abbrev pub still_pending : Bool → Option (Text × Text) → Bool
still_pending pending none = pending
still_pending pending (some c) = false

-- The loop over the lines, with `pending_not_null`.
unfoldable pub columns_from : Bool → List Text → List DdlColumn
columns_from pending [] = []
columns_from pending (line ∷ lines) =
    let comment = starts_with (codes "--") (strip line) in
    let rest =
      columns_from
        (if comment
          then pending || text_eq (strip line) not_null_comment
          else still_pending pending (match_column line))
        lines in
    (if comment then [] else column_of pending (match_column line)) ++ rest

-- `re.findall(r"'([^']+)'", t)`: the state is whether a quote is open, and what follows it so far.
abbrev quoted_from : Option Text → Text → List Text
quoted_from state [] = []
quoted_from none (c ∷ t) = quoted_from (if c == b'\'' then some [] else none) t
quoted_from (some u) (c ∷ t) = let rest = quoted_from (next u) t in with_found u rest
  where
    next : Text → Option Text
    next [] = some (if c == b'\'' then [] else c ∷ [])
    next (d ∷ u) = if c == b'\'' then none else some (d ∷ u ++ c ∷ [])

    with_found : Text → List Text → List Text
    with_found [] rest = rest
    with_found (d ∷ u) rest = if c == b'\'' then (d ∷ u) ∷ rest else rest

-- `_PARTITION_RE`
abbrev partition_at : Text → Option Text
partition_at t = elim (assigned (codes "partitioned_by") (codes "ARRAY[") t) [
  | none ↦ none
  | some u ↦ until b']' u
]

abbrev nonempty : Option Text → Option Text
nonempty none = none
nonempty (some u) = if is_empty u then none else some u

-- `_LOCATION_RE`
abbrev location_at : Text → Option Text
location_at t = elim (assigned (codes "external_location") (b'\'' ∷ []) t) [
  | none ↦ none
  | some u ↦ nonempty (until b'\'' u)
]

abbrev partition_names : Option Text → List Text
partition_names none = []
partition_names (some group) = quoted_from none group

abbrev or_blank : Option Text → Text
or_blank none = []
or_blank (some t) = t

abbrev at_index : Text → Option ℕ → Result ℕ
at_index s none = err (substring_missing s)
at_index s (some n) = ok n

-- `text.index(s)`
unfoldable pub index : Text → Text → Result ℕ
index text s = at_index s (index_of s text)

-- `parse_ddl_text`, and the name that `parse_ddl_file` gives the table
unfoldable pub parse_ddl : Text → Text → Result Ddl
parse_ddl stem text = index text (codes "CREATE TABLE") >>= λ body_start.
    let body = drop body_start text in
    index body (b'(' ∷ []) >>= λ open_paren. index body (10 ∷ b')' ∷ []) >>= λ close.
    let column_block = take (close - (open_paren + 1)) (drop (open_paren + 1) body) in
    let tail = drop close body in
    ok (record {
      columns = columns_from false (split_lines column_block);
      partitioned_by = partition_names (search_in partition_at tail);
      table = stem;
      external_location = or_blank (search_in location_at tail);
    })

pub data Layer : Type 0 where
  silver gold : Layer

abbrev pub layer_text : Layer → Text
layer_text silver = codes "silver"
layer_text gold = codes "gold"

abbrev layer_here : Text → Option Layer
layer_here t =
    if starts_with (codes "silver/") t
    then some silver
    else if starts_with (codes "gold/") t
    then some gold
    else none

abbrev or_else : Option Layer → Option Layer → Option Layer
or_else none other = other
or_else (some l) other = some l

-- `.*/`, which takes as much as it can of a line
abbrev last_layer : Text → Option Layer
last_layer [] = none
last_layer (c ∷ t) =
    let later = or_else (last_layer t) (if c == b'/' then layer_here t else none) in
    if c == 10 then none else later

abbrev under_host : Text × Text → Option Layer
under_host (host, []) = none
under_host (host, c ∷ t) = if is_empty host then none else or_else (layer_here t) (last_layer t)

-- `_LAYER_RE`, at one place
abbrev layer_at : Text → Option Layer
layer_at t = elim (after (codes "//") t) [
  | none ↦ none
  | some u ↦ under_host (span (λ c. not (c == b'/')) u)
]

-- `Ddl.layer`
unfoldable pub layer : Ddl → Result Layer
layer ddl = elim (search_in layer_at ddl.external_location) [
  | none ↦ err (no_layer ddl.external_location)
  | some l ↦ ok l
]
