-- ===== src/Config.antt =====
-- ingestion/config/source_config.py: the models of the source registry and their validators.
pub mod Strategy
pub mod Validation
use urban_ops_intelligence_p.Prelude.{
  ℕ, Bool, true, false, not, ◌&&◌, ◌||◌, Option, none, some, List, [], ◌∷◌, ◌++◌, map, leb, ◌==◌,
  if◌then◌else◌, Text, codes, text_eq, is_some, is_empty, any, keep, invalid_config, Result, ok,
  err, ◌>>=◌,
}

pub data SourceType : Type 0 where
  rest_api_socrata rest_api geojson_static : SourceType

pub data ApiType : Type 0 where
  socrata socrata_geojson open_meteo generic_rest : ApiType

pub data SourceStatus : Type 0 where
  production staging deprecated : SourceStatus

pub data PartitionStrategy : Type 0 where
  daily monthly static snapshot : PartitionStrategy

-- `a == b` of two strategies
abbrev pub same_strategy : PartitionStrategy → PartitionStrategy → Bool
same_strategy daily daily = true
same_strategy monthly monthly = true
same_strategy static static = true
same_strategy snapshot snapshot = true
same_strategy _ _ = false

-- What the code observes of a configured query parameter: its truth, `int(v)`, and `str(v)`.
pub record Param : Type 0 where
  pub truthy : Bool
  pub as_int : Option ℕ
  pub shown : Text

pub record SourceMetadata : Type 0 where
  pub id : Text
  pub name : Text
  pub type : SourceType
  pub owner : Text
  pub priority : Text
  pub status : SourceStatus
  pub description : Option Text
  pub partition_strategy : PartitionStrategy

pub record DatasetConfig : Type 0 where
  pub name : Text
  pub description : Option Text
  pub api_type : ApiType
  pub timestamp_field : Option Text
  pub partition_strategy : Option PartitionStrategy
  pub primary_key : Option (List Text)
  pub snapshot_min_records : Option ℕ
  pub resource_id : Option Text
  pub domain : Option Text
  pub format : Option Text
  pub endpoint : Option Text
  pub query_params : Option (List (Text × Param))

pub record SourceConfig : Type 0 where
  pub source : SourceMetadata
  pub datasets : List DatasetConfig

-- The truth of an optional text: neither `None` nor empty.
abbrev pub truthy : Option Text → Bool
truthy none = false
truthy (some t) = not (is_empty t)

-- A character that `str.strip` removes.
abbrev pub is_space : ℕ → Bool
is_space c =
    (leb 9 c && leb c 13)
    || (leb 28 c && leb c 32)
    || (c == 133)
    || (c == 160)
    || (c == 5760)
    || (leb 8192 c && leb c 8202)
    || (c == 8232)
    || (c == 8233)
    || (c == 8239)
    || (c == 8287)
    || (c == 12288)

-- `not f.strip()`
abbrev pub is_blank : Text → Bool
is_blank t = not (any (λ c. not (is_space c)) t)

-- `len(set(xs)) != len(xs)`
abbrev pub has_repeats : List Text → Bool
has_repeats [] = false
has_repeats (x ∷ xs) = any (text_eq x) xs || has_repeats xs

-- `[a-z0-9_]+`
abbrev is_dataset_name : Text → Bool
is_dataset_name t =
    not (is_empty t)
    && not (any (λ c. not ((leb 97 c && leb c 122) || (leb 48 c && leb c 57) || (c == 95))) t)

-- A check of a validator: the fields that it names when it raises.
abbrev pub check : List Text → Result (Unit {0})
check [] = ok tt
check (x ∷ xs) = err (invalid_config (x ∷ xs))

unfoldable pub check_primary_key : DatasetConfig → Result (Unit {0})
check_primary_key ds = elim ds.primary_key [
  | none ↦ ok tt
  | some key ↦
      if is_empty key || any is_blank key || has_repeats key
      then err (invalid_config (codes "primary_key" ∷ []))
      else ok tt
]

-- `_require` of one field, and `_forbid` of one field: the name, if the field is at fault.
abbrev require : Text → Option Text → List Text
require field value = if truthy value then [] else field ∷ []

abbrev forbid : Text → Option Text → List Text
forbid field value = if is_some value then field ∷ [] else []

abbrev is_geojson : Option Text → Bool
is_geojson none = false
is_geojson (some f) = text_eq f (codes "geojson")

abbrev combination : ApiType → DatasetConfig → Result (Unit {0})
combination socrata ds =
    check (require (codes "resource_id") ds.resource_id ++ require (codes "domain") ds.domain)
    >>= λ _. check (forbid (codes "endpoint") ds.endpoint ++ forbid (codes "format") ds.format)
combination socrata_geojson ds =
    check (require (codes "resource_id") ds.resource_id ++ require (codes "domain") ds.domain)
    >>= λ _. check (if is_geojson ds.format then [] else codes "format" ∷ []) >>= λ _.
        check (forbid (codes "endpoint") ds.endpoint)
combination open_meteo ds = check (require (codes "endpoint") ds.endpoint) >>= λ _. check (
    forbid (codes "resource_id") ds.resource_id
    ++ (forbid (codes "domain") ds.domain ++ forbid (codes "format") ds.format))
combination generic_rest ds = check (require (codes "endpoint") ds.endpoint) >>= λ _. check (
    forbid (codes "resource_id") ds.resource_id
    ++ (forbid (codes "domain") ds.domain ++ forbid (codes "format") ds.format))

unfoldable pub check_field_combinations : DatasetConfig → Result (Unit {0})
check_field_combinations ds = combination ds.api_type ds

-- The constraints of the fields `name` and `snapshot_min_records`, and then the two validators.
unfoldable pub validate_dataset : DatasetConfig → Result (Unit {0})
validate_dataset ds =
    check (
      (if is_dataset_name ds.name then [] else codes "name" ∷ []) ++ (elim ds.snapshot_min_records [
        | none ↦ []
        | some n ↦ if leb 1 n then [] else codes "snapshot_min_records" ∷ []
      ]))
    >>= λ _. check_primary_key ds >>= λ _. check_field_combinations ds

abbrev or_inherited : Option PartitionStrategy → PartitionStrategy → PartitionStrategy
or_inherited none inherited = inherited
or_inherited (some own) inherited = own

-- `strategy_for`: a dataset's own strategy wins over its source's.
unfoldable pub strategy_for : SourceConfig → DatasetConfig → PartitionStrategy
strategy_for cfg ds = or_inherited ds.partition_strategy cfg.source.partition_strategy

unfoldable pub datasets_with_strategy : SourceConfig → PartitionStrategy → List DatasetConfig
datasets_with_strategy cfg s = keep (λ d. same_strategy (strategy_for cfg d) s) cfg.datasets

abbrev pub names : List DatasetConfig → List Text
names = map (λ d. d.name)

-- The three tests of `_check_partition_strategy_vs_timestamps`.
abbrev pub lacks_timestamp : SourceConfig → DatasetConfig → Bool
lacks_timestamp cfg d = same_strategy (strategy_for cfg d) daily && not (truthy d.timestamp_field)

abbrev pub stray_timestamp : SourceConfig → DatasetConfig → Bool
stray_timestamp cfg d = same_strategy (strategy_for cfg d) static && truthy d.timestamp_field

abbrev pub stray_floor : SourceConfig → DatasetConfig → Bool
stray_floor cfg d =
    is_some d.snapshot_min_records && not (same_strategy (strategy_for cfg d) snapshot)

unfoldable pub check_partition_strategy_vs_timestamps : SourceConfig → Result (Unit {0})
check_partition_strategy_vs_timestamps cfg =
    check (names (keep (lacks_timestamp cfg) cfg.datasets)) >>= λ _.
    check (names (keep (stray_timestamp cfg) cfg.datasets)) >>= λ _.
    check (names (keep (stray_floor cfg) cfg.datasets))

abbrev is_id_character : ℕ → Bool
is_id_character c =
    (leb 65 c && leb c 90) || (leb 97 c && leb c 122) || (leb 48 c && leb c 57) || (c == 45)

-- `SRC-[A-Za-z0-9-]+`
abbrev is_source_id : Text → Bool
is_source_id (s ∷ r ∷ c ∷ d ∷ x ∷ t) =
    (s == b'S')
    && (r == b'R')
    && (c == b'C')
    && (d == b'-')
    && not (any (λ y. not (is_id_character y)) (x ∷ t))
is_source_id _ = false

-- `P[0-3]`
abbrev is_priority : Text → Bool
is_priority (p ∷ n ∷ []) = (p == b'P') && leb b'0' n && leb n b'3'
is_priority _ = false

-- The constraints of the fields of `SourceMetadata`.
unfoldable pub validate_metadata : SourceMetadata → Result (Unit {0})
validate_metadata m = check (
    (if is_source_id m.id then [] else codes "id" ∷ [])
    ++ ((if is_empty m.name then codes "name" ∷ [] else [])
        ++ ((if is_empty m.owner then codes "owner" ∷ [] else [])
            ++ (if is_priority m.priority then [] else codes "priority" ∷ []))))

unfoldable pub validate_datasets : List DatasetConfig → Result (Unit {0})
validate_datasets [] = ok tt
validate_datasets (d ∷ ds) = let rest = validate_datasets ds in validate_dataset d >>= λ _. rest

-- `SourceConfig.model_validate`, on a document of the right shape.
unfoldable pub validate_source : SourceConfig → Result (Unit {0})
validate_source cfg = validate_metadata cfg.source >>= λ _.
    check (if is_empty cfg.datasets then codes "datasets" ∷ [] else []) >>= λ _.
    validate_datasets cfg.datasets >>= λ _. check_partition_strategy_vs_timestamps cfg
