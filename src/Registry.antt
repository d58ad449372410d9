-- ===== src/Registry.antt =====
-- ingestion/config/loader.py: the files of the registry. A file is what its YAML parses to. `shaped`
-- is the document as the models read it, before their validators run, if its shape is right.
pub mod Matching
pub mod Files
pub mod Agreement
pub mod Entries
use urban_ops_intelligence_p.Prelude.{
  Bool, true, false, Option, none, some, List, [], ◌∷◌, ◌++◌, if◌then◌else◌, Text, is_some, lookup,
  insert, map, Exception, corrupt_yaml, not_a_mapping, validation_failed, duplicate_source,
  source_not_found, Result, ok, err, ◌>>=◌,
}
use urban_ops_intelligence_p.Config.{
  SourceConfig, PartitionStrategy, validate_source, datasets_with_strategy, names,
}

-- `source_id` is `raw["source"]["id"]`, where that is a text.
pub record Document : Type 0 where
  pub source_id : Option Text
  pub shaped : Option SourceConfig

pub data Yaml : Type 0 where
  corrupt scalar : Yaml
  mapping : Document → Yaml

-- A file of the directory, with `path.stem` and `path.name`.
pub record SourceFile : Type 0 where
  pub stem : Text
  pub name : Text
  pub yaml : Yaml

abbrev parsed : Text → Yaml → Result Document
parsed name corrupt = err (corrupt_yaml name)
parsed name scalar = err (not_a_mapping name)
parsed name (mapping raw) = ok raw

-- `_read_yaml`
unfoldable pub read_yaml : SourceFile → Result Document
read_yaml f = parsed f.name f.yaml

abbrev pub accepted : Text → SourceConfig → Result (Unit {0}) → Result SourceConfig
accepted name cfg (ok _) = ok cfg
accepted name cfg (err e) = err (validation_failed name)

abbrev pub validated : Text → Option SourceConfig → Result SourceConfig
validated name none = err (validation_failed name)
validated name (some cfg) = accepted name cfg (validate_source cfg)

-- `_validate`
unfoldable pub validate : Document → Text → Result SourceConfig
validate raw name = validated name raw.shaped

abbrev pub Index : Type 0
Index = List (Text × SourceFile)

-- A recognisable id is taken once; a file that has none is filed under its stem.
abbrev pub file_of : Result Document → Option Text
file_of (err e) = none
file_of (ok raw) = raw.source_id

abbrev name_of : Option SourceFile → Text
name_of none = []
name_of (some f) = f.name

abbrev pub indexed : Option Text → SourceFile → Index → Result Index
indexed none f index = ok (insert f.stem f index)
indexed (some sid) f index =
    if is_some (lookup sid index)
    then err (duplicate_source sid (name_of (lookup sid index)))
    else ok (insert sid f index)

-- `_index_source_files`, over the sorted files
unfoldable pub index_source_files : Index → List SourceFile → Result Index
index_source_files index [] = ok index
index_source_files index (f ∷ files) =
    indexed (file_of (read_yaml f)) f index >>= λ index'. index_source_files index' files

-- The rest of both loaders, for one file.
abbrev pub load_file : SourceFile → Result SourceConfig
load_file f = read_yaml f >>= λ raw. validate raw f.name

abbrev pub keys {ℓ} : {V : Type ℓ} → List (Text × V) → List Text
keys [] = []
keys ((k, v) ∷ d) = k ∷ keys d

abbrev pub found : Text → Index → Option SourceFile → Result SourceConfig
found sid index none = err (source_not_found sid (keys index))
found sid index (some f) = load_file f

-- `load_source_config`
unfoldable pub load_source_config : List SourceFile → Text → Result SourceConfig
load_source_config files sid =
    index_source_files [] files >>= λ index. found sid index (lookup sid index)

abbrev pub Registry : Type 0
Registry = List (Text × SourceConfig)

abbrev pub registered : Text → SourceConfig → Registry → Result Registry
registered name cfg out =
    if is_some (lookup cfg.source.id out)
    then err (duplicate_source cfg.source.id name)
    else ok (insert cfg.source.id cfg out)

unfoldable pub load_loop : Registry → List SourceFile → Result Registry
load_loop out [] = ok out
load_loop out (f ∷ files) =
    load_file f >>= λ cfg. registered f.name cfg out >>= λ out'. load_loop out' files

-- `load_all_sources`
unfoldable pub load_all_sources : List SourceFile → Result Registry
unfolding load_loop
load_all_sources files = load_loop [] files

abbrev pairs_of : PartitionStrategy → Registry → List (Text × Text)
pairs_of strategy [] = []
pairs_of strategy ((sid, cfg) ∷ out) =
    map (λ name. (cfg.source.id, name)) (names (datasets_with_strategy cfg strategy))
    ++ pairs_of strategy out

-- `load_datasets_by_strategy`
unfoldable pub load_datasets_by_strategy :
    List SourceFile → PartitionStrategy → Result (List (Text × Text))
load_datasets_by_strategy files strategy =
    load_all_sources files >>= λ out. ok (pairs_of strategy out)
