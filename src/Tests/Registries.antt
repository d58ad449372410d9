-- ===== src/Tests/Registries.antt =====
-- Files of a registry.
use urban_ops_intelligence_p.Prelude.{
  ◌≡◌, refl, sym, ap, ◌∙◌, some, List, [], ◌∷◌, codes, length, lookup, All, ok,
}
use urban_ops_intelligence_p.Config.{
  SourceConfig, validate_source, validate_metadata, validate_datasets, validate_dataset,
  check_primary_key, check_field_combinations, check_partition_strategy_vs_timestamps, strategy_for,
}
use urban_ops_intelligence_p.Registry.{
  Document, SourceFile, mapping, read_yaml, validate, load_loop, load_all_sources,
  load_source_config, index_source_files, Registry,
}
use urban_ops_intelligence_p.Registry.Agreement.{
  HasId, IsEntry, entry, load_source_config-entry, load_all_sources-IsEntry,
}
use urban_ops_intelligence_p.Tests.Settings.{city}

abbrev pub document_of : SourceConfig → Document
document_of cfg = record { source_id = some cfg.source.id; shaped = some cfg }

abbrev pub file_with : SourceConfig → SourceFile
file_with cfg = record {
  stem = codes "city";
  name = codes "city.yaml";
  yaml = mapping (document_of cfg);
}

abbrev pub city_files : List SourceFile
city_files = file_with city ∷ []

pub load_file-HasId : (cfg : SourceConfig) → HasId (file_with cfg)
unfolding read_yaml
load_file-HasId cfg raw c e s =
    let same : document_of cfg ≡ raw = cc in
    let k : some cfg ≡ some c = ap (λ d. d.shaped) same ∙ s in
    let inside : cfg ≡ c = cc in
    ap (λ d. d.source_id) (sym same) ∙ ap (λ x. some x.source.id) inside

abbrev pub loaded : Registry
loaded = (codes "SRC-001", city) ∷ []

pub city_loads : load_all_sources city_files ≡ ok loaded
unfolding load_all_sources load_loop read_yaml validate validate_source validate_metadata
    validate_datasets validate_dataset check_primary_key check_field_combinations
    check_partition_strategy_vs_timestamps strategy_for
city_loads = refl

pub city_found : load_source_config city_files (codes "SRC-001") ≡ ok city
unfolding load_source_config index_source_files read_yaml validate validate_source validate_metadata
    validate_datasets validate_dataset check_primary_key check_field_combinations
    check_partition_strategy_vs_timestamps strategy_for
city_found = refl

load_source_config-entry_example :
    load_source_config city_files (codes "SRC-001")
    ≡ entry (codes "SRC-001") loaded (lookup (codes "SRC-001") loaded)
load_source_config-entry_example =
    load_source_config-entry city_files loaded (codes "SRC-001") (load_file-HasId city, tt)
      city_loads

load_all_sources-IsEntry_example : All IsEntry loaded × (length loaded ≡ length city_files)
load_all_sources-IsEntry_example = load_all_sources-IsEntry city_files loaded city_loads
