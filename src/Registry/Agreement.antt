-- ===== src/Registry/Agreement.antt =====
-- The two loaders agree, and what the whole registry is.
use urban_ops_intelligence_p.Prelude.{
  ◌+◌, ◌≡◌, refl, ap, ◌∙◌, true, false, Option, none, some, List, [], ◌∷◌, Text, text_eq, is_some,
  lookup, insert, length, length-append, ◌++◌, All, All-append, arith, Bool-cases, inl, inr,
  source_not_found, Result, ok, err,
}
use urban_ops_intelligence_p.Config.{SourceConfig, validate_source}
use urban_ops_intelligence_p.Registry.{
  Document, SourceFile, read_yaml, Index, index_source_files, keys, load_source_config, Registry,
  load_loop, found, load_all_sources,
}
use urban_ops_intelligence_p.Registry.Matching.{
  Match, Match-keys, Match-insert, Found, Match-Found, Found-is_some,
}
use urban_ops_intelligence_p.Registry.Files.{load_file-parts, load_loop-step}

-- A document whose shape is right has its id where the index looks for it.
abbrev pub HasId : SourceFile → Type 0
HasId f =
    (raw : Document) (cfg : SourceConfig)
    → read_yaml f ≡ ok raw
    → raw.shaped ≡ some cfg
    → raw.source_id ≡ some cfg.source.id

index-load :
    (files : List SourceFile) (index : Index) (out final : Registry)
    → All HasId files
    → Match index out
    → load_loop out files ≡ ok final
    → (index' : Index) × (index_source_files index files ≡ ok index') × Match index' final
unfolding index_source_files load_loop
index-load [] index out final ids h e = let same : out ≡ final = cc in (index, refl, rw (← same) h)
index-load (f ∷ files) index out final ids h e =
    let (cfg, loaded, fresh, rest) = load_loop-step f files out final e in
    let (raw, read, shape, _) = load_file-parts f cfg loaded in
    let here : raw.source_id ≡ some cfg.source.id = ids.0 raw cfg read shape in
    let (index', found, match) =
      index-load files (insert cfg.source.id f index) (insert cfg.source.id cfg out) final ids.1
        (Match-insert cfg.source.id f cfg index out loaded h) rest in
    let free = Found-is_some _ _ (Match-Found cfg.source.id index out h) ∙ fresh in
    (index', rw (read, here, free) found, match)

-- What a lookup in a loaded registry says of a source.
abbrev pub entry : Text → Registry → Option SourceConfig → Result SourceConfig
entry sid out none = err (source_not_found sid (keys out))
entry sid out (some cfg) = ok cfg

-- Where the whole registry loads, and documents have their ids where the index looks for them,
-- loading one source gives its entry in the registry, and for a source that is not in it the error
-- that names the sources there are.
pub load_source_config-entry :
    (files : List SourceFile) (out : Registry) (sid : Text)
    → All HasId files
    → load_all_sources files ≡ ok out
    → load_source_config files sid ≡ entry sid out (lookup sid out)
unfolding load_all_sources load_source_config
load_source_config-entry files out sid ids e =
    let (index, indexed_all, match) = index-load files [] [] out ids tt e in
    rw indexed_all
      (by_lookup index match (lookup sid index) (lookup sid out) (Match-Found sid index out match))
  where
    by_lookup :
        (index : Index)
        → Match index out
        → (f : Option SourceFile) (c : Option SourceConfig) → Found f c
        → found sid index f ≡ entry sid out c
    by_lookup index match none none k =
        ap (λ ks. err (source_not_found sid ks)) (Match-keys index out match)
    by_lookup index match none (some c) k = elim k [ ]
    by_lookup index match (some f) none k = elim k [ ]
    by_lookup index match (some f) (some c) k = k

-- An entry stands under its own id, and is valid.
abbrev pub IsEntry : Text × SourceConfig → Type 0
IsEntry e = (e.0 ≡ e.1.source.id) × (validate_source e.1 ≡ ok tt)

insert-fresh :
    (k : Text) (cfg : SourceConfig) (out : Registry)
    → is_some (lookup k out) ≡ false
    → insert k cfg out ≡ out ++ (k, cfg) ∷ []
insert-fresh k cfg [] h = refl
insert-fresh k cfg ((j, c) ∷ out) h = elim (Bool-cases (text_eq j k)) [
  | inl same ↦ let taken : true ≡ false = rw same at h in cc
  | inr differ ↦ rw differ (ap (λ o. (j, c) ∷ o) (insert-fresh k cfg out (rw differ at h)))
]

load_loop-entries :
    (files : List SourceFile) (out final : Registry)
    → load_loop out files ≡ ok final
    → All IsEntry out
    → All IsEntry final × (length final ≡ length out + length files)
unfolding load_loop
load_loop-entries [] out final e h = let same : out ≡ final = cc in rw (← same) (h, omega arith)
load_loop-entries (f ∷ files) out final e h =
    let (cfg, loaded, fresh, rest) = load_loop-step f files out final e in
    let (_, _, _, valid) = load_file-parts f cfg loaded in
    let grown = insert-fresh cfg.source.id cfg out fresh in
    let (entries, size) =
      load_loop-entries files (insert cfg.source.id cfg out) final rest
        (rw grown (All-append IsEntry out ((cfg.source.id, cfg) ∷ []) h ((refl, valid), tt))) in
    (
      entries,
      omega (arith, size, ap length grown, length-append {0} out ((cfg.source.id, cfg) ∷ [])),
    )

-- A registry that loads has an entry for each file, and every entry is a valid source under its id.
pub load_all_sources-IsEntry :
    (files : List SourceFile) (out : Registry)
    → load_all_sources files ≡ ok out
    → All IsEntry out × (length out ≡ length files)
unfolding load_all_sources
load_all_sources-IsEntry files out e =
    let (entries, size) = load_loop-entries files [] out e tt in (entries, omega (arith, size))
