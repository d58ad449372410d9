-- ===== src/Registry/Files.antt =====
-- ingestion/config/loader.py: one file of a registry that loads.
use urban_ops_intelligence_p.Prelude.{
  ◌≡◌, refl, sym, ap, ◌∙◌, false, Option, none, some, List, ◌∷◌, Text, is_some, lookup, insert,
  Bool-cases, inl, inr, Result, ok, err, ◌>>=◌,
}
use urban_ops_intelligence_p.Config.{SourceConfig, validate_source}
use urban_ops_intelligence_p.Registry.{
  Document, SourceFile, read_yaml, validate, load_file, Registry, registered, load_loop, accepted,
  validated,
}

pub accepted_lem :
    (name : Text) (c cfg : SourceConfig) (x : Result (Unit {0}))
    → accepted name c x ≡ ok cfg
    → (c ≡ cfg) × (x ≡ ok tt)
accepted_lem name c cfg (ok u) h = (cc, refl)
accepted_lem name c cfg (err e) h = cc

pub validated_lem :
    (name : Text) (shaped : Option SourceConfig) (cfg : SourceConfig)
    → validated name shaped ≡ ok cfg
    → (shaped ≡ some cfg) × (validate_source cfg ≡ ok tt)
validated_lem name none cfg h = cc
validated_lem name (some c) cfg h =
    let (same, valid) = accepted_lem name c cfg (validate_source c) h in
    (ap some same, ap validate_source (sym same) ∙ valid)

-- A file that loads has a document with the shape of what it loads to.
pub load_file-parts :
    (f : SourceFile) (cfg : SourceConfig)
    → load_file f ≡ ok cfg
    → (raw : Document) × (read_yaml f ≡ ok raw)
      × (raw.shaped ≡ some cfg)
      × (validate_source cfg ≡ ok tt)
unfolding validate
load_file-parts f cfg h = go (read_yaml f) refl h
  where
    go :
        (x : Result Document)
        → read_yaml f ≡ x
        → (x >>= λ raw. validate raw f.name) ≡ ok cfg
        → (raw : Document) × (read_yaml f ≡ ok raw)
          × (raw.shaped ≡ some cfg)
          × (validate_source cfg ≡ ok tt)
    go (ok raw) e k =
        let (shape, valid) = validated_lem f.name raw.shaped cfg k in (raw, e, shape, valid)
    go (err x) e k = cc

pub registered_lem :
    (name : Text) (cfg : SourceConfig) (out out' : Registry)
    → registered name cfg out ≡ ok out'
    → (is_some (lookup cfg.source.id out) ≡ false) × (out' ≡ insert cfg.source.id cfg out)
registered_lem name cfg out out' h = elim (Bool-cases (is_some (lookup cfg.source.id out))) [
  | inl taken ↦ let k : err _ ≡ ok out' = rw taken at h in cc
  | inr fresh ↦ let k : ok (insert cfg.source.id cfg out) ≡ ok out' = rw fresh at h in (fresh, cc)
]

-- One file of a registry that loads.
pub load_loop-step :
    (f : SourceFile) (files : List SourceFile) (out final : Registry)
    → load_loop out (f ∷ files) ≡ ok final
    → (cfg : SourceConfig) × (load_file f ≡ ok cfg)
      × (is_some (lookup cfg.source.id out) ≡ false)
      × (load_loop (insert cfg.source.id cfg out) files ≡ ok final)
unfolding load_loop
load_loop-step f files out final h = go (load_file f) refl h
  where
    after :
        (cfg : SourceConfig) (x : Result Registry)
        → registered f.name cfg out ≡ x
        → (x >>= λ out'. load_loop out' files) ≡ ok final
        → (is_some (lookup cfg.source.id out) ≡ false)
          × (load_loop (insert cfg.source.id cfg out) files ≡ ok final)
    after cfg (ok out') e k =
        let (fresh, same) = registered_lem f.name cfg out out' e in
        (fresh, ap (λ o. load_loop o files) (sym same) ∙ k)
    after cfg (err x) e k = cc

    go :
        (x : Result SourceConfig)
        → load_file f ≡ x
        → (x >>= λ cfg. registered f.name cfg out >>= λ out'. load_loop out' files) ≡ ok final
        → (cfg : SourceConfig) × (load_file f ≡ ok cfg)
          × (is_some (lookup cfg.source.id out) ≡ false)
          × (load_loop (insert cfg.source.id cfg out) files ≡ ok final)
    go (ok cfg) e k =
        let (fresh, rest) = after cfg (registered f.name cfg out) refl k in (cfg, e, fresh, rest)
    go (err x) e k = cc
