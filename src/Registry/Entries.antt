-- ===== src/Registry/Entries.antt =====
-- ingestion/config/loader.py: each entry of a registry that loads is found under its own id.
use urban_ops_intelligence_p.Prelude.{
  ◌≡◌, ap, ◌∙◌, subst, true, false, some, List, [], ◌∷◌, Text, text_eq, text_eq_refl, text_eq→eq,
  is_some, lookup, insert, All, lookup-insert, Bool-cases, inl, inr, ok, if◌then◌else◌,
}
use urban_ops_intelligence_p.Config.{SourceConfig}
use urban_ops_intelligence_p.Registry.{SourceFile, Registry, load_loop, load_all_sources}
use urban_ops_intelligence_p.Registry.Files.{load_loop-step}

-- The entries of a list are found in a registry.
abbrev pub FoundIn : Registry → Registry → Type 0
FoundIn out es = All (λ e. lookup e.0 out ≡ some e.1) es

-- A new entry hides no other.
FoundIn-insert :
    (k : Text) (cfg : SourceConfig) (out es : Registry)
    → is_some (lookup k out) ≡ false
    → FoundIn out es
    → FoundIn (insert k cfg out) es
FoundIn-insert k cfg out [] fresh h = tt
FoundIn-insert k cfg out ((j, c) ∷ es) fresh h = elim (Bool-cases (text_eq k j)) [
  | inl same ↦
      let there : lookup k out ≡ some c = ap (λ t. lookup t out) (text_eq→eq k j same) ∙ h.0 in
      let bad : true ≡ false = rw there at fresh in cc
  | inr differ ↦ (
    lookup-insert k j cfg out ∙ ap (λ b. if b then some cfg else lookup j out) differ ∙ h.0,
    FoundIn-insert k cfg out es fresh h.1,
  )
]

FoundIn-grown :
    (k : Text) (cfg : SourceConfig) (out es : Registry)
    → is_some (lookup k es) ≡ false
    → FoundIn out es
    → lookup k out ≡ some cfg
    → FoundIn out (insert k cfg es)
FoundIn-grown k cfg out [] fresh h found = (found, tt)
FoundIn-grown k cfg out ((j, c) ∷ es) fresh h found = elim (Bool-cases (text_eq j k)) [
  | inl same ↦ let taken : true ≡ false = rw same at fresh in cc
  | inr differ ↦ rw differ (h.0, FoundIn-grown k cfg out es (rw differ at fresh) h.1 found)
]

load_loop-FoundIn :
    (files : List SourceFile) (out final : Registry)
    → load_loop out files ≡ ok final
    → FoundIn out out
    → FoundIn final final
unfolding load_loop
load_loop-FoundIn [] out final e h = let same : out ≡ final = cc in subst (λ o. FoundIn o o) same h
load_loop-FoundIn (f ∷ files) out final e h =
    let (cfg, loaded, fresh, rest) = load_loop-step f files out final e in
    let k = cfg.source.id in
    let here : lookup k (insert k cfg out) ≡ some cfg =
      lookup-insert k k cfg out ∙ ap (λ b. if b then some cfg else lookup k out) (text_eq_refl k) in
    load_loop-FoundIn files (insert k cfg out) final rest
      (FoundIn-grown k cfg (insert k cfg out) out fresh (FoundIn-insert k cfg out out fresh h) here)

-- Every entry of a registry that loads is what its id is looked up to.
pub load_all_sources-FoundIn :
    (files : List SourceFile) (out : Registry) → load_all_sources files ≡ ok out → FoundIn out out
unfolding load_all_sources
load_all_sources-FoundIn files out e = load_loop-FoundIn files [] out e tt
