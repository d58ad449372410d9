-- ===== src/Facade/Resolve.antt =====
-- Which datasets a call operates on.
use urban_ops_intelligence_p.Prelude.{
  ◌≡◌, refl, sym, ◌∙◌, Bool, true, ◌&&◌, Option, none, some, List, [], ◌∷◌, Text, text_eq, keep,
  is_empty, ok, err, arith, Bool-cases, inl, inr,
}
use urban_ops_intelligence_p.Config.{
  SourceConfig, DatasetConfig, PartitionStrategy, same_strategy, strategy_for,
}
use urban_ops_intelligence_p.Facade.{resolve_datasets, matching}

-- The name and the strategy that were asked for, if any.
abbrev pub asked_name : Option Text → DatasetConfig → Bool
asked_name none d = true
asked_name (some name) d = text_eq d.name name

abbrev pub asked_strategy : SourceConfig → Option PartitionStrategy → DatasetConfig → Bool
asked_strategy cfg none d = true
asked_strategy cfg (some s) d = same_strategy (strategy_for cfg d) s

keep-keep :
    (p q : DatasetConfig → Bool) (ds : List DatasetConfig)
    → keep q (keep p ds) ≡ keep (λ d. p d && q d) ds
keep-keep p q [] = refl
keep-keep p q (d ∷ ds) = ground (arith, keep-keep p q ds)

keep_all : (ds : List DatasetConfig) → keep (λ d. true) ds ≡ ds
keep_all [] = refl
keep_all (d ∷ ds) = λ i. d ∷ keep_all ds i

matching-ok :
    (cfg : SourceConfig) (strategy : Option PartitionStrategy) (candidates ds : List DatasetConfig)
    → matching cfg strategy candidates ≡ ok ds
    → ds ≡ keep (asked_strategy cfg strategy) candidates
matching-ok cfg none candidates ds h = let e : ds ≡ candidates = cc in e ∙ sym (keep_all candidates)
matching-ok cfg (some s) candidates ds h =
    let kept = keep (λ d. same_strategy (strategy_for cfg d) s) candidates in
    elim (Bool-cases (is_empty kept)) [
      | inl e ↦ let h' : err _ ≡ ok ds = rw e at h in cc
      | inr e ↦ let h' : ok kept ≡ ok ds = rw e at h in cc
    ]

-- Where the datasets of a call are resolved, they are exactly those of the name and the strategy
-- asked for, if any, in the order of the configuration.
pub resolve_datasets-ok :
    (cfg : SourceConfig) (name : Option Text) (strategy : Option PartitionStrategy)
    (ds : List DatasetConfig)
    → resolve_datasets cfg name strategy ≡ ok ds
    → ds ≡ keep (λ d. asked_name name d && asked_strategy cfg strategy d) cfg.datasets
unfolding resolve_datasets
resolve_datasets-ok cfg none strategy ds h = matching-ok cfg strategy cfg.datasets ds h
resolve_datasets-ok cfg (some name) strategy ds h =
    let named = keep (λ d. text_eq d.name name) cfg.datasets in
    elim (Bool-cases (is_empty named)) [
      | inl e ↦ let h' : err _ ≡ ok ds = rw e at h in cc
      | inr e ↦
          matching-ok cfg strategy named ds (rw e at h)
          ∙ keep-keep (λ d. text_eq d.name name) (asked_strategy cfg strategy) cfg.datasets
    ]
