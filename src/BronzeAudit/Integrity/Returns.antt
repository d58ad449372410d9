-- ===== src/BronzeAudit/Integrity/Returns.antt =====
-- scripts/profiling/bronze_integrity_audit.py: the audit of a registry that loads comes to its end.
use urban_ops_intelligence_p.Prelude.{
  ℕ, ◌≡◌, refl, ap, ◌∙◌, subst, true, false, Option, some, List, [], ◌∷◌, Text, text_eq,
  text_eq_refl, any, map, keep, All, All-append, lookup, Result, ok, err, arith, Bool-cases, inl,
  inr,
}
use urban_ops_intelligence_p.Calendar.{Date}
use urban_ops_intelligence_p.Config.{
  SourceConfig, DatasetConfig, daily, same_strategy, strategy_for, truthy, names, has_repeats,
}
use urban_ops_intelligence_p.Config.Strategy.{same_strategy→eq}
use urban_ops_intelligence_p.Config.Validation.{Agrees, validate_source-datasets}
use urban_ops_intelligence_p.Registry.{SourceFile, Registry, load_source_config, load_all_sources}
use urban_ops_intelligence_p.Registry.Agreement.{
  HasId, IsEntry, entry, load_source_config-entry, load_all_sources-IsEntry,
}
use urban_ops_intelligence_p.Registry.Entries.{FoundIn, load_all_sources-FoundIn}
use urban_ops_intelligence_p.Platform.{Platform, Clock}
use urban_ops_intelligence_p.BronzeAudit.{Reader}
use urban_ops_intelligence_p.BronzeAudit.Shards.{ShardReport, run_scan}
use urban_ops_intelligence_p.BronzeAudit.Reconcile.{
  DayReconciliation, Counter, named, run_reconcile,
}
use urban_ops_intelligence_p.BronzeAudit.Integrity.{
  DatasetAudit, is_target, targets_in, integrity_targets, with_shards, with_days, with_error,
  check_b, check_c, new_audit, after_scan, after_reconcile, or_no_key, dataset_config, checked_keys,
  audit_dataset, audit_each, audit_window, window_days,
}
use urban_ops_intelligence_p.BronzeAudit.Integrity.Caught.{
  Caught, RaisesNoExit, run_scan-Caught, run_reconcile-Caught,
}

-- Each dataset is the one that its name is looked up to.
abbrev Named : List DatasetConfig → List DatasetConfig → Type 0
Named dss ds = All (λ d. named d.name dss ≡ some d) ds

Named-later :
    (d : DatasetConfig) (ds es : List DatasetConfig)
    → any (text_eq d.name) (names es) ≡ false
    → Named ds es
    → Named (d ∷ ds) es
Named-later d ds [] h k = tt
Named-later d ds (e ∷ es) h k = elim (Bool-cases (text_eq d.name e.name)) [
  | inl same ↦ let bad : true ≡ false = rw same at h in cc
  | inr differ ↦ (rw differ k.0, Named-later d ds es (rw differ at h) k.1)
]

has_repeats-Named : (ds : List DatasetConfig) → has_repeats (names ds) ≡ false → Named ds ds
has_repeats-Named [] h = tt
has_repeats-Named (d ∷ ds) h = elim (Bool-cases (any (text_eq d.name) (names ds))) [
  | inl bad ↦ let k : true ≡ false = rw bad at h in cc
  | inr new ↦
      (rw (text_eq_refl d.name) refl, Named-later d ds ds new (has_repeats-Named ds (rw new at h)))
]

-- Datasets of one source do not share a name.
abbrev pub DistinctNames : Registry → Type 0
DistinctNames out = All (λ e. has_repeats (names e.1.datasets) ≡ false) out

-- A dataset that the registry has, with a timestamp field.
abbrev IsTimed : List SourceFile → Text × Text → Type 0
IsTimed files target =
    (cfg : SourceConfig) × (ds : DatasetConfig) × (load_source_config files target.0 ≡ ok cfg)
    × (named target.1 cfg.datasets ≡ some ds)
    × (truthy ds.timestamp_field ≡ true)

module _ (files : List SourceFile) where
  targets-IsTimed :
      (cfg : SourceConfig) (ds : List DatasetConfig)
      → load_source_config files cfg.source.id ≡ ok cfg
      → Named cfg.datasets ds
      → All (Agrees cfg) ds
      → All (IsTimed files) (map (λ d. (cfg.source.id, d.name)) (keep (is_target cfg) ds))
  targets-IsTimed cfg [] loaded n a = tt
  targets-IsTimed cfg (d ∷ ds) loaded n a = elim (Bool-cases (is_target cfg d)) [
    | inl taken ↦
        let is_daily : same_strategy (strategy_for cfg d) daily ≡ true = ground arith in
        rw taken (
          (
            cfg,
            d,
            loaded,
            n.0,
            a.0.daily_has_timestamp (same_strategy→eq (strategy_for cfg d) daily is_daily),
          ),
          targets-IsTimed cfg ds loaded n.1 a.1,
        )
    | inr left ↦ rw left (targets-IsTimed cfg ds loaded n.1 a.1)
  ]

  targets_in-IsTimed :
      (out es : Registry)
      → ((sid : Text) → load_source_config files sid ≡ entry sid out (lookup sid out))
      → FoundIn out es
      → All IsEntry es
      → DistinctNames es
      → All (IsTimed files) (targets_in es)
  targets_in-IsTimed out [] loads f v d = tt
  targets_in-IsTimed out ((sid, cfg) ∷ es) loads f v d =
      let own : sid ≡ cfg.source.id = v.0.0 in
      let loaded : load_source_config files sid ≡ ok cfg = loads sid ∙ ap (entry sid out) f.0 in
      All-append (IsTimed files)
        (map (λ ds. (cfg.source.id, ds.name)) (keep (is_target cfg) cfg.datasets)) (targets_in es)
        (targets-IsTimed cfg cfg.datasets
          (subst (λ i. load_source_config files i ≡ ok cfg) own loaded)
          (has_repeats-Named cfg.datasets d.0) (validate_source-datasets cfg v.0.1).1)
        (targets_in-IsTimed out es loads f.1 v.1 d.1)

after_scan-returns :
    (a : DatasetAudit) (r : Result (List ShardReport))
    → Caught r
    → (b : DatasetAudit) × (after_scan a r ≡ ok b)
      × (b.source_id ≡ a.source_id)
      × (b.dataset ≡ a.dataset)
after_scan-returns a (ok reports) h = (with_shards a reports, refl, refl, refl)
after_scan-returns a (err e) h = (with_error a check_b e, rw h refl, refl, refl)

after_reconcile-returns :
    (a : DatasetAudit) (r : Result (List DayReconciliation))
    → Caught r
    → (b : DatasetAudit) × (after_reconcile a r ≡ ok b)
      × (b.source_id ≡ a.source_id)
      × (b.dataset ≡ a.dataset)
after_reconcile-returns a (ok recs) h = (with_days a recs, refl, refl, refl)
after_reconcile-returns a (err e) h = (with_error a check_c e, rw h refl, refl, refl)

-- The source and the dataset of an audit.
abbrev pub target_of : DatasetAudit → Text × Text
target_of a = (a.source_id, a.dataset)

module _ (P : Platform) (R : Reader P) (C : Counter) (laws : RaisesNoExit P R C) (now : Clock)
    (files : List SourceFile) (late : ℕ) (only_days : Option (List Text)) (s : P.State) where
  checked_keys-returns :
      (source_id dataset : Text) (key : List Text)
      → (a : DatasetAudit) × (checked_keys P R C now files late source_id dataset key only_days s
          ≡ ok a)
        × (a.source_id ≡ source_id)
        × (a.dataset ≡ dataset)
  checked_keys-returns source_id dataset [] = (_, refl, refl, refl)
  checked_keys-returns source_id dataset (f ∷ fields) =
      after_scan-returns (new_audit source_id dataset)
        (run_scan P R source_id dataset (f ∷ fields) only_days s)
        (run_scan-Caught P R C laws source_id dataset (f ∷ fields) only_days s)

  audit_dataset-returns :
      (target : Text × Text)
      → IsTimed files target
      → (a : DatasetAudit) × (audit_dataset P R C now files late only_days s target.0 target.1
          ≡ ok a)
        × (target_of a ≡ target)
  unfolding audit_dataset dataset_config
  audit_dataset-returns (source_id, dataset) (cfg, ds, loaded, found, timed) =
      let (a, e, i, j) = checked_keys-returns source_id dataset (or_no_key ds.primary_key) in
      let (b, e', i', j') =
        after_reconcile-returns a (run_reconcile P R C now files source_id dataset late only_days s)
          (run_reconcile-Caught P R C laws now files source_id dataset late only_days s cfg ds
            loaded found timed) in
      (b, rw loaded (rw found (rw e e')), λ k. ((i' ∙ i) k, (j' ∙ j) k))

  audit_each-returns :
      (targets : List (Text × Text))
      → All (IsTimed files) targets
      → (audits : List DatasetAudit) × (audit_each P R C now files late only_days s targets
          ≡ ok audits)
        × (map target_of audits ≡ targets)
  unfolding audit_each
  audit_each-returns [] h = ([], refl, refl)
  audit_each-returns (t ∷ targets) h =
      let (a, e, i) = audit_dataset-returns t h.0 in
      let (later, e', i') = audit_each-returns targets h.1 in
      (a ∷ later, rw e (rw e' refl), λ k. i k ∷ i' k)

module _ (P : Platform) (R : Reader P) (C : Counter) (laws : RaisesNoExit P R C) (now : Clock)
    (files : List SourceFile) (late : ℕ) (s : P.State) where
  -- Where the registry loads, documents have their ids where the index looks for them, no source has two datasets of one name, and the libraries that the audit calls raise no SystemExit, the audit of a window comes to its end whatever the store and the portals answer, with one outcome for each daily Socrata dataset, in the order of the registry.
  pub audit_window-returns :
      (out : Registry) (today : Date) (days : ℕ)
      → All HasId files
      → load_all_sources files ≡ ok out
      → DistinctNames out
      → (audits : List DatasetAudit) × (audit_window P R C now files late today days s ≡ ok audits)
        × (map target_of audits ≡ targets_in out)
  unfolding audit_window integrity_targets
  audit_window-returns out today days ids loaded distinct =
      let (audits, e, i) =
        audit_each-returns P R C laws now files late (some (window_days today days)) s
          (targets_in out)
          (targets_in-IsTimed files out out
            (λ sid. load_source_config-entry files out sid ids loaded)
            (load_all_sources-FoundIn files out loaded)
            (load_all_sources-IsEntry files out loaded).0 distinct) in
      (audits, rw loaded e, i)
