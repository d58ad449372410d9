-- ===== src/Config/Validation.antt =====
-- What the validators accept.
use urban_ops_intelligence_p.Prelude.{
  ◌≡◌, ◌↔◌, ◌⊎◌, inl, inr, Bool-cases, refl, Bool, true, false, List, [], ◌∷◌, Text, is_some, keep,
  All, All-map, ok, ◌>>=◌, both_ok, arith, none,
}
use urban_ops_intelligence_p.Config.{
  SourceConfig, DatasetConfig, socrata, socrata_geojson, open_meteo, generic_rest, daily, static,
  snapshot, truthy, names, check, strategy_for, lacks_timestamp, stray_timestamp, stray_floor,
  check_partition_strategy_vs_timestamps, check_field_combinations, check_primary_key,
  validate_dataset, validate_datasets, validate_source, validate_metadata,
}

-- A dataset agrees with its effective strategy.
pub record Agrees (cfg : SourceConfig) (d : DatasetConfig) : Type 0 where
  pub daily_has_timestamp : strategy_for cfg d ≡ daily → truthy d.timestamp_field ≡ true
  pub static_has_none : strategy_for cfg d ≡ static → truthy d.timestamp_field ≡ false
  pub floor_is_snapshot : is_some d.snapshot_min_records ≡ true → strategy_for cfg d ≡ snapshot

-- The three tests of the validator find nothing at a dataset.
abbrev Passes : SourceConfig → DatasetConfig → Type 0
Passes cfg d =
    (lacks_timestamp cfg d ≡ false) × (stray_timestamp cfg d ≡ false) × (stray_floor cfg d ≡ false)

Passes→Agrees : (cfg : SourceConfig) (d : DatasetConfig) → Passes cfg d → Agrees cfg d
Passes→Agrees cfg d h = ground arith

Agrees→Passes : (cfg : SourceConfig) (d : DatasetConfig) → Agrees cfg d → Passes cfg d
Agrees→Passes cfg d h =
    ground (arith, h.daily_has_timestamp, h.static_has_none, h.floor_is_snapshot)

module _ {ℓ} {A : Type ℓ} where
  none_kept : (p : A → Bool) (xs : List A) → keep p xs ≡ [] → All (λ x. p x ≡ false) xs
  none_kept p [] h = tt
  none_kept p (x ∷ xs) h = elim (Bool-cases (p x)) [
    | inl e ↦ let h' : x ∷ keep p xs ≡ [] = rw e at h in cc
    | inr e ↦ (e, none_kept p xs (rw e at h))
  ]

  keep_none : (p : A → Bool) (xs : List A) → All (λ x. p x ≡ false) xs → keep p xs ≡ []
  keep_none p [] h = refl
  keep_none p (x ∷ xs) h = rw h.0 (keep_none p xs h.1)

names_nil : (ds : List DatasetConfig) → names ds ≡ [] → ds ≡ []
names_nil [] h = refl
names_nil (d ∷ ds) h = cc

check_nil : (xs : List Text) → check xs ≡ ok tt → xs ≡ []
check_nil [] h = refl
check_nil (x ∷ xs) h = cc

-- Three checks in a row.
check_three :
    (xs ys zs : List Text)
    → (check xs >>= λ _. check ys >>= λ _. check zs) ≡ ok tt
    → (xs ≡ []) × (ys ≡ []) × (zs ≡ [])
check_three [] [] zs h = (refl, refl, check_nil zs h)
check_three [] (y ∷ ys) zs h = cc
check_three (x ∷ xs) ys zs h = cc

passes_agree :
    (cfg : SourceConfig) (ds : List DatasetConfig)
    → All (λ d. lacks_timestamp cfg d ≡ false) ds
    → All (λ d. stray_timestamp cfg d ≡ false) ds
    → All (λ d. stray_floor cfg d ≡ false) ds
    → All (Agrees cfg) ds
passes_agree cfg [] a b c = tt
passes_agree cfg (d ∷ ds) a b c =
    (Passes→Agrees cfg d (a.0, b.0, c.0), passes_agree cfg ds a.1 b.1 c.1)

-- The cross-check accepts a source exactly when each of its datasets agrees with its strategy.
pub check_partition_strategy_iff :
    (cfg : SourceConfig)
    → (check_partition_strategy_vs_timestamps cfg ≡ ok tt) ↔ All (Agrees cfg) cfg.datasets
unfolding check_partition_strategy_vs_timestamps
check_partition_strategy_iff cfg = (
  λ h.
      let (a, b, c) =
        check_three (names (keep (lacks_timestamp cfg) ds)) (names (keep (stray_timestamp cfg) ds))
          (names (keep (stray_floor cfg) ds)) h in
      passes_agree cfg ds (none_kept (lacks_timestamp cfg) ds (names_nil _ a))
        (none_kept (stray_timestamp cfg) ds (names_nil _ b))
        (none_kept (stray_floor cfg) ds (names_nil _ c)),
  λ h.
      let passes = All-map (Agrees cfg) (Passes cfg) (Agrees→Passes cfg) ds h in
      rw (
        keep_none (lacks_timestamp cfg) ds (All-map (Passes cfg) _ (λ d p. p.0) ds passes),
        keep_none (stray_timestamp cfg) ds (All-map (Passes cfg) _ (λ d p. p.1) ds passes),
        keep_none (stray_floor cfg) ds (All-map (Passes cfg) _ (λ d p. p.2) ds passes),
      ),
)
  where
    ds : List DatasetConfig
    ds = cfg.datasets

-- What a dataset that passes the combinations check offers to its fetcher.
pub record Serves (d : DatasetConfig) : Type 0 where
  pub portal :
      (d.api_type ≡ socrata) ⊎ (d.api_type ≡ socrata_geojson)
      → (truthy d.resource_id ≡ true) × (truthy d.domain ≡ true) × (d.endpoint ≡ none)
  pub service :
      (d.api_type ≡ open_meteo) ⊎ (d.api_type ≡ generic_rest)
      → (truthy d.endpoint ≡ true) × (d.resource_id ≡ none) × (d.domain ≡ none) × (d.format ≡ none)

pub check_field_combinations-Serves :
    (d : DatasetConfig) → check_field_combinations d ≡ ok tt → Serves d
unfolding check_field_combinations
check_field_combinations-Serves d h = record {
  portal = λ a. ground (arith, a);
  service = λ a. ground (arith, a);
}

-- `validate_datasets` validates each of them.
pub validate_datasets-All :
    (ds : List DatasetConfig)
    → validate_datasets ds ≡ ok tt
    → All (λ d. validate_dataset d ≡ ok tt) ds
unfolding validate_datasets
validate_datasets-All [] h = tt
validate_datasets-All (d ∷ ds) h =
    let (one, rest) = both_ok (validate_dataset d) (validate_datasets ds) h in
    (one, validate_datasets-All ds rest)

validate_dataset-Serves : (d : DatasetConfig) → validate_dataset d ≡ ok tt → Serves d
unfolding validate_dataset
validate_dataset-Serves d h =
    check_field_combinations-Serves d (both_ok (check_primary_key d) _ (both_ok (check _) _ h).1).1

-- Every dataset of a source that validates has the fields that its `api_type` is served by, and
-- agrees with its effective strategy.
pub validate_source-datasets :
    (cfg : SourceConfig)
    → validate_source cfg ≡ ok tt
    → All Serves cfg.datasets × All (Agrees cfg) cfg.datasets
unfolding validate_source
validate_source-datasets cfg h =
    let (_, rest) = both_ok (validate_metadata cfg.source) _ h in
    let (_, rest) = both_ok (check _) _ rest in
    let (each, crossed) = both_ok (validate_datasets cfg.datasets) _ rest in
    (
      All-map (λ d. validate_dataset d ≡ ok tt) Serves validate_dataset-Serves cfg.datasets
          (validate_datasets-All cfg.datasets each),
      (check_partition_strategy_iff cfg).0 crossed,
    )
