-- ===== src/Config/Strategy.antt =====
-- Effective strategies.
use urban_ops_intelligence_p.Prelude.{
  ◌+◌, ◌≡◌, true, List, [], ◌∷◌, keep, length, arith, All, keep-All,
}
use urban_ops_intelligence_p.Config.{
  SourceConfig, DatasetConfig, PartitionStrategy, daily, monthly, static, snapshot, same_strategy,
  strategy_for, datasets_with_strategy,
}

pub same_strategy→eq : (a b : PartitionStrategy) → same_strategy a b ≡ true → a ≡ b
same_strategy→eq a b h = ground arith

pub same_strategy_refl : (a : PartitionStrategy) → same_strategy a a ≡ true
same_strategy_refl a = ground arith

length_split :
    (cfg : SourceConfig) (ds : List DatasetConfig)
    → length (keep (λ d. same_strategy (strategy_for cfg d) daily) ds)
        + length (keep (λ d. same_strategy (strategy_for cfg d) monthly) ds)
        + length (keep (λ d. same_strategy (strategy_for cfg d) static) ds)
        + length (keep (λ d. same_strategy (strategy_for cfg d) snapshot) ds)
      ≡ length ds
length_split cfg [] = omega arith
length_split cfg (d ∷ ds) = ground (arith, length_split cfg ds)

-- Every dataset of a source falls under exactly one of the four strategies: their lists of
-- datasets together are as long as the source's, and each list holds datasets of its strategy.
pub datasets_with_strategy_partition :
    (cfg : SourceConfig)
    → (length (datasets_with_strategy cfg daily)
          + length (datasets_with_strategy cfg monthly)
          + length (datasets_with_strategy cfg static)
          + length (datasets_with_strategy cfg snapshot)
        ≡ length cfg.datasets)
      × ((s : PartitionStrategy)
          → All (λ d. same_strategy (strategy_for cfg d) s ≡ true) (datasets_with_strategy cfg s))
unfolding datasets_with_strategy
datasets_with_strategy_partition cfg = (
  length_split cfg cfg.datasets,
  λ s. keep-All (λ d. same_strategy (strategy_for cfg d) s) cfg.datasets,
)
