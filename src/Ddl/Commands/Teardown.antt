-- ===== src/Ddl/Commands/Teardown.antt =====
-- scripts/ddl/apply_ddl.py: which objects of the bucket a teardown deletes.
use urban_ops_intelligence_p.Prelude.{
  ℕ, ◌≡◌, refl, Bool, true, false, Option, List, ◌++◌, if◌then◌else◌, Text, codes, is_empty, Result,
  ok, err, arith,
}
use urban_ops_intelligence_p.Strings.{starts_with}
use urban_ops_intelligence_p.Loader.Writes.{Outcome}
use urban_ops_intelligence_p.Gold.Selects.{normalise_prefix}
use urban_ops_intelligence_p.Ddl.Apply.{TrinoSettings, Environment, load_trino_settings}
use urban_ops_intelligence_p.Ddl.Commands.{
  Cluster, teardown, Arguments, bucket_of, configured, main,
}
use urban_ops_intelligence_p.Ddl.Commands.Laws.{IsCluster, DeletesAll}
use urban_ops_intelligence_p.Ddl.Commands.Kept.{Same, cmd_teardown-Same}
use urban_ops_intelligence_p.Ddl.Commands.Purged.{cmd_teardown-gone}

module _ (W : Cluster) (has_object : W.S → Text → Bool) (laws : IsCluster W has_object)
    (int_of : Text → Option ℕ) (files : List (Text × Text)) (args : Arguments)
    (chosen : args.command ≡ teardown) (s : W.S) (k : Text) where
  Kept : Outcome W.S ℕ → Type 0
  Kept o =
      (starts_with (normalise_prefix args.location_prefix ++ codes "/") k ≡ false
        → has_object o.1 k ≡ has_object s k)
      × (DeletesAll W
          → starts_with (normalise_prefix args.location_prefix ++ codes "/") k ≡ true
          → o.0 ≡ ok 0
          → has_object o.1 k ≡ false)

  refused-Kept : Kept (ok 2, s)
  unfolding Kept
  refused-Kept = (
    λ off. refl,
    λ whole under h. let two : Result ℕ = ok 2 in let bad : two ≡ ok 0 = h in ground arith,
  )

  configured-Kept :
      (bucket : Text) (r : Result TrinoSettings) → Kept (configured W int_of files args bucket r s)
  unfolding Kept Same
  configured-Kept bucket (err e) = (
    λ off. refl,
    λ whole under h. let two : Result ℕ = ok 2 in let bad : two ≡ ok 0 = h in ground arith,
  )
  configured-Kept bucket (ok settings) = rw chosen (
    λ off. cmd_teardown-Same W has_object laws k s files settings args.location_prefix s off refl,
    λ whole under h.
        cmd_teardown-gone W has_object laws whole k files settings args.location_prefix s under h,
  )

  if-Kept : (b : Bool) (o o' : Outcome W.S ℕ) → Kept o → Kept o' → Kept (if b then o else o')
  if-Kept true o o' h h' = h
  if-Kept false o o' h h' = h'

module _ (W : Cluster) (has_object : W.S → Text → Bool) (laws : IsCluster W has_object)
    (int_of : Text → Option ℕ) (files : List (Text × Text)) (args : Arguments)
    (chosen : args.command ≡ teardown) (env : Environment) (s : W.S) (k : Text) where
  main-Kept : Kept W has_object laws int_of files args chosen s k (main W int_of files args env s)
  unfolding main
  main-Kept =
      let blank = refused-Kept W has_object laws int_of files args chosen s k in
      if-Kept W has_object laws int_of files args chosen s k _ _ _ blank (
        if-Kept W has_object laws int_of files args chosen s k (is_empty (bucket_of args env))
          (ok 2, s)
          (configured W int_of files args (bucket_of args env) (load_trino_settings int_of env) s)
          blank
          (configured-Kept W has_object laws int_of files args chosen s k (bucket_of args env)
            (load_trino_settings int_of env)))

  -- A teardown, however it ends, leaves every object that is not under the normalised prefix as it was.
  pub main-others_kept :
      starts_with (normalise_prefix args.location_prefix ++ codes "/") k ≡ false
      → has_object (main W int_of files args env s).1 k ≡ has_object s k
  unfolding Kept
  main-others_kept = main-Kept.0

  -- Where every deletion that returns deletes all it is given, a teardown that exits with 0 leaves no object under the normalised prefix.
  pub main-purged :
      DeletesAll W
      → starts_with (normalise_prefix args.location_prefix ++ codes "/") k ≡ true
      → (main W int_of files args env s).0 ≡ ok 0
      → has_object (main W int_of files args env s).1 k ≡ false
  unfolding Kept
  main-purged = main-Kept.1
