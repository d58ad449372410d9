-- ===== src/Ddl/Commands/Kept.antt =====
-- scripts/ddl/apply_ddl.py: a teardown leaves the objects outside its prefix.
use urban_ops_intelligence_p.Prelude.{
  ℕ, ◌+◌, ◌≡◌, refl, ap, ◌∙◌, Bool, false, List, [], ◌∷◌, ◌++◌, Text, codes, is_empty, any, Result,
  ok, err, arith, Bool-cases, inl, inr, length,
}
use urban_ops_intelligence_p.Strings.{starts_with}
use urban_ops_intelligence_p.Gold.Selects.{normalise_prefix, schema_name}
use urban_ops_intelligence_p.Ddl.Parser.{Layer, silver, gold, layer_text}
use urban_ops_intelligence_p.Ddl.Apply.{TrinoSettings}
use urban_ops_intelligence_p.Ddl.Commands.{
  Cluster, TableFile, Grouped, grouped_at, tables_by_layer, failing, for_tables, drop_table,
  purge_pages, purge_storage, drop_layers, cmd_teardown,
}
use urban_ops_intelligence_p.Ddl.Commands.Laws.{
  on_page, IsCluster, failing-state, then_do-keeps, with_value-keeps,
}

module _ (W : Cluster) (has_object : W.S → Text → Bool) (laws : IsCluster W has_object) (k : Text)
    (start : W.S) where
  unfoldable pub Same : W.S → Type 0
  Same s = has_object s k ≡ has_object start k

  drop_tables-Same :
      (schema : Text) (fs : List TableFile) (n : ℕ) (s : W.S)
      → Same s
      → Same (for_tables W (drop_table W schema) fs n s).1
  unfolding for_tables Same
  drop_tables-Same schema [] n s h = h
  drop_tables-Same schema (f ∷ fs) n s h =
      let run = failing (W.execute schema (codes "DROP TABLE IF EXISTS " ++ f.table) s) in
      drop_tables-Same schema fs (n + run.0) run.1 (
        ap (λ t. has_object t k)
          (failing-state (W.execute schema (codes "DROP TABLE IF EXISTS " ++ f.table) s))
        ∙ (laws.dropped schema (codes "DROP TABLE IF EXISTS " ++ f.table) s k refl ∙ h))

  drop_layers-Same :
      (settings : TrinoSettings) (prefix : Text) (g : Grouped) (ls : List Layer) (n : ℕ) (s : W.S)
      → Same s
      → Same (drop_layers W settings prefix g ls n s).1
  unfolding drop_layers Same
  drop_layers-Same settings prefix g [] n s h = h
  drop_layers-Same settings prefix g (l ∷ ls) n s h =
      let schema = schema_name (layer_text l) prefix in
      let sql = codes "DROP SCHEMA IF EXISTS " ++ (settings.catalog ++ (codes "." ++ schema)) in
      then_do-keeps Same (for_tables W (drop_table W schema) (grouped_at l g) n s) _
        (drop_tables-Same schema (grouped_at l g) n s h)
        (λ m t h'.
          drop_layers-Same settings prefix g ls (m + (failing (W.execute schema sql t)).0)
            (failing (W.execute schema sql t)).1
            (ap (λ u. has_object u k) (failing-state (W.execute schema sql t))
              ∙ (laws.dropped schema sql t k refl ∙ h')))

  purge_pages-Same :
      (pages : List (Result (List Text))) (n : ℕ) (s : W.S)
      → any (on_page k) pages ≡ false
      → Same s
      → Same (purge_pages W pages n s).1
  unfolding purge_pages Same
  purge_pages-Same [] n s off h = h
  purge_pages-Same (err e ∷ pages) n s off h = h
  purge_pages-Same (ok keys ∷ pages) n s off h = elim (Bool-cases (is_empty keys)) [
    | inl none_here ↦ rw none_here (purge_pages-Same pages n s (ground arith) h)
    | inr some_here ↦ rw some_here (
        then_do-keeps Same (W.delete keys s) _ (laws.others_kept keys s k (ground arith) ∙ h)
          (λ u t h'. purge_pages-Same pages (n + length keys) t (ground arith) h'))
  ]

  purge_storage-Same :
      (prefix : Text) (s : W.S)
      → starts_with (normalise_prefix prefix ++ codes "/") k ≡ false
      → Same s
      → Same (purge_storage W prefix s).1
  unfolding purge_storage
  purge_storage-Same prefix s off h = elim (Bool-cases (is_empty (normalise_prefix prefix))) [
    | inl blank ↦ rw blank h
    | inr given ↦
        let p = normalise_prefix prefix ++ codes "/" in
        rw given (purge_pages-Same (W.pages s p) 0 s (laws.listed_under s p k off) h)
  ]

  pub cmd_teardown-Same :
      (files : List (Text × Text)) (settings : TrinoSettings) (prefix : Text) (s : W.S)
      → starts_with (normalise_prefix prefix ++ codes "/") k ≡ false
      → Same s
      → Same (cmd_teardown W files settings prefix s).1
  unfolding cmd_teardown
  cmd_teardown-Same files settings prefix s off h =
      elim (Bool-cases (is_empty (normalise_prefix prefix))) [
        | inl blank ↦ rw blank h
        | inr given ↦ rw given (
            with_value-keeps Same (tables_by_layer files) s _ h (λ g e.
              then_do-keeps Same (drop_layers W settings prefix g (silver ∷ gold ∷ []) 0 s) _
                (drop_layers-Same settings prefix g (silver ∷ gold ∷ []) 0 s h)
                (λ n t h'.
                  then_do-keeps Same (purge_storage W prefix t) _
                    (purge_storage-Same prefix t off h') (λ m u h''. h''))))
      ]
