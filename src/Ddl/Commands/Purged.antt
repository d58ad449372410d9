-- ===== src/Ddl/Commands/Purged.antt =====
-- scripts/ddl/apply_ddl.py: a purge that returns leaves no object under its prefix.
use urban_ops_intelligence_p.Prelude.{
  ℕ, ◌+◌, ◌≡◌, refl, ap, sym, ◌∙◌, Bool, true, false, not, ◌&&◌, ◌||◌, List, [], ◌∷◌, ◌++◌, Text,
  codes, text_eq, is_empty, any, Result, ok, err, arith, Bool-cases, inl, inr, length,
  purge_refused,
}
use urban_ops_intelligence_p.Strings.{starts_with}
use urban_ops_intelligence_p.Loader.Writes.{Outcome}
use urban_ops_intelligence_p.Gold.Selects.{normalise_prefix}
use urban_ops_intelligence_p.Ddl.Parser.{silver, gold}
use urban_ops_intelligence_p.Ddl.Apply.{TrinoSettings}
use urban_ops_intelligence_p.Ddl.Commands.{
  Cluster, Grouped, tables_by_layer, then_do, exit_code, purge_pages, purge_storage, drop_layers,
  cmd_teardown,
}
use urban_ops_intelligence_p.Ddl.Commands.Laws.{
  on_page, has_failed, IsCluster, DeletesAll, then_do-returned, with_value-returned,
}

both_away : (a b c : Bool) → (not a && (not b && c)) ≡ (not (b || a) && c)
both_away a b c = ground arith

none_left : (a b : Bool) → b ≡ true → (not (b && a) && a) ≡ false
none_left a b h = ground arith

module _ (W : Cluster) (has_object : W.S → Text → Bool) (laws : IsCluster W has_object)
    (whole : DeletesAll W) (k : Text) where
  -- A purge that returns has met no page that raises, and has deleted what its pages list.
  purge_pages-gone :
      (pages : List (Result (List Text))) (n m : ℕ) (s : W.S)
      → (purge_pages W pages n s).0 ≡ ok m
      → (any has_failed pages ≡ false)
        × (has_object (purge_pages W pages n s).1 k
            ≡ (not (any (on_page k) pages) && has_object s k))
  unfolding purge_pages
  purge_pages-gone [] n m s h = (refl, refl)
  purge_pages-gone (err e ∷ pages) n m s h = cc
  purge_pages-gone (ok keys ∷ pages) n m s h = elim (Bool-cases (is_empty keys)) [
    | inl none_here ↦
        let e : any (text_eq k) keys ≡ false = no_key keys none_here in
        rw (none_here, e) (purge_pages-gone pages n m s (rw none_here at h))
    | inr some_here ↦ rw some_here (
        by_delete (W.delete keys s) refl (λ t. purge_pages-gone pages (n + length keys) m t)
          (rw some_here at h))
  ]
    where
      no_key : (ks : List Text) → is_empty ks ≡ true → any (text_eq k) ks ≡ false
      no_key [] e = refl
      no_key (j ∷ ks) e = cc

      by_delete :
          (o : Outcome W.S (List Text))
          → W.delete keys s ≡ o
          → ((t : W.S)
              → (purge_pages W pages (n + length keys) t).0 ≡ ok m
              → (any has_failed pages ≡ false)
                × (has_object (purge_pages W pages (n + length keys) t).1 k
                    ≡ (not (any (on_page k) pages) && has_object t k)))
          → (then_do o (λ _ t. purge_pages W pages (n + length keys) t)).0 ≡ ok m
          → (any has_failed pages ≡ false)
            × (has_object (then_do o (λ _ t. purge_pages W pages (n + length keys) t)).1 k
                ≡ (not (any (on_page k) (ok keys ∷ pages)) && has_object s k))
      by_delete (ok failed, t) e later h =
          let done : (W.delete keys s).0 ≡ ok failed = ap (λ o. o.0) e in
          let none_failed : any (text_eq k) failed ≡ false =
            ap (any (text_eq k)) (whole keys failed s done) in
          let now : has_object t k ≡ (not (any (text_eq k) keys) && has_object s k) =
            ap (λ o. has_object o.1 k) (sym e) ∙ laws.deleted keys failed s k done none_failed in
          let (fine, gone) = later t h in
          (
            fine,
            gone
                ∙ (ap (λ b. not (any (on_page k) pages) && b) now
                    ∙ both_away (any (on_page k) pages) (any (text_eq k) keys) (has_object s k)),
          )
      by_delete (err x, t) e later h = cc

  purge_storage-gone :
      (prefix : Text) (s : W.S) (m : ℕ)
      → starts_with (normalise_prefix prefix ++ codes "/") k ≡ true
      → (purge_storage W prefix s).0 ≡ ok m
      → has_object (purge_storage W prefix s).1 k ≡ false
  unfolding purge_storage
  purge_storage-gone prefix s m under h = elim (Bool-cases (is_empty (normalise_prefix prefix))) [
    | inl blank ↦ let bad : err purge_refused ≡ ok m = rw blank at h in cc
    | inr given ↦
        let p = normalise_prefix prefix ++ codes "/" in
        let (fine, gone) = purge_pages-gone (W.pages s p) 0 m s (rw given at h) in
        rw given (
          gone
          ∙ (ap (λ b. not b && has_object s k) (laws.listed s p k fine)
              ∙ none_left (has_object s k) (starts_with p k) under))
  ]

  pub cmd_teardown-gone :
      (files : List (Text × Text)) (settings : TrinoSettings) (prefix : Text) (s : W.S)
      → starts_with (normalise_prefix prefix ++ codes "/") k ≡ true
      → (cmd_teardown W files settings prefix s).0 ≡ ok 0
      → has_object (cmd_teardown W files settings prefix s).1 k ≡ false
  unfolding cmd_teardown
  cmd_teardown-gone files settings prefix s under h =
      elim (Bool-cases (is_empty (normalise_prefix prefix))) [
        | inl blank ↦
            let two : Result ℕ = ok 2 in let bad : two ≡ ok 0 = rw blank at h in ground arith
        | inr given ↦
            let purged = (λ (n : ℕ) (t : W.S).
              then_do (purge_storage W prefix t) (λ deleted u. (ok (exit_code n), u))) in
            let dropped =
              (λ (g : Grouped). drop_layers W settings prefix g (silver ∷ gold ∷ []) 0 s) in
            let (g, e, h1, same) =
              with_value-returned (tables_by_layer files) s (λ g. then_do (dropped g) purged) 0
                (rw given at h) in
            let (n, e2, h2, same2) = then_do-returned (dropped g) purged 0 h1 in
            let t = (dropped g).1 in
            let (m, e3, h3, same3) =
              then_do-returned (purge_storage W prefix t) (λ deleted u. (ok (exit_code n), u)) 0
                h2 in
            rw (given, same, same2, same3) (purge_storage-gone prefix t m under e3)
      ]
