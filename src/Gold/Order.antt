-- ===== src/Gold/Order.antt =====
-- scripts/gold/build_gold.py: what the check of the order accepts.
use urban_ops_intelligence_p.Prelude.{
  ◌≡◌, refl, ap, subst, ◌↔◌, true, false, List, [], ◌∷◌, ◌++◌, Text, text_eq, is_empty, any, All,
  ok, err, Bool-cases, inl, inr,
}
use urban_ops_intelligence_p.Gold.Tables.{Table, missing, order_loop, check_order}

-- Each text is one of the others.
abbrev pub Among : List Text → List Text → Type 0
Among names deps = All (λ d. any (text_eq d) names ≡ true) deps

missing-Among : (seen deps : List Text) → is_empty (missing seen deps) ≡ true → Among seen deps
missing-Among seen [] h = tt
missing-Among seen (d ∷ deps) h = elim (Bool-cases (any (text_eq d) seen)) [
  | inl found ↦
      let k : is_empty (missing seen deps) ≡ true = rw found at h in
      (found, missing-Among seen deps k)
  | inr lost ↦ let k : false ≡ true = rw lost at h in cc
]

Among-missing : (seen deps : List Text) → Among seen deps → is_empty (missing seen deps) ≡ true
Among-missing seen [] h = refl
Among-missing seen (d ∷ deps) h = rw h.0 (Among-missing seen deps h.1)

-- The names that were built before, the newest first.
abbrev pub names_after : List Text → List Table → List Text
names_after seen [] = seen
names_after seen (t ∷ ts) = names_after (t.name ∷ seen) ts

order_loop-step :
    (seen : List Text) (t : Table) (ts : List Table)
    → order_loop seen (t ∷ ts) ≡ ok tt
    → Among seen t.deps × (order_loop (t.name ∷ seen) ts ≡ ok tt)
unfolding order_loop
order_loop-step seen t ts h = elim (Bool-cases (is_empty (missing seen t.deps))) [
  | inl none_missing ↦
      let k : order_loop (t.name ∷ seen) ts ≡ ok tt = rw none_missing at h in
      (missing-Among seen t.deps none_missing, k)
  | inr some_missing ↦ let k : err _ ≡ ok tt = rw some_missing at h in cc
]

order_loop-Among :
    (seen : List Text) (before : List Table) (t : Table) (after : List Table)
    → order_loop seen (before ++ (t ∷ after)) ≡ ok tt
    → Among (names_after seen before) t.deps
order_loop-Among seen [] t after h = (order_loop-step seen t after h).0
order_loop-Among seen (b ∷ before) t after h =
    order_loop-Among (b.name ∷ seen) before t after
      (order_loop-step seen b (before ++ (t ∷ after)) h).1

-- Every table of the list, wherever it stands, has its dependencies before it.
abbrev pub DepsFirst : List Text → List Table → Type 0
DepsFirst seen ts =
    (before : List Table) (t : Table) (after : List Table)
    → ts ≡ before ++ (t ∷ after)
    → Among (names_after seen before) t.deps

DepsFirst-order_loop :
    (seen : List Text) (ts : List Table) → DepsFirst seen ts → order_loop seen ts ≡ ok tt
unfolding order_loop
DepsFirst-order_loop seen [] h = refl
DepsFirst-order_loop seen (t ∷ ts) h = rw (Among-missing seen t.deps (h [] t ts refl)) (
    DepsFirst-order_loop (t.name ∷ seen) ts
      (λ before u after e. h (t ∷ before) u after (ap (λ rest. t ∷ rest) e)))

-- The check of the order of a list of tables passes exactly if, wherever a table stands in the list, every one of its dependencies is the name of a table before it.
pub check_order-DepsFirst : (ts : List Table) → (check_order ts ≡ ok tt) ↔ DepsFirst [] ts
unfolding check_order
check_order-DepsFirst ts = (
  λ h before t after e.
      order_loop-Among [] before t after (subst (λ us. order_loop [] us ≡ ok tt) e h),
  DepsFirst-order_loop [] ts,
)
