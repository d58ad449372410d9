-- ===== src/Gold/Green.antt =====
-- scripts/gold/build_gold.py: what the exit code 0 of a build means.
use urban_ops_intelligence_p.Prelude.{
  ℕ, ◌≡◌, refl, ap, ◌∙◌, ◌↔◌, true, false, Option, List, [], ◌∷◌, ◌++◌, Text, codes, is_empty, All,
  Result, ok, err, ◌>>=◌, bind-ok, Bool-cases, inl, inr,
}
use urban_ops_intelligence_p.Gold.Tables.{Table, tables, check_order, selected}
use urban_ops_intelligence_p.Gold.ExtraGates.{Gate}
use urban_ops_intelligence_p.Gold.Builder.{Warehouse, Inputs, count_sql, gates_of, meets}
use urban_ops_intelligence_p.Gold.Build.{
  rebuild, check_gates, build_loop, concluded, connected, build,
}

append_nil_left : (xs ys : List Text) → is_empty (xs ++ ys) ≡ true → (xs ≡ []) × (ys ≡ [])
append_nil_left [] [] h = (refl, refl)
append_nil_left [] (y ∷ ys) h = cc
append_nil_left (x ∷ xs) ys h = cc

no_failures {ℓ} :
    {S : Type ℓ} (failures : List Text) (later : List Text × S) (final : S)
    → ◌≡◌ {A = Result (List Text × S)} (ok (failures ++ later.0, later.1)) (ok ([], final))
    → (failures ≡ []) × (later ≡ ([], final))
no_failures [] (gs, t) final h = (refl, cc)
no_failures (f ∷ fs) (gs, t) final h = cc

module _ (W : Warehouse) where
  -- The number that the gate's query returns is what the gate asks for.
  abbrev pub Holds : W.S → Gate → Type 0
  Holds s gate = (actual : ℕ) × (W.scalar gate.query s ≡ ok actual) × (meets gate actual ≡ true)

  check_gates-Holds :
      (gates : List Gate) (s : W.S) → check_gates W gates s ≡ ok [] → All (Holds s) gates
  unfolding check_gates
  check_gates-Holds [] s h = tt
  check_gates-Holds (gate ∷ gates) s h =
      let (actual, e, h1) = bind-ok (W.scalar gate.query s) _ [] h in
      let (failures, later, h2) = bind-ok (check_gates W gates s) _ [] h1 in
      elim (Bool-cases (meets gate actual)) [
        | inl met ↦
            let k : ok failures ≡ ok [] = rw met at h2 in
            let none : failures ≡ [] = cc in
            ((actual, e, met), check_gates-Holds gates s (later ∙ ap ok none))
        | inr missed ↦ let k : ok (gate.query ∷ failures) ≡ ok [] = rw missed at h2 in cc
      ]

  -- The tables are rebuilt in their order, and after each its rows are counted and its gates hold.
  abbrev pub BuiltGreen : Inputs → W.S → List Table → W.S → Type 0
  BuiltGreen inputs s [] final = s ≡ final
  BuiltGreen inputs s (table ∷ rest) final =
      (rebuilt : W.S) × (rebuild W inputs table s ≡ ok rebuilt)
      × (rows : ℕ) × (W.scalar (count_sql table.name) rebuilt ≡ ok rows)
      × All (Holds rebuilt) (gates_of inputs table)
      × BuiltGreen inputs rebuilt rest final

  build_loop-BuiltGreen :
      (inputs : Inputs) (ts : List Table) (s final : W.S)
      → build_loop W inputs ts s ≡ ok ([], final)
      → BuiltGreen inputs s ts final
  unfolding build_loop
  build_loop-BuiltGreen inputs [] s final h = cc
  build_loop-BuiltGreen inputs (table ∷ rest) s final h =
      let (rebuilt, e1, h1) = bind-ok (rebuild W inputs table s) _ _ h in
      let (rows, e2, h2) = bind-ok (W.scalar (count_sql table.name) rebuilt) _ _ h1 in
      let (failures, e3, h3) = bind-ok (check_gates W (gates_of inputs table) rebuilt) _ _ h2 in
      let (later, e4, h4) = bind-ok (build_loop W inputs rest rebuilt) _ _ h3 in
      let (none, same) = no_failures failures later final h4 in
      (
        rebuilt,
        e1,
        rows,
        e2,
        check_gates-Holds (gates_of inputs table) rebuilt (e3 ∙ ap ok none),
        build_loop-BuiltGreen inputs rest rebuilt final (e4 ∙ ap ok same),
      )

  Holds-check_gates :
      (gates : List Gate) (s : W.S) → All (Holds s) gates → check_gates W gates s ≡ ok []
  unfolding check_gates
  Holds-check_gates [] s h = refl
  Holds-check_gates (gate ∷ gates) s ((actual, e, met), h) =
      rw e (rw (Holds-check_gates gates s h) (rw met refl))

  BuiltGreen-build_loop :
      (inputs : Inputs) (ts : List Table) (s final : W.S)
      → BuiltGreen inputs s ts final
      → build_loop W inputs ts s ≡ ok ([], final)
  unfolding build_loop
  BuiltGreen-build_loop inputs [] s final h = ap (λ t. ok ([], t)) h
  BuiltGreen-build_loop inputs (table ∷ rest) s final (rebuilt, e1, rows, e2, gates, h) = rw e1 (
      rw e2 (
        rw (Holds-check_gates (gates_of inputs table) rebuilt gates)
          (rw (BuiltGreen-build_loop inputs rest rebuilt final h) refl)))

  zero_code :
      (failures : List Text) (s final : W.S)
      → ok (concluded W failures s) ≡ ok (0, final)
      → (failures ≡ []) × (s ≡ final)
  zero_code [] s final h = (refl, cc)
  zero_code (f ∷ fs) s final h = cc

  -- Some table is selected, Trino answers, and the build is green.
  abbrev pub AllGreen : Inputs → Option Text → W.S → W.S → Type 0
  AllGreen inputs only s final =
      (is_empty (selected only tables) ≡ false)
      × (answer : ℕ) × (W.scalar (codes "SELECT 1") s ≡ ok answer)
      × BuiltGreen inputs s (selected only tables) final

  connected-zero :
      (r : Result ℕ) (s final : W.S) (rest : Result (ℕ × W.S))
      → connected W r s rest ≡ ok (0, final)
      → (answer : ℕ) × (r ≡ ok answer) × (rest ≡ ok (0, final))
  connected-zero (ok answer) s final rest h = (answer, refl, h)
  connected-zero (err e) s final rest h = cc

  tables_in_order : check_order tables ≡ ok tt
  unfolding check_order
  tables_in_order = refl

  build-green :
      (inputs : Inputs) (only : Option Text) (s final : W.S)
      → build W inputs only s ≡ ok (0, final)
      → AllGreen inputs only s final
  unfolding build
  build-green inputs only s final h =
      let (u, ordered, h1) = bind-ok (check_order tables) _ _ h in
      elim (Bool-cases (is_empty (selected only tables))) [
        | inl nothing ↦ let k : ok (2, s) ≡ ok (0, final) = rw nothing at h1 in cc
        | inr some_selected ↦
            let k : connected W (W.scalar (codes "SELECT 1") s) s (
                  build_loop W inputs (selected only tables) s >>= λ built.
                  ok (concluded W built.0 built.1))
                ≡ ok (0, final) =
              rw some_selected at h1 in
            let (answer, e1, h2) = connected-zero (W.scalar (codes "SELECT 1") s) s final _ k in
            let (built, e2, h3) = bind-ok (build_loop W inputs (selected only tables) s) _ _ h2 in
            let (none, same) = zero_code built.0 built.1 final h3 in
            let e : build_loop W inputs (selected only tables) s ≡ ok ([], final) =
              e2 ∙ (λ i. ok (none i, same i)) in
            (
              some_selected,
              answer,
              e1,
              build_loop-BuiltGreen inputs (selected only tables) s final e,
            )
      ]

  green-build :
      (inputs : Inputs) (only : Option Text) (s final : W.S)
      → AllGreen inputs only s final
      → build W inputs only s ≡ ok (0, final)
  unfolding build
  green-build inputs only s final (some_selected, answer, e, h) = rw tables_in_order (
      rw some_selected
        (rw e (rw (BuiltGreen-build_loop inputs (selected only tables) s final h) refl)))

  -- A build that is not dry ends with the code 0 and a state of the warehouse exactly if the option selects some table, Trino answers, and, one selected table after the other in the order of the list, the rebuild returns, the rows are counted, and every gate of the table holds in the state right after its rebuild, the last of these states being the one the build ends in.
  pub build-AllGreen :
      (inputs : Inputs) (only : Option Text) (s final : W.S)
      → (build W inputs only s ≡ ok (0, final)) ↔ AllGreen inputs only s final
  build-AllGreen inputs only s final =
      (build-green inputs only s final, green-build inputs only s final)
