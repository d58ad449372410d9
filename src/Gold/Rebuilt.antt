-- ===== src/Gold/Rebuilt.antt =====
-- scripts/gold/build_gold.py: a rebuilt table holds the rows of its own SELECT statements.
use urban_ops_intelligence_p.Prelude.{
  ℕ, zero, ◌≡◌, refl, sym, ap, subst, ◌∙◌, true, List, [], ◌∷◌, ◌++◌, ◌==◌, Text, map, length,
  append_assoc, append-nil, Result, ok, err, bind-ok, arith, Bool-cases, inl, inr,
}
use urban_ops_intelligence_p.Gold.Tables.{Table}
use urban_ops_intelligence_p.Gold.Builder.{Warehouse, Inputs, count_sql, insert_sql, selects_of}
use urban_ops_intelligence_p.Gold.Build.{insert_all, created, rebuild}

-- What the build relies on of Trino: the rows of a table, which its count counts, and the rows of a
-- SELECT statement, which an INSERT adds to them.
pub record Tabular (W : Warehouse) : Type 1 where
  pub Row : Type 0
  pub rows : Text → W.S → List Row
  pub chosen : Text → W.S → List Row
  pub count_law :
      (name : Text) (s : W.S) (n : ℕ)
      → W.scalar (count_sql name) s ≡ ok n
      → n ≡ length (rows name s)
  pub insert_law :
      (name : Text) (columns : List Text) (select : Text) (s t : W.S)
      → W.run (insert_sql name columns select) s ≡ ok t
      → rows name t ≡ rows name s ++ chosen select s

same_number : (n : ℕ) → (n == 0) ≡ true → n ≡ 0
same_number n h = ground arith

module _ (W : Warehouse) (T : Tabular W) where
  abbrev rows_after : (W.S → List T.Row) → Result W.S → List T.Row
  rows_after f (ok t) = f t
  rows_after f (err e) = []

  -- The rows of the statements, each in the state that the INSERT before it leaves.
  abbrev pub chosen_in_turn : Text → List Text → List Text → W.S → List T.Row
  chosen_in_turn name columns [] s = []
  chosen_in_turn name columns (select ∷ selects) s =
      T.chosen select s
      ++ rows_after (λ t. chosen_in_turn name columns selects t)
          (W.run (insert_sql name columns select) s)

  insert_all-rows :
      (name : Text) (columns selects : List Text) (s final : W.S)
      → insert_all W name columns selects s ≡ ok final
      → T.rows name final ≡ T.rows name s ++ chosen_in_turn name columns selects s
  unfolding insert_all
  insert_all-rows name columns [] s final h =
      let same : s ≡ final = cc in
      subst (λ t. T.rows name t ≡ T.rows name s ++ []) same (sym (append-nil (T.rows name s)))
  insert_all-rows name columns (select ∷ selects) s final h =
      let (t, e, k) =
        bind-ok (W.run (insert_sql name columns select) s)
          (λ t. insert_all W name columns selects t) final h in
      rw e (
        insert_all-rows name columns selects t final k
        ∙ ap (λ r. r ++ chosen_in_turn name columns selects t)
            (T.insert_law name columns select s t e)
        ∙ append_assoc (T.rows name s) (T.chosen select s) (chosen_in_turn name columns selects t))

  no_rows : (rows : List T.Row) → zero ≡ length rows → rows ≡ []
  no_rows [] h = refl
  no_rows (r ∷ rows) h = ground arith

  -- A rebuild that returns has read its SELECT statements, has dropped, purged and created the table, and leaves in it exactly the rows of these statements, each as it was in the state that the INSERT before it left; no row from before is among them.
  pub rebuild-rows :
      (inputs : Inputs) (table : Table) (s final : W.S)
      → rebuild W inputs table s ≡ ok final
      → (selects : List Text) × (fresh : W.S) × (selects_of inputs table ≡ ok selects)
        × (created W inputs table s ≡ ok fresh)
        × (T.rows table.name final
            ≡ chosen_in_turn table.name (map (λ c. c.0) (inputs.columns table.name)) selects fresh)
  unfolding rebuild
  rebuild-rows inputs table s final h =
      let columns = map (λ c. c.0) (inputs.columns table.name) in
      let (selects, e1, h1) = bind-ok (selects_of inputs table) _ final h in
      let (fresh, e2, h2) = bind-ok (created W inputs table s) _ final h1 in
      let (stale, e3, h3) = bind-ok (W.scalar (count_sql table.name) fresh) _ final h2 in
      elim (Bool-cases (stale == 0)) [
        | inl clean ↦
            let k : insert_all W table.name columns selects fresh ≡ ok final = rw clean at h3 in
            let zero_rows : zero ≡ length (T.rows table.name fresh) =
              omega (arith, T.count_law table.name fresh stale e3, same_number stale clean) in
            let none = no_rows (T.rows table.name fresh) zero_rows in
            (
              selects,
              fresh,
              e1,
              e2,
              insert_all-rows table.name columns selects fresh final k
                  ∙ ap (λ r. r ++ chosen_in_turn table.name columns selects fresh) none,
            )
        | inr dirty ↦ let k : err _ ≡ ok final = rw dirty at h3 in cc
      ]
