-- ===== src/Dq/Chunks.antt =====
-- scripts/dq/run_audit.py: the sums of a check that is asked year by year.
use urban_ops_intelligence_p.Prelude.{
  ℕ, ◌+◌, ◌≡◌, refl, ap, ◌∙◌, Option, none, some, List, [], ◌∷◌, Text, codes, lookup,
}
use urban_ops_intelligence_p.Strings.{replace}
use urban_ops_intelligence_p.Dq.Vocabulary.{Check}
use urban_ops_intelligence_p.Dq.Audit.{Measured, measured, could_not_run}
use urban_ops_intelligence_p.Dq.Contexts.{
  answer, on_answer, Context, on_entry, with_entry, chunk_bounds, nonzero, or_zero,
}

-- A row that a query must bring, with its optional second column.
abbrev pub required_row :
    {F : Type 0} → Option (Option F × Option ℕ) → (F → Option ℕ → Measured F) → Measured F
required_row none f = could_not_run (codes "query returned no row")
required_row (some (none, d)) f = could_not_run (codes "query returned no row")
required_row (some (some x, d)) f = f x d

module _ {F : Type 0} (ctx : Context F) where
  abbrev chunk_sql : Text → Text × Text → Text
  chunk_sql sql chunk = replace (codes "{chunk_end}") chunk.1 (
      replace (codes "{chunk_start}") chunk.0
        (replace (codes "{{ silver }}") ctx.silver_schema sql))

  -- The loop over the chunks, with the sums so far.
  unfoldable pub chunk_loop : Check → List (Text × Text) → F → ℕ → Measured F
  chunk_loop check [] numerator denominator = measured (some numerator) (nonzero denominator) none
  chunk_loop check (chunk ∷ chunks) numerator denominator = with_entry check (codes "sql") (λ sql.
      on_answer (ctx.first_row (chunk_sql sql chunk)) (λ row.
        required_row row
          (λ x d. chunk_loop check chunks (ctx.plus numerator x) (denominator + or_zero d))))

  abbrev pub chunked_check : Check → Option (ℕ × ℕ) → Measured F
  chunked_check check none = could_not_run (codes "chunk_range")
  chunked_check check (some range) = chunk_loop check (chunk_bounds range) (ctx.of_count 0) 0

  -- What the chunks bring, on top of the sums so far.
  abbrev totals : (Text × Text → F × Option ℕ) → List (Text × Text) → F → ℕ → F × ℕ
  totals rows [] x n = (x, n)
  totals rows (c ∷ cs) x n = totals rows cs (ctx.plus x (rows c).0) (n + or_zero (rows c).1)

  -- Where the rule has a query and every chunk brings a row, the check measures the sum of the first columns over the sum of the second ones, chunk by chunk in their order, and never an average of ratios.
  pub chunk_loop-totals :
      (check : Check) (sql : Text) (rows : Text × Text → F × Option ℕ)
      → lookup (codes "sql") check.entries ≡ some sql
      → ((c : Text × Text)
          → ctx.first_row (chunk_sql sql c) ≡ answer (some (some (rows c).0, (rows c).1)))
      → (cs : List (Text × Text)) (x : F) (n : ℕ)
      → chunk_loop check cs x n
        ≡ measured (some (totals rows cs x n).0) (nonzero (totals rows cs x n).1) none
  unfolding chunk_loop
  chunk_loop-totals check sql rows given brings [] x n = refl
  chunk_loop-totals check sql rows given brings (c ∷ cs) x n =
      ap
        (λ e. on_entry (codes "sql") e (λ sql.
          on_answer (ctx.first_row (chunk_sql sql c))
            (λ row. required_row row (λ y d. chunk_loop check cs (ctx.plus x y) (n + or_zero d)))))
        given
      ∙ (ap
            (λ a.
              on_answer a (λ row.
                required_row row (λ y d. chunk_loop check cs (ctx.plus x y) (n + or_zero d))))
            (brings c)
          ∙ chunk_loop-totals check sql rows given brings cs (ctx.plus x (rows c).0)
              (n + or_zero (rows c).1))
