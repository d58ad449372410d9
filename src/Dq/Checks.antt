-- ===== src/Dq/Checks.antt =====
-- scripts/dq/run_audit.py: what a check measures, over the answers to its queries.
use urban_ops_intelligence_p.Prelude.{
  ℕ, ◌+◌, ◌-◌, Bool, not, ◌&&◌, Option, none, some, List, [], ◌∷◌, ◌++◌, ◌==◌, ltb, if◌then◌else◌,
  Text, codes, text_eq, is_empty, any, keep, map, length, lookup,
}
use urban_ops_intelligence_p.Calendar.{isoformat, date_lt, Date}
use urban_ops_intelligence_p.Platform.{Bytes, Platform}
use urban_ops_intelligence_p.Strings.{replace}
use urban_ops_intelligence_p.Dq.Vocabulary.{Check, Rule}
use urban_ops_intelligence_p.Dq.Audit.{Measured, measured, could_not_run}
use urban_ops_intelligence_p.Dq.Contexts.{
  Answer, answer, failed, on_answer, Profile, all_null, Context, sum_of, with_entry, or_zero,
}
use urban_ops_intelligence_p.Dq.Chunks.{required_row, chunked_check}
use urban_ops_intelligence_p.Dq.Manifests.{bronze_manifest_rows}
use urban_ops_intelligence_p.Gold.Tables.{Table, tables}

module _ (P : Platform) (loads : Bytes → ℕ) (s : P.State) {F : Type 0} (ctx : Context F) where
  -- The profiles of all tables, in their order.
  abbrev profiles : List Table → Answer (List Profile)
  profiles [] = answer []
  profiles (t ∷ ts) = joined (ctx.profile_of t.name) (profiles ts)
    where
      joined : Answer Profile → Answer (List Profile) → Answer (List Profile)
      joined (failed e) later = failed e
      joined (answer p) (failed e) = failed e
      joined (answer p) (answer ps) = answer (p ∷ ps)

  -- `report.rate(nulls)`
  abbrev rate : Profile → ℕ → F
  rate report nulls = if report.rows == 0 then ctx.of_count 0 else ctx.percent nulls report.rows

  abbrev of_column : Profile → Text → Option ℕ → Measured F
  of_column report column none = could_not_run column
  of_column report column (some nulls) =
      measured (some (rate report nulls)) (some report.rows) (some nulls)

  abbrev is_listed : List (Text × Text) → Text → Text → Bool
  is_listed listed table column = any (λ l. text_eq l.0 table && text_eq l.1 column) listed

  abbrev null_rate : List (Text × Text) → Text → Option Text → Profile → Measured F
  null_rate listed table (some column) report = of_column report column (lookup column report.nulls)
  null_rate listed table none report =
      let offenders = keep (λ c. ltb 0 c.1 && not (is_listed listed table c.0)) report.nulls in
      measured (some (ctx.of_count (length offenders))) (some (length report.nulls))
        (some (sum_of (map (λ c. c.1) offenders)))

  abbrev cutoff : Date
  cutoff = if date_lt ctx.trimmed_today ctx.window_end then ctx.trimmed_today else ctx.window_end

  abbrev silver_query : Text → Text → Text
  silver_query table column =
      codes "SELECT COUNT(*) FROM "
      ++ (ctx.silver_schema
          ++ (codes "."
              ++ (table
                  ++ (codes " WHERE "
                      ++ (column
                          ++ (codes " >= DATE '"
                              ++ (isoformat ctx.window_start
                                  ++ (codes "' AND "
                                      ++ (column
                                          ++ (codes " < DATE '"
                                              ++ (isoformat cutoff ++ codes "'")))))))))))

  abbrev compared_sums : Check → ℕ × List Text → Measured F
  compared_sums check bronze =
      if is_empty bronze.1
      then with_entry check (codes "silver_table") (λ table.
        with_entry check (codes "silver_date_column") (λ column.
          on_answer (ctx.silver_count (silver_query table column)) (λ n.
            measured (some (ctx.difference bronze.0 (or_zero n))) (some bronze.0)
              (some ((bronze.0 - or_zero n) + (or_zero n - bronze.0))))))
      else could_not_run (codes "manifests absent")

  abbrev manifest_check : Check → Measured F
  manifest_check check =
      if is_empty ctx.bucket
      then could_not_run (codes "no bucket configured")
      else if date_lt ctx.window_start cutoff
      then with_entry check (codes "source_id") (λ source_id.
        with_entry check (codes "dataset") (λ dataset.
          compared_sums check
            (bronze_manifest_rows P loads source_id dataset ctx.window_start cutoff s)))
      else could_not_run (codes "nothing to compare")

  abbrev sql_check : Check → Measured F
  sql_check check = with_entry check (codes "sql") (λ sql.
      on_answer
        (ctx.first_row (
          replace (codes "{window_end}") (isoformat ctx.window_end) (
            replace (codes "{window_start}") (isoformat ctx.window_start)
              (replace (codes "{{ silver }}") ctx.silver_schema sql))))
        (λ row. required_row row (λ x d. measured (some x) d none)))

  abbrev aged : Text → Option F → Measured F
  aged table none = could_not_run table
  aged table (some days) = measured (some days) none none

  -- `run_check`
  unfoldable pub run_check : List (Text × Text) → Rule F → Text → Measured F
  run_check listed rule table =
      if text_eq rule.check.type (codes "ddl_assertions")
      then on_answer (ctx.violations table) (λ counts.
        measured (some (ctx.of_count (sum_of counts))) (some (length counts))
          (some (sum_of counts)))
      else if text_eq rule.check.type (codes "row_count")
      then on_answer (ctx.profile_of table)
          (λ report. measured (some (ctx.of_count report.rows)) (some report.rows) none)
      else if text_eq rule.check.type (codes "null_rate")
      then on_answer (ctx.profile_of table)
          (null_rate listed table (lookup (codes "column") rule.check.entries))
      else if text_eq rule.check.type (codes "empty_tables")
      then on_answer (profiles tables) (λ reports.
        let n = length (keep (λ r. r.rows == 0) reports) in
        measured (some (ctx.of_count n)) (some (length tables)) (some n))
      else if text_eq rule.check.type (codes "all_null_columns")
      then on_answer (profiles tables) (λ reports.
        let n = sum_of (map (λ r. length (all_null r)) reports) in
        measured (some (ctx.of_count n)) (some (length tables)) (some n))
      else if text_eq rule.check.type (codes "partition_freshness")
      then with_entry rule.check (codes "partition_column")
          (λ column. on_answer (ctx.partition_age table column) (aged table))
      else if text_eq rule.check.type (codes "bronze_manifest_sum")
      then manifest_check rule.check
      else if text_eq rule.check.type (codes "chunked_sql")
      then chunked_check ctx rule.check rule.check.chunk_range
      else if text_eq rule.check.type (codes "sql")
      then sql_check rule.check
      else could_not_run rule.check.type
