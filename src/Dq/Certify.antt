-- ===== src/Dq/Certify.antt =====
-- scripts/dq/certify.py: the verdict of a run, from its rows of the log.
use urban_ops_intelligence_p.Prelude.{
  ℕ, Bool, not, ◌&&◌, List, [], ◌∷◌, ◌==◌, if◌then◌else◌, Text, codes, text_eq, ltb, is_some, keep,
  length,
}
use urban_ops_intelligence_p.Dq.Audit.{Observation}

pub data Status : Type 0 where
  certified suspect unknown : Status

-- The verdict, without its note.
pub record Verdict : Type 0 where
  pub run_id : Text
  pub cadence : Text
  pub status : Status
  pub error_count : ℕ
  pub warn_count : ℕ
  pub checks_total : ℕ
  pub checks_could_not_run : ℕ

-- `decide`
unfoldable pub decide : ℕ → ℕ → ℕ → ℕ → Status
decide error_count warn_count checks_total checks_could_not_run =
    if checks_total == 0
    then unknown
    else if ltb 0 checks_could_not_run
    then unknown
    else if ltb 0 error_count
    then suspect
    else certified

module _ {F : Type 0} where
  -- `COUNT_IF`
  abbrev pub count_if : (Observation F → Bool) → List (Observation F) → ℕ
  count_if p rows = length (keep p rows)

  abbrev pub failed_at : Text → Observation F → Bool
  failed_at severity row =
      not row.passed && (not (is_some row.error_text) && text_eq row.severity severity)

  -- The rows of the log that `WHERE run_id = …` selects.
  abbrev pub rows_of_run : Text → List (Observation F) → List (Observation F)
  rows_of_run run_id log = keep (λ row. text_eq row.run_id run_id) log

  -- `SUMMARY_SQL` and `decide`, on the group of the first row's cadence
  unfoldable pub verdict_on : Text → List (Observation F) → Verdict
  verdict_on run_id [] = record {
    run_id = run_id;
    cadence = codes "unknown";
    status = decide 0 0 0 0;
    error_count = 0;
    warn_count = 0;
    checks_total = 0;
    checks_could_not_run = 0;
  }
  verdict_on run_id (first ∷ rest) =
      let group = keep (λ row. text_eq row.cadence first.cadence) (first ∷ rest) in
      let errors = count_if (failed_at (codes "error")) group in
      let warns = count_if (failed_at (codes "warn")) group in
      let broken = count_if (λ row. is_some row.error_text) group in
      record {
        run_id = run_id;
        cadence = first.cadence;
        status = decide errors warns (length group) broken;
        error_count = errors;
        warn_count = warns;
        checks_total = length group;
        checks_could_not_run = broken;
      }

  -- `summarise_run`, of the log
  unfoldable pub summarise_run : Text → List (Observation F) → Verdict
  summarise_run run_id log = verdict_on run_id (rows_of_run run_id log)
