-- ===== src/Tests/Measures.antt =====
-- A check that is asked year by year, and one whose query brings no row.
use urban_ops_intelligence_p.Prelude.{
  ℕ, ◌+◌, ◌-◌, ◌≡◌, refl, Option, none, some, [], ◌∷◌, Text, codes,
}
use urban_ops_intelligence_p.Calendar.{date}
use urban_ops_intelligence_p.Dq.Vocabulary.{scalar, Rule}
use urban_ops_intelligence_p.Dq.Audit.{measured, could_not_run}
use urban_ops_intelligence_p.Dq.Contexts.{Answer, answer, Context}
use urban_ops_intelligence_p.Dq.Chunks.{chunk_loop}
use urban_ops_intelligence_p.Dq.Checks.{run_check}
use urban_ops_intelligence_p.Tests.Data.{memory}

-- Every table is empty, and a query brings the given row.
abbrev context : (Text → Answer (Option (Option ℕ × Option ℕ))) → Context ℕ
context rows = record {
  silver_schema = codes "silver";
  bucket = codes "bronze";
  window_start = date 2024 1 1;
  window_end = date 2024 2 1;
  trimmed_today = date 2024 2 1;
  violations = λ t. answer [];
  profile_of = λ t. answer (record { rows = 0; nulls = [] });
  partition_age = λ t c. answer none;
  first_row = rows;
  silver_count = λ q. answer none;
  of_count = λ n. n;
  difference = λ a b. a - b;
  plus = λ a b. a + b;
  percent = λ n rows. n;
}

abbrev yearly : Rule ℕ
yearly = record {
  id = codes "hits";
  layer = codes "cross_layer";
  table = codes "fact";
  dimension = codes "statistical";
  check = record {
    type = codes "chunked_sql";
    entries = (codes "sql", codes "SELECT hits FROM {{ silver }}.t WHERE d < '{chunk_end}'") ∷ [];
    chunk_range = some (2008, 2010);
  };
  comparator = codes ">=";
  expected = scalar (some 1);
  severity = codes "error";
  cadence = codes "weekly";
}

two_years :
    run_check memory
      (λ b. 0)
      []
      (context (λ q. answer (some (some 3, some 5))))
      []
      yearly
      (codes "fact")
    ≡ measured (some 6) (some 10) none
unfolding run_check chunk_loop
two_years = refl

no_row :
    run_check memory (λ b. 0) [] (context (λ q. answer none)) [] yearly (codes "fact")
    ≡ could_not_run (codes "query returned no row")
unfolding run_check chunk_loop
no_row = refl
