-- ===== src/Tests/Audits.antt =====
-- An audit of two rules, and its verdict.
use urban_ops_intelligence_p.Prelude.{
  ℕ, ◌+◌, ◌-◌, ◌<◌, ◌≡◌, ◌↔◌, refl, Bool, true, false, Option, none, some, List, [], ◌∷◌, ◌++◌,
  ◌==◌, leb, Text, codes, map, length, All, is_empty, ok,
}
use urban_ops_intelligence_p.Dq.Vocabulary.{Check, scalar, RawRule, Rule, runs_on}
use urban_ops_intelligence_p.Dq.Comparators.{Numbers, evaluate}
use urban_ops_intelligence_p.Dq.Rules.{
  validated_expected, validate_check, validated_check, validate, validate_each, distinct_ids,
  load_rules,
}
use urban_ops_intelligence_p.Dq.Loaded.{has_repeat}
use urban_ops_intelligence_p.Dq.Scorecard.{Key, StreakRow, failing_streaks}
use urban_ops_intelligence_p.Dq.Streaks.{
  streak_of, unless_zero, failures_before_pass, failing_streaks-failures_before_pass,
}
use urban_ops_intelligence_p.Dq.Audit.{
  Measured, measured, Observation, expand, on_cadence, audit_loop, audit,
}
use urban_ops_intelligence_p.Dq.Runs.{row_key, pair_key, load_rules-audit}
use urban_ops_intelligence_p.Dq.Certify.{certified, summarise_run}
use urban_ops_intelligence_p.Dq.Certified.{Sound, audit-certified}
use urban_ops_intelligence_p.SnowfallEvents.{segments}
use urban_ops_intelligence_p.SnowfallEvents.Segments.{joined, Tight, Separated, segments-joined}

abbrev whole : Numbers
whole = record {
  F = ℕ;
  le = leb;
  equal = λ a b. a == b;
  zero_number = 0;
  distance = λ a b. (a - b) + (b - a);
  percent_change = λ a b. (a - b) + (b - a);
}

abbrev counting : Check
counting = record { type = codes "row_count"; entries = []; chunk_range = none }

abbrev raw_rule : Text → Text → ℕ → RawRule ℕ
raw_rule id table n = record {
  id = some id;
  layer = some (codes "gold");
  table = some table;
  dimension = some (codes "statistical");
  check = some counting;
  comparator = some (codes ">=");
  expected = some (scalar (some n));
  severity = some (codes "error");
  cadence = some (codes "daily");
}

abbrev rule : Text → Text → ℕ → Rule ℕ
rule id table n = record {
  id = id;
  layer = codes "gold";
  table = table;
  dimension = codes "statistical";
  check = counting;
  comparator = codes ">=";
  expected = scalar (some n);
  severity = codes "error";
  cadence = codes "daily";
}

abbrev raw_rules : List (RawRule ℕ)
raw_rules =
    raw_rule (codes "zones") (codes "dim_plow_zone") 20
    ∷ raw_rule (codes "bans") (codes "fact_parking_ban") 9
    ∷ []

abbrev rules : List (Rule ℕ)
rules =
    rule (codes "zones") (codes "dim_plow_zone") 20
    ∷ rule (codes "bans") (codes "fact_parking_ban") 9
    ∷ []

abbrev no_silver : Text → List Text
no_silver sql = []

abbrev twelve_rows : Rule ℕ → Text → Measured ℕ
twelve_rows r table = measured (some 12) (some 12) none

abbrev no_previous : Text → Text → Option ℕ
no_previous id table = none

rules_load : load_rules no_silver raw_rules ≡ ok rules
unfolding load_rules validate_each validate validated_check validate_check validated_expected
    distinct_ids
rules_load = refl

load_rules-audit_example :
    (has_repeat [] (map (λ r. r.id) rules) ≡ false)
    × (rows : List (Observation ℕ)) × (audit whole twelve_rows no_previous
          (codes "dq-1")
          (codes "daily")
          rules
        ≡ ok rows)
    × (map row_key rows
        ≡ map pair_key (on_cadence whole twelve_rows no_previous (codes "daily") (expand rules)))
load_rules-audit_example =
    load_rules-audit whole twelve_rows no_previous no_silver raw_rules rules (codes "dq-1")
      (codes "daily") rules_load (refl, (refl, tt))

abbrev row_of : Text → Text → Bool → Observation ℕ
row_of id table passed = record {
  run_id = codes "dq-1";
  cadence = codes "daily";
  layer = codes "gold";
  table_name = table;
  rule_id = id;
  dimension = codes "statistical";
  severity = codes "error";
  observed = some 12;
  comparator = codes ">=";
  passed = passed;
  previous_observed = none;
  rows_checked = some 12;
  rows_failed = none;
  error_text = none;
}

abbrev rows : List (Observation ℕ)
rows =
    row_of (codes "zones") (codes "dim_plow_zone") false
    ∷ row_of (codes "bans") (codes "fact_parking_ban") true
    ∷ []

abbrev earlier : List (Observation ℕ)
earlier =
    record (row_of (codes "zones") (codes "dim_plow_zone") true) { run_id = codes "dq-0" } ∷ []

audited : audit whole twelve_rows no_previous (codes "dq-1") (codes "daily") rules ≡ ok rows
unfolding audit audit_loop expand runs_on evaluate
audited = refl

audit-certified_example :
    ((summarise_run (codes "dq-1") (earlier ++ rows)).status ≡ certified)
    ↔ ((0 < length rows) × All Sound rows)
audit-certified_example =
    audit-certified whole twelve_rows no_previous (codes "dq-1") (codes "daily") rules earlier rows
      audited (refl, tt)

abbrev zones : Key
zones = (codes "zones", codes "dim_plow_zone")

abbrev streak_rows : List StreakRow
streak_rows =
    record { key = zones; passed = false; error_text = none }
    ∷ record { key = zones; passed = false; error_text = some (codes "timeout") }
    ∷ record { key = zones; passed = false; error_text = none }
    ∷ record { key = zones; passed = true; error_text = none }
    ∷ record { key = zones; passed = false; error_text = none }
    ∷ []

failing_streaks-failures_before_pass_example :
    streak_of zones (failing_streaks streak_rows)
    ≡ unless_zero (failures_before_pass zones streak_rows)
failing_streaks-failures_before_pass_example =
    failing_streaks-failures_before_pass zones streak_rows

streak_test : failures_before_pass zones streak_rows ≡ 2
streak_test = refl

segments-joined_example :
    (joined (segments 1 [] (3 ∷ 4 ∷ 6 ∷ 9 ∷ [])) ≡ 3 ∷ 4 ∷ 6 ∷ 9 ∷ [])
    × All (λ run. (is_empty run ≡ false) × Tight 1 run) (segments 1 [] (3 ∷ 4 ∷ 6 ∷ 9 ∷ []))
    × Separated 1 (segments 1 [] (3 ∷ 4 ∷ 6 ∷ 9 ∷ []))
segments-joined_example = segments-joined 1 (3 ∷ 4 ∷ 6 ∷ 9 ∷ [])

segments_test : segments 1 [] (3 ∷ 4 ∷ 6 ∷ 9 ∷ []) ≡ (3 ∷ 4 ∷ 6 ∷ []) ∷ (9 ∷ []) ∷ []
unfolding segments
segments_test = refl
