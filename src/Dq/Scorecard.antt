-- ===== src/Dq/Scorecard.antt =====
-- scripts/dq/scorecard.py: the streaks of failing rules, over the rows that the log returns.
use urban_ops_intelligence_p.Prelude.{
  ℕ, suc, Bool, ◌&&◌, Option, List, [], ◌∷◌, if◌then◌else◌, Text, text_eq, ltb, is_some, any, keep,
}

abbrev pub Key : Type 0
Key = Text × Text

abbrev pub key_eq : Key → Key → Bool
key_eq j k = text_eq j.0 k.0 && text_eq j.1 k.1

-- A row of `STREAK_SQL`; the rows of a rule and a table come with the newest run first.
pub record StreakRow : Type 0 where
  pub key : Key
  pub passed : Bool
  pub error_text : Option Text

pub record Streaks : Type 0 where
  pub streaks : List (Key × ℕ)
  pub seen_pass : List Key

-- `streaks[key] = streaks.get(key, 0) + 1`
abbrev pub extended : Key → List (Key × ℕ) → List (Key × ℕ)
extended k [] = (k, 1) ∷ []
extended k ((j, n) ∷ d) =
    let rest = extended k d in if key_eq j k then (j, suc n) ∷ d else (j, n) ∷ rest

-- The body of the loop.
unfoldable pub streak_step : Streaks → StreakRow → Streaks
streak_step s row =
    if any (key_eq row.key) s.seen_pass
    then s
    else if is_some row.error_text
    then s
    else if row.passed
    then record { streaks = s.streaks; seen_pass = row.key ∷ s.seen_pass }
    else record { streaks = extended row.key s.streaks; seen_pass = s.seen_pass }

unfoldable pub streak_loop : Streaks → List StreakRow → Streaks
streak_loop s [] = s
streak_loop s (row ∷ rows) = streak_loop (streak_step s row) rows

-- `failing_streaks`
unfoldable pub failing_streaks : List StreakRow → List (Key × ℕ)
failing_streaks rows =
    let s = streak_loop (record { streaks = []; seen_pass = [] }) rows in
    keep (λ entry. ltb 0 entry.1) s.streaks
