-- ===== src/Socrata/Retry.antt =====
-- `_request_with_retry`: which answer it returns, and how long it waits.
use urban_ops_intelligence_p.Prelude.{
  ℕ, zero, suc, ◌+◌, ◌≤◌, ◌≡◌, List, [], ◌∷◌, Option, none, some, arith, length, Result, ok, err,
  unexpected_after_retries, failed_after_attempts, request_exception,
}
use urban_ops_intelligence_p.Records.{Record}
use urban_ops_intelligence_p.Socrata.{
  Reply, request_failed, rows, Session, Query, max_retries, request_with_retry,
}

abbrev pub total : List ℕ → ℕ
total [] = 0
total (x ∷ xs) = x + total xs

-- The first rows among the attempts from `attempt` on, of which there are `left`.
abbrev pub first_rows : (ℕ → Reply) → ℕ → ℕ → Option (List Record)
first_rows reply zero attempt = none
first_rows reply (suc left) attempt =
    let later = first_rows reply left (attempt + 1) in
    elim (reply attempt) [ rows rs ↦ some rs | _ ↦ later ]

-- The error once no attempt gave rows: the last attempt's failure, or that all were used up.
abbrev pub last_error : Reply → Result (List Record)
last_error (request_failed e) = err (failed_after_attempts max_retries (request_exception e))
last_error _ = err (unexpected_after_retries max_retries)

abbrev pub or_error : Option (List Record) → Result (List Record) → Result (List Record)
or_error none failure = failure
or_error (some rs) failure = ok rs

-- A request returns the first rows among five attempts, whatever failures and rate limits come
-- before them. With no rows among the five it raises: the failure of the last attempt, or, if
-- that was a rate limit, that the attempts are used up.
pub request_with_retry_lem :
    (session : Session) (q : Query)
    → (request_with_retry session q).result
      ≡ or_error (first_rows (session q) 5 0) (last_error (session q 4))
unfolding request_with_retry
request_with_retry_lem session q = ground arith

-- A request sleeps 31 seconds at most, and five times at most.
pub request_with_retry_sleeps :
    (session : Session) (q : Query)
    → (total (request_with_retry session q).sleeps ≤ 31)
      × (length (request_with_retry session q).sleeps ≤ 5)
unfolding request_with_retry
request_with_retry_sleeps session q = ground arith
