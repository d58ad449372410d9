-- ===== src/Socrata.antt =====
-- ingestion/clients/socrata_client.py. A portal is a parameter: what it answers to the n-th attempt
-- at a request. Seconds of back-off are whole numbers, as 1.0 doubled four times is.
pub mod Retry
pub mod Pages
use urban_ops_intelligence_p.Prelude.{
  ℕ, zero, suc, ◌+◌, ◌-◌, ◌*◌, Bool, true, false, not, Option, none, some, List, [], ◌∷◌, ◌++◌, ltb,
  if◌then◌else◌, Text, codes, length, is_empty, Exception, request_exception, failed_after_attempts,
  unexpected_after_retries, blank_domain, out_of_fuel, Result, ok, err, Generator, stop, raises,
  yield_from, list_of,
}
use urban_ops_intelligence_p.Calendar.{Date}
use urban_ops_intelligence_p.Config.{is_blank}
use urban_ops_intelligence_p.Records.{Record}

abbrev pub default_page_size : ℕ
default_page_size = 1000

abbrev pub max_retries : ℕ
max_retries = 5

abbrev pub initial_backoff_secs : ℕ
initial_backoff_secs = 1

-- The parameters of a request. A window is the field with its start and its end, at midnight.
pub record Query : Type 0 where
  pub limit : ℕ
  pub offset : ℕ
  pub where_clause : Option (Text × Date × Date)
  pub order_by : Option Text

-- One attempt: status 429, a `RequestException`, or the parsed rows.
pub data Reply : Type 0 where
  rate_limited : Reply
  request_failed : ℕ → Reply
  rows : List Record → Reply

-- What a portal answers to a request, at each attempt.
abbrev pub Session : Type 0
Session = Query → ℕ → Reply

-- What `_request_with_retry` returns or raises, and the sleeps that it made.
pub record Attempted : Type 0 where
  pub result : Result (List Record)
  pub sleeps : List ℕ

abbrev slept : ℕ → Attempted → Attempted
slept backoff a = record { result = a.result; sleeps = backoff ∷ a.sleeps }

-- The loop with `left` attempts to go, at attempt number `attempt`.
unfoldable pub request_loop : (ℕ → Reply) → ℕ → ℕ → ℕ → Attempted
request_loop reply zero attempt backoff = record {
  result = err (unexpected_after_retries max_retries);
  sleeps = [];
}
request_loop reply (suc left) attempt backoff =
    let later = request_loop reply left (attempt + 1) (backoff * 2) in
    elim (reply attempt) [
      | rate_limited ↦ slept backoff later
      | request_failed e ↦ if ltb attempt (max_retries - 1) then slept backoff later else record {
        result = err (failed_after_attempts max_retries (request_exception e));
        sleeps = [];
      }
      | rows rs ↦ record { result = ok rs; sleeps = [] }
    ]

unfoldable pub request_with_retry : Session → Query → Attempted
unfolding request_loop
request_with_retry session q = request_loop (session q) max_retries 0 initial_backoff_secs

unfoldable pub fetch_page : Session → Query → Result (List Record)
fetch_page session q = (request_with_retry session q).result

-- The loop of `fetch_all_paginated` over any source of pages.
unfoldable pub page_loop : (ℕ → Result (List Record)) → ℕ → ℕ → ℕ → Generator Record
page_loop page page_size zero offset = raises out_of_fuel
page_loop page page_size (suc fuel) offset =
    let later = page_loop page page_size fuel (offset + page_size) in
    elim (page offset) [
      | err e ↦ raises e
      | ok records ↦
          if is_empty records
          then stop
          else yield_from records (if ltb (length records) page_size then stop else later)
    ]

-- `fetch_all_paginated`: a window is asked for when there is one, an order when it is given.
unfoldable pub fetch_all_paginated :
    Session → ℕ → ℕ → Option (Text × Date × Date) → Option Text → Generator Record
fetch_all_paginated session fuel page_size window order_by =
    page_loop
      (λ offset.
        fetch_page session (record {
          limit = page_size;
          offset = offset;
          where_clause = window;
          order_by = order_by;
        }))
      page_size fuel 0

-- `fetch_all`
unfoldable pub fetch_all : Session → ℕ → ℕ → Option (Text × Date × Date) → Result (List Record)
fetch_all session fuel page_size window =
    list_of (fetch_all_paginated session fuel page_size window none)

-- `SocrataClient.__init__`: a client is its portal's domain and the resource.
pub record Client : Type 0 where
  pub resource_id : Text
  pub domain : Text

unfoldable pub new_client : Text → Text → Result Client
new_client resource_id domain =
    if is_blank domain
    then err blank_domain
    else ok (record { resource_id = resource_id; domain = domain })
