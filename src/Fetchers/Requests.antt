-- ===== src/Fetchers/Requests.antt =====
-- What the fetchers ask for: the walks of a portal, the choice between Open-Meteo's two services,
-- and the records of its answer.
use urban_ops_intelligence_p.Prelude.{
  ℕ, ◌+◌, ◌-◌, Bool, not, ◌||◌, Option, none, some, List, [], ◌∷◌, ltb, if◌then◌else◌, Text, codes,
  text_eq, insert, lookup, is_empty, is_some, keep, map, get_elem?, Exception,
  failed_after_attempts, true, false, unexpected_after_retries, past_days_too_large,
  forecast_days_too_large, invalid_int, request_exception, socrata_fetch_failed, Result, ok, err,
  ◌>>=◌, Generator, stop, raises, yield_from, catching,
}
use urban_ops_intelligence_p.Calendar.{Date, previous_day}
use urban_ops_intelligence_p.Calendar.Ordinal.{to_ordinal}
use urban_ops_intelligence_p.Config.{Param, truthy}
use urban_ops_intelligence_p.Records.{Value, Record}
use urban_ops_intelligence_p.Socrata.{Client, default_page_size, fetch_all_paginated}
use urban_ops_intelligence_p.Fetchers.{
  Sent, configured, count, day, Params, Column, array, scalar, Block, WeatherReply, weather_failed,
  weather, Upstream, or_blank,
}

-- `except SocrataFetchError`
abbrev pub is_socrata_error : Exception → Bool
is_socrata_error (failed_after_attempts n e) = true
is_socrata_error (unexpected_after_retries n) = true
is_socrata_error _ = false

abbrev wrap_socrata : Text → Exception → Exception
wrap_socrata name e = if is_socrata_error e then socrata_fetch_failed name e else e

abbrev by_row_id : Option Text
by_row_id = some (codes ":id")

-- `_fetch_window` and `_fetch_full_table`
unfoldable pub fetch_socrata :
    Upstream → Text → Client → Option Text → Date → Date → Bool → Generator Record
fetch_socrata up name client field start end full_table = catching (wrap_socrata name) (
    fetch_all_paginated (up.portal client) up.rounds default_page_size
      (if full_table || not (truthy field) then none else some (or_blank field, start, end))
      by_row_id)

-- `SocrataGeoJsonFetcher.fetch`
unfoldable pub fetch_geojson : Upstream → Client → Generator Record
fetch_geojson up client =
    fetch_all_paginated (up.portal client) up.rounds default_page_size none by_row_id

abbrev pub max_past_days : ℕ
max_past_days = 92

abbrev pub max_forecast_days : ℕ
max_forecast_days = 16

-- `max((a - b).days, 0)`: subtraction stops at 0.
abbrev pub days_from : Date → Date → ℕ
days_from b a = to_ordinal a - to_ordinal b

-- `_uses_archive`
unfoldable pub uses_archive : Date → Date → Bool
uses_archive start today = ltb max_past_days (days_from start today)

-- `_window_to_past_forecast`
unfoldable pub window_to_past_forecast : Date → Date → Date → ℕ × ℕ
window_to_past_forecast start end today = (days_from start today, days_from today end)

-- What is sent to Open-Meteo, and where.
pub data WeatherRequest : Type 0 where
  to_archive : Params → WeatherRequest
  to_forecast : Text → Params → WeatherRequest

abbrev pub sent : List (Text × Param) → Params
sent = map (λ (k, p). (k, configured p))

-- `_fetch_archive`, up to its request
unfoldable pub archive_request : List (Text × Param) → Date → Date → WeatherRequest
archive_request params start end = to_archive (
    insert (codes "end_date") (day (previous_day end)) (
      insert (codes "start_date") (day start) (
        sent (
          keep (λ (k, p). not (text_eq k (codes "past_days") || text_eq k (codes "forecast_days")))
            params))))

-- `int(v or 0)`
abbrev int_or_zero : Option Param → Result ℕ
int_or_zero none = ok 0
int_or_zero (some p) =
    if p.truthy then (elim p.as_int [ none ↦ err invalid_int | some n ↦ ok n ]) else ok 0

-- The configured window, or the one derived from `[start, end)`.
unfoldable pub forecast_window : List (Text × Param) → Date → Date → Date → Result (ℕ × ℕ)
unfolding window_to_past_forecast
forecast_window params start end today =
    let past = lookup (codes "past_days") params in
    let forecast = lookup (codes "forecast_days") params in
    if is_some past || is_some forecast
    then (do p ← int_or_zero past; f ← int_or_zero forecast; ok (p, f))
    else ok (window_to_past_forecast start end today)

abbrev within_limits : Text → List (Text × Param) → ℕ × ℕ → Result WeatherRequest
within_limits endpoint params (past, forecast) =
    if ltb max_past_days past
    then err (past_days_too_large past)
    else if ltb max_forecast_days forecast
    then err (forecast_days_too_large forecast)
    else ok (
        to_forecast endpoint (
          insert (codes "forecast_days") (count forecast)
            (insert (codes "past_days") (count past) (sent params))))

-- `_fetch_forecast`, up to its request
unfoldable pub forecast_request :
    Text → List (Text × Param) → Date → Date → Date → Result WeatherRequest
forecast_request endpoint params start end today =
    forecast_window params start end today >>= within_limits endpoint params

-- `OpenMeteoFetcher.fetch`, up to its request
unfoldable pub weather_request :
    Text → List (Text × Param) → Date → Date → Date → Result WeatherRequest
weather_request endpoint params start end today =
    if uses_archive start today
    then ok (archive_request params start end)
    else forecast_request endpoint params start end today

-- The entries of a record at step `i`: those of the arrays that reach so far.
abbrev pub entries_at : ℕ → List (Text × Column) → Record
entries_at i [] = []
entries_at i ((k, array vs) ∷ columns) =
    let rest = entries_at i columns in
    elim (get_elem? vs i) [ none ↦ rest | some v ↦ (k, v) ∷ rest ]
entries_at i ((k, scalar) ∷ columns) = entries_at i columns

-- One record for each time step from step `i` on.
unfoldable pub records_from : ℕ → List Value → List (Text × Column) → List Record
records_from i [] columns = []
records_from i (t ∷ times) columns =
    ((codes "time", t) ∷ entries_at i columns) ∷ records_from (i + 1) times columns

-- A block counts when it is there and has times.
abbrev pub usable : Option Block → Bool
usable none = false
usable (some b) = not (is_empty b.times)

abbrev pub series : Option Block → List Record
series none = []
series (some b) = records_from 0 b.times b.columns

-- `_flatten_series`: the hourly block wins over the daily one.
unfoldable pub flatten_series : Option Block → Option Block → List Record
flatten_series hourly daily =
    if usable hourly then series hourly else if usable daily then series daily else []

abbrev pub records_of : WeatherReply → Generator Record
records_of (weather_failed e) = raises (request_exception e)
records_of (weather hourly daily) = yield_from (flatten_series hourly daily) stop

abbrev answer : Upstream → WeatherRequest → WeatherReply
answer up (to_archive params) = up.weather_archive params
answer up (to_forecast endpoint params) = up.weather_forecast endpoint params

abbrev send : Upstream → Result WeatherRequest → Generator Record
send up (err e) = raises e
send up (ok request) = records_of (answer up request)

-- `OpenMeteoFetcher.fetch`
unfoldable pub fetch_open_meteo :
    Upstream → Text → List (Text × Param) → Date → Date → Date → Generator Record
fetch_open_meteo up endpoint params start end today =
    send up (weather_request endpoint params start end today)

-- `params.setdefault(k, v)`
unfoldable pub set_default : Text → Sent → Params → Params
set_default k v params = if is_some (lookup k params) then params else insert k v params
