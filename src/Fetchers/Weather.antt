-- ===== src/Fetchers/Weather.antt =====
-- Open-Meteo: which service a window goes to, within its limits, and what its answer becomes.
use urban_ops_intelligence_p.Prelude.{
  ℕ, zero, suc, ◌+◌, ◌-◌, ◌≤◌, ◌<◌, ◌≡◌, refl, true, false, Option, none, some, List, [], ◌∷◌,
  arith, Text, codes, lookup, get_elem?, ok, err, past_days_too_large, forecast_days_too_large,
  if◌then◌else◌, ltb, ap, insert, lookup-insert, Bool-cases, inl, inr,
}
use urban_ops_intelligence_p.Calendar.{Date, IsDate, previous_day, next_day}
use urban_ops_intelligence_p.Calendar.Ordinal.{to_ordinal, next_day-previous_day}
use urban_ops_intelligence_p.Config.{Param}
use urban_ops_intelligence_p.Records.{Value, Record}
use urban_ops_intelligence_p.Fetchers.{Column, Params, day, count}
use urban_ops_intelligence_p.Fetchers.Requests.{
  WeatherRequest, to_archive, to_forecast, sent, uses_archive, archive_request, forecast_window,
  forecast_request, weather_request, days_from, records_from, entries_at,
}

abbrev pub sent_params : WeatherRequest → Params
sent_params (to_archive ps) = ps
sent_params (to_forecast endpoint ps) = ps

abbrev pub step_record : ℕ → Option Value → List (Text × Column) → Option Record
step_record i none columns = none
step_record i (some t) columns = some ((codes "time", t) ∷ entries_at i columns)

-- A dataset that configures no relative window.
abbrev pub Unconfigured : List (Text × Param) → Type 0
Unconfigured params =
    (lookup (codes "past_days") params ≡ none) × (lookup (codes "forecast_days") params ≡ none)

forecast_window_derived :
    (params : List (Text × Param)) (start end today : Date)
    → Unconfigured params
    → forecast_window params start end today ≡ ok (days_from start today, days_from today end)
unfolding forecast_window
forecast_window_derived params start end today h = rw (h.0, h.1)

in_limits :
    (endpoint : Text) (ps : Params) (archive : WeatherRequest) (s e t : ℕ)
    → e ≤ t + 16
    → (if ltb 92 (t - s)
        then ok archive
        else if ltb 92 (t - s)
        then err (past_days_too_large (t - s))
        else if ltb 16 (e - t)
        then err (forecast_days_too_large (e - t))
        else ok (
            to_forecast endpoint (
              insert
                (codes "forecast_days")
                (count (e - t))
                (insert (codes "past_days") (count (t - s)) ps))))
      ≡ ok (
          if ltb (s + 92) t
          then archive
          else to_forecast endpoint (
              insert
                (codes "forecast_days")
                (count (e - t))
                (insert (codes "past_days") (count (t - s)) ps)))
in_limits endpoint ps archive s e t h = elim (Bool-cases (ltb 92 (t - s))) [
  | inl far ↦ let old : ltb (s + 92) t ≡ true = ground arith in rw (far, old)
  | inr near ↦
      let recent : ltb (s + 92) t ≡ false = ground arith in
      let soon : ltb 16 (e - t) ≡ false = ground arith in rw (near, recent, soon)
]

-- Without a configured window, a window that ends at most 16 days after today is sent: to the
-- archive just when it starts more than 92 days ago, and else to the forecast service, with the
-- days before and after today as its relative window.
pub weather_request-sent :
    (endpoint : Text) (params : List (Text × Param)) (start end today : Date)
    → Unconfigured params
    → to_ordinal end ≤ to_ordinal today + 16
    → weather_request endpoint params start end today
      ≡ ok (
          if ltb (to_ordinal start + 92) (to_ordinal today)
          then archive_request params start end
          else to_forecast endpoint (
              insert (codes "forecast_days") (count (to_ordinal end - to_ordinal today)) (
                insert
                  (codes "past_days")
                  (count (to_ordinal today - to_ordinal start))
                  (sent params))))
unfolding weather_request uses_archive forecast_request
weather_request-sent endpoint params start end today h k =
    rw (forecast_window_derived params start end today h) (
      in_limits endpoint (sent params) (archive_request params start end) (to_ordinal start)
        (to_ordinal end) (to_ordinal today) k)

-- For a window that ends on a valid date after the year 1, the archive is asked for the start of
-- the window, and for an end whose next day is the end of the window.
pub archive_request-end_date :
    (params : List (Text × Param)) (start end : Date)
    → IsDate end
    → 1 < end.year
    → (last : Date) × (lookup (codes "end_date") (sent_params (archive_request params start end))
        ≡ some (day last))
      × (lookup (codes "start_date") (sent_params (archive_request params start end))
          ≡ some (day start))
      × (next_day last ≡ end)
unfolding archive_request
archive_request-end_date params start end v h = (
  previous_day end,
  rw lookup-insert,
  rw (lookup-insert, lookup-insert),
  next_day-previous_day end v h,
)

-- Step `n` of an answer becomes one record: its time, and what each array has at that step.
pub get_elem?-records_from :
    (i n : ℕ) (times : List Value) (columns : List (Text × Column))
    → get_elem? (records_from i times columns) n ≡ step_record (i + n) (get_elem? times n) columns
unfolding records_from
get_elem?-records_from i n [] columns = refl
get_elem?-records_from i zero (t ∷ times) columns =
    ap (λ k. some ((codes "time", t) ∷ entries_at k columns)) (omega arith)
get_elem?-records_from i (suc n) (t ∷ times) columns =
    let e : i + 1 + n ≡ i + suc n = omega arith in
    rw (← e) (get_elem?-records_from (i + 1) n times columns)
