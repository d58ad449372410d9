-- ===== src/Fetchers.antt =====
-- ingestion/backfill/fetchers/: the fetchers and their factory. What the services answer is a
-- parameter, `Upstream`. A negative `past_days` or `forecast_days` is not modelled.
pub mod Requests
pub mod Run
pub mod Build
pub mod Weather
use urban_ops_intelligence_p.Prelude.{
  ℕ, ◌-◌, Bool, true, false, not, ◌&&◌, ◌||◌, Option, none, some, List, [], ◌∷◌, ltb, if◌then◌else◌,
  Text, codes, text_eq, insert, lookup, is_empty, is_some, length, keep, map, get_elem?, Exception,
  failed_after_attempts, unexpected_after_retries, missing_resource, missing_timestamp_field,
  missing_endpoint, past_days_too_large, forecast_days_too_large, invalid_int, request_exception,
  socrata_fetch_failed, Result, ok, err, ◌>>=◌, Generator, stop, raises, yields, yield_from,
  catching,
}
use urban_ops_intelligence_p.Calendar.{Date, previous_day}
use urban_ops_intelligence_p.Calendar.Ordinal.{to_ordinal}
use urban_ops_intelligence_p.Config.{
  Param, DatasetConfig, ApiType, socrata, socrata_geojson, open_meteo, generic_rest,
  PartitionStrategy, static, same_strategy, truthy,
}
use urban_ops_intelligence_p.Records.{Value, Record}
use urban_ops_intelligence_p.Socrata.{
  Client, Session, default_page_size, new_client, fetch_all_paginated,
}

-- A query parameter as it is sent: a configured one, a count or a date.
pub data Sent : Type 0 where
  configured : Param → Sent
  count : ℕ → Sent
  day : Date → Sent

abbrev pub Params : Type 0
Params = List (Text × Sent)

-- An Open-Meteo block: its array `time`, and its other entries, arrays or not.
pub data Column : Type 0 where
  array : List Value → Column
  scalar : Column

pub record Block : Type 0 where
  pub times : List Value
  pub columns : List (Text × Column)

pub data WeatherReply : Type 0 where
  weather_failed : ℕ → WeatherReply
  weather : Option Block → Option Block → WeatherReply

-- The answer of a REST service: a failure, a list of records, or any one value.
pub data RestReply : Type 0 where
  rest_failed : ℕ → RestReply
  many : List Record → RestReply
  single : Record → RestReply

-- The services, and the rounds that a walk through their pages may take.
pub record Upstream : Type 0 where
  pub portal : Client → Session
  pub weather_archive : Params → WeatherReply
  pub weather_forecast : Text → Params → WeatherReply
  pub rest : Text → Params → RestReply
  pub rounds : ℕ

pub data Fetcher : Type 0 where
  socrata_fetcher : Text → Client → Option Text → Date → Date → Bool → Fetcher
  socrata_geojson_fetcher : Text → Client → Fetcher
  open_meteo_fetcher : Text → Text → List (Text × Param) → Date → Date → Fetcher
  generic_rest_fetcher : Text → Text → List (Text × Param) → Date → Date → Fetcher

abbrev pub or_empty : Option (List (Text × Param)) → List (Text × Param)
or_empty none = []
or_empty (some ps) = ps

abbrev pub or_blank : Option Text → Text
or_blank none = []
or_blank (some t) = t

-- `SocrataFetcher.__init__`
abbrev new_socrata : DatasetConfig → Date → Date → Bool → Result Fetcher
new_socrata ds start end full_table =
    if not (truthy ds.resource_id) || not (truthy ds.domain)
    then err (missing_resource ds.name)
    else if not full_table && not (truthy ds.timestamp_field)
    then err (missing_timestamp_field ds.name)
    else new_client (or_blank ds.resource_id) (or_blank ds.domain) >>= λ client.
        ok (socrata_fetcher ds.name client ds.timestamp_field start end full_table)

-- `SocrataGeoJsonFetcher.__init__`
abbrev new_geojson : DatasetConfig → Result Fetcher
new_geojson ds =
    if not (truthy ds.resource_id) || not (truthy ds.domain)
    then err (missing_resource ds.name)
    else new_client (or_blank ds.resource_id) (or_blank ds.domain) >>= λ client.
        ok (socrata_geojson_fetcher ds.name client)

abbrev pub build : ApiType → DatasetConfig → Date → Date → PartitionStrategy → Result Fetcher
build socrata ds start end strategy = new_socrata ds start end (same_strategy strategy static)
build socrata_geojson ds start end strategy = new_geojson ds
build open_meteo ds start end strategy =
    if truthy ds.endpoint
    then ok (open_meteo_fetcher ds.name (or_blank ds.endpoint) (or_empty ds.query_params) start end)
    else err (missing_endpoint ds.name)
build generic_rest ds start end strategy =
    if truthy ds.endpoint
    then ok
        (generic_rest_fetcher ds.name (or_blank ds.endpoint) (or_empty ds.query_params) start end)
    else err (missing_endpoint ds.name)

unfoldable pub build_fetcher : DatasetConfig → Date → Date → PartitionStrategy → Result Fetcher
unfolding new_client
build_fetcher ds start end strategy = build ds.api_type ds start end strategy
