-- ===== src/Fetchers/Run.antt =====
-- `Fetcher.fetch`, for each class of fetcher.
use urban_ops_intelligence_p.Prelude.{
  List, Text, codes, request_exception, Generator, stop, raises, yields, yield_from,
}
use urban_ops_intelligence_p.Calendar.{Date}
use urban_ops_intelligence_p.Config.{Param}
use urban_ops_intelligence_p.Records.{Record}
use urban_ops_intelligence_p.Fetchers.{
  day, RestReply, rest_failed, many, single, Upstream, Fetcher, socrata_fetcher,
  socrata_geojson_fetcher, open_meteo_fetcher, generic_rest_fetcher,
}
use urban_ops_intelligence_p.Fetchers.Requests.{
  sent, fetch_socrata, fetch_geojson, fetch_open_meteo, set_default,
}

abbrev rest_records : RestReply → Generator Record
rest_records (rest_failed e) = raises (request_exception e)
rest_records (many rs) = yield_from rs stop
rest_records (single r) = yields r stop

-- `GenericRestFetcher.fetch`
unfoldable pub fetch_generic_rest :
    Upstream → Text → List (Text × Param) → Date → Date → Generator Record
unfolding set_default
fetch_generic_rest up endpoint params start end = rest_records (
    up.rest endpoint (
      set_default (codes "end_date") (day end)
        (set_default (codes "start_date") (day start) (sent params))))

-- Today's date is read when the fetch begins.
unfoldable pub fetch : Upstream → Date → Fetcher → Generator Record
fetch up today (socrata_fetcher name client field start end full_table) =
    fetch_socrata up name client field start end full_table
fetch up today (socrata_geojson_fetcher name client) = fetch_geojson up client
fetch up today (open_meteo_fetcher name endpoint params start end) =
    fetch_open_meteo up endpoint params start end today
fetch up today (generic_rest_fetcher name endpoint params start end) =
    fetch_generic_rest up endpoint params start end
