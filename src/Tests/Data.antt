-- ===== src/Tests/Data.antt =====
-- A store in memory, a portal that is busy at first, and a small registry.
use urban_ops_intelligence_p.Prelude.{
  zero, suc, ◌≡◌, Bool, true, false, Option, none, some, List, [], ◌∷◌, ◌++◌, Text, codes, text_eq,
  take, drop, lookup, insert, lookup-insert, ok, arith,
}
use urban_ops_intelligence_p.Calendar.{Date, date}
use urban_ops_intelligence_p.Calendar.Iso.{IsIso}
use urban_ops_intelligence_p.Config.{
  SourceConfig, DatasetConfig, socrata, open_meteo, rest_api, production, PartitionStrategy, daily,
  snapshot,
}
use urban_ops_intelligence_p.Records.{Record, text, str}
use urban_ops_intelligence_p.Socrata.{Session, rate_limited, request_failed, rows}
use urban_ops_intelligence_p.Fetchers.{Upstream, weather_failed, rest_failed}
use urban_ops_intelligence_p.Platform.{Platform, Object, Bytes, IsObjectStore, Clock}
use urban_ops_intelligence_p.Loader.Stream.Batch.{ParsesIso}

-- A text for each record: its keys and values.
abbrev pub shown_record : Record → Text
shown_record [] = []
shown_record ((k, v) ∷ r) = k ++ (str v ++ shown_record r)

abbrev pub joined_bytes : List Bytes → Bytes
joined_bytes [] = []
joined_bytes (bs ∷ rest) = bs ++ joined_bytes rest

-- The dates of the timestamps that these tests have.
abbrev pub parsed : Bool → Bool → Option Date
parsed true ninth = some (date 2026 2 8)
parsed false true = some (date 2026 2 9)
parsed false false = none

-- A dictionary of objects that never fails; the last of two objects under a key counts.
abbrev pub memory : Platform
memory = record {
  State = List (Text × Object);
  object_at = λ s k. lookup k s;
  store = λ c k o s. (ok tt, insert k o s);
  dumps = shown_record;
  dumps_manifest = λ m. m.filename;
  sha256 = λ bs. take 4 bs;
  gzip = joined_bytes;
  parse_timestamp = λ t.
      parsed (text_eq (take 10 t) (codes "2026-02-08")) (text_eq (take 10 t) (codes "2026-02-09"));
}

pub memory-IsObjectStore : IsObjectStore memory
memory-IsObjectStore = record {
  stored = λ c k o s done j. lookup-insert k j o s;
  refused = λ c k o s e raised j. cc;
}

parsed-IsIso : (eighth ninth : Bool) (d : Date) → parsed eighth ninth ≡ some d → IsIso d
parsed-IsIso eighth ninth d h = ground arith

pub memory-ParsesIso : ParsesIso memory
memory-ParsesIso t d h =
    parsed-IsIso (text_eq (take 10 t) (codes "2026-02-08"))
      (text_eq (take 10 t) (codes "2026-02-09")) d h

abbrev pub clock : Clock
clock = record { today = date 2026 2 9; utc_now = codes "2026-02-09T06:00:00" }

abbrev pub ninth : Date
ninth = date 2026 2 9

abbrev pub tenth : Date
tenth = date 2026 2 10

abbrev pub dated : Text → Record
dated t = (codes "ts", text t) ∷ []

abbrev pub on_ninth : Record
on_ninth = dated (codes "2026-02-09")

abbrev pub on_eighth : Record
on_eighth = dated (codes "2026-02-08")

abbrev pub two_records : List Record
two_records = on_ninth ∷ on_eighth ∷ []

-- A registered dataset of a portal, with a strategy and a timestamp field or none.
abbrev pub table_of : Text → PartitionStrategy → Option Text → DatasetConfig
table_of name strategy field = record {
  name = name;
  description = none;
  api_type = socrata;
  timestamp_field = field;
  partition_strategy = some strategy;
  primary_key = none;
  snapshot_min_records = none;
  resource_id = some (codes "abcd-1234");
  domain = some (codes "data.city.org");
  format = none;
  endpoint = none;
  query_params = none;
}

abbrev pub requests : DatasetConfig
requests = table_of (codes "requests") daily (some (codes "ts"))

abbrev pub crimes : DatasetConfig
crimes = table_of (codes "crimes") snapshot none

abbrev pub forecast : DatasetConfig
forecast = record {
  name = codes "forecast";
  description = none;
  api_type = open_meteo;
  timestamp_field = some (codes "time");
  partition_strategy = none;
  primary_key = none;
  snapshot_min_records = none;
  resource_id = none;
  domain = none;
  format = none;
  endpoint = some (codes "https://api.open-meteo.com/v1/forecast");
  query_params = none;
}

abbrev pub registry : List DatasetConfig → SourceConfig
registry datasets = record {
  source = record {
    id = codes "SRC-001";
    name = codes "City";
    type = rest_api;
    owner = codes "data team";
    priority = codes "P0";
    status = production;
    description = none;
    partition_strategy = daily;
  };
  datasets = datasets;
}

-- The portal is busy once, fails once, and then has two records; the other services are down.
abbrev pub busy_first : List Record → Session
busy_first table q zero = rate_limited
busy_first table q (suc zero) = request_failed 503
busy_first table q (suc (suc n)) = rows (take q.limit (drop q.offset table))

abbrev pub working : Upstream
working = record {
  portal = λ client. busy_first two_records;
  weather_archive = λ params. weather_failed 500;
  weather_forecast = λ endpoint params. weather_failed 500;
  rest = λ endpoint params. rest_failed 500;
  rounds = 3;
}

abbrev pub broken : Upstream
broken = record working { portal = λ client q attempt. request_failed 500 }
