-- ===== src/Gold/Tables.antt =====
-- scripts/gold/build_gold.py: the tables in the order of the build, and the check of that order.
use urban_ops_intelligence_p.Prelude.{
  Bool, true, false, not, ◌||◌, Option, none, some, List, [], ◌∷◌, if◌then◌else◌, Text, codes,
  text_eq, is_empty, any, keep, table_order, Result, ok, err,
}

-- A table, without the SQL of its extra gates.
pub record Table : Type 0 where
  pub name : Text
  pub stage : Text
  pub deps : List Text
  pub seed : Option Text
  pub from_artefacts : Bool
  pub intelligence : Bool
  pub per_model_version : Bool

abbrev seed_table : Text → Text → Table
seed_table name seed = record {
  name = name;
  stage = codes "seeds";
  deps = [];
  seed = some seed;
  from_artefacts = false;
  intelligence = false;
  per_model_version = false;
}

abbrev dml_table : Text → Text → List Text → Table
dml_table name stage deps = record {
  name = name;
  stage = stage;
  deps = deps;
  seed = none;
  from_artefacts = false;
  intelligence = false;
  per_model_version = false;
}

-- `TABLES`
abbrev pub tables : List Table
tables =
    seed_table (codes "dim_winter_category") (codes "winter_category.csv")
    ∷ seed_table (codes "dim_channel") (codes "channel.csv")
    ∷ seed_table (codes "dim_recommendation_rules") (codes "recommendation_rules.csv")
    ∷ dml_table (codes "dim_service_type") (codes "dims") (codes "dim_winter_category" ∷ [])
    ∷ dml_table (codes "dim_plow_zone") (codes "dims") []
    ∷ dml_table (codes "dim_admin_label") (codes "dims") []
    ∷ dml_table (codes "dim_snowfall_event") (codes "dims") []
    ∷ dml_table (codes "dim_plow_event") (codes "dims") (codes "dim_snowfall_event" ∷ [])
    ∷ dml_table (codes "dim_region_crosswalk") (codes "dims")
        (codes "dim_plow_zone" ∷ codes "dim_admin_label" ∷ codes "dim_service_type" ∷ [])
    ∷ dml_table (codes "fact_plow_shift") (codes "facts")
        (codes "dim_plow_event" ∷ codes "dim_plow_zone" ∷ [])
    ∷ dml_table (codes "fact_parking_ban") (codes "facts") (codes "dim_plow_event" ∷ [])
    ∷ dml_table (codes "fact_event_zone_rank") (codes "facts")
        (codes "dim_plow_event" ∷ codes "dim_plow_zone" ∷ [])
    ∷ dml_table (codes "fact_service_request_zone_event") (codes "facts") (
        codes "dim_snowfall_event"
        ∷ codes "dim_plow_zone"
        ∷ codes "dim_winter_category"
        ∷ codes "dim_service_type"
        ∷ [])
    ∷ dml_table (codes "fact_winter_request_daily_by_label") (codes "facts")
        (codes "dim_admin_label" ∷ codes "dim_service_type" ∷ [])
    ∷ record (dml_table (codes "fact_request_forecast") (codes "scoring")
        (codes "dim_snowfall_event" ∷ codes "dim_plow_zone" ∷ [])) { from_artefacts = true }
    ∷ record (dml_table (codes "fact_winter_event_zone_load") (codes "scoring") (
        codes "fact_request_forecast"
        ∷ codes "dim_plow_zone"
        ∷ codes "dim_snowfall_event"
        ∷ codes "fact_event_zone_rank"
        ∷ [])) { intelligence = true }
    ∷ record (dml_table (codes "fact_recommendation") (codes "scoring")
        (codes "fact_winter_event_zone_load" ∷ codes "dim_recommendation_rules" ∷ [])) {
          intelligence = true;
          per_model_version = true;
        }
    ∷ []

-- `[d for d in table.deps if d not in seen]`
abbrev pub missing : List Text → List Text → List Text
missing seen deps = keep (λ d. not (any (text_eq d) seen)) deps

unfoldable pub order_loop : List Text → List Table → Result (Unit {0})
order_loop seen [] = ok tt
order_loop seen (table ∷ rest) =
    let later = order_loop (table.name ∷ seen) rest in
    if is_empty (missing seen table.deps)
    then later
    else err (table_order table.name (missing seen table.deps))

-- `check_order`, of a list of tables
unfoldable pub check_order : List Table → Result (Unit {0})
unfolding order_loop
check_order ts = order_loop [] ts

-- `[t for t in TABLES if self.args.only in (None, "all", t.stage, t.name)]`
abbrev is_selected : Option Text → Table → Bool
is_selected none table = true
is_selected (some only) table =
    text_eq only (codes "all") || (text_eq only table.stage || text_eq only table.name)

unfoldable pub selected : Option Text → List Table → List Table
selected only ts = keep (is_selected only) ts
