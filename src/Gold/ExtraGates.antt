-- ===== src/Gold/ExtraGates.antt =====
-- scripts/gold/build_gold.py: the gates that `TABLES` states as queries.
use urban_ops_intelligence_p.Prelude.{
  ℕ, Bool, true, false, List, [], ◌∷◌, ◌++◌, Text, codes, lookup, Option, none, some,
}
use urban_ops_intelligence_p.Strings.{decimal}

-- One gate: a query, the number it is compared with, and whether that is a lower bound.
pub record Gate : Type 0 where
  pub query : Text
  pub expected : ℕ
  pub at_least : Bool

abbrev pub equality : Text → ℕ → Gate
equality query n = record { query = query; expected = n; at_least = false }

abbrev pub lower_bound : Text → ℕ → Gate
lower_bound query n = record { query = query; expected = n; at_least = true }

abbrev dim_recommendation_rules_gates : Text → ℕ → List Gate
dim_recommendation_rules_gates silver cells =
    equality
      (codes "SELECT LEAST(COUNT(*), 1) FROM dim_recommendation_rules WHERE"
        ++ (codes " is_fallback = true"))
      1
    ∷ []

abbrev dim_service_type_gates : Text → ℕ → List Gate
dim_service_type_gates silver cells =
    equality
      (codes "SELECT COUNT(*) FROM ( SELECT DISTINCT s.\"type\" FROM "
        ++ (silver
            ++ (codes ".silver_service_request s LEFT JOIN dim_service_type d ON d.\"type\" ="
                ++ (codes " s.\"type\" WHERE d.\"type\" IS NULL)"))))
      0
    ∷ []

abbrev dim_region_crosswalk_gates : Text → ℕ → List Gate
dim_region_crosswalk_gates silver cells =
    equality
      (codes "SELECT COUNT(*) FROM ( SELECT plow_zone, label_type, SUM(weight) AS w"
        ++ (codes " FROM dim_region_crosswalk GROUP BY plow_zone, label_type) WHERE"
            ++ (codes " ABS(w - 1.0) > 1e-9")))
      0
    ∷ equality
        (codes "SELECT COUNT(*) FROM ( SELECT plow_zone, label_type,"
          ++ (codes " COUNT_IF(is_dominant) AS n FROM dim_region_crosswalk GROUP BY"
              ++ (codes " plow_zone, label_type) WHERE n <> 1")))
        0
    ∷ []

abbrev fact_event_zone_rank_gates : Text → ℕ → List Gate
fact_event_zone_rank_gates silver cells =
    equality
      (codes "SELECT COUNT(DISTINCT plow_event_id) FROM fact_event_zone_rank WHERE"
        ++ (codes " matched_snowfall_event_id IS NOT NULL"))
      17
    ∷ equality
        (codes "SELECT COUNT(DISTINCT matched_snowfall_event_id) FROM"
          ++ (codes " fact_event_zone_rank"))
        17
    ∷ []

abbrev fact_service_request_zone_event_gates : Text → ℕ → List Gate
fact_service_request_zone_event_gates silver cells =
    equality
      (codes "SELECT COUNT(*) FROM (SELECT DISTINCT snowfall_event_id, plow_zone"
        ++ (codes " FROM fact_service_request_zone_event)"))
      2178
    ∷ equality
        (codes "SELECT COUNT(*) FROM (SELECT DISTINCT snowfall_event_id, plow_zone"
          ++ (codes " FROM fact_service_request_zone_event WHERE snowfall_event_id IN"
              ++ (codes " (SELECT snowfall_event_id FROM dim_snowfall_event WHERE"
                  ++ (codes " is_scheduling_era = true))"))))
        1298
    ∷ lower_bound
        (codes "SELECT COUNT(*) FROM (SELECT snowfall_event_id, plow_zone FROM"
          ++ (codes " fact_service_request_zone_event WHERE snowfall_event_id IN (SELECT"
              ++ (codes " snowfall_event_id FROM dim_snowfall_event WHERE is_scheduling_era ="
                  ++ (codes " true) GROUP BY snowfall_event_id, plow_zone HAVING"
                      ++ (codes " SUM(request_count) > 0)")))))
        880
    ∷ equality
        (codes "SELECT COUNT(DISTINCT snowfall_event_id) FROM"
          ++ (codes " fact_service_request_zone_event"))
        99
    ∷ []

abbrev fact_winter_request_daily_by_label_gates : Text → ℕ → List Gate
fact_winter_request_daily_by_label_gates silver cells =
    equality (codes "SELECT COUNT(*) FROM fact_winter_request_daily_by_label") 141377
    ∷ equality
        (codes "SELECT COUNT(DISTINCT YEAR(\"date\")) FROM"
          ++ (codes " fact_winter_request_daily_by_label"))
        18
    ∷ []

abbrev fact_request_forecast_gates : Text → ℕ → List Gate
fact_request_forecast_gates silver cells =
    equality
      (codes "SELECT COUNT(*) FROM (SELECT model_version, COUNT(*) AS n FROM"
        ++ (codes " fact_request_forecast GROUP BY model_version) WHERE n <> " ++ (decimal cells)))
      0
    ∷ equality
        (codes "SELECT COUNT(*) FROM fact_request_forecast f LEFT JOIN"
          ++ (codes " dim_snowfall_event d ON d.snowfall_event_id = f.snowfall_event_id"
              ++ (codes " AND d.is_scheduling_era = true WHERE d.snowfall_event_id IS NULL")))
        0
    ∷ equality
        (codes "SELECT COUNT(*) FROM fact_request_forecast WHERE baseline_count IS"
          ++ (codes " NULL"))
        0
    ∷ []

abbrev fact_winter_event_zone_load_gates : Text → ℕ → List Gate
fact_winter_event_zone_load_gates silver cells =
    equality
      (codes "SELECT COUNT(*) FROM fact_winter_event_zone_load WHERE score_status ="
        ++ (codes " 'scored'"))
      374
    ∷ equality
        (codes "SELECT COUNT(*) FROM fact_winter_event_zone_load WHERE score_status ="
          ++ (codes " 'partial_no_rank'"))
        924
    ∷ equality
        (codes "SELECT COUNT(*) FROM fact_winter_event_zone_load WHERE score_status ="
          ++ (codes " 'no_schedule_era'"))
        0
    ∷ equality
        (codes "SELECT COUNT(*) FROM (SELECT snowfall_event_id FROM"
          ++ (codes " fact_winter_event_zone_load GROUP BY snowfall_event_id HAVING"
              ++ (codes " COUNT(DISTINCT weather_severity_factor) > 1)")))
        0
    ∷ equality
        (codes "SELECT COUNT(*) FROM fact_winter_event_zone_load WHERE load_score < 0"
          ++ (codes " OR load_score > 100 OR load_score IS NULL"))
        0
    ∷ equality
        (codes "SELECT COUNT(*) FROM fact_winter_event_zone_load WHERE score_status ="
          ++ (codes " 'partial_no_rank' AND load_score IS NULL"))
        0
    ∷ equality
        (codes "SELECT COUNT(*) FROM fact_winter_event_zone_load WHERE score_status ="
          ++ (codes " 'partial_no_rank' AND score_weight_profile <> 'demand_weather_only'"))
        0
    ∷ equality
        (codes "SELECT COUNT(*) FROM fact_winter_event_zone_load f JOIN"
          ++ (codes " dim_snowfall_event d ON d.snowfall_event_id = f.snowfall_event_id"
              ++ (codes " WHERE d.is_scheduling_era = false")))
        0
    ∷ equality (codes "SELECT COUNT(*) FROM fact_winter_event_zone_load WHERE rank_factor = 0") 0
    ∷ equality
        (codes "SELECT COUNT(DISTINCT forecast_model_version) FROM"
          ++ (codes " fact_winter_event_zone_load"))
        1
    ∷ []

abbrev fact_recommendation_gates : Text → ℕ → List Gate
fact_recommendation_gates silver cells =
    equality
      (codes "SELECT COUNT(*) FROM (SELECT snowfall_event_id, model_version FROM"
        ++ (codes " fact_recommendation GROUP BY snowfall_event_id, model_version HAVING"
            ++ (codes " COUNT(DISTINCT rank_model) <> 22 OR MAX(rank_model) <> 22 OR"
                ++ (codes " MIN(rank_model) <> 1)"))))
      0
    ∷ equality
        (codes "SELECT COUNT(*) FROM (SELECT snowfall_event_id, model_version FROM"
          ++ (codes " fact_recommendation GROUP BY snowfall_event_id, model_version HAVING"
              ++ (codes " COUNT(DISTINCT rank_baseline) <> 22)")))
        0
    ∷ equality
        (codes "SELECT COUNT(*) FROM fact_recommendation f LEFT JOIN"
          ++ (codes " dim_recommendation_rules d ON d.rule_id = f.attribution_rule_id"
              ++ (codes " WHERE d.rule_id IS NULL")))
        0
    ∷ equality
        (codes "SELECT COUNT(*) FROM fact_recommendation WHERE attribution_rule_id ="
          ++ (codes " 'RULE-NO-SCHEDULE'"))
        0
    ∷ equality
        (codes "SELECT COUNT(*) FROM fact_recommendation WHERE attribution_text LIKE"
          ++ (codes " '%{%'"))
        0
    ∷ equality
        (codes "SELECT COUNT(*) FROM fact_recommendation WHERE"
          ++ (codes " REGEXP_LIKE(attribution_text, '\\d[Ee][+-]?\\d')"))
        0
    ∷ []

abbrev gates_in : Option (Text → ℕ → List Gate) → Text → ℕ → List Gate
gates_in none silver cells = []
gates_in (some gates) silver cells = gates silver cells

-- `table.extra_gates`, of a table's name, with the schema of Silver and the number of cells of a
-- prediction in their places
unfoldable pub extra_gates : Text → Text → ℕ → List Gate
extra_gates name silver cells =
    gates_in
      (lookup name (
        (codes "dim_recommendation_rules", dim_recommendation_rules_gates)
        ∷ (codes "dim_service_type", dim_service_type_gates)
        ∷ (codes "dim_region_crosswalk", dim_region_crosswalk_gates)
        ∷ (codes "fact_event_zone_rank", fact_event_zone_rank_gates)
        ∷ (codes "fact_service_request_zone_event", fact_service_request_zone_event_gates)
        ∷ (codes "fact_winter_request_daily_by_label", fact_winter_request_daily_by_label_gates)
        ∷ (codes "fact_request_forecast", fact_request_forecast_gates)
        ∷ (codes "fact_winter_event_zone_load", fact_winter_event_zone_load_gates)
        ∷ (codes "fact_recommendation", fact_recommendation_gates)
        ∷ []))
      silver cells
