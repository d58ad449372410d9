-- ===== src/Fetchers/Build.antt =====
-- When the factory refuses a dataset that its validator accepts.
use urban_ops_intelligence_p.Prelude.{
  ◌≡◌, ◌↔◌, if◌then◌else◌, Bool, true, false, not, ◌&&◌, inl, inr, refl, arith, Text, Exception,
  missing_timestamp_field, ok, err,
}
use urban_ops_intelligence_p.Calendar.{Date}
use urban_ops_intelligence_p.Config.{
  DatasetConfig, ApiType, socrata, socrata_geojson, open_meteo, generic_rest, PartitionStrategy,
  static, same_strategy, truthy, is_blank,
}
use urban_ops_intelligence_p.Socrata.{new_client}
use urban_ops_intelligence_p.Config.Validation.{Serves}
use urban_ops_intelligence_p.Fetchers.{Fetcher, build_fetcher, build, or_blank}

abbrev is_socrata : ApiType → Bool
is_socrata socrata = true
is_socrata _ = false

-- A windowed Socrata dataset with no timestamp field.
abbrev pub has_no_window : DatasetConfig → PartitionStrategy → Bool
has_no_window ds strategy =
    is_socrata ds.api_type
    && (not (same_strategy strategy static) && not (truthy ds.timestamp_field))

-- A domain that is given is not blank.
abbrev pub HasDomain : DatasetConfig → Type 0
HasDomain ds = truthy ds.domain ≡ true → is_blank (or_blank ds.domain) ≡ false

socrata_cases :
    (whole timed : Bool) (f : Fetcher) (name : Text) (x : Exception)
    → ((if not whole && not timed then err (missing_timestamp_field name) else ok f) ≡ err x)
      ↔ ((not whole && not timed ≡ true) × (x ≡ missing_timestamp_field name))
socrata_cases whole timed f name x = (λ h. ground arith, λ h. ground arith)

module _ (ds : DatasetConfig) (start end : Date) (strategy : PartitionStrategy) (serves : Serves ds)
    (named : HasDomain ds) where
  build_at :
      (a : ApiType)
      → ds.api_type ≡ a
      → (x : Exception)
      → (build a ds start end strategy ≡ err x) ↔ (
          (is_socrata a && (not (same_strategy strategy static) && not (truthy ds.timestamp_field))
            ≡ true)
          × (x ≡ missing_timestamp_field ds.name))
  unfolding new_client
  build_at socrata e x =
      let (has_resource, has_domain, _) = serves.portal (inl e) in
      rw (has_resource, has_domain, named has_domain)
        (socrata_cases (same_strategy strategy static) (truthy ds.timestamp_field) _ _ x)
  build_at socrata_geojson e x =
      let (has_resource, has_domain, _) = serves.portal (inr e) in
      rw (has_resource, has_domain, named has_domain) (λ h. cc, λ h. cc)
  build_at open_meteo e x = rw ((serves.service (inl e)).0) (λ h. cc, λ h. cc)
  build_at generic_rest e x = rw ((serves.service (inr e)).0) (λ h. cc, λ h. cc)

  -- For a dataset with the fields that its `api_type` is served by, and with no blank domain,
  -- the factory raises exactly when it is a Socrata dataset, not static, and without a timestamp
  -- field; the exception names the missing field.
  pub build_fetcher-err :
      (x : Exception)
      → (build_fetcher ds start end strategy ≡ err x)
        ↔ ((has_no_window ds strategy ≡ true) × (x ≡ missing_timestamp_field ds.name))
  unfolding build_fetcher
  build_fetcher-err x = build_at ds.api_type refl x
