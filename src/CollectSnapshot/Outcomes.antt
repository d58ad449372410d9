-- ===== src/CollectSnapshot/Outcomes.antt =====
-- When the watchdog hears of a collection, and when an alert is sent.
use urban_ops_intelligence_p.Prelude.{
  ◌≡◌, ◌≤◌, refl, false, List, [], ◌∷◌, ◌++◌, codes, take, if◌then◌else◌, Text, length,
  length-take-le, is_empty, All, Bool-cases, inl, inr, Exception, exits, ok,
}
use urban_ops_intelligence_p.Config.{SourceConfig, DatasetConfig, snapshot, datasets_with_strategy}
use urban_ops_intelligence_p.Fetchers.{Upstream}
use urban_ops_intelligence_p.Platform.{Platform, Clock}
use urban_ops_intelligence_p.Registry.{SourceFile, load_source_config}
use urban_ops_intelligence_p.Snapshot.{
  SnapshotResult, collect, collect_each, failures, or_today, failure_of,
}
use urban_ops_intelligence_p.CollectSnapshot.{
  Channels, Notice, posted, checked_in, notify_failure, ping_watchdog, Arguments, main,
  content_limit, notice_text,
}

-- Every notice that is posted fits the limit of its receiver.
abbrev pub Fits : Notice → Type 0
Fits (posted url content) = length content ≤ content_limit
Fits _ = Unit

-- A failure notice that is posted has at most 2000 characters, however long the message is.
pub notify_failure-Fits :
    (channels : Channels) (source_id message : Text)
    → All Fits (notify_failure channels source_id message).0
unfolding notify_failure
notify_failure-Fits channels source_id message = elim (Bool-cases (is_empty channels.alert_url)) [
  | inl unset ↦ rw unset tt
  | inr given ↦ rw given (length-take-le content_limit (notice_text channels source_id message), tt)
]

ping_watchdog-checked_in :
    (channels : Channels)
    → (ping_watchdog channels).0
      ≡ (if is_empty channels.watchdog_url then [] else checked_in channels.watchdog_url ∷ [])
unfolding ping_watchdog
ping_watchdog-checked_in channels = elim (Bool-cases (is_empty channels.watchdog_url)) [
  | inl unset ↦ rw unset refl
  | inr given ↦ rw given refl
]

notify_failure-posted :
    (channels : Channels) (source_id message : Text)
    → (notify_failure channels source_id message).0 ≡ (
        if is_empty channels.alert_url
        then []
        else posted channels.alert_url (
            take 2000 (
              codes "❌ ["
              ++ (source_id
                  ++ (codes "] snapshot collection failed on "
                      ++ (channels.host ++ (codes ": " ++ message))))))
          ∷ [])
unfolding notify_failure
notify_failure-posted channels source_id message = elim (Bool-cases (is_empty channels.alert_url)) [
  | inl unset ↦ rw unset refl
  | inr given ↦ rw given refl
]

module _ (P : Platform) (up : Upstream) (now : Clock) (channels : Channels)
    (message : Exception → Text) where
  -- What the attempts at some datasets make of the store.
  abbrev pub attempts :
      SourceConfig → Arguments → List DatasetConfig → P.State → List SnapshotResult × P.State
  attempts cfg args ds =
      collect_each P up now cfg args.min_records ds
        (or_today P up now cfg args.min_records args.ingest_date)

  -- A run that is no dry run and has a bucket and a source with snapshot datasets tries them all. If none of them failed it exits with 0, makes a check-in at the address of the watchdog, where one is set, and posts nothing; if one failed it exits with 2, posts the first 2000 characters of a notice with the source, the host and the failure at the address for alerts, where one is set, and does not check in. The store is left as the attempts leave it.
  pub main-attempted :
      (files : List SourceFile) (args : Arguments) (cfg : SourceConfig) (d : DatasetConfig)
      (ds : List DatasetConfig) (s : P.State)
      → args.dry_run ≡ false
      → is_empty args.bucket ≡ false
      → load_source_config files args.source ≡ ok cfg
      → datasets_with_strategy cfg snapshot ≡ d ∷ ds
      → main P up now channels message files args s ≡ (
          if is_empty (failures P up now cfg args.min_records (attempts cfg args (d ∷ ds) s).0)
          then (
            (
              exits 0,
              if is_empty channels.watchdog_url then [] else checked_in channels.watchdog_url ∷ [],
            ),
            (attempts cfg args (d ∷ ds) s).1,
          )
          else (
            (
              exits 2,
              if is_empty channels.alert_url
                  then []
                  else posted channels.alert_url (
                      take 2000 (
                        codes "❌ ["
                        ++ (args.source
                            ++ (codes "] snapshot collection failed on "
                                ++ (channels.host
                                    ++ (codes ": "
                                        ++ message (
                                            failure_of P up now cfg args.min_records
                                              (attempts cfg args (d ∷ ds) s).0)))))))
                    ∷ [],
            ),
            (attempts cfg args (d ∷ ds) s).1,
          ))
  unfolding main collect
  main-attempted files args cfg d ds s real bucket found some_datasets =
      rw (real, bucket, found, some_datasets)
        (elim (Bool-cases
          (is_empty (failures P up now cfg args.min_records (attempts cfg args (d ∷ ds) s).0))) [
            | inl clean ↦ rw clean (λ i. ((exits 0, checked i), (attempts cfg args (d ∷ ds) s).1))
            | inr failing ↦ rw failing (λ i. (
              (
                exits 2,
                alerted (failure_of P up now cfg args.min_records (attempts cfg args (d ∷ ds) s).0)
                    i,
              ),
              (attempts cfg args (d ∷ ds) s).1,
            ))
          ])
    where
      checked :
          (ping_watchdog channels).0
          ≡ (if is_empty channels.watchdog_url then [] else checked_in channels.watchdog_url ∷ [])
      checked = ping_watchdog-checked_in channels

      alerted :
          (e : Exception)
          → (notify_failure channels args.source (message e)).0 ≡ (
              if is_empty channels.alert_url
              then []
              else posted channels.alert_url (
                  take 2000 (
                    codes "❌ ["
                    ++ (args.source
                        ++ (codes "] snapshot collection failed on "
                            ++ (channels.host ++ (codes ": " ++ message e))))))
                ∷ [])
      alerted e = notify_failure-posted channels args.source (message e)
