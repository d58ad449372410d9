-- ===== src/Tests/Conservation.antt =====
-- Two days that are written and read back by the audit.
use urban_ops_intelligence_p.Prelude.{
  ℕ, zero, suc, ◌≡◌, refl, ap, List, [], ◌∷◌, Text, codes, length, All, lookup-insert, Result, ok,
  err, arith,
}
use urban_ops_intelligence_p.Calendar.{
  Date, date, isoformat, date_lt, days_in_month, add_days, next_day,
}
use urban_ops_intelligence_p.Calendar.Iso.{IsIso}
use urban_ops_intelligence_p.Calendar.Ordinal.{to_ordinal, before_years, before_months}
use urban_ops_intelligence_p.Manifest.{ManifestEntry}
use urban_ops_intelligence_p.Platform.{Platform, IsObjectStore}
use urban_ops_intelligence_p.Loader.{
  encode, utf8_bytes, make_manifest, date_range, dates_of, date_of,
}
use urban_ops_intelligence_p.Loader.Writes.{and_then, with_result, write_pair}
use urban_ops_intelligence_p.Loader.Daily.{parse_iso, write_day, write_days}
use urban_ops_intelligence_p.Bulk.{daterange, days_from}
use urban_ops_intelligence_p.Dq.Manifests.{bronze_manifest_rows}
use urban_ops_intelligence_p.Dq.Conserved.{
  Days, groups_of, days_of, Distinct, write_days-bronze_manifest_rows,
}
use urban_ops_intelligence_p.Tests.Data.{memory, clock, ninth, tenth, on_ninth, on_eighth}

-- A manifest is written as one character for each record that it counts.
abbrev ones : ℕ → Text
ones zero = []
ones (suc n) = 1 ∷ ones n

abbrev tally : Platform
tally = record memory { dumps_manifest = λ m. ones m.record_count }

tally-IsObjectStore : IsObjectStore tally
tally-IsObjectStore = record {
  stored = λ c k o s done j. lookup-insert k j o s;
  refused = λ c k o s e raised j. cc;
}

length-encode : (n : ℕ) → length (encode (ones n)) ≡ n
unfolding encode utf8_bytes
length-encode zero = refl
length-encode (suc n) = ap suc (length-encode n)

tallied : (m : ManifestEntry) → length (encode (tally.dumps_manifest m)) ≡ m.record_count
tallied m = length-encode m.record_count

abbrev two_days : Days
two_days = (ninth, on_ninth ∷ on_ninth ∷ []) ∷ (tenth, on_eighth ∷ []) ∷ []

abbrev eleventh : Date
eleventh = date 2026 2 11

abbrev written : Result (List ManifestEntry) × tally.State
written =
    write_days tally clock (codes "ts") (codes "SRC-001") (codes "requests") (groups_of two_days) []

abbrev or_none : Result (List ManifestEntry) → List ManifestEntry
or_none (ok ms) = ms
or_none (err e) = []

both_days : All IsIso (days_of two_days)
both_days = (
  record { year_in = omega arith; month_in = omega arith; day_in = omega arith },
  (record { year_in = omega arith; month_in = omega arith; day_in = omega arith }, tt),
)

differ : Distinct (days_of two_days)
differ = (((λ e. ground arith), tt), (tt, tt))

window : daterange ninth eleventh ≡ days_of two_days
unfolding daterange date_lt days_from to_ordinal before_years before_months days_in_month add_days
    next_day
window = refl

returns : written ≡ (ok (or_none written.0), written.1)
unfolding write_days write_day parse_iso isoformat with_result and_then write_pair make_manifest
    date_range dates_of date_of
returns = refl

write_days-bronze_manifest_rows_example :
    bronze_manifest_rows tally length (codes "SRC-001") (codes "requests") ninth eleventh written.1
    ≡ (3, [])
write_days-bronze_manifest_rows_example =
    write_days-bronze_manifest_rows tally tally-IsObjectStore clock (codes "ts") (codes "SRC-001")
      (codes "requests") length tallied two_days ninth eleventh [] written.1 (or_none written.0)
      both_days differ window returns
