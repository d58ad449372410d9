-- ===== src/Tests/Windows.antt =====
-- Windows of days and months.
use urban_ops_intelligence_p.Prelude.{
  ◌-◌, ◌≡◌, ◌≤◌, ◌<◌, refl, Bool, false, ◌||◌, none, [], map, keep, is_empty, if◌then◌else◌,
  no_bronze_month, err, All, Text, codes, arith, ok,
}
use urban_ops_intelligence_p.Calendar.{
  Date, date, IsDate, days_in_month, isoformat, next_month_from_28, add_days, next_day,
  first_of_month,
}
use urban_ops_intelligence_p.Calendar.Ordinal.{to_ordinal, before_years, before_months}
use urban_ops_intelligence_p.Bulk.{
  Pool, daterange, monthrange, is_wide_fetch_source, backfill_daily_window, backfill_monthly_window,
}
use urban_ops_intelligence_p.Bulk.Days.{consecutive, daterange_lem}
use urban_ops_intelligence_p.Bulk.Months.{firsts, end_index, monthrange-firsts}
use urban_ops_intelligence_p.Bulk.Runs.{
  each, backfill_monthly_window-each, backfill_daily_window-each,
}
use urban_ops_intelligence_p.Calendar.Months.{month_index}
use urban_ops_intelligence_p.BronzePaths.{
  folder, existing_month_prefixes, existing_month_prefixes-monthrange,
}
use urban_ops_intelligence_p.Strings.{contains}
use urban_ops_intelligence_p.Facade.{upload_day, upload_month}
use urban_ops_intelligence_p.Tests.Data.{memory, working, clock, ninth, tenth}
use urban_ops_intelligence_p.Tests.Settings.{city}

abbrev pub april : Date
april = date 2026 4 2

-- A pool that runs nothing.
abbrev pub unused : Pool
unused = record { run = λ n work ds s. ([], s); gather = λ n work ds. [] }

pub ninth-IsDate : IsDate ninth
unfolding days_in_month
ninth-IsDate = ground arith

tenth-IsDate : IsDate tenth
unfolding days_in_month
tenth-IsDate = ground arith

pub april-IsDate : IsDate april
unfolding days_in_month
april-IsDate = ground arith

before_tenth : to_ordinal ninth ≤ to_ordinal tenth
unfolding to_ordinal
before_tenth = omega arith

before_april : to_ordinal tenth ≤ to_ordinal april
unfolding to_ordinal before_years before_months days_in_month
before_april = omega arith

isoformat_test : isoformat ninth ≡ codes "2026-02-09"
unfolding isoformat
isoformat_test = refl

next_month_test : next_month_from_28 (date 2024 2 11) ≡ date 2024 3 1
unfolding next_month_from_28 add_days next_day days_in_month
next_month_test = refl

daterange_lem_example :
    (map to_ordinal (daterange ninth april)
      ≡ consecutive (to_ordinal ninth) (to_ordinal april - to_ordinal ninth))
    × All
        (λ d. IsDate d × (to_ordinal ninth ≤ to_ordinal d) × (to_ordinal d < to_ordinal april))
        (daterange ninth april)
daterange_lem_example = daterange_lem ninth april ninth-IsDate april-IsDate

monthrange-firsts_example :
    monthrange ninth april ≡ firsts (end_index april - month_index ninth) (first_of_month ninth)
monthrange-firsts_example = monthrange-firsts ninth april ninth-IsDate april-IsDate

-- The lake has March and April.
abbrev in_lake : Text → Bool
in_lake p = contains (codes "2026-03") p || contains (codes "2026-04") p

existing_month_prefixes-monthrange_example :
    existing_month_prefixes
      (codes "lake")
      (codes "SRC-001")
      (codes "crimes")
      (λ p. ok (in_lake p))
      ninth
      april
    ≡ (let present = keep in_lake (
          map
            (folder (codes "lake") (codes "SRC-001") (codes "crimes"))
            (monthrange ninth april)) in
        if is_empty present
        then err (no_bronze_month (codes "SRC-001") (codes "crimes"))
        else ok present)
existing_month_prefixes-monthrange_example =
    existing_month_prefixes-monthrange (codes "lake") (codes "SRC-001") (codes "crimes") in_lake
      ninth april ninth-IsDate

backfill_monthly_window-each_example :
    backfill_monthly_window memory working clock city unused 1 ninth april []
    ≡ each
        (λ m t. upload_month memory working clock city m none t)
        (firsts (end_index april - month_index ninth) (first_of_month ninth))
        []
backfill_monthly_window-each_example =
    backfill_monthly_window-each memory working clock city unused 1 ninth april [] refl ninth-IsDate
      april-IsDate

narrow : is_wide_fetch_source city ≡ false
unfolding is_wide_fetch_source
narrow = refl

backfill_daily_window-each_example :
    backfill_daily_window memory working clock city unused 1 ninth tenth [] ≡ (
      ok (each (λ d t. upload_day memory working clock city d none t) (daterange ninth tenth) []).0,
      (each (λ d t. upload_day memory working clock city d none t) (daterange ninth tenth) []).1,
    )
backfill_daily_window-each_example =
    backfill_daily_window-each memory working clock city unused 1 ninth tenth [] refl narrow
