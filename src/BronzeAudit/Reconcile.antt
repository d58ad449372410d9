-- ===== src/BronzeAudit/Reconcile.antt =====
-- scripts/profiling/bronze_rowcount_reconcile.py: the rows of each day against the upstream's count.
use urban_ops_intelligence_p.Prelude.{
  ℕ, zero, suc, ◌+◌, ◌-◌, Bool, true, false, Option, none, some, List, [], ◌∷◌, ◌++◌, ◌==◌, ltb,
  leb, ◌&&◌, if◌then◌else◌, Text, text_eq, keep, map, length, insert, invalid_int,
  invalid_date_text, not_reconcilable, Result, ok, err, ◌>>=◌,
}
use urban_ops_intelligence_p.Calendar.{Date, date_le, days_in_month, previous_day}
use urban_ops_intelligence_p.Config.{DatasetConfig, truthy}
use urban_ops_intelligence_p.Registry.{SourceFile, load_source_config}
use urban_ops_intelligence_p.Records.{Value, Record}
use urban_ops_intelligence_p.Loader.Daily.{parse_iso}
use urban_ops_intelligence_p.Platform.{Platform, Clock}
use urban_ops_intelligence_p.Socrata.{
  Reply, request_loop, max_retries, initial_backoff_secs, new_client,
}
use urban_ops_intelligence_p.Strings.Sorting.{sort_by, sorted_set}
use urban_ops_intelligence_p.BronzeAudit.{Reader, day_of, is_wanted, dataset_prefix, shard_lines}

-- `delta` is the difference of the two counts, of which the code reads the sign.
pub record DayReconciliation : Type 0 where
  pub day : Text
  pub bronze_rows : ℕ
  pub upstream_rows : ℕ
  pub within_late_arrival_window : Bool

pub data Verdict : Type 0 where
  clean late_arrival_tolerated excess missing_rows : Verdict

-- `DayReconciliation.verdict`
unfoldable pub verdict : DayReconciliation → Verdict
verdict r =
    if r.bronze_rows == r.upstream_rows
    then clean
    else if r.within_late_arrival_window
    then late_arrival_tolerated
    else if ltb r.upstream_rows r.bronze_rows
    then excess
    else missing_rows

abbrev pub is_missing : Verdict → Bool
is_missing missing_rows = true
is_missing _ = false

abbrev pub is_excess : Verdict → Bool
is_excess excess = true
is_excess _ = false

abbrev is_clean : Verdict → Bool
is_clean clean = true
is_clean _ = false

abbrev is_tolerated : Verdict → Bool
is_tolerated late_arrival_tolerated = true
is_tolerated _ = false

abbrev pub Counts : Type 0
Counts = List (Text × ℕ)

module _ (P : Platform) (R : Reader P) where
  -- A key that is no shard, or not of a wanted day, is passed over.
  abbrev pub counted : Option Text → Bool → Text → P.State → Counts → Result Counts
  counted none wanted key s counts = ok counts
  counted (some day) false key s counts = ok counts
  counted (some day) true key s counts =
      shard_lines P R key s >>= λ lines. ok (insert day (length lines) counts)

  unfoldable pub count_loop : Option (List Text) → List Text → P.State → Counts → Result Counts
  count_loop only_days [] s counts = ok counts
  count_loop only_days (key ∷ keys) s counts =
      counted (day_of key) (is_wanted (day_of key) only_days) key s counts >>= λ counts'.
      count_loop only_days keys s counts'

  -- `bronze_row_counts`
  unfoldable pub bronze_row_counts : Text → Text → Option (List Text) → P.State → Result Counts
  bronze_row_counts source_id dataset only_days s =
      R.keys_under s (dataset_prefix source_id dataset) >>= λ keys. count_loop only_days keys s []

-- What a portal answers to `$select=count(*)` for a day of a resource, at each attempt; the count
-- is a text or a number, of which `int_of` is `int`.
pub record Counter : Type 0 where
  pub reply : Text → Text → Date → ℕ → Reply
  pub int_of : Value → Result ℕ

abbrev pub count_of : Counter → List Record → Result ℕ
count_of C [] = ok 0
count_of C ([] ∷ rows) = err invalid_int
count_of C (((name, v) ∷ row) ∷ rows) = C.int_of v

-- `upstream_count`
unfoldable pub upstream_count : Counter → Text → Text → Date → Result ℕ
upstream_count C resource field day =
    (request_loop (C.reply resource field day) max_retries 0 initial_backoff_secs).result
    >>= count_of C

-- `date.fromisoformat(t)`, of a text that has the form of a shard's day
abbrev pub is_day : Date → Bool
is_day d =
    leb 1 d.year
    && leb 1 d.month
    && leb d.month 12
    && leb 1 d.day
    && leb d.day (days_in_month d.year d.month)

abbrev pub day_from : Option Date → Result Date
day_from none = err invalid_date_text
day_from (some d) = if is_day d then ok d else err invalid_date_text

unfoldable pub from_isoformat : Text → Result Date
from_isoformat t = day_from (parse_iso t)

-- `today - timedelta(days=n)`
unfoldable pub days_before : Date → ℕ → Date
days_before d zero = d
days_before d (suc n) = previous_day (days_before d n)

module _ (C : Counter) where
  abbrev pub reconciled : Date → Text → Date → ℕ → ℕ → DayReconciliation
  reconciled cutoff day_str day bronze_rows upstream = record {
    day = day_str;
    bronze_rows = bronze_rows;
    upstream_rows = upstream;
    within_late_arrival_window = date_le cutoff day;
  }

  unfoldable pub reconcile_loop : Text → Text → Date → Counts → Result (List DayReconciliation)
  reconcile_loop resource field cutoff [] = ok []
  reconcile_loop resource field cutoff ((day_str, bronze_rows) ∷ counts) =
      let rest = reconcile_loop resource field cutoff counts in
      from_isoformat day_str >>= λ day. upstream_count C resource field day >>= λ upstream.
      rest >>= λ recs. ok (reconciled cutoff day_str day bronze_rows upstream ∷ recs)

-- `next((d for d in cfg.datasets if d.name == dataset), None)`
abbrev pub named : Text → List DatasetConfig → Option DatasetConfig
named name [] = none
named name (d ∷ ds) = let rest = named name ds in if text_eq d.name name then some d else rest

abbrev pub or_blank : Option Text → Text
or_blank none = []
or_blank (some t) = t

module _ (P : Platform) (R : Reader P) (C : Counter) (now : Clock) where
  abbrev pub reconcile_dataset :
      Text
      → Text
      → ℕ
      → Option (List Text)
      → P.State
      → Option DatasetConfig
      → Result (List DayReconciliation)
  reconcile_dataset source_id dataset late only_days s none = err (not_reconcilable dataset)
  reconcile_dataset source_id dataset late only_days s (some ds) =
      if truthy ds.timestamp_field
      then (new_client (or_blank ds.resource_id) (or_blank ds.domain) >>= λ socrata.
          bronze_row_counts P R source_id dataset only_days s >>= λ counts.
          reconcile_loop C socrata.resource_id (or_blank ds.timestamp_field)
            (days_before now.today late) (sort_by (λ c. c.0) counts))
      else err (not_reconcilable dataset)

  -- `run_reconcile`
  unfoldable pub run_reconcile :
      List SourceFile
      → Text
      → Text
      → ℕ
      → Option (List Text)
      → P.State
      → Result (List DayReconciliation)
  run_reconcile files source_id dataset late only_days s =
      load_source_config files source_id >>= λ cfg.
      reconcile_dataset source_id dataset late only_days s (named dataset cfg.datasets)

pub record ReconcileSummary : Type 0 where
  pub days_checked : ℕ
  pub days_clean : ℕ
  pub days_with_missing_rows : ℕ
  pub days_with_excess_rows : ℕ
  pub rows_missing_total : ℕ
  pub rows_excess_total : ℕ
  pub days_tolerated_as_late_arrival : ℕ
  pub refetch_days : List Text

abbrev pub missing : List DayReconciliation → List DayReconciliation
missing = keep (λ r. is_missing (verdict r))

abbrev pub in_excess : List DayReconciliation → List DayReconciliation
in_excess = keep (λ r. is_excess (verdict r))

abbrev sum_over : (DayReconciliation → ℕ) → List DayReconciliation → ℕ
sum_over f [] = 0
sum_over f (r ∷ rs) = f r + sum_over f rs

-- `summarize`; the days differ, so their sorted list is that of their set
unfoldable pub summarize_days : List DayReconciliation → ReconcileSummary
summarize_days results = record {
  days_checked = length results;
  days_clean = length (keep (λ r. is_clean (verdict r)) results);
  days_with_missing_rows = length (missing results);
  days_with_excess_rows = length (in_excess results);
  rows_missing_total = sum_over (λ r. r.upstream_rows - r.bronze_rows) (missing results);
  rows_excess_total = sum_over (λ r. r.bronze_rows - r.upstream_rows) (in_excess results);
  days_tolerated_as_late_arrival = length (keep (λ r. is_tolerated (verdict r)) results);
  refetch_days = sorted_set (map (λ r. r.day) (missing results ++ in_excess results));
}
