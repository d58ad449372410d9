-- ===== src/BronzeAudit/Shards.antt =====
-- scripts/profiling/bronze_duplicate_scan.py: repeated primary keys inside the shards.
pub mod Repeats
pub mod Stored
use urban_ops_intelligence_p.Prelude.{
  ℕ, suc, ◌+◌, ◌-◌, ◌/◌, Bool, true, false, not, ◌&&◌, ◌||◌, Option, none, some, List, [], ◌∷◌,
  ◌++◌, ltb, leb, if◌then◌else◌, Text, codes, text_eq, any, keep, map, length, lookup,
  unhashable_key, Result, ok, err, ◌>>=◌,
}
use urban_ops_intelligence_p.Records.{Value, Record}
use urban_ops_intelligence_p.Platform.{Platform}
use urban_ops_intelligence_p.Strings.Sorting.{distinct}
use urban_ops_intelligence_p.BronzeAudit.{
  Reader, ends_with, day_of, is_wanted, dataset_prefix, shard_lines,
}

pub record ShardReport : Type 0 where
  pub key : Text
  pub total_rows : ℕ
  pub distinct_keys : ℕ
  pub duplicate_keys : ℕ
  pub excess_rows : ℕ
  pub pages : ℕ
  pub byte_identical : Bool

-- `ShardReport.is_dirty`
abbrev pub is_dirty : ShardReport → Bool
is_dirty report = ltb 0 report.excess_rows

abbrev socrata_page_size : ℕ
socrata_page_size = 1000

-- `tuple(rec.get(f) for f in key_fields)`
abbrev pub Key : Type 0
Key = List (Option Value)

abbrev pub key_of : List Text → Record → Key
key_of [] r = []
key_of (f ∷ fs) r = lookup f r ∷ key_of fs r

-- An entry of `counts` with that of `lines_by_key`: the two dictionaries have the same keys.
pub record Entry : Type 0 where
  pub key : Key
  pub count : ℕ
  pub lines : List Text

module _ (same : Value → Value → Bool) where
  abbrev same_cell : Option Value → Option Value → Bool
  same_cell none none = true
  same_cell none (some w) = false
  same_cell (some v) none = false
  same_cell (some v) (some w) = same v w

  abbrev pub key_eq : Key → Key → Bool
  key_eq [] [] = true
  key_eq [] (w ∷ k) = false
  key_eq (v ∷ j) [] = false
  key_eq (v ∷ j) (w ∷ k) = same_cell v w && key_eq j k

  -- `counts[k] += 1` and `lines_by_key.setdefault(k, []).append(line)`
  unfoldable pub tallied : Key → Text → List Entry → List Entry
  tallied k line [] = record { key = k; count = 1; lines = line ∷ [] } ∷ []
  tallied k line (e ∷ es) =
      let rest = tallied k line es in
      if key_eq e.key k
      then record e { count = suc e.count; lines = e.lines ++ line ∷ [] } ∷ es
      else e ∷ rest

  unfoldable pub tally : List Entry → List (Key × Text) → List Entry
  tally es [] = es
  tally es ((k, line) ∷ rows) = tally (tallied k line es) rows

abbrev pub sum_by : (Entry → ℕ) → List Entry → ℕ
sum_by f [] = 0
sum_by f (e ∷ es) = f e + sum_by f es

abbrev pub repeated_entries : List Entry → List Entry
repeated_entries = keep (λ e. ltb 1 e.count)

-- `len(set(lines)) == 1`
abbrev one_line : List Text → Bool
one_line lines = elim (distinct lines) [
  | [] ↦ false
  | l ∷ ls ↦ elim ls [ [] ↦ true | _ ∷ _ ↦ false ]
]

abbrev pub report_of : Text → List (Key × Text) → List Entry → ShardReport
report_of key rows es = record {
  key = key;
  total_rows = length rows;
  distinct_keys = length es;
  duplicate_keys = length (repeated_entries es);
  excess_rows = sum_by (λ e. e.count - 1) (repeated_entries es);
  pages = (length rows + (socrata_page_size - 1)) / socrata_page_size;
  byte_identical = not (any (λ e. not (one_line e.lines)) (repeated_entries es));
}

module _ (P : Platform) (R : Reader P) where
  abbrev pub is_hashable : Option Value → Bool
  is_hashable none = true
  is_hashable (some v) = R.hashable v

  abbrev pub hashed : Key → Result Key
  hashed k = if any (λ c. not (is_hashable c)) k then err unhashable_key else ok k

  -- The keys of the lines, in their order.
  unfoldable pub keyed : List Text → List Text → Result (List (Key × Text))
  keyed fields [] = ok []
  keyed fields (line ∷ lines) =
      let rest = keyed fields lines in
      R.loads line >>= λ r. hashed (key_of fields r) >>= λ k. rest >>= λ rows. ok ((k, line) ∷ rows)

  -- `scan_shard`
  unfoldable pub scan_shard : Text → List Text → P.State → Result ShardReport
  scan_shard key fields s = shard_lines P R key s >>= λ lines.
      keyed fields lines >>= λ rows. ok (report_of key rows (tally R.same [] rows))

  abbrev pub is_data_blob : Option (List Text) → Text → Bool
  is_data_blob only_days key =
      (ends_with (codes ".ndjson.gz") key || ends_with (codes ".ndjson") key)
      && is_wanted (day_of key) only_days

  unfoldable pub scan_each : List Text → List Text → P.State → Result (List ShardReport)
  scan_each fields [] s = ok []
  scan_each fields (key ∷ keys) s =
      let rest = scan_each fields keys s in
      scan_shard key fields s >>= λ report. rest >>= λ reports. ok (report ∷ reports)

  -- `run_scan`
  unfoldable pub run_scan :
      Text → Text → List Text → Option (List Text) → P.State → Result (List ShardReport)
  run_scan source_id dataset fields only_days s =
      R.keys_under s (dataset_prefix source_id dataset) >>= λ keys.
      scan_each fields (keep (is_data_blob only_days) keys) s

-- What `summarize` returns, without the full reports.
pub record Summary : Type 0 where
  pub shards_scanned : ℕ
  pub shards_multipage : ℕ
  pub shards_dirty : ℕ
  pub excess_rows_total : ℕ
  pub dirty_shards_all_byte_identical : Bool
  pub dirty_single_page_shards : List Text
  pub dirty_shards : List ShardReport

abbrev sum_excess : List ShardReport → ℕ
sum_excess [] = 0
sum_excess (r ∷ rs) = r.excess_rows + sum_excess rs

-- `summarize`
unfoldable pub summarize : List ShardReport → Summary
summarize reports = record {
  shards_scanned = length reports;
  shards_multipage = length (keep (λ r. ltb 1 r.pages) reports);
  shards_dirty = length (keep is_dirty reports);
  excess_rows_total = sum_excess (keep is_dirty reports);
  dirty_shards_all_byte_identical = not (any (λ r. not r.byte_identical) (keep is_dirty reports));
  dirty_single_page_shards = map (λ r. r.key) (keep (λ r. leb r.pages 1) (keep is_dirty reports));
  dirty_shards = keep is_dirty reports;
}
