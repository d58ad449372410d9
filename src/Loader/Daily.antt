-- ===== src/Loader/Daily.antt =====
-- `_group_by_date` and `write_daily`: records split by their date, one document for each day.
pub mod Groups
use urban_ops_intelligence_p.Prelude.{
  ℕ, ◌+◌, ◌-◌, ◌*◌, Bool, true, false, ◌&&◌, Option, none, some, List, [], ◌∷◌, ◌++◌, ltb, leb,
  ◌==◌, if◌then◌else◌, Text, text_lt, codes, length, is_empty, lookup, insert, Exception,
  timestamp_field_not_configured, invalid_date_text, Result, ok, err, ◌>>=◌,
}
use urban_ops_intelligence_p.Calendar.{Date, date, isoformat, month_format}
use urban_ops_intelligence_p.Records.{Record}
use urban_ops_intelligence_p.Manifest.{ManifestEntry}
use urban_ops_intelligence_p.Platform.{Bytes, shown, Platform, Clock}
use urban_ops_intelligence_p.Loader.{bronze_prefix, to_ndjson, date_of, make_manifest}
use urban_ops_intelligence_p.Loader.Paths.{data_name, manifest_name}
use urban_ops_intelligence_p.Loader.Writes.{Outcome, and_then, with_result, write_pair}

abbrev pub Groups : Type 0
Groups = List (Text × List Record)

abbrev pub or_nil : Option (List Record) → List Record
or_nil none = []
or_nil (some rs) = rs

-- `groups.setdefault(key, []).append(r)`, for a record with a date
abbrev pub file_under : Option Date → Record → Groups → Groups
file_under none r groups = groups
file_under (some d) r groups =
    insert (isoformat d) (or_nil (lookup (isoformat d) groups) ++ r ∷ []) groups

-- The loop of `_group_by_date`.
unfoldable pub group_loop : Platform → Text → Groups → List Record → Result Groups
group_loop P field groups [] = ok groups
group_loop P field groups (r ∷ rs) =
    date_of P field r >>= λ d. group_loop P field (file_under d r groups) rs

unfoldable pub group_by_date : Platform → Text → List Record → Result Groups
group_by_date P field records =
    if is_empty field then err timestamp_field_not_configured else group_loop P field [] records

-- `sorted(groups.items())`; the keys differ, so the lists are never compared.
abbrev pub place : Text × List Record → Groups → Groups
place g [] = g ∷ []
place g (h ∷ gs) = let rest = place g gs in if text_lt h.0 g.0 then h ∷ rest else g ∷ h ∷ gs

abbrev pub sorted : Groups → Groups
sorted [] = []
sorted (g ∷ gs) = place g (sorted gs)

abbrev is_digit : ℕ → Bool
is_digit c = leb 48 c && leb c 57

abbrev digit : ℕ → ℕ
digit c = c - 48

-- `date.fromisoformat(t)`, for the texts `YYYY-MM-DD` that `isoformat` makes.
unfoldable pub parse_iso : Text → Option Date
parse_iso (y ∷ e ∷ a ∷ r ∷ h ∷ m ∷ o ∷ i ∷ d ∷ k ∷ []) =
    if is_digit y
      && is_digit e
      && is_digit a
      && is_digit r
      && is_digit m
      && is_digit o
      && is_digit d
      && is_digit k
      && (h == b'-')
      && (i == b'-')
    then some (
        date (digit y * 1000 + digit e * 100 + digit a * 10 + digit r) (digit m * 10 + digit o)
          (digit d * 10 + digit k))
    else none
parse_iso _ = none

abbrev pub day_of : Text → Result Date
day_of t = elim (parse_iso t) [ none ↦ err invalid_date_text | some d ↦ ok d ]

module _ (P : Platform) (now : Clock) (field source_id dataset_name : Text) where
  -- One round of the loop over the sorted groups.
  unfoldable pub write_day : Text → List Record → P.State → Outcome P.State ManifestEntry
  write_day day_iso day_records =
      let content = to_ndjson P.dumps day_records in
      let compressed = P.gzip (content ∷ []) in
      with_result (day_of day_iso) (λ d.
        with_result
          (make_manifest P now field source_id dataset_name now.today (month_format d)
            (data_name day_iso) day_records content (length compressed))
          (λ manifest s.
            and_then
              (write_pair P source_id dataset_name
                (bronze_prefix source_id dataset_name (some (month_format d))) (data_name day_iso)
                (manifest_name day_iso) manifest compressed
                ((codes "data_date", shown day_iso)
                  ∷ (codes "month_partition", shown (month_format d))
                  ∷ [])
                s)
              (λ s'. (ok manifest, s'))))

  abbrev pub push :
      ManifestEntry → Outcome P.State (List ManifestEntry) → Outcome P.State (List ManifestEntry)
  push m (r, s) = (r >>= λ ms. ok (m ∷ ms), s)

  abbrev pub go_on :
      Outcome P.State ManifestEntry
      → (P.State → Outcome P.State (List ManifestEntry))
      → Outcome P.State (List ManifestEntry)
  go_on (ok m, s) rest = push m (rest s)
  go_on (err e, s) rest = (err e, s)

  unfoldable pub write_days : Groups → P.State → Outcome P.State (List ManifestEntry)
  write_days [] s = (ok [], s)
  write_days ((day_iso, day_records) ∷ gs) s =
      go_on (write_day day_iso day_records s) (λ s'. write_days gs s')

  unfoldable pub write_daily : List Record → P.State → Outcome P.State (List ManifestEntry)
  write_daily records =
      with_result (group_by_date P field records) (λ groups. write_days (sorted groups))
