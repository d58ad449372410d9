-- ===== src/Loader/Paths.antt =====
-- The object keys of the layouts, and that different partitions have different keys.
use urban_ops_intelligence_p.Prelude.{
  ◌≡◌, ◌≢◌, sym, ◌∙◌, some, ◌++◌, Text, codes, append_cancel, arith, append_assoc,
}
use urban_ops_intelligence_p.Calendar.{Date, isoformat}
use urban_ops_intelligence_p.Calendar.Iso.{IsIso, isoformat_inj}
use urban_ops_intelligence_p.Loader.{bronze_prefix}

abbrev pub data_file : Text
data_file = codes "data.ndjson.gz"

abbrev pub manifest_file : Text
manifest_file = codes "manifest.json"

-- `f"{prefix}/{filename}"`
abbrev pub key_under : Text → Text → Text
key_under prefix filename = prefix ++ (codes "/" ++ filename)

-- `f"ingest_date={day}"`
abbrev pub ingest_partition : Date → Text
ingest_partition day = codes "ingest_date=" ++ isoformat day

-- `f"data_{part}.ndjson.gz"` and `f"manifest_{part}.json"`
abbrev pub data_name : Text → Text
data_name part = codes "data_" ++ (part ++ codes ".ndjson.gz")

abbrev pub manifest_name : Text → Text
manifest_name part = codes "manifest_" ++ (part ++ codes ".json")

same_fields : (a b : Date) → a.year ≡ b.year → a.month ≡ b.month → a.day ≡ b.day → a ≡ b
same_fields a b y m d = ground arith

pub key_under-ne : (prefix f g : Text) → f ≢ g → key_under prefix f ≢ key_under prefix g
key_under-ne prefix f g h e = h (append_cancel (codes "/") f g (append_cancel prefix _ _ e))

pub data-ne-manifest : (prefix : Text) → key_under prefix data_file ≢ key_under prefix manifest_file
data-ne-manifest prefix = key_under-ne prefix _ _ (λ e. ground arith)

pub data_name-ne-manifest_name :
    (prefix p q : Text) → key_under prefix (data_name p) ≢ key_under prefix (manifest_name q)
data_name-ne-manifest_name prefix p q = key_under-ne prefix _ _ (λ e. ground arith)

-- The prefix of a snapshot's partition.
abbrev pub snapshot_prefix : Text → Text → Date → Text
snapshot_prefix source_id dataset_name day =
    bronze_prefix source_id dataset_name (some (ingest_partition day))

snapshot_key_parts :
    (source_id dataset_name : Text) (day : Date) (file : Text)
    → key_under (snapshot_prefix source_id dataset_name day) file
      ≡ (codes "bronze/raw/" ++ (source_id ++ (codes "/" ++ dataset_name)))
        ++ (codes "/ingest_date=" ++ (isoformat day ++ (codes "/" ++ file)))
unfolding bronze_prefix
snapshot_key_parts source_id dataset_name day file = simp append_assoc

-- Objects of the partitions of two days have different keys.
pub snapshot_keys-ne :
    (source_id dataset_name : Text) (a b : Date) (f g : Text)
    → IsIso a
    → IsIso b
    → a ≢ b
    → key_under (snapshot_prefix source_id dataset_name a) f
      ≢ key_under (snapshot_prefix source_id dataset_name b) g
snapshot_keys-ne source_id dataset_name a b f g v w h e =
    let joined =
      sym (snapshot_key_parts source_id dataset_name a f)
      ∙ e
      ∙ snapshot_key_parts source_id dataset_name b g in
    let (y, m, d) = isoformat_inj a b _ _ v w (
      append_cancel (codes "/ingest_date=") _ _ (
        append_cancel (codes "bronze/raw/" ++ (source_id ++ (codes "/" ++ dataset_name))) _ _
          joined)) in
    h (same_fields a b y m d)
