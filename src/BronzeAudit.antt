-- ===== src/BronzeAudit.antt =====
-- scripts/profiling/: the audits of what the Bronze layer holds. They read the objects of a store.
pub mod Shards
pub mod Reconcile
pub mod Integrity
use urban_ops_intelligence_p.Prelude.{
  ℕ, Bool, true, false, ◌&&◌, ◌||◌, Option, none, some, List, [], ◌∷◌, ◌++◌, leb, ◌==◌,
  if◌then◌else◌, Text, codes, text_eq, any, keep, take, drop, client_error, Result, ok, err, ◌>>=◌,
}
use urban_ops_intelligence_p.Records.{Value, Record}
use urban_ops_intelligence_p.Platform.{Bytes, Object, Platform}
use urban_ops_intelligence_p.Strings.{starts_with}
use urban_ops_intelligence_p.Strings.Lines.{split_lines}

-- What the audits take from outside: the listing of a prefix, `gzip.decompress`, `bytes.decode`,
-- `json.loads`, and the equality and hashability of the values that JSON has. The first four may raise.
pub record Reader (P : Platform) : Type 0 where
  pub keys_under : P.State → Text → Result (List Text)
  pub gunzip : Bytes → Result Bytes
  pub decode : Bytes → Result Text
  pub loads : Text → Result Record
  pub same : Value → Value → Bool
  pub hashable : Value → Bool

abbrev pub ends_with : Text → Text → Bool
ends_with s [] = text_eq s []
ends_with s (c ∷ t) = text_eq s (c ∷ t) || ends_with s t

abbrev is_digit : ℕ → Bool
is_digit c = leb b'0' c && leb c b'9'

-- The text has the form of the pattern, in which `0` stands for a digit.
abbrev fits : Text → Text → Bool
fits [] [] = true
fits [] (c ∷ t) = false
fits (p ∷ ps) [] = false
fits (p ∷ ps) (c ∷ t) = (if p == b'0' then is_digit c else c == p) && fits ps t

abbrev is_shard_end : Text → Bool
is_shard_end t = any (text_eq t) (
    codes ".ndjson"
    ∷ codes ".ndjson.gz"
    ∷ (codes ".ndjson" ++ (10 ∷ []))
    ∷ (codes ".ndjson.gz" ++ (10 ∷ []))
    ∷ [])

-- A match of the pattern at the beginning of the text, and what its group holds.
abbrev day_here : Text → Option Text
day_here t =
    if starts_with (codes "/data_") t
      && fits (codes "0000-00-00") (take 10 (drop 6 t))
      && is_shard_end (drop 16 t)
    then some (take 10 (drop 6 t))
    else none

abbrev or_later : Option Text → Option Text → Option Text
or_later none later = later
or_later (some d) later = some d

-- `DAY_RE.search(key)` and `SHARD_RE.search(key)`, which are one pattern; digits are those of ASCII
unfoldable pub day_of : Text → Option Text
day_of [] = none
day_of (c ∷ t) = or_later (day_here (c ∷ t)) (day_of t)

abbrev pub is_wanted : Option Text → Option (List Text) → Bool
is_wanted d none = true
is_wanted none (some days) = false
is_wanted (some d) (some days) = any (text_eq d) days

-- `f"bronze/raw/{source_id}/{dataset}/"`
abbrev pub dataset_prefix : Text → Text → Text
dataset_prefix source_id dataset =
    codes "bronze/raw/" ++ (source_id ++ (codes "/" ++ (dataset ++ codes "/")))

module _ (P : Platform) (R : Reader P) where
  abbrev pub body_of : Option Object → Result Bytes
  body_of none = err (client_error 404)
  body_of (some o) = ok o.body

  -- The lines of a shard: the object, decompressed if its key ends with `.gz`, as a text.
  unfoldable pub shard_lines : Text → P.State → Result (List Text)
  shard_lines key s = body_of (P.object_at s key) >>= λ raw.
      (if ends_with (codes ".gz") key then R.gunzip raw else ok raw) >>= λ bytes.
      R.decode bytes >>= λ t. ok (split_lines t)
