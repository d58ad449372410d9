-- ===== src/Platform.antt =====
-- What the program takes from outside: an object store, and the parts of Python's library that are
-- not modelled (JSON texts, digests, compression, the parsing of timestamps).
use urban_ops_intelligence_p.Prelude.{
  ℕ, ◌≡◌, Option, some, List, Text, text_eq, if◌then◌else◌, Exception, Result, ok, err,
}
use urban_ops_intelligence_p.Calendar.{Date}
use urban_ops_intelligence_p.Manifest.{ManifestEntry}
use urban_ops_intelligence_p.Records.{Record}

abbrev pub Bytes : Type 0
Bytes = List ℕ

-- A metadata value: a text, or the decimal text of a number.
pub data Meta : Type 0 where
  shown : Text → Meta
  number : ℕ → Meta

-- A stored object.
pub record Object : Type 0 where
  pub body : Bytes
  pub content_type : Text
  pub metadata : List (Text × Meta)

-- The two calls of the client that store an object.
pub data Call : Type 0 where
  put_object upload_fileobj : Call

-- `dumps` and `dumps_manifest` are the JSON texts of a record and of a manifest. `gzip` is given the
-- sequence of writes. `parse_timestamp` is the date of `datetime.fromisoformat`, or `none` for a
-- `ValueError`.
pub record Platform : Type 1 where
  pub State : Type 0
  pub object_at : State → Text → Option Object
  pub store : Call → Text → Object → State → Result (Unit {0}) × State
  pub dumps : Record → Text
  pub dumps_manifest : ManifestEntry → Text
  pub sha256 : Bytes → Text
  pub gzip : List Bytes → Bytes
  pub parse_timestamp : Text → Option Date

-- An object store: a call that returns has stored the object under its key, one that raises has
-- stored nothing, and other keys are never touched.
pub record IsObjectStore (P : Platform) : Type 0 where
  pub stored :
      (c : Call) (k : Text) (o : Object) (s : P.State)
      → (P.store c k o s).0 ≡ ok tt
      → (j : Text)
      → P.object_at (P.store c k o s).1 j ≡ (if text_eq k j then some o else P.object_at s j)
  pub refused :
      (c : Call) (k : Text) (o : Object) (s : P.State) (e : Exception)
      → (P.store c k o s).0 ≡ err e
      → (j : Text) → P.object_at (P.store c k o s).1 j ≡ P.object_at s j

-- The clock while one operation runs: today's date, and the ISO text of the current UTC time. An
-- operation is taken not to run past midnight.
pub record Clock : Type 0 where
  pub today : Date
  pub utc_now : Text
