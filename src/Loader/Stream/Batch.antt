-- ===== src/Loader/Stream/Batch.antt =====
-- Streaming and writing at once make the same manifest.
use urban_ops_intelligence_p.Prelude.{ℕ, ◌≡◌, false, some, Text, is_empty}
use urban_ops_intelligence_p.Calendar.{Date, isoformat}
use urban_ops_intelligence_p.Calendar.Iso.{IsIso}
use urban_ops_intelligence_p.Manifest.{ManifestEntry}
use urban_ops_intelligence_p.Platform.{Platform}
use urban_ops_intelligence_p.Loader.Stream.{Streamed}

-- Timestamps that parse have dates of four-digit years.
abbrev pub ParsesIso : Platform → Type 0
ParsesIso P = (t : Text) (d : Date) → P.parse_timestamp t ≡ some d → IsIso d

module _ (P : Platform) (parses : ParsesIso P) (field : Text) (named : is_empty field ≡ false) where
  -- The two ends that a stream has seen, once it has seen one date.
  abbrev Seen : Streamed → Date → Date → Type 0
  Seen acc low high = (acc.date_min ≡ some (isoformat low)) × (acc.date_max ≡ some (isoformat high))

  abbrev restored : ℕ → ManifestEntry → ManifestEntry
  restored n m = record m { stored_bytes = n }
