-- ===== src/Dq/Manifests.antt =====
-- scripts/dq/run_audit.py: what the manifests of the Bronze layer say of a window.
use urban_ops_intelligence_p.Prelude.{ℕ, ◌+◌, Option, none, some, List, [], ◌∷◌, Text}
use urban_ops_intelligence_p.Calendar.{Date, isoformat, month_format}
use urban_ops_intelligence_p.Bulk.{daterange}
use urban_ops_intelligence_p.Platform.{Bytes, Object, Platform}
use urban_ops_intelligence_p.Loader.{bronze_prefix}
use urban_ops_intelligence_p.Loader.Paths.{key_under, manifest_name}

-- `f"{bronze_prefix(…, partition=f'{day:%Y-%m}')}/manifest_{day}.json"`
abbrev pub manifest_key : Text → Text → Date → Text
manifest_key source_id dataset day =
    key_under (bronze_prefix source_id dataset (some (month_format day)))
      (manifest_name (isoformat day))

-- A key that has no object is a missing day, which counts nothing. `loads` is `record_count` in the
-- JSON of a body.
abbrev pub answered : (Bytes → ℕ) → Date → Option Object → ℕ × List Text → ℕ × List Text
answered loads day none later = (later.0, isoformat day ∷ later.1)
answered loads day (some o) later = (loads o.body + later.0, later.1)

module _ (P : Platform) (loads : Bytes → ℕ) (source_id dataset : Text) where
  unfoldable pub manifest_rows : List Date → P.State → ℕ × List Text
  manifest_rows [] s = (0, [])
  manifest_rows (day ∷ days) s =
      answered loads day (P.object_at s (manifest_key source_id dataset day)) (manifest_rows days s)

  -- `bronze_manifest_rows`: the sum, and the missing days
  unfoldable pub bronze_manifest_rows : Date → Date → P.State → ℕ × List Text
  bronze_manifest_rows start end s = manifest_rows (daterange start end) s
