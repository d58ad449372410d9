-- ===== src/BronzeAudit/Integrity/Clean.antt =====
-- scripts/profiling/bronze_integrity_audit.py: when the audit of a dataset is clean.
use urban_ops_intelligence_p.Prelude.{
  ℕ, ◌≡◌, Bool, true, not, ◌&&◌, some, List, Text, is_empty, is_some, All,
}
use urban_ops_intelligence_p.Registry.{SourceFile}
use urban_ops_intelligence_p.Platform.{Platform, Clock}
use urban_ops_intelligence_p.BronzeAudit.{Reader, day_of}
use urban_ops_intelligence_p.BronzeAudit.Shards.{ShardReport, run_scan}
use urban_ops_intelligence_p.BronzeAudit.Reconcile.{Counter, run_reconcile}
use urban_ops_intelligence_p.BronzeAudit.Integrity.Faults.{scan_finds, reconcile_finds}

abbrev DatedReports : List ShardReport → Type 0
DatedReports reports = All (λ r. is_some (day_of r.key) ≡ true) reports

module _ (P : Platform) (R : Reader P) (C : Counter) (now : Clock) (files : List SourceFile)
    (late : ℕ) (days : List Text) (s : P.State) (source_id dataset : Text) where
  -- What the check B finds on a primary key; without one it is passed over.
  abbrev b_finds : List Text → Bool
  b_finds key = not (is_empty key) && scan_finds (run_scan P R source_id dataset key (some days) s)

  abbrev c_finds : Bool
  c_finds = reconcile_finds (run_reconcile P R C now files source_id dataset late (some days) s)
