-- ===== src/Repository/Session/Completeness.antt =====
-- crates/mentat-repository/src/session.rs: what the status of a snapshot says of its scan.
use code_mentat.Base.{
  Bool, true, false, List, Text, FilePath, length, Bool-cases, ◌≡◌, inl, inr, ◌∙◌, arith,
}
use code_mentat.Core.Error.{Result}
use code_mentat.Core.Models.{Uuid, Time, FileRecord, ready}
use code_mentat.Repository.Scan.{ScanLimits, WalkItem, ScanOutcome, scan_tree, is_complete}
use code_mentat.Repository.Scan.Accounting.{
  AllRecorded, accountable, any_cancelled, is_complete-scan_tree,
}
use code_mentat.Repository.Session.{create_snapshot_from_files, create_snapshot_from_outcome}

module _ (sha256_hex : Text → Text) (repo_id id : Uuid) (now : Time) where
  ready-is_complete :
      (outcome : ScanOutcome)
      → (create_snapshot_from_outcome sha256_hex repo_id id now outcome).status ≡ ready
      → (is_complete outcome ≡ true)
        × ((create_snapshot_from_outcome sha256_hex repo_id id now outcome).file_count
            ≡ length outcome.files)
  unfolding create_snapshot_from_outcome create_snapshot_from_files
  ready-is_complete outcome h = elim (Bool-cases (is_complete outcome)) [
    | inl e ↦ (e, ground (arith, e))
    | inr e ↦ ground (arith, e, h)
  ]

  -- A snapshot that is made of a scan and says that it is ready comes from a scan that was not
  -- cancelled and that met no failed walk and no failed metadata outside of `.git`. Each file below the
  -- root and outside of `.git` has the record that its inspection gives, and the snapshot counts these
  -- files and no others.
  pub snapshot_ready_complete :
      (limits : ScanLimits) (inspect : FilePath → Result FileRecord) (root : FilePath)
      (items : List (Bool × WalkItem))
      → (create_snapshot_from_outcome sha256_hex repo_id id now
          (scan_tree limits inspect root items)).status
        ≡ ready
      → AllRecorded inspect root items (scan_tree limits inspect root items).files
        × (any_cancelled items ≡ false)
        × ((create_snapshot_from_outcome sha256_hex repo_id id now
              (scan_tree limits inspect root items)).file_count
            ≡ accountable root items)
  snapshot_ready_complete limits inspect root items h =
      let c = ready-is_complete (scan_tree limits inspect root items) h in
      let a = is_complete-scan_tree limits inspect root items c.0 in (a.0, a.1, c.1 ∙ a.2)
