-- ===== src/Repository/Session/Examples.antt =====
-- crates/mentat-repository/src/session.rs: the snapshot of a complete scan.
use code_mentat.Base.{false, ◌≡◌, refl}
use code_mentat.Core.Models.{RepositorySnapshot, ready}
use code_mentat.Repository.Scan.{scan_tree}
use code_mentat.Repository.Scan.Accounting.{AllRecorded, accountable, any_cancelled}
use code_mentat.Repository.Scan.Examples.{limits, inspect, root, small, small_complete}
use code_mentat.Repository.Session.{create_snapshot_from_files, create_snapshot_from_outcome}
use code_mentat.Repository.Session.Completeness.{snapshot_ready_complete}

abbrev snapshot : RepositorySnapshot
snapshot = create_snapshot_from_outcome (λ t. t) 1 2 3 (scan_tree limits inspect root small)

snapshot_ready : snapshot.status ≡ ready
unfolding create_snapshot_from_outcome create_snapshot_from_files
snapshot_ready = rw small_complete refl

snapshot_ready_complete_example :
    AllRecorded inspect root small (scan_tree limits inspect root small).files
    × (any_cancelled small ≡ false)
    × (snapshot.file_count ≡ accountable root small)
snapshot_ready_complete_example =
    snapshot_ready_complete (λ t. t) 1 2 3 limits inspect root small snapshot_ready
