-- ===== src/Repository/Scan/Notes.antt =====
-- crates/mentat-repository/src/session.rs: where a scan notes each item of the walk.
pub mod Proofs
use code_mentat.Base.{
  ℕ, Bool, true, false, Option, none, some, List, [], ◌∷◌, ◌++◌, All, ◌≡◌, refl, ap, subst, ◌⊎◌,
  inl, inr, if_intro, Has, Has-left, Has-last, leb, saturating_add, byte_len, codes, normal,
  FilePath, Text, strip_prefix, Bool-cases,
}
use code_mentat.Core.Error.{Result, ok, err, Result-cases}
use code_mentat.Core.Models.{FileRecord}
use code_mentat.Repository.Scan.Induction.{ItemHas, visit_file_cases, loop_keeps}
use code_mentat.Repository.Scan.{
  ScanLimits, ScanOmitReason, walk_error, metadata_error, cancelled_scan, ScanOmission, ScanState,
  Metadata, file_of, not_file, metadata_failed, WalkItem, walk_failed, walked, omit, in_git_dir,
  or_else, max_scan_preview_bytes, keep_preview, push_record, inspected, visit_file, visit_below,
  visit_entry, visit, scan_loop,
}

-- The record of an inspected file, but for its preview.
abbrev pub Recorded : (FilePath → Result FileRecord) → FilePath → FileRecord → Type 0
Recorded inspect rel f =
    (found : FileRecord) × (preview : Option Text) × (inspect rel ≡ ok found)
    × (f ≡ record found { text_preview = preview })

abbrev pub Never : FileRecord → Type 0
Never f = ⊥

abbrev pub Noted :
    (FileRecord → Type 0) → (ScanOmission → Type 0) → List FileRecord → List ScanOmission → Type 0
Noted P R files omissions = Has P files ⊎ Has R omissions

-- A file below the root has its record, or an omission with its path.
abbrev pub FileNoted :
    (FilePath → Result FileRecord) → Option FilePath → List FileRecord → List ScanOmission → Type 0
FileNoted inspect none files omissions = Unit
FileNoted inspect (some rel) files omissions =
    Noted (Recorded inspect rel) (λ o. o.relative_path ≡ rel) files omissions

abbrev pub named : Option FilePath → FilePath → FilePath
named none path = path
named (some rel) path = rel

-- Where an item outside of `.git` is noted, or nowhere when it is a directory or not below the root.
abbrev pub EntryNoted :
    (FilePath → Result FileRecord)
    → FilePath
    → FilePath
    → Metadata
    → List FileRecord
    → List ScanOmission
    → Type 0
EntryNoted inspect root path (file_of len) files omissions =
    FileNoted inspect (strip_prefix path root) files omissions
EntryNoted inspect root path not_file files omissions = Unit
EntryNoted inspect root path metadata_failed files omissions =
    Noted Never
      (λ o.
        o ≡ record { relative_path = named (strip_prefix path root) path; reason = metadata_error })
      files omissions

abbrev pub Unless : Bool → Type 0 → Type 0
Unless true T = Unit
Unless false T = T

abbrev pub ItemNoted :
    (FilePath → Result FileRecord)
    → FilePath
    → WalkItem
    → List FileRecord
    → List ScanOmission
    → Type 0
ItemNoted inspect root walk_failed files omissions =
    Noted Never
      (λ o. o ≡ record { relative_path = normal (codes "<walk>") ∷ []; reason = walk_error }) files
      omissions
ItemNoted inspect root (walked path meta) files omissions =
    Unless (in_git_dir path) (EntryNoted inspect root path meta files omissions)

-- Each item up to the one before which the scan is cancelled, and the cancellation.
abbrev pub AllNoted :
    (FilePath → Result FileRecord)
    → FilePath
    → List (Bool × WalkItem)
    → List FileRecord
    → List ScanOmission
    → Type 0
AllNoted inspect root [] files omissions = Unit
AllNoted inspect root ((true, item) ∷ items) files omissions =
    Noted Never
      (λ o. o ≡ record { relative_path = normal (codes "<scan>") ∷ []; reason = cancelled_scan })
      files omissions
AllNoted inspect root ((false, item) ∷ items) files omissions =
    ItemNoted inspect root item files omissions × AllNoted inspect root items files omissions
