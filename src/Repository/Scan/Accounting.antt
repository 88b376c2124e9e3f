-- ===== src/Repository/Scan/Accounting.antt =====
-- What becomes of each item of the walk: no file is passed over in silence.
use code_mentat.Repository.Scan.{
  ScanOmission, ScanLimits, ScanOmitReason, ScanState, ScanOutcome, Metadata, file_of, not_file,
  metadata_failed, WalkItem, walk_failed, walked, initial, omit, in_git_dir, keep_preview,
  push_record, inspected, visit_below, visit_entry, visit, scan_loop, scan_tree, is_complete,
}
use code_mentat.Base.{
  Has, ◌⊎◌, inl, inr, subst, ℕ, ◌+◌, Bool, true, false, Option, none, some, List, [], ◌∷◌, ◌≡◌,
  refl, sym, ◌∙◌, FilePath, strip_prefix, length, length-append, if◌then◌else◌, arith,
}
use code_mentat.Repository.Scan.Notes.{Never, Recorded, FileNoted, EntryNoted, AllNoted, Unless}
use code_mentat.Repository.Scan.Notes.Proofs.{scan_loop-AllNoted}
use code_mentat.Core.Error.{Result, ok, err}
use code_mentat.Core.Models.{FileRecord}
use code_mentat.Repository.Scan.Induction.{visit_file_cases}

abbrev below : Option FilePath → ℕ
below none = 0
below (some rel) = 1

abbrev metadata_counts : FilePath → FilePath → Metadata → ℕ
metadata_counts root path (file_of len) = below (strip_prefix path root)
metadata_counts root path not_file = 0
metadata_counts root path metadata_failed = 1

-- 1 for an item that the scan has to record or to report: a failed walk, failed metadata, a file
-- below the root, outside of `.git`.
abbrev item_counts : FilePath → WalkItem → ℕ
item_counts root walk_failed = 1
item_counts root (walked path meta) = if in_git_dir path then 0 else metadata_counts root path meta

-- The items that count, up to the one before which the scan is cancelled; that one counts once.
abbrev pub accountable : FilePath → List (Bool × WalkItem) → ℕ
accountable root [] = 0
accountable root ((true, item) ∷ items) = 1
accountable root ((false, item) ∷ items) = item_counts root item + accountable root items

abbrev pub any_cancelled : List (Bool × WalkItem) → Bool
any_cancelled [] = false
any_cancelled ((true, item) ∷ items) = true
any_cancelled ((false, item) ∷ items) = any_cancelled items

abbrev handled : ScanState → ℕ
handled s = length s.records + length s.omissions

handled-omit :
    (path : FilePath) (reason : ScanOmitReason) (s : ScanState)
    → handled (omit path reason s) ≡ handled s + 1
unfolding omit
handled-omit path reason s =
    omega (arith, length-append s.omissions (record { relative_path = path; reason = reason } ∷ []))

handled-inspected :
    (r : Result FileRecord) (rel : FilePath) (s : ScanState)
    → handled (inspected r rel s) ≡ handled s + 1
unfolding inspected push_record
handled-inspected (ok file) rel s =
    omega (arith, length-append s.records ((keep_preview file s).0 ∷ []))
handled-inspected (err e) rel s = handled-omit rel _ s

module _ (limits : ScanLimits) (inspect : FilePath → Result FileRecord) (root : FilePath) where
  handled-visit_below :
      (found : Option FilePath) (len : ℕ) (s : ScanState)
      → handled (visit_below limits inspect found len s) ≡ handled s + below found
  unfolding visit_below
  handled-visit_below none len s = omega arith
  handled-visit_below (some rel) len s =
      visit_file_cases (λ t. handled t ≡ handled s + 1) limits inspect rel len s
        (λ reason. handled-omit rel reason s) (λ _ _. handled-inspected (inspect rel) rel s)

  handled-visit_entry :
      (path : FilePath) (meta : Metadata) (s : ScanState)
      → handled (visit_entry limits inspect root path meta s)
        ≡ handled s + metadata_counts root path meta
  unfolding visit_entry
  handled-visit_entry path (file_of len) s = handled-visit_below (strip_prefix path root) len s
  handled-visit_entry path not_file s = omega arith
  handled-visit_entry path metadata_failed s = handled-omit _ _ s

  handled-visit :
      (item : WalkItem) (s : ScanState)
      → handled (visit limits inspect root item s) ≡ handled s + item_counts root item
  unfolding visit
  handled-visit walk_failed s = handled-omit _ _ s
  handled-visit (walked path meta) s = ground (arith, handled-visit_entry path meta s)

  handled-scan_loop :
      (items : List (Bool × WalkItem)) (s : ScanState)
      → (handled (scan_loop limits inspect root items s).0 ≡ handled s + accountable root items)
        × ((scan_loop limits inspect root items s).1 ≡ any_cancelled items)
  unfolding scan_loop
  handled-scan_loop [] s = (omega arith, refl)
  handled-scan_loop ((true, item) ∷ items) s = (handled-omit _ _ s, refl)
  handled-scan_loop ((false, item) ∷ items) s =
      let ih = handled-scan_loop items (visit limits inspect root item s) in
      (omega (arith, ih.0, handled-visit item s), ih.1)

-- Each item up to a cancellation is noted: a failed walk and a failed metadata by their omission, a
-- file below the root and outside of `.git` by the record that its inspection gives, but for the
-- preview, or by an omission with its path, and the cancellation, which ends the scan, by its omission.
-- There are as many records and omissions together as these items, and not one more.
pub scan_tree_accounts :
    (limits : ScanLimits) (inspect : FilePath → Result FileRecord) (root : FilePath)
    (items : List (Bool × WalkItem))
    → let outcome = scan_tree limits inspect root items in
      AllNoted inspect root items outcome.files outcome.omissions
      × (length outcome.files + length outcome.omissions ≡ accountable root items)
      × (outcome.cancelled ≡ any_cancelled items)
unfolding scan_tree
scan_tree_accounts limits inspect root items =
    let h = handled-scan_loop limits inspect root items initial in
    (scan_loop-AllNoted limits inspect root items initial, omega (arith, h.0), h.1)

complete_parts :
    (outcome : ScanOutcome)
    → is_complete outcome ≡ true
    → (outcome.cancelled ≡ false) × (length outcome.omissions ≡ 0)
unfolding is_complete
complete_parts outcome h = ground arith

-- Nothing is omitted: no walk and no metadata outside of `.git` has failed, no scan is cancelled, and
-- each file below the root and outside of `.git` has its record.
abbrev pub FileRecorded :
    (FilePath → Result FileRecord) → Option FilePath → List FileRecord → Type 0
FileRecorded inspect none files = Unit
FileRecorded inspect (some rel) files = Has (Recorded inspect rel) files

abbrev pub EntryRecorded :
    (FilePath → Result FileRecord) → FilePath → FilePath → Metadata → List FileRecord → Type 0
EntryRecorded inspect root path (file_of len) files =
    FileRecorded inspect (strip_prefix path root) files
EntryRecorded inspect root path not_file files = Unit
EntryRecorded inspect root path metadata_failed files = ⊥

abbrev pub AllRecorded :
    (FilePath → Result FileRecord) → FilePath → List (Bool × WalkItem) → List FileRecord → Type 0
AllRecorded inspect root [] files = Unit
AllRecorded inspect root ((true, item) ∷ items) files = ⊥
AllRecorded inspect root ((false, walk_failed) ∷ items) files = ⊥
AllRecorded inspect root ((false, walked path meta) ∷ items) files =
    Unless (in_git_dir path) (EntryRecorded inspect root path meta files)
    × AllRecorded inspect root items files

module _ (inspect : FilePath → Result FileRecord) (root : FilePath) (files : List FileRecord) where
  Never-Has : (rows : List FileRecord) → Has Never rows → ⊥
  Never-Has [] h = h
  Never-Has (f ∷ rows) (inl h) = h
  Never-Has (f ∷ rows) (inr h) = Never-Has rows h

  nowhere : Has Never files ⊎ ⊥ → ⊥
  nowhere (inl h) = Never-Has files h
  nowhere (inr h) = h

  FileNoted-recorded :
      (found : Option FilePath)
      → FileNoted inspect found files []
      → FileRecorded inspect found files
  FileNoted-recorded none h = tt
  FileNoted-recorded (some rel) (inl h) = h
  FileNoted-recorded (some rel) (inr h) = absurd h

  EntryNoted-recorded :
      (b : Bool) (path : FilePath) (meta : Metadata)
      → Unless b (EntryNoted inspect root path meta files [])
      → Unless b (EntryRecorded inspect root path meta files)
  EntryNoted-recorded true path meta h = tt
  EntryNoted-recorded false path (file_of len) h = FileNoted-recorded (strip_prefix path root) h
  EntryNoted-recorded false path not_file h = tt
  EntryNoted-recorded false path metadata_failed h = nowhere h

  AllNoted-recorded :
      (items : List (Bool × WalkItem))
      → AllNoted inspect root items files []
      → AllRecorded inspect root items files
  AllNoted-recorded [] h = tt
  AllNoted-recorded ((true, item) ∷ items) h = nowhere h
  AllNoted-recorded ((false, walk_failed) ∷ items) h = absurd (nowhere h.0)
  AllNoted-recorded ((false, walked path meta) ∷ items) h =
      (EntryNoted-recorded (in_git_dir path) path meta h.0, AllNoted-recorded items h.1)

none_left : (omissions : List ScanOmission) → length omissions ≡ 0 → omissions ≡ []
none_left [] h = refl
none_left (o ∷ omissions) h = absurd (omega (arith, h))

-- A scan that calls itself complete was not cancelled, met no failed walk and no failed metadata
-- outside of `.git`, has for every file below the root and outside of `.git` the record that its
-- inspection gives, and no further record.
pub is_complete-scan_tree :
    (limits : ScanLimits) (inspect : FilePath → Result FileRecord) (root : FilePath)
    (items : List (Bool × WalkItem))
    → is_complete (scan_tree limits inspect root items) ≡ true
    → AllRecorded inspect root items (scan_tree limits inspect root items).files
      × (any_cancelled items ≡ false)
      × (length (scan_tree limits inspect root items).files ≡ accountable root items)
is_complete-scan_tree limits inspect root items h =
    let outcome = scan_tree limits inspect root items in
    let c = complete_parts outcome h in
    let a = scan_tree_accounts limits inspect root items in
    (
      AllNoted-recorded inspect root outcome.files items (
          subst (λ os. AllNoted inspect root items outcome.files os)
            (none_left outcome.omissions c.1) a.0),
      sym a.2 ∙ c.0,
      omega (arith, a.1, c.1),
    )
