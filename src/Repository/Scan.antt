-- ===== src/Repository/Scan.antt =====
-- crates/mentat-repository/src/session.rs: `scan_tree`, the bounded and cancellable scan.
-- The walk is the list of what the walker yields, each with the reading of the cancel token before
-- it. `FileScanner::inspect_file` reads the file system: it is a parameter, the answer for a path
-- relative to the root.
pub mod Induction
pub mod Budget
pub mod Notes
pub mod Accounting
pub mod Examples
use code_mentat.Base.{
  ℕ, ◌+◌, ◌*◌, Bool, true, false, not, ◌&&◌, Option, none, some, List, [], ◌∷◌, ◌++◌, FilePath,
  normal, component_eq, codes, Text, byte_len, strip_prefix, any, ◌==◌, length, is_empty, ltb, leb,
  saturating_add, wrapping_add, if◌then◌else◌,
}
use code_mentat.Core.Error.{Result, ok, err}
use code_mentat.Core.Models.{FileRecord}

pub record ScanLimits : Type 0 where
  pub max_files : ℕ
  pub max_total_bytes : ℕ
  pub max_single_file_bytes : ℕ

abbrev pub max_scan_preview_bytes : ℕ
max_scan_preview_bytes = 8 * 1024 * 1024

abbrev pub default_limits : ScanLimits
default_limits = record {
  max_files = 100000;
  max_total_bytes = 2 * 1024 * 1024 * 1024;
  max_single_file_bytes = 10 * 1024 * 1024;
}

pub data ScanOmitReason : Type 0 where
  walk_error metadata_error read_error file_count_limit total_bytes_limit : ScanOmitReason
  file_too_large cancelled_scan : ScanOmitReason

pub record ScanOmission : Type 0 where
  pub relative_path : FilePath
  pub reason : ScanOmitReason

pub record ScanOutcome : Type 0 where
  pub files : List FileRecord
  pub omissions : List ScanOmission
  pub cancelled : Bool

pub is_complete : ScanOutcome → Bool
is_complete outcome = not outcome.cancelled && is_empty outcome.omissions

pub data Metadata : Type 0 where
  file_of : ℕ → Metadata
  not_file : Metadata
  metadata_failed : Metadata

pub data WalkItem : Type 0 where
  walk_failed : WalkItem
  walked : FilePath → Metadata → WalkItem

-- The local variables of the loop.
pub record ScanState : Type 0 where
  pub records : List FileRecord
  pub omissions : List ScanOmission
  pub accumulated_bytes : ℕ
  pub preview_bytes : ℕ

abbrev pub initial : ScanState
initial = record { records = []; omissions = []; accumulated_bytes = 0; preview_bytes = 0 }

pub omit : FilePath → ScanOmitReason → ScanState → ScanState
omit path reason s = record s {
  omissions = s.omissions ++ record { relative_path = path; reason = reason } ∷ [];
}

-- Any component named `.git`.
pub in_git_dir : FilePath → Bool
in_git_dir path = any (λ c. c == normal (codes ".git")) path

-- The preview stays while the previews kept so far leave room for it.
pub keep_preview : FileRecord → ScanState → FileRecord × ℕ
keep_preview file s = elim file.text_preview [
  | none ↦ (file, s.preview_bytes)
  | some preview ↦
      if leb (saturating_add s.preview_bytes (byte_len preview)) max_scan_preview_bytes
      then (file, s.preview_bytes + byte_len preview)
      else (record file { text_preview = none }, s.preview_bytes)
]

pub push_record : FileRecord → ScanState → ScanState
unfolding keep_preview
push_record file s =
    let (kept, previews) = keep_preview file s in
    record s {
      records = s.records ++ kept ∷ [];
      accumulated_bytes = wrapping_add s.accumulated_bytes file.size_bytes;
      preview_bytes = previews;
    }

pub inspected : Result FileRecord → FilePath → ScanState → ScanState
inspected (ok file) rel s = push_record file s
inspected (err e) rel s = omit rel read_error s

module _ (limits : ScanLimits) (inspect : FilePath → Result FileRecord) where
  -- A file below the root, with the length that its metadata gave.
  pub visit_file : FilePath → ℕ → ScanState → ScanState
  visit_file rel len s =
      if ltb limits.max_single_file_bytes len
      then omit rel file_too_large s
      else if ltb limits.max_total_bytes (saturating_add s.accumulated_bytes len)
      then omit rel total_bytes_limit s
      else if leb limits.max_files (length s.records)
      then omit rel file_count_limit s
      else inspected (inspect rel) rel s

  pub visit_below : Option FilePath → ℕ → ScanState → ScanState
  visit_below none len s = s
  visit_below (some rel) len s = visit_file rel len s

  abbrev pub or_else : Option FilePath → FilePath → FilePath
  or_else none path = path
  or_else (some rel) path = rel

  pub visit_entry : FilePath → FilePath → Metadata → ScanState → ScanState
  visit_entry root path (file_of len) s = visit_below (strip_prefix path root) len s
  visit_entry root path not_file s = s
  visit_entry root path metadata_failed s =
      omit (or_else (strip_prefix path root) path) metadata_error s

  -- One round of the loop, when the token is not cancelled.
  pub visit : FilePath → WalkItem → ScanState → ScanState
  visit root walk_failed s = omit (normal (codes "<walk>") ∷ []) walk_error s
  visit root (walked path meta) s = if in_git_dir path then s else visit_entry root path meta s

  pub scan_loop : FilePath → List (Bool × WalkItem) → ScanState → ScanState × Bool
  scan_loop root [] s = (s, false)
  scan_loop root ((true, item) ∷ items) s =
      (omit (normal (codes "<scan>") ∷ []) cancelled_scan s, true)
  scan_loop root ((false, item) ∷ items) s = scan_loop root items (visit root item s)

  pub scan_tree : FilePath → List (Bool × WalkItem) → ScanOutcome
  scan_tree root items =
      let (s, cancelled) = scan_loop root items initial in
      record { files = s.records; omissions = s.omissions; cancelled = cancelled }
