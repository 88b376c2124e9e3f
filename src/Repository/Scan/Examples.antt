-- ===== src/Repository/Scan/Examples.antt =====
-- crates/mentat-repository/src/session.rs: a scan of two files, one of them too large.
use code_mentat.Repository.Scan.Notes.{AllNoted}
use code_mentat.Base.{
  ℕ, ◌+◌, ◌≤◌, Bool, true, false, some, List, [], ◌∷◌, FilePath, normal, root_dir, codes, Text,
  length, strip_prefix, component_eq, any, component_beq, list_beq, saturating_add, ◌≡◌, refl,
  arith, subst,
}
use code_mentat.Core.Error.{Result, ok}
use code_mentat.Core.Models.{FileRecord, source_code}
use code_mentat.Repository.Scan.{
  ScanLimits, WalkItem, walked, file_of, scan_tree, scan_loop, visit, visit_entry, visit_file,
  visit_below, inspected, push_record, keep_preview, in_git_dir, is_complete,
  max_scan_preview_bytes,
}
use code_mentat.Repository.Scan.Budget.{
  scan_tree_bounded, scan_tree_total, preview_total, size_total, Unchanged,
}
use code_mentat.Repository.Scan.Accounting.{scan_tree_accounts, accountable}

abbrev pub limits : ScanLimits
limits = record { max_files = 10; max_total_bytes = 100; max_single_file_bytes = 50 }

abbrev pub inspected_file : FilePath → FileRecord
inspected_file path = record {
  relative_path = path;
  kind = source_code;
  size_bytes = 5;
  content_hash = codes "h";
  is_text = true;
  line_count = some 1;
  text_preview = some (codes "hello");
}

abbrev pub inspect : FilePath → Result FileRecord
inspect path = ok (inspected_file path)

abbrev pub root : FilePath
root = root_dir ∷ normal (codes "r") ∷ []

abbrev pub item : Text → ℕ → Bool × WalkItem
item name len = (false, walked (root_dir ∷ normal (codes "r") ∷ normal name ∷ []) (file_of len))

abbrev both : List (Bool × WalkItem)
both = item (codes "a.rs") 5 ∷ item (codes "b.bin") 51 ∷ []

abbrev pub small : List (Bool × WalkItem)
small = item (codes "a.rs") 5 ∷ []

scan_tree_bounded_example :
    (length (scan_tree limits inspect root both).files ≤ 10)
    × (preview_total (scan_tree limits inspect root both).files ≤ max_scan_preview_bytes)
scan_tree_bounded_example = scan_tree_bounded limits inspect root both

scan_tree_accounts_example :
    AllNoted inspect root both
      (scan_tree limits inspect root both).files
      (scan_tree limits inspect root both).omissions
    × (length (scan_tree limits inspect root both).files
          + length (scan_tree limits inspect root both).omissions
        ≡ accountable root both)
    × ((scan_tree limits inspect root both).cancelled ≡ false)
scan_tree_accounts_example = scan_tree_accounts limits inspect root both

pub small_complete : is_complete (scan_tree limits inspect root small) ≡ true
unfolding is_complete scan_tree strip_prefix push_record keep_preview in_git_dir scan_loop visit any
    component_beq list_beq visit_entry visit_below visit_file saturating_add inspected
small_complete = refl

unchanged : (rel : FilePath) → Unchanged inspect rel 5
unchanged rel file h =
    let same : inspected_file rel ≡ file = cc h in subst (λ f. f.size_bytes ≤ 5) same (omega arith)

scan_tree_total_example : size_total (scan_tree limits inspect root small).files ≤ 100
scan_tree_total_example =
    scan_tree_total limits inspect root small (omega arith) ((λ rel h. unchanged rel), tt)
