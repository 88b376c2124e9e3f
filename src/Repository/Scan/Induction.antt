-- ===== src/Repository/Scan/Induction.antt =====
-- The induction over the walk: what every omission and every visited file keeps, a scan keeps.
use code_mentat.Base.{
  ◌≤◌, ◌<◌, ltb, leb, length, saturating_add, ℕ, Bool, true, false, Option, none, some, List, [],
  ◌∷◌, ◌≡◌, FilePath, strip_prefix, All, Bool-cases, inl, inr, arith, refl,
}
use code_mentat.Core.Error.{Result}
use code_mentat.Core.Models.{FileRecord}
use code_mentat.Repository.Scan.{
  ScanLimits, ScanOmitReason, ScanState, Metadata, file_of, not_file, metadata_failed, WalkItem,
  walk_failed, walked, file_too_large, total_bytes_limit, file_count_limit, inspected, omit,
  in_git_dir, visit_file, visit_below, visit_entry, visit, scan_loop,
}

-- What is assumed of an item of the walk, for the files below the root.
abbrev pub ItemHas : (FilePath → ℕ → Type 0) → FilePath → Bool × WalkItem → Type 0
ItemHas Q root (c, walk_failed) = Unit
ItemHas Q root (c, walked path (file_of len)) =
    (rel : FilePath) → strip_prefix path root ≡ some rel → Q rel len
ItemHas Q root (c, walked path not_file) = Unit
ItemHas Q root (c, walked path metadata_failed) = Unit

-- `visit_file` omits the file, or inspects it with room left for it.
pub visit_file_cases :
    (P : ScanState → Type 0) (limits : ScanLimits) (inspect : FilePath → Result FileRecord)
    (rel : FilePath) (len : ℕ) (s : ScanState)
    → ((reason : ScanOmitReason) → P (omit rel reason s))
    → (saturating_add s.accumulated_bytes len ≤ limits.max_total_bytes
        → length s.records < limits.max_files
        → P (inspected (inspect rel) rel s))
    → P (visit_file limits inspect rel len s)
unfolding visit_file
visit_file_cases P limits inspect rel len s omitted room =
    elim (Bool-cases (ltb limits.max_single_file_bytes len)) [
      | inl e ↦ rw e (omitted file_too_large)
      | inr e ↦ elim (Bool-cases (ltb limits.max_total_bytes total)) [
        | inl f ↦ rw (e, f) (omitted total_bytes_limit)
        | inr f ↦ elim (Bool-cases (leb limits.max_files (length s.records))) [
          | inl g ↦ rw (e, f, g) (omitted file_count_limit)
          | inr g ↦ rw (e, f, g) (room (ground arith) (ground arith))
        ]
      ]
    ]
  where
    total : ℕ
    total = saturating_add s.accumulated_bytes len

module _ (P : ScanState → Type 0) (Q : FilePath → ℕ → Type 0) (limits : ScanLimits)
    (inspect : FilePath → Result FileRecord)
    (omitted : (path : FilePath) (reason : ScanOmitReason) (s : ScanState)
      → P s
      → P (omit path reason s))
    (visited : (rel : FilePath) (len : ℕ) (s : ScanState)
      → Q rel len
      → P s
      → P (visit_file limits inspect rel len s)) where
  below_keeps :
      (found : Option FilePath) (len : ℕ) (s : ScanState)
      → ((rel : FilePath) → found ≡ some rel → Q rel len)
      → P s
      → P (visit_below limits inspect found len s)
  unfolding visit_below
  below_keeps none len s q h = h
  below_keeps (some rel) len s q h = visited rel len s (q rel refl) h

  visit_keeps :
      (root : FilePath) (c : Bool) (item : WalkItem) (s : ScanState)
      → ItemHas Q root (c, item)
      → P s
      → P (visit limits inspect root item s)
  unfolding visit visit_entry
  visit_keeps root c walk_failed s q h = omitted _ _ s h
  visit_keeps root c (walked path meta) s q h = elim (Bool-cases (in_git_dir path)) [
    | inl e ↦ rw (e, visit) h
    | inr e ↦ rw (e, visit) (entry meta q)
  ]
    where
      entry :
          (m : Metadata)
          → ItemHas Q root (c, walked path m)
          → P (visit_entry limits inspect root path m s)
      entry (file_of len) k = below_keeps (strip_prefix path root) len s k h
      entry not_file k = h
      entry metadata_failed k = omitted _ _ s h

  pub loop_keeps :
      (root : FilePath) (items : List (Bool × WalkItem)) (s : ScanState)
      → All (ItemHas Q root) items
      → P s
      → P (scan_loop limits inspect root items s).0
  unfolding scan_loop
  loop_keeps root [] s q h = h
  loop_keeps root ((true, item) ∷ items) s q h = omitted _ _ s h
  loop_keeps root ((false, item) ∷ items) s q h =
      loop_keeps root items (visit limits inspect root item s) q.1
        (visit_keeps root false item s q.0 h)
