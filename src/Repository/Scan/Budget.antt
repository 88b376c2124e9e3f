-- ===== src/Repository/Scan/Budget.antt =====
-- The limits that a scan keeps: the number of files, the bytes of previews, the bytes of files.
use code_mentat.Base.{
  ℕ, ◌+◌, ◌≤◌, ◌<◌, Bool, Option, none, some, List, [], ◌∷◌, ◌++◌, ◌≡◌, refl, FilePath, Text,
  byte_len, length, length-append, All, saturating_add, saturating_add-le, u64_max, arith,
}
use code_mentat.Core.Error.{Result, ok, err}
use code_mentat.Core.Models.{FileRecord}
use code_mentat.Repository.Scan.Induction.{ItemHas, visit_file_cases, loop_keeps}
use code_mentat.Repository.Scan.{
  ScanLimits, ScanOmitReason, ScanState, file_of, not_file, metadata_failed, WalkItem, walk_failed,
  walked, initial, omit, keep_preview, push_record, inspected, visit_file, scan_loop, scan_tree,
  max_scan_preview_bytes,
}

abbrev preview_len : Option Text → ℕ
preview_len none = 0
preview_len (some t) = byte_len t

-- The bytes of all previews that a list of records holds.
abbrev pub preview_total : List FileRecord → ℕ
preview_total [] = 0
preview_total (file ∷ files) = preview_len file.text_preview + preview_total files

abbrev pub size_total : List FileRecord → ℕ
size_total [] = 0
size_total (file ∷ files) = file.size_bytes + size_total files

preview_total-append :
    (xs ys : List FileRecord) → preview_total (xs ++ ys) ≡ preview_total xs + preview_total ys
preview_total-append [] ys = omega arith
preview_total-append (x ∷ xs) ys = omega (arith, preview_total-append xs ys)

size_total-append :
    (xs ys : List FileRecord) → size_total (xs ++ ys) ≡ size_total xs + size_total ys
size_total-append [] ys = omega arith
size_total-append (x ∷ xs) ys = omega (arith, size_total-append xs ys)

record IsBounded (limits : ScanLimits) (s : ScanState) : Type 0 where
  counted : length s.records ≤ limits.max_files
  previews : preview_total s.records ≡ s.preview_bytes
  preview_room : s.preview_bytes ≤ max_scan_preview_bytes

keep_preview-room :
    (file : FileRecord) (p : Option Text) (s : ScanState)
    → file.text_preview ≡ p
    → s.preview_bytes ≤ max_scan_preview_bytes
    → (preview_len (keep_preview file s).0.text_preview + s.preview_bytes ≡ (keep_preview file s).1)
      × ((keep_preview file s).1 ≤ max_scan_preview_bytes)
unfolding keep_preview saturating_add
keep_preview-room file none s e h = ground arith
keep_preview-room file (some t) s e h = ground arith

push_record-IsBounded :
    (limits : ScanLimits) (file : FileRecord) (s : ScanState)
    → length s.records < limits.max_files
    → IsBounded limits s
    → IsBounded limits (push_record file s)
unfolding push_record
push_record-IsBounded limits file s h v =
    let room = keep_preview-room file file.text_preview s refl v.preview_room in
    let kept = (keep_preview file s).0 ∷ [] in
    record {
      counted = omega (arith, length-append s.records kept);
      previews = omega (arith, room.0, v.previews, preview_total-append s.records kept);
      preview_room = room.1;
    }

omit-IsBounded :
    (limits : ScanLimits) (path : FilePath) (reason : ScanOmitReason) (s : ScanState)
    → IsBounded limits s
    → IsBounded limits (omit path reason s)
unfolding omit
omit-IsBounded limits path reason s v = record {
  counted = v.counted;
  previews = v.previews;
  preview_room = v.preview_room;
}

module _ (limits : ScanLimits) (inspect : FilePath → Result FileRecord) where
  inspected-IsBounded :
      (r : Result FileRecord) (rel : FilePath) (s : ScanState)
      → length s.records < limits.max_files
      → IsBounded limits s
      → IsBounded limits (inspected r rel s)
  unfolding inspected
  inspected-IsBounded (ok file) rel s h v = push_record-IsBounded limits file s h v
  inspected-IsBounded (err e) rel s h v = omit-IsBounded limits rel _ s v

  visit_file-IsBounded :
      (rel : FilePath) (len : ℕ) (s : ScanState)
      → IsBounded limits s
      → IsBounded limits (visit_file limits inspect rel len s)
  visit_file-IsBounded rel len s v =
      visit_file_cases (IsBounded limits) limits inspect rel len s
        (λ reason. omit-IsBounded limits rel reason s v)
        (λ room h. inspected-IsBounded (inspect rel) rel s h v)

abbrev NoLimit : FilePath → ℕ → Type 0
NoLimit rel len = Unit {0}

NoLimit-All : (root : FilePath) (items : List (Bool × WalkItem)) → All (ItemHas NoLimit root) items
NoLimit-All root [] = tt
NoLimit-All root ((c, walk_failed) ∷ items) = (tt, NoLimit-All root items)
NoLimit-All root ((c, walked path (file_of len)) ∷ items) = (λ rel e. tt, NoLimit-All root items)
NoLimit-All root ((c, walked path not_file) ∷ items) = (tt, NoLimit-All root items)
NoLimit-All root ((c, walked path metadata_failed) ∷ items) = (tt, NoLimit-All root items)

-- Whatever the walk yields and the file system answers, a scan records at most `max_files` files,
-- and their previews together have at most 8 MiB.
pub scan_tree_bounded :
    (limits : ScanLimits) (inspect : FilePath → Result FileRecord) (root : FilePath)
    (items : List (Bool × WalkItem))
    → (length (scan_tree limits inspect root items).files ≤ limits.max_files)
      × (preview_total (scan_tree limits inspect root items).files ≤ max_scan_preview_bytes)
unfolding scan_tree
scan_tree_bounded limits inspect root items =
    let v : IsBounded limits (scan_loop limits inspect root items initial).0 =
      loop_keeps (IsBounded limits) NoLimit limits inspect (omit-IsBounded limits)
        (λ rel len s q h. visit_file-IsBounded limits inspect rel len s h) root items initial
        (NoLimit-All root items)
        (record { counted = omega arith; previews = refl; preview_room = omega arith }) in
    (v.counted, omega (arith, v.previews, v.preview_room))

-- The file did not grow between the walk and its inspection.
abbrev pub Unchanged : (FilePath → Result FileRecord) → FilePath → ℕ → Type 0
Unchanged inspect rel len = (file : FileRecord) → inspect rel ≡ ok file → file.size_bytes ≤ len

record IsWithin (limits : ScanLimits) (s : ScanState) : Type 0 where
  summed : size_total s.records ≡ s.accumulated_bytes
  room : s.accumulated_bytes ≤ limits.max_total_bytes

keep_preview-size :
    (file : FileRecord) (s : ScanState) → (keep_preview file s).0.size_bytes ≡ file.size_bytes
unfolding keep_preview
keep_preview-size file s = ground arith

module _ (limits : ScanLimits) (small : limits.max_total_bytes < u64_max)
    (inspect : FilePath → Result FileRecord) where
  push_record-IsWithin :
      (file : FileRecord) (s : ScanState)
      → s.accumulated_bytes + file.size_bytes ≤ limits.max_total_bytes
      → IsWithin limits s
      → IsWithin limits (push_record file s)
  unfolding push_record
  push_record-IsWithin file s h v = record {
    summed = omega (
      arith,
      v.summed,
      size_total-append s.records ((keep_preview file s).0 ∷ []),
      keep_preview-size file s,
    );
    room = omega arith;
  }

  omit-IsWithin :
      (path : FilePath) (reason : ScanOmitReason) (s : ScanState)
      → IsWithin limits s
      → IsWithin limits (omit path reason s)
  unfolding omit
  omit-IsWithin path reason s v = record { summed = v.summed; room = v.room }

  inspected-IsWithin :
      (r : Result FileRecord) (rel : FilePath) (s : ScanState)
      → ((file : FileRecord)
          → r ≡ ok file
          → s.accumulated_bytes + file.size_bytes ≤ limits.max_total_bytes)
      → IsWithin limits s
      → IsWithin limits (inspected r rel s)
  unfolding inspected
  inspected-IsWithin (ok file) rel s h v = push_record-IsWithin file s (h file refl) v
  inspected-IsWithin (err e) rel s h v = omit-IsWithin rel _ s v

  visit_file-IsWithin :
      (rel : FilePath) (len : ℕ) (s : ScanState)
      → Unchanged inspect rel len
      → IsWithin limits s
      → IsWithin limits (visit_file limits inspect rel len s)
  visit_file-IsWithin rel len s q v =
      visit_file_cases (IsWithin limits) limits inspect rel len s
        (λ reason. omit-IsWithin rel reason s v)
        (λ room h.
          inspected-IsWithin (inspect rel) rel s
            (λ file e.
              let grew =
                saturating_add-le s.accumulated_bytes len limits.max_total_bytes small room in
              omega (arith, q file e, grew))
            v)

-- If no file grows between the walk and its inspection, the recorded files together have at most
-- `max_total_bytes` bytes, for every such limit below the greatest `u64`.
pub scan_tree_total :
    (limits : ScanLimits) (inspect : FilePath → Result FileRecord) (root : FilePath)
    (items : List (Bool × WalkItem))
    → limits.max_total_bytes < u64_max
    → All (ItemHas (Unchanged inspect) root) items
    → size_total (scan_tree limits inspect root items).files ≤ limits.max_total_bytes
unfolding scan_tree
scan_tree_total limits inspect root items small q =
    let v : IsWithin limits (scan_loop limits inspect root items initial).0 =
      loop_keeps (IsWithin limits) (Unchanged inspect) limits inspect
        (omit-IsWithin limits small inspect) (visit_file-IsWithin limits small inspect) root items
        initial q (record { summed = refl; room = omega arith }) in
    omega (arith, v.summed, v.room)
