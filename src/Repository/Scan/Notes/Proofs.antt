-- ===== src/Repository/Scan/Notes/Proofs.antt =====
-- crates/mentat-repository/src/session.rs: the loop of the scan notes each item and keeps the notes.
use code_mentat.Base.{
  ℕ, Bool, true, false, Option, none, some, List, [], ◌∷◌, All, ◌≡◌, refl, ap, ◌⊎◌, inl, inr,
  Has-left, Has-last, leb, saturating_add, byte_len, codes, normal, FilePath, Text, strip_prefix,
  Bool-cases,
}
use code_mentat.Core.Error.{Result, ok, err}
use code_mentat.Core.Models.{FileRecord}
use code_mentat.Repository.Scan.Induction.{ItemHas, visit_file_cases, loop_keeps}
use code_mentat.Repository.Scan.{
  ScanLimits, ScanOmitReason, walk_error, metadata_error, cancelled_scan, ScanOmission, ScanState,
  Metadata, file_of, not_file, metadata_failed, WalkItem, walk_failed, walked, omit, in_git_dir,
  or_else, max_scan_preview_bytes, keep_preview, push_record, inspected, visit_below, visit_entry,
  visit, scan_loop,
}
use code_mentat.Repository.Scan.Notes.{
  Recorded, Never, Noted, FileNoted, named, EntryNoted, Unless, ItemNoted, AllNoted,
}

module _ (P : FileRecord → Type 0) (R : ScanOmission → Type 0) where
  abbrev In : ScanState → Type 0
  In s = Noted P R s.records s.omissions

  omit-In :
      (path : FilePath) (reason : ScanOmitReason) (s : ScanState) → In s → In (omit path reason s)
  unfolding omit
  omit-In path reason s (inl h) = inl h
  omit-In path reason s (inr h) = inr (Has-left R s.omissions _ h)

  omitted-In :
      (path : FilePath) (reason : ScanOmitReason) (s : ScanState)
      → R (record { relative_path = path; reason = reason })
      → In (omit path reason s)
  unfolding omit
  omitted-In path reason s r = inr (Has-last R s.omissions _ r)

  push-In : (file : FileRecord) (s : ScanState) → In s → In (push_record file s)
  unfolding push_record
  push-In file s (inl h) = inl (Has-left P s.records _ h)
  push-In file s (inr h) = inr h

  inspected-In :
      (r : Result FileRecord) (rel : FilePath) (s : ScanState) → In s → In (inspected r rel s)
  unfolding inspected
  inspected-In (ok file) rel s h = push-In file s h
  inspected-In (err e) rel s h = omit-In rel _ s h

option_cases : {A : Type 0} (o : Option A) → (o ≡ none) ⊎ ((x : A) × (o ≡ some x))
option_cases none = inl refl
option_cases (some x) = inr (x, refl)

keep_preview-same :
    (file : FileRecord) (s : ScanState)
    → (preview : Option Text) × ((keep_preview file s).0 ≡ record file { text_preview = preview })
unfolding keep_preview
keep_preview-same file s = elim (option_cases file.text_preview) [
  | inl h ↦ (file.text_preview, rw h refl)
  | inr (preview, h) ↦
      elim (Bool-cases
        (leb (saturating_add s.preview_bytes (byte_len preview)) max_scan_preview_bytes)) [
          | inl e ↦ (
            file.text_preview,
            rw (h, keep_preview, e) (ap (λ p. record file { text_preview = p }) h),
          )
          | inr e ↦ (none, rw (h, keep_preview, e) refl)
        ]
]

module _ (limits : ScanLimits) (inspect : FilePath → Result FileRecord) (root : FilePath) where
  free : (items : List (Bool × WalkItem)) → All (ItemHas (λ rel len. Unit) root) items
  free [] = tt
  free ((c, walk_failed) ∷ items) = (tt, free items)
  free ((c, walked path (file_of len)) ∷ items) = ((λ rel h. tt), free items)
  free ((c, walked path not_file) ∷ items) = (tt, free items)
  free ((c, walked path metadata_failed) ∷ items) = (tt, free items)

  -- What is noted stays noted.
  loop-In :
      (P : FileRecord → Type 0) (R : ScanOmission → Type 0) (items : List (Bool × WalkItem))
      (s : ScanState)
      → In P R s
      → In P R (scan_loop limits inspect root items s).0
  loop-In P R items s h =
      loop_keeps (In P R) (λ rel len. Unit) limits inspect (omit-In P R)
        (λ rel len t u k.
          visit_file_cases (In P R) limits inspect rel len t (λ reason. omit-In P R rel reason t k)
            (λ fits room. inspected-In P R (inspect rel) rel t k))
        root items s (free items) h

  inspected-noted :
      (rel : FilePath) (s : ScanState) (r : Result FileRecord)
      → inspect rel ≡ r
      → In (Recorded inspect rel) (λ o. o.relative_path ≡ rel) (inspected r rel s)
  unfolding inspected push_record
  inspected-noted rel s (ok file) h =
      let kept = keep_preview-same file s in
      inl (Has-last (Recorded inspect rel) s.records _ (file, kept.0, h, kept.1))
  inspected-noted rel s (err e) h =
      omitted-In (Recorded inspect rel) (λ o. o.relative_path ≡ rel) rel _ s refl

  below-noted :
      (found : Option FilePath) (len : ℕ) (s : ScanState)
      → let t = visit_below limits inspect found len s in
        FileNoted inspect found t.records t.omissions
  unfolding visit_below
  below-noted none len s = tt
  below-noted (some rel) len s =
      visit_file_cases (In (Recorded inspect rel) (λ o. o.relative_path ≡ rel)) limits inspect rel
        len s
        (λ reason. omitted-In (Recorded inspect rel) (λ o. o.relative_path ≡ rel) rel reason s refl)
        (λ fits room. inspected-noted rel s (inspect rel) refl)

  entry-noted :
      (path : FilePath) (meta : Metadata) (s : ScanState)
      → let t = visit_entry limits inspect root path meta s in
        EntryNoted inspect root path meta t.records t.omissions
  unfolding visit_entry
  entry-noted path (file_of len) s = below-noted (strip_prefix path root) len s
  entry-noted path not_file s = tt
  entry-noted path metadata_failed s = named-noted (strip_prefix path root)
    where
      named-noted :
          (found : Option FilePath)
          → In Never
              (λ o. o ≡ record { relative_path = named found path; reason = metadata_error })
              (omit (or_else limits inspect found path) metadata_error s)
      named-noted none = omitted-In Never _ path metadata_error s refl
      named-noted (some rel) = omitted-In Never _ rel metadata_error s refl

  visit-noted :
      (item : WalkItem) (s : ScanState)
      → let t = visit limits inspect root item s in
        ItemNoted inspect root item t.records t.omissions
  unfolding visit
  visit-noted walk_failed s = omitted-In Never _ (normal (codes "<walk>") ∷ []) walk_error s refl
  visit-noted (walked path meta) s = elim (Bool-cases (in_git_dir path)) [
    | inl e ↦ rw (e, visit) tt
    | inr e ↦ rw (e, visit) (entry-noted path meta s)
  ]

  file-kept :
      (found : Option FilePath) (items : List (Bool × WalkItem)) (s : ScanState)
      → FileNoted inspect found s.records s.omissions
      → let t = (scan_loop limits inspect root items s).0 in
        FileNoted inspect found t.records t.omissions
  file-kept none items s h = tt
  file-kept (some rel) items s h =
      loop-In (Recorded inspect rel) (λ o. o.relative_path ≡ rel) items s h

  Unless-kept : (b : Bool) (S T : Type 0) → (S → T) → Unless b S → Unless b T
  Unless-kept true S T f h = tt
  Unless-kept false S T f h = f h

  entry-kept :
      (path : FilePath) (meta : Metadata) (items : List (Bool × WalkItem)) (s : ScanState)
      → EntryNoted inspect root path meta s.records s.omissions
      → let t = (scan_loop limits inspect root items s).0 in
        EntryNoted inspect root path meta t.records t.omissions
  entry-kept path (file_of len) items s h = file-kept (strip_prefix path root) items s h
  entry-kept path not_file items s h = tt
  entry-kept path metadata_failed items s h = loop-In Never _ items s h

  item-kept :
      (item : WalkItem) (items : List (Bool × WalkItem)) (s : ScanState)
      → ItemNoted inspect root item s.records s.omissions
      → let t = (scan_loop limits inspect root items s).0 in
        ItemNoted inspect root item t.records t.omissions
  item-kept walk_failed items s h = loop-In Never _ items s h
  item-kept (walked path meta) items s h =
      Unless-kept (in_git_dir path) _ _ (entry-kept path meta items s) h

  pub scan_loop-AllNoted :
      (items : List (Bool × WalkItem)) (s : ScanState)
      → let t = (scan_loop limits inspect root items s).0 in
        AllNoted inspect root items t.records t.omissions
  unfolding scan_loop
  scan_loop-AllNoted [] s = tt
  scan_loop-AllNoted ((true, item) ∷ items) s =
      omitted-In Never _ (normal (codes "<scan>") ∷ []) cancelled_scan s refl
  scan_loop-AllNoted ((false, item) ∷ items) s =
      let next = visit limits inspect root item s in
      (item-kept item items next (visit-noted item s), scan_loop-AllNoted items next)
