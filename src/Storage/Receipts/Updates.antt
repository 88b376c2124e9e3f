-- ===== src/Storage/Receipts/Updates.antt =====
-- crates/mentat-storage/src/grounding_store.rs: what an update of one receipt, and of a batch, does
-- to each row.
use code_mentat.Base.{
  ℕ, suc, true, false, Option, none, some, List, [], ◌∷◌, Text, contains, distinct, distinct-cons,
  All, list_eq, nat_eq, option_eq, ◌==◌, ◌!=◌, ==-sound, ==_refl, Bool-cases, or-split, ◌≡◌, inl,
  inr, refl, sym, ◌∙◌, arith,
}
use code_mentat.Core.Error.{ok, storage_error, >>=-eq-ok, fail_if-eq-ok}
use code_mentat.Core.Models.{Uuid, Time}
use code_mentat.Storage.Receipts.{
  StoredReceipt, find_receipt, update_status, updated_rows, update_batch, check_batch, or_conflict,
}

-- A receipt is stored with a status.
pub record HasStatus (id : Uuid) (status : Text) (rows : List StoredReceipt) : Type 0 where
  pub row : StoredReceipt
  pub found : find_receipt id rows ≡ some row
  pub own_status : row.status ≡ status

module _ (now : Time) (expected next : Text) where
  pub find_receipt-update_other :
      (id j : Uuid) (rows : List StoredReceipt)
      → (j == id) ≡ false
      → find_receipt j (update_status now id expected next rows) ≡ find_receipt j rows
  unfolding find_receipt update_status
  find_receipt-update_other id j [] h = refl
  find_receipt-update_other id j (r ∷ rows) h =
      let rest = find_receipt-update_other id j rows h in
      grind (arith, rest, ==-sound r.receipt.id id, ==_refl j)

  -- A row with another status than the expected one is kept, whatever receipt is updated.
  pub find_receipt-update_kept :
      (id j : Uuid) (rows : List StoredReceipt) (row : StoredReceipt)
      → find_receipt j rows ≡ some row
      → (row.status == expected) ≡ false
      → find_receipt j (update_status now id expected next rows) ≡ some row
  unfolding find_receipt update_status
  find_receipt-update_kept id j [] row h k = cc
  find_receipt-update_kept id j (r ∷ rows) row h k = elim (Bool-cases (r.receipt.id == j)) [
    | inl own ↦
        let same : r ≡ row = ground (arith, h, own) in
        let kept : r.status == expected ≡ false = cc (same, k) in grind (arith, own, same, kept)
    | inr other ↦
        let there : find_receipt j rows ≡ some row = ground (arith, h, other) in
        let rest = find_receipt-update_kept id j rows row there k in grind (arith, other, rest)
  ]

  find_receipt-update_own :
      (id : Uuid) (rows : List StoredReceipt) (row : StoredReceipt)
      → find_receipt id rows ≡ some row
      → row.status ≡ expected
      → find_receipt id (update_status now id expected next rows)
        ≡ some (record row { status = next; updated_at = now })
  unfolding find_receipt update_status
  find_receipt-update_own id [] row h k = cc
  find_receipt-update_own id (r ∷ rows) row h k = elim (Bool-cases (r.receipt.id == id)) [
    | inl own ↦
        let same : r ≡ row = ground (arith, h, own) in
        let hit : r.status == expected ≡ true = cc (same, k, ==_refl expected) in
        rw (own, hit, own, same) refl
    | inr other ↦
        let there : find_receipt id rows ≡ some row = ground (arith, h, other) in
        let rest = find_receipt-update_own id rows row there k in rw (other, other) rest
  ]

  step_of :
      (stop : Option ℕ) (index : ℕ) (id : Uuid) (ids : List Uuid) (rows out : List StoredReceipt)
      → update_batch now stop index expected next (id ∷ ids) rows ≡ ok out
      → update_batch now stop
          (suc index)
          expected
          next
          ids
          (update_status now id expected next rows)
        ≡ ok out
  unfolding update_batch
  step_of stop index id ids rows out h =
      let s1 =
        fail_if-eq-ok (stop == some index) (storage_error "TOOL_EGRESS_BATCH_KILLPOINT") _ out h in
      let s2 =
        fail_if-eq-ok (updated_rows id expected rows != 1)
          (storage_error "TOOL_EGRESS_STATUS_CONFLICT") _ out s1.1 in
      s2.1

  pub find_receipt-batch_other :
      (stop : Option ℕ) (index : ℕ) (j : Uuid) (ids : List Uuid) (rows out : List StoredReceipt)
      → update_batch now stop index expected next ids rows ≡ ok out
      → contains j ids ≡ false
      → find_receipt j out ≡ find_receipt j rows
  unfolding update_batch contains
  find_receipt-batch_other stop index j [] rows out h k = cc h
  find_receipt-batch_other stop index j (id ∷ ids) rows out h k =
      let s = step_of stop index id ids rows out h in
      let apart = or-split (id == j) (contains j ids) k in
      let rest =
        find_receipt-batch_other stop (suc index) j ids (update_status now id expected next rows)
          out s apart.1 in
      rest ∙ find_receipt-update_other id j rows (ground (arith, apart.0))

  pub find_receipt-batch_kept :
      (stop : Option ℕ) (index : ℕ) (j : Uuid) (ids : List Uuid) (rows out : List StoredReceipt)
      (row : StoredReceipt)
      → update_batch now stop index expected next ids rows ≡ ok out
      → find_receipt j rows ≡ some row
      → (row.status == expected) ≡ false
      → find_receipt j out ≡ some row
  unfolding update_batch
  find_receipt-batch_kept stop index j [] rows out row h f k = cc (h, f)
  find_receipt-batch_kept stop index j (id ∷ ids) rows out row h f k =
      find_receipt-batch_kept stop (suc index) j ids (update_status now id expected next rows) out
        row (step_of stop index id ids rows out h) (find_receipt-update_kept id j rows row f k) k

  -- The receipts of the rest of a batch keep their status when its head is updated.
  All-update_other :
      (id : Uuid) (ids : List Uuid) (rows : List StoredReceipt)
      → contains id ids ≡ false
      → All (λ j. HasStatus j expected rows) ids
      → All (λ j. HasStatus j expected (update_status now id expected next rows)) ids
  unfolding contains
  All-update_other id [] rows h k = tt
  All-update_other id (j ∷ ids) rows h k =
      let apart = or-split (j == id) (contains id ids) h in
      let other = find_receipt-update_other id j rows apart.0 in
      (
        record { row = k.0.row; found = other ∙ k.0.found; own_status = k.0.own_status },
        All-update_other id ids rows apart.1 k.1,
      )

  pub update_batch-own :
      (stop : Option ℕ) (index : ℕ) (ids : List Uuid) (rows out : List StoredReceipt)
      → update_batch now stop index expected next ids rows ≡ ok out
      → distinct ids ≡ true
      → All (λ j. HasStatus j expected rows) ids
      → All (λ j. HasStatus j next out) ids
  update_batch-own stop index [] rows out h d k = tt
  update_batch-own stop index (id ∷ ids) rows out h d k =
      let s = step_of stop index id ids rows out h in
      let apart = distinct-cons id ids d in
      let own = find_receipt-update_own id rows k.0.row k.0.found k.0.own_status in
      let kept =
        find_receipt-batch_other stop (suc index) id ids (update_status now id expected next rows)
          out s apart.0 in
      let row = record k.0.row { status = next; updated_at = now } in
      (
        record { row = row; found = kept ∙ own; own_status = refl },
        update_batch-own stop (suc index) ids _ out s apart.1
            (All-update_other id ids rows apart.0 k.1),
      )

-- What the first loop of a batch has seen of each of its receipts.
pub record IsPending (expected digest : Text) (rows : List StoredReceipt) (id : Uuid) : Type 0 where
  pub row : StoredReceipt
  pub found : find_receipt id rows ≡ some row
  pub own_status : row.status ≡ expected
  pub own_body : row.receipt.exact_provider_body_digest ≡ digest

or_conflict-eq-ok :
    (o : Option StoredReceipt) (r : StoredReceipt) → or_conflict o ≡ ok r → o ≡ some r
or_conflict-eq-ok none r h = cc
or_conflict-eq-ok (some a) r h = cc h

!=-eq : (a b : Text) → (a != b) ≡ false → a ≡ b
!=-eq a b h = ==-sound a b (ground arith)

check_batch-some :
    (expected digest : Text) (ids : List Uuid) (rows : List StoredReceipt)
    → check_batch expected (some digest) ids rows ≡ ok tt
    → All (IsPending expected digest rows) ids
unfolding check_batch
check_batch-some expected digest [] rows h = tt
check_batch-some expected digest (id ∷ ids) rows h =
    let s1 = >>=-eq-ok (or_conflict (find_receipt id rows)) _ tt h in
    let s2 =
      fail_if-eq-ok (s1.0.status != expected) (storage_error "TOOL_EGRESS_STATUS_CONFLICT") _ tt
        s1.2 in
    let s3 =
      fail_if-eq-ok (digest != s1.0.receipt.exact_provider_body_digest)
        (storage_error "TOOL_EGRESS_BATCH_BODY_MISMATCH") _ tt s2.1 in
    (
      record {
        row = s1.0;
        found = or_conflict-eq-ok (find_receipt id rows) s1.0 s1.1;
        own_status = !=-eq s1.0.status expected s2.0;
        own_body = sym (!=-eq digest s1.0.receipt.exact_provider_body_digest s3.0);
      },
      check_batch-some expected digest ids rows s3.1,
    )

-- A checked batch that is not empty is pending, with one body.
pub check_batch-IsPending :
    (expected : Text) (id : Uuid) (ids : List Uuid) (rows : List StoredReceipt)
    → check_batch expected none (id ∷ ids) rows ≡ ok tt
    → (digest : Text) × All (IsPending expected digest rows) (id ∷ ids)
unfolding check_batch
check_batch-IsPending expected id ids rows h =
    let s1 = >>=-eq-ok (or_conflict (find_receipt id rows)) _ tt h in
    let s2 =
      fail_if-eq-ok (s1.0.status != expected) (storage_error "TOOL_EGRESS_STATUS_CONFLICT") _ tt
        s1.2 in
    let own = s1.0.receipt.exact_provider_body_digest in
    (
      own,
      (
        record {
          row = s1.0;
          found = or_conflict-eq-ok (find_receipt id rows) s1.0 s1.1;
          own_status = !=-eq s1.0.status expected s2.0;
          own_body = refl;
        },
        check_batch-some expected own ids rows s2.1,
      ),
    )
