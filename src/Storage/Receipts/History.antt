-- ===== src/Storage/Receipts/History.antt =====
-- crates/mentat-storage/src/grounding_store.rs: the receipts over any sequence of insertions,
-- batches, revocations and recoveries after a restart (db.rs).
use code_mentat.Base.{
  ℕ, Bool, true, false, Option, some, List, [], ◌∷◌, ◌++◌, list_eq, nat_eq, ◌==◌, if◌then◌else◌,
  ◌!=◌, Bool-cases, ◌≡◌, inl, inr, sym, ap, arith, subst,
}
use code_mentat.Core.Error.{storage_error, Result, err, Result-cases}
use code_mentat.Core.Models.{Uuid, Time}
use code_mentat.Core.Egress.{ToolEgressReceipt, ToolEgressStatus, prepared}
use code_mentat.Storage.Receipts.{
  StoredReceipt, ReceiptStore, Sqlite, find_receipt, batch_rows, committed, compare_and_set_batch,
  egress_status_text, prepare_tool_egress_receipt, revoke_repository_consent, recover_receipts,
  insert_refused,
}
use code_mentat.Storage.Receipts.Updates.{find_receipt-batch_kept}
use code_mentat.Storage.Receipts.Transition.{batch_rows-IsCommitted, allowed-prepared}

-- One operation of the store that writes receipts or scopes.
pub data Step : ReceiptStore → ReceiptStore → Type 0 where
  insert :
      (io : Sqlite) (owner : Uuid) (r : ToolEgressReceipt) (s : ReceiptStore)
      → Step s (prepare_tool_egress_receipt io owner r s).0
  batch :
      (io : Sqlite) (now : Time) (stop : Option ℕ) (ids : List Uuid)
      (expected next : ToolEgressStatus) (s : ReceiptStore)
      → Step s (compare_and_set_batch io now stop ids expected next s).0
  revoke :
      (io : Sqlite) (id : Uuid) (now : Time) (s : ReceiptStore)
      → Step s (revoke_repository_consent io id now s).0
  recover :
      (now : Time) (s : ReceiptStore)
      → Step s (record s { receipts = recover_receipts now s.receipts })

pub data Steps : ReceiptStore → ReceiptStore → Type 0 where
  done : (s : ReceiptStore) → Steps s s
  more : {s t u : ReceiptStore} → Step s t → Steps t u → Steps s u

-- A receipt is stored in a row whose status is not `Prepared`.
pub record IsSettled (id : Uuid) (row : StoredReceipt) (s : ReceiptStore) : Type 0 where
  pub found : find_receipt id s.receipts ≡ some row
  pub settled : (row.status == egress_status_text prepared) ≡ false

find_receipt-append :
    (id : Uuid) (rows later : List StoredReceipt) (row : StoredReceipt)
    → find_receipt id rows ≡ some row
    → find_receipt id (rows ++ later) ≡ some row
unfolding find_receipt
find_receipt-append id [] later row h = cc
find_receipt-append id (r ∷ rows) later row h = grind (arith, find_receipt-append id rows later row)

find_receipt-recover :
    (now : Time) (id : Uuid) (rows : List StoredReceipt) (row : StoredReceipt)
    → find_receipt id rows ≡ some row
    → (row.status == egress_status_text prepared) ≡ false
    → find_receipt id (recover_receipts now rows) ≡ some row
unfolding find_receipt recover_receipts
find_receipt-recover now id [] row h k = cc
find_receipt-recover now id (r ∷ rows) row h k = elim (Bool-cases (r.receipt.id == id)) [
  | inl own ↦
      let same : r ≡ row = ground (arith, h, own) in
      let kept : r.status == egress_status_text prepared ≡ false = cc (same, k) in
      grind (arith, own, same, kept)
  | inr other ↦
      let there : find_receipt id rows ≡ some row = ground (arith, h, other) in
      let rest = find_receipt-recover now id rows row there k in grind (arith, other, rest)
]

-- Both outcomes of a test keep the row.
kept_if :
    (id : Uuid) (row : StoredReceipt) (b : Bool) (x y : ReceiptStore × Result (Unit {0}))
    → IsSettled id row x.0
    → IsSettled id row y.0
    → IsSettled id row (if b then x else y).0
kept_if id row true x y h k = h
kept_if id row false x y h k = k

insert-IsSettled :
    (io : Sqlite) (owner : Uuid) (r : ToolEgressReceipt) (id : Uuid) (row : StoredReceipt)
    (s : ReceiptStore)
    → IsSettled id row s
    → IsSettled id row (prepare_tool_egress_receipt io owner r s).0
unfolding prepare_tool_egress_receipt
insert-IsSettled io owner r id row s h =
    let keep = kept_if id row in
    keep (egress_status_text r.status != egress_status_text prepared)
      (s, err (storage_error "TOOL_EGRESS_RECEIPT_NOT_PREPARED")) _ h
      (keep io.lock_poisoned (s, err (storage_error "STORAGE_LOCK_POISONED")) _ h
        (keep (insert_refused io r s) (s, err (storage_error "TOOL_EGRESS_RECEIPT_INSERT_FAILED")) _
          h
          (record {
            found = find_receipt-append id s.receipts _ row h.found;
            settled = h.settled;
          })))

batch-IsSettled :
    (io : Sqlite) (now : Time) (stop : Option ℕ) (ids : List Uuid)
    (expected next : ToolEgressStatus) (id : Uuid) (row : StoredReceipt) (s : ReceiptStore)
    → IsSettled id row s
    → IsSettled id row (compare_and_set_batch io now stop ids expected next s).0
unfolding compare_and_set_batch
batch-IsSettled io now stop ids expected next id row s h =
    elim (Result-cases (batch_rows io now stop ids expected next s.receipts)) [
      | inl out ↦
          let c = batch_rows-IsCommitted io now stop ids expected next s.receipts out.0 out.1 in
          let from = allowed-prepared expected next c.allowed in
          let kept =
            find_receipt-batch_kept now (egress_status_text expected) (egress_status_text next) stop
              0 id ids s.receipts out.0 row c.updated h.found (cc (from, h.settled)) in
          subst (λ o. IsSettled id row o.0) (sym (ap (committed io s) out.1))
            (record { found = kept; settled = h.settled })
      | inr e ↦ subst (λ o. IsSettled id row o.0) (sym (ap (committed io s) e.1)) h
    ]

Step-IsSettled :
    (id : Uuid) (row : StoredReceipt) (s t : ReceiptStore)
    → Step s t
    → IsSettled id row s
    → IsSettled id row t
unfolding revoke_repository_consent
Step-IsSettled id row s t (insert io owner r _) h = insert-IsSettled io owner r id row s h
Step-IsSettled id row s t (batch io now stop ids expected next _) h =
    batch-IsSettled io now stop ids expected next id row s h
Step-IsSettled id row s t (revoke io scope now _) h =
    kept_if id row io.lock_poisoned (s, err (storage_error "STORAGE_LOCK_POISONED")) _ h
      (record { found = h.found; settled = h.settled })
Step-IsSettled id row s t (recover now _) h = record {
  found = find_receipt-recover now id s.receipts row h.found h.settled;
  settled = h.settled;
}

-- A receipt whose status is terminal keeps its row over any sequence of these operations: receipts
-- inserted, batches compared and set, consents revoked, and the recovery after a restart. The deletion
-- of a conversation, which deletes its receipts, is none of them.
pub IsSettled-forever :
    (id : Uuid) (row : StoredReceipt) (s t : ReceiptStore)
    → Steps s t
    → IsSettled id row s
    → IsSettled id row t
IsSettled-forever id row s t (done _) h = h
IsSettled-forever id row s t (more step steps) h =
    IsSettled-forever id row _ t steps (Step-IsSettled id row s _ step h)
