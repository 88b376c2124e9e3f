-- ===== src/Storage/Receipts/Insertion.antt =====
-- crates/mentat-storage/src/grounding_store.rs: what the insertion of a receipt does.
use code_mentat.Base.{
  Bool, true, false, not, Option, none, some, List, [], ◌∷◌, ◌++◌, contains, any, list_eq, nat_eq,
  ◌==◌, ◌!=◌, ==_refl, Bool-cases, or-split, ◌≡◌, ◌⊎◌, inl, inr, refl, sym, ap, subst, !=-sound,
  arith,
}
use code_mentat.Core.Error.{MentatError, ok, err, storage_error}
use code_mentat.Core.Models.{Uuid}
use code_mentat.Core.Egress.{ToolEgressReceipt, prepared}
use code_mentat.Storage.Receipts.{
  StoredReceipt, ReceiptStore, Sqlite, find_receipt, prepare_tool_egress_receipt,
  egress_status_text, insert_refused, is_stored,
}

find_receipt-insert :
    (rows : List StoredReceipt) (row : StoredReceipt)
    → find_receipt row.receipt.id rows ≡ none
    → find_receipt row.receipt.id (rows ++ (row ∷ [])) ≡ some row
unfolding find_receipt
find_receipt-insert [] row h = rw (==_refl row.receipt.id) refl
find_receipt-insert (r ∷ rows) row h = ground (arith, find_receipt-insert rows row)

find_receipt-insert_other :
    (rows : List StoredReceipt) (row : StoredReceipt) (j : Uuid)
    → (row.receipt.id == j) ≡ false
    → find_receipt j (rows ++ (row ∷ [])) ≡ find_receipt j rows
unfolding find_receipt
find_receipt-insert_other [] row j h = rw h refl
find_receipt-insert_other (r ∷ rows) row j h = rw (find_receipt-insert_other rows row j h) refl

-- What an insertion that succeeds did to the store.
pub record IsInserted (owner : Uuid) (r : ToolEgressReceipt) (s t : ReceiptStore) : Type 0 where
  pub was_prepared : egress_status_text r.status ≡ egress_status_text prepared
  pub was_absent : find_receipt r.id s.receipts ≡ none
  pub trace_known : contains r.trace_id s.traces ≡ true
  pub scope_known : any (λ scope. scope.id == r.consent_scope_id) s.scopes ≡ true
  pub row : StoredReceipt
  pub found : find_receipt r.id t.receipts ≡ some row
  pub own_receipt : (row.receipt ≡ r) × (row.runtime_owner_id ≡ owner)
  pub row_prepared : row.status ≡ egress_status_text prepared
  pub others_kept :
      (j : Uuid) → (r.id == j) ≡ false → find_receipt j t.receipts ≡ find_receipt j s.receipts
  pub rest_kept : (t.traces ≡ s.traces) × (t.scopes ≡ s.scopes)

none-of_is_stored : (o : Option StoredReceipt) → is_stored o ≡ false → o ≡ none
none-of_is_stored none h = refl
none-of_is_stored (some r) h = cc

not-false : (b : Bool) → not b ≡ false → b ≡ true
not-false b h = ground arith

inserted :
    (io : Sqlite) (owner : Uuid) (r : ToolEgressReceipt) (s : ReceiptStore) (row : StoredReceipt)
    → egress_status_text r.status ≡ egress_status_text prepared
    → insert_refused io r s ≡ false
    → row.receipt ≡ r
    → row.runtime_owner_id ≡ owner
    → row.status ≡ egress_status_text prepared
    → IsInserted owner r s (record s { receipts = s.receipts ++ (row ∷ []) })
inserted io owner r s row was free own by now =
    let known = any (λ scope. scope.id == r.consent_scope_id) s.scopes in
    let s1 = or-split _ (not known) free in
    let s2 =
      or-split (is_stored (find_receipt r.id s.receipts)) (not (contains r.trace_id s.traces))
        s1.0 in
    let absent = none-of_is_stored (find_receipt r.id s.receipts) s2.0 in
    let id : row.receipt.id ≡ r.id = ap (λ o. o.id) own in
    record {
      was_prepared = was;
      was_absent = absent;
      trace_known = not-false (contains r.trace_id s.traces) s2.1;
      scope_known = not-false known s1.1;
      row = row;
      found =
          subst (λ i. find_receipt i (s.receipts ++ (row ∷ [])) ≡ some row) id
            (find_receipt-insert s.receipts row
              (subst (λ i. find_receipt i s.receipts ≡ none) (sym id) absent));
      own_receipt = (own, by);
      row_prepared = now;
      others_kept = λ j apart.
          find_receipt-insert_other s.receipts row j (subst (λ i. (i == j) ≡ false) (sym id) apart);
      rest_kept = (refl, refl);
    }

-- An insertion either fails and leaves the store as it was, or the receipt was prepared and new, its
-- trace and its scope are stored, and the store has it in a row with the status `Prepared` and is
-- otherwise as before.
pub prepare_tool_egress_receipt_inserts :
    (io : Sqlite) (owner : Uuid) (r : ToolEgressReceipt) (s : ReceiptStore)
    → ((e : MentatError) × (prepare_tool_egress_receipt io owner r s ≡ (s, err e)))
      ⊎ ((t : ReceiptStore) × (prepare_tool_egress_receipt io owner r s ≡ (t, ok tt))
          × IsInserted owner r s t)
unfolding prepare_tool_egress_receipt
prepare_tool_egress_receipt_inserts io owner r s =
    elim (Bool-cases (egress_status_text r.status != egress_status_text prepared)) [
      | inl a ↦ inl (storage_error "TOOL_EGRESS_RECEIPT_NOT_PREPARED", rw a refl)
      | inr a ↦ elim (Bool-cases io.lock_poisoned) [
        | inl b ↦ inl (storage_error "STORAGE_LOCK_POISONED", rw (a, b) refl)
        | inr b ↦ elim (Bool-cases (insert_refused io r s)) [
          | inl c ↦ inl (storage_error "TOOL_EGRESS_RECEIPT_INSERT_FAILED", rw (a, b, c) refl)
          | inr c ↦
              let row : StoredReceipt = record {
                receipt = r;
                status = egress_status_text prepared;
                updated_at = r.updated_at;
                runtime_owner_id = owner;
              } in
              inr (
                record s { receipts = s.receipts ++ (row ∷ []) },
                rw (a, b, c) refl,
                inserted io owner r s row
                    (!=-sound (egress_status_text r.status) (egress_status_text prepared) a) c refl
                    refl refl,
              )
        ]
      ]
    ]
