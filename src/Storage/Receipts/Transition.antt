-- ===== src/Storage/Receipts/Transition.antt =====
-- crates/mentat-storage/src/grounding_store.rs: what a compare-and-set of a batch of receipts does
-- to the store, when it succeeds and when it fails.
use code_mentat.Base.{
  ℕ, Bool, true, false, not, Option, none, List, [], ◌∷◌, Text, contains, distinct, All, nat_eq,
  is_empty, ◌≡◌, ◌⊎◌, inl, inr, refl, ap, arith, subst,
}
use code_mentat.Core.Error.{
  MentatError, ok, err, storage_error, >>=-eq-ok, fail_if-eq-ok, Result-cases,
}
use code_mentat.Core.Models.{Uuid, Time}
use code_mentat.Core.Egress.{ToolEgressStatus, prepared, sent, failed, outcome_unknown}
use code_mentat.Storage.Receipts.{
  StoredReceipt, ReceiptStore, Sqlite, find_receipt, check_batch, update_batch, batch_rows,
  committed, compare_and_set_batch, egress_status_text, transition_allowed,
}
use code_mentat.Storage.Receipts.Updates.{
  HasStatus, IsPending, check_batch-IsPending, update_batch-own, find_receipt-batch_other,
}

-- What a batch of compare-and-set did to the rows.
pub record IsBatchOf (ids : List Uuid) (next : ToolEgressStatus) (before after : List StoredReceipt)
    : Type 0 where
  pub digest : Text
  pub allowed : transition_allowed prepared next ≡ true
  pub were_prepared : All (IsPending (egress_status_text prepared) digest before) ids
  pub are_next : All (λ id. HasStatus id (egress_status_text next) after) ids
  pub others_kept :
      (id : Uuid) → contains id ids ≡ false → find_receipt id after ≡ find_receipt id before

pub allowed-prepared :
    (expected next : ToolEgressStatus)
    → transition_allowed expected next ≡ true
    → expected ≡ prepared
allowed-prepared prepared next h = refl
allowed-prepared sent next h = cc
allowed-prepared failed next h = cc
allowed-prepared outcome_unknown next h = cc

not-false : (b : Bool) → not b ≡ false → b ≡ true
not-false b h = ground arith

-- The steps of a batch that is committed.
pub record IsCommitted (now : Time) (stop : Option ℕ) (ids : List Uuid)
    (expected next : ToolEgressStatus) (rows out : List StoredReceipt) : Type 0 where
  pub allowed : transition_allowed expected next ≡ true
  pub filled : is_empty ids ≡ false
  pub all_distinct : distinct ids ≡ true
  pub checked : check_batch (egress_status_text expected) none ids rows ≡ ok tt
  pub updated :
      update_batch now stop 0 (egress_status_text expected) (egress_status_text next) ids rows
      ≡ ok out

pub batch_rows-IsCommitted :
    (io : Sqlite) (now : Time) (stop : Option ℕ) (ids : List Uuid)
    (expected next : ToolEgressStatus) (rows out : List StoredReceipt)
    → batch_rows io now stop ids expected next rows ≡ ok out
    → IsCommitted now stop ids expected next rows out
unfolding batch_rows
batch_rows-IsCommitted io now stop ids expected next rows out h =
    let s1 = fail_if-eq-ok _ (storage_error "TOOL_EGRESS_STATUS_TRANSITION_INVALID") _ out h in
    let s2 = fail_if-eq-ok _ (storage_error "TOOL_EGRESS_BATCH_EMPTY") _ out s1.1 in
    let s3 = fail_if-eq-ok _ (storage_error "TOOL_EGRESS_BATCH_DUPLICATE") _ out s2.1 in
    let s4 = fail_if-eq-ok _ (storage_error "STORAGE_LOCK_POISONED") _ out s3.1 in
    let s5 = fail_if-eq-ok _ (storage_error "TOOL_EGRESS_BATCH_BEGIN_FAILED") _ out s4.1 in
    let s6 = >>=-eq-ok (check_batch (egress_status_text expected) none ids rows) _ out s5.1 in
    let s7 =
      >>=-eq-ok
        (update_batch now stop 0 (egress_status_text expected) (egress_status_text next) ids rows) _
        out s6.2 in
    let s8 =
      fail_if-eq-ok io.commit_fails (storage_error "TOOL_EGRESS_BATCH_COMMIT_FAILED") (ok s7.0) out
        s7.2 in
    let last : ok s7.0 ≡ ok out = s8.1 in
    let same : s7.0 ≡ out = cc last in
    record {
      allowed = not-false (transition_allowed expected next) s1.0;
      filled = s2.0;
      all_distinct = not-false (distinct ids) s3.0;
      checked = s6.1;
      updated =
          subst
            (λ o.
              update_batch now stop 0 (egress_status_text expected) (egress_status_text next) ids
                rows
              ≡ ok o)
            same s7.1;
    }

All-HasStatus :
    (expected digest : Text) (rows : List StoredReceipt) (ids : List Uuid)
    → All (IsPending expected digest rows) ids
    → All (λ id. HasStatus id expected rows) ids
All-HasStatus expected digest rows [] h = tt
All-HasStatus expected digest rows (id ∷ ids) h = (
  record { row = h.0.row; found = h.0.found; own_status = h.0.own_status },
  All-HasStatus expected digest rows ids h.1,
)

committed-ok :
    (ids : List Uuid) (now : Time) (stop : Option ℕ) (expected next : ToolEgressStatus)
    (rows out : List StoredReceipt)
    → IsCommitted now stop ids expected next rows out
    → IsBatchOf ids next rows out
committed-ok [] now stop expected next rows out c = absurd (cc c.filled)
committed-ok (id ∷ ids) now stop expected next rows out c =
    let from = allowed-prepared expected next c.allowed in
    let pending = check_batch-IsPending (egress_status_text expected) id ids rows c.checked in
    let had = All-HasStatus (egress_status_text expected) pending.0 rows (id ∷ ids) pending.1 in
    record {
      digest = pending.0;
      allowed = subst (λ o. transition_allowed o next ≡ true) from c.allowed;
      were_prepared =
          subst (λ o. All (IsPending (egress_status_text o) pending.0 rows) (id ∷ ids)) from
            pending.1;
      are_next =
          update_batch-own now (egress_status_text expected) (egress_status_text next) stop 0
            (id ∷ ids) rows out c.updated c.all_distinct had;
      others_kept = λ j apart.
          find_receipt-batch_other now (egress_status_text expected) (egress_status_text next) stop
            0 j (id ∷ ids) rows out c.updated apart;
    }

-- A compare-and-set of a batch is atomic. Either it fails and leaves the store as it was, or every
-- receipt of the batch was prepared, for one and the same provider body, and now has the new status,
-- which is terminal, and every other receipt is as before.
pub compare_and_set_batch_atomic :
    (io : Sqlite) (now : Time) (stop : Option ℕ) (ids : List Uuid)
    (expected next : ToolEgressStatus) (s : ReceiptStore)
    → ((e : MentatError) × (compare_and_set_batch io now stop ids expected next s ≡ (s, err e)))
      ⊎ ((rows : List StoredReceipt) × (compare_and_set_batch io now stop ids expected next s
            ≡ (record s { receipts = rows }, ok tt))
          × IsBatchOf ids next s.receipts rows)
unfolding compare_and_set_batch
compare_and_set_batch_atomic io now stop ids expected next s =
    elim (Result-cases (batch_rows io now stop ids expected next s.receipts)) [
      | inl done ↦ inr (
        done.0,
        ap (committed io s) done.1,
        committed-ok ids now stop expected next s.receipts done.0
            (batch_rows-IsCommitted io now stop ids expected next s.receipts done.0 done.1),
      )
      | inr refused ↦ inl (refused.0, ap (committed io s) refused.1)
    ]
