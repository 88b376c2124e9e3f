-- ===== src/Storage/Receipts/Examples.antt =====
-- crates/mentat-storage/src/grounding_store.rs: a store of two receipts for one body.
use code_mentat.Storage.Receipts.Insertion.{IsInserted, prepare_tool_egress_receipt_inserts}
use code_mentat.Storage.Receipts.{
  prepare_tool_egress_receipt, StoredReceipt, ReceiptStore, Sqlite, find_receipt,
  compare_and_set_batch, recover_receipts, egress_status_text, batch_rows, check_batch,
  update_batch, updated_rows, update_status,
}
use code_mentat.Core.Egress.{repository_session, ToolEgressReceipt, prepared, sent, failed}
use code_mentat.Base.{
  any, contains, ℕ, false, none, some, List, [], ◌∷◌, Text, codes, list_eq, nat_eq, ◌==◌, ◌≡◌, ◌⊎◌,
  refl, distinct, list_beq, option_beq,
}
use code_mentat.Core.Error.{MentatError, ok, err}
use code_mentat.Core.Tools.{read_file_lines}
use code_mentat.Storage.Receipts.Transition.{IsBatchOf, compare_and_set_batch_atomic}
use code_mentat.Storage.Receipts.History.{recover, done, more, IsSettled, IsSettled-forever}

abbrev sound : Sqlite
sound = record { lock_poisoned = false; begin_fails = false; commit_fails = false }

abbrev receipt : ℕ → ToolEgressReceipt
receipt id = record {
  id = id;
  seal_version = codes "CM_TOOL_EGRESS_V1";
  trace_id = 1;
  consent_scope_id = 2;
  conversation_id = 3;
  turn_id = 4;
  tool_call_id = 5;
  repository_id = 6;
  snapshot_id = 7;
  tool_name = read_file_lines;
  canonical_refs = [];
  provider_binding = record {
    profile_id = 1;
    provider = codes "P";
    endpoint_identity = codes "https://h/";
    model_id = codes "m";
    target_digest = codes "t";
  };
  semantic_payload_digest = codes "s";
  exact_provider_body_digest = codes "b";
  canonical_digest = codes "c";
  status = prepared;
  prepared_at = 0;
  updated_at = 0;
}

abbrev row : ℕ → Text → ℕ → StoredReceipt
row id status at = record {
  receipt = receipt id;
  status = status;
  updated_at = at;
  runtime_owner_id = 8;
}

abbrev store : Text → ℕ → ReceiptStore
store status at = record {
  traces = 1 ∷ [];
  scopes = [];
  receipts = row 10 status at ∷ row 11 status at ∷ [];
}

abbrev ids : List ℕ
ids = 10 ∷ 11 ∷ []

both_sent :
    compare_and_set_batch sound 50 none ids prepared sent (store (codes "Prepared") 0)
    ≡ (store (codes "Sent") 50, ok tt)
unfolding compare_and_set_batch batch_rows distinct check_batch find_receipt list_beq
    egress_status_text update_batch option_beq updated_rows update_status
both_sent = refl

-- A receipt that was sent fails no more: the batch is refused.
refused :
    (compare_and_set_batch sound 60 none ids prepared failed (store (codes "Sent") 50)).0
    ≡ store (codes "Sent") 50
unfolding compare_and_set_batch batch_rows distinct check_batch find_receipt list_beq
    egress_status_text
refused = refl

compare_and_set_batch_atomic_example :
    ((e : MentatError) × (compare_and_set_batch sound 50 none ids prepared sent
          (store (codes "Prepared") 0)
        ≡ (store (codes "Prepared") 0, err e)))
    ⊎ ((rows : List StoredReceipt) × (compare_and_set_batch sound 50 none ids prepared sent
            (store (codes "Prepared") 0)
          ≡ (record (store (codes "Prepared") 0) { receipts = rows }, ok tt))
        × IsBatchOf ids sent (store (codes "Prepared") 0).receipts rows)
compare_and_set_batch_atomic_example =
    compare_and_set_batch_atomic sound 50 none ids prepared sent (store (codes "Prepared") 0)

sent_found : find_receipt 10 (store (codes "Sent") 50).receipts ≡ some (row 10 (codes "Sent") 50)
unfolding find_receipt
sent_found = refl

sent_settled : (codes "Sent" == egress_status_text prepared) ≡ false
unfolding egress_status_text list_beq
sent_settled = refl

settled : IsSettled 10 (row 10 (codes "Sent") 50) (store (codes "Sent") 50)
settled = record { found = sent_found; settled = sent_settled }

IsSettled-forever_example :
    IsSettled 10 (row 10 (codes "Sent") 50) (record (store (codes "Sent") 50) {
      receipts = recover_receipts 70 (store (codes "Sent") 50).receipts;
    })
IsSettled-forever_example =
    IsSettled-forever 10 (row 10 (codes "Sent") 50) (store (codes "Sent") 50)
      (record (store (codes "Sent") 50) {
        receipts = recover_receipts 70 (store (codes "Sent") 50).receipts;
      })
      (more (recover 70 (store (codes "Sent") 50)) (done _)) settled

-- A store with the trace and the scope that a receipt names.
abbrev open_store : ReceiptStore
open_store = record {
  traces = 1 ∷ [];
  scopes =
      record {
        id = 2;
        conversation_id = 3;
        repository_id = 6;
        snapshot_id = 7;
        provider_binding = (receipt 10).provider_binding;
        kind = repository_session;
        granted_at = 0;
        revoked_at = none;
      }
      ∷ [];
  receipts = [];
}

-- The first insertion stores the receipt, and a second one of the same receipt is refused.
inserted_once :
    (prepare_tool_egress_receipt sound 8 (receipt 10) open_store
      ≡ (record open_store { receipts = row 10 (codes "Prepared") 0 ∷ [] }, ok tt))
    × ((prepare_tool_egress_receipt sound 8
          (receipt 10)
          (record open_store { receipts = row 10 (codes "Prepared") 0 ∷ [] })).0
        ≡ record open_store { receipts = row 10 (codes "Prepared") 0 ∷ [] })
unfolding prepare_tool_egress_receipt egress_status_text find_receipt contains any list_beq
inserted_once = (refl, refl)

prepare_tool_egress_receipt_inserts_example :
    ((e : MentatError) × (prepare_tool_egress_receipt sound 8 (receipt 10) open_store
        ≡ (open_store, err e)))
    ⊎ ((t : ReceiptStore) × (prepare_tool_egress_receipt sound 8 (receipt 10) open_store
          ≡ (t, ok tt))
        × IsInserted 8 (receipt 10) open_store t)
prepare_tool_egress_receipt_inserts_example =
    prepare_tool_egress_receipt_inserts sound 8 (receipt 10) open_store
