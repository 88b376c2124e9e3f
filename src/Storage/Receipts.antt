-- ===== src/Storage/Receipts.antt =====
-- crates/mentat-storage/src/grounding_store.rs: the receipts of what was sent. A row keeps its
-- status as text. What SQLite answers (a lock, a transaction that cannot begin or commit) is an
-- argument; a transaction that does not commit leaves the tables as they were, and foreign keys and
-- the primary key are enforced. `Uuid` and JSON columns are read back as they were written.
pub mod Updates
pub mod Transition
pub mod Insertion
pub mod History
pub mod Examples
use code_mentat.Base.{
  ℕ, zero, suc, Bool, true, false, not, ◌&&◌, ◌||◌, Option, none, some, List, [], ◌∷◌, ◌++◌, map,
  Text, codes, find, any, is_empty, distinct, contains, list_eq, nat_eq, option_eq, ◌==◌, ◌!=◌,
  if◌then◌else◌, ◌+◌,
}
use code_mentat.Core.Error.{MentatError, Result, ok, err, storage_error, ◌>>=◌, ◌>>◌, fail_if}
use code_mentat.Core.Models.{Uuid, Time}
use code_mentat.Core.Egress.{
  RepositoryConsentScope, ToolEgressReceipt, ToolEgressStatus, prepared, sent, failed,
  outcome_unknown,
}

unfoldable pub egress_status_text : ToolEgressStatus → Text
egress_status_text prepared = codes "Prepared"
egress_status_text sent = codes "Sent"
egress_status_text failed = codes "Failed"
egress_status_text outcome_unknown = codes "OutcomeUnknown"

unfoldable pub parse_egress_status : Text → Result ToolEgressStatus
parse_egress_status value =
    if value == codes "Prepared"
    then ok prepared
    else if value == codes "Sent"
    then ok sent
    else if value == codes "Failed"
    then ok failed
    else if value == codes "OutcomeUnknown"
    then ok outcome_unknown
    else err (storage_error "STORAGE_DECODE_ENUM")

-- A row of `tool_egress_receipts`; the receipt's own status is the one it was made with.
pub record StoredReceipt : Type 0 where
  pub receipt : ToolEgressReceipt
  pub status : Text
  pub updated_at : Time
  pub runtime_owner_id : Uuid

pub record ReceiptStore : Type 0 where
  pub traces : List Uuid
  pub scopes : List RepositoryConsentScope
  pub receipts : List StoredReceipt

-- What SQLite answers during one operation.
pub record Sqlite : Type 0 where
  pub lock_poisoned : Bool
  pub begin_fails : Bool
  pub commit_fails : Bool

unfoldable pub find_receipt : Uuid → List StoredReceipt → Option StoredReceipt
find_receipt id [] = none
find_receipt id (r ∷ rows) =
    let rest = find_receipt id rows in if r.receipt.id == id then some r else rest

abbrev pub is_stored : Option StoredReceipt → Bool
is_stored none = false
is_stored (some r) = true

module _ (io : Sqlite) where
  -- `revoke_repository_consent`: the first revocation stays.
  unfoldable pub revoke_scope : Uuid → Time → RepositoryConsentScope → RepositoryConsentScope
  revoke_scope id now scope =
      if scope.id == id && scope.revoked_at == none
      then record scope { revoked_at = some now }
      else scope

  unfoldable pub revoke_repository_consent :
      Uuid → Time → ReceiptStore → ReceiptStore × Result (Unit {0})
  revoke_repository_consent id now s =
      if io.lock_poisoned
      then (s, err (storage_error "STORAGE_LOCK_POISONED"))
      else (record s { scopes = map (revoke_scope id now) s.scopes }, ok tt)

  abbrev pub insert_refused : ToolEgressReceipt → ReceiptStore → Bool
  insert_refused r s =
      is_stored (find_receipt r.id s.receipts)
      || not (contains r.trace_id s.traces)
      || not (any (λ scope. scope.id == r.consent_scope_id) s.scopes)

  -- `prepare_tool_egress_receipt`, by the process that owns the runtime.
  unfoldable pub prepare_tool_egress_receipt :
      Uuid → ToolEgressReceipt → ReceiptStore → ReceiptStore × Result (Unit {0})
  prepare_tool_egress_receipt owner r s =
      if egress_status_text r.status != egress_status_text prepared
      then (s, err (storage_error "TOOL_EGRESS_RECEIPT_NOT_PREPARED"))
      else if io.lock_poisoned
      then (s, err (storage_error "STORAGE_LOCK_POISONED"))
      else if insert_refused r s
      then (s, err (storage_error "TOOL_EGRESS_RECEIPT_INSERT_FAILED"))
      else let row : StoredReceipt = record {
        receipt = r;
        status = egress_status_text prepared;
        updated_at = r.updated_at;
        runtime_owner_id = owner;
      } in
        (record s { receipts = s.receipts ++ (row ∷ []) }, ok tt)

abbrev pub transition_allowed : ToolEgressStatus → ToolEgressStatus → Bool
transition_allowed prepared sent = true
transition_allowed prepared failed = true
transition_allowed prepared outcome_unknown = true
transition_allowed _ _ = false

abbrev pub digest_differs : Option Text → Text → Bool
digest_differs none digest = false
digest_differs (some first) digest = first != digest

abbrev pub first_digest : Option Text → Text → Option Text
first_digest none digest = some digest
first_digest (some first) digest = some first

abbrev pub or_conflict : Option StoredReceipt → Result StoredReceipt
or_conflict none = err (storage_error "TOOL_EGRESS_STATUS_CONFLICT")
or_conflict (some r) = ok r

-- The first loop of the batch: every receipt is there, has the expected status and names one body.
unfoldable pub check_batch : Text → Option Text → List Uuid → List StoredReceipt → Result (Unit {0})
check_batch expected digest [] rows = ok tt
check_batch expected digest (id ∷ ids) rows = do
  row ← or_conflict (find_receipt id rows)
  fail_if (row.status != expected) (storage_error "TOOL_EGRESS_STATUS_CONFLICT")
  fail_if (digest_differs digest row.receipt.exact_provider_body_digest)
      (storage_error "TOOL_EGRESS_BATCH_BODY_MISMATCH")
  check_batch expected (first_digest digest row.receipt.exact_provider_body_digest) ids rows

abbrev pub is_updated : Uuid → Text → StoredReceipt → Bool
is_updated id expected r = r.receipt.id == id && r.status == expected

-- `UPDATE tool_egress_receipts … WHERE id = … AND status = …`, and the number of its rows.
unfoldable pub update_status : Time → Uuid → Text → Text → List StoredReceipt → List StoredReceipt
update_status now id expected next [] = []
update_status now id expected next (r ∷ rows) =
    let rest = update_status now id expected next rows in
    if is_updated id expected r
    then record r { status = next; updated_at = now } ∷ rest
    else r ∷ rest

unfoldable pub updated_rows : Uuid → Text → List StoredReceipt → ℕ
updated_rows id expected [] = 0
updated_rows id expected (r ∷ rows) =
    let rest = updated_rows id expected rows in if is_updated id expected r then suc rest else rest

-- The second loop, with the point at which a test stops it.
unfoldable pub update_batch :
    Time → Option ℕ → ℕ → Text → Text → List Uuid → List StoredReceipt → Result (List StoredReceipt)
update_batch now stop index expected next [] rows = ok rows
update_batch now stop index expected next (id ∷ ids) rows = do
  fail_if (stop == some index) (storage_error "TOOL_EGRESS_BATCH_KILLPOINT")
  fail_if (updated_rows id expected rows != 1) (storage_error "TOOL_EGRESS_STATUS_CONFLICT")
  update_batch now stop (suc index) expected next ids (update_status now id expected next rows)

module _ (io : Sqlite) where
  -- The rows that the transaction of the batch commits.
  unfoldable pub batch_rows :
      Time
      → Option ℕ
      → List Uuid
      → ToolEgressStatus
      → ToolEgressStatus
      → List StoredReceipt
      → Result (List StoredReceipt)
  batch_rows now stop ids expected next rows = do
    fail_if (not (transition_allowed expected next))
        (storage_error "TOOL_EGRESS_STATUS_TRANSITION_INVALID")
    fail_if (is_empty ids) (storage_error "TOOL_EGRESS_BATCH_EMPTY")
    fail_if (not (distinct ids)) (storage_error "TOOL_EGRESS_BATCH_DUPLICATE")
    fail_if io.lock_poisoned (storage_error "STORAGE_LOCK_POISONED")
    fail_if io.begin_fails (storage_error "TOOL_EGRESS_BATCH_BEGIN_FAILED")
    check_batch (egress_status_text expected) none ids rows
    updated ←
        update_batch now stop 0 (egress_status_text expected) (egress_status_text next) ids rows
    fail_if io.commit_fails (storage_error "TOOL_EGRESS_BATCH_COMMIT_FAILED")
    ok updated

  abbrev pub committed :
      ReceiptStore → Result (List StoredReceipt) → ReceiptStore × Result (Unit {0})
  committed s (ok rows) = (record s { receipts = rows }, ok tt)
  committed s (err e) = (s, err e)

  -- `compare_and_set_tool_egress_status_batch_internal`.
  unfoldable pub compare_and_set_batch :
      Time
      → Option ℕ
      → List Uuid
      → ToolEgressStatus
      → ToolEgressStatus
      → ReceiptStore
      → ReceiptStore × Result (Unit {0})
  compare_and_set_batch now stop ids expected next s =
      committed s (batch_rows now stop ids expected next s.receipts)

-- The recovery of `acquire_runtime_ownership` (db.rs) after an owner that is gone.
unfoldable pub recover_receipts : Time → List StoredReceipt → List StoredReceipt
recover_receipts now [] = []
recover_receipts now (r ∷ rows) =
    let rest = recover_receipts now rows in
    if r.status == egress_status_text prepared
    then record r { status = egress_status_text outcome_unknown; updated_at = now } ∷ rest
    else r ∷ rest
