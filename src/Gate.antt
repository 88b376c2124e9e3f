-- ===== src/Gate.antt =====
-- crates/mentat-app/src/tool_egress_gate.rs: the gate that prepares and stores a receipt for each tool
-- result of a request before its exact body is sent. What is asked of the clock, of SQLite and of the
-- revocation token at the n-th result is a function of n; the two locks and JSON are arguments.
pub mod Authorizing
pub mod Examples
use code_mentat.Base.{
  ℕ, suc, Bool, true, false, Option, none, some, List, [], ◌∷◌, ◌++◌, map, find, is_empty, Text,
  Bytes, as_bytes, nat_eq, ◌==◌, ◌!=◌, if◌then◌else◌,
}
use mathlib.Core.List.{reverse}
use code_mentat.Core.Error.{MentatError, Result, ok, err, backend_error, ◌>>=◌, ◌>>◌, fail_if}
use code_mentat.Core.Models.{Uuid, Time}
use code_mentat.Core.Tools.{RepositoryToolName, RepositoryToolCall, RepositoryToolResult, SourceRef}
use code_mentat.Core.Egress.{
  CanonicalToolRef, ToolEgressReceipt, ToolEgressStatus, prepared, failed,
}
use code_mentat.Core.Binding.{BindingServices, ProviderBinding, bind_provider}
use code_mentat.Inference.Types.{
  ProviderKind, AgentRole, system_role, user_role, assistant_role, tool_role, AgentMessageContent,
  text_content, tool_calls_content, tool_result_content, AgentMessage, RepositoryContext,
  AgentRequest,
}
use code_mentat.ToolEgress.{
  RuntimeConsentCapability, ToolEgressEnvelope, check_authorized, prepare, verify_exact_body,
}
use code_mentat.Storage.Receipts.{
  Sqlite, ReceiptStore, revoke_repository_consent, prepare_tool_egress_receipt,
  compare_and_set_batch,
}

pub record DurableToolEgressGate : Type 0 where
  pub services : BindingServices
  pub trace_id : Uuid
  pub owner : Uuid
  pub capability : ℕ → RuntimeConsentCapability
  pub io : ℕ → Sqlite
  pub now : ℕ → Time
  pub fresh_id : ℕ → Uuid
  pub failing_io : Sqlite
  pub failing_at : Time
  pub ids_poisoned : Bool
  pub show_provider : ProviderKind → Text
  pub encode_result : RepositoryToolResult → Option Bytes

-- The store and the ids that the gate keeps behind its lock.
pub record GateState : Type 0 where
  pub store : ReceiptStore
  pub receipt_ids : List Uuid

abbrev pub calls_of : AgentRole → AgentMessageContent → List RepositoryToolCall
calls_of assistant_role (tool_calls_content calls) = calls
calls_of _ _ = []

abbrev pub results_of : AgentRole → AgentMessageContent → List RepositoryToolResult
results_of tool_role (tool_result_content result) = result ∷ []
results_of _ _ = []

unfoldable pub requested_calls : List AgentMessage → List RepositoryToolCall
requested_calls [] = []
requested_calls (m ∷ messages) = calls_of m.role m.content ++ requested_calls messages

unfoldable pub tool_results : List AgentMessage → List RepositoryToolResult
tool_results [] = []
tool_results (m ∷ messages) = results_of m.role m.content ++ tool_results messages

abbrev pub or_gate {ℓ} : {A : Type ℓ} → MentatError → Option A → Result A
or_gate e none = err e
or_gate e (some a) = ok a

abbrev pub name_of : Option RepositoryToolCall → Option RepositoryToolName
name_of none = none
name_of (some call) = some call.name

-- `call_names.get`: the last call with an id counts.
unfoldable pub called_name : Uuid → List RepositoryToolCall → Option RepositoryToolName
called_name id calls = name_of (find (λ call. call.call_id == id) (reverse calls))

module _ (g : DurableToolEgressGate) where
  abbrev pub canonical_ref : SourceRef → CanonicalToolRef
  canonical_ref source = record {
    relative_path = source.relative_path;
    line_start = source.line_start;
    line_end = source.line_end;
    content_hash = source.content_hash;
    redacted_payload_digest = g.services.sha256_hex (as_bytes source.excerpt);
  }

  unfoldable pub fail_prepared : List Uuid → ReceiptStore → ReceiptStore
  fail_prepared ids s =
      if is_empty ids
      then s
      else (compare_and_set_batch g.failing_io g.failing_at none ids prepared failed s).0

  -- What a tool result is sealed into, before it is stored.
  unfoldable pub seal_result :
      AgentRequest
      → RepositoryContext
      → ProviderBinding
      → Bytes
      → ℕ
      → RepositoryToolResult
      → Result ToolEgressReceipt
  seal_result request context binding body n result = do
    fail_if (result.snapshot_id != context.snapshot_id)
        (backend_error "TOOL_EGRESS_SNAPSHOT_MISMATCH")
    tool_name ←
        or_gate (backend_error "TOOL_EGRESS_CALL_MISSING")
          (called_name result.call_id (requested_calls request.messages))
    semantic_payload ←
        or_gate (backend_error "TOOL_EGRESS_PAYLOAD_ENCODE_FAILED") (g.encode_result result)
    receipt ←
        prepare g.services (g.capability n)
          (record {
            trace_id = g.trace_id;
            conversation_id = request.conversation_id;
            turn_id = request.turn_id;
            tool_call_id = result.call_id;
            repository_id = context.repository_id;
            snapshot_id = context.snapshot_id;
            tool_name = tool_name;
            refs = map canonical_ref result.source_refs;
            provider_binding = binding;
            semantic_payload = semantic_payload;
            exact_provider_body = body;
          })
          (g.now n) (g.fresh_id n)
    verify_exact_body g.services receipt body
    ok receipt

  abbrev pub after_insert :
      (ReceiptStore → ReceiptStore × Result (List Uuid))
      → List Uuid
      → ReceiptStore × Result (Unit {0})
      → ReceiptStore × Result (List Uuid)
  after_insert rest ids (s, ok v) = rest s
  after_insert rest ids (s, err e) = (fail_prepared ids s, err e)

  abbrev pub after_seal :
      (ToolEgressReceipt → ReceiptStore × Result (List Uuid))
      → List Uuid
      → ReceiptStore
      → Result ToolEgressReceipt
      → ReceiptStore × Result (List Uuid)
  after_seal rest ids s (ok receipt) = rest receipt
  after_seal rest ids s (err e) = (fail_prepared ids s, err e)

  -- The loop over the results, with the ids that are prepared.
  unfoldable pub authorize_results :
      AgentRequest
      → RepositoryContext
      → ProviderBinding
      → Bytes
      → ℕ
      → List RepositoryToolResult
      → List Uuid
      → ReceiptStore
      → ReceiptStore × Result (List Uuid)
  authorize_results request context binding body n [] ids s = (s, ok ids)
  authorize_results request context binding body n (result ∷ results) ids s =
      after_seal
        (λ receipt.
          after_insert
            (λ t.
              authorize_results request context binding body (suc n) results
                (ids ++ (receipt.id ∷ [])) t)
            ids (prepare_tool_egress_receipt (g.io n) g.owner receipt s))
        ids s (seal_result request context binding body n result)

  abbrev pub recorded :
      GateState → ReceiptStore × Result (List Uuid) → GateState × Result (List Uuid)
  recorded s (t, err e) = (record s { store = t }, err e)
  recorded s (t, ok []) =
      (record s { store = t }, err (backend_error "TOOL_EGRESS_RESULT_REQUIRED"))
  recorded s (t, ok (id ∷ ids)) =
      if g.ids_poisoned
      then (
        record s { store = fail_prepared (id ∷ ids) t },
        err (backend_error "TOOL_EGRESS_LOCK_FAILED"),
      )
      else (record { store = t; receipt_ids = s.receipt_ids ++ (id ∷ ids) }, ok (id ∷ ids))

  abbrev pub with_binding :
      AgentRequest
      → Text
      → Bytes
      → GateState
      → Result (RepositoryContext × ProviderBinding)
      → GateState × Result (List Uuid)
  with_binding request endpoint body s (err e) = (s, err e)
  with_binding request endpoint body s (ok (context, binding)) =
      recorded s (
        authorize_results request context binding body 0 (tool_results request.messages) [] s.store)

  -- `authorize_exact_body`.
  unfoldable pub authorize_exact_body :
      AgentRequest → Text → Bytes → GateState → GateState × Result (List Uuid)
  authorize_exact_body request endpoint body s = with_binding request endpoint body s (do
    context ← or_gate (backend_error "TOOL_EGRESS_CONTEXT_REQUIRED") request.repository_context
    binding ←
        bind_provider g.services request.profile.id (g.show_provider request.profile.provider)
          endpoint request.profile.model
    ok (context, binding))

  abbrev pub store_of : GateState → ReceiptStore × Result (Unit {0}) → GateState × Result (Unit {0})
  store_of s (t, r) = (record s { store = t }, r)

  abbrev pub revoking :
      Result (Unit {0}) → GateState × Result (Unit {0}) → GateState × Result (Unit {0})
  revoking checked (t, ok v) = (t, checked)
  revoking checked (t, err e) = (t, err e)

  -- The gate's `check_authorized`: a capability that is not authorized has its consent revoked.
  unfoldable pub gate_check_authorized : GateState → GateState × Result (Unit {0})
  gate_check_authorized s = elim (check_authorized (g.capability 0)) [
    | ok v ↦ (s, ok v)
    | err e ↦ revoking (err e) (
        store_of s (revoke_repository_consent (g.io 0) (g.capability 0).scope.id (g.now 0) s.store))
  ]

  abbrev pub then_set :
      List Uuid → ToolEgressStatus → GateState × Result (Unit {0}) → GateState × Result (Unit {0})
  then_set ids status (s, err e) = (s, err e)
  then_set [] status (s, ok v) = (s, ok v)
  then_set (id ∷ ids) status (s, ok v) =
      store_of s (compare_and_set_batch (g.io 1) (g.now 1) none (id ∷ ids) prepared status s.store)

  abbrev pub without_error : GateState → Result (Unit {0}) → GateState × Result (Unit {0})
  without_error s (ok v) = (s, ok v)
  without_error s (err e) =
      store_of s (revoke_repository_consent (g.io 0) (g.capability 0).scope.id (g.now 0) s.store)

  -- `finish`.
  unfoldable pub finish_receipts :
      List Uuid → ToolEgressStatus → GateState → GateState × Result (Unit {0})
  finish_receipts ids status s =
      then_set ids status (without_error s (check_authorized (g.capability 0)))
