-- ===== src/Gate/Authorizing.antt =====
-- crates/mentat-app/src/tool_egress_gate.rs: what a body that the gate authorizes is covered by.
use code_mentat.Base.{
  ℕ, suc, ◌+◌, ◌<◌, none, some, List, [], ◌∷◌, ◌++◌, Text, Bytes, length, length-append, All,
  All-append, All-map, Bool-cases, ==-sound, if_intro, ◌≡◌, refl, sym, ap, subst, ◌∙◌, inl, inr,
  arith, nat_eq, ◌==◌, ◌!=◌,
}
use code_mentat.Core.Error.{MentatError, Result, ok, err, backend_error, >>=-eq-ok, fail_if-eq-ok}
use code_mentat.Core.Models.{Uuid}
use code_mentat.Core.Tools.{RepositoryToolResult}
use code_mentat.Core.Egress.{ToolEgressReceipt, prepared}
use code_mentat.Core.Binding.{ProviderBinding}
use code_mentat.Inference.Types.{RepositoryContext, AgentRequest}
use code_mentat.ToolEgress.{ToolEgressEnvelope, prepare, verify_exact_body, unsealed}
use code_mentat.ToolEgress.Sealing.{prepare-IsPreparedFrom}
use code_mentat.Storage.Receipts.{
  Sqlite, StoredReceipt, ReceiptStore, find_receipt, egress_status_text,
  prepare_tool_egress_receipt,
}
use code_mentat.Storage.Receipts.Insertion.{IsInserted, prepare_tool_egress_receipt_inserts}
use code_mentat.Gate.{
  DurableToolEgressGate, GateState, requested_calls, tool_results, or_gate, called_name,
  seal_result, after_insert, after_seal, authorize_results, recorded, with_binding,
  authorize_exact_body,
}

-- A receipt that the store holds as prepared, for the trace of the gate, the turn of the request and
-- the exact body.
pub record Covers (g : DurableToolEgressGate) (request : AgentRequest) (body : Bytes)
    (s : ReceiptStore) (id : Uuid) : Type 0 where
  pub row : StoredReceipt
  pub found : find_receipt id s.receipts ≡ some row
  pub still_prepared : row.status ≡ egress_status_text prepared
  pub same_trace : row.receipt.trace_id ≡ g.trace_id
  pub same_turn : row.receipt.turn_id ≡ request.turn_id
  pub same_conversation : row.receipt.conversation_id ≡ request.conversation_id
  pub exact_body : row.receipt.exact_provider_body_digest ≡ g.services.sha256_hex body

-- What is sealed, before it is stored.
record IsSealed (g : DurableToolEgressGate) (request : AgentRequest) (body : Bytes)
    (r : ToolEgressReceipt) : Type 0 where
  same_trace : r.trace_id ≡ g.trace_id
  same_turn : r.turn_id ≡ request.turn_id
  same_conversation : r.conversation_id ≡ request.conversation_id
  exact_body : r.exact_provider_body_digest ≡ g.services.sha256_hex body

module _ (g : DurableToolEgressGate) (request : AgentRequest) (body : Bytes) where
  prepare-IsSealed :
      (n : ℕ) (e : ToolEgressEnvelope) (r : ToolEgressReceipt)
      → e.trace_id ≡ g.trace_id
      → e.turn_id ≡ request.turn_id
      → e.conversation_id ≡ request.conversation_id
      → e.exact_provider_body ≡ body
      → prepare g.services (g.capability n) e (g.now n) (g.fresh_id n) ≡ ok r
      → IsSealed g request body r
  unfolding unsealed
  prepare-IsSealed n e r trace turn conversation exact h =
      let p = prepare-IsPreparedFrom g.services (g.capability n) e (g.now n) (g.fresh_id n) r h in
      subst (IsSealed g request body) (sym p.made) (record {
        same_trace = trace;
        same_turn = turn;
        same_conversation = conversation;
        exact_body = ap g.services.sha256_hex exact;
      })

  seal_result-IsSealed :
      (context : RepositoryContext) (binding : ProviderBinding) (n : ℕ)
      (result : RepositoryToolResult) (r : ToolEgressReceipt)
      → seal_result g request context binding body n result ≡ ok r
      → IsSealed g request body r
  unfolding seal_result
  seal_result-IsSealed context binding n result r h =
      let a = fail_if-eq-ok (result.snapshot_id != context.snapshot_id) _ _ r h in
      let b =
        >>=-eq-ok
          (or_gate (backend_error "TOOL_EGRESS_CALL_MISSING")
            (called_name result.call_id (requested_calls request.messages)))
          _ r a.1 in
      let c =
        >>=-eq-ok
          (or_gate (backend_error "TOOL_EGRESS_PAYLOAD_ENCODE_FAILED") (g.encode_result result)) _ r
          b.2 in
      let d = >>=-eq-ok _ _ r c.2 in
      let e = >>=-eq-ok (verify_exact_body g.services d.0 body) _ r d.2 in
      let same : d.0 ≡ r = cc e.2 in
      subst (IsSealed g request body) same (prepare-IsSealed n _ d.0 refl refl refl refl d.1)

  -- An insertion keeps what covers, and its own receipt covers too.
  insert-Covers :
      (r : ToolEgressReceipt) (s t : ReceiptStore) (id : Uuid)
      → IsInserted g.owner r s t
      → Covers g request body s id
      → Covers g request body t id
  insert-Covers r s t id i c = elim (Bool-cases (r.id == id)) [
    | inl e ↦
        let same : r.id ≡ id = ==-sound r.id id e in
        let absent = subst (λ j. find_receipt j s.receipts ≡ none) same i.was_absent in
        absurd (clash (sym absent ∙ c.found))
    | inr e ↦ record {
      row = c.row;
      found = i.others_kept id e ∙ c.found;
      still_prepared = c.still_prepared;
      same_trace = c.same_trace;
      same_turn = c.same_turn;
      same_conversation = c.same_conversation;
      exact_body = c.exact_body;
    }
  ]
    where
      clash : {A : Type 0} {x : A} → none ≡ some x → ⊥
      clash h = cc h

  own-Covers :
      (r : ToolEgressReceipt) (s t : ReceiptStore)
      → IsSealed g request body r
      → IsInserted g.owner r s t
      → Covers g request body t r.id
  own-Covers r s t p i = record {
    row = i.row;
    found = i.found;
    still_prepared = i.row_prepared;
    same_trace = ap (λ (x : ToolEgressReceipt). x.trace_id) i.own_receipt.0 ∙ p.same_trace;
    same_turn = ap (λ (x : ToolEgressReceipt). x.turn_id) i.own_receipt.0 ∙ p.same_turn;
    same_conversation =
        ap (λ (x : ToolEgressReceipt). x.conversation_id) i.own_receipt.0 ∙ p.same_conversation;
    exact_body =
        ap (λ (x : ToolEgressReceipt). x.exact_provider_body_digest) i.own_receipt.0 ∙ p.exact_body;
  }

  -- What the loop gives when it succeeds.
  abbrev Covered : ℕ → ReceiptStore × Result (List Uuid) → Type 0
  Covered count (t, err e) = Unit
  Covered count (t, ok ids) = All (Covers g request body t) ids × (length ids ≡ count)

  after_seal-Covered :
      (count : ℕ) (rest : ToolEgressReceipt → ReceiptStore × Result (List Uuid)) (ids : List Uuid)
      (s : ReceiptStore) (out : Result ToolEgressReceipt)
      → ((r : ToolEgressReceipt) → out ≡ ok r → Covered count (rest r))
      → Covered count (after_seal g rest ids s out)
  after_seal-Covered count rest ids s (ok r) f = f r refl
  after_seal-Covered count rest ids s (err e) f = tt

  after_insert-Covered :
      (count : ℕ) (rest : ReceiptStore → ReceiptStore × Result (List Uuid)) (ids : List Uuid)
      (out : ReceiptStore × Result (Unit {0}))
      → ((t : ReceiptStore) → out ≡ (t, ok tt) → Covered count (rest t))
      → Covered count (after_insert g rest ids out)
  after_insert-Covered count rest ids (t, ok v) f = f t refl
  after_insert-Covered count rest ids (t, err e) f = tt

  stored-IsInserted :
      (io : Sqlite) (r : ToolEgressReceipt) (s t : ReceiptStore)
      → prepare_tool_egress_receipt io g.owner r s ≡ (t, ok tt)
      → IsInserted g.owner r s t
  stored-IsInserted io r s t h = elim (prepare_tool_egress_receipt_inserts io g.owner r s) [
    | inl (e, q) ↦ absurd (failing e (prepare_tool_egress_receipt io g.owner r s) h q)
    | inr (u, q, i) ↦ let same : u ≡ t = cc (q, h) in subst (IsInserted g.owner r s) same i
  ]
    where
      failing :
          (e : MentatError) (p : ReceiptStore × Result (Unit {0}))
          → p ≡ (t, ok tt)
          → p ≡ (s, err e)
          → ⊥
      failing e p j k = cc (j, k)

  module _ (context : RepositoryContext) (binding : ProviderBinding) where
    authorize_results-Covered :
        (n : ℕ) (results : List RepositoryToolResult) (ids : List Uuid) (s : ReceiptStore)
        → All (Covers g request body s) ids
        → Covered
            (length ids + length results)
            (authorize_results g request context binding body n results ids s)
    unfolding authorize_results
    authorize_results-Covered n [] ids s h = (h, omega arith)
    authorize_results-Covered n (result ∷ results) ids s h =
        after_seal-Covered _ _ ids s (seal_result g request context binding body n result) (λ r q.
          after_insert-Covered _ _ ids (prepare_tool_egress_receipt (g.io n) g.owner r s) (λ t k.
            let i = stored-IsInserted (g.io n) r s t k in
            let sealed = seal_result-IsSealed context binding n result r q in
            let kept =
              All-map _ (Covers g request body t) ids (λ id c. insert-Covers r s t id i c) h in
            let held =
              All-append (Covers g request body t) ids (r.id ∷ []) kept
                (own-Covers r s t sealed i, tt) in
            subst
              (λ count. Covered count (
                authorize_results g request context binding body (suc n) results
                  (ids ++ (r.id ∷ [])) t))
              (omega (arith, length-append ids (r.id ∷ [])))
              (authorize_results-Covered (suc n) results (ids ++ (r.id ∷ [])) t held)))

  -- An authorization that succeeds.
  pub record IsAuthorized (s t : GateState) (ids : List Uuid) : Type 0 where
    pub covered : All (Covers g request body t.store) ids
    pub each_result : length ids ≡ length (tool_results request.messages)
    pub some_result : 0 < length ids
    pub kept_ids : t.receipt_ids ≡ s.receipt_ids ++ ids

  abbrev pub Authorized : GateState → GateState × Result (List Uuid) → Type 0
  Authorized s (t, ok ids) = IsAuthorized s t ids
  Authorized s (t, err e) = t.receipt_ids ≡ s.receipt_ids

  recorded-Authorized :
      (s : GateState) (out : ReceiptStore × Result (List Uuid))
      → Covered (length (tool_results request.messages)) out
      → Authorized s (recorded g s out)
  recorded-Authorized s (t, err e) c = refl
  recorded-Authorized s (t, ok []) c = refl
  recorded-Authorized s (t, ok (id ∷ ids)) c =
      if_intro (Authorized s) g.ids_poisoned _ _ (λ e. refl)
        (λ e. record {
          covered = c.0;
          each_result = c.1;
          some_result = omega arith;
          kept_ids = refl;
        })

  with_binding-Authorized :
      (endpoint : Text) (s : GateState) (out : Result (RepositoryContext × ProviderBinding))
      → Authorized s (with_binding g request endpoint body s out)
  with_binding-Authorized endpoint s (err e) = refl
  with_binding-Authorized endpoint s (ok (context, binding)) =
      let results = tool_results request.messages in
      recorded-Authorized s (authorize_results g request context binding body 0 results [] s.store)
        (subst
          (λ count.
            Covered count (authorize_results g request context binding body 0 results [] s.store))
          (omega arith) (authorize_results-Covered context binding 0 results [] s.store tt))

-- An exact body is authorized only under receipts, one for each tool result of the request and at least
-- one, that the store holds as prepared for the trace of the gate, the turn and the conversation of the
-- request and the digest of that very body; the gate keeps their ids. When it fails the gate keeps none.
pub authorize_exact_body_covered :
    (g : DurableToolEgressGate) (request : AgentRequest) (endpoint : Text) (body : Bytes)
    (s : GateState)
    → Authorized g request body s (authorize_exact_body g request endpoint body s)
unfolding authorize_exact_body
authorize_exact_body_covered g request endpoint body s =
    with_binding-Authorized g request body endpoint s _
