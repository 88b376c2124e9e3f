-- ===== src/Agent/Sources.antt =====
-- crates/mentat-analysis/src/agent_loop.rs: the sources behind an answer in the audit contract.
use code_mentat.Base.{
  ℕ, Option, none, some, List, [], ◌∷◌, Text, All, All-append, ◌≡◌, refl, subst, inl, inr, if_intro,
  is_empty,
}
use code_mentat.Core.Error.{Result, ok, Result-cases}
use code_mentat.Core.Models.{Uuid, AnswerBundle}
use code_mentat.Core.Tools.{SourceRef, RepositoryToolCall, RepositoryToolResult, GroundingTrace}
use code_mentat.Core.Conversation.{ResponseContract, advisor_markdown, audit_answer_bundle}
use code_mentat.Inference.Types.{
  AgentRequest, InferenceRoundEvent, RepositoryContext, provider_tool_parts, round_started,
  round_thinking, round_text_delta, tool_calls_requested, round_usage, raw_completed, round_failed,
  completed_markdown, validated_audit_bundle, AgentEvent, started, thinking_delta, text_delta,
  tool_progress, usage_update, completed, cancelled, failed,
}
use code_mentat.Audit.Validation.{IsAudited, validate_audit_bundle_grounded}
use code_mentat.Agent.State.{AgentLoop, LoopState, new_trace}
use code_mentat.Agent.Round.{RoundRead, read_round, shown}
use code_mentat.Agent.Calls.{record_call, in_trace, after_call}
use code_mentat.Agent.Calls.Parts.{Called, Failing, Failing-frame, Out, Out-same, run_calls-keeps}
use code_mentat.Agent.Loop.{
  admit_calls, keep_text, call_round, opened, run_rounds, initial, run_bounded,
}
use code_mentat.Agent.Induction.{admit_calls-gateway, Validated, run_rounds-keeps}

module _ {F : Type 0} (a : AgentLoop F) (request_id : Uuid) (P : SourceRef → Type 0) where
  -- A bundle that is audited against a trace whose sources all have the property.
  pub record Backed (bundle : AnswerBundle F) : Type 0 where
    pub trace : GroundingTrace
    pub audited : IsAudited a.audit request_id trace bundle
    pub sources : All P trace.source_refs

  abbrev pub Answers : AgentEvent F → Type 0
  Answers (completed (validated_audit_bundle bundle) trace_id) = Backed bundle
  Answers (completed (completed_markdown text) trace_id) = Unit
  Answers (cancelled payload) = Unit
  Answers (failed error_code safe_message) = Unit
  Answers (started id) = Unit
  Answers (thinking_delta delta) = Unit
  Answers (text_delta delta) = Unit
  Answers (tool_progress round done total) = Unit
  Answers (usage_update prompt completion) = Unit

  abbrev pub InTrace : Option GroundingTrace → Type 0
  InTrace none = Unit
  InTrace (some trace) = All P trace.source_refs

  pub record Sourced (s : LoopState F) : Type 0 where
    pub same : s.request.request_id ≡ request_id
    pub traced : InTrace s.trace
    pub answers : All Answers s.events

  shown-Answers : (contract : ResponseContract) (delta : Text) → All Answers (shown contract delta)
  shown-Answers advisor_markdown delta = (tt, tt)
  shown-Answers (audit_answer_bundle version) delta = tt

  read_round-Answers :
      (contract : ResponseContract) (stream : List InferenceRoundEvent) (r : RoundRead F)
      → All Answers r.events
      → All Answers (read_round contract stream r).0.events
  unfolding read_round
  read_round-Answers contract [] r h = h
  read_round-Answers contract (provider_tool_parts parts ∷ stream) r h =
      read_round-Answers contract stream _ h
  read_round-Answers contract (round_started i ∷ stream) r h =
      read_round-Answers contract stream r h
  read_round-Answers contract (round_thinking delta ∷ stream) r h =
      read_round-Answers contract stream _ (All-append Answers r.events _ h (tt, tt))
  read_round-Answers contract (round_text_delta delta ∷ stream) r h =
      read_round-Answers contract stream _
        (All-append Answers r.events _ h (shown-Answers contract delta))
  read_round-Answers contract (round_usage prompt completion ∷ stream) r h =
      read_round-Answers contract stream _ (All-append Answers r.events _ h (tt, tt))
  read_round-Answers contract (tool_calls_requested round calls ∷ stream) r h = h
  read_round-Answers contract (raw_completed full_text ∷ stream) r h = h
  read_round-Answers contract (round_failed error_code safe_message ∷ stream) r h = h

  Validated-Answers :
      (event : AgentEvent F) (s : LoopState F) → Validated a s event → Sourced s → Answers event
  Validated-Answers (completed (validated_audit_bundle bundle) trace_id) s v h =
      let g = validate_audit_bundle_grounded a.audit v.0 s.request.request_id s.trace bundle v.1 in
      record {
        trace = g.0;
        audited = subst (λ id. IsAudited a.audit id g.0 bundle) h.same g.2;
        sources = subst InTrace g.1 h.traced;
      }
  Validated-Answers (completed (completed_markdown text) trace_id) s v h = tt
  Validated-Answers (cancelled payload) s v h = tt
  Validated-Answers (failed error_code safe_message) s v h = tt
  Validated-Answers (started id) s v h = tt
  Validated-Answers (thinking_delta delta) s v h = tt
  Validated-Answers (text_delta delta) s v h = tt
  Validated-Answers (tool_progress round done total) s v h = tt
  Validated-Answers (usage_update prompt completion) s v h = tt

  -- The gateway gives sources with the property only.
  abbrev pub Gives : (ℕ → RepositoryToolCall → Result RepositoryToolResult) → Type 0
  Gives execute =
      (n : ℕ) (call : RepositoryToolCall) (r : RepositoryToolResult)
      → execute n call ≡ ok r
      → All P r.source_refs

  in_trace-InTrace :
      (round : ℕ) (call : RepositoryToolCall) (fingerprint : Text) (result : RepositoryToolResult)
      (trace : Option GroundingTrace)
      → All P result.source_refs
      → InTrace trace
      → InTrace (in_trace a round call fingerprint result trace)
  unfolding record_call
  in_trace-InTrace round call fingerprint result none h k = tt
  in_trace-InTrace round call fingerprint result (some trace) h k =
      All-append P trace.source_refs result.source_refs k h

  Called-Sourced :
      (execute : ℕ → RepositoryToolCall → Result RepositoryToolResult) (round call_count : ℕ)
      → Gives execute
      → (index : ℕ) (call : RepositoryToolCall) (calls : List RepositoryToolCall)
        (s t : LoopState F)
      → Sourced s
      → Called a execute round call_count index call s t
      → Sourced t
  unfolding after_call
  Called-Sourced execute round call_count gives index call calls s t h c =
      subst Sourced c.made (record {
        same = h.same;
        traced =
            in_trace-InTrace round call c.fingerprint c.result s.trace
              (gives s.executed call c.result c.executes) h.traced;
        answers = All-append Answers s.events _ h.answers (tt, tt);
      })

  -- A call that fails leaves the events and the trace.
  Failing-Sourced :
      {limit : ℕ} (execute : ℕ → RepositoryToolCall → Result RepositoryToolResult)
      (call : RepositoryToolCall) (s t : LoopState F)
      → Sourced s
      → Failing limit execute call s t
      → Sourced t
  Failing-Sourced execute call s t h f =
      Failing-frame Sourced execute call s t
        (λ fingerprints executed bytes. record {
          same = h.same;
          traced = h.traced;
          answers = h.answers;
        })
        f

  keep_text-Sourced : (r : RoundRead F) (s : LoopState F) → Sourced s → Sourced (keep_text a r s)
  unfolding keep_text
  keep_text-Sourced r s h =
      if_intro (λ (t : LoopState F). Sourced t) (is_empty r.round_text) _ _
        (λ e. record { same = h.same; traced = h.traced; answers = h.answers })
        (λ e. record { same = h.same; traced = h.traced; answers = h.answers })

  module _
      (gives : (execute : ℕ → RepositoryToolCall → Result RepositoryToolResult)
        → a.gateway ≡ some execute
        → Gives execute) where
    call_round-Sourced :
        (round : ℕ) (r : RoundRead F) (calls : List RepositoryToolCall) (s : LoopState F)
        → Sourced s
        → Out Sourced Sourced (call_round a round r calls s)
    unfolding call_round
    call_round-Sourced round r calls s h =
        let kept = keep_text-Sourced r s h in
        elim (Result-cases (admit_calls a calls (keep_text a r s))) [
          | inl ((execute, total), e) ↦
              let giving =
                gives execute (admit_calls-gateway a calls (keep_text a r s) execute total e) in
              rw (e, call_round)
                (run_calls-keeps a execute round _ (λ left t. Sourced t) Sourced Sourced
                  (Called-Sourced execute round _ giving) (λ t k. k)
                  (λ call left t u k f. Failing-Sourced execute call t u k f) 0 calls _
                  (record { same = kept.same; traced = kept.traced; answers = kept.answers }))
          | inr (e, k) ↦ rw (k, call_round) kept
        ]

    receipts-InTrace :
        (ids : List Uuid) (trace : GroundingTrace) (o : Option GroundingTrace)
        → o ≡ some trace
        → InTrace o
        → All P (record trace { egress_receipt_ids = ids }).source_refs
    receipts-InTrace ids trace o e k = subst InTrace e k

    run_rounds-Sourced :
        (left round : ℕ) (s : LoopState F) → Sourced s → Sourced (run_rounds a left round s).0
    run_rounds-Sourced left round s h = Out-same Sourced _ (
        run_rounds-keeps a Sourced Sourced (λ t k. k)
          (λ contract stream t k. record {
            same = k.same;
            traced = k.traced;
            answers = read_round-Answers contract stream (opened a t) k.answers;
          })
          (λ event t v k. record {
            same = k.same;
            traced = k.traced;
            answers =
                All-append Answers t.events (event ∷ []) k.answers
                  (Validated-Answers event t v k, tt);
          })
          (λ ids trace t e k. record {
            same = k.same;
            traced = receipts-InTrace ids trace t.trace e k.traced;
            answers = k.answers;
          })
          call_round-Sourced left round s h)

new_trace-InTrace :
    {F : Type 0} (a : AgentLoop F) (id : Uuid) (P : SourceRef → Type 0) (request : AgentRequest)
    (context : Option RepositoryContext)
    → InTrace a id P (new_trace a.trace_id request context)
new_trace-InTrace a id P request none = tt
new_trace-InTrace a id P request (some context) = tt

-- When every source that the gateway gives has a property, so has every source of the trace of a
-- run, and each validated answer that the run emits is audited, with the id of its request, against
-- a trace whose sources all have it.
pub run_bounded-Sourced :
    {F : Type 0} (a : AgentLoop F) (request : AgentRequest) (P : SourceRef → Type 0)
    → ((execute : ℕ → RepositoryToolCall → Result RepositoryToolResult)
        → a.gateway ≡ some execute
        → Gives a request.request_id P execute)
    → Sourced a request.request_id P (run_bounded a request).0
unfolding run_bounded initial
run_bounded-Sourced a request P gives =
    run_rounds-Sourced a request.request_id P gives request.limits.max_rounds 1 (initial a request)
      (record {
        same = refl;
        traced = new_trace-InTrace a request.request_id P request request.repository_context;
        answers = (tt, tt);
      })
