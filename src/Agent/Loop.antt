-- ===== src/Agent/Loop.antt =====
-- crates/mentat-analysis/src/agent_loop.rs: `run_bounded` and `run`.
use code_mentat.Base.{
  ℕ, zero, suc, Option, none, some, List, [], ◌∷◌, ◌++◌, length, Text, codes, is_empty, ltb, min_of,
  narrow, checked_add, u16_max, list_eq, nat_eq, ◌==◌, if◌then◌else◌,
}
use code_mentat.Core.Error.{Result, ok, err, ◌>>=◌, ◌>>◌, fail_if}
use code_mentat.Core.Models.{Uuid, AnswerBundle}
use code_mentat.Core.Tools.{RepositoryToolCall, RepositoryToolResult, GroundingTrace}
use code_mentat.Core.Conversation.{ResponseContract, advisor_markdown, audit_answer_bundle}
use code_mentat.Inference.Types.{
  AgentRequest, AgentMessage, assistant_message, assistant_role, tool_calls_content,
  InferenceRoundEvent, completed_markdown, validated_audit_bundle, CancelledPayload,
  advisor_partial_markdown, audit_no_content, AgentEvent, started, completed, cancelled, failed,
}
use code_mentat.Audit.{validate_audit_bundle}
use code_mentat.Agent.State.{AgentLoop, LoopState, loop_error, emit, push_message, new_trace}
use code_mentat.Agent.Round.{RoundRead, RoundEnd, requested, answered, broken, silent, read_round}
use code_mentat.Agent.Calls.{or_error, run_calls}

unfoldable pub cancellation_payload : ResponseContract → Text → CancelledPayload
cancellation_payload advisor_markdown partial = advisor_partial_markdown partial
cancellation_payload (audit_answer_bundle version) partial = audit_no_content

abbrev pub trace_id_of : Option GroundingTrace → Option Uuid
trace_id_of none = none
trace_id_of (some trace) = some trace.id

abbrev pub with_receipts : Option GroundingTrace → List Uuid → Option GroundingTrace
with_receipts none ids = none
with_receipts (some trace) ids = some (record trace { egress_receipt_ids = ids })

module _ {F : Type 0} (a : AgentLoop F) where
  abbrev pub audit_event : Result (AnswerBundle F) → Option GroundingTrace → AgentEvent F
  audit_event (ok bundle) trace = completed (validated_audit_bundle bundle) (trace_id_of trace)
  audit_event (err e) trace =
      failed (codes "AUDIT_RESPONSE_INVALID") (codes "Audit 응답의 schema/evidence 검증에 실패했습니다.")

  abbrev pub completion : ResponseContract → Text → LoopState F → AgentEvent F
  completion advisor_markdown full_text s =
      completed (completed_markdown (s.prior_round_text ++ full_text)) (trace_id_of s.trace)
  completion (audit_answer_bundle version) full_text s =
      audit_event (validate_audit_bundle a.audit full_text s.request.request_id s.trace) s.trace

  -- The event that closes a round which ended with a text or with a failure.
  unfoldable pub completion_event : Text → LoopState F → AgentEvent F
  completion_event full_text s = completion s.request.response_contract full_text s

  unfoldable pub failure_event : Text → Text → Text → LoopState F → AgentEvent F
  failure_event error_code safe_message round_text s =
      if error_code == codes "CANCELLED"
      then cancelled
          (cancellation_payload s.request.response_contract (s.prior_round_text ++ round_text))
      else failed error_code safe_message

  abbrev pub receipts_attached :
      LoopState F
      → Option GroundingTrace
      → Option (Result (List Uuid))
      → LoopState F × Result (Unit {0})
  receipts_attached s none gate = (s, ok tt)
  receipts_attached s (some trace) none = (s, ok tt)
  receipts_attached s (some trace) (some (ok ids)) =
      (record s { trace = some (record trace { egress_receipt_ids = ids }) }, ok tt)
  receipts_attached s (some trace) (some (err e)) = (s, err e)

  -- A last event, `attach_receipt_ids`, and the return.
  unfoldable pub close_with : AgentEvent F → LoopState F → LoopState F × Result (Unit {0})
  close_with event s = receipts_attached (emit event s) s.trace a.egress_receipts

  abbrev pub added_calls : List RepositoryToolCall → LoopState F → Option ℕ
  added_calls calls s = checked_add u16_max s.total_calls (narrow u16_max (length calls))

  -- The checks of a round that asks for calls: a gateway, and the number of calls.
  unfoldable pub admit_calls :
      List RepositoryToolCall
      → LoopState F
      → Result ((ℕ → RepositoryToolCall → Result RepositoryToolResult) × ℕ)
  admit_calls calls s = do
    execute ← or_error (loop_error "REPOSITORY_TOOL_UNAVAILABLE") a.gateway
    total ← or_error (loop_error "AGENT_LOOP_LIMIT_REACHED") (added_calls calls s)
    fail_if (ltb s.request.limits.max_tool_calls total) (loop_error "AGENT_LOOP_LIMIT_REACHED")
    ok (execute, total)

  -- The text of a round before its calls are admitted.
  unfoldable pub keep_text : RoundRead F → LoopState F → LoopState F
  keep_text r s =
      let t = record s { prior_round_text = s.prior_round_text ++ r.round_text } in
      if is_empty r.round_text then t else push_message (assistant_message r.round_text) t

  abbrev pub calls_message : RoundRead F → List RepositoryToolCall → AgentMessage
  calls_message r calls = record {
    role = assistant_role;
    content = tool_calls_content calls;
    provider_parts = r.provider_parts;
  }

  -- A round whose stream asked for calls.
  unfoldable pub call_round :
      ℕ → RoundRead F → List RepositoryToolCall → LoopState F → LoopState F × Result (Unit {0})
  call_round round r calls s = elim (admit_calls calls (keep_text r s)) [
    | err e ↦ (keep_text r s, err e)
    | ok (execute, total) ↦
        run_calls a execute round (narrow u16_max (length calls)) 0 calls
          (push_message (calls_message r calls) (record (keep_text r s) { total_calls = total }))
  ]

  abbrev pub opened : LoopState F → RoundRead F
  opened s = record { events = s.events; round_text = []; provider_parts = none }

  -- What is left of the loop after a round that ended without an answer.
  abbrev pub go_on :
      (LoopState F → LoopState F × Result (Unit {0}))
      → LoopState F × Result (Unit {0})
      → LoopState F × Result (Unit {0})
  go_on rest (s, ok u) = rest s
  go_on rest (s, err e) = (s, err e)

  abbrev pub finish_round :
      (LoopState F → LoopState F × Result (Unit {0}))
      → ℕ
      → RoundRead F
      → RoundEnd
      → LoopState F
      → LoopState F × Result (Unit {0})
  finish_round rest round r (answered full_text) s = close_with (completion_event full_text s) s
  finish_round rest round r (broken error_code safe_message) s =
      close_with (failure_event error_code safe_message r.round_text s) s
  finish_round rest round r silent s = (s, err (loop_error "AGENT_ROUND_TERMINAL_MISSING"))
  finish_round rest round r (requested calls) s = go_on rest (call_round round r calls s)

  -- A round whose backend has answered.
  unfoldable pub read_stream :
      (LoopState F → LoopState F × Result (Unit {0}))
      → ℕ
      → List InferenceRoundEvent
      → LoopState F
      → LoopState F × Result (Unit {0})
  read_stream rest round stream s =
      let (r, ending) = read_round s.request.response_contract stream (opened s) in
      finish_round rest round r ending (record s { events = r.events })

  abbrev pub answer_of :
      (LoopState F → LoopState F × Result (Unit {0}))
      → ℕ
      → LoopState F
      → Result (List InferenceRoundEvent)
      → LoopState F × Result (Unit {0})
  answer_of rest round s (ok stream) = read_stream rest round stream s
  answer_of rest round s (err e) = (s, err e)

  -- The `for` loop: the rounds that are left, and the number of this one.
  unfoldable pub run_rounds : ℕ → ℕ → LoopState F → LoopState F × Result (Unit {0})
  run_rounds zero round s = (s, err (loop_error "AGENT_LOOP_LIMIT_REACHED"))
  run_rounds (suc left) round s =
      let rest = λ (t : LoopState F). run_rounds left (suc round) t in
      if a.is_cancelled round
      then close_with
          (cancelled (cancellation_payload s.request.response_contract s.prior_round_text)) s
      else answer_of rest round s (a.infer_round round s.request)

  unfoldable pub initial : AgentRequest → LoopState F
  initial request = record {
    events = started request.request_id ∷ [];
    request = request;
    trace = new_trace a.trace_id request request.repository_context;
    total_calls = 0;
    prior_round_text = [];
    total_result_bytes = 0;
    fingerprints = [];
    executed = 0;
  }

  -- The events and the trace of the final state are the outcome of a run that succeeds.
  unfoldable pub run_bounded : AgentRequest → LoopState F × Result (Unit {0})
  run_bounded request = run_rounds request.limits.max_rounds 1 (initial request)

  -- `run`: whether the time runs out, for the limit in seconds, is an argument. What the loop had
  -- done by then is the final state that it reached.
  unfoldable pub run : (ℕ → Option (LoopState F)) → AgentRequest → LoopState F × Result (Unit {0})
  run timed_out request = elim (timed_out (min_of request.limits.timeout_secs 300)) [
    | none ↦ run_bounded request
    | some reached ↦ (reached, err (loop_error "AGENT_LOOP_LIMIT_REACHED"))
  ]
