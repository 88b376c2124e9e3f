-- ===== src/Agent/Induction.antt =====
-- crates/mentat-analysis/src/agent_loop.rs: induction over the rounds of a run, for what does not
-- depend on the events.
use code_mentat.Base.{
  ℕ, zero, suc, Option, none, some, List, Text, codes, list_eq, nat_eq, ◌==◌, ◌≡◌, refl, ap, ◌∙◌,
  ltb, if_intro,
}
use code_mentat.Core.Error.{Result, ok, err, >>=-eq-ok, fail_if-eq-ok}
use code_mentat.Core.Models.{Uuid, AnswerBundle}
use code_mentat.Core.Tools.{RepositoryToolCall, RepositoryToolResult, GroundingTrace}
use code_mentat.Core.Conversation.{ResponseContract, advisor_markdown, audit_answer_bundle}
use code_mentat.Inference.Types.{
  InferenceRoundEvent, completed_markdown, validated_audit_bundle, AgentEvent, started,
  thinking_delta, text_delta, tool_progress, usage_update, completed, cancelled, failed,
}
use code_mentat.Audit.{validate_audit_bundle}
use code_mentat.Agent.State.{AgentLoop, LoopState, emit, loop_error}
use code_mentat.Agent.Round.{RoundRead, RoundEnd, requested, answered, broken, silent, read_round}
use code_mentat.Agent.Calls.{or_error}
use code_mentat.Agent.Calls.Parts.{Out, or_error-eq-ok}
use code_mentat.Agent.Loop.{
  audit_event, completion, completion_event, failure_event, receipts_attached, close_with,
  call_round, opened, admit_calls, added_calls, go_on, finish_round, read_stream, answer_of,
  run_rounds,
}

-- An answer that closes a run with a bundle has been validated against the trace.
abbrev pub Validated : {F : Type 0} → AgentLoop F → LoopState F → AgentEvent F → Type 0
Validated a s (completed (validated_audit_bundle bundle) trace_id) =
    (raw : Text) × (validate_audit_bundle a.audit raw s.request.request_id s.trace ≡ ok bundle)
Validated a s (completed (completed_markdown text) trace_id) = Unit
Validated a s (cancelled payload) = Unit
Validated a s (failed error_code safe_message) = Unit
Validated a s (started id) = Unit
Validated a s (thinking_delta delta) = Unit
Validated a s (text_delta delta) = Unit
Validated a s (tool_progress round done total) = Unit
Validated a s (usage_update prompt completion) = Unit

module _ {F : Type 0} (a : AgentLoop F) where
  audit_event-Validated :
      (raw : Text) (s : LoopState F) (r : Result (AnswerBundle F))
      → validate_audit_bundle a.audit raw s.request.request_id s.trace ≡ r
      → Validated a s (audit_event a r s.trace)
  audit_event-Validated raw s (ok bundle) h = (raw, h)
  audit_event-Validated raw s (err e) h = tt

  completion-Validated :
      (contract : ResponseContract) (full_text : Text) (s : LoopState F)
      → Validated a s (completion a contract full_text s)
  completion-Validated advisor_markdown full_text s = tt
  completion-Validated (audit_answer_bundle version) full_text s =
      audit_event-Validated full_text s _ refl

  failure_event-Validated :
      (error_code safe_message round_text : Text) (s : LoopState F)
      → Validated a s (failure_event a error_code safe_message round_text s)
  unfolding failure_event
  failure_event-Validated error_code safe_message round_text s =
      if_intro (λ (e : AgentEvent F). Validated a s e) (error_code == codes "CANCELLED") _ _
        (λ e. tt) (λ e. tt)

module _ {F : Type 0} (a : AgentLoop F) where
  pub admit_calls-gateway :
      (calls : List RepositoryToolCall) (s : LoopState F)
      (execute : ℕ → RepositoryToolCall → Result RepositoryToolResult) (total : ℕ)
      → admit_calls a calls s ≡ ok (execute, total)
      → a.gateway ≡ some execute
  unfolding admit_calls
  admit_calls-gateway calls s execute total h =
      let p = >>=-eq-ok (or_error (loop_error "REPOSITORY_TOOL_UNAVAILABLE") a.gateway) _ _ h in
      let q =
        >>=-eq-ok (or_error (loop_error "AGENT_LOOP_LIMIT_REACHED") (added_calls a calls s)) _ _
          p.2 in
      let r = fail_if-eq-ok (ltb s.request.limits.max_tool_calls q.0) _ _ _ q.2 in
      let same : p.0 ≡ execute = cc r.1 in or_error-eq-ok _ a.gateway p.0 p.1 ∙ ap some same

module _ {κ} {F : Type 0} (a : AgentLoop F) (P E : LoopState F → Type κ)
    (weaken : (s : LoopState F) → P s → E s)
    (reads : (contract : ResponseContract) (stream : List InferenceRoundEvent) (s : LoopState F)
      → P s
      → P (record s { events = (read_round contract stream (opened a s)).0.events }))
    (closes : (event : AgentEvent F) (s : LoopState F)
      → Validated a s event
      → P s
      → P (emit event s))
    (receipts : (ids : List Uuid) (trace : GroundingTrace) (s : LoopState F)
      → s.trace ≡ some trace
      → P s
      → P (record s { trace = some (record trace { egress_receipt_ids = ids }) }))
    (rounds : (round : ℕ) (r : RoundRead F) (calls : List RepositoryToolCall) (s : LoopState F)
      → P s
      → Out P E (call_round a round r calls s)) where
  receipts_attached-keeps :
      (s : LoopState F) (trace : Option GroundingTrace) (gate : Option (Result (List Uuid)))
      → s.trace ≡ trace
      → P s
      → Out P E (receipts_attached a s trace gate)
  receipts_attached-keeps s none gate t p = p
  receipts_attached-keeps s (some trace) none t p = p
  receipts_attached-keeps s (some trace) (some (ok ids)) t p = receipts ids trace s t p
  receipts_attached-keeps s (some trace) (some (err e)) t p = weaken s p

  close_with-keeps :
      (event : AgentEvent F) (s : LoopState F)
      → Validated a s event
      → P s
      → Out P E (close_with a event s)
  unfolding close_with
  close_with-keeps event s v p =
      receipts_attached-keeps (emit event s) s.trace a.egress_receipts refl (closes event s v p)

  go_on-keeps :
      (rest : LoopState F → LoopState F × Result (Unit {0}))
      → ((s : LoopState F) → P s → Out P E (rest s))
      → (done : LoopState F × Result (Unit {0})) → Out P E done
      → Out P E (go_on a rest done)
  go_on-keeps rest ih (s, ok u) p = ih s p
  go_on-keeps rest ih (s, err e) p = p

  finish_round-keeps :
      (rest : LoopState F → LoopState F × Result (Unit {0}))
      → ((s : LoopState F) → P s → Out P E (rest s))
      → (round : ℕ) (r : RoundRead F) (ending : RoundEnd) (s : LoopState F) → P s
      → Out P E (finish_round a rest round r ending s)
  unfolding completion_event
  finish_round-keeps rest ih round r (requested calls) s p =
      go_on-keeps rest ih (call_round a round r calls s) (rounds round r calls s p)
  finish_round-keeps rest ih round r (answered full_text) s p =
      close_with-keeps _ s (completion-Validated a s.request.response_contract full_text s) p
  finish_round-keeps rest ih round r (broken error_code safe_message) s p =
      close_with-keeps _ s (failure_event-Validated a error_code safe_message r.round_text s) p
  finish_round-keeps rest ih round r silent s p = weaken _ p

  answer_of-keeps :
      (rest : LoopState F → LoopState F × Result (Unit {0}))
      → ((s : LoopState F) → P s → Out P E (rest s))
      → (round : ℕ) (s : LoopState F) (answer : Result (List InferenceRoundEvent)) → P s
      → Out P E (answer_of a rest round s answer)
  unfolding read_stream
  answer_of-keeps rest ih round s (err e) p = weaken s p
  answer_of-keeps rest ih round s (ok stream) p =
      let read = read_round s.request.response_contract stream (opened a s) in
      finish_round-keeps rest ih round read.0 read.1 (record s { events = read.0.events })
        (reads s.request.response_contract stream s p)

  pub run_rounds-keeps :
      (left round : ℕ) (s : LoopState F) → P s → Out P E (run_rounds a left round s)
  unfolding run_rounds
  run_rounds-keeps zero round s p = weaken s p
  run_rounds-keeps (suc left) round s p =
      if_intro (Out P E) (a.is_cancelled round) _ _ (λ e. close_with-keeps _ s tt p)
        (λ e. answer_of-keeps _ (run_rounds-keeps left (suc round)) round s _ p)
