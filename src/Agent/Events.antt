-- ===== src/Agent/Events.antt =====
-- crates/mentat-analysis/src/agent_loop.rs: the events of a run.
use mathlib.Core.List.{append-nil, append_assoc}
use code_mentat.Base.{
  ℕ, zero, suc, true, Option, none, some, List, [], ◌∷◌, ◌++◌, Text, codes, is_empty, All, if_intro,
  ◌≡◌, refl, sym, ap, subst, ◌∙◌, ◌⊎◌, inl, inr, list_eq, nat_eq, ◌==◌,
}
use code_mentat.Core.Error.{MentatError, Result, ok, err, Result-cases}
use code_mentat.Core.Models.{Uuid, AnswerBundle}
use code_mentat.Core.Tools.{RepositoryToolCall, RepositoryToolResult, GroundingTrace}
use code_mentat.Core.Conversation.{ResponseContract, advisor_markdown, audit_answer_bundle}
use code_mentat.Inference.Types.{
  AgentRequest, InferenceRoundEvent, provider_tool_parts, round_started, round_thinking,
  round_text_delta, tool_calls_requested, round_usage, raw_completed, round_failed, AgentEvent,
  thinking_delta, usage_update, cancelled,
}
use code_mentat.Agent.State.{AgentLoop, LoopState, emit}
use code_mentat.Agent.Round.{
  RoundRead, RoundEnd, requested, answered, broken, silent, shown, read_round,
}
use code_mentat.Agent.Calls.{after_call, run_calls}
use code_mentat.Agent.Calls.Parts.{Called, Failing-frame, Out-same, run_calls-keeps}
use code_mentat.Agent.Loop.{
  cancellation_payload, audit_event, completion, completion_event, failure_event, receipts_attached,
  close_with, admit_calls, keep_text, call_round, opened, go_on, finish_round, read_stream,
  answer_of, run_rounds, initial, run_bounded,
}
use code_mentat.Agent.Log.{
  is_terminal, Quiet, seen_text, visible, Log, Honest, Closed, Log-append, Log-silent,
}

module _ {F : Type 0} (a : AgentLoop F) (contract : ResponseContract) (id : Uuid) where
  -- A run that goes on, with the text of the rounds that are over.
  abbrev pub Shows : Text → LoopState F → Type 0
  Shows text s = (s.request.response_contract ≡ contract) × Log id (visible contract text) s.events

  abbrev pub Running : LoopState F → Type 0
  Running s = Shows s.prior_round_text s

  abbrev pub Reading : Text → RoundRead F → Type 0
  Reading prior r = Log id (visible contract (prior ++ r.round_text)) r.events

  -- A run that succeeds is closed by one terminal event. One that fails has shown a text and has none,
  -- or its last event is one and the gate did not name its receipts.
  abbrev pub Ends : LoopState F × Result (Unit {0}) → Type 0
  Ends (s, ok u) = Closed contract id s.events
  Ends (s, err e) =
      ((text : Text) × Log id (visible contract text) s.events)
      ⊎ (Closed contract id s.events × (a.egress_receipts ≡ some (err e)))

  shown-seen :
      (c : ResponseContract) (prior text delta : Text)
      → visible c (prior ++ text) ++ seen_text {F = F} (shown c delta)
        ≡ visible c (prior ++ (text ++ delta))
  shown-seen advisor_markdown prior text delta =
      ap (λ t. (prior ++ text) ++ t) (append-nil delta) ∙ append_assoc prior text delta
  shown-seen (audit_answer_bundle version) prior text delta = refl

  shown-Quiet : (c : ResponseContract) (delta : Text) → All (Quiet {F = F}) (shown c delta)
  shown-Quiet advisor_markdown delta = (refl, tt)
  shown-Quiet (audit_answer_bundle version) delta = tt

  read_round-Reading :
      (prior : Text) (stream : List InferenceRoundEvent) (r : RoundRead F)
      → Reading prior r
      → Reading prior (read_round contract stream r).0
  unfolding read_round
  read_round-Reading prior [] r l = l
  read_round-Reading prior (provider_tool_parts parts ∷ stream) r l =
      read_round-Reading prior stream _ l
  read_round-Reading prior (round_started i ∷ stream) r l = read_round-Reading prior stream r l
  read_round-Reading prior (round_thinking delta ∷ stream) r l =
      read_round-Reading prior stream _
        (Log-silent id _ r.events (thinking_delta delta) l refl refl)
  read_round-Reading prior (round_text_delta delta ∷ stream) r l =
      read_round-Reading prior stream _ (
        subst (λ t. Log id t (r.events ++ shown contract delta))
          (shown-seen contract prior r.round_text delta)
          (Log-append id _ r.events (shown contract delta) l (shown-Quiet contract delta)))
  read_round-Reading prior (round_usage prompt completion ∷ stream) r l =
      read_round-Reading prior stream _
        (Log-silent id _ r.events (usage_update prompt completion) l refl refl)
  read_round-Reading prior (tool_calls_requested round calls ∷ stream) r l = l
  read_round-Reading prior (raw_completed full_text ∷ stream) r l = l
  read_round-Reading prior (round_failed error_code safe_message ∷ stream) r l = l

  keep_text-Running :
      (r : RoundRead F) (s : LoopState F)
      → Shows (s.prior_round_text ++ r.round_text) s
      → Running (keep_text a r s)
  unfolding keep_text
  keep_text-Running r s l = if_intro Running (is_empty r.round_text) _ _ (λ e. l) (λ e. l)

  Called-Running :
      (execute : ℕ → RepositoryToolCall → Result RepositoryToolResult) (round call_count index : ℕ)
      (call : RepositoryToolCall) (calls : List RepositoryToolCall) (t u : LoopState F)
      → Running t
      → Called a execute round call_count index call t u
      → Running u
  unfolding after_call
  Called-Running execute round call_count index call calls t u l c =
      subst Running c.made (l.0, Log-silent id _ t.events _ l.1 refl refl)

  run_calls-Running :
      (execute : ℕ → RepositoryToolCall → Result RepositoryToolResult) (round call_count : ℕ)
      (calls : List RepositoryToolCall) (s : LoopState F)
      → Running s
      → Running (run_calls a execute round call_count 0 calls s).0
  run_calls-Running execute round call_count calls s l =
      Out-same Running (run_calls a execute round call_count 0 calls s) (
        run_calls-keeps a execute round call_count (λ left. Running) Running Running
          (Called-Running execute round call_count) (λ t m. m)
          (λ call left t u m f.
            Failing-frame Running execute call t u (λ fingerprints executed bytes. m) f)
          0 calls s l)

  call_round-Running :
      (round : ℕ) (r : RoundRead F) (calls : List RepositoryToolCall) (s : LoopState F)
      → Shows (s.prior_round_text ++ r.round_text) s
      → Running (call_round a round r calls s).0
  unfolding call_round
  call_round-Running round r calls s l =
      elim (Result-cases (admit_calls a calls (keep_text a r s))) [
        | inl ((execute, total), h) ↦
            rw (h, call_round) (run_calls-Running execute round _ calls _ (keep_text-Running r s l))
        | inr (e, h) ↦ rw (h, call_round) (keep_text-Running r s l)
      ]

  receipts_attached-Ends :
      (s : LoopState F) (trace : Option GroundingTrace) (gate : Option (Result (List Uuid)))
      → gate ≡ a.egress_receipts
      → Closed contract id s.events
      → Ends (receipts_attached a s trace gate)
  receipts_attached-Ends s none gate g c = c
  receipts_attached-Ends s (some trace) none g c = c
  receipts_attached-Ends s (some trace) (some (ok ids)) g c = c
  receipts_attached-Ends s (some trace) (some (err e)) g c = inr (c, sym g)

  close_with-Ends :
      (event : AgentEvent F) (text : Text) (s : LoopState F)
      → Log id (visible contract text) s.events
      → is_terminal event ≡ true
      → Honest contract text event
      → Ends (close_with a event s)
  unfolding close_with
  close_with-Ends event text s l t h =
      receipts_attached-Ends (emit event s) s.trace a.egress_receipts refl (record {
        before = s.events;
        last = event;
        text = text;
        split = refl;
        log = l;
        ends = t;
        honest = h;
      })

  cancelled-Honest :
      (c : ResponseContract) (text : Text)
      → Honest {F = F} c text (cancelled (cancellation_payload c text))
  unfolding cancellation_payload
  cancelled-Honest advisor_markdown text = refl
  cancelled-Honest (audit_answer_bundle version) text = refl

  audit_event-closes :
      (c : ResponseContract) (text : Text) (r : Result (AnswerBundle F))
      (trace : Option GroundingTrace)
      → (is_terminal (audit_event a r trace) ≡ true) × Honest c text (audit_event a r trace)
  audit_event-closes c text (ok bundle) trace = (refl, tt)
  audit_event-closes c text (err e) trace = (refl, tt)

  completion-closes :
      (c d : ResponseContract) (full_text text : Text) (s : LoopState F)
      → (is_terminal (completion a c full_text s) ≡ true)
        × Honest d text (completion a c full_text s)
  completion-closes advisor_markdown d full_text text s = (refl, tt)
  completion-closes (audit_answer_bundle version) d full_text text s =
      audit_event-closes d text _ s.trace

  cancelling :
      (s : LoopState F) (text : Text)
      → s.request.response_contract ≡ contract
      → Honest {F = F} contract text
          (cancelled (cancellation_payload s.request.response_contract text))
  cancelling s text same =
      subst (λ c. Honest {F = F} contract text (cancelled (cancellation_payload c text))) (sym same)
        (cancelled-Honest contract text)

  failure_event-closes :
      (error_code safe_message round_text : Text) (s : LoopState F)
      → s.request.response_contract ≡ contract
      → (is_terminal (failure_event a error_code safe_message round_text s) ≡ true)
        × Honest contract
            (s.prior_round_text ++ round_text)
            (failure_event a error_code safe_message round_text s)
  unfolding failure_event
  failure_event-closes error_code safe_message round_text s same =
      if_intro
        (λ (e : AgentEvent F).
          (is_terminal e ≡ true) × Honest contract (s.prior_round_text ++ round_text) e)
        (error_code == codes "CANCELLED") _ _ (λ e. (refl, cancelling s _ same)) (λ e. (refl, tt))

  Running-Ends : (s : LoopState F) (e : MentatError) → Running s → Ends (s, err e)
  Running-Ends s e l = inl (s.prior_round_text, l.1)

  go_on-Ends :
      (rest : LoopState F → LoopState F × Result (Unit {0}))
      → ((s : LoopState F) → Running s → Ends (rest s))
      → (done : LoopState F × Result (Unit {0})) → Running done.0
      → Ends (go_on a rest done)
  go_on-Ends rest ih (s, ok u) l = ih s l
  go_on-Ends rest ih (s, err e) l = Running-Ends s e l

  finish_round-Ends :
      (rest : LoopState F → LoopState F × Result (Unit {0}))
      → ((s : LoopState F) → Running s → Ends (rest s))
      → (round : ℕ) (r : RoundRead F) (ending : RoundEnd) (s : LoopState F)
      → Shows (s.prior_round_text ++ r.round_text) s
      → Ends (finish_round a rest round r ending s)
  unfolding completion_event
  finish_round-Ends rest ih round r (requested calls) s l =
      go_on-Ends rest ih (call_round a round r calls s) (call_round-Running round r calls s l)
  finish_round-Ends rest ih round r (answered full_text) s l =
      let c =
        completion-closes s.request.response_contract contract full_text
          (s.prior_round_text ++ r.round_text) s in
      close_with-Ends _ _ s l.1 c.0 c.1
  finish_round-Ends rest ih round r (broken error_code safe_message) s l =
      let c = failure_event-closes error_code safe_message r.round_text s l.0 in
      close_with-Ends _ _ s l.1 c.0 c.1
  finish_round-Ends rest ih round r silent s l = inl (s.prior_round_text ++ r.round_text, l.1)

  answer_of-Ends :
      (rest : LoopState F → LoopState F × Result (Unit {0}))
      → ((s : LoopState F) → Running s → Ends (rest s))
      → (round : ℕ) (s : LoopState F) (answer : Result (List InferenceRoundEvent)) → Running s
      → Ends (answer_of a rest round s answer)
  unfolding read_stream
  answer_of-Ends rest ih round s (err e) l = Running-Ends s e l
  answer_of-Ends rest ih round s (ok stream) l =
      let opening =
        subst (λ t. Log id (visible contract t) s.events) (sym (append-nil s.prior_round_text))
          l.1 in
      finish_round-Ends rest ih round _ _ _ (
        l.0,
        (subst (λ c. Reading s.prior_round_text (read_round c stream (opened a s)).0) (sym l.0)
            (read_round-Reading s.prior_round_text stream (opened a s) opening)),
      )

  run_rounds-Ends :
      (left round : ℕ) (s : LoopState F) → Running s → Ends (run_rounds a left round s)
  unfolding run_rounds
  run_rounds-Ends zero round s l = Running-Ends s _ l
  run_rounds-Ends (suc left) round s l =
      if_intro Ends (a.is_cancelled round) _ _
        (λ e. close_with-Ends _ _ s l.1 refl (cancelling s _ l.0))
        (λ e. answer_of-Ends _ (run_rounds-Ends left (suc round)) round s _ l)

visible-nil : (contract : ResponseContract) → [] ≡ visible contract []
visible-nil advisor_markdown = refl
visible-nil (audit_answer_bundle version) = refl

-- The events of a run begin with `Started` and the id of the request, also when it fails. When the run
-- succeeds exactly one of them is terminal, the last; when it fails none is, or the last is and the
-- egress gate did not name its receipts. The deltas of an audit show no text. A terminal event that
-- cancels gives, for an advisor's answer, exactly the text of the deltas before it, and for an audit
-- no content.
pub run_bounded_events :
    {F : Type 0} (a : AgentLoop F) (request : AgentRequest)
    → Ends a request.response_contract request.request_id (run_bounded a request)
unfolding run_bounded initial
run_bounded_events a request =
    run_rounds-Ends a request.response_contract request.request_id request.limits.max_rounds 1
      (initial a request)
      (
        refl,
        record { begins = refl; quiet = (refl, tt); seen = visible-nil request.response_contract },
      )
