-- ===== src/Agent/Examples.antt =====
-- crates/mentat-analysis/src/agent_loop.rs: a turn of two rounds, with one call of a tool.
use code_mentat.Base.{
  ℕ, true, false, none, some, [], ◌∷◌, codes, All, ◌≡◌, refl, ap, subst, arith, list_beq, leb,
  if◌then◌else◌, narrow, checked_add,
}
use code_mentat.Core.Error.{ok, Result}
use code_mentat.Core.Models.{ready, EvidenceRef}
use code_mentat.Core.Tools.{RepositoryToolCall, RepositoryToolResult}
use code_mentat.Core.Conversation.{advisor_markdown}
use code_mentat.Egress.Filename.{is_sensitive_filename}
use code_mentat.Inference.Types.{
  local_mock, default_agent_limits, AgentRequest, tool_calls_requested, raw_completed,
  round_text_delta, completed_markdown, AgentEvent, started, text_delta, tool_progress, completed,
}
use code_mentat.Gateway.Execute.{execute, new}
use code_mentat.Gateway.Examples.{services, files, snapshot, parse_path, call, answer}
use code_mentat.Audit.Examples.{services as audit_services}
use code_mentat.Agent.State.{AgentLoop}
use code_mentat.Agent.Round.{read_round}
use code_mentat.Agent.Calls.{
  repeats, repeat, record_call, call_fingerprint, after_call, run_call, run_calls,
}
use code_mentat.Agent.Loop.{
  completion_event, close_with, admit_calls, keep_text, call_round, read_stream, run_rounds,
  initial, run_bounded,
}
use code_mentat.Agent.Events.{Ends, run_bounded_events}
use code_mentat.Agent.Limits.{Limited, run_bounded_limits}
use code_mentat.Agent.Sources.{Sourced, run_bounded-Sourced}
use code_mentat.Agent.Safety.{evidence_of, run_bounded_public}

abbrev pub request : AgentRequest
request = record {
  request_id = 5;
  conversation_id = 3;
  turn_id = 4;
  profile = record {
    id = 1;
    name = codes "m";
    provider = local_mock;
    base_url = [];
    model = codes "m";
    api_key = none;
    timeout_secs = 1;
  };
  effective_system_prompt = [];
  messages = [];
  tools = [];
  repository_context = some (record {
    repository_id = 1;
    snapshot_id = 7;
    snapshot_status = ready;
    tools_available = true;
    display_name = codes "r";
  });
  response_contract = advisor_markdown;
  limits = default_agent_limits;
}

-- The first round asks for the call, the second answers.
abbrev turn : (ℕ → RepositoryToolCall → Result RepositoryToolResult) → AgentLoop ℕ
turn tools = record {
  infer_round = λ round r.
      if leb round 1
      then ok (round_text_delta (codes "a") ∷ tool_calls_requested 1 (call ∷ []) ∷ [])
      else ok (raw_completed (codes "b") ∷ []);
  gateway = some tools;
  egress_receipts = some (ok (8 ∷ []));
  is_cancelled = λ round. false;
  trace_id = 2;
  encode_call = λ c. some (1 ∷ []);
  sha256_hex = λ b. b;
  audit = audit_services;
}

abbrev fixed : AgentLoop ℕ
fixed = turn (λ n c. ok answer)

run_bounded_test :
    (run_bounded fixed request).0.events
    ≡ started 5
      ∷ text_delta (codes "a")
      ∷ tool_progress 1 1 1
      ∷ completed (completed_markdown (codes "ab")) (some 2)
      ∷ []
unfolding run_bounded initial run_rounds read_stream read_round completion_event close_with
    admit_calls keep_text call_round run_calls run_call call_fingerprint repeats repeat after_call
    record_call checked_add narrow list_beq
run_bounded_test = refl

run_bounded_events_example : Ends fixed advisor_markdown 5 (run_bounded fixed request)
run_bounded_events_example = run_bounded_events fixed request

run_bounded_limits_example : Limited default_agent_limits fixed.gateway (run_bounded fixed request)
run_bounded_limits_example = run_bounded_limits fixed request (omega arith)

run_bounded-Sourced_example : Sourced fixed 5 (λ s. s.snapshot_id ≡ 7) (run_bounded fixed request).0
run_bounded-Sourced_example = run_bounded-Sourced fixed request (λ s. s.snapshot_id ≡ 7) given
  where
    given :
        (made : ℕ → RepositoryToolCall → Result RepositoryToolResult)
        → fixed.gateway ≡ some made
        → (n : ℕ) (c : RepositoryToolCall) (r : RepositoryToolResult) → made n c ≡ ok r
        → All (λ s. s.snapshot_id ≡ 7) r.source_refs
    given made e n c r h =
        let same : (λ n c. ok answer) ≡ made = cc e in
        let equal : answer ≡ r = cc (ap (λ f. f n c) same, h) in
        subst (λ (x : RepositoryToolResult). All (λ s. s.snapshot_id ≡ 7) x.source_refs) equal
          (refl, tt)

run_bounded_public_example :
    All
      (λ (event : AgentEvent ℕ).
        All
          (λ (e : EvidenceRef). is_sensitive_filename (λ t. t) e.relative_path ≡ false)
          (evidence_of event))
      (run_bounded
        (turn (λ n c. execute services parse_path (new (λ t. t) snapshot files) (λ k. false) c))
        request).0.events
run_bounded_public_example =
    run_bounded_public
      (turn (λ n c. execute services parse_path (new (λ t. t) snapshot files) (λ k. false) c))
      request services parse_path snapshot files (λ n k. false) refl
