-- ===== src/Agent/State.antt =====
-- crates/mentat-analysis/src/agent_loop.rs: what the loop is given and what it keeps between its
-- steps. The events are those that reach the sink: they are kept when a step fails.
use code_mentat.Base.{ℕ, Bool, Option, none, some, List, [], ◌∷◌, ◌++◌, Text, Bytes, String}
use code_mentat.Core.Error.{MentatError, Result, backend_error}
use code_mentat.Core.Models.{Uuid}
use code_mentat.Core.Tools.{RepositoryToolCall, RepositoryToolResult, GroundingTrace, fresh_at_send}
use code_mentat.Inference.Types.{
  AgentRequest, AgentMessage, RepositoryContext, InferenceRoundEvent, AgentEvent,
}
use code_mentat.Audit.{AuditServices}

-- The backend answers a round with the events of its stream, or fails. The gateway answers the n-th
-- call that the loop makes of it. The egress gate names its receipts when it is asked at the end.
-- The cancel token is read at the start of each round. JSON and SHA-256 are parameters.
pub record AgentLoop (F : Type 0) : Type 0 where
  pub infer_round : ℕ → AgentRequest → Result (List InferenceRoundEvent)
  pub gateway : Option (ℕ → RepositoryToolCall → Result RepositoryToolResult)
  pub egress_receipts : Option (Result (List Uuid))
  pub is_cancelled : ℕ → Bool
  pub trace_id : Uuid
  pub encode_call : RepositoryToolCall → Option Bytes
  pub sha256_hex : Bytes → Text
  pub audit : AuditServices F

abbrev pub loop_error : String → MentatError
loop_error code = backend_error code

-- The local variables of `run_bounded`; `request` is changed in its messages only. `executed` counts
-- the calls of the gateway.
pub record LoopState (F : Type 0) : Type 0 where
  pub events : List (AgentEvent F)
  pub request : AgentRequest
  pub trace : Option GroundingTrace
  pub total_calls : ℕ
  pub prior_round_text : Text
  pub total_result_bytes : ℕ
  pub fingerprints : List (Text × ℕ)
  pub executed : ℕ

abbrev pub emit : {F : Type 0} → AgentEvent F → LoopState F → LoopState F
emit event s = record s { events = s.events ++ (event ∷ []) }

abbrev pub push_message : {F : Type 0} → AgentMessage → LoopState F → LoopState F
push_message message s = record s {
  request = record s.request { messages = s.request.messages ++ (message ∷ []) };
}

-- The trace of a turn with a repository, before its first round.
abbrev pub new_trace : Uuid → AgentRequest → Option RepositoryContext → Option GroundingTrace
new_trace id request none = none
new_trace id request (some context) = some (record {
  id = id;
  conversation_id = request.conversation_id;
  turn_id = request.turn_id;
  snapshot_id = some context.snapshot_id;
  tool_calls = [];
  source_refs = [];
  egress_receipt_ids = [];
  freshness = fresh_at_send;
})
