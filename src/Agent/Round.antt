-- ===== src/Agent/Round.antt =====
-- crates/mentat-analysis/src/agent_loop.rs: the reading of the stream of one round.
use code_mentat.Base.{Option, some, List, [], ◌∷◌, ◌++◌, Text}
use code_mentat.Core.Tools.{RepositoryToolCall}
use code_mentat.Core.Conversation.{ResponseContract, advisor_markdown, audit_answer_bundle}
use code_mentat.Inference.Types.{
  InferenceRoundEvent, provider_tool_parts, round_started, round_thinking, round_text_delta,
  tool_calls_requested, round_usage, raw_completed, round_failed, AgentEvent, thinking_delta,
  text_delta, usage_update,
}

-- How a stream ends: with tool calls, with a terminal event, or with neither.
pub data RoundEnd : Type 0 where
  requested : List RepositoryToolCall → RoundEnd
  answered : Text → RoundEnd
  broken : Text → Text → RoundEnd
  silent : RoundEnd

-- What a round has gathered.
pub record RoundRead (F : Type 0) : Type 0 where
  pub events : List (AgentEvent F)
  pub round_text : Text
  pub provider_parts : Option (List Text)

abbrev pub shown : {F : Type 0} → ResponseContract → Text → List (AgentEvent F)
shown advisor_markdown delta = text_delta delta ∷ []
shown (audit_answer_bundle version) delta = []

-- The `while` loop over the stream; it stops at the first event that ends the round.
unfoldable pub read_round :
    {F : Type 0}
    → ResponseContract
    → List InferenceRoundEvent
    → RoundRead F
    → RoundRead F × RoundEnd
read_round contract [] r = (r, silent)
read_round contract (provider_tool_parts parts ∷ stream) r =
    read_round contract stream (record r { provider_parts = some parts })
read_round contract (round_started id ∷ stream) r = read_round contract stream r
read_round contract (round_thinking delta ∷ stream) r =
    read_round contract stream (record r { events = r.events ++ (thinking_delta delta ∷ []) })
read_round contract (round_text_delta delta ∷ stream) r =
    read_round contract stream
      (record r { round_text = r.round_text ++ delta; events = r.events ++ shown contract delta })
read_round contract (round_usage prompt completion ∷ stream) r =
    read_round contract stream
      (record r { events = r.events ++ (usage_update prompt completion ∷ []) })
read_round contract (tool_calls_requested round calls ∷ stream) r = (r, requested calls)
read_round contract (raw_completed full_text ∷ stream) r = (r, answered full_text)
read_round contract (round_failed error_code safe_message ∷ stream) r =
    (r, broken error_code safe_message)
