-- ===== src/Inference/Types.antt =====
-- crates/mentat-inference/src/types.rs: requests, messages and events. A JSON value is its text, and
-- the type of the confidence of an answer is a parameter.
use code_mentat.Base.{ℕ, Bool, Option, none, List, Text}
use code_mentat.Core.Models.{Uuid, SnapshotStatus, AnswerBundle}
use code_mentat.Core.Tools.{RepositoryToolCall, RepositoryToolResult}
use code_mentat.Core.Conversation.{ResponseContract}

pub data ProviderKind : Type 0 where
  google_gemini open_router open_ai open_ai_compatible : ProviderKind
  custom_compatible local_mock : ProviderKind

pub record BackendProfile : Type 0 where
  pub id : Uuid
  pub name : Text
  pub provider : ProviderKind
  pub base_url : Text
  pub model : Text
  pub api_key : Option Text
  pub timeout_secs : ℕ

pub record AgentLimits : Type 0 where
  pub max_rounds : ℕ
  pub max_tool_calls : ℕ
  pub max_tool_result_bytes : ℕ
  pub timeout_secs : ℕ

-- `AgentLimits::default`.
abbrev pub default_agent_limits : AgentLimits
default_agent_limits = record {
  max_rounds = 8;
  max_tool_calls = 24;
  max_tool_result_bytes = 262_144;
  timeout_secs = 300;
}

pub data AgentRole : Type 0 where
  system_role user_role assistant_role tool_role : AgentRole

pub data AgentMessageContent : Type 0 where
  text_content : Text → AgentMessageContent
  tool_calls_content : List RepositoryToolCall → AgentMessageContent
  tool_result_content : RepositoryToolResult → AgentMessageContent

pub record AgentMessage : Type 0 where
  pub role : AgentRole
  pub content : AgentMessageContent
  pub provider_parts : Option (List Text)

-- `AgentMessage::assistant`.
abbrev pub assistant_message : Text → AgentMessage
assistant_message text = record {
  role = assistant_role;
  content = text_content text;
  provider_parts = none;
}

pub record ToolDefinition : Type 0 where
  pub name : Text
  pub schema_version : Text
  pub description : Text
  pub input_schema : Text

pub record RepositoryContext : Type 0 where
  pub repository_id : Uuid
  pub snapshot_id : Uuid
  pub snapshot_status : SnapshotStatus
  pub tools_available : Bool
  pub display_name : Text

pub record AgentRequest : Type 0 where
  pub request_id : Uuid
  pub conversation_id : Uuid
  pub turn_id : Uuid
  pub profile : BackendProfile
  pub effective_system_prompt : Text
  pub messages : List AgentMessage
  pub tools : List ToolDefinition
  pub repository_context : Option RepositoryContext
  pub response_contract : ResponseContract
  pub limits : AgentLimits

pub data InferenceRoundEvent : Type 0 where
  provider_tool_parts : List Text → InferenceRoundEvent
  round_started : Uuid → InferenceRoundEvent
  round_thinking : Text → InferenceRoundEvent
  round_text_delta : Text → InferenceRoundEvent
  tool_calls_requested : ℕ → List RepositoryToolCall → InferenceRoundEvent
  round_usage : ℕ → ℕ → InferenceRoundEvent
  raw_completed : Text → InferenceRoundEvent
  round_failed : Text → Text → InferenceRoundEvent

pub data CompletedPayload (F : Type 0) : Type 0 where
  completed_markdown : Text → CompletedPayload F
  validated_audit_bundle : AnswerBundle F → CompletedPayload F

pub data CancelledPayload : Type 0 where
  advisor_partial_markdown : Text → CancelledPayload
  audit_no_content : CancelledPayload

pub data AgentEvent (F : Type 0) : Type 0 where
  started : Uuid → AgentEvent F
  thinking_delta : Text → AgentEvent F
  text_delta : Text → AgentEvent F
  tool_progress : ℕ → ℕ → ℕ → AgentEvent F
  usage_update : ℕ → ℕ → AgentEvent F
  completed : CompletedPayload F → Option Uuid → AgentEvent F
  cancelled : CancelledPayload → AgentEvent F
  failed : Text → Text → AgentEvent F
