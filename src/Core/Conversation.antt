-- ===== src/Core/Conversation.antt =====
-- crates/mentat-core/src/models.rs: conversations, their turns and messages.
use code_mentat.Base.{ℕ, Option, none, List, [], Text}
use code_mentat.Core.Models.{Uuid, Time, AnswerBundle}
use code_mentat.Core.Tools.{GroundingFreshness}

pub data ChatRole : Type 0 where
  user assistant : ChatRole

pub data MessageStatus : Type 0 where
  pending streaming completed cancelled : MessageStatus
  failed : Text → MessageStatus

pub record ChatMessage : Type 0 where
  pub id : Uuid
  pub conversation_id : Uuid
  pub turn_id : Uuid
  pub role : ChatRole
  pub ordinal : ℕ
  pub markdown : Text
  pub status : MessageStatus
  pub source_ref_ids : List Uuid
  pub grounding_trace_id : Option Uuid
  pub grounding_freshness : Option GroundingFreshness
  pub created_at : Time
  pub updated_at : Time

pub record Conversation : Type 0 where
  pub id : Uuid
  pub repository_id : Option Uuid
  pub active_snapshot_id : Option Uuid
  pub prompt_profile_id : Uuid
  pub messages : List ChatMessage
  pub compact_summary : Option Text
  pub created_at : Time
  pub updated_at : Time

-- `Conversation::new`, with the `Uuid` and the time that it takes.
unfoldable pub new_conversation : Uuid → Time → Uuid → Option Uuid → Option Uuid → Conversation
new_conversation id now prompt_profile_id repository_id active_snapshot_id = record {
  id = id;
  repository_id = repository_id;
  active_snapshot_id = active_snapshot_id;
  prompt_profile_id = prompt_profile_id;
  messages = [];
  compact_summary = none;
  created_at = now;
  updated_at = now;
}

pub data ResponseContract : Type 0 where
  advisor_markdown : ResponseContract
  audit_answer_bundle : Text → ResponseContract

pub record ConversationTurn : Type 0 where
  pub id : Uuid
  pub conversation_id : Uuid
  pub sequence : ℕ
  pub prompt_profile_id : Uuid
  pub prompt_profile_revision_id : Uuid
  pub kernel_version : Text
  pub kernel_digest : Text
  pub snapshot_id : Option Uuid
  pub response_contract : ResponseContract
  pub audit_result_id : Option Uuid
  pub started_at : Time
  pub completed_at : Option Time

pub data ConversationPersistence : Type 0 where
  durable ephemeral : ConversationPersistence

pub record NewConversation : Type 0 where
  pub repository_id : Option Uuid
  pub active_snapshot_id : Option Uuid
  pub prompt_profile_id : Uuid
  pub persistence : ConversationPersistence

pub record TurnStart : Type 0 where
  pub turn : ConversationTurn
  pub user_message : ChatMessage
  pub assistant_placeholder : ChatMessage

-- The fields of each update in their order there; the last one is the time of completion.
pub data TurnTerminalUpdate (F : Type 0) : Type 0 where
  advisor_completed :
      Uuid → Uuid → Text → Option Uuid → Option GroundingFreshness → Time → TurnTerminalUpdate F
  audit_completed :
      Uuid → Uuid → AnswerBundle F → Uuid → GroundingFreshness → Time → TurnTerminalUpdate F
  advisor_cancelled : Uuid → Uuid → Text → Time → TurnTerminalUpdate F
  audit_cancelled : Uuid → Uuid → Time → TurnTerminalUpdate F
  update_failed : Uuid → Uuid → Text → Text → Time → TurnTerminalUpdate F
