-- ===== src/Storage/Conversations/Rows.antt =====
-- crates/mentat-storage/src/db.rs and conversation.rs: the tables of conversations, with the
-- keys and references that SQLite enforces. The columns of an id or a time hold it without loss.
-- What `serde_json` writes and reads is an argument.
use code_mentat.Base.{
  ℕ, suc, ◌^◌, ◌-◌, Bool, Option, none, some, List, [], ◌∷◌, any, find, Text, list_eq, nat_eq, ◌==◌,
  if◌then◌else◌,
}
use code_mentat.Core.Error.{MentatError, Result, ok, err}
use code_mentat.Core.Models.{Uuid, Time, AnswerBundle}
use code_mentat.Core.Tools.{GroundingFreshness, RepositoryToolCallRecord}
use code_mentat.Core.Egress.{RepositoryConsentScope}
use code_mentat.Core.Conversation.{ResponseContract}
use code_mentat.Storage.Receipts.{StoredReceipt}

pub record ConversationRow : Type 0 where
  pub id : Uuid
  pub repository_id : Option Uuid
  pub active_snapshot_id : Option Uuid
  pub prompt_profile_id : Uuid
  pub compact_summary : Option Text
  pub persistence : Text
  pub created_at : Time
  pub updated_at : Time

pub record TurnRow : Type 0 where
  pub id : Uuid
  pub conversation_id : Uuid
  pub sequence : ℕ
  pub prompt_profile_id : Uuid
  pub prompt_profile_revision_id : Uuid
  pub kernel_version : Text
  pub kernel_digest : Text
  pub snapshot_id : Option Uuid
  pub response_contract : Text
  pub audit_result_id : Option Uuid
  pub started_at : Time
  pub completed_at : Option Time

-- A row of `chat_messages`: `MessageValues`.
pub record MessageRow : Type 0 where
  pub id : Uuid
  pub conversation_id : Uuid
  pub turn_id : Uuid
  pub role : Text
  pub ordinal : ℕ
  pub markdown : Text
  pub status : Text
  pub error_code : Option Text
  pub grounding_trace_id : Option Uuid
  pub grounding_freshness : Option Text
  pub created_at : Time
  pub updated_at : Time

pub record AuditRow : Type 0 where
  pub id : Uuid
  pub turn_id : Uuid
  pub schema_version : Text
  pub validated_bundle : Text
  pub created_at : Time

pub record TraceRow : Type 0 where
  pub id : Uuid
  pub conversation_id : Uuid
  pub turn_id : Uuid
  pub snapshot_id : Option Uuid
  pub freshness : Text
  pub created_at : Time

pub record SourceRow : Type 0 where
  pub id : Uuid
  pub trace_id : Uuid
  pub ordinal : ℕ
  pub snapshot_id : Uuid
  pub relative_path : Text
  pub line_start : ℕ
  pub line_end : ℕ
  pub content_hash : Text
  pub excerpt : Text

pub record Tables : Type 0 where
  pub prompt_profiles : List Uuid
  pub conversations : List ConversationRow
  pub turns : List TurnRow
  pub messages : List MessageRow
  pub audit_results : List AuditRow
  pub traces : List TraceRow
  pub tool_calls : List RepositoryToolCallRecord
  pub sources : List SourceRow
  pub scopes : List RepositoryConsentScope
  pub receipts : List StoredReceipt

pub record Codec (F : Type 0) : Type 0 where
  pub encode_contract : ResponseContract → Option Text
  pub decode_contract : Text → Option ResponseContract
  pub encode_freshness : GroundingFreshness → Option Text
  pub decode_freshness : Text → Option GroundingFreshness
  pub encode_bundle : AnswerBundle F → Option Text

-- The greatest integer of a column.
abbrev pub i64_max : ℕ
i64_max = 2 ^ 63 - 1

abbrev pub or_fail {ℓ} : {A : Type ℓ} → MentatError → Option A → Result A
or_fail e none = err e
or_fail e (some a) = ok a

abbrev pub or_fail_some : {B : Type 0} → MentatError → Option B → Result (Option B)
or_fail_some e none = err e
or_fail_some e (some b) = ok (some b)

-- The value of a column that may be NULL, written or read.
abbrev pub optional : {A B : Type 0} → MentatError → (A → Option B) → Option A → Result (Option B)
optional e f none = ok none
optional e f (some a) = or_fail_some e (f a)

module _ {ℓ} {A : Type ℓ} where
  -- `UPDATE … SET … WHERE …`, and the number of the rows that it changes.
  unfoldable pub update_where : (A → Bool) → (A → A) → List A → List A
  update_where test change [] = []
  update_where test change (x ∷ rows) =
      let rest = update_where test change rows in if test x then change x ∷ rest else x ∷ rest

  unfoldable pub count_where : (A → Bool) → List A → ℕ
  count_where test [] = 0
  count_where test (x ∷ rows) =
      let rest = count_where test rows in if test x then suc rest else rest

abbrev pub has_conversation : Uuid → Tables → Bool
has_conversation id t = any (λ (row : ConversationRow). row.id == id) t.conversations

abbrev pub has_turn : Uuid → Tables → Bool
has_turn id t = any (λ (row : TurnRow). row.id == id) t.turns

abbrev pub find_message : Uuid → Tables → Option MessageRow
find_message id t = find (λ (row : MessageRow). row.id == id) t.messages

abbrev pub find_turn : Uuid → Tables → Option TurnRow
find_turn id t = find (λ (row : TurnRow). row.id == id) t.turns
