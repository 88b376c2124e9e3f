-- ===== src/Storage/Conversations/Gone.antt =====
-- crates/mentat-storage/src/conversation.rs: what the deletion of a conversation leaves.
use code_mentat.Base.{
  ◌+◌, ◌≤◌, length, ◌||◌, Has, Bool, false, List, All, ◌≡◌, list_eq, nat_eq, ◌==◌,
}
use code_mentat.Core.Error.{Result, ok, err}
use code_mentat.Core.Models.{Uuid}
use code_mentat.Core.Tools.{RepositoryToolCallRecord}
use code_mentat.Core.Egress.{RepositoryConsentScope}
use code_mentat.Storage.Receipts.{StoredReceipt}
use code_mentat.Storage.Conversations.Rows.{
  ConversationRow, TurnRow, MessageRow, AuditRow, TraceRow, SourceRow, Tables, count_where,
}
use code_mentat.Storage.Conversations.Deletion.{is_turn_of, is_trace_of, is_scope_of, DeletedCounts}

-- Nothing of a conversation is left of the tables that there were.
pub record IsGone (id : Uuid) (before t : Tables) : Type 0 where
  pub conversations : All (λ (row : ConversationRow). row.id == id ≡ false) t.conversations
  pub turns : All (λ (row : TurnRow). row.conversation_id == id ≡ false) t.turns
  pub messages :
      All
        (λ (row : MessageRow).
          (row.conversation_id == id ≡ false) × (is_turn_of id before.turns row.turn_id ≡ false))
        t.messages
  pub audit_results :
      All (λ (row : AuditRow). is_turn_of id before.turns row.turn_id ≡ false) t.audit_results
  pub traces :
      All
        (λ (row : TraceRow).
          (row.conversation_id == id ≡ false) × (is_turn_of id before.turns row.turn_id ≡ false))
        t.traces
  pub tool_calls :
      All
        (λ (row : RepositoryToolCallRecord). is_trace_of id before row.trace_id ≡ false)
        t.tool_calls
  pub sources : All (λ (row : SourceRow). is_trace_of id before row.trace_id ≡ false) t.sources
  pub scopes :
      All (λ (scope : RepositoryConsentScope). scope.conversation_id == id ≡ false) t.scopes
  pub receipts :
      All
        (λ (row : StoredReceipt).
          (is_trace_of id before row.receipt.trace_id ≡ false)
          × (is_scope_of id before.scopes row.receipt.consent_scope_id ≡ false))
        t.receipts

-- Each row that does not go is there as before.
abbrev pub Stays : {A : Type 0} → (A → Bool) → List A → List A → Type 0
Stays {A = A} goes before after =
    (x : A) → goes x ≡ false → Has (λ y. y ≡ x) before → Has (λ y. y ≡ x) after

pub record OthersStay (id : Uuid) (before t : Tables) : Type 0 where
  pub prompt_profiles : t.prompt_profiles ≡ before.prompt_profiles
  pub conversations :
      Stays (λ (row : ConversationRow). row.id == id) before.conversations t.conversations
  pub turns : Stays (λ (row : TurnRow). row.conversation_id == id) before.turns t.turns
  pub messages :
      Stays
        (λ (row : MessageRow). row.conversation_id == id || is_turn_of id before.turns row.turn_id)
        before.messages
        t.messages
  pub audit_results :
      Stays
        (λ (row : AuditRow). is_turn_of id before.turns row.turn_id)
        before.audit_results
        t.audit_results
  pub traces :
      Stays
        (λ (row : TraceRow). row.conversation_id == id || is_turn_of id before.turns row.turn_id)
        before.traces
        t.traces
  pub tool_calls :
      Stays
        (λ (row : RepositoryToolCallRecord). is_trace_of id before row.trace_id)
        before.tool_calls
        t.tool_calls
  pub sources :
      Stays (λ (row : SourceRow). is_trace_of id before row.trace_id) before.sources t.sources
  pub scopes :
      Stays (λ (scope : RepositoryConsentScope). scope.conversation_id == id) before.scopes t.scopes
  pub receipts :
      Stays
        (λ (row : StoredReceipt).
          is_trace_of id before row.receipt.trace_id
          || is_scope_of id before.scopes row.receipt.consent_scope_id)
        before.receipts
        t.receipts

-- The counts against the rows that were there and those that are left.
pub record Counted (id : Uuid) (before t : Tables) (counts : DeletedCounts) : Type 0 where
  pub turns : length t.turns + counts.turns ≡ length before.turns
  pub messages : length t.messages + counts.messages ≤ length before.messages
  pub grounding_traces : length t.traces + counts.grounding_traces ≤ length before.traces
  pub audit_results : length t.audit_results + counts.audit_results ≡ length before.audit_results
  pub conversations : length t.conversations + counts.conversations ≡ length before.conversations
  pub egress_receipts :
      counts.egress_receipts
      ≡ count_where (λ (row : StoredReceipt). row.receipt.conversation_id == id) before.receipts

abbrev pub Deleted : Uuid → Tables → Tables × Result DeletedCounts → Type 0
Deleted id t (u, err e) = u ≡ t
Deleted id t (u, ok counts) =
    (count_where (λ (row : ConversationRow). row.id == id) t.conversations ≡ 1)
    × Counted id t u counts
    × IsGone id t u
    × OthersStay id t u
