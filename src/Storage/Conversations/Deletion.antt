-- ===== src/Storage/Conversations/Deletion.antt =====
-- crates/mentat-storage/src/conversation.rs and db.rs: conversations made, bound, read and deleted,
-- and the recovery of turns that a process left open.
use code_mentat.Base.{
  ℕ, ◌++◌, Bool, true, false, not, ◌&&◌, ◌||◌, Option, none, some, List, [], ◌∷◌, any, find, retain,
  Text, codes, leb, sort_by, list_eq, nat_eq, option_eq, ◌==◌, ◌!=◌, if◌then◌else◌,
}
use code_mentat.Core.Error.{Result, ok, err, storage_error, ◌>>=◌, ◌>>◌, fail_if}
use code_mentat.Core.Models.{Uuid, Time}
use code_mentat.Core.Tools.{RepositoryToolCallRecord}
use code_mentat.Core.Egress.{RepositoryConsentScope}
use code_mentat.Core.Conversation.{
  ChatMessage, Conversation, new_conversation, NewConversation, ConversationPersistence, durable,
  ephemeral,
}
use code_mentat.Storage.Receipts.{Sqlite, StoredReceipt, recover_receipts}
use code_mentat.Storage.Conversations.Rows.{
  ConversationRow, TurnRow, MessageRow, AuditRow, TraceRow, SourceRow, Tables, Codec, update_where,
  count_where, has_conversation,
}
use code_mentat.Storage.Conversations.Messages.{is_given, is_open, is_assistant, into_message}

abbrev pub is_ephemeral : ConversationPersistence → Bool
is_ephemeral durable = false
is_ephemeral ephemeral = true

abbrev pub conversation_row : Conversation → ConversationRow
conversation_row c = record {
  id = c.id;
  repository_id = c.repository_id;
  active_snapshot_id = c.active_snapshot_id;
  prompt_profile_id = c.prompt_profile_id;
  compact_summary = none;
  persistence = codes "Durable";
  created_at = c.created_at;
  updated_at = c.created_at;
}

-- `create_conversation`, with the id and the time that `Conversation::new` takes.
unfoldable pub create_conversation :
    Sqlite → Uuid → Time → NewConversation → Tables → Tables × Result Conversation
create_conversation io id now draft t =
    let made =
      new_conversation id now draft.prompt_profile_id draft.repository_id
        draft.active_snapshot_id in
    if is_ephemeral draft.persistence
    then (t, ok made)
    else if io.lock_poisoned
    then (t, err (storage_error "STORAGE_LOCK_POISONED"))
    else if has_conversation id t
        || not (any (λ profile. profile == draft.prompt_profile_id) t.prompt_profiles)
    then (t, err (storage_error "CONVERSATION_CREATE_FAILED"))
    else (record t { conversations = t.conversations ++ (conversation_row made ∷ []) }, ok made)

abbrev pub bound_to : Time → Uuid → Uuid → ConversationRow → ConversationRow
bound_to now repository_id snapshot_id row = record row {
  repository_id = some repository_id;
  active_snapshot_id = some snapshot_id;
  updated_at = now;
}

unfoldable pub bind_conversation_repository :
    Sqlite → Time → Uuid → Uuid → Uuid → Tables → Tables × Result (Unit {0})
bind_conversation_repository io now id repository_id snapshot_id t =
    if io.lock_poisoned
    then (t, err (storage_error "STORAGE_LOCK_POISONED"))
    else let written = record t {
      conversations =
          update_where (λ (row : ConversationRow). row.id == id)
            (bound_to now repository_id snapshot_id) t.conversations;
    } in
      if count_where (λ (row : ConversationRow). row.id == id) t.conversations != 1
      then (written, err (storage_error "CONVERSATION_NOT_FOUND"))
      else (written, ok tt)

-- What goes with a conversation, by `ON DELETE CASCADE`.
unfoldable pub is_turn_of : Uuid → List TurnRow → Uuid → Bool
is_turn_of id turns turn_id =
    any (λ (row : TurnRow). row.id == turn_id && row.conversation_id == id) turns

unfoldable pub trace_goes : Uuid → Tables → TraceRow → Bool
trace_goes id t row = row.conversation_id == id || is_turn_of id t.turns row.turn_id

unfoldable pub is_trace_of : Uuid → Tables → Uuid → Bool
is_trace_of id t trace_id =
    any (λ (row : TraceRow). row.id == trace_id && trace_goes id t row) t.traces

unfoldable pub is_scope_of : Uuid → List RepositoryConsentScope → Uuid → Bool
is_scope_of id scopes scope_id =
    any (λ (scope : RepositoryConsentScope). scope.id == scope_id && scope.conversation_id == id)
      scopes

unfoldable pub delete_rows : Uuid → Tables → Tables
delete_rows id t = record t {
  conversations = retain (λ (row : ConversationRow). row.id != id) t.conversations;
  turns = retain (λ (row : TurnRow). row.conversation_id != id) t.turns;
  messages =
      retain
        (λ (row : MessageRow). not (row.conversation_id == id || is_turn_of id t.turns row.turn_id))
        t.messages;
  audit_results =
      retain (λ (row : AuditRow). not (is_turn_of id t.turns row.turn_id)) t.audit_results;
  traces = retain (λ (row : TraceRow). not (trace_goes id t row)) t.traces;
  tool_calls =
      retain (λ (row : RepositoryToolCallRecord). not (is_trace_of id t row.trace_id)) t.tool_calls;
  sources = retain (λ (row : SourceRow). not (is_trace_of id t row.trace_id)) t.sources;
  scopes = retain (λ (scope : RepositoryConsentScope). scope.conversation_id != id) t.scopes;
  receipts =
      retain
        (λ (row : StoredReceipt). not (
          is_trace_of id t row.receipt.trace_id
          || is_scope_of id t.scopes row.receipt.consent_scope_id))
        t.receipts;
}

-- The counts of a `DeleteReceipt`, in the order in which they are taken.
pub record DeletedCounts : Type 0 where
  pub turns : ℕ
  pub messages : ℕ
  pub grounding_traces : ℕ
  pub egress_receipts : ℕ
  pub audit_results : ℕ
  pub conversations : ℕ

unfoldable pub count_deleted : Uuid → Tables → DeletedCounts
count_deleted id t = record {
  turns = count_where (λ (row : TurnRow). row.conversation_id == id) t.turns;
  messages = count_where (λ (row : MessageRow). row.conversation_id == id) t.messages;
  grounding_traces = count_where (λ (row : TraceRow). row.conversation_id == id) t.traces;
  egress_receipts =
      count_where (λ (row : StoredReceipt). row.receipt.conversation_id == id) t.receipts;
  audit_results =
      count_where (λ (row : AuditRow). is_turn_of id t.turns row.turn_id) t.audit_results;
  conversations = 1;
}

abbrev pub deletion : Tables → Result (DeletedCounts × Tables) → Tables × Result DeletedCounts
deletion t (ok (counts, u)) = (u, ok counts)
deletion t (err e) = (t, err e)

-- `delete_conversation`, after the backups, whose removal is an argument.
unfoldable pub delete_conversation :
    Sqlite → Result (List Text) → Uuid → Tables → Tables × Result DeletedCounts
delete_conversation io backups id t = deletion t (do
  removed ← backups
  fail_if io.lock_poisoned (storage_error "STORAGE_LOCK_POISONED")
  fail_if io.begin_fails (storage_error "CONVERSATION_DELETE_BEGIN_FAILED")
  fail_if (count_where (λ (row : ConversationRow). row.id == id) t.conversations != 1)
      (storage_error "CONVERSATION_NOT_FOUND")
  fail_if io.commit_fails (storage_error "CONVERSATION_DELETE_COMMIT_FAILED")
  ok (count_deleted id t, delete_rows id t))

abbrev pub interrupted : Text
interrupted = codes "INTERRUPTED_BY_RESTART"

abbrev pub is_left_open : MessageRow → Bool
is_left_open row = is_assistant row && is_open row.status

abbrev pub failed_by_restart : Time → MessageRow → MessageRow
failed_by_restart now row = record row {
  markdown = codes "이전 실행이 종료되어 요청을 완료하지 못했습니다.";
  status = codes "Failed";
  error_code = some interrupted;
  updated_at = now;
}

abbrev pub was_interrupted : Uuid → MessageRow → Bool
was_interrupted turn_id row =
    row.turn_id == turn_id
    && is_assistant row
    && row.status == codes "Failed"
    && row.error_code == some interrupted

-- The recovery of `acquire_runtime_ownership`: receipts, then messages, then turns.
unfoldable pub recover_turns : Time → Tables → Tables
recover_turns now t =
    let messages = update_where is_left_open (failed_by_restart now) t.messages in
    record t {
      receipts = recover_receipts now t.receipts;
      messages = messages;
      turns =
          update_where
            (λ (row : TurnRow).
              not (is_given row.completed_at) && any (was_interrupted row.id) messages)
            (λ (row : TurnRow). record row { completed_at = some now }) t.turns;
    }

module _ {F : Type 0} (codec : Codec F) where
  unfoldable pub read_messages : List MessageRow → Result (List ChatMessage)
  read_messages [] = ok []
  read_messages (row ∷ rows) = do
    message ← into_message codec row
    rest ← read_messages rows
    ok (message ∷ rest)

  abbrev pub by_ordinal : MessageRow → MessageRow → Bool
  by_ordinal a b = leb a.ordinal b.ordinal

  abbrev pub conversation_of : ConversationRow → List ChatMessage → Conversation
  conversation_of row messages = record {
    id = row.id;
    repository_id = row.repository_id;
    active_snapshot_id = row.active_snapshot_id;
    prompt_profile_id = row.prompt_profile_id;
    messages = messages;
    compact_summary = row.compact_summary;
    created_at = row.created_at;
    updated_at = row.updated_at;
  }

  abbrev pub read_row : Option ConversationRow → Tables → Result (Option Conversation)
  read_row none t = ok none
  read_row (some row) t = do
    messages ←
        read_messages
          (sort_by by_ordinal (retain (λ (m : MessageRow). m.conversation_id == row.id) t.messages))
    ok (some (conversation_of row messages))

  -- `load_conversation`, with `ConversationValues::into_conversation`.
  unfoldable pub load_conversation : Sqlite → Uuid → Tables → Result (Option Conversation)
  load_conversation io id t =
      if io.lock_poisoned
      then err (storage_error "STORAGE_LOCK_POISONED")
      else read_row (find (λ (row : ConversationRow). row.id == id) t.conversations) t
