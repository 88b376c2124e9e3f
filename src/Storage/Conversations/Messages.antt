-- ===== src/Storage/Conversations/Messages.antt =====
-- crates/mentat-storage/src/conversation.rs: the rows of messages, written and read.
use code_mentat.Base.{
  ◌++◌, Bool, true, false, not, ◌&&◌, ◌||◌, Option, none, some, [], ◌∷◌, any, Text, codes, ltb,
  list_eq, nat_eq, option_eq, ◌==◌, ◌!=◌, if◌then◌else◌,
}
use code_mentat.Core.Error.{Result, ok, err, storage_error, ◌>>=◌, ◌>>◌, fail_if}
use code_mentat.Core.Models.{Uuid, Time}
use code_mentat.Core.Conversation.{
  ChatRole, user, assistant, MessageStatus, pending, streaming, completed, cancelled, failed,
  ChatMessage,
}
use code_mentat.Storage.Receipts.{Sqlite}
use code_mentat.Storage.Conversations.Rows.{
  MessageRow, Tables, Codec, i64_max, optional, update_where, count_where, has_conversation,
  has_turn,
}

unfoldable pub role_text : ChatRole → Text
role_text user = codes "User"
role_text assistant = codes "Assistant"

-- `encode_message_status`.
unfoldable pub encode_message_status : MessageStatus → Text × Option Text
encode_message_status pending = (codes "Pending", none)
encode_message_status streaming = (codes "Streaming", none)
encode_message_status completed = (codes "Completed", none)
encode_message_status cancelled = (codes "Cancelled", none)
encode_message_status (failed error_code) = (codes "Failed", some error_code)

unfoldable pub parse_role : Text → Result ChatRole
parse_role value =
    if value == codes "User"
    then ok user
    else if value == codes "Assistant"
    then ok assistant
    else err (storage_error "STORAGE_DECODE_ENUM")

abbrev pub failed_with : Option Text → Result MessageStatus
failed_with none = err (storage_error "STORAGE_DECODE_STATUS")
failed_with (some error_code) = ok (failed error_code)

unfoldable pub parse_status : Text → Option Text → Result MessageStatus
parse_status value error_code =
    if value == codes "Pending"
    then ok pending
    else if value == codes "Streaming"
    then ok streaming
    else if value == codes "Completed"
    then ok completed
    else if value == codes "Cancelled"
    then ok cancelled
    else if value == codes "Failed"
    then failed_with error_code
    else err (storage_error "STORAGE_DECODE_ENUM")

abbrev pub is_failed : MessageStatus → Bool
is_failed (failed error_code) = true
is_failed pending = false
is_failed streaming = false
is_failed completed = false
is_failed cancelled = false

abbrev pub is_given {ℓ} : {A : Type ℓ} → Option A → Bool
is_given none = false
is_given (some a) = true

-- A message of an assistant that is not over.
unfoldable pub is_open : Text → Bool
is_open status = status == codes "Pending" || status == codes "Streaming"

abbrev pub is_assistant : MessageRow → Bool
is_assistant row = row.role == codes "Assistant"

module _ {F : Type 0} (codec : Codec F) where
  -- `MessageValues::into_message`.
  unfoldable pub into_message : MessageRow → Result ChatMessage
  into_message row = do
    role ← parse_role row.role
    status ← parse_status row.status row.error_code
    fail_if (not (is_failed status) && is_given row.error_code)
        (storage_error "STORAGE_DECODE_STATUS")
    freshness ←
        optional (storage_error "STORAGE_DECODE_GROUNDING") codec.decode_freshness
          row.grounding_freshness
    ok (record {
      id = row.id;
      conversation_id = row.conversation_id;
      turn_id = row.turn_id;
      role = role;
      ordinal = row.ordinal;
      markdown = row.markdown;
      status = status;
      source_ref_ids = [];
      grounding_trace_id = row.grounding_trace_id;
      grounding_freshness = freshness;
      created_at = row.created_at;
      updated_at = row.updated_at;
    })

  -- The row that `insert_message` writes.
  unfoldable pub message_row : ChatMessage → Result MessageRow
  message_row message = do
    freshness ←
        optional (storage_error "GROUNDING_FRESHNESS_ENCODE_FAILED") codec.encode_freshness
          message.grounding_freshness
    fail_if (ltb i64_max message.ordinal) (storage_error "CHAT_ORDINAL_OVERFLOW")
    ok (record {
      id = message.id;
      conversation_id = message.conversation_id;
      turn_id = message.turn_id;
      role = role_text message.role;
      ordinal = message.ordinal;
      markdown = message.markdown;
      status = (encode_message_status message.status).0;
      error_code = (encode_message_status message.status).1;
      grounding_trace_id = message.grounding_trace_id;
      grounding_freshness = freshness;
      created_at = message.created_at;
      updated_at = message.updated_at;
    })

  -- What the keys and references of `chat_messages` refuse.
  unfoldable pub message_refused : MessageRow → Tables → Bool
  message_refused row t =
      any (λ (other : MessageRow). other.id == row.id) t.messages
      || any
          (λ (other : MessageRow).
            other.conversation_id == row.conversation_id && other.ordinal == row.ordinal)
          t.messages
      || not (has_conversation row.conversation_id t)
      || not (has_turn row.turn_id t)

  unfoldable pub insert_message : ChatMessage → Tables → Result Tables
  insert_message message t = do
    row ← message_row message
    fail_if (message_refused row t) (storage_error "CHAT_MESSAGE_INSERT_FAILED")
    ok (record t { messages = t.messages ++ (row ∷ []) })

-- The message that an `append_assistant_delta` or a terminal update changes.
unfoldable pub takes_delta : Uuid → MessageRow → Bool
takes_delta id row = row.id == id && is_assistant row && is_open row.status

abbrev pub with_delta : Time → Text → MessageRow → MessageRow
with_delta now delta row = record row {
  markdown = row.markdown ++ delta;
  status = codes "Streaming";
  updated_at = now;
}

-- `append_assistant_delta`, one statement that commits by itself.
unfoldable pub append_assistant_delta :
    Sqlite → Time → Uuid → Text → Tables → Tables × Result (Unit {0})
append_assistant_delta io now id delta t =
    if io.lock_poisoned
    then (t, err (storage_error "STORAGE_LOCK_POISONED"))
    else let written = record t {
      messages = update_where (takes_delta id) (with_delta now delta) t.messages;
    } in
      if count_where (takes_delta id) t.messages != 1
      then (written, err (storage_error "CHAT_DELTA_TERMINAL_CONFLICT"))
      else (written, ok tt)
