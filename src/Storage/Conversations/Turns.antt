-- ===== src/Storage/Conversations/Turns.antt =====
-- crates/mentat-storage/src/conversation.rs: a turn, from its start to its terminal update.
use code_mentat.Base.{
  ◌++◌, Bool, true, false, not, ◌&&◌, ◌||◌, Option, none, some, [], ◌∷◌, any, Text, codes, ltb, leb,
  list_eq, nat_eq, option_eq, ◌==◌, ◌!=◌,
}
use code_mentat.Core.Error.{MentatError, Result, ok, err, storage_error, ◌>>=◌, ◌>>◌, fail_if}
use code_mentat.Core.Models.{Uuid, Time, AnswerBundle}
use code_mentat.Core.Tools.{GroundingFreshness}
use code_mentat.Core.Conversation.{
  ChatRole, user, assistant, MessageStatus, pending, completed, ResponseContract, advisor_markdown,
  audit_answer_bundle, TurnStart, TurnTerminalUpdate, advisor_completed, audit_completed,
  advisor_cancelled, audit_cancelled, update_failed,
}
use code_mentat.Storage.Receipts.{Sqlite}
use code_mentat.Storage.Conversations.Rows.{
  TurnRow, MessageRow, AuditRow, Tables, Codec, i64_max, or_fail, optional, update_where,
  count_where, has_conversation, has_turn, find_turn,
}
use code_mentat.Storage.Conversations.Messages.{is_given, is_open, is_assistant, insert_message}

-- A transaction: begun, run, and committed or left undone.
module _ (io : Sqlite) where
  abbrev pub settled : Tables → Result Tables → Tables × Result (Unit {0})
  settled t (ok u) = (u, ok tt)
  settled t (err e) = (t, err e)

  unfoldable pub transaction :
      MentatError → MentatError → (Tables → Result Tables) → Tables → Tables × Result (Unit {0})
  transaction begin_error commit_error body t = settled t (
      fail_if io.lock_poisoned (storage_error "STORAGE_LOCK_POISONED")
      >> (fail_if io.begin_fails begin_error
          >> (body t >>= λ u. fail_if io.commit_fails commit_error >> ok u)))

-- What follows a check, `check?`.
abbrev pub checked :
    Tables → Result (Unit {0}) → Tables × Result (Unit {0}) → Tables × Result (Unit {0})
checked t (err e) rest = (t, err e)
checked t (ok v) rest = rest

abbrev pub is_user_role : ChatRole → Bool
is_user_role user = true
is_user_role assistant = false

abbrev pub is_pending : MessageStatus → Bool
is_pending pending = true
is_pending _ = false

abbrev pub is_completed : MessageStatus → Bool
is_completed completed = true
is_completed _ = false

unfoldable pub turn_start_invalid : TurnStart → Bool
turn_start_invalid start =
    start.user_message.conversation_id != start.turn.conversation_id
    || start.assistant_placeholder.conversation_id != start.turn.conversation_id
    || start.user_message.turn_id != start.turn.id
    || start.assistant_placeholder.turn_id != start.turn.id
    || not (is_user_role start.user_message.role)
    || is_user_role start.assistant_placeholder.role
    || not (is_completed start.user_message.status)
    || not (is_pending start.assistant_placeholder.status)
    || leb start.assistant_placeholder.ordinal start.user_message.ordinal

unfoldable pub validate_turn_start : TurnStart → Result (Unit {0})
validate_turn_start start = fail_if (turn_start_invalid start) (storage_error "TURN_START_INVALID")

-- What the keys and references of `conversation_turns` refuse.
unfoldable pub turn_refused : TurnRow → Tables → Bool
turn_refused row t =
    has_turn row.id t
    || any
        (λ (other : TurnRow).
          other.conversation_id == row.conversation_id && other.sequence == row.sequence)
        t.turns
    || not (has_conversation row.conversation_id t)
    || row.sequence == 0

-- `… WHERE id = … AND turn_id = … AND role = 'Assistant' AND status IN ('Pending', 'Streaming')`.
unfoldable pub is_answer : Uuid → Uuid → MessageRow → Bool
is_answer turn_id message_id row =
    row.id == message_id && row.turn_id == turn_id && is_assistant row && is_open row.status

-- `… WHERE id = … AND completed_at IS NULL`.
unfoldable pub is_unfinished : Uuid → TurnRow → Bool
is_unfinished turn_id row = row.id == turn_id && not (is_given row.completed_at)

-- `TerminalValues`, with the result of an audit.
pub record TerminalValues : Type 0 where
  pub turn_id : Uuid
  pub message_id : Uuid
  pub markdown : Text
  pub status : Text
  pub error_code : Option Text
  pub trace_id : Option Uuid
  pub freshness : Option Text
  pub at : Time

abbrev pub answered : TerminalValues → MessageRow → MessageRow
answered v row = record row {
  markdown = v.markdown;
  status = v.status;
  error_code = v.error_code;
  grounding_trace_id = v.trace_id;
  grounding_freshness = v.freshness;
  updated_at = v.at;
}

abbrev pub finished : TerminalValues → Option Uuid → TurnRow → TurnRow
finished v none row = record row { completed_at = some v.at }
finished v (some result_id) row = record row {
  audit_result_id = some result_id;
  completed_at = some v.at;
}

-- The two updates at the end, and the test of their numbers of rows.
abbrev pub terminal_conflict : TerminalValues → Tables → Bool
terminal_conflict v t =
    count_where (is_answer v.turn_id v.message_id) t.messages != 1
    || count_where (is_unfinished v.turn_id) t.turns != 1

abbrev pub closed : TerminalValues → Option Uuid → Tables → Tables
closed v result_id t = record t {
  messages = update_where (is_answer v.turn_id v.message_id) (answered v) t.messages;
  turns = update_where (is_unfinished v.turn_id) (finished v result_id) t.turns;
}

unfoldable pub close_turn : TerminalValues → Option Uuid → Tables → Result Tables
close_turn v result_id t =
    fail_if (terminal_conflict v t) (storage_error "TURN_TERMINAL_CONFLICT")
    >> ok (closed v result_id t)

abbrev pub is_audit_v1 : ResponseContract → Bool
is_audit_v1 advisor_markdown = false
is_audit_v1 (audit_answer_bundle schema_version) = schema_version == codes "answer_bundle.v1"

abbrev pub contract_of : Option TurnRow → Result Text
contract_of none = err (storage_error "AUDIT_CONTRACT_READ_FAILED")
contract_of (some row) = ok row.response_contract

abbrev pub apply_values : Result TerminalValues → Tables → Result Tables
apply_values (ok v) t = close_turn v none t
apply_values (err e) t = err e

-- The values of an update without a trace.
abbrev pub plain_values : Uuid → Uuid → Text → Text → Option Text → Time → TerminalValues
plain_values turn_id message_id markdown status error_code at = record {
  turn_id = turn_id;
  message_id = message_id;
  markdown = markdown;
  status = status;
  error_code = error_code;
  trace_id = none;
  freshness = none;
  at = at;
}

abbrev pub audit_values : Uuid → Uuid → Uuid → Text → Time → TerminalValues
audit_values turn_id message_id trace_id encoded at = record {
  turn_id = turn_id;
  message_id = message_id;
  markdown = [];
  status = codes "Completed";
  error_code = none;
  trace_id = some trace_id;
  freshness = some encoded;
  at = at;
}

module _ {F : Type 0} (codec : Codec F) where
  unfoldable pub turn_row : TurnStart → Result TurnRow
  turn_row start = do
    contract ←
        or_fail (storage_error "TURN_CONTRACT_ENCODE_FAILED")
          (codec.encode_contract start.turn.response_contract)
    fail_if (ltb i64_max start.turn.sequence) (storage_error "TURN_SEQUENCE_OVERFLOW")
    ok (record {
      id = start.turn.id;
      conversation_id = start.turn.conversation_id;
      sequence = start.turn.sequence;
      prompt_profile_id = start.turn.prompt_profile_id;
      prompt_profile_revision_id = start.turn.prompt_profile_revision_id;
      kernel_version = start.turn.kernel_version;
      kernel_digest = start.turn.kernel_digest;
      snapshot_id = start.turn.snapshot_id;
      response_contract = contract;
      audit_result_id = none;
      started_at = start.turn.started_at;
      completed_at = none;
    })

  unfoldable pub insert_turn : TurnStart → Tables → Result Tables
  insert_turn start t = do
    row ← turn_row start
    fail_if (turn_refused row t) (storage_error "TURN_INSERT_FAILED")
    with_user ← insert_message codec start.user_message (record t { turns = t.turns ++ (row ∷ []) })
    insert_message codec start.assistant_placeholder with_user

  unfoldable pub begin_turn : Sqlite → TurnStart → Tables → Tables × Result (Unit {0})
  begin_turn io start t = checked t (validate_turn_start start) (
      transaction io (storage_error "TURN_BEGIN_FAILED") (storage_error "TURN_BEGIN_COMMIT_FAILED")
        (insert_turn start) t)

  -- `terminal_values`, for the updates that are not an audit's result.
  unfoldable pub terminal_values : TurnTerminalUpdate F → Result TerminalValues
  terminal_values (advisor_completed turn_id message_id markdown trace_id freshness at) = do
    encoded ←
        optional (storage_error "GROUNDING_FRESHNESS_ENCODE_FAILED") codec.encode_freshness
          freshness
    ok (record {
      turn_id = turn_id;
      message_id = message_id;
      markdown = markdown;
      status = codes "Completed";
      error_code = none;
      trace_id = trace_id;
      freshness = encoded;
      at = at;
    })
  terminal_values (advisor_cancelled turn_id message_id partial at) =
      ok (plain_values turn_id message_id partial (codes "Cancelled") none at)
  terminal_values (audit_cancelled turn_id message_id at) =
      ok (plain_values turn_id message_id [] (codes "Cancelled") none at)
  terminal_values (update_failed turn_id message_id error_code safe_message at) =
      ok (plain_values turn_id message_id safe_message (codes "Failed") (some error_code) at)
  -- The source has `unreachable!` here: `apply_terminal_update` takes the other path first.
  terminal_values (audit_completed turn_id message_id bundle trace_id freshness at) =
      err (storage_error "UNREACHABLE")

  -- `apply_audit_terminal_in_transaction`, with the id that it draws.
  unfoldable pub apply_audit_terminal :
      Uuid
      → Uuid
      → Uuid
      → AnswerBundle F
      → Uuid
      → GroundingFreshness
      → Time
      → Tables
      → Result Tables
  apply_audit_terminal result_id turn_id message_id bundle trace_id freshness at t = do
    fail_if (is_given bundle.raw_model_response) (storage_error "AUDIT_RAW_RESPONSE_FORBIDDEN")
    validated ← or_fail (storage_error "AUDIT_RESULT_ENCODE_FAILED") (codec.encode_bundle bundle)
    encoded ←
        or_fail (storage_error "GROUNDING_FRESHNESS_ENCODE_FAILED")
          (codec.encode_freshness freshness)
    json ← contract_of (find_turn turn_id t)
    contract ← or_fail (storage_error "AUDIT_CONTRACT_DECODE_FAILED") (codec.decode_contract json)
    fail_if (not (is_audit_v1 contract)) (storage_error "AUDIT_TURN_CONTRACT_MISMATCH")
    fail_if
        (any (λ (row : AuditRow). row.id == result_id || row.turn_id == turn_id) t.audit_results)
        (storage_error "AUDIT_RESULT_INSERT_FAILED")
    close_turn (audit_values turn_id message_id trace_id encoded at) (some result_id) (record t {
      audit_results =
          t.audit_results
          ++ (record {
            id = result_id;
            turn_id = turn_id;
            schema_version = codes "answer_bundle.v1";
            validated_bundle = validated;
            created_at = at;
          }
              ∷ []);
    })

  -- `apply_terminal_update_in_transaction`.
  unfoldable pub apply_terminal_update : Uuid → TurnTerminalUpdate F → Tables → Result Tables
  apply_terminal_update result_id (audit_completed turn_id message_id bundle trace_id freshness at)
        t =
      apply_audit_terminal result_id turn_id message_id bundle trace_id freshness at t
  apply_terminal_update result_id update t = apply_values (terminal_values update) t

  unfoldable pub finish_turn :
      Sqlite → Uuid → TurnTerminalUpdate F → Tables → Tables × Result (Unit {0})
  finish_turn io result_id update t =
      transaction io (storage_error "TURN_FINISH_BEGIN_FAILED")
        (storage_error "TURN_FINISH_COMMIT_FAILED") (apply_terminal_update result_id update) t
