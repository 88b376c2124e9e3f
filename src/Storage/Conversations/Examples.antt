-- ===== src/Storage/Conversations/Examples.antt =====
-- crates/mentat-storage/src/conversation.rs: a conversation of one turn.
use code_mentat.Base.{
  ℕ, true, ◌&&◌, false, Option, none, some, List, [], ◌∷◌, any, All, Text, codes, list_beq,
  option_beq, find, retain, ◌≡◌, refl, subst, ◌⊎◌, list_eq, nat_eq, ◌==◌,
}
use code_mentat.Core.Error.{MentatError, Result, ok, err}
use code_mentat.Core.Models.{Uuid, Time}
use code_mentat.Core.Tools.{
  GroundingFreshness, fresh_at_send, changed_after_send, stale_before_send, GroundingTrace,
}
use code_mentat.Core.Conversation.{
  user, assistant, pending, completed, ChatMessage, ResponseContract, advisor_markdown,
  audit_answer_bundle, TurnStart, TurnTerminalUpdate, advisor_completed, advisor_cancelled,
}
use code_mentat.Storage.Receipts.{Sqlite}
use code_mentat.Storage.Conversations.Rows.{
  ConversationRow, TurnRow, MessageRow, TraceRow, Tables, Codec, update_where, count_where,
  find_message,
}
use code_mentat.Storage.Conversations.Messages.{
  role_text, encode_message_status, is_open, message_row, message_refused, insert_message,
  into_message, append_assistant_delta,
}
use code_mentat.Storage.Conversations.Turns.{
  transaction, turn_start_invalid, validate_turn_start, turn_row, turn_refused, insert_turn,
  begin_turn, is_answer, is_unfinished, close_turn, terminal_values, apply_terminal_update,
  finish_turn,
}
use code_mentat.Storage.Conversations.Grounding.{
  is_bound, validate_grounding_terminal_binding, validate_trace_database_binding, insert_calls,
  insert_sources, put_trace, write_grounding_trace, ground_turn,
  finish_turn_with_grounding_internal,
}
use code_mentat.Storage.Conversations.Deletion.{is_left_open, recover_turns}
use code_mentat.Storage.Conversations.History.{done, more, recovered, appended, message_kept}
use code_mentat.Storage.Conversations.Finishing.{
  alone, finish_turn_once, IsGrounded, finish_turn_with_grounding_bound,
}
use code_mentat.Storage.Conversations.Moves.{KeepsRow}
use code_mentat.Storage.Conversations.Recovery.{recover_turns_closed}
use code_mentat.Storage.Conversations.Encoding.{into_message-message_row}
use code_mentat.Storage.Conversations.Starting.{IsBegun, begin_turn_begins}

abbrev sound : Sqlite
sound = record { lock_poisoned = false; begin_fails = false; commit_fails = false }

abbrev fine : Result (Unit {0})
fine = ok tt

abbrev write_contract : ResponseContract → Text
write_contract advisor_markdown = []
write_contract (audit_answer_bundle version) = 1 ∷ version

abbrev read_contract : Text → Option ResponseContract
read_contract [] = some advisor_markdown
read_contract (c ∷ version) = some (audit_answer_bundle version)

abbrev write_freshness : GroundingFreshness → Option Text
write_freshness fresh_at_send = some []
write_freshness (changed_after_send at) = some (at ∷ [])
write_freshness stale_before_send = some (0 ∷ 0 ∷ [])

abbrev read_freshness : Text → Option GroundingFreshness
read_freshness [] = some fresh_at_send
read_freshness (at ∷ []) = some (changed_after_send at)
read_freshness (a ∷ b ∷ t) = some stale_before_send

freshness_read :
    (f : GroundingFreshness) (x : Text) → write_freshness f ≡ some x → read_freshness x ≡ some f
freshness_read fresh_at_send x h =
    let e : [] ≡ x = cc h in subst (λ t. read_freshness t ≡ some fresh_at_send) e refl
freshness_read (changed_after_send at) x h =
    let e : (at ∷ []) ≡ x = cc h in
    subst (λ t. read_freshness t ≡ some (changed_after_send at)) e refl
freshness_read stale_before_send x h =
    let e : (0 ∷ 0 ∷ []) ≡ x = cc h in subst (λ t. read_freshness t ≡ some stale_before_send) e refl

abbrev codec : Codec ℕ
codec = record {
  encode_contract = λ c. some (write_contract c);
  decode_contract = read_contract;
  encode_freshness = write_freshness;
  decode_freshness = read_freshness;
  encode_bundle = λ b. some (codes "{}");
}

abbrev message : Uuid → ℕ → ChatMessage
message id ordinal = record {
  id = id;
  conversation_id = 1;
  turn_id = 10;
  role = user;
  ordinal = ordinal;
  markdown = codes "q";
  status = completed;
  source_ref_ids = [];
  grounding_trace_id = none;
  grounding_freshness = none;
  created_at = 5;
  updated_at = 5;
}

abbrev start : TurnStart
start = record {
  turn = record {
    id = 10;
    conversation_id = 1;
    sequence = 1;
    prompt_profile_id = 2;
    prompt_profile_revision_id = 3;
    kernel_version = codes "k";
    kernel_digest = codes "d";
    snapshot_id = some 7;
    response_contract = advisor_markdown;
    audit_result_id = none;
    started_at = 5;
    completed_at = none;
  };
  user_message = message 20 0;
  assistant_placeholder = record (message 21 1) {
    role = assistant;
    status = pending;
    markdown = [];
  };
}

abbrev turn : Option Time → TurnRow
turn completed_at = record {
  id = 10;
  conversation_id = 1;
  sequence = 1;
  prompt_profile_id = 2;
  prompt_profile_revision_id = 3;
  kernel_version = codes "k";
  kernel_digest = codes "d";
  snapshot_id = some 7;
  response_contract = [];
  audit_result_id = none;
  started_at = 5;
  completed_at = completed_at;
}

abbrev question : MessageRow
question = record {
  id = 20;
  conversation_id = 1;
  turn_id = 10;
  role = codes "User";
  ordinal = 0;
  markdown = codes "q";
  status = codes "Completed";
  error_code = none;
  grounding_trace_id = none;
  grounding_freshness = none;
  created_at = 5;
  updated_at = 5;
}

abbrev answer : Text → Text → Option Uuid → Option Text → Time → MessageRow
answer markdown status trace_id freshness at = record {
  id = 21;
  conversation_id = 1;
  turn_id = 10;
  role = codes "Assistant";
  ordinal = 1;
  markdown = markdown;
  status = status;
  error_code = none;
  grounding_trace_id = trace_id;
  grounding_freshness = freshness;
  created_at = 5;
  updated_at = at;
}

abbrev conversation : ConversationRow
conversation = record {
  id = 1;
  repository_id = none;
  active_snapshot_id = none;
  prompt_profile_id = 2;
  compact_summary = none;
  persistence = codes "Durable";
  created_at = 4;
  updated_at = 4;
}

abbrev tables : List TurnRow → List MessageRow → List TraceRow → Tables
tables turns messages traces = record {
  prompt_profiles = 2 ∷ [];
  conversations = conversation ∷ [];
  turns = turns;
  messages = messages;
  audit_results = [];
  traces = traces;
  tool_calls = [];
  sources = [];
  scopes = [];
  receipts = [];
}

abbrev before : Tables
before = tables [] [] []

abbrev open_turn : Tables
open_turn = tables (turn none ∷ []) (question ∷ answer [] (codes "Pending") none none 5 ∷ []) []

abbrev ended : Tables
ended =
    tables (turn (some 9) ∷ []) (question ∷ answer (codes "a") (codes "Completed") none none 9 ∷ [])
      []

abbrev update : TurnTerminalUpdate ℕ
update = advisor_completed 10 21 (codes "a") none none 9

begins : begin_turn codec sound start before ≡ (open_turn, ok tt)
unfolding begin_turn validate_turn_start turn_start_invalid transaction insert_turn turn_row
    turn_refused insert_message message_row message_refused any role_text encode_message_status
begins = refl

ends : finish_turn codec sound 30 update open_turn ≡ (ended, ok tt)
unfolding finish_turn transaction apply_terminal_update terminal_values close_turn count_where
    update_where is_answer is_unfinished is_open list_beq
ends = refl

begin_turn_begins_example :
    ((fine ≡ ok tt) × IsBegun codec start before open_turn)
    ⊎ ((e : MentatError) × (fine ≡ err e) × (open_turn ≡ before))
begin_turn_begins_example = begin_turn_begins codec sound start before open_turn (ok tt) begins

ended_answer : find_message 21 ended ≡ some (answer (codes "a") (codes "Completed") none none 9)
unfolding find
ended_answer = refl

answer_over : is_left_open (answer (codes "a") (codes "Completed") none none 9) ≡ false
unfolding is_open list_beq
answer_over = refl

message_kept_example :
    KeepsRow 21
      (answer (codes "a") (codes "Completed") none none 9)
      (append_assistant_delta sound 13 21 (codes "late") (recover_turns 11 ended)).0
message_kept_example =
    message_kept codec ended
      (append_assistant_delta sound 13 21 (codes "late") (recover_turns 11 ended)).0 21
      (answer (codes "a") (codes "Completed") none none 9)
      (more (recovered 11 ended) (more (appended sound 13 21 (codes "late") _) (done _)))
      ended_answer answer_over

abbrev trace : GroundingTrace
trace = record {
  id = 40;
  conversation_id = 1;
  turn_id = 10;
  snapshot_id = some 7;
  tool_calls = [];
  source_refs = [];
  egress_receipt_ids = [];
  freshness = fresh_at_send;
}

abbrev grounded : Tables
grounded =
    tables (turn (some 9) ∷ [])
      (question ∷ answer (codes "a") (codes "Completed") (some 40) (some []) 9 ∷ [])
      (record {
        id = 40;
        conversation_id = 1;
        turn_id = 10;
        snapshot_id = some 7;
        freshness = [];
        created_at = 8;
      }
        ∷ [])

abbrev grounded_update : TurnTerminalUpdate ℕ
grounded_update = advisor_completed 10 21 (codes "a") (some 40) (some fresh_at_send) 9

grounds :
    finish_turn_with_grounding_internal codec sound 8 30 false trace grounded_update open_turn
    ≡ (grounded, ok tt)
unfolding finish_turn_with_grounding_internal validate_grounding_terminal_binding is_bound
    transaction ground_turn validate_trace_database_binding write_grounding_trace insert_calls
    insert_sources put_trace apply_terminal_update terminal_values close_turn count_where
    update_where is_answer is_unfinished is_open list_beq option_beq find any retain
grounds = refl

-- The turn ends, the store recovers at the next start, and a cancellation comes too late.
finish_turn_once_example :
    ((e : MentatError) × (finish_turn codec sound 31
          (advisor_cancelled 10 21 [] 12)
          (recover_turns 11 ended)
        ≡ (recover_turns 11 ended, err e)))
    × ((e : MentatError) × (finish_turn_with_grounding_internal codec sound 8 31 false trace
            (advisor_cancelled 10 21 [] 12)
            (recover_turns 11 ended)
          ≡ (recover_turns 11 ended, err e)))
finish_turn_once_example =
    finish_turn_once codec update (advisor_cancelled 10 21 [] 12) open_turn ended
      (recover_turns 11 ended) sound 8 31 false trace (alone sound 30 ends)
      (more (recovered 11 ended) (done _)) refl

finish_turn_with_grounding_bound_example :
    ((fine ≡ ok tt) × IsGrounded trace grounded_update open_turn grounded)
    ⊎ ((e : MentatError) × (fine ≡ err e) × (grounded ≡ open_turn))
finish_turn_with_grounding_bound_example =
    finish_turn_with_grounding_bound codec sound 8 30 false trace grounded_update open_turn grounded
      (ok tt) grounds

recover_turns_closed_example :
    All (λ (row : MessageRow). is_left_open row ≡ false) (recover_turns 11 open_turn).messages
    × ((id : Uuid)
        → any (λ (m : MessageRow). m.turn_id == id && is_left_open m) open_turn.messages ≡ true
        → count_where (is_unfinished id) (recover_turns 11 open_turn).turns ≡ 0)
recover_turns_closed_example = recover_turns_closed 11 open_turn

written : message_row codec (message 20 0) ≡ ok question
unfolding message_row role_text encode_message_status
written = refl

into_message-message_row_example : into_message codec question ≡ ok (message 20 0)
into_message-message_row_example =
    into_message-message_row codec (message 20 0) question freshness_read written
