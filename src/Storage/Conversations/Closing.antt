-- ===== src/Storage/Conversations/Closing.antt =====
-- crates/mentat-storage/src/conversation.rs: a terminal update, whatever it is, closes its turn once.
use code_mentat.Base.{
  false, not, ◌||◌, Option, none, some, [], any, Text, codes, ◌≡◌, refl, subst, arith, list_eq,
  nat_eq, ◌==◌, list_beq,
}
use code_mentat.Core.Error.{Result, ok, err, storage_error, >>=-eq-ok, fail_if-eq-ok}
use code_mentat.Core.Models.{Uuid, Time, AnswerBundle}
use code_mentat.Core.Tools.{GroundingFreshness}
use code_mentat.Core.Conversation.{
  TurnTerminalUpdate, advisor_completed, audit_completed, advisor_cancelled, audit_cancelled,
  update_failed,
}
use code_mentat.Storage.Conversations.Rows.{
  optional, TurnRow, AuditRow, Tables, Codec, find_turn, or_fail,
}
use code_mentat.Storage.Conversations.Messages.{is_given, is_open}
use code_mentat.Storage.Conversations.Turns.{
  is_unfinished, TerminalValues, audit_values, plain_values, finished, terminal_conflict, closed,
  close_turn, terminal_values, contract_of, is_audit_v1, apply_audit_terminal, apply_values,
  apply_terminal_update,
}

pub finished_id :
    (v : TerminalValues) (result_id : Option Uuid) (y : TurnRow)
    → (finished v result_id y).id ≡ y.id
finished_id v none y = refl
finished_id v (some r) y = refl

pub finished-over :
    (v : TerminalValues) (result_id : Option Uuid) (i : Uuid) (y : TurnRow)
    → is_unfinished i (finished v result_id y) ≡ false
unfolding is_unfinished
finished-over v none i y = ground arith
finished-over v (some r) i y = ground arith

-- What a turn that closes had, and what it is then.
pub close_turn-eq-ok :
    (v : TerminalValues) (result_id : Option Uuid) (t u : Tables)
    → close_turn v result_id t ≡ ok u
    → (terminal_conflict v t ≡ false) × (closed v result_id t ≡ u)
unfolding close_turn
close_turn-eq-ok v result_id t u h =
    let a =
      fail_if-eq-ok (terminal_conflict v t) (storage_error "TURN_TERMINAL_CONFLICT")
        (ok (closed v result_id t)) u h in
    (a.0, cc a.1)

abbrev pub turn_of : {F : Type 0} → TurnTerminalUpdate F → Uuid
turn_of (advisor_completed turn_id message_id markdown trace_id freshness at) = turn_id
turn_of (audit_completed turn_id message_id bundle trace_id freshness at) = turn_id
turn_of (advisor_cancelled turn_id message_id partial at) = turn_id
turn_of (audit_cancelled turn_id message_id at) = turn_id
turn_of (update_failed turn_id message_id error_code safe_message at) = turn_id

abbrev pub message_of : {F : Type 0} → TurnTerminalUpdate F → Uuid
message_of (advisor_completed turn_id message_id markdown trace_id freshness at) = message_id
message_of (audit_completed turn_id message_id bundle trace_id freshness at) = message_id
message_of (advisor_cancelled turn_id message_id partial at) = message_id
message_of (audit_cancelled turn_id message_id at) = message_id
message_of (update_failed turn_id message_id error_code safe_message at) = message_id

-- The audit's result that an update stores has no raw answer of the model.
abbrev pub NoRaw : {F : Type 0} → TurnTerminalUpdate F → Type 0
NoRaw (audit_completed turn_id message_id bundle trace_id freshness at) =
    is_given bundle.raw_model_response ≡ false
NoRaw (advisor_completed turn_id message_id markdown trace_id freshness at) = Unit
NoRaw (advisor_cancelled turn_id message_id partial at) = Unit
NoRaw (audit_cancelled turn_id message_id at) = Unit
NoRaw (update_failed turn_id message_id error_code safe_message at) = Unit

pub record Names {F : Type 0} (update : TurnTerminalUpdate F) (v : TerminalValues) : Type 0 where
  pub turn : v.turn_id ≡ turn_of update
  pub message : v.message_id ≡ message_of update
  pub over : is_open v.status ≡ false

-- An update that succeeds: the values that it writes, and the tables that it closes the turn in.
pub record Closes {F : Type 0} (update : TurnTerminalUpdate F) (t u : Tables) : Type 0 where
  pub values : TerminalValues
  pub result_id : Option Uuid
  pub middle : Tables
  pub names : Names update values
  pub no_raw : NoRaw update
  pub same_messages : middle.messages ≡ t.messages
  pub same_turns : middle.turns ≡ t.turns
  pub closes : close_turn values result_id middle ≡ ok u

module _ {F : Type 0} (codec : Codec F) where
  audit-Closes :
      (result_id turn_id message_id : Uuid) (bundle : AnswerBundle F) (trace_id : Uuid)
      (freshness : GroundingFreshness) (at : Time) (t u : Tables)
      → apply_audit_terminal codec result_id turn_id message_id bundle trace_id freshness at t
        ≡ ok u
      → Closes (audit_completed turn_id message_id bundle trace_id freshness at) t u
  unfolding apply_audit_terminal is_open list_beq
  audit-Closes result_id turn_id message_id bundle trace_id freshness at t u h =
      let a = fail_if-eq-ok (is_given bundle.raw_model_response) _ _ u h in
      let b =
        >>=-eq-ok
          (or_fail (storage_error "AUDIT_RESULT_ENCODE_FAILED") (codec.encode_bundle bundle)) _ u
          a.1 in
      let c =
        >>=-eq-ok
          (or_fail (storage_error "GROUNDING_FRESHNESS_ENCODE_FAILED")
            (codec.encode_freshness freshness))
          _ u b.2 in
      let d = >>=-eq-ok (contract_of (find_turn turn_id t)) _ u c.2 in
      let e =
        >>=-eq-ok
          (or_fail (storage_error "AUDIT_CONTRACT_DECODE_FAILED") (codec.decode_contract d.0)) _ u
          d.2 in
      let f = fail_if-eq-ok (not (is_audit_v1 e.0)) _ _ u e.2 in
      let g =
        fail_if-eq-ok
          (any (λ (row : AuditRow). row.id == result_id || row.turn_id == turn_id) t.audit_results)
          _ _ u f.1 in
      record {
        values = audit_values turn_id message_id trace_id c.0 at;
        result_id = some result_id;
        middle = _;
        names = record { turn = refl; message = refl; over = refl };
        no_raw = a.0;
        same_messages = refl;
        same_turns = refl;
        closes = g.1;
      }

  values-Closes :
      (update : TurnTerminalUpdate F) (r : Result TerminalValues) (t u : Tables)
      → ((v : TerminalValues) → r ≡ ok v → Names update v)
      → NoRaw update
      → apply_values r t ≡ ok u
      → Closes update t u
  values-Closes update (ok v) t u n w h = record {
    values = v;
    result_id = none;
    middle = t;
    names = n v refl;
    no_raw = w;
    same_messages = refl;
    same_turns = refl;
    closes = h;
  }
  values-Closes update (err e) t u n w h = cc h

  advisor-Names :
      (turn_id message_id : Uuid) (markdown : Text) (trace_id : Option Uuid)
      (freshness : Option GroundingFreshness) (at : Time) (v : TerminalValues)
      → terminal_values codec (advisor_completed turn_id message_id markdown trace_id freshness at)
        ≡ ok v
      → Names {F = F} (advisor_completed turn_id message_id markdown trace_id freshness at) v
  unfolding terminal_values is_open list_beq
  advisor-Names turn_id message_id markdown trace_id freshness at v h =
      let a =
        >>=-eq-ok
          (optional (storage_error "GROUNDING_FRESHNESS_ENCODE_FAILED") codec.encode_freshness
            freshness)
          _ v h in
      let made : record {
        turn_id = turn_id;
        message_id = message_id;
        markdown = markdown;
        status = codes "Completed";
        error_code = none;
        trace_id = trace_id;
        freshness = a.0;
        at = at;
      }
          ≡ v =
        cc a.2 in
      subst (Names (advisor_completed turn_id message_id markdown trace_id freshness at)) made
        (record { turn = refl; message = refl; over = refl })

  plain-Closes :
      (update : TurnTerminalUpdate F) (markdown status : Text) (error_code : Option Text)
      (at : Time) (t u : Tables)
      → is_open status ≡ false
      → NoRaw update
      → close_turn
          (plain_values (turn_of update) (message_of update) markdown status error_code at)
          none
          t
        ≡ ok u
      → Closes update t u
  plain-Closes update markdown status error_code at t u over w h = record {
    values = plain_values (turn_of update) (message_of update) markdown status error_code at;
    result_id = none;
    middle = t;
    names = record { turn = refl; message = refl; over = over };
    no_raw = w;
    same_messages = refl;
    same_turns = refl;
    closes = h;
  }

  pub apply_terminal_update-Closes :
      (result_id : Uuid) (update : TurnTerminalUpdate F) (t u : Tables)
      → apply_terminal_update codec result_id update t ≡ ok u
      → Closes update t u
  unfolding apply_terminal_update terminal_values is_open list_beq
  apply_terminal_update-Closes result_id
        (audit_completed turn_id message_id bundle trace_id freshness at) t u h =
      audit-Closes result_id turn_id message_id bundle trace_id freshness at t u h
  apply_terminal_update-Closes result_id
        (advisor_completed turn_id message_id markdown trace_id freshness at) t u h =
      values-Closes _ _ t u (advisor-Names turn_id message_id markdown trace_id freshness at) tt h
  apply_terminal_update-Closes result_id (advisor_cancelled turn_id message_id partial at) t u h =
      plain-Closes _ partial (codes "Cancelled") none at t u refl tt h
  apply_terminal_update-Closes result_id (audit_cancelled turn_id message_id at) t u h =
      plain-Closes _ [] (codes "Cancelled") none at t u refl tt h
  apply_terminal_update-Closes result_id
        (update_failed turn_id message_id error_code safe_message at) t u h =
      plain-Closes _ safe_message (codes "Failed") (some error_code) at t u refl tt h
