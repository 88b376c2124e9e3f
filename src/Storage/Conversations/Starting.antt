-- ===== src/Storage/Conversations/Starting.antt =====
-- crates/mentat-storage/src/conversation.rs: the start of a turn.
use mathlib.Core.List.{append_assoc}
use code_mentat.Base.{
  ◌<◌, true, false, not, none, [], ◌∷◌, ◌++◌, list_beq, leb, ltb, ◌≡◌, refl, sym, ap, subst, ◌∙◌,
  ◌⊎◌, inl, inr, or-split, !=-sound, arith, list_eq, nat_eq, ◌!=◌,
}
use code_mentat.Core.Error.{
  MentatError, Result, ok, err, storage_error, >>=-eq-ok, fail_if-eq-ok, fail_if-tt,
}
use code_mentat.Core.Conversation.{
  ChatRole, user, assistant, MessageStatus, pending, streaming, completed, cancelled, failed,
  ChatMessage, TurnStart,
}
use code_mentat.Storage.Receipts.{Sqlite}
use code_mentat.Storage.Conversations.Rows.{
  TurnRow, MessageRow, Tables, Codec, or_fail, optional, i64_max, has_conversation, has_turn,
}
use code_mentat.Storage.Conversations.Messages.{
  role_text, encode_message_status, is_open, message_row, message_refused, insert_message,
}
use code_mentat.Storage.Conversations.Turns.{
  is_user_role, is_pending, is_completed, turn_start_invalid, validate_turn_start, turn_row,
  turn_refused, insert_turn, begin_turn,
}
use code_mentat.Storage.Conversations.Deletion.{is_left_open}
use code_mentat.Storage.Conversations.Moves.{
  transaction-eq-ok, transaction-eq-err, checked-eq-ok, checked-eq-err,
}

-- A turn that has begun: its row and its two messages, new, in order, and the answer open.
pub record IsBegun {F : Type 0} (codec : Codec F) (start : TurnStart) (t u : Tables) : Type 0 where
  pub turn : TurnRow
  pub question : MessageRow
  pub answer : MessageRow
  pub new_turn : has_turn start.turn.id t ≡ false
  pub in_conversation : has_conversation start.turn.conversation_id t ≡ true
  pub turns : u.turns ≡ t.turns ++ (turn ∷ [])
  pub messages : u.messages ≡ t.messages ++ (question ∷ answer ∷ [])
  pub unfinished : (turn.id ≡ start.turn.id) × (turn.completed_at ≡ none)
  pub own_turn : (question.turn_id ≡ start.turn.id) × (answer.turn_id ≡ start.turn.id)
  pub ordered : question.ordinal < answer.ordinal
  pub open_answer : (is_left_open question ≡ false) × (is_left_open answer ≡ true)

role_user : (role : ChatRole) → is_user_role role ≡ true → role ≡ user
role_user user h = refl
role_user assistant h = cc h

role_assistant : (role : ChatRole) → is_user_role role ≡ false → role ≡ assistant
role_assistant user h = cc h
role_assistant assistant h = refl

status_pending : (status : MessageStatus) → is_pending status ≡ true → status ≡ pending
status_pending pending h = refl
status_pending streaming h = cc h
status_pending completed h = cc h
status_pending cancelled h = cc h
status_pending (failed error_code) h = cc h

message_row-fields :
    {F : Type 0} (codec : Codec F) (m : ChatMessage) (row : MessageRow)
    → message_row codec m ≡ ok row
    → (row.turn_id ≡ m.turn_id)
      × (row.ordinal ≡ m.ordinal)
      × (row.role ≡ role_text m.role)
      × (row.status ≡ (encode_message_status m.status).0)
unfolding message_row
message_row-fields codec m row h =
    let a =
      >>=-eq-ok
        (optional (storage_error "GROUNDING_FRESHNESS_ENCODE_FAILED") codec.encode_freshness
          m.grounding_freshness)
        _ row h in
    let b = fail_if-eq-ok (ltb i64_max m.ordinal) _ _ row a.2 in (cc b.1, cc b.1, cc b.1, cc b.1)

question-over : (row : MessageRow) → row.role ≡ role_text user → is_left_open row ≡ false
unfolding role_text list_beq
question-over row h = rw h refl

answer-open :
    (row : MessageRow)
    → row.role ≡ role_text assistant
    → row.status ≡ (encode_message_status pending).0
    → is_left_open row ≡ true
unfolding role_text encode_message_status is_open list_beq
answer-open row h k = rw (h, k) refl

-- What a valid start says of its parts.
pub record IsValidStart (start : TurnStart) : Type 0 where
  pub question_turn : start.user_message.turn_id ≡ start.turn.id
  pub answer_turn : start.assistant_placeholder.turn_id ≡ start.turn.id
  pub question_role : start.user_message.role ≡ user
  pub answer_role : start.assistant_placeholder.role ≡ assistant
  pub answer_status : start.assistant_placeholder.status ≡ pending
  pub ordered : start.user_message.ordinal < start.assistant_placeholder.ordinal

valid_start : (start : TurnStart) → turn_start_invalid start ≡ false → IsValidStart start
unfolding turn_start_invalid
valid_start start h =
    let a = or-split _ (leb start.assistant_placeholder.ordinal start.user_message.ordinal) h in
    let b = or-split _ (not (is_pending start.assistant_placeholder.status)) a.0 in
    let c = or-split _ (not (is_completed start.user_message.status)) b.0 in
    let d = or-split _ (is_user_role start.assistant_placeholder.role) c.0 in
    let e = or-split _ (not (is_user_role start.user_message.role)) d.0 in
    let f = or-split _ (start.assistant_placeholder.turn_id != start.turn.id) e.0 in
    let g = or-split _ (start.user_message.turn_id != start.turn.id) f.0 in
    record {
      question_turn = !=-sound start.user_message.turn_id start.turn.id g.1;
      answer_turn = !=-sound start.assistant_placeholder.turn_id start.turn.id f.1;
      question_role = role_user start.user_message.role (ground (arith, e.1));
      answer_role = role_assistant start.assistant_placeholder.role d.1;
      answer_status = status_pending start.assistant_placeholder.status (ground (arith, b.1));
      ordered = ground (arith, a.1);
    }

module _ {F : Type 0} (codec : Codec F) where
  insert_message-parts :
      (m : ChatMessage) (t u : Tables)
      → insert_message codec m t ≡ ok u
      → (row : MessageRow) × (message_row codec m ≡ ok row)
        × (record t { messages = t.messages ++ (row ∷ []) } ≡ u)
  unfolding insert_message
  insert_message-parts m t u h =
      let a = >>=-eq-ok (message_row codec m) _ u h in
      let b = fail_if-eq-ok (message_refused codec a.0 t) _ _ u a.2 in (a.0, a.1, cc b.1)

  insert_turn-IsBegun :
      (start : TurnStart) (t u : Tables)
      → IsValidStart start
      → insert_turn codec start t ≡ ok u
      → IsBegun codec start t u
  unfolding insert_turn turn_row turn_refused
  insert_turn-IsBegun start t u v h =
      let a = >>=-eq-ok (turn_row codec start) _ u h in
      let contract =
        >>=-eq-ok
          (or_fail (storage_error "TURN_CONTRACT_ENCODE_FAILED")
            (codec.encode_contract start.turn.response_contract))
          _ a.0 a.1 in
      let sequence = fail_if-eq-ok (ltb i64_max start.turn.sequence) _ _ a.0 contract.2 in
      let own : a.0.id ≡ start.turn.id = cc sequence.1 in
      let conversation : a.0.conversation_id ≡ start.turn.conversation_id = cc sequence.1 in
      let none_yet : a.0.completed_at ≡ none = cc sequence.1 in
      let b = fail_if-eq-ok (turn_refused a.0 t) _ _ u a.2 in
      let c =
        >>=-eq-ok
          (insert_message codec start.user_message (record t { turns = t.turns ++ (a.0 ∷ []) })) _ u
          b.1 in
      let q = insert_message-parts start.user_message _ c.0 c.1 in
      let r = insert_message-parts start.assistant_placeholder c.0 u c.2 in
      let qf = message_row-fields codec start.user_message q.0 q.1 in
      let rf = message_row-fields codec start.assistant_placeholder r.0 r.1 in
      let new : has_turn a.0.id t ≡ false = ground (arith, b.0) in
      let there : has_conversation a.0.conversation_id t ≡ true = ground (arith, b.0) in
      record {
        turn = a.0;
        question = q.0;
        answer = r.0;
        new_turn = subst (λ i. has_turn i t ≡ false) own new;
        in_conversation = subst (λ i. has_conversation i t ≡ true) conversation there;
        turns = sym (ap (λ (x : Tables). x.turns) r.2) ∙ sym (ap (λ (x : Tables). x.turns) q.2);
        messages =
            sym (ap (λ (x : Tables). x.messages) r.2)
            ∙ ap (λ ms. ms ++ (r.0 ∷ [])) (sym (ap (λ (x : Tables). x.messages) q.2))
            ∙ append_assoc t.messages (q.0 ∷ []) (r.0 ∷ []);
        unfinished = (own, none_yet);
        own_turn = (qf.0 ∙ v.question_turn, rf.0 ∙ v.answer_turn);
        ordered = omega (arith, qf.1, rf.1, v.ordered);
        open_answer = (
          question-over q.0 (qf.2 ∙ ap role_text v.question_role),
          answer-open r.0 (rf.2 ∙ ap role_text v.answer_role)
              (rf.3 ∙ ap (λ (s : MessageStatus). (encode_message_status s).0) v.answer_status),
        );
      }

-- The start of a turn adds its row, that is unfinished, and two messages of it in order, the second an
-- open answer, to a conversation that is there, under an id that no turn had; or it fails and leaves
-- every table as it was.
pub begin_turn_begins :
    {F : Type 0} (codec : Codec F) (io : Sqlite) (start : TurnStart) (t u : Tables)
    (r : Result (Unit {0}))
    → begin_turn codec io start t ≡ (u, r)
    → ((r ≡ ok tt) × IsBegun codec start t u) ⊎ ((e : MentatError) × (r ≡ err e) × (u ≡ t))
unfolding begin_turn validate_turn_start
begin_turn_begins codec io start t u (ok done) h =
    let a = checked-eq-ok t u (validate_turn_start start) _ h in
    let body = transaction-eq-ok io _ _ (insert_turn codec start) t u a.1 in
    inl (
      refl,
      insert_turn-IsBegun codec start t u
          (valid_start start (fail_if-tt (turn_start_invalid start) _ a.0)) body,
    )
begin_turn_begins codec io start t u (err e) h = inr (
  e,
  refl,
  checked-eq-err t u e (validate_turn_start start) _
      (transaction-eq-err io _ _ (insert_turn codec start) t u e) h,
)
