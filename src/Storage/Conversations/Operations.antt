-- ===== src/Storage/Conversations/Operations.antt =====
-- crates/mentat-storage/src/conversation.rs: what each operation of a turn leaves as it was.
use code_mentat.Base.{
  Bool, false, not, ◌||◌, Option, [], ◌∷◌, ◌++◌, retain, Text, if_intro, ◌≡◌, refl, sym, ap, subst,
  arith, list_eq, nat_eq, ◌==◌, ◌!=◌,
}
use code_mentat.Core.Error.{Result, ok, storage_error, >>=-eq-ok, fail_if-eq-ok}
use code_mentat.Core.Models.{Uuid, Time}
use code_mentat.Core.Tools.{GroundingTrace, RepositoryToolCallRecord}
use code_mentat.Core.Conversation.{ChatMessage, TurnStart, TurnTerminalUpdate}
use code_mentat.Storage.Receipts.{Sqlite}
use code_mentat.Storage.Conversations.Rows.{
  SourceRow, has_conversation, Tables, Codec, update_where, count_where, has_turn, or_fail,
}
use code_mentat.Storage.Conversations.Messages.{
  message_row, message_refused, insert_message, takes_delta, with_delta, append_assistant_delta,
}
use code_mentat.Storage.Conversations.Turns.{
  validate_turn_start, turn_row, turn_refused, insert_turn, begin_turn, is_answer, is_unfinished,
  TerminalValues, answered, finished, close_turn, apply_terminal_update,
}
use code_mentat.Storage.Conversations.Grounding.{
  validate_trace_database_binding, write_grounding_trace, ground_turn, insert_calls, insert_sources,
  put_trace,
}
use code_mentat.Storage.Conversations.Moves.{
  Moves, Moves-same, Moves-trans, Moves-messages, Moves-turns, Moves-new_message, Moves-new_turn,
  transaction-Moves, checked-Moves,
}
use code_mentat.Storage.Conversations.Closing.{
  finished_id, finished-over, close_turn-eq-ok, apply_terminal_update-Closes,
}

pub append-Moves :
    (io : Sqlite) (now : Time) (id : Uuid) (delta : Text) (t : Tables)
    → Moves t (append_assistant_delta io now id delta t).0
unfolding append_assistant_delta takes_delta
append-Moves io now id delta t =
    let to = λ (r : Tables × Result (Unit {0})). Moves t r.0 in
    let written =
      Moves-messages t (takes_delta id) (with_delta now delta) (λ i y. refl)
        (λ y h. ground (arith, h)) in
    if_intro to io.lock_poisoned _ _ (λ e. Moves-same t t refl refl)
      (λ e.
        if_intro to (count_where (takes_delta id) t.messages != 1) _ _ (λ k. written)
          (λ k. written))

insert_message-Moves :
    {F : Type 0} (codec : Codec F) (message : ChatMessage) (t u : Tables)
    → insert_message codec message t ≡ ok u
    → Moves t u
unfolding insert_message
insert_message-Moves codec message t u h =
    let a = >>=-eq-ok (message_row codec message) _ u h in
    let b = fail_if-eq-ok (message_refused codec a.0 t) _ _ u a.2 in
    let same : record t { messages = t.messages ++ (a.0 ∷ []) } ≡ u = cc b.1 in
    subst (Moves t) same (Moves-new_message t a.0)

pub insert_turn-Moves :
    {F : Type 0} (codec : Codec F) (start : TurnStart) (t u : Tables)
    → insert_turn codec start t ≡ ok u
    → Moves t u
unfolding insert_turn turn_refused
insert_turn-Moves codec start t u h =
    let a = >>=-eq-ok (turn_row codec start) _ u h in
    let b = fail_if-eq-ok (turn_refused a.0 t) _ _ u a.2 in
    let c =
      >>=-eq-ok
        (insert_message codec start.user_message (record t { turns = t.turns ++ (a.0 ∷ []) })) _ u
        b.1 in
    let new : has_turn a.0.id t ≡ false = ground (arith, b.0) in
    Moves-trans t _ u
      (Moves-trans t _ c.0 (Moves-new_turn t a.0 new)
        (insert_message-Moves codec start.user_message _ c.0 c.1))
      (insert_message-Moves codec start.assistant_placeholder c.0 u c.2)

pub begin_turn-Moves :
    {F : Type 0} (codec : Codec F) (io : Sqlite) (start : TurnStart) (t : Tables)
    → Moves t (begin_turn codec io start t).0
unfolding begin_turn
begin_turn-Moves codec io start t =
    checked-Moves t (validate_turn_start start) _
      (transaction-Moves io _ _ (insert_turn codec start) t (insert_turn-Moves codec start t))

close_turn-Moves :
    (v : TerminalValues) (result_id : Option Uuid) (t u : Tables)
    → close_turn v result_id t ≡ ok u
    → Moves t u
unfolding is_answer
close_turn-Moves v result_id t u h =
    let middle : Tables = record t {
      messages = update_where (is_answer v.turn_id v.message_id) (answered v) t.messages;
    } in
    subst (Moves t) (close_turn-eq-ok v result_id t u h).1 (
      Moves-trans t middle _
        (Moves-messages t (is_answer v.turn_id v.message_id) (answered v) (λ i y. refl)
          (λ y k. ground (arith, k)))
        (Moves-turns middle (is_unfinished v.turn_id) (finished v result_id)
          (λ i y. ap (λ x. x == i) (finished_id v result_id y))
          (λ i y k. finished-over v result_id i y)))

module _ {F : Type 0} (codec : Codec F) where
  pub apply_terminal_update-Moves :
      (result_id : Uuid) (update : TurnTerminalUpdate F) (t u : Tables)
      → apply_terminal_update codec result_id update t ≡ ok u
      → Moves t u
  apply_terminal_update-Moves result_id update t u h =
      let c = apply_terminal_update-Closes codec result_id update t u h in
      Moves-trans t c.middle u (Moves-same t c.middle (sym c.same_messages) (sym c.same_turns))
        (close_turn-Moves c.values c.result_id c.middle u c.closes)

  pub write_grounding_trace-Moves :
      (now : Time) (trace : GroundingTrace) (t u : Tables)
      → write_grounding_trace codec now trace t ≡ ok u
      → Moves t u
  unfolding write_grounding_trace
  write_grounding_trace-Moves now trace t u h =
      let a =
        >>=-eq-ok
          (or_fail (storage_error "GROUNDING_FRESHNESS_ENCODE_FAILED")
            (codec.encode_freshness trace.freshness))
          _ u h in
      let b =
        fail_if-eq-ok
          (not (has_conversation trace.conversation_id t) || not (has_turn trace.turn_id t)) _ _ u
          a.2 in
      let c =
        >>=-eq-ok
          (insert_calls trace.id trace.tool_calls
            (retain (λ (row : RepositoryToolCallRecord). row.trace_id != trace.id) t.tool_calls))
          _ u b.1 in
      let d =
        >>=-eq-ok
          (insert_sources trace.id 0 trace.source_refs
            (retain (λ (row : SourceRow). row.trace_id != trace.id) t.sources))
          _ u c.2 in
      let made : record t {
        traces = put_trace now trace a.0 t.traces;
        tool_calls = c.0;
        sources = d.0;
      }
          ≡ u =
        cc d.2 in
      subst (Moves t) made (Moves-same t _ refl refl)

  pub ground_turn-Moves :
      (now : Time) (result_id : Uuid) (kill : Bool) (trace : GroundingTrace)
      (update : TurnTerminalUpdate F) (t u : Tables)
      → ground_turn codec now result_id kill trace update t ≡ ok u
      → Moves t u
  unfolding ground_turn write_grounding_trace
  ground_turn-Moves now result_id kill trace update t u h =
      let a = >>=-eq-ok (validate_trace_database_binding trace t) _ u h in
      let b = >>=-eq-ok (write_grounding_trace codec now trace t) _ u a.2 in
      let c = >>=-eq-ok (apply_terminal_update codec result_id update b.0) _ u b.2 in
      let d = fail_if-eq-ok kill _ _ u c.2 in
      let same : c.0 ≡ u = cc d.1 in
      Moves-trans t b.0 u (write_grounding_trace-Moves now trace t b.0 b.1)
        (subst (Moves b.0) same (apply_terminal_update-Moves result_id update b.0 c.0 c.1))
