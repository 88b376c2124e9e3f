-- ===== src/Storage/Conversations/Finishing.antt =====
-- crates/mentat-storage/src/conversation.rs: a turn finishes once.
use code_mentat.Storage.Conversations.Turns.{
  checked, is_answer, is_unfinished, TerminalValues, answered, finished, terminal_conflict, closed,
  apply_terminal_update, finish_turn,
}
use code_mentat.Storage.Conversations.Operations.{write_grounding_trace-Moves}
use code_mentat.Base.{
  Bool, true, false, not, ◌&&◌, Option, none, some, List, [], ◌∷◌, any, ◌≡◌, refl, sym, ap, subst,
  ◌∙◌, ◌⊎◌, inl, inr, or-split, and-split, ==-sound, !=-sound, option_eq, arith, list_eq, nat_eq,
  ◌==◌, ◌!=◌,
}
use code_mentat.Core.Error.{MentatError, Result, ok, err, >>=-eq-ok, fail_if-eq-ok, fail_if-tt}
use code_mentat.Core.Models.{Uuid, Time}
use code_mentat.Core.Tools.{GroundingTrace}
use code_mentat.Core.Conversation.{
  TurnTerminalUpdate, advisor_completed, audit_completed, advisor_cancelled, audit_cancelled,
  update_failed,
}
use code_mentat.Storage.Receipts.{Sqlite}
use code_mentat.Storage.Conversations.Rows.{
  TurnRow, MessageRow, Tables, Codec, count_where, find_turn,
}
use code_mentat.Storage.Conversations.Updates.{count_where-update_where_all, any-update_where}
use code_mentat.Storage.Conversations.Messages.{is_open}
use code_mentat.Storage.Conversations.Grounding.{
  is_bound, validate_grounding_terminal_binding, or_unread, validate_trace_database_binding,
  write_grounding_trace, ground_turn, finish_turn_with_grounding_internal,
}
use code_mentat.Storage.Conversations.Moves.{
  IsFinished, transaction-eq-ok, transaction-eq-err, transaction_refused, checked-eq-ok,
  checked-eq-err,
}
use code_mentat.Storage.Conversations.Closing.{
  finished_id, finished-over, close_turn-eq-ok, turn_of, message_of, NoRaw,
  apply_terminal_update-Closes,
}
use code_mentat.Storage.Conversations.History.{Steps, Steps-Moves}

-- No message is left that a terminal update of the turn and the message would take.
abbrev pub Answered : Uuid → Uuid → Tables → Type 0
Answered turn_id message_id t = count_where (is_answer turn_id message_id) t.messages ≡ 0

count-has_turn :
    (id : Uuid) (rows : List TurnRow)
    → count_where (is_unfinished id) rows ≡ 1
    → any (λ (row : TurnRow). row.id == id) rows ≡ true
unfolding count_where any is_unfinished
count-has_turn id [] h = ground (arith, h)
count-has_turn id (row ∷ rows) h = ground (arith, h, count-has_turn id rows)

answered-over :
    (v : TerminalValues) (row : MessageRow)
    → is_open v.status ≡ false
    → is_answer v.turn_id v.message_id (answered v row) ≡ false
unfolding is_answer
answered-over v row h = ground (arith, h)

closed-IsFinished :
    (v : TerminalValues) (result_id : Option Uuid) (t : Tables)
    → terminal_conflict v t ≡ false
    → IsFinished v.turn_id (closed v result_id t)
closed-IsFinished v result_id t h =
    let one : count_where (is_unfinished v.turn_id) t.turns ≡ 1 = ground (arith, h) in
    record {
      there =
          any-update_where (λ (r : TurnRow). r.id == v.turn_id) (is_unfinished v.turn_id)
            (finished v result_id) t.turns
            (λ y. ap (λ x. x == v.turn_id) (finished_id v result_id y))
          ∙ count-has_turn v.turn_id t.turns one;
      over =
          count_where-update_where_all (is_unfinished v.turn_id) (finished v result_id) t.turns
            (λ y. finished-over v result_id v.turn_id y);
    }

-- The turn of an update that succeeds is finished, and its message is answered.
pub record IsClosed (turn_id message_id : Uuid) (t : Tables) : Type 0 where
  pub finished : IsFinished turn_id t
  pub answered : Answered turn_id message_id t

module _ {F : Type 0} (codec : Codec F) where
  pub apply_terminal_update-IsClosed :
      (result_id : Uuid) (update : TurnTerminalUpdate F) (t u : Tables)
      → apply_terminal_update codec result_id update t ≡ ok u
      → IsClosed (turn_of update) (message_of update) u
  apply_terminal_update-IsClosed result_id update t u h =
      let c = apply_terminal_update-Closes codec result_id update t u h in
      let p = close_turn-eq-ok c.values c.result_id c.middle u c.closes in
      let own : IsClosed c.values.turn_id c.values.message_id
          (closed c.values c.result_id c.middle) =
        record {
          finished = closed-IsFinished c.values c.result_id c.middle p.0;
          answered =
              count_where-update_where_all (is_answer c.values.turn_id c.values.message_id)
                (answered c.values) c.middle.messages (λ y. answered-over c.values y c.names.over);
        } in
      subst (IsClosed (turn_of update) (message_of update)) p.1 (
        subst (λ m. IsClosed (turn_of update) m (closed c.values c.result_id c.middle))
          c.names.message
          (subst (λ i. IsClosed i c.values.message_id (closed c.values c.result_id c.middle))
            c.names.turn own))

  -- A turn that is finished refuses every update.
  refused :
      (result_id : Uuid) (update : TurnTerminalUpdate F) (t u : Tables)
      → IsFinished (turn_of update) t
      → apply_terminal_update codec result_id update t ≡ ok u
      → ⊥
  refused result_id update t u f h =
      let c = apply_terminal_update-Closes codec result_id update t u h in
      let p = close_turn-eq-ok c.values c.result_id c.middle u c.closes in
      let one : count_where (is_unfinished c.values.turn_id) c.middle.turns ≡ 1 =
        ground (arith, p.0) in
      let moved : count_where (is_unfinished (turn_of update)) t.turns ≡ 1 =
        subst (λ i. count_where (is_unfinished i) t.turns ≡ 1) c.names.turn
          (subst (λ rows. count_where (is_unfinished c.values.turn_id) rows ≡ 1) c.same_turns
            one) in
      absurd (ground (arith, moved, f.over))

-- What a terminal update with a trace that succeeds has checked and done.
pub record IsGrounded {F : Type 0} (trace : GroundingTrace) (update : TurnTerminalUpdate F)
    (t u : Tables) : Type 0 where
  pub turn : TurnRow
  pub found : find_turn trace.turn_id t ≡ some turn
  pub same_conversation : turn.conversation_id ≡ trace.conversation_id
  pub same_snapshot : turn.snapshot_id ≡ trace.snapshot_id
  pub own_turn : turn_of update ≡ trace.turn_id
  pub no_raw : NoRaw update
  pub closes : IsClosed trace.turn_id (message_of update) u

is_bound-turn :
    {F : Type 0} (trace : GroundingTrace) (update : TurnTerminalUpdate F)
    → is_bound trace update ≡ true
    → turn_of update ≡ trace.turn_id
unfolding is_bound
is_bound-turn trace
      (advisor_completed turn_id message_id markdown (some trace_id) (some freshness) at) h =
    let a = and-split (turn_id == trace.turn_id && trace_id == trace.id) _ h in
    ==-sound turn_id trace.turn_id (and-split (turn_id == trace.turn_id) _ a.0).0
is_bound-turn trace (advisor_completed turn_id message_id markdown (some trace_id) none at) h = cc h
is_bound-turn trace (advisor_completed turn_id message_id markdown none freshness at) h = cc h
is_bound-turn trace (audit_completed turn_id message_id bundle trace_id freshness at) h =
    let a = and-split _ (trace.snapshot_id == some bundle.snapshot_id) h in
    let b = and-split (turn_id == trace.turn_id && trace_id == trace.id) _ a.0 in
    ==-sound turn_id trace.turn_id (and-split (turn_id == trace.turn_id) _ b.0).0
is_bound-turn trace (advisor_cancelled turn_id message_id partial at) h = cc h
is_bound-turn trace (audit_cancelled turn_id message_id at) h = cc h
is_bound-turn trace (update_failed turn_id message_id error_code safe_message at) h = cc h

or_unread-eq-ok : (o : Option TurnRow) (row : TurnRow) → or_unread o ≡ ok row → o ≡ some row
or_unread-eq-ok none row h = cc h
or_unread-eq-ok (some r) row h = cc h

module _ {F : Type 0} (codec : Codec F) where
  ground_turn-IsGrounded :
      (now : Time) (result_id : Uuid) (kill : Bool) (trace : GroundingTrace)
      (update : TurnTerminalUpdate F) (t u : Tables)
      → validate_grounding_terminal_binding trace update ≡ ok tt
      → ground_turn codec now result_id kill trace update t ≡ ok u
      → IsGrounded trace update t u
  unfolding ground_turn validate_trace_database_binding validate_grounding_terminal_binding
  ground_turn-IsGrounded now result_id kill trace update t u valid h =
      let a = >>=-eq-ok (validate_trace_database_binding trace t) _ u h in
      let b = >>=-eq-ok (write_grounding_trace codec now trace t) _ u a.2 in
      let c = >>=-eq-ok (apply_terminal_update codec result_id update b.0) _ u b.2 in
      let d = fail_if-eq-ok kill _ _ u c.2 in
      let same : c.0 ≡ u = cc d.1 in
      let r = >>=-eq-ok (or_unread (find_turn trace.turn_id t)) _ a.0 a.1 in
      let s =
        or-split (r.0.conversation_id != trace.conversation_id)
          (r.0.snapshot_id != trace.snapshot_id) (fail_if-tt _ _ r.2) in
      let own =
        is_bound-turn trace update
          (ground (arith, fail_if-tt (not (is_bound trace update)) _ valid)) in
      record {
        turn = r.0;
        found = or_unread-eq-ok (find_turn trace.turn_id t) r.0 r.1;
        same_conversation = !=-sound r.0.conversation_id trace.conversation_id s.0;
        same_snapshot = !=-sound r.0.snapshot_id trace.snapshot_id s.1;
        own_turn = own;
        no_raw = (apply_terminal_update-Closes codec result_id update b.0 c.0 c.1).no_raw;
        closes =
            subst (λ i. IsClosed i (message_of update) u) own
              (subst (IsClosed (turn_of update) (message_of update)) same
                (apply_terminal_update-IsClosed codec result_id update b.0 c.0 c.1));
      }

-- A terminal update with a trace that succeeds was made for the turn of the trace, whose conversation
-- and snapshot are the trace's in the database too, stores no raw answer of the model, and leaves the
-- turn finished and its message answered. One that fails leaves every table as it was.
pub finish_turn_with_grounding_bound :
    {F : Type 0} (codec : Codec F) (io : Sqlite) (now : Time) (result_id : Uuid) (kill : Bool)
    (trace : GroundingTrace) (update : TurnTerminalUpdate F) (t u : Tables) (r : Result (Unit {0}))
    → finish_turn_with_grounding_internal codec io now result_id kill trace update t ≡ (u, r)
    → ((r ≡ ok tt) × IsGrounded trace update t u) ⊎ ((e : MentatError) × (r ≡ err e) × (u ≡ t))
unfolding finish_turn_with_grounding_internal
finish_turn_with_grounding_bound codec io now result_id kill trace update t u (ok done) h =
    let a = checked-eq-ok t u (validate_grounding_terminal_binding trace update) _ h in
    let body =
      transaction-eq-ok io _ _ (ground_turn codec now result_id kill trace update) t u a.1 in
    inl (refl, ground_turn-IsGrounded codec now result_id kill trace update t u a.0 body)
finish_turn_with_grounding_bound codec io now result_id kill trace update t u (err e) h = inr (
  e,
  refl,
  checked-eq-err t u e (validate_grounding_terminal_binding trace update) _
      (transaction-eq-err io _ _ (ground_turn codec now result_id kill trace update) t u e) h,
)

-- A terminal update that succeeds, without or with a trace.
pub data Ended {F : Type 0} (codec : Codec F) (update : TurnTerminalUpdate F) (t u : Tables)
    : Type 0 where
  alone :
      (io : Sqlite) (result_id : Uuid)
      → finish_turn codec io result_id update t ≡ (u, ok tt)
      → Ended codec update t u
  with_trace :
      (io : Sqlite) (now : Time) (result_id : Uuid) (kill : Bool) (trace : GroundingTrace)
      → finish_turn_with_grounding_internal codec io now result_id kill trace update t ≡ (u, ok tt)
      → Ended codec update t u

module _ {F : Type 0} (codec : Codec F) where
  Ended-IsFinished :
      (update : TurnTerminalUpdate F) (t u : Tables)
      → Ended codec update t u
      → IsFinished (turn_of update) u
  unfolding finish_turn finish_turn_with_grounding_internal
  Ended-IsFinished update t u (alone io result_id h) =
      let first = transaction-eq-ok io _ _ (apply_terminal_update codec result_id update) t u h in
      (apply_terminal_update-IsClosed codec result_id update t u first).finished
  Ended-IsFinished update t u (with_trace io now result_id kill trace h) =
      let a = checked-eq-ok t u (validate_grounding_terminal_binding trace update) _ h in
      let body =
        transaction-eq-ok io _ _ (ground_turn codec now result_id kill trace update) t u a.1 in
      let g = ground_turn-IsGrounded codec now result_id kill trace update t u a.0 body in
      subst (λ i. IsFinished i u) (sym g.own_turn) g.closes.finished

  -- The trace leaves the turns.
  ground_refused :
      (now : Time) (result_id : Uuid) (kill : Bool) (trace : GroundingTrace)
      (update : TurnTerminalUpdate F) (t u : Tables)
      → IsFinished (turn_of update) t
      → ground_turn codec now result_id kill trace update t ≡ ok u
      → ⊥
  unfolding ground_turn
  ground_refused now result_id kill trace update t u f h =
      let a = >>=-eq-ok (validate_trace_database_binding trace t) _ u h in
      let b = >>=-eq-ok (write_grounding_trace codec now trace t) _ u a.2 in
      let c = >>=-eq-ok (apply_terminal_update codec result_id update b.0) _ u b.2 in
      let m = write_grounding_trace-Moves codec now trace t b.0 b.1 in
      refused codec result_id update b.0 c.0
        (record {
          there = m.turns_kept (turn_of update) f.there;
          over = m.finished_kept (turn_of update) f;
        })
        c.1

  checked_refused :
      (v : Tables) (r : Result (Unit {0})) (rest : Tables × Result (Unit {0}))
      → ((e : MentatError) × (rest ≡ (v, err e)))
      → (e : MentatError) × (checked v r rest ≡ (v, err e))
  checked_refused v (ok done) rest h = h
  checked_refused v (err e) rest h = (e, refl)

-- A turn finishes once: after a terminal update that succeeds, without or with a trace, and whatever
-- operations on conversations, turns, messages, traces, consents and receipts follow but the deletion
-- of a conversation, every further terminal update of that turn, without and with a trace, fails and
-- changes nothing.
pub finish_turn_once :
    {F : Type 0} (codec : Codec F) (update later : TurnTerminalUpdate F) (t u v : Tables)
    (other : Sqlite) (now : Time) (other_id : Uuid) (kill : Bool) (trace : GroundingTrace)
    → Ended codec update t u
    → Steps codec u v
    → turn_of later ≡ turn_of update
    → ((e : MentatError) × (finish_turn codec other other_id later v ≡ (v, err e)))
      × ((e : MentatError) × (finish_turn_with_grounding_internal codec other now other_id kill
              trace later v
            ≡ (v, err e)))
unfolding finish_turn finish_turn_with_grounding_internal
finish_turn_once codec update later t u v other now other_id kill trace ended steps same =
    let done = Ended-IsFinished codec update t u ended in
    let m = Steps-Moves codec u v steps in
    let over : IsFinished (turn_of update) v = record {
      there = m.turns_kept (turn_of update) done.there;
      over = m.finished_kept (turn_of update) done;
    } in
    let over_later = subst (λ i. IsFinished i v) (sym same) over in
    (
      transaction_refused other _ _ (apply_terminal_update codec other_id later) v
          (λ w k. refused codec other_id later v w over_later k),
      checked_refused codec v (validate_grounding_terminal_binding trace later) _ (
          transaction_refused other _ _ (ground_turn codec now other_id kill trace later) v
            (λ w k. ground_refused codec now other_id kill trace later v w over_later k)),
    )
