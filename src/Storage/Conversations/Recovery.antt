-- ===== src/Storage/Conversations/Recovery.antt =====
-- crates/mentat-storage/src/db.rs: the turns that a process left open are failed at the next start.
use code_mentat.Base.{
  true, false, not, ◌&&◌, some, List, [], ◌∷◌, any, All, list_beq, option_beq, ◌≡◌, refl, sym,
  subst, inl, inr, Bool-cases, and-split, ==-sound, arith, list_eq, nat_eq, option_eq, ◌==◌,
}
use code_mentat.Core.Models.{Uuid, Time}
use code_mentat.Storage.Conversations.Rows.{TurnRow, MessageRow, Tables, update_where, count_where}
use code_mentat.Storage.Conversations.Updates.{All-update_where, All-count_where}
use code_mentat.Storage.Conversations.Messages.{is_given, is_open, is_assistant}
use code_mentat.Storage.Conversations.Turns.{is_unfinished}
use code_mentat.Storage.Conversations.Deletion.{
  is_left_open, failed_by_restart, was_interrupted, recover_turns,
}

failed-over : (now : Time) (row : MessageRow) → is_left_open (failed_by_restart now row) ≡ false
unfolding is_open list_beq
failed-over now row = ground arith

failed-was_interrupted :
    (now : Time) (id : Uuid) (row : MessageRow)
    → row.turn_id == id ≡ true
    → is_left_open row ≡ true
    → was_interrupted id (failed_by_restart now row) ≡ true
unfolding list_beq option_beq
failed-was_interrupted now id row h k =
    let assistant_row = and-split (is_assistant row) (is_open row.status) k in
    rw (h, assistant_row.0) refl

-- A turn with a message that was left open has an interrupted message.
left_open-was_interrupted :
    (now : Time) (id : Uuid) (rows : List MessageRow)
    → any (λ (m : MessageRow). m.turn_id == id && is_left_open m) rows ≡ true
    → any (was_interrupted id) (update_where is_left_open (failed_by_restart now) rows) ≡ true
unfolding any update_where
left_open-was_interrupted now id [] h = cc
left_open-was_interrupted now id (row ∷ rows) h =
    elim (Bool-cases (row.turn_id == id && is_left_open row)) [
      | inl e ↦
          let both = and-split (row.turn_id == id) (is_left_open row) e in
          let own = failed-was_interrupted now id row both.0 both.1 in rw (both.1, own) refl
      | inr e ↦
          let rest = left_open-was_interrupted now id rows (ground (arith, h, e)) in
          ground (arith, rest)
    ]

recovered-over :
    (now : Time) (id : Uuid) (messages : List MessageRow) (rows : List TurnRow)
    → any (was_interrupted id) messages ≡ true
    → All
        (λ (row : TurnRow). is_unfinished id row ≡ false)
        (update_where
          (λ (row : TurnRow).
            not (is_given row.completed_at) && any (was_interrupted row.id) messages)
          (λ (row : TurnRow). record row { completed_at = some now })
          rows)
unfolding is_unfinished
recovered-over now id messages rows h =
    All-update_where (λ (row : TurnRow). is_unfinished id row ≡ false) _ _ rows
      (λ row e. ground arith) (λ row e. passed_over row e)
  where
    passed_over :
        (row : TurnRow)
        → (not (is_given row.completed_at) && any (was_interrupted row.id) messages) ≡ false
        → (row.id == id && not (is_given row.completed_at)) ≡ false
    passed_over row e = elim (Bool-cases (row.id == id)) [
      | inl s ↦
          let own : any (was_interrupted row.id) messages ≡ true =
            subst (λ i. any (was_interrupted i) messages ≡ true) (sym (==-sound row.id id s)) h in
          ground (arith, e, own)
      | inr s ↦ ground (arith, s)
    ]

-- After the recovery no message of an assistant is open, and every turn that had one is finished.
pub recover_turns_closed :
    (now : Time) (t : Tables)
    → All (λ (row : MessageRow). is_left_open row ≡ false) (recover_turns now t).messages
      × ((id : Uuid)
          → any (λ (m : MessageRow). m.turn_id == id && is_left_open m) t.messages ≡ true
          → count_where (is_unfinished id) (recover_turns now t).turns ≡ 0)
unfolding recover_turns
recover_turns_closed now t = (
  All-update_where (λ (row : MessageRow). is_left_open row ≡ false) is_left_open
      (failed_by_restart now) t.messages (λ row e. failed-over now row) (λ row e. e),
  λ id h.
      All-count_where (is_unfinished id) _
        (recovered-over now id _ t.turns (left_open-was_interrupted now id t.messages h)),
)
