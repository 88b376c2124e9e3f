-- ===== src/Storage/Conversations/History.antt =====
-- crates/mentat-storage/src/conversation.rs: histories of operations on the conversations that are
-- there, from the start of a process to the recovery at its next start.
use code_mentat.Base.{
  List, subst, Bool, false, not, ◌&&◌, ◌||◌, some, any, Text, if_intro, ◌≡◌, refl, arith, list_eq,
  nat_eq, option_eq, ◌==◌, ◌!=◌,
}
use code_mentat.Core.Error.{err, ok, storage_error, Result}
use code_mentat.Core.Tools.{changed_after_send, GroundingTrace}
use code_mentat.Core.Egress.{RepositoryConsentScope}
use code_mentat.Storage.Receipts.{StoredReceipt, Sqlite, recover_receipts}
use code_mentat.Storage.Conversations.Rows.{
  or_fail, ConversationRow, TurnRow, MessageRow, Tables, Codec, update_where, count_where,
  has_conversation, find_message,
}
use code_mentat.Storage.Conversations.Updates.{find-update_where}
use code_mentat.Storage.Conversations.Grounding.{
  write_grounding_trace, validate_grounding_terminal_binding, ground_turn,
  finish_turn_with_grounding_internal,
}
use code_mentat.Storage.Conversations.Operations.{
  write_grounding_trace-Moves, append-Moves, begin_turn-Moves, apply_terminal_update-Moves,
  ground_turn-Moves,
}
use code_mentat.Storage.Conversations.Moves.{
  KeepsRow, Moves, Moves-same, Moves-trans, Moves-messages, Moves-turns, transaction-Moves,
  checked-Moves,
}
use code_mentat.Storage.Conversations.Snapshots.{
  is_traced, with_freshness, marked, mark_with, mark_snapshot_changed, prepare_grounding_trace,
}
use code_mentat.Core.Models.{Uuid, Time}
use code_mentat.Core.Conversation.{Conversation, NewConversation, TurnStart, TurnTerminalUpdate}
use code_mentat.Storage.Conversations.Messages.{is_given, append_assistant_delta}
use code_mentat.Storage.Conversations.Turns.{
  begin_turn, is_unfinished, apply_terminal_update, finish_turn,
}
use code_mentat.Storage.Conversations.Deletion.{
  is_ephemeral, create_conversation, bind_conversation_repository, is_left_open, failed_by_restart,
  was_interrupted, recover_turns,
}

-- One operation, but the deletion of a conversation.
-- One operation. What the operations on consents and receipts make of their tables is free.
pub data Step {F : Type 0} (codec : Codec F) : Tables → Tables → Type 0 where
  created :
      (io : Sqlite) (id : Uuid) (now : Time) (draft : NewConversation) (t : Tables)
      → Step codec t (create_conversation io id now draft t).0
  bound :
      (io : Sqlite) (now : Time) (id repository_id snapshot_id : Uuid) (t : Tables)
      → Step codec t (bind_conversation_repository io now id repository_id snapshot_id t).0
  begun :
      (io : Sqlite) (start : TurnStart) (t : Tables) → Step codec t (begin_turn codec io start t).0
  appended :
      (io : Sqlite) (now : Time) (id : Uuid) (delta : Text) (t : Tables)
      → Step codec t (append_assistant_delta io now id delta t).0
  ended :
      (io : Sqlite) (result_id : Uuid) (update : TurnTerminalUpdate F) (t : Tables)
      → Step codec t (finish_turn codec io result_id update t).0
  grounded :
      (io : Sqlite) (now : Time) (result_id : Uuid) (kill : Bool) (trace : GroundingTrace)
      (update : TurnTerminalUpdate F) (t : Tables)
      → Step codec t
          (finish_turn_with_grounding_internal codec io now result_id kill trace update t).0
  traced :
      (io : Sqlite) (now : Time) (trace : GroundingTrace) (t : Tables)
      → Step codec t (prepare_grounding_trace codec io now trace t).0
  changed :
      (io : Sqlite) (now : Time) (snapshot_id : Uuid) (t : Tables)
      → Step codec t (mark_snapshot_changed codec io now snapshot_id t).0
  consented :
      (scopes : List RepositoryConsentScope) (receipts : List StoredReceipt) (t : Tables)
      → Step codec t (record t { scopes = scopes; receipts = receipts })
  recovered : (now : Time) (t : Tables) → Step codec t (recover_turns now t)

pub data Steps {F : Type 0} (codec : Codec F) : Tables → Tables → Type 0 where
  done : (t : Tables) → Steps codec t t
  more : {t u v : Tables} → Step codec t u → Steps codec u v → Steps codec t v

create-Moves :
    (io : Sqlite) (id : Uuid) (now : Time) (draft : NewConversation) (t : Tables)
    → Moves t (create_conversation io id now draft t).0
unfolding create_conversation
create-Moves io id now draft t =
    let to = λ (r : Tables × Result Conversation). Moves t r.0 in
    if_intro to (is_ephemeral draft.persistence) _ _ (λ e. Moves-same t t refl refl)
      (λ e.
        if_intro to io.lock_poisoned _ _ (λ f. Moves-same t t refl refl)
          (λ f.
            if_intro to
              (has_conversation id t
                || not (any (λ profile. profile == draft.prompt_profile_id) t.prompt_profiles))
              _ _ (λ g. Moves-same t t refl refl) (λ g. Moves-same t _ refl refl)))

bind-Moves :
    (io : Sqlite) (now : Time) (id repository_id snapshot_id : Uuid) (t : Tables)
    → Moves t (bind_conversation_repository io now id repository_id snapshot_id t).0
unfolding bind_conversation_repository
bind-Moves io now id repository_id snapshot_id t =
    let to = λ (r : Tables × Result (Unit {0})). Moves t r.0 in
    if_intro to io.lock_poisoned _ _ (λ e. Moves-same t t refl refl)
      (λ e.
        if_intro to (count_where (λ (row : ConversationRow). row.id == id) t.conversations != 1) _ _
          (λ f. Moves-same t _ refl refl) (λ f. Moves-same t _ refl refl))

grounding-Moves :
    {F : Type 0} (codec : Codec F) (io : Sqlite) (now : Time) (result_id : Uuid) (kill : Bool)
    (trace : GroundingTrace) (update : TurnTerminalUpdate F) (t : Tables)
    → Moves t (finish_turn_with_grounding_internal codec io now result_id kill trace update t).0
unfolding finish_turn_with_grounding_internal
grounding-Moves codec io now result_id kill trace update t =
    checked-Moves t (validate_grounding_terminal_binding trace update) _ (
      transaction-Moves io _ _ (ground_turn codec now result_id kill trace update) t
        (ground_turn-Moves codec now result_id kill trace update t))

given-over :
    (now i : Uuid) (y : TurnRow)
    → is_unfinished i y ≡ false
    → is_unfinished i (record y { completed_at = some now }) ≡ false
unfolding is_unfinished
given-over now i y h = ground arith

recover-Moves : (now : Time) (t : Tables) → Moves t (recover_turns now t)
unfolding recover_turns
recover-Moves now t =
    let middle : Tables = record t {
      receipts = recover_receipts now t.receipts;
      messages = update_where is_left_open (failed_by_restart now) t.messages;
    } in
    Moves-trans t middle _
      (Moves-trans t _ middle
        (Moves-same t (record t { receipts = recover_receipts now t.receipts }) refl refl)
        (Moves-messages (record t { receipts = recover_receipts now t.receipts }) is_left_open
          (failed_by_restart now) (λ i y. refl) (λ y h. h)))
      (Moves-turns middle
        (λ (row : TurnRow).
          not (is_given row.completed_at) && any (was_interrupted row.id) middle.messages)
        (λ (row : TurnRow). record row { completed_at = some now }) (λ i y. refl)
        (λ i y h. given-over now i y h))

-- A mark changes the freshness of messages, and no turn.
marked-Moves :
    (snapshot_id : Uuid) (freshness : Text) (t : Tables) → Moves t (marked snapshot_id freshness t)
marked-Moves snapshot_id freshness t = record {
  messages_kept = λ id row h k.
      let found =
        find-update_where (λ (r : MessageRow). r.id == id)
          (λ (r : MessageRow). is_traced snapshot_id t r.grounding_trace_id)
          (with_freshness freshness) row t.messages (λ y. refl) h in
      if_intro
        (λ (m : MessageRow).
          find_message id (marked snapshot_id freshness t) ≡ some m
          → KeepsRow id row (marked snapshot_id freshness t))
        (is_traced snapshot_id t row.grounding_trace_id) _ _ (λ e there. (some freshness, there))
        (λ e there. (row.grounding_freshness, there)) found;
  turns_kept = λ id h. h;
  finished_kept = λ id h. h.over;
}

mark_with-Moves :
    {F : Type 0} (codec : Codec F) (io : Sqlite) (snapshot_id : Uuid) (t : Tables)
    (freshness : Result Text)
    → Moves t (mark_with codec io snapshot_id t freshness).0
mark_with-Moves codec io snapshot_id t (err e) = Moves-same t t refl refl
mark_with-Moves codec io snapshot_id t (ok freshness) =
    transaction-Moves io _ _ (λ u. ok (marked snapshot_id freshness u)) t
      (λ u h.
        let same : marked snapshot_id freshness t ≡ u = cc h in
        subst (Moves t) same (marked-Moves snapshot_id freshness t))

Step-Moves : {F : Type 0} (codec : Codec F) (t u : Tables) → Step codec t u → Moves t u
unfolding finish_turn prepare_grounding_trace mark_snapshot_changed
Step-Moves codec t u (created io id now draft _) = create-Moves io id now draft t
Step-Moves codec t u (bound io now id repository_id snapshot_id _) =
    bind-Moves io now id repository_id snapshot_id t
Step-Moves codec t u (begun io start _) = begin_turn-Moves codec io start t
Step-Moves codec t u (appended io now id delta _) = append-Moves io now id delta t
Step-Moves codec t u (ended io result_id update _) =
    transaction-Moves io _ _ (apply_terminal_update codec result_id update) t
      (apply_terminal_update-Moves codec result_id update t)
Step-Moves codec t u (grounded io now result_id kill trace update _) =
    grounding-Moves codec io now result_id kill trace update t
Step-Moves codec t u (traced io now trace _) =
    transaction-Moves io _ _ (write_grounding_trace codec now trace) t
      (write_grounding_trace-Moves codec now trace t)
Step-Moves codec t u (changed io now snapshot_id _) =
    mark_with-Moves codec io snapshot_id t
      (or_fail (storage_error "FRESHNESS_ENCODE") (codec.encode_freshness (changed_after_send now)))
Step-Moves codec t u (consented scopes receipts _) = Moves-same t _ refl refl
Step-Moves codec t u (recovered now _) = recover-Moves now t

pub Steps-Moves : {F : Type 0} (codec : Codec F) (t u : Tables) → Steps codec t u → Moves t u
Steps-Moves codec t u (done _) = Moves-same t t refl refl
Steps-Moves codec t u (more {u = v} step steps) =
    Moves-trans t v u (Step-Moves codec t v step) (Steps-Moves codec v u steps)

-- A message that is not an assistant's or is over keeps its row but for the freshness of its sources,
-- which the mark of a changed snapshot rewrites, whatever operations on conversations, turns, messages,
-- traces, consents and receipts follow and however often the store recovers, until a conversation is
-- deleted.
pub message_kept :
    {F : Type 0} (codec : Codec F) (t u : Tables) (id : Uuid) (row : MessageRow)
    → Steps codec t u
    → find_message id t ≡ some row
    → is_left_open row ≡ false
    → KeepsRow id row u
message_kept codec t u id row steps h k = (Steps-Moves codec t u steps).messages_kept id row h k
