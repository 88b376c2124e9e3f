-- ===== src/Storage/Conversations/Grounding.antt =====
-- crates/mentat-storage/src/conversation.rs and grounding_store.rs: a terminal update together with
-- the trace of its turn.
use code_mentat.Base.{
  ℕ, suc, ◌++◌, Bool, true, false, not, ◌&&◌, ◌||◌, Option, none, some, List, [], ◌∷◌, any, retain,
  Text, path_text, replace_char, ltb, list_eq, nat_eq, option_eq, ◌==◌, ◌!=◌, if◌then◌else◌,
}
use code_mentat.Core.Error.{Result, ok, err, storage_error, ◌>>=◌, ◌>>◌, fail_if}
use code_mentat.Core.Models.{Uuid, Time}
use code_mentat.Core.Tools.{
  GroundingFreshness, fresh_at_send, changed_after_send, stale_before_send, GroundingTrace,
  RepositoryToolCallRecord, SourceRef,
}
use code_mentat.Core.Conversation.{TurnTerminalUpdate, advisor_completed, audit_completed}
use code_mentat.Storage.Receipts.{Sqlite}
use code_mentat.Storage.Conversations.Rows.{
  TurnRow, TraceRow, SourceRow, Tables, Codec, i64_max, or_fail, update_where, has_conversation,
  has_turn, find_turn,
}
use code_mentat.Storage.Conversations.Turns.{transaction, checked, apply_terminal_update}

abbrev pub same_freshness : GroundingFreshness → GroundingFreshness → Bool
same_freshness fresh_at_send fresh_at_send = true
same_freshness (changed_after_send a) (changed_after_send b) = a == b
same_freshness stale_before_send stale_before_send = true
same_freshness _ _ = false

-- The `match` of `validate_grounding_terminal_binding`.
unfoldable pub is_bound : {F : Type 0} → GroundingTrace → TurnTerminalUpdate F → Bool
is_bound trace (advisor_completed turn_id message_id markdown (some trace_id) (some freshness) at) =
    turn_id == trace.turn_id && trace_id == trace.id && same_freshness freshness trace.freshness
is_bound trace (audit_completed turn_id message_id bundle trace_id freshness at) =
    turn_id == trace.turn_id
    && trace_id == trace.id
    && same_freshness freshness trace.freshness
    && trace.snapshot_id == some bundle.snapshot_id
is_bound trace _ = false

unfoldable pub validate_grounding_terminal_binding :
    {F : Type 0} → GroundingTrace → TurnTerminalUpdate F → Result (Unit {0})
validate_grounding_terminal_binding trace update =
    fail_if (not (is_bound trace update)) (storage_error "TURN_GROUNDING_BINDING_INVALID")

abbrev pub or_unread : Option TurnRow → Result TurnRow
or_unread none = err (storage_error "TURN_GROUNDING_BINDING_READ_FAILED")
or_unread (some row) = ok row

unfoldable pub validate_trace_database_binding : GroundingTrace → Tables → Result (Unit {0})
validate_trace_database_binding trace t = do
  row ← or_unread (find_turn trace.turn_id t)
  fail_if (row.conversation_id != trace.conversation_id || row.snapshot_id != trace.snapshot_id)
      (storage_error "TURN_GROUNDING_BINDING_INVALID")

-- The loops that insert the records of calls and the sources; the key of each table is an id.
unfoldable pub insert_calls :
    Uuid
    → List RepositoryToolCallRecord
    → List RepositoryToolCallRecord
    → Result (List RepositoryToolCallRecord)
insert_calls trace_id [] rows = ok rows
insert_calls trace_id (r ∷ calls) rows = do
  fail_if (any (λ (row : RepositoryToolCallRecord). row.call_id == r.call_id) rows)
      (storage_error "GROUNDING_TOOL_RECORD_INSERT_FAILED")
  insert_calls trace_id calls (rows ++ (record r { trace_id = trace_id } ∷ []))

-- The column of a path has `/` for every `\\`.
abbrev pub source_row : Uuid → ℕ → SourceRef → SourceRow
source_row trace_id ordinal source = record {
  id = source.id;
  trace_id = trace_id;
  ordinal = ordinal;
  snapshot_id = source.snapshot_id;
  relative_path = replace_char 92 47 (path_text source.relative_path);
  line_start = source.line_start;
  line_end = source.line_end;
  content_hash = source.content_hash;
  excerpt = source.excerpt;
}

unfoldable pub insert_sources : Uuid → ℕ → List SourceRef → List SourceRow → Result (List SourceRow)
insert_sources trace_id ordinal [] rows = ok rows
insert_sources trace_id ordinal (source ∷ sources) rows = do
  fail_if (ltb i64_max ordinal) (storage_error "GROUNDING_ORDINAL_OVERFLOW")
  fail_if (ltb i64_max source.line_start || ltb i64_max source.line_end)
      (storage_error "GROUNDING_LINE_OVERFLOW")
  fail_if (any (λ (row : SourceRow). row.id == source.id) rows)
      (storage_error "GROUNDING_SOURCE_INSERT_FAILED")
  insert_sources trace_id (suc ordinal) sources (rows ++ (source_row trace_id ordinal source ∷ []))

abbrev pub trace_row : GroundingTrace → Text → Time → TraceRow
trace_row trace freshness created_at = record {
  id = trace.id;
  conversation_id = trace.conversation_id;
  turn_id = trace.turn_id;
  snapshot_id = trace.snapshot_id;
  freshness = freshness;
  created_at = created_at;
}

-- `INSERT … ON CONFLICT(id) DO UPDATE`, which keeps the time of creation.
unfoldable pub put_trace : Time → GroundingTrace → Text → List TraceRow → List TraceRow
put_trace now trace freshness rows =
    if any (λ (row : TraceRow). row.id == trace.id) rows
    then update_where (λ (row : TraceRow). row.id == trace.id)
        (λ (row : TraceRow). trace_row trace freshness row.created_at) rows
    else rows ++ (trace_row trace freshness now ∷ [])

module _ {F : Type 0} (codec : Codec F) where
  -- `write_grounding_trace_in_transaction`.
  unfoldable pub write_grounding_trace : Time → GroundingTrace → Tables → Result Tables
  write_grounding_trace now trace t = do
    freshness ←
        or_fail (storage_error "GROUNDING_FRESHNESS_ENCODE_FAILED")
          (codec.encode_freshness trace.freshness)
    fail_if (not (has_conversation trace.conversation_id t) || not (has_turn trace.turn_id t))
        (storage_error "GROUNDING_TRACE_INSERT_FAILED")
    calls ←
        insert_calls trace.id trace.tool_calls
          (retain (λ (row : RepositoryToolCallRecord). row.trace_id != trace.id) t.tool_calls)
    sources ←
        insert_sources trace.id 0 trace.source_refs
          (retain (λ (row : SourceRow). row.trace_id != trace.id) t.sources)
    ok (record t {
      traces = put_trace now trace freshness t.traces;
      tool_calls = calls;
      sources = sources;
    })

  -- What the transaction of `finish_turn_with_grounding_internal` does, up to its commit.
  unfoldable pub ground_turn :
      Time → Uuid → Bool → GroundingTrace → TurnTerminalUpdate F → Tables → Result Tables
  ground_turn now result_id kill_before_commit trace update t = do
    validate_trace_database_binding trace t
    grounded ← write_grounding_trace now trace t
    finished ← apply_terminal_update codec result_id update grounded
    fail_if kill_before_commit (storage_error "TURN_GROUNDING_KILLPOINT")
    ok finished

  unfoldable pub finish_turn_with_grounding_internal :
      Sqlite
      → Time
      → Uuid
      → Bool
      → GroundingTrace
      → TurnTerminalUpdate F
      → Tables
      → Tables × Result (Unit {0})
  finish_turn_with_grounding_internal io now result_id kill_before_commit trace update t =
      checked t (validate_grounding_terminal_binding trace update) (
        transaction io (storage_error "TURN_GROUNDING_BEGIN_FAILED")
          (storage_error "TURN_GROUNDING_COMMIT_FAILED")
          (ground_turn now result_id kill_before_commit trace update) t)
