-- ===== src/Storage/Conversations/Snapshots.antt =====
-- crates/mentat-storage/src/grounding_store.rs: a trace that is prepared before its turn ends, and the
-- mark of a snapshot that has changed.
use code_mentat.Base.{
  Bool, false, ◌&&◌, Option, none, some, any, Text, list_eq, nat_eq, option_eq, ◌==◌,
}
use code_mentat.Core.Error.{Result, ok, err, storage_error}
use code_mentat.Core.Models.{Uuid, Time}
use code_mentat.Core.Tools.{changed_after_send, GroundingTrace}
use code_mentat.Storage.Receipts.{Sqlite}
use code_mentat.Storage.Conversations.Rows.{
  MessageRow, TraceRow, Tables, Codec, or_fail, update_where,
}
use code_mentat.Storage.Conversations.Turns.{transaction}
use code_mentat.Storage.Conversations.Grounding.{write_grounding_trace}

-- `grounding_trace_id IN (SELECT id FROM grounding_traces WHERE snapshot_id = ?)`.
abbrev pub is_traced : Uuid → Tables → Option Uuid → Bool
is_traced snapshot_id t none = false
is_traced snapshot_id t (some trace_id) =
    any (λ (row : TraceRow). row.id == trace_id && row.snapshot_id == some snapshot_id) t.traces

abbrev pub with_freshness : Text → MessageRow → MessageRow
with_freshness freshness row = record row { grounding_freshness = some freshness }

abbrev pub marked : Uuid → Text → Tables → Tables
marked snapshot_id freshness t = record t {
  traces =
      update_where (λ (row : TraceRow). row.snapshot_id == some snapshot_id)
        (λ (row : TraceRow). record row { freshness = freshness }) t.traces;
  messages =
      update_where (λ (row : MessageRow). is_traced snapshot_id t row.grounding_trace_id)
        (with_freshness freshness) t.messages;
}

module _ {F : Type 0} (codec : Codec F) where
  abbrev pub mark_with : Sqlite → Uuid → Tables → Result Text → Tables × Result (Unit {0})
  mark_with io snapshot_id t (err e) = (t, err e)
  mark_with io snapshot_id t (ok freshness) =
      transaction io (storage_error "FRESHNESS_BEGIN") (storage_error "FRESHNESS_COMMIT")
        (λ u. ok (marked snapshot_id freshness u)) t

  unfoldable pub mark_snapshot_changed : Sqlite → Time → Uuid → Tables → Tables × Result (Unit {0})
  mark_snapshot_changed io now snapshot_id t =
      mark_with io snapshot_id t (
        or_fail (storage_error "FRESHNESS_ENCODE")
          (codec.encode_freshness (changed_after_send now)))

  unfoldable pub prepare_grounding_trace :
      Sqlite → Time → GroundingTrace → Tables → Tables × Result (Unit {0})
  prepare_grounding_trace io now trace t =
      transaction io (storage_error "GROUNDING_TRACE_BEGIN_FAILED")
        (storage_error "GROUNDING_TRACE_COMMIT_FAILED") (write_grounding_trace codec now trace) t
