-- ===== src/Agent/Calls.antt =====
-- crates/mentat-analysis/src/agent_loop.rs: the tool calls of one round.
pub mod Parts
use code_mentat.Base.{
  ℕ, suc, ◌+◌, Bool, true, false, Option, none, some, List, [], ◌∷◌, ◌++◌, map, length, Text,
  as_bytes, leb, ltb, narrow, checked_add, u16_max, u32_max, list_eq, nat_eq, ◌==◌, if◌then◌else◌,
}
use code_mentat.Core.Error.{MentatError, Result, ok, err, ◌>>=◌, ◌>>◌, fail_if}
use code_mentat.Core.Tools.{
  RepositoryToolCall, RepositoryToolResult, GroundingTrace, RepositoryToolCallRecord, completed,
}
use code_mentat.Inference.Types.{AgentMessage, tool_role, tool_result_content, tool_progress}
use code_mentat.Agent.State.{AgentLoop, LoopState, loop_error, emit, push_message}

-- How often a fingerprint has been met, and one meeting more.
unfoldable pub repeats : Text → List (Text × ℕ) → ℕ
repeats key [] = 0
repeats key ((k, n) ∷ rest) = let more = repeats key rest in if k == key then n else more

unfoldable pub repeat : Text → List (Text × ℕ) → List (Text × ℕ)
repeat key [] = (key, 1) ∷ []
repeat key ((k, n) ∷ rest) =
    let more = repeat key rest in if k == key then (k, n + 1) ∷ rest else (k, n) ∷ more

abbrev pub or_error : {A : Type 0} → MentatError → Option A → Result A
or_error e none = err e
or_error e (some a) = ok a

-- The record of a call in the trace.
unfoldable pub record_call :
    {F : Type 0}
    → AgentLoop F
    → ℕ
    → RepositoryToolCall
    → Text
    → RepositoryToolResult
    → GroundingTrace
    → GroundingTrace
record_call a round call fingerprint result trace = record trace {
  source_refs = trace.source_refs ++ result.source_refs;
  tool_calls =
      trace.tool_calls
      ++ (record {
        trace_id = trace.id;
        call_id = call.call_id;
        round = round;
        name = call.name;
        canonical_arguments_digest = fingerprint;
        result_digest = some (a.sha256_hex (as_bytes result.content));
        content_bytes = result.content_bytes;
        source_ref_ids = map (λ source. source.id) result.source_refs;
        status = completed;
      }
          ∷ []);
}

abbrev pub in_trace :
    {F : Type 0}
    → AgentLoop F
    → ℕ
    → RepositoryToolCall
    → Text
    → RepositoryToolResult
    → Option GroundingTrace
    → Option GroundingTrace
in_trace a round call fingerprint result none = none
in_trace a round call fingerprint result (some trace) =
    some (record_call a round call fingerprint result trace)

module _ {F : Type 0} (a : AgentLoop F)
    (execute : ℕ → RepositoryToolCall → Result RepositoryToolResult) (round call_count : ℕ) where
  -- `call_fingerprint`.
  unfoldable pub call_fingerprint : RepositoryToolCall → Result Text
  call_fingerprint call = do
    encoded ← or_error (loop_error "AGENT_TOOL_SCHEMA_INVALID") (a.encode_call call)
    ok (a.sha256_hex encoded)

  -- What a call that succeeds leaves.
  unfoldable pub after_call :
      ℕ → RepositoryToolCall → Text → RepositoryToolResult → ℕ → LoopState F → LoopState F
  after_call index call fingerprint result total s =
      emit (tool_progress round (narrow u16_max (index + 1)) call_count) (
        push_message
          (record { role = tool_role; content = tool_result_content result; provider_parts = none })
          (record s {
            fingerprints = repeat fingerprint s.fingerprints;
            executed = suc s.executed;
            total_result_bytes = total;
            trace = in_trace a round call fingerprint result s.trace;
          }))

  -- What a call leaves whose fingerprint is counted, and that the gateway has been asked for.
  abbrev pub counted : Text → LoopState F → LoopState F
  counted fingerprint s = record s { fingerprints = repeat fingerprint s.fingerprints }

  abbrev pub asked : Text → ℕ → LoopState F → LoopState F
  asked fingerprint total s = record s {
    fingerprints = repeat fingerprint s.fingerprints;
    executed = suc s.executed;
    total_result_bytes = total;
  }

  -- The bytes of a result, against the limit of the turn.
  abbrev pub take_result :
      ℕ
      → RepositoryToolCall
      → Text
      → RepositoryToolResult
      → LoopState F
      → Option ℕ
      → LoopState F × Result (Unit {0})
  take_result index call fingerprint result s none =
      (asked fingerprint s.total_result_bytes s, err (loop_error "TOOL_RESULT_LIMIT_REACHED"))
  take_result index call fingerprint result s (some total) =
      if ltb s.request.limits.max_tool_result_bytes total
      then (asked fingerprint total s, err (loop_error "TOOL_RESULT_LIMIT_REACHED"))
      else (after_call index call fingerprint result total s, ok tt)

  abbrev pub take_answer :
      ℕ
      → RepositoryToolCall
      → Text
      → LoopState F
      → Result RepositoryToolResult
      → LoopState F × Result (Unit {0})
  take_answer index call fingerprint s (err e) = (asked fingerprint s.total_result_bytes s, err e)
  take_answer index call fingerprint s (ok result) =
      take_result index call fingerprint result s
        (checked_add u32_max s.total_result_bytes result.content_bytes)

  abbrev pub call_with :
      ℕ → RepositoryToolCall → LoopState F → Result Text → LoopState F × Result (Unit {0})
  call_with index call s (err e) = (s, err e)
  call_with index call s (ok fingerprint) =
      if leb 3 (repeats fingerprint s.fingerprints + 1)
      then (counted fingerprint s, err (loop_error "AGENT_LOOP_REPEATED_CALL"))
      else take_answer index call fingerprint s (execute s.executed call)

  -- One round of the `for` loop over the calls. A call that fails keeps what it has counted by then.
  unfoldable pub run_call : ℕ → RepositoryToolCall → LoopState F → LoopState F × Result (Unit {0})
  run_call index call s = call_with index call s (call_fingerprint call)

  abbrev pub next_call :
      (LoopState F → LoopState F × Result (Unit {0}))
      → LoopState F × Result (Unit {0})
      → LoopState F × Result (Unit {0})
  next_call rest (t, ok u) = rest t
  next_call rest (t, err e) = (t, err e)

  unfoldable pub run_calls :
      ℕ → List RepositoryToolCall → LoopState F → LoopState F × Result (Unit {0})
  run_calls index [] s = (s, ok tt)
  run_calls index (call ∷ calls) s =
      next_call (λ t. run_calls (suc index) calls t) (run_call index call s)
