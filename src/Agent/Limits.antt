-- ===== src/Agent/Limits.antt =====
-- crates/mentat-analysis/src/agent_loop.rs: the limits of a turn.
use code_mentat.Base.{
  ◌⊎◌, ℕ, suc, ◌+◌, ◌≤◌, ◌<◌, Option, none, some, List, [], ◌∷◌, ◌++◌, length, length-append, Text,
  All, ◌≡◌, refl, subst, inl, inr, if_intro, Bool-cases, ==-sound, arith, ltb, narrow, u16_max,
  u32_max, is_empty, list_eq, nat_eq, ◌==◌,
}
use code_mentat.Core.Error.{Result, ok, Result-cases, >>=-eq-ok, fail_if-eq-ok}
use code_mentat.Core.Models.{Uuid}
use code_mentat.Core.Tools.{
  RepositoryToolCall, RepositoryToolResult, RepositoryToolCallRecord, GroundingTrace,
}
use code_mentat.Inference.Types.{
  AgentRequest, AgentLimits, AgentMessage, AgentEvent, RepositoryContext,
}
use code_mentat.Agent.State.{AgentLoop, LoopState, new_trace, loop_error}
use code_mentat.Agent.Round.{RoundRead}
use code_mentat.Agent.Calls.{repeats, repeat, or_error, record_call, in_trace, after_call}
use code_mentat.Agent.Calls.Parts.{
  or_error-eq-ok, checked_add-eq, Called, Failing, uncounted, third, refused, overflowed, too_large,
  Failing-frame, Out, run_calls-keeps,
}
use code_mentat.Agent.Loop.{added_calls, admit_calls, keep_text, call_round, initial, run_bounded}
use code_mentat.Agent.Induction.{admit_calls-gateway, run_rounds-keeps}
use code_mentat.Agent.Records.{
  count_digest, bytes_of-append, count_digest-append, repeats-repeat, repeats-repeat_other,
  repeat-All, Records, Traced,
}

-- The limits of a turn, while `left` of the calls that it counts have not been made.
pub record Within {F : Type 0} (limits : AgentLimits) (left : ℕ) (s : LoopState F) : Type 0 where
  pub same : s.request.limits ≡ limits
  pub made : s.executed + left ≤ s.total_calls
  pub calls : s.total_calls ≤ limits.max_tool_calls
  pub bytes : s.total_result_bytes ≤ limits.max_tool_result_bytes
  pub repeated : All (λ (p : Text × ℕ). p.1 ≤ 2) s.fingerprints
  pub traced : Traced s.executed s.total_result_bytes s.fingerprints s.trace

-- A run that fails: where it stood within its limits, and the call that ended it there, if it was one.
pub record Stopped {F : Type 0} (limits : AgentLimits)
    (gateway : Option (ℕ → RepositoryToolCall → Result RepositoryToolResult)) (s : LoopState F)
    : Type 0 where
  pub before : LoopState F
  pub within : Within limits 0 before
  pub made : s.executed ≤ limits.max_tool_calls
  pub unrecorded : s.trace ≡ before.trace
  pub ended :
      (before ≡ s)
      ⊎ ((execute : ℕ → RepositoryToolCall → Result RepositoryToolResult)
          × (call : RepositoryToolCall) × (gateway ≡ some execute)
          × Failing limits.max_tool_result_bytes execute call before s)

abbrev pub Limited :
    {F : Type 0}
    → AgentLimits
    → Option (ℕ → RepositoryToolCall → Result RepositoryToolResult)
    → LoopState F × Result (Unit {0})
    → Type 0
Limited limits gateway = Out (Within limits 0) (Stopped limits gateway)

Failing-executed :
    {F : Type 0} {limit : ℕ} (execute : ℕ → RepositoryToolCall → Result RepositoryToolResult)
    (call : RepositoryToolCall) (s t : LoopState F)
    → Failing limit execute call s t
    → t.executed ≤ suc s.executed
Failing-executed execute call s t (uncounted e) =
    subst (λ u. u.executed ≤ suc s.executed) e (omega arith)
Failing-executed execute call s t (third key many e) =
    subst (λ u. u.executed ≤ suc s.executed) e (omega arith)
Failing-executed execute call s t (refused key x once h e) =
    subst (λ u. u.executed ≤ suc s.executed) e (omega arith)
Failing-executed execute call s t (overflowed key result once h over e) =
    subst (λ u. u.executed ≤ suc s.executed) e (omega arith)
Failing-executed execute call s t (too_large key result once h over e) =
    subst (λ u. u.executed ≤ suc s.executed) e (omega arith)

narrow_exact : (n : ℕ) → narrow u16_max n < u16_max → narrow u16_max n ≡ n
unfolding narrow
narrow_exact n h = ground arith

digest_counted :
    (key fingerprint : Text) (fs : List (Text × ℕ)) (records : List RepositoryToolCallRecord)
    (r : RepositoryToolCallRecord)
    → r.canonical_arguments_digest ≡ fingerprint
    → count_digest key records ≡ repeats key fs
    → count_digest key (records ++ (r ∷ [])) ≡ repeats key (repeat fingerprint fs)
unfolding count_digest
digest_counted key fingerprint fs records r same h = elim (Bool-cases (fingerprint == key)) [
  | inl e ↦
      let named = ==-sound fingerprint key e in
      let sum : count_digest key (r ∷ []) ≡ 1 = rw (same, e) refl in
      rw named
        (omega (arith, count_digest-append key records (r ∷ []), sum, h, repeats-repeat key fs))
  | inr e ↦
      let sum : count_digest key (r ∷ []) ≡ 0 = rw (same, e) refl in
      omega (
        arith,
        count_digest-append key records (r ∷ []),
        sum,
        h,
        repeats-repeat_other key fingerprint fs e,
      )
]

module _ {F : Type 0} (a : AgentLoop F) (limits : AgentLimits) where
  module _ (execute : ℕ → RepositoryToolCall → Result RepositoryToolResult)
      (round call_count : ℕ) where
    record_call-Records :
        (index : ℕ) (call : RepositoryToolCall) (s t : LoopState F) (trace : GroundingTrace)
        (c : Called a execute round call_count index call s t)
        → Records s.executed s.total_result_bytes s.fingerprints trace
        → Records
            (suc s.executed)
            c.total
            (repeat c.fingerprint s.fingerprints)
            (record_call a round call c.fingerprint c.result trace)
    unfolding record_call
    record_call-Records index call s t trace c k = record {
      all_calls = omega (arith, length-append trace.tool_calls (_ ∷ []), k.all_calls);
      all_bytes = omega (
        arith,
        bytes_of-append trace.tool_calls (_ ∷ []),
        k.all_bytes,
        checked_add-eq u32_max s.total_result_bytes c.result.content_bytes c.total c.adds,
      );
      digests = λ key.
          digest_counted key c.fingerprint s.fingerprints trace.tool_calls _ refl (k.digests key);
    }

    after_call-Traced :
        (index : ℕ) (call : RepositoryToolCall) (s t : LoopState F) (trace : Option GroundingTrace)
        (c : Called a execute round call_count index call s t)
        → Traced s.executed s.total_result_bytes s.fingerprints trace
        → Traced
            (suc s.executed)
            c.total
            (repeat c.fingerprint s.fingerprints)
            (in_trace a round call c.fingerprint c.result trace)
    after_call-Traced index call s t none c k = tt
    after_call-Traced index call s t (some trace) c k = record_call-Records index call s t trace c k

    Called-Within :
        (index : ℕ) (call : RepositoryToolCall) (calls : List RepositoryToolCall)
        (s t : LoopState F)
        → Within limits (suc (length calls)) s
        → Called a execute round call_count index call s t
        → Within limits (length calls) t
    unfolding after_call
    Called-Within index call calls s t w c = subst (Within limits (length calls)) c.made (record {
      same = w.same;
      made = omega (arith, w.made);
      calls = w.calls;
      bytes = subst (λ l. c.total ≤ l.max_tool_result_bytes) w.same c.fits;
      repeated = repeat-All c.fingerprint s.fingerprints w.repeated c.seen_once;
      traced = after_call-Traced index call s t s.trace c w.traced;
    })

  Within-done : (left : ℕ) (s : LoopState F) → Within limits left s → Within limits 0 s
  Within-done left s w = record {
    same = w.same;
    made = omega (arith, w.made);
    calls = w.calls;
    bytes = w.bytes;
    repeated = w.repeated;
    traced = w.traced;
  }

  Within-Stopped : (s : LoopState F) → Within limits 0 s → Stopped limits a.gateway s
  Within-Stopped s w = record {
    before = s;
    within = w;
    made = omega (arith, w.made, w.calls);
    unrecorded = refl;
    ended = inl refl;
  }

  -- A call that fails while it is the next of those that are counted.
  Failing-Stopped :
      (execute : ℕ → RepositoryToolCall → Result RepositoryToolResult)
      → a.gateway ≡ some execute
      → (call : RepositoryToolCall) (calls : List RepositoryToolCall) (s t : LoopState F)
      → Within limits (length (call ∷ calls)) s
      → Failing s.request.limits.max_tool_result_bytes execute call s t
      → Stopped limits a.gateway t
  Failing-Stopped execute given call calls s t w f = record {
    before = s;
    within = Within-done (length (call ∷ calls)) s w;
    made = omega (arith, w.made, w.calls, Failing-executed execute call s t f);
    unrecorded =
        Failing-frame (λ u. u.trace ≡ s.trace) execute call s t
          (λ fingerprints executed bytes. refl) f;
    ended = inr (
      execute,
      call,
      given,
      subst (λ (l : AgentLimits). Failing l.max_tool_result_bytes execute call s t) w.same f,
    );
  }

  -- The events, the messages and the text are free.
  Within-moved :
      (left : ℕ) (es : List (AgentEvent F)) (messages : List AgentMessage) (text : Text)
      (s : LoopState F)
      → Within limits left s
      → Within limits left (record s {
        events = es;
        request = record s.request { messages = messages };
        prior_round_text = text;
      })
  Within-moved left es messages text s w = record {
    same = w.same;
    made = w.made;
    calls = w.calls;
    bytes = w.bytes;
    repeated = w.repeated;
    traced = w.traced;
  }

  keep_text-Within :
      (r : RoundRead F) (s : LoopState F) → Within limits 0 s → Within limits 0 (keep_text a r s)
  unfolding keep_text
  keep_text-Within r s w =
      if_intro (λ (t : LoopState F). Within limits 0 t) (is_empty r.round_text) _ _
        (λ e. Within-moved 0 s.events s.request.messages _ s w)
        (λ e. Within-moved 0 s.events _ _ s w)

  -- Calls that are admitted are counted one by one.
  admit_calls-Within :
      (execute : ℕ → RepositoryToolCall → Result RepositoryToolResult) (total : ℕ)
      (calls : List RepositoryToolCall) (s : LoopState F)
      → limits.max_tool_calls < u16_max
      → Within limits 0 s
      → admit_calls a calls s ≡ ok (execute, total)
      → Within limits (length calls) (record s { total_calls = total })
  unfolding admit_calls
  admit_calls-Within execute total calls s small w h =
      let p = >>=-eq-ok (or_error (loop_error "REPOSITORY_TOOL_UNAVAILABLE") a.gateway) _ _ h in
      let q =
        >>=-eq-ok (or_error (loop_error "AGENT_LOOP_LIMIT_REACHED") (added_calls a calls s)) _ _
          p.2 in
      let r = fail_if-eq-ok (ltb s.request.limits.max_tool_calls q.0) _ _ _ q.2 in
      let same : q.0 ≡ total = cc r.1 in
      let sum = checked_add-eq u16_max s.total_calls _ q.0 (or_error-eq-ok _ _ q.0 q.1) in
      let most : q.0 ≤ limits.max_tool_calls =
        subst (λ (l : AgentLimits). q.0 ≤ l.max_tool_calls) w.same (ground (arith, r.0)) in
      record {
        same = w.same;
        made =
            omega
              (arith, sum, same, most, small, w.made, narrow_exact (length calls) (omega arith));
        calls = subst (λ n. n ≤ limits.max_tool_calls) same most;
        bytes = w.bytes;
        repeated = w.repeated;
        traced = w.traced;
      }

  call_round-Within :
      (round : ℕ) (r : RoundRead F) (calls : List RepositoryToolCall) (s : LoopState F)
      → limits.max_tool_calls < u16_max
      → Within limits 0 s
      → Limited limits a.gateway (call_round a round r calls s)
  unfolding call_round
  call_round-Within round r calls s small w =
      let kept = keep_text-Within r s w in
      elim (Result-cases (admit_calls a calls (keep_text a r s))) [
        | inl ((execute, total), h) ↦
            rw (h, call_round)
              (run_calls-keeps a execute round _ (λ left t. Within limits (length left) t)
                (Within limits 0) (Stopped limits a.gateway) (Called-Within execute round _)
                (λ t k. k)
                (Failing-Stopped execute
                  (admit_calls-gateway a calls (keep_text a r s) execute total h))
                0 calls _
                (Within-moved (length calls) _ _ _
                  (record (keep_text a r s) { total_calls = total })
                  (admit_calls-Within execute total calls (keep_text a r s) small kept h)))
        | inr (e, h) ↦ rw (h, call_round) (Within-Stopped (keep_text a r s) kept)
      ]

  receipts-Traced :
      (ids : List Uuid) (executed bytes : ℕ) (fingerprints : List (Text × ℕ))
      (trace : GroundingTrace) (o : Option GroundingTrace)
      → o ≡ some trace
      → Traced executed bytes fingerprints o
      → Records executed bytes fingerprints (record trace { egress_receipt_ids = ids })
  receipts-Traced ids executed bytes fingerprints trace o e k =
      let r = subst (Traced executed bytes fingerprints) e k in
      record { all_calls = r.all_calls; all_bytes = r.all_bytes; digests = r.digests }

  receipts-Within :
      (ids : List Uuid) (trace : GroundingTrace) (s : LoopState F)
      → s.trace ≡ some trace
      → Within limits 0 s
      → Within limits 0 (record s { trace = some (record trace { egress_receipt_ids = ids }) })
  receipts-Within ids trace s e w = record {
    same = w.same;
    made = w.made;
    calls = w.calls;
    bytes = w.bytes;
    repeated = w.repeated;
    traced = receipts-Traced ids _ _ s.fingerprints trace s.trace e w.traced;
  }

Traced-initial :
    (id : Uuid) (request : AgentRequest) (context : Option RepositoryContext)
    → Traced 0 0 [] (new_trace id request context)
unfolding count_digest repeats
Traced-initial id request none = tt
Traced-initial id request (some context) = record {
  all_calls = refl;
  all_bytes = refl;
  digests = λ key. refl;
}

-- When the limit of calls is below 65535, a run makes at most that many calls of the gateway. One that
-- succeeds takes at most the limit of bytes and makes no call with the same fingerprint more than
-- twice, and its trace, if it has one, records each call made: their number, their bytes, and each
-- digest as often as its call was made. One that fails stands within these limits too, or did so
-- until a last call, of the same gateway, that it has not recorded: one that was not counted, one
-- whose fingerprint was met twice before and that is not executed, or one that is executed, with a
-- fingerprint met at most once before, and fails or brings bytes beyond 32 bits or the limit.
pub run_bounded_limits :
    {F : Type 0} (a : AgentLoop F) (request : AgentRequest)
    → request.limits.max_tool_calls < u16_max
    → Limited request.limits a.gateway (run_bounded a request)
unfolding run_bounded initial
run_bounded_limits a request small =
    run_rounds-keeps a (Within request.limits 0) (Stopped request.limits a.gateway)
      (Within-Stopped a request.limits)
      (λ contract stream s w.
        Within-moved a request.limits 0 _ s.request.messages s.prior_round_text s w)
      (λ event s v w. Within-moved a request.limits 0 _ s.request.messages s.prior_round_text s w)
      (receipts-Within a request.limits)
      (λ round r calls s w. call_round-Within a request.limits round r calls s small w)
      request.limits.max_rounds 1 (initial a request)
      (record {
        same = refl;
        made = omega arith;
        calls = omega arith;
        bytes = omega arith;
        repeated = tt;
        traced = Traced-initial a.trace_id request request.repository_context;
      })
