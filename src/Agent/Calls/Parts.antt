-- ===== src/Agent/Calls/Parts.antt =====
-- crates/mentat-analysis/src/agent_loop.rs: what a call of the loop that goes through has passed.
use code_mentat.Base.{
  ℕ, suc, ◌+◌, ◌≤◌, ◌<◌, Option, none, some, List, [], ◌∷◌, Text, leb, ltb, checked_add, u32_max,
  ◌≡◌, refl, sym, ap, subst, if_intro, arith, list_eq, nat_eq,
}
use code_mentat.Core.Error.{MentatError, Result, ok, err}
use code_mentat.Core.Tools.{RepositoryToolCall, RepositoryToolResult}
use code_mentat.Agent.State.{AgentLoop, LoopState}
use code_mentat.Agent.Calls.{
  repeats, repeat, or_error, call_fingerprint, after_call, take_result, take_answer, call_with,
  run_call, next_call, run_calls,
}

pub checked_add-eq : (max x y total : ℕ) → checked_add max x y ≡ some total → total ≡ x + y
unfolding checked_add
checked_add-eq max x y total h = ground arith

checked_add-none : (max x y : ℕ) → checked_add max x y ≡ none → max < x + y
unfolding checked_add
checked_add-none max x y h = ground arith

pub or_error-eq-ok :
    {A : Type 0} (e : MentatError) (o : Option A) (x : A) → or_error e o ≡ ok x → o ≡ some x
or_error-eq-ok e none x h = cc
or_error-eq-ok e (some y) x h = cc

-- A call that went through: its fingerprint, the result of the gateway and the new total.
pub record Called {F : Type 0} (a : AgentLoop F)
    (execute : ℕ → RepositoryToolCall → Result RepositoryToolResult) (round call_count index : ℕ)
    (call : RepositoryToolCall) (s t : LoopState F) : Type 0 where
  pub fingerprint : Text
  pub result : RepositoryToolResult
  pub total : ℕ
  pub seen_once : repeats fingerprint s.fingerprints ≤ 1
  pub executes : execute s.executed call ≡ ok result
  pub adds : checked_add u32_max s.total_result_bytes result.content_bytes ≡ some total
  pub fits : total ≤ s.request.limits.max_tool_result_bytes
  pub made : after_call a execute round call_count index call fingerprint result total s ≡ t

-- A call that failed: it was not counted, or its fingerprint was met twice before, or the gateway was
-- asked for it and failed, or gave a result that the limit of bytes does not admit.
pub data Failing {F : Type 0} (limit : ℕ)
    (execute : ℕ → RepositoryToolCall → Result RepositoryToolResult) (call : RepositoryToolCall)
    (s t : LoopState F) : Type 0 where
  uncounted : s ≡ t → Failing limit execute call s t
  third :
      (fingerprint : Text)
      → 2 ≤ repeats fingerprint s.fingerprints
      → record s { fingerprints = repeat fingerprint s.fingerprints } ≡ t
      → Failing limit execute call s t
  refused :
      (fingerprint : Text) (e : MentatError)
      → repeats fingerprint s.fingerprints ≤ 1
      → execute s.executed call ≡ err e
      → record s { fingerprints = repeat fingerprint s.fingerprints; executed = suc s.executed } ≡ t
      → Failing limit execute call s t
  overflowed :
      (fingerprint : Text) (result : RepositoryToolResult)
      → repeats fingerprint s.fingerprints ≤ 1
      → execute s.executed call ≡ ok result
      → u32_max < s.total_result_bytes + result.content_bytes
      → record s { fingerprints = repeat fingerprint s.fingerprints; executed = suc s.executed } ≡ t
      → Failing limit execute call s t
  too_large :
      (fingerprint : Text) (result : RepositoryToolResult)
      → repeats fingerprint s.fingerprints ≤ 1
      → execute s.executed call ≡ ok result
      → limit < s.total_result_bytes + result.content_bytes
      → record s {
        fingerprints = repeat fingerprint s.fingerprints;
        executed = suc s.executed;
        total_result_bytes = s.total_result_bytes + result.content_bytes;
      }
        ≡ t
      → Failing limit execute call s t

-- What a call that fails changes: the fingerprints, the calls of the gateway and the bytes.
pub Failing-frame {κ} :
    {F : Type 0} {limit : ℕ} (P : LoopState F → Type κ)
    (execute : ℕ → RepositoryToolCall → Result RepositoryToolResult) (call : RepositoryToolCall)
    (s t : LoopState F)
    → ((fingerprints : List (Text × ℕ)) (executed bytes : ℕ)
        → P (record s {
          fingerprints = fingerprints;
          executed = executed;
          total_result_bytes = bytes;
        }))
    → Failing limit execute call s t
    → P t
Failing-frame P execute call s t f (uncounted e) =
    subst P e (f s.fingerprints s.executed s.total_result_bytes)
Failing-frame P execute call s t f (third key many e) =
    subst P e (f (repeat key s.fingerprints) s.executed s.total_result_bytes)
Failing-frame P execute call s t f (refused key x once h e) =
    subst P e (f (repeat key s.fingerprints) (suc s.executed) s.total_result_bytes)
Failing-frame P execute call s t f (overflowed key result once h over e) =
    subst P e (f (repeat key s.fingerprints) (suc s.executed) s.total_result_bytes)
Failing-frame P execute call s t f (too_large key result once h over e) =
    subst P e
      (f (repeat key s.fingerprints) (suc s.executed) (s.total_result_bytes + result.content_bytes))

module _ {F : Type 0} (a : AgentLoop F)
    (execute : ℕ → RepositoryToolCall → Result RepositoryToolResult) (round call_count : ℕ) where
  abbrev pub Fails : RepositoryToolCall → LoopState F → LoopState F → Type 0
  Fails call s t = Failing s.request.limits.max_tool_result_bytes execute call s t

  abbrev pub CallOutcome :
      ℕ → RepositoryToolCall → LoopState F → LoopState F × Result (Unit {0}) → Type 0
  CallOutcome index call s (t, ok u) = Called a execute round call_count index call s t
  CallOutcome index call s (t, err e) = Fails call s t

  module _ (index : ℕ) (call : RepositoryToolCall) (s : LoopState F) where
    take_result-outcome :
        (fingerprint : Text) (result : RepositoryToolResult) (total : Option ℕ)
        → repeats fingerprint s.fingerprints ≤ 1
        → execute s.executed call ≡ ok result
        → checked_add u32_max s.total_result_bytes result.content_bytes ≡ total
        → CallOutcome index call s
            (take_result a execute round call_count index call fingerprint result s total)
    take_result-outcome fingerprint result none once h add =
        overflowed fingerprint result once h
          (checked_add-none u32_max s.total_result_bytes result.content_bytes add) refl
    take_result-outcome fingerprint result (some total) once h add =
        let sum = checked_add-eq u32_max s.total_result_bytes result.content_bytes total add in
        if_intro (CallOutcome index call s) (ltb s.request.limits.max_tool_result_bytes total) _ _
          (λ over. too_large fingerprint result once h (ground (arith, sum, over)) (
            ap
              (λ n. record s {
                fingerprints = repeat fingerprint s.fingerprints;
                executed = suc s.executed;
                total_result_bytes = n;
              })
              (sym sum)))
          (λ fits. record {
            fingerprint = fingerprint;
            result = result;
            total = total;
            seen_once = once;
            executes = h;
            adds = add;
            fits = ground (arith, fits);
            made = refl;
          })

    take_answer-outcome :
        (fingerprint : Text) (answer : Result RepositoryToolResult)
        → repeats fingerprint s.fingerprints ≤ 1
        → execute s.executed call ≡ answer
        → CallOutcome index call s
            (take_answer a execute round call_count index call fingerprint s answer)
    take_answer-outcome fingerprint (err e) once h = refused fingerprint e once h refl
    take_answer-outcome fingerprint (ok result) once h =
        take_result-outcome fingerprint result _ once h refl

    call_with-outcome :
        (fingerprint : Result Text)
        → CallOutcome index call s (call_with a execute round call_count index call s fingerprint)
    call_with-outcome (err e) = uncounted refl
    call_with-outcome (ok fingerprint) =
        if_intro (CallOutcome index call s) (leb 3 (repeats fingerprint s.fingerprints + 1)) _ _
          (λ many. third fingerprint (ground (arith, many)) refl)
          (λ few. take_answer-outcome fingerprint _ (ground (arith, few)) refl)

    pub run_call_outcome :
        CallOutcome index call s (run_call a execute round call_count index call s)
    unfolding run_call
    run_call_outcome = call_with-outcome (call_fingerprint a execute round call_count call)

-- A result of the loop: `P` holds when it succeeds, and `E` when it fails.
abbrev pub Out {κ} :
    {F : Type 0}
    → (LoopState F → Type κ)
    → (LoopState F → Type κ)
    → LoopState F × Result (Unit {0})
    → Type κ
Out P E (s, ok u) = P s
Out P E (s, err e) = E s

pub Out-same {κ} :
    {F : Type 0} (P : LoopState F → Type κ) (out : LoopState F × Result (Unit {0}))
    → Out P P out
    → P out.0
Out-same P (s, ok u) h = h
Out-same P (s, err e) h = h

-- Induction over the calls of a round: `Q` holds with the calls that are left, `P` at the end and `E`
-- after a call that fails.
module _ {κ} {F : Type 0} (a : AgentLoop F)
    (execute : ℕ → RepositoryToolCall → Result RepositoryToolResult) (round call_count : ℕ)
    (Q : List RepositoryToolCall → LoopState F → Type κ) (P E : LoopState F → Type κ)
    (step : (index : ℕ) (call : RepositoryToolCall) (calls : List RepositoryToolCall)
        (s t : LoopState F)
      → Q (call ∷ calls) s
      → Called a execute round call_count index call s t
      → Q calls t)
    (stop : (s : LoopState F) → Q [] s → P s)
    (fails : (call : RepositoryToolCall) (calls : List RepositoryToolCall) (s t : LoopState F)
      → Q (call ∷ calls) s
      → Fails a execute round call_count call s t
      → E t) where
  next_call-keeps :
      (rest : LoopState F → LoopState F × Result (Unit {0})) (index : ℕ) (call : RepositoryToolCall)
      (calls : List RepositoryToolCall) (s : LoopState F) (out : LoopState F × Result (Unit {0}))
      → Q (call ∷ calls) s
      → ((t : LoopState F) → Q calls t → Out P E (rest t))
      → CallOutcome a execute round call_count index call s out
      → Out P E (next_call a execute round call_count rest out)
  next_call-keeps rest index call calls s (t, ok u) q f c = f t (step index call calls s t q c)
  next_call-keeps rest index call calls s (t, err e) q f c = fails call calls s t q c

  pub run_calls-keeps :
      (index : ℕ) (calls : List RepositoryToolCall) (s : LoopState F)
      → Q calls s
      → Out P E (run_calls a execute round call_count index calls s)
  unfolding run_calls
  run_calls-keeps index [] s q = stop s q
  run_calls-keeps index (call ∷ calls) s q =
      next_call-keeps _ index call calls s _ q (run_calls-keeps (suc index) calls)
        (run_call_outcome a execute round call_count index call s)
