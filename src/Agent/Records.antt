-- ===== src/Agent/Records.antt =====
-- crates/mentat-analysis/src/agent_loop.rs: what a trace records of the calls, and the fingerprints.
use code_mentat.Base.{
  ℕ, suc, ◌+◌, ◌≤◌, false, Option, none, some, List, [], ◌∷◌, ◌++◌, length, Text, All, ◌≡◌, refl,
  inl, inr, Bool-cases, ==-sound, ==_refl, arith, list_eq, nat_eq, ◌==◌, if◌then◌else◌,
}
use code_mentat.Core.Tools.{RepositoryToolCallRecord, GroundingTrace}
use code_mentat.Agent.Calls.{repeats, repeat}

-- The calls of a trace with a digest of their arguments.
unfoldable pub count_digest : Text → List RepositoryToolCallRecord → ℕ
count_digest key [] = 0
count_digest key (r ∷ records) =
    let more = count_digest key records in
    if r.canonical_arguments_digest == key then suc more else more

abbrev pub bytes_of : List RepositoryToolCallRecord → ℕ
bytes_of [] = 0
bytes_of (r ∷ records) = r.content_bytes + bytes_of records

pub bytes_of-append :
    (xs ys : List RepositoryToolCallRecord) → bytes_of (xs ++ ys) ≡ bytes_of xs + bytes_of ys
bytes_of-append [] ys = omega arith
bytes_of-append (x ∷ xs) ys = omega (arith, bytes_of-append xs ys)

pub count_digest-append :
    (key : Text) (xs ys : List RepositoryToolCallRecord)
    → count_digest key (xs ++ ys) ≡ count_digest key xs + count_digest key ys
unfolding count_digest
count_digest-append key [] ys = omega arith
count_digest-append key (x ∷ xs) ys = ground (arith, count_digest-append key xs ys)

pub repeats-repeat :
    (key : Text) (fs : List (Text × ℕ)) → repeats key (repeat key fs) ≡ repeats key fs + 1
unfolding repeats repeat
repeats-repeat key [] = ground (arith, ==_refl key)
repeats-repeat key ((k, n) ∷ rest) = ground (arith, repeats-repeat key rest)

pub repeats-repeat_other :
    (key other : Text) (fs : List (Text × ℕ))
    → (other == key) ≡ false
    → repeats key (repeat other fs) ≡ repeats key fs
unfolding repeats repeat
repeats-repeat_other key other [] h = ground (arith, h)
repeats-repeat_other key other ((k, n) ∷ rest) h = elim (Bool-cases (k == other)) [
  | inl e ↦ let same = ==-sound k other e in rw same (rw (==_refl other) (rw h refl))
  | inr e ↦ ground (arith, repeats-repeat_other key other rest h)
]

pub repeat-All :
    (key : Text) (fs : List (Text × ℕ))
    → All (λ (p : Text × ℕ). p.1 ≤ 2) fs
    → repeats key fs ≤ 1
    → All (λ (p : Text × ℕ). p.1 ≤ 2) (repeat key fs)
unfolding repeats repeat
repeat-All key [] h k = (omega arith, tt)
repeat-All key ((k, n) ∷ rest) h le = elim (Bool-cases (k == key)) [
  | inl e ↦ rw e (ground (arith, e), h.1)
  | inr e ↦ rw e (h.0, repeat-All key rest h.1 (ground (arith, e)))
]

-- What the trace records of the calls: how many, of what size, and each with its digest.
pub record Records (executed bytes : ℕ) (fingerprints : List (Text × ℕ)) (trace : GroundingTrace)
    : Type 0 where
  pub all_calls : length trace.tool_calls ≡ executed
  pub all_bytes : bytes_of trace.tool_calls ≡ bytes
  pub digests : (key : Text) → count_digest key trace.tool_calls ≡ repeats key fingerprints

abbrev pub Traced : ℕ → ℕ → List (Text × ℕ) → Option GroundingTrace → Type 0
Traced executed bytes fingerprints none = Unit
Traced executed bytes fingerprints (some trace) = Records executed bytes fingerprints trace
