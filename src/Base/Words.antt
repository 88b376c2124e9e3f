-- ===== src/Base/Words.antt =====
-- Machine words: the ranges of the unsigned types, and their arithmetic.
use Prim.Native.Nat.{ℕ, ◌+◌, ◌-◌, ◌%◌, ◌^◌, ◌≤◌, ◌<◌}
use native.Mathlib.Omega.{arith}
use mathlib.Core.Option.{Option, none, some}
use code_mentat.Base.Tests.{ltb, leb, if◌then◌else◌}

abbrev pub u8_max : ℕ
u8_max = 2 ^ 8 - 1

abbrev pub u16_max : ℕ
u16_max = 2 ^ 16 - 1

abbrev pub u32_max : ℕ
u32_max = 2 ^ 32 - 1

abbrev pub u64_max : ℕ
u64_max = 2 ^ 64 - 1

-- `u64::saturating_add`.
unfoldable pub saturating_add : ℕ → ℕ → ℕ
saturating_add a b = if leb (a + b) u64_max then a + b else u64_max

-- `+=` of a `u64` in a release build.
abbrev pub wrapping_add : ℕ → ℕ → ℕ
wrapping_add a b = (a + b) % 2 ^ 64

-- `checked_add` of a type with the given greatest value.
unfoldable pub checked_add : ℕ → ℕ → ℕ → Option ℕ
checked_add max a b = if leb (a + b) max then some (a + b) else none

-- `try_from(..).unwrap_or(MAX)`.
unfoldable pub narrow : ℕ → ℕ → ℕ
narrow max a = if leb a max then a else max

-- `Ord::clamp`.
unfoldable pub clamp : ℕ → ℕ → ℕ → ℕ
clamp low high a = if ltb a low then low else if ltb high a then high else a

abbrev pub min_of : ℕ → ℕ → ℕ
min_of a b = if leb a b then a else b

pub clamp_bounds :
    (low high a : ℕ) → low ≤ high → (low ≤ clamp low high a) × (clamp low high a ≤ high)
unfolding clamp
clamp_bounds low high a h = ground arith

pub saturating_add-le :
    (a b limit : ℕ) → limit < u64_max → saturating_add a b ≤ limit → a + b ≤ limit
unfolding saturating_add
saturating_add-le a b limit h = ground arith
