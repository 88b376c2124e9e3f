-- ===== src/Base/Encoding.antt =====
-- Bytes of a text (UTF-8), of a number (big-endian), and a number in decimal.
use Prim.Native.Nat.{ℕ, zero, suc, ◌+◌, ◌*◌, ◌/◌, ◌%◌, ◌^◌, ◌<◌}
use mathlib.Core.Path.{◌≡◌, refl, ap₂}
use mathlib.Core.List.{List, [], ◌∷◌, ◌++◌, reverse, head-eq_of_cons-eq, tail-eq_of_cons-eq}
use native.Mathlib.Omega.{arith}
use code_mentat.Base.Tests.{ltb, if◌then◌else◌}
use code_mentat.Base.Lists.{length}
use code_mentat.Base.Texts.{Text}

abbrev pub Bytes : Type 0
Bytes = List ℕ

unfoldable pub char_bytes : ℕ → Bytes
char_bytes c =
    if ltb c 0x80
    then c ∷ []
    else if ltb c 0x800
    then (0xC0 + c / 64) ∷ (0x80 + c % 64) ∷ []
    else if ltb c 0x10000
    then (0xE0 + c / 4096) ∷ (0x80 + c / 64 % 64) ∷ (0x80 + c % 64) ∷ []
    else (0xF0 + c / 262144) ∷ (0x80 + c / 4096 % 64) ∷ (0x80 + c / 64 % 64) ∷ (0x80 + c % 64) ∷ []

-- `str::as_bytes`.
unfoldable pub as_bytes : Text → Bytes
unfolding char_bytes
as_bytes [] = []
as_bytes (c ∷ t) = char_bytes c ++ as_bytes t

-- `u64::to_be_bytes`.
unfoldable pub to_be_bytes : ℕ → Bytes
to_be_bytes n =
    (n / 2 ^ 56 % 256)
    ∷ (n / 2 ^ 48 % 256)
    ∷ (n / 2 ^ 40 % 256)
    ∷ (n / 2 ^ 32 % 256)
    ∷ (n / 2 ^ 24 % 256)
    ∷ (n / 2 ^ 16 % 256)
    ∷ (n / 2 ^ 8 % 256)
    ∷ (n % 256)
    ∷ []

-- Eight bytes, read as a big-endian number.
pub from_be_bytes : Bytes → ℕ
from_be_bytes (a ∷ b ∷ c ∷ d ∷ e ∷ f ∷ g ∷ h ∷ _) =
    ((((((a * 256 + b) * 256 + c) * 256 + d) * 256 + e) * 256 + f) * 256 + g) * 256 + h
from_be_bytes _ = 0

pub from-to_be_bytes :
    (n : ℕ) (rest : Bytes) → n < 2 ^ 64 → from_be_bytes (to_be_bytes n ++ rest) ≡ n
unfolding from_be_bytes to_be_bytes
from-to_be_bytes n rest h = omega arith

-- The digits of a number, last first; each round divides by ten, so the number itself is enough
-- fuel, and one more for zero.
digits_of : ℕ → ℕ → Text
digits_of zero n = []
digits_of (suc fuel) n =
    let more = digits_of fuel (n / 10) in (48 + n % 10) ∷ (if ltb n 10 then [] else more)

-- `to_string` of an unsigned number.
unfoldable pub decimal : ℕ → Text
unfolding digits_of
decimal n = reverse (digits_of (suc n) n)

decimal_test : decimal 1205 ≡ 49 ∷ 50 ∷ 48 ∷ 53 ∷ []
unfolding decimal
decimal_test = refl

module _ {ℓ} {A : Type ℓ} where
  pub append-cancel_length :
      (f g x y : List A) → length f ≡ length g → f ++ x ≡ g ++ y → (f ≡ g) × (x ≡ y)
  append-cancel_length [] [] x y h e = (refl, e)
  append-cancel_length [] (b ∷ g) x y h e = absurd (omega arith)
  append-cancel_length (a ∷ f) [] x y h e = absurd (omega arith)
  append-cancel_length (a ∷ f) (b ∷ g) x y h e =
      let r = append-cancel_length f g x y (omega arith) (tail-eq_of_cons-eq e) in
      let p = head-eq_of_cons-eq e in (ap₂ ◌∷◌ p r.0, r.1)
