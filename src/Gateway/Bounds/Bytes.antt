-- ===== src/Gateway/Bounds/Bytes.antt =====
-- The cut of a content at a character boundary.
use mathlib.Core.List.{append-nil}
use code_mentat.Base.{
  ◌⊎◌, ℕ, zero, suc, ◌+◌, ◌-◌, ◌≤◌, ◌<◌, true, List, [], ◌∷◌, ◌++◌, ◌≡◌, refl, ap, Text, byte_len,
  char_len, char_len-pos, leb, nat_beq, arith, Bool-cases, inl, inr,
}
use code_mentat.Core.Tools.{ToolOmission}
use code_mentat.Gateway.Types.{is_char_boundary, back_to_boundary, truncate_bytes, bound_content_to}

boundary_zero : (t : Text) → is_char_boundary t 0 ≡ true
unfolding is_char_boundary
boundary_zero [] = refl
boundary_zero (c ∷ t) = refl

byte_len-truncate :
    (t : Text) (end : ℕ) → is_char_boundary t end ≡ true → byte_len (truncate_bytes t end) ≡ end
unfolding is_char_boundary truncate_bytes byte_len
byte_len-truncate [] end h = ground arith
byte_len-truncate (c ∷ t) end h = ground (arith, byte_len-truncate t (end - char_len c))

truncate_bytes-prefix : (t : Text) (end : ℕ) → (rest : Text) × (truncate_bytes t end ++ rest ≡ t)
unfolding truncate_bytes
truncate_bytes-prefix [] end = ([], refl)
truncate_bytes-prefix (c ∷ t) end = elim (Bool-cases (nat_beq end 0)) [
  | inl e ↦ (c ∷ t, rw e)
  | inr e ↦
      let (rest, p) = truncate_bytes-prefix t (end - char_len c) in
      (rest, rw e (ap (λ (r : Text). c ∷ r) p))
]

back_to_boundary-boundary :
    (t : Text) (end : ℕ)
    → (is_char_boundary t (back_to_boundary t end) ≡ true) × (back_to_boundary t end ≤ end)
unfolding back_to_boundary
back_to_boundary-boundary t zero = (boundary_zero t, omega arith)
back_to_boundary-boundary t (suc end) = ground (arith, back_to_boundary-boundary t end)

-- No boundary up to `end` lies behind the one that the loop finds.
back_to_boundary-last :
    (t : Text) (end b : ℕ) → b ≤ end → is_char_boundary t b ≡ true → b ≤ back_to_boundary t end
unfolding back_to_boundary
back_to_boundary-last t zero b h k = h
back_to_boundary-last t (suc end) b h k = elim (Bool-cases (is_char_boundary t (suc end))) [
  | inl e ↦ rw e h
  | inr e ↦ elim (Bool-cases (nat_beq b (suc end))) [
    | inl q ↦ let r : b ≡ suc end = ground arith in cc
    | inr q ↦ rw e (back_to_boundary-last t end b (ground arith) k)
  ]
]

boundary_step :
    (c : ℕ) (t : Text) (b : ℕ)
    → is_char_boundary t b ≡ true
    → is_char_boundary (c ∷ t) (char_len c + b) ≡ true
unfolding is_char_boundary
boundary_step c t b k =
    let e : char_len c + b - char_len c ≡ b = omega arith in rw e (ground (arith, char_len-pos c))

-- There is a boundary at most three bytes before any offset within the text.
near_boundary :
    (t : Text) (n : ℕ)
    → n ≤ byte_len t
    → (b : ℕ) × (is_char_boundary t b ≡ true) × (b ≤ n) × (n < b + 4)
unfolding byte_len
near_boundary t zero h = (0, boundary_zero t, omega arith, omega arith)
near_boundary [] (suc n) h = absurd (omega arith)
near_boundary (c ∷ t) (suc n) h = elim (Bool-cases (leb (char_len c) (suc n))) [
  | inl e ↦
      let (b, k, le, near) = near_boundary t (suc n - char_len c) (ground arith) in
      (char_len c + b, boundary_step c t b k, ground arith, ground arith)
  | inr e ↦ (0, boundary_zero (c ∷ t), omega arith, ground (arith, char_len-pos c))
]

-- A content beyond the limit is cut to a prefix of whole characters, which keeps the limit and
-- misses it by at most three bytes; a content within the limit stays whole.
pub bound_content_cut :
    (limit : ℕ) (content : Text) (omissions : List ToolOmission)
    → let cut = (bound_content_to limit content omissions).0 in
      (byte_len cut ≤ limit)
      × ((rest : Text) × (cut ++ rest ≡ content))
      × ((cut ≡ content) ⊎ (limit < byte_len cut + 4))
unfolding bound_content_to
bound_content_cut limit content omissions = elim (Bool-cases (leb (byte_len content) limit)) [
  | inl e ↦ rw e (ground arith, ([], append-nil content), inl refl)
  | inr e ↦
      let end = back_to_boundary content limit in
      let found = back_to_boundary-boundary content limit in
      let size = byte_len-truncate content end found.0 in
      let (b, k, le, near) = near_boundary content limit (ground arith) in
      let last = back_to_boundary-last content limit b le k in
      rw e (
        omega (arith, size, found.1),
        truncate_bytes-prefix content end,
        inr (omega (arith, size, last, near)),
      )
]
