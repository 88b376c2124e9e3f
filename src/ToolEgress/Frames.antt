-- ===== src/ToolEgress/Frames.antt =====
-- crates/mentat-analysis/src/tool_egress.rs: the frames of the canonical digest, each field behind
-- its length.
use code_mentat.Base.{
  ◌≤◌, List, [], ◌∷◌, ◌++◌, map, Text, Bytes, as_bytes, to_be_bytes, length, ltb, u64_max,
  from_be_bytes, from-to_be_bytes, append-cancel_length, ◌≡◌, refl, sym, ap, ◌∙◌, arith, ap₂,
}
use code_mentat.Core.Error.{ok, backend_error, >>=-eq-ok, fail_if-eq-ok}
use code_mentat.ToolEgress.{frames}

-- A framed list whose digest input is known: its first field, its length, its rest.
frames-cons :
    (field : Text) (fields : List Text) (out : Bytes)
    → frames (field ∷ fields) ≡ ok out
    → (rest : Bytes) × (length (as_bytes field) ≤ u64_max)
      × (frames fields ≡ ok rest)
      × (to_be_bytes (length (as_bytes field)) ++ (as_bytes field ++ rest) ≡ out)
unfolding frames
frames-cons field fields out h =
    let e = backend_error "TOOL_EGRESS_FIELD_TOO_LARGE" in
    let s1 = fail_if-eq-ok (ltb u64_max (length (as_bytes field))) e _ out h in
    let s2 = >>=-eq-ok (frames fields) _ out s1.1 in (s2.0, ground (arith, s1.0), s2.1, cc s2.2)

-- What is framed alike is alike, and so is what follows.
frame-injective :
    (u v r s : Bytes)
    → length u ≤ u64_max
    → length v ≤ u64_max
    → to_be_bytes (length u) ++ (u ++ r) ≡ to_be_bytes (length v) ++ (v ++ s)
    → (u ≡ v) × (r ≡ s)
unfolding to_be_bytes
frame-injective u v r s h k e =
    let n = from-to_be_bytes (length u) (u ++ r) (omega arith) in
    let m = from-to_be_bytes (length v) (v ++ s) (omega arith) in
    let same : length u ≡ length v = sym n ∙ (ap from_be_bytes e ∙ m) in
    let cut =
      append-cancel_length (to_be_bytes (length u)) (to_be_bytes (length v)) (u ++ r) (v ++ s) refl
        e in
    append-cancel_length u v r s same cut.1

nil-framed :
    (y : Text) (ys : List Text) (out : Bytes) → frames [] ≡ ok out → ¬ (frames (y ∷ ys) ≡ ok out)
unfolding frames to_be_bytes
nil-framed y ys out h k =
    let b = frames-cons y ys out k in let none : ok [] ≡ ok out = h in cc (b.3, none)

-- Two lists of fields with the same framed bytes have the same fields, as bytes.
pub frames-injective :
    (xs ys : List Text) (out : Bytes)
    → frames xs ≡ ok out
    → frames ys ≡ ok out
    → map as_bytes xs ≡ map as_bytes ys
frames-injective [] [] out h k = refl
frames-injective [] (y ∷ ys) out h k = absurd (nil-framed y ys out h k)
frames-injective (x ∷ xs) [] out h k = absurd (nil-framed x xs out k h)
frames-injective (x ∷ xs) (y ∷ ys) out h k =
    let a = frames-cons x xs out h in
    let b = frames-cons y ys out k in
    let f = frame-injective (as_bytes x) (as_bytes y) a.0 b.0 a.1 b.1 (a.3 ∙ sym b.3) in
    let same : frames ys ≡ ok a.0 = cc (f.1, b.2) in
    ap₂ ◌∷◌ f.0 (frames-injective xs ys a.0 a.2 same)
