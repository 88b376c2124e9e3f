-- ===== src/ToolEgress/Canonical.antt =====
-- crates/mentat-analysis/src/tool_egress.rs: what the digest of a receipt says of its fields.
use code_mentat.Base.{
  List, [], ◌∷◌, replace_char, path_text, decimal, map, Text, Bytes, as_bytes, list_eq, nat_eq,
  ◌==◌, ==-sound, ==_refl, Bool-cases, ◌≡◌, ◌⊎◌, inl, inr,
}
use code_mentat.Core.Models.{Uuid}
use code_mentat.Core.Tools.{wire_name}
use code_mentat.Core.Egress.{CanonicalToolRef, ToolEgressReceipt}
use code_mentat.ToolEgress.{sort_refs, refs_fields, canonical_digest, receipt_fields, frames}
use code_mentat.Core.Error.{ok, >>=-eq-ok}
use code_mentat.Core.Binding.{BindingServices}
use code_mentat.ToolEgress.Frames.{frames-injective}

-- Two byte strings that differ and have the same hash.
pub record Collision (hash : Bytes → Text) : Type 0 where
  pub left : Bytes
  pub right : Bytes
  pub differ : ¬ (left ≡ right)
  pub collide : hash left ≡ hash right

pub same_or_Collision :
    (hash : Bytes → Text) (a b : Bytes) → hash a ≡ hash b → (a ≡ b) ⊎ Collision hash
same_or_Collision hash a b h = elim (Bool-cases (a == b)) [
  | inl s ↦ inl (==-sound a b s)
  | inr s ↦ inr (record { left = a; right = b; differ = λ p. cc (==_refl a, p, s); collide = h })
]

abbrev pub SameBytes : Text → Text → Type 0
SameBytes a b = as_bytes a ≡ as_bytes b

-- What a reference is bound by: its path, with `/` for `\`, its lines and its two hashes.
pub record SameRef (a b : CanonicalToolRef) : Type 0 where
  pub relative_path :
      SameBytes
        (replace_char 92 47 (path_text a.relative_path))
        (replace_char 92 47 (path_text b.relative_path))
  pub line_start : SameBytes (decimal a.line_start) (decimal b.line_start)
  pub line_end : SameBytes (decimal a.line_end) (decimal b.line_end)
  pub content_hash : SameBytes a.content_hash b.content_hash
  pub redacted_payload_digest : SameBytes a.redacted_payload_digest b.redacted_payload_digest

abbrev pub SameRefs : List CanonicalToolRef → List CanonicalToolRef → Type 0
SameRefs [] [] = Unit
SameRefs [] (b ∷ ss) = ⊥
SameRefs (a ∷ rs) [] = ⊥
SameRefs (a ∷ rs) (b ∷ ss) = SameRef a b × SameRefs rs ss

pub record SameReceipt (r s : ToolEgressReceipt) : Type 0 where
  pub seal_version : SameBytes r.seal_version s.seal_version
  pub id : r.id ≡ s.id
  pub trace_id : r.trace_id ≡ s.trace_id
  pub consent_scope_id : r.consent_scope_id ≡ s.consent_scope_id
  pub conversation_id : r.conversation_id ≡ s.conversation_id
  pub turn_id : r.turn_id ≡ s.turn_id
  pub tool_call_id : r.tool_call_id ≡ s.tool_call_id
  pub repository_id : r.repository_id ≡ s.repository_id
  pub snapshot_id : r.snapshot_id ≡ s.snapshot_id
  pub tool_name : SameBytes (wire_name r.tool_name) (wire_name s.tool_name)
  pub profile_id : r.provider_binding.profile_id ≡ s.provider_binding.profile_id
  pub provider : SameBytes r.provider_binding.provider s.provider_binding.provider
  pub endpoint_identity :
      SameBytes r.provider_binding.endpoint_identity s.provider_binding.endpoint_identity
  pub model_id : SameBytes r.provider_binding.model_id s.provider_binding.model_id
  pub target_digest : SameBytes r.provider_binding.target_digest s.provider_binding.target_digest
  pub semantic_payload_digest : SameBytes r.semantic_payload_digest s.semantic_payload_digest
  pub exact_provider_body_digest :
      SameBytes r.exact_provider_body_digest s.exact_provider_body_digest
  pub canonical_refs : SameRefs (sort_refs r.canonical_refs) (sort_refs s.canonical_refs)

-- Lists that are equal have equal heads and tails.
heads : {A : Type 0} (x y : A) (xs ys : List A) → x ∷ xs ≡ y ∷ ys → (x ≡ y) × (xs ≡ ys)
heads x y xs ys h = (cc h, cc h)

refs_fields-SameRefs :
    (rs ss : List CanonicalToolRef)
    → map as_bytes (refs_fields rs) ≡ map as_bytes (refs_fields ss)
    → SameRefs rs ss
unfolding refs_fields
refs_fields-SameRefs [] [] h = tt
refs_fields-SameRefs [] (b ∷ ss) h = cc h
refs_fields-SameRefs (a ∷ rs) [] h = cc h
refs_fields-SameRefs (a ∷ rs) (b ∷ ss) h =
    let p = heads _ _ _ _ h in
    let q = heads _ _ _ _ p.1 in
    let r = heads _ _ _ _ q.1 in
    let s = heads _ _ _ _ r.1 in
    let t = heads _ _ _ _ s.1 in
    (
      record {
        relative_path = p.0;
        line_start = q.0;
        line_end = r.0;
        content_hash = s.0;
        redacted_payload_digest = t.0;
      },
      refs_fields-SameRefs rs ss t.1,
    )

receipt_fields-SameReceipt :
    (w : BindingServices) (r s : ToolEgressReceipt)
    → ((a b : Uuid) → SameBytes (w.show_uuid a) (w.show_uuid b) → a ≡ b)
    → map as_bytes (receipt_fields w r) ≡ map as_bytes (receipt_fields w s)
    → SameReceipt r s
unfolding receipt_fields
receipt_fields-SameReceipt w r s shown h0 =
    let h1 = heads _ _ _ _ h0 in
    let h2 = heads _ _ _ _ h1.1 in
    let h3 = heads _ _ _ _ h2.1 in
    let h4 = heads _ _ _ _ h3.1 in
    let h5 = heads _ _ _ _ h4.1 in
    let h6 = heads _ _ _ _ h5.1 in
    let h7 = heads _ _ _ _ h6.1 in
    let h8 = heads _ _ _ _ h7.1 in
    let h9 = heads _ _ _ _ h8.1 in
    let h10 = heads _ _ _ _ h9.1 in
    let h11 = heads _ _ _ _ h10.1 in
    let h12 = heads _ _ _ _ h11.1 in
    let h13 = heads _ _ _ _ h12.1 in
    let h14 = heads _ _ _ _ h13.1 in
    let h15 = heads _ _ _ _ h14.1 in
    let h16 = heads _ _ _ _ h15.1 in
    let h17 = heads _ _ _ _ h16.1 in
    record {
      seal_version = h1.0;
      id = shown _ _ h2.0;
      trace_id = shown _ _ h3.0;
      consent_scope_id = shown _ _ h4.0;
      conversation_id = shown _ _ h5.0;
      turn_id = shown _ _ h6.0;
      tool_call_id = shown _ _ h7.0;
      repository_id = shown _ _ h8.0;
      snapshot_id = shown _ _ h9.0;
      tool_name = h10.0;
      profile_id = shown _ _ h11.0;
      provider = h12.0;
      endpoint_identity = h13.0;
      model_id = h14.0;
      target_digest = h15.0;
      semantic_payload_digest = h16.0;
      exact_provider_body_digest = h17.0;
      canonical_refs = refs_fields-SameRefs _ _ h17.1;
    }

-- When no two ids are shown by the same bytes, two receipts with the same canonical digest have the
-- same ids, and byte for byte the same version, name of the tool, provider binding, digests of the
-- payload and of the body, and sorted references; or the hash has a collision. The status and the
-- times are not bound.
pub canonical_digest-binds :
    (w : BindingServices) (r s : ToolEgressReceipt) (digest : Text)
    → ((a b : Uuid) → SameBytes (w.show_uuid a) (w.show_uuid b) → a ≡ b)
    → canonical_digest w r ≡ ok digest
    → canonical_digest w s ≡ ok digest
    → SameReceipt r s ⊎ Collision w.sha256_hex
unfolding canonical_digest
canonical_digest-binds w r s digest shown h k =
    let a = >>=-eq-ok (frames (receipt_fields w r)) _ digest h in
    let b = >>=-eq-ok (frames (receipt_fields w s)) _ digest k in
    let same : w.sha256_hex a.0 ≡ w.sha256_hex b.0 = cc (a.2, b.2) in
    elim (same_or_Collision w.sha256_hex a.0 b.0 same) [
      | inl p ↦ inl (
          receipt_fields-SameReceipt w r s shown
            (frames-injective (receipt_fields w r) (receipt_fields w s) b.0 (cc (a.1, p)) b.1))
      | inr c ↦ inr c
    ]
