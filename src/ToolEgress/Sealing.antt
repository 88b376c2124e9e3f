-- ===== src/ToolEgress/Sealing.antt =====
-- crates/mentat-analysis/src/tool_egress.rs: what a sealed receipt guarantees.
use code_mentat.Base.{
  Bool, true, false, ◌||◌, not, List, [], ◌∷◌, Text, Bytes, All, All-sort_by, list_eq, nat_eq, ◌==◌,
  ◌!=◌, ==-sound, ==_refl, !=-sound, or-split, and-split, ◌≡◌, ◌⊎◌, refl, sym, ◌∙◌, ap, subst,
  arith,
}
use code_mentat.Core.Error.{ok, backend_error, >>=-eq-ok, fail_if-eq-ok, fail_if-tt}
use code_mentat.Core.Models.{Uuid, Time}
use code_mentat.Core.Binding.{BindingServices, ProviderBinding, binding_beq, verify_target_digest}
use code_mentat.Core.Egress.{RepositoryConsentScope, CanonicalToolRef, ToolEgressReceipt, prepared}
use code_mentat.ToolEgress.{
  RuntimeConsentCapability, ToolEgressEnvelope, check_authorized, scope_mismatch, turn_mismatch,
  ref_invalid, validate_refs, ref_le, sort_refs, canonical_digest, unsealed, prepare, verify,
  verify_exact_body, is_set, receipt_fields, no_nonce, tool_egress_seal_version,
}
use code_mentat.ToolEgress.Canonical.{Collision, same_or_Collision}

-- The scope of a capability, as an envelope must fit it.
pub record IsInScope (c : RuntimeConsentCapability) (e : ToolEgressEnvelope) : Type 0 where
  pub not_cancelled : c.revoked ≡ false
  pub not_revoked : is_set c.scope.revoked_at ≡ false
  pub same_scope : scope_mismatch c.scope e ≡ false
  pub same_turn : turn_mismatch c.scope.kind e.turn_id ≡ false

abbrev pub IsValidRef : CanonicalToolRef → Type 0
IsValidRef r = ref_invalid r ≡ false

validate_refs-All :
    (refs : List CanonicalToolRef) → validate_refs refs ≡ ok tt → All IsValidRef refs
unfolding validate_refs
validate_refs-All [] h = tt
validate_refs-All (r ∷ refs) h =
    let s = fail_if-eq-ok (ref_invalid r) (backend_error "TOOL_EGRESS_REF_INVALID") _ tt h in
    (s.0, validate_refs-All refs s.1)

All-validate_refs :
    (refs : List CanonicalToolRef) → All IsValidRef refs → validate_refs refs ≡ ok tt
unfolding validate_refs
All-validate_refs [] h = refl
All-validate_refs (r ∷ refs) h = rw (h.0) (All-validate_refs refs h.1)

-- What the steps of a preparation that gave a receipt have shown.
pub record IsPreparedFrom (w : BindingServices) (c : RuntimeConsentCapability)
    (e : ToolEgressEnvelope) (now : Time) (id : Uuid) (r : ToolEgressReceipt) : Type 0 where
  pub in_scope : IsInScope c e
  pub nonce_set : (c.nonce == no_nonce) ≡ false
  pub target_verified : verify_target_digest w e.provider_binding ≡ ok tt
  pub refs_valid : validate_refs e.refs ≡ ok tt
  pub digest : Text
  pub digested : canonical_digest w (unsealed w c.scope e now id) ≡ ok digest
  pub made : r ≡ record (unsealed w c.scope e now id) { canonical_digest = digest }

pub prepare-IsPreparedFrom :
    (w : BindingServices) (c : RuntimeConsentCapability) (e : ToolEgressEnvelope) (now : Time)
    (id : Uuid) (r : ToolEgressReceipt)
    → prepare w c e now id ≡ ok r
    → IsPreparedFrom w c e now id r
unfolding prepare check_authorized
prepare-IsPreparedFrom w c e now id r h =
    let s1 =
      fail_if-eq-ok (c.revoked || is_set c.scope.revoked_at)
        (backend_error "TOOL_EGRESS_CONSENT_REVOKED") _ r h in
    let s2 = fail_if-eq-ok _ (backend_error "TOOL_EGRESS_CAPABILITY_INVALID") _ r s1.1 in
    let s3 = fail_if-eq-ok _ (backend_error "TOOL_EGRESS_CONSENT_REVOKED") _ r s2.1 in
    let s4 = fail_if-eq-ok _ (backend_error "TOOL_EGRESS_SCOPE_MISMATCH") _ r s3.1 in
    let s5 = fail_if-eq-ok _ (backend_error "TOOL_EGRESS_TURN_MISMATCH") _ r s4.1 in
    let s6 = >>=-eq-ok (verify_target_digest w e.provider_binding) _ r s5.1 in
    let s7 = >>=-eq-ok (validate_refs e.refs) _ r s6.2 in
    let s8 = >>=-eq-ok (canonical_digest w (unsealed w c.scope e now id)) _ r s7.2 in
    record {
      in_scope = record {
        not_cancelled = (or-split c.revoked (is_set c.scope.revoked_at) s1.0).0;
        not_revoked = s3.0;
        same_scope = s4.0;
        same_turn = s5.0;
      };
      nonce_set = s2.0;
      target_verified = s6.1;
      refs_valid = s7.1;
      digest = s8.0;
      digested = s8.1;
      made = cc s8.2;
    }

not-false : (b : Bool) → not b ≡ false → b ≡ true
not-false b h = ground arith

binding_beq_sound : (a b : ProviderBinding) → binding_beq a b ≡ true → a ≡ b
unfolding binding_beq
binding_beq_sound a b h =
    let s1 = and-split _ (a.target_digest == b.target_digest) h in
    let s2 = and-split _ (a.model_id == b.model_id) s1.0 in
    let s3 = and-split _ (a.endpoint_identity == b.endpoint_identity) s2.0 in
    let s4 = and-split (a.profile_id == b.profile_id) (a.provider == b.provider) s3.0 in
    cc (
      ==-sound a.profile_id b.profile_id s4.0,
      ==-sound a.provider b.provider s4.1,
      ==-sound a.endpoint_identity b.endpoint_identity s3.1,
      ==-sound a.model_id b.model_id s2.1,
      ==-sound a.target_digest b.target_digest s1.1,
    )

-- A receipt that a consent scope covers.
pub record IsCoveredBy (scope : RepositoryConsentScope) (r : ToolEgressReceipt) : Type 0 where
  pub scope_open : is_set scope.revoked_at ≡ false
  pub scope_named : r.consent_scope_id ≡ scope.id
  pub same_conversation : r.conversation_id ≡ scope.conversation_id
  pub same_repository : r.repository_id ≡ scope.repository_id
  pub same_snapshot : r.snapshot_id ≡ scope.snapshot_id
  pub same_provider : r.provider_binding ≡ scope.provider_binding
  pub turn_allowed : turn_mismatch scope.kind r.turn_id ≡ false
  pub refs_inside : All IsValidRef r.canonical_refs
  pub still_prepared : r.status ≡ prepared

-- A receipt is prepared only under a capability that is not revoked, and it is covered by the
-- capability's scope: the scope's conversation, repository, snapshot and provider, a turn that the
-- scope allows, valid refs inside the repository, and the status `prepared`.
pub prepare_covered :
    (w : BindingServices) (c : RuntimeConsentCapability) (e : ToolEgressEnvelope) (now : Time)
    (id : Uuid) (r : ToolEgressReceipt)
    → prepare w c e now id ≡ ok r
    → (c.revoked ≡ false) × IsCoveredBy c.scope r
unfolding unsealed scope_mismatch sort_refs
prepare_covered w c e now id r h =
    let p = prepare-IsPreparedFrom w c e now id r h in
    let scope = c.scope in
    let m1 =
      or-split _ (not (binding_beq scope.provider_binding e.provider_binding))
        p.in_scope.same_scope in
    let m2 = or-split _ (scope.snapshot_id != e.snapshot_id) m1.0 in
    let m3 = or-split _ (scope.repository_id != e.repository_id) m2.0 in
    let bound = binding_beq_sound scope.provider_binding e.provider_binding (not-false _ m1.1) in
    (
      p.in_scope.not_cancelled,
      subst (λ o. IsCoveredBy scope o) (sym p.made)
          (record {
            scope_open = p.in_scope.not_revoked;
            scope_named = refl;
            same_conversation = sym (!=-sound scope.conversation_id e.conversation_id m3.0);
            same_repository = sym (!=-sound scope.repository_id e.repository_id m3.1);
            same_snapshot = sym (!=-sound scope.snapshot_id e.snapshot_id m2.1);
            same_provider = sym bound;
            turn_allowed = p.in_scope.same_turn;
            refs_inside =
                All-sort_by ref_le IsValidRef e.refs (validate_refs-All e.refs p.refs_valid);
            still_prepared = refl;
          }),
    )

-- A prepared receipt is accepted again for the body that it was prepared for.
pub prepare-verify_exact_body :
    (w : BindingServices) (c : RuntimeConsentCapability) (e : ToolEgressEnvelope) (now : Time)
    (id : Uuid) (r : ToolEgressReceipt)
    → prepare w c e now id ≡ ok r
    → verify_exact_body w r e.exact_provider_body ≡ ok tt
unfolding verify_exact_body verify unsealed canonical_digest receipt_fields sort_refs
prepare-verify_exact_body w c e now id r h =
    let p = prepare-IsPreparedFrom w c e now id r h in
    let valid =
      All-validate_refs _
        (All-sort_by ref_le IsValidRef e.refs (validate_refs-All e.refs p.refs_valid)) in
    subst (λ o. verify_exact_body w o e.exact_provider_body ≡ ok tt) (sym p.made)
      (rw
        (
          ==_refl tool_egress_seal_version,
          p.target_verified,
          valid,
          p.digested,
          ==_refl p.digest,
          ==_refl (w.sha256_hex e.exact_provider_body),
        )
        refl)

-- A prepared receipt is accepted for no other body, unless the hash has a collision.
pub verify_exact_body_only :
    (w : BindingServices) (c : RuntimeConsentCapability) (e : ToolEgressEnvelope) (now : Time)
    (id : Uuid) (r : ToolEgressReceipt) (body : Bytes)
    → prepare w c e now id ≡ ok r
    → verify_exact_body w r body ≡ ok tt
    → (body ≡ e.exact_provider_body) ⊎ Collision w.sha256_hex
unfolding verify_exact_body unsealed
verify_exact_body_only w c e now id r body h k =
    let p = prepare-IsPreparedFrom w c e now id r h in
    let s1 = >>=-eq-ok (verify w r) _ tt k in
    let s2 = fail_if-tt _ (backend_error "TOOL_EGRESS_BODY_DIGEST_MISMATCH") s1.2 in
    let kept : r.exact_provider_body_digest ≡ w.sha256_hex e.exact_provider_body =
      ap (λ o. o.exact_provider_body_digest) p.made in
    same_or_Collision w.sha256_hex body e.exact_provider_body
      (!=-sound (w.sha256_hex body) r.exact_provider_body_digest s2 ∙ kept)
