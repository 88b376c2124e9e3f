-- ===== src/Audit/Validation.antt =====
-- crates/mentat-analysis/src/agent_loop.rs: what a validated bundle guarantees.
use code_mentat.Base.{
  Bool, true, false, not, ◌&&◌, ◌||◌, Option, none, some, List, [], ◌∷◌, Text, trim, is_empty,
  contains, distinct, any, All, component_eq, list_eq, nat_eq, ◌!=◌, !=-sound, or-split, ◌≡◌, ◌⊎◌,
  refl, sym, ◌∙◌, ap, subst, arith,
}
use code_mentat.Core.Error.{ok, >>=-eq-ok, fail_if-eq-ok}
use code_mentat.Core.Models.{is_unknown, Uuid, Claim, ConflictItem, AnswerBundle}
use code_mentat.Core.Tools.{GroundingTrace}
use code_mentat.Audit.{
  AuditServices, invalid, or_invalid, check_evidence, conflict_invalid, check_conflicts,
  claim_invalid, check_claims, compose_verified_answer, validate_audit_bundle,
}
use code_mentat.Audit.Evidence.{IsSource, or_invalid-eq-ok, evidence_ids, check_evidence-IsSource}

-- All ids are among the given ones.
abbrev pub AllIn : List Uuid → List Uuid → Type 0
AllIn ids known = All (λ id. contains id known ≡ true) ids

any-AllIn :
    (known ids : List Uuid) → any (λ id. not (contains id known)) ids ≡ false → AllIn ids known
unfolding any
any-AllIn known [] h = tt
any-AllIn known (id ∷ ids) h =
    let s = or-split (not (contains id known)) (any (λ i. not (contains i known)) ids) h in
    (ground (arith, s.0), any-AllIn known ids s.1)

not-false : (b : Bool) → not b ≡ false → b ≡ true
not-false b h = ground arith

and-cases : (a b : Bool) → (not a && b) ≡ false → (a ≡ true) ⊎ (b ≡ false)
and-cases a b h = ground arith

-- A conflict that rests on evidence, each piece named once.
pub record IsGroundedConflict (known : List Uuid) (c : ConflictItem) : Type 0 where
  pub filled : is_empty c.evidence_ids ≡ false
  pub all_distinct : distinct c.evidence_ids ≡ true
  pub all_known : AllIn c.evidence_ids known

check_conflicts-IsGroundedConflict :
    (known : List Uuid) (conflicts : List ConflictItem)
    → check_conflicts known conflicts ≡ ok tt
    → All (IsGroundedConflict known) conflicts
unfolding check_conflicts conflict_invalid
check_conflicts-IsGroundedConflict known [] h = tt
check_conflicts-IsGroundedConflict known (c ∷ conflicts) h =
    let s1 = fail_if-eq-ok (conflict_invalid known c) invalid _ tt h in
    let s2 = or-split _ (any (λ id. not (contains id known)) c.evidence_ids) s1.0 in
    let s3 = or-split (is_empty c.evidence_ids) (not (distinct c.evidence_ids)) s2.0 in
    (
      record {
        filled = s3.0;
        all_distinct = not-false (distinct c.evidence_ids) s3.1;
        all_known = any-AllIn known c.evidence_ids s2.1;
      },
      check_conflicts-IsGroundedConflict known conflicts s1.1,
    )

module _ {F : Type 0} (w : AuditServices F) where
  -- A claim with a statement, a confidence between 0 and 1, and known evidence, which only an
  -- unknown claim may lack.
  pub record IsGroundedClaim (known : List Uuid) (c : Claim F) : Type 0 where
    pub stated : is_empty (trim c.statement) ≡ false
    pub finite : w.is_finite c.confidence ≡ true
    pub between : w.in_unit c.confidence ≡ true
    pub grounded : (is_unknown c.classification ≡ true) ⊎ (is_empty c.evidence_ids ≡ false)
    pub all_known : AllIn c.evidence_ids known

  check_claims-IsGroundedClaim :
      (known : List Uuid) (claims : List (Claim F))
      → check_claims w known claims ≡ ok tt
      → All (IsGroundedClaim known) claims
  unfolding check_claims claim_invalid
  check_claims-IsGroundedClaim known [] h = tt
  check_claims-IsGroundedClaim known (c ∷ claims) h =
      let s1 = fail_if-eq-ok (claim_invalid w known c) invalid _ tt h in
      let s2 = or-split _ (any (λ id. not (contains id known)) c.evidence_ids) s1.0 in
      let s3 = or-split _ (not (is_unknown c.classification) && is_empty c.evidence_ids) s2.0 in
      let s4 = or-split _ (not (w.in_unit c.confidence)) s3.0 in
      let s5 = or-split (is_empty (trim c.statement)) (not (w.is_finite c.confidence)) s4.0 in
      (
        record {
          stated = s5.0;
          finite = not-false (w.is_finite c.confidence) s5.1;
          between = not-false (w.in_unit c.confidence) s4.1;
          grounded = and-cases (is_unknown c.classification) (is_empty c.evidence_ids) s3.1;
          all_known = any-AllIn known c.evidence_ids s2.1;
        },
        check_claims-IsGroundedClaim known claims s1.1,
      )

  -- A bundle whose every part rests on the sources of a trace.
  pub record IsAudited (request_id : Uuid) (t : GroundingTrace) (b : AnswerBundle F) : Type 0 where
    pub same_snapshot : t.snapshot_id ≡ some b.snapshot_id
    pub same_request : b.request_id ≡ request_id
    pub no_raw : b.raw_model_response ≡ none
    pub evidence_known : All (IsSource t.source_refs) b.evidence_map
    pub claims_grounded : All (IsGroundedClaim (evidence_ids b.evidence_map)) b.claims
    pub conflicts_grounded : All (IsGroundedConflict (evidence_ids b.evidence_map)) b.conflicts
    pub recomposed : b.direct_answer ≡ compose_verified_answer w b.claims

  -- A raw answer is accepted only with a trace. Then the bundle has the snapshot of the trace and
  -- the id of the request; each piece of evidence is a source of the trace, field by field; each
  -- claim has a statement and a confidence between 0 and 1 and rests on evidence of the bundle, which
  -- only an unknown claim may lack; each conflict rests on such evidence, named once; and the answer
  -- shown is composed of the claims, with nothing left of the raw text.
  pub validate_audit_bundle_grounded :
      (raw : Text) (request_id : Uuid) (trace : Option GroundingTrace) (b : AnswerBundle F)
      → validate_audit_bundle w raw request_id trace ≡ ok b
      → (t : GroundingTrace) × (trace ≡ some t) × IsAudited request_id t b
  unfolding validate_audit_bundle
  validate_audit_bundle_grounded raw request_id trace b h =
      let s1 = >>=-eq-ok (or_invalid trace) _ b h in
      let t = s1.0 in
      let s2 = >>=-eq-ok (or_invalid t.snapshot_id) _ b s1.2 in
      let s3 = >>=-eq-ok (or_invalid (w.decode raw)) _ b s2.2 in
      let d = s3.0 in
      let s4 =
        fail_if-eq-ok (d.snapshot_id != s2.0 || is_empty (trim d.direct_answer)) invalid _ b s3.2 in
      let s5 = >>=-eq-ok (check_evidence t.source_refs [] d.evidence_map) _ b s4.1 in
      let s6 = >>=-eq-ok (check_claims w s5.0 d.claims) _ b s5.2 in
      let s7 = >>=-eq-ok (check_conflicts s5.0 d.conflicts) _ b s6.2 in
      let evidence = check_evidence-IsSource t.source_refs d.evidence_map [] s5.0 s5.1 in
      let snapshot = or-split (d.snapshot_id != s2.0) (is_empty (trim d.direct_answer)) s4.0 in
      let made : record d {
        request_id = request_id;
        raw_model_response = none;
        direct_answer = compose_verified_answer w d.claims;
      }
          ≡ b =
        cc s7.2 in
      (
        t,
        or_invalid-eq-ok trace t s1.1,
        subst (IsAudited request_id t) made (record {
          same_snapshot =
              or_invalid-eq-ok t.snapshot_id s2.0 s2.1
              ∙ ap some (sym (!=-sound d.snapshot_id s2.0 snapshot.0));
          same_request = refl;
          no_raw = refl;
          evidence_known = evidence.0;
          claims_grounded =
              subst (λ o. All (IsGroundedClaim o) d.claims) evidence.1
                (check_claims-IsGroundedClaim s5.0 d.claims s6.1);
          conflicts_grounded =
              subst (λ o. All (IsGroundedConflict o) d.conflicts) evidence.1
                (check_conflicts-IsGroundedConflict s5.0 d.conflicts s7.1);
          recomposed = refl;
        }),
      )
