-- ===== src/Audit.antt =====
-- crates/mentat-analysis/src/agent_loop.rs, `validate_audit_bundle`, and the answer that
-- crates/mentat-analysis/src/answer_bundle.rs composes. JSON and the numbers of type `f32`, with
-- their tests and their text, are parameters. The set of the ids seen is the list of them.
pub mod Evidence
pub mod Validation
pub mod Examples
use code_mentat.Base.{
  ℕ, Bool, true, false, not, ◌&&◌, ◌||◌, Option, none, some, List, [], ◌∷◌, ◌++◌, map, Text, codes,
  trim, is_empty, contains, distinct, any, find, retain, length, decimal, join_lines, component_eq,
  list_eq, nat_eq, ◌==◌, ◌!=◌,
}
use mathlib.Core.List.{reverse}
use code_mentat.Core.Error.{MentatError, Result, ok, err, backend_error, ◌>>=◌, ◌>>◌, fail_if}
use code_mentat.Core.Models.{
  Uuid, EvidenceRef, Claim, ClaimClassification, is_unknown, observed, inferred, proposed, conflict,
  unknown, ConflictItem, AnswerBundle,
}
use code_mentat.Core.Tools.{SourceRef, GroundingTrace}

pub record AuditServices (F : Type 0) : Type 0 where
  pub decode : Text → Option (AnswerBundle F)
  pub is_finite : F → Bool
  pub in_unit : F → Bool
  pub show_confidence : F → Text

abbrev pub invalid : MentatError
invalid = backend_error "AUDIT_RESPONSE_INVALID"

abbrev pub or_invalid {ℓ} : {A : Type ℓ} → Option A → Result A
or_invalid none = err invalid
or_invalid (some a) = ok a

-- The catalog is a map by id, in which a later source replaces an earlier one.
unfoldable pub catalog_get : List SourceRef → Uuid → Option SourceRef
catalog_get sources id = find (λ s. s.id == id) (reverse sources)

unfoldable pub evidence_differs : EvidenceRef → SourceRef → Bool
evidence_differs e s =
    e.snapshot_id != s.snapshot_id
    || e.relative_path != s.relative_path
    || e.line_start != s.line_start
    || e.line_end != s.line_end
    || e.content_hash != s.content_hash
    || e.excerpt != s.excerpt

-- The loop over the evidence; it gives the ids that it has seen.
unfoldable pub check_evidence : List SourceRef → List Uuid → List EvidenceRef → Result (List Uuid)
check_evidence sources seen [] = ok seen
check_evidence sources seen (e ∷ evidence) = do
  fail_if (contains e.id seen) invalid
  source ← or_invalid (catalog_get sources e.id)
  fail_if (evidence_differs e source) invalid
  check_evidence sources (seen ++ (e.id ∷ [])) evidence

unfoldable pub conflict_invalid : List Uuid → ConflictItem → Bool
conflict_invalid seen c =
    is_empty c.evidence_ids
    || not (distinct c.evidence_ids)
    || any (λ id. not (contains id seen)) c.evidence_ids

unfoldable pub check_conflicts : List Uuid → List ConflictItem → Result (Unit {0})
check_conflicts seen [] = ok tt
check_conflicts seen (c ∷ conflicts) =
    fail_if (conflict_invalid seen c) invalid >> check_conflicts seen conflicts

abbrev pub label : ClaimClassification → Text
label observed = codes "OBSERVED"
label inferred = codes "INFERRED"
label proposed = codes "PROPOSED"
label conflict = codes "CONFLICT"
label unknown = []

abbrev pub no_answer : Text
no_answer = codes "검증된 근거 기반 답변을 생성할 수 없습니다. 모델 원문은 검증되지 않은 진단 데이터로만 보존되었습니다."

module _ {F : Type 0} (w : AuditServices F) where
  unfoldable pub claim_invalid : List Uuid → Claim F → Bool
  claim_invalid seen c =
      is_empty (trim c.statement)
      || not (w.is_finite c.confidence)
      || not (w.in_unit c.confidence)
      || (not (is_unknown c.classification) && is_empty c.evidence_ids)
      || any (λ id. not (contains id seen)) c.evidence_ids

  unfoldable pub check_claims : List Uuid → List (Claim F) → Result (Unit {0})
  check_claims seen [] = ok tt
  check_claims seen (c ∷ claims) =
      fail_if (claim_invalid seen c) invalid >> check_claims seen claims

  unfoldable pub claim_line : Claim F → Text
  claim_line c =
      codes "- ["
      ++ (label c.classification
          ++ (codes "] "
              ++ (c.statement
                  ++ (codes " (신뢰도 "
                      ++ (w.show_confidence c.confidence
                          ++ (codes ", 근거 " ++ (decimal (length c.evidence_ids) ++ codes "건)")))))))

  abbrev pub composed : List Text → Text
  composed [] = no_answer
  composed (l ∷ rest) = codes "검증된 주장 기반 답변:\n" ++ join_lines (l ∷ rest)

  -- `AnswerBundleNormalizer::compose_verified_answer`.
  unfoldable pub compose_verified_answer : List (Claim F) → Text
  compose_verified_answer claims =
      composed (map claim_line (retain (λ c. not (is_unknown c.classification)) claims))

  unfoldable pub validate_audit_bundle :
      Text → Uuid → Option GroundingTrace → Result (AnswerBundle F)
  validate_audit_bundle raw request_id trace = do
    t ← or_invalid trace
    snapshot_id ← or_invalid t.snapshot_id
    bundle ← or_invalid (w.decode raw)
    fail_if (bundle.snapshot_id != snapshot_id || is_empty (trim bundle.direct_answer)) invalid
    seen ← check_evidence t.source_refs [] bundle.evidence_map
    check_claims seen bundle.claims
    check_conflicts seen bundle.conflicts
    ok (record bundle {
      request_id = request_id;
      raw_model_response = none;
      direct_answer = compose_verified_answer bundle.claims;
    })
