-- ===== src/Audit/Examples.antt =====
-- crates/mentat-analysis/src/agent_loop.rs: a bundle of one claim on one source. A confidence is a
-- number of hundredths.
use code_mentat.Base.{
  ℕ, true, none, some, [], ◌∷◌, Text, codes, normal, leb, decimal, ◌≡◌, refl, trim, contains, find,
  list_beq, component_beq, any,
}
use code_mentat.Core.Error.{ok}
use code_mentat.Core.Models.{Uuid, EvidenceRef, Claim, observed, AnswerBundle}
use code_mentat.Core.Tools.{SourceRef, GroundingTrace, fresh_at_send}
use code_mentat.Audit.{
  AuditServices, validate_audit_bundle, compose_verified_answer, check_evidence, catalog_get,
  evidence_differs, check_claims, claim_invalid, check_conflicts,
}
use code_mentat.Audit.Validation.{IsAudited, validate_audit_bundle_grounded}

abbrev source : SourceRef
source = record {
  id = 1;
  snapshot_id = 7;
  relative_path = normal (codes "a.rs") ∷ [];
  line_start = 2;
  line_end = 3;
  content_hash = codes "h";
  excerpt = codes "x";
}

abbrev evidence : EvidenceRef
evidence = record {
  id = 1;
  snapshot_id = 7;
  relative_path = normal (codes "a.rs") ∷ [];
  line_start = 2;
  line_end = 3;
  content_hash = codes "h";
  excerpt = codes "x";
}

abbrev claim : Claim ℕ
claim = record {
  id = 4;
  classification = observed;
  statement = codes "s";
  confidence = 90;
  evidence_ids = 1 ∷ [];
  rationale = none;
}

abbrev pub bundle : Uuid → Text → AnswerBundle ℕ
bundle request_id answer = record {
  request_id = request_id;
  snapshot_id = 7;
  direct_answer = answer;
  claims = claim ∷ [];
  evidence_map = evidence ∷ [];
  recommendations = [];
  conflicts = [];
  raw_model_response = none;
}

abbrev pub services : AuditServices ℕ
services = record {
  decode = λ raw. some (bundle 0 raw);
  is_finite = λ n. true;
  in_unit = λ n. leb n 100;
  show_confidence = decimal;
}

abbrev trace : GroundingTrace
trace = record {
  id = 2;
  conversation_id = 3;
  turn_id = 4;
  snapshot_id = some 7;
  tool_calls = [];
  source_refs = source ∷ [];
  egress_receipt_ids = [];
  freshness = fresh_at_send;
}

abbrev answered : AnswerBundle ℕ
answered = bundle 5 (compose_verified_answer services (claim ∷ []))

validated : validate_audit_bundle services (codes "raw") 5 (some trace) ≡ ok answered
unfolding validate_audit_bundle trim check_evidence contains catalog_get find evidence_differs
    list_beq component_beq check_claims claim_invalid any check_conflicts
validated = refl

validate_audit_bundle_grounded_example :
    (t : GroundingTrace) × (some trace ≡ some t) × IsAudited services 5 t answered
validate_audit_bundle_grounded_example =
    validate_audit_bundle_grounded services (codes "raw") 5 (some trace) answered validated
