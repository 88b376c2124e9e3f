-- ===== src/Answer/Examples.antt =====
-- crates/mentat-analysis/src/answer_bundle.rs: an answer of two claims, one of which cites evidence
-- that is not there.
use code_mentat.Base.{
  ℕ, true, Option, none, some, List, [], ◌∷◌, Text, codes, FilePath, normal, leb, component_beq,
  list_beq, trim, lines, distinct, any, find, retain, contains, insert_by, sort_by, has_substring,
  is_whitespace, join_lines, starts_with, trim_start, All, length, ◌≡◌, refl,
}
use code_mentat.Core.Models.{
  Uuid, FileRecord, source_code, EvidenceRef, Claim, ClaimClassification, observed, unknown,
  AnswerBundle,
}
use code_mentat.Answer.{
  Floats, settle_claim, claim_refused, id_kept, invalid_ids, evidence_valid, citation_is_valid,
  file_cited, excerpt_matches_range, replace_crlf, dedup, kept_ids, validate_citations,
}
use code_mentat.Answer.Citations.{IsSettledClaim, IsCitedConflict, validate_citations_settled}

abbrev hundredths : Floats ℕ
hundredths = record { zero = 0; is_finite = λ n. true; in_unit = λ n. leb n 100 }

abbrev file : FileRecord
file = record {
  relative_path = normal (codes "a.rs") ∷ [];
  kind = source_code;
  size_bytes = 10;
  content_hash = codes "h";
  is_text = true;
  line_count = some 2;
  text_preview = some (codes "fn a\nlet b");
}

abbrev evidence : EvidenceRef
evidence = record {
  id = 1;
  snapshot_id = 7;
  relative_path = normal (codes "a.rs") ∷ [];
  line_start = 2;
  line_end = 2;
  content_hash = codes "h";
  excerpt = codes "let b";
}

abbrev claim : ClaimClassification → ℕ → List Uuid → Option Text → Claim ℕ
claim classification confidence ids rationale = record {
  id = 4;
  classification = classification;
  statement = codes "s";
  confidence = confidence;
  evidence_ids = ids;
  rationale = rationale;
}

abbrev bundle : List (Claim ℕ) → AnswerBundle ℕ
bundle claims = record {
  request_id = 5;
  snapshot_id = 7;
  direct_answer = codes "d";
  claims = claims;
  evidence_map = evidence ∷ [];
  recommendations = [];
  conflicts = [];
  raw_model_response = none;
}

abbrev given : AnswerBundle ℕ
given = bundle (claim observed 90 (1 ∷ []) none ∷ claim observed 80 (9 ∷ []) none ∷ [])

abbrev no_texts : FilePath → Option Text
no_texts path = none

-- The second claim loses its evidence, its confidence and its classification.
settled_claims :
    (validate_citations hundredths given 7 (file ∷ []) no_texts).claims
    ≡ claim observed 90 (1 ∷ []) none ∷ claim unknown 0 [] (some (codes "EVIDENCE_REQUIRED")) ∷ []
unfolding validate_citations settle_claim claim_refused id_kept invalid_ids evidence_valid
    citation_is_valid file_cited component_beq list_beq excerpt_matches_range trim lines
    replace_crlf dedup kept_ids distinct any find retain contains insert_by sort_by has_substring
    is_whitespace join_lines starts_with trim_start
settled_claims = refl

validate_citations_settled_example :
    let after = validate_citations hundredths given 7 (file ∷ []) no_texts in
    All (IsSettledClaim 7 (file ∷ []) no_texts given.evidence_map hundredths) after.claims
    × All (IsCitedConflict 7 (file ∷ []) no_texts given.evidence_map) after.conflicts
    × (length after.claims ≡ length given.claims)
    × (length after.evidence_map ≡ length given.evidence_map)
validate_citations_settled_example =
    validate_citations_settled hundredths given 7 (file ∷ []) no_texts
