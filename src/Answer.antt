-- ===== src/Answer.antt =====
-- crates/mentat-analysis/src/answer_bundle.rs: the citations of an answer that a model gave, against
-- the files of the snapshot. A set or a map of ids is the list of them, an `f32` is a parameter with
-- its tests, and the texts of the files are a function of the path.
pub mod Citations
pub mod Examples
use code_mentat.Base.{
  ℕ, ◌-◌, Bool, true, false, not, ◌&&◌, ◌||◌, Option, none, some, List, [], ◌∷◌, ◌++◌, map, Text,
  codes, trim, is_empty, starts_with, has_substring, lines, join_lines, take, drop, length, min_of,
  contains, distinct, any, all, find, retain, sort_by, leb, ltb, FilePath, component_eq, list_eq,
  nat_eq, nat_beq, ◌==◌, ◌!=◌, if◌then◌else◌,
}
use code_mentat.Core.Models.{
  Uuid, nil_uuid, FileRecord, EvidenceRef, Claim, ClaimClassification, is_unknown, unknown,
  ConflictItem, AnswerBundle,
}

pub record Floats (F : Type 0) : Type 0 where
  pub zero : F
  pub is_finite : F → Bool
  pub in_unit : F → Bool

-- `replace("\r\n", "\n")`.
unfoldable pub replace_crlf : Text → Text
replace_crlf [] = []
replace_crlf (c ∷ []) = c ∷ []
replace_crlf (c ∷ d ∷ t) =
    let after = replace_crlf t in
    let next = replace_crlf (d ∷ t) in if nat_beq c 13 && nat_beq d 10 then 10 ∷ after else c ∷ next

unfoldable pub excerpt_matches_range : Text → ℕ → ℕ → Text → Bool
excerpt_matches_range source line_start line_end excerpt =
    let body = lines source in
    let start_idx = line_start - 1 in
    let end_idx = min_of line_end (length body) in
    let ranged = replace_crlf (join_lines (take (end_idx - start_idx) (drop start_idx body))) in
    let wanted = trim (replace_crlf excerpt) in
    not (is_empty (trim excerpt))
    && not (nat_beq line_start 0)
    && leb line_start (length body)
    && ltb start_idx end_idx
    && (trim ranged == wanted || has_substring wanted ranged)

abbrev pub beyond : ℕ → ℕ → Option ℕ → Bool
beyond line_start line_end none = false
beyond line_start line_end (some count) = ltb count line_start || ltb count line_end

abbrev pub or_preview : Option Text → Option Text → Option Text
or_preview none preview = preview
or_preview (some text) preview = some text

abbrev pub matches_source : Option Text → EvidenceRef → Bool
matches_source none e = false
matches_source (some source) e = excerpt_matches_range source e.line_start e.line_end e.excerpt

unfoldable pub file_cited : EvidenceRef → (FilePath → Option Text) → Option FileRecord → Bool
file_cited e file_texts none = false
file_cited e file_texts (some file) =
    e.content_hash == file.content_hash
    && not (nat_beq e.line_start 0)
    && leb e.line_start e.line_end
    && not (beyond e.line_start e.line_end file.line_count)
    && matches_source (or_preview (file_texts e.relative_path) file.text_preview) e

unfoldable pub citation_is_valid :
    EvidenceRef → Uuid → List FileRecord → (FilePath → Option Text) → Bool
citation_is_valid e current files file_texts =
    (e.snapshot_id == nil_uuid || e.snapshot_id == current)
    && file_cited e file_texts (find (λ f. f.relative_path == e.relative_path) files)

-- `Vec::dedup`, after `sort_unstable`.
unfoldable pub dedup : List Uuid → List Uuid
dedup [] = []
dedup (a ∷ []) = a ∷ []
dedup (a ∷ b ∷ ids) = let rest = dedup (b ∷ ids) in if a == b then rest else a ∷ rest

abbrev pub mark : Text
mark = codes "[INVALID_CITATION]"

module _ (current : Uuid) (files : List FileRecord) (file_texts : FilePath → Option Text)
    (evidence : List EvidenceRef) where
  -- One of its id, and cited as it stands.
  unfoldable pub evidence_valid : EvidenceRef → Bool
  evidence_valid e =
      length (retain (λ o. o.id == e.id) evidence) == 1
      && citation_is_valid e current files file_texts

  -- The loop over the evidence: what becomes of one piece.
  unfoldable pub mark_evidence : EvidenceRef → EvidenceRef
  mark_evidence e =
      if evidence_valid e || starts_with mark e.excerpt
      then record e { snapshot_id = current }
      else record e { snapshot_id = current; excerpt = mark ++ (32 ∷ e.excerpt) }

  unfoldable pub invalid_ids : List Uuid
  invalid_ids = map (λ e. e.id) (retain (λ e. not (evidence_valid e)) evidence)

  unfoldable pub id_kept : Uuid → Bool
  id_kept id = not (contains id invalid_ids) && any (λ e. e.id == id) evidence

  unfoldable pub kept_ids : List Uuid → List Uuid
  kept_ids ids = dedup (sort_by leb (retain id_kept ids))

  unfoldable pub conflict_kept : ConflictItem → Bool
  conflict_kept c =
      not (is_empty c.evidence_ids) && distinct c.evidence_ids && all id_kept c.evidence_ids

  module _ {F : Type 0} (w : Floats F) where
    abbrev pub invalid_confidence : Claim F → Bool
    invalid_confidence c = not (w.is_finite c.confidence) || not (w.in_unit c.confidence)

    abbrev pub evidence_missing : Claim F → Bool
    evidence_missing c = not (is_unknown c.classification) && is_empty (kept_ids c.evidence_ids)

    unfoldable pub claim_refused : Claim F → Bool
    claim_refused c =
        any (λ id. not (id_kept id)) c.evidence_ids
        || not (distinct c.evidence_ids)
        || evidence_missing c
        || invalid_confidence c

    abbrev pub reason : Claim F → Text
    reason c =
        if invalid_confidence c
        then codes "INVALID_CONFIDENCE"
        else if not (distinct c.evidence_ids)
        then codes "DUPLICATE_EVIDENCE"
        else if evidence_missing c
        then codes "EVIDENCE_REQUIRED"
        else codes "INVALID_CITATION"

    -- The loop over the claims: what becomes of one.
    unfoldable pub settle_claim : Claim F → Claim F
    settle_claim c =
        if claim_refused c
        then record c {
          evidence_ids = kept_ids c.evidence_ids;
          classification = unknown;
          confidence = w.zero;
          rationale = some (reason c);
        }
        else record c { evidence_ids = kept_ids c.evidence_ids }

unfoldable pub validate_citations :
    {F : Type 0}
    → Floats F
    → AnswerBundle F
    → Uuid
    → List FileRecord
    → (FilePath → Option Text)
    → AnswerBundle F
validate_citations w b current files file_texts = record b {
  snapshot_id = current;
  evidence_map = map (mark_evidence current files file_texts b.evidence_map) b.evidence_map;
  claims = map (settle_claim current files file_texts b.evidence_map w) b.claims;
  conflicts = retain (conflict_kept current files file_texts b.evidence_map) b.conflicts;
}
