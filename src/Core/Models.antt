-- ===== src/Core/Models.antt =====
-- crates/mentat-core/src/models.rs: the repository, its files and snapshots, and the answers.
-- A `Uuid` and a time are numbers, and the nil `Uuid` is 0. A digest is a text.
use code_mentat.Base.{ℕ, Bool, true, false, Option, List, Text, FilePath}

abbrev pub Uuid : Type 0
Uuid = ℕ

abbrev pub Time : Type 0
Time = ℕ

abbrev pub nil_uuid : Uuid
nil_uuid = 0

pub data SnapshotStatus : Type 0 where
  ready stale indexing incomplete : SnapshotStatus

pub record RepositorySnapshot : Type 0 where
  pub id : Uuid
  pub repo_id : Uuid
  pub created_at : Time
  pub tree_digest : Text
  pub status : SnapshotStatus
  pub file_count : ℕ
  pub total_bytes : ℕ

pub data FileKind : Type 0 where
  source_code documentation manifest configuration asset binary other : FileKind

pub record FileRecord : Type 0 where
  pub relative_path : FilePath
  pub kind : FileKind
  pub size_bytes : ℕ
  pub content_hash : Text
  pub is_text : Bool
  pub line_count : Option ℕ
  pub text_preview : Option Text

pub record EvidenceRef : Type 0 where
  pub id : Uuid
  pub snapshot_id : Uuid
  pub relative_path : FilePath
  pub line_start : ℕ
  pub line_end : ℕ
  pub content_hash : Text
  pub excerpt : Text

pub data ClaimClassification : Type 0 where
  observed inferred proposed conflict unknown : ClaimClassification

abbrev pub is_unknown : ClaimClassification → Bool
is_unknown unknown = true
is_unknown _ = false

-- The confidence is an `f32`, whose type is a parameter.
pub record Claim (F : Type 0) : Type 0 where
  pub id : Uuid
  pub classification : ClaimClassification
  pub statement : Text
  pub confidence : F
  pub evidence_ids : List Uuid
  pub rationale : Option Text

pub data RecommendationBasis : Type 0 where
  general_practice project_intent_aligned needs_user_decision : RecommendationBasis

pub record Recommendation : Type 0 where
  pub id : Uuid
  pub basis : RecommendationBasis
  pub impact : Text
  pub rationale : Text
  pub evidence_ids : List Uuid
  pub decision_required : Bool

pub record ConflictItem : Type 0 where
  pub id : Uuid
  pub side_a : Text
  pub side_b : Text
  pub evidence_ids : List Uuid
  pub impact : Text
  pub unresolved_question : Text

pub record AnswerBundle (F : Type 0) : Type 0 where
  pub request_id : Uuid
  pub snapshot_id : Uuid
  pub direct_answer : Text
  pub claims : List (Claim F)
  pub evidence_map : List EvidenceRef
  pub recommendations : List Recommendation
  pub conflicts : List ConflictItem
  pub raw_model_response : Option Text
