-- ===== src/Core/Egress.antt =====
-- crates/mentat-core/src/models.rs: the consent to send from a repository, and its receipts.
use code_mentat.Base.{ℕ, Option, List, Text, FilePath}
use code_mentat.Core.Models.{Uuid, Time}
use code_mentat.Core.Tools.{RepositoryToolName}
use code_mentat.Core.Binding.{ProviderBinding}

pub data RepositoryConsentKind : Type 0 where
  request_once : Uuid → RepositoryConsentKind
  repository_session : RepositoryConsentKind

pub record RepositoryConsentScope : Type 0 where
  pub id : Uuid
  pub conversation_id : Uuid
  pub repository_id : Uuid
  pub snapshot_id : Uuid
  pub provider_binding : ProviderBinding
  pub kind : RepositoryConsentKind
  pub granted_at : Time
  pub revoked_at : Option Time

pub record CanonicalToolRef : Type 0 where
  pub relative_path : FilePath
  pub line_start : ℕ
  pub line_end : ℕ
  pub content_hash : Text
  pub redacted_payload_digest : Text

pub data ToolEgressStatus : Type 0 where
  prepared sent failed outcome_unknown : ToolEgressStatus

pub record ToolEgressReceipt : Type 0 where
  pub id : Uuid
  pub seal_version : Text
  pub trace_id : Uuid
  pub consent_scope_id : Uuid
  pub conversation_id : Uuid
  pub turn_id : Uuid
  pub tool_call_id : Uuid
  pub repository_id : Uuid
  pub snapshot_id : Uuid
  pub tool_name : RepositoryToolName
  pub canonical_refs : List CanonicalToolRef
  pub provider_binding : ProviderBinding
  pub semantic_payload_digest : Text
  pub exact_provider_body_digest : Text
  pub canonical_digest : Text
  pub status : ToolEgressStatus
  pub prepared_at : Time
  pub updated_at : Time
