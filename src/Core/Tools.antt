-- ===== src/Core/Tools.antt =====
-- crates/mentat-core/src/models.rs: the tools that a model may call on a repository, their results
-- and the trace of a turn.
use code_mentat.Base.{ℕ, Option, List, [], ◌∷◌, Text, FilePath, codes}
use code_mentat.Core.Models.{Uuid, Time}

pub data GroundingFreshness : Type 0 where
  fresh_at_send : GroundingFreshness
  changed_after_send : Time → GroundingFreshness
  stale_before_send : GroundingFreshness

pub data RepositoryToolName : Type 0 where
  repo_status list_tree search_paths search_text read_file_lines file_metadata : RepositoryToolName

unfoldable pub wire_name : RepositoryToolName → Text
wire_name repo_status = codes "repo_status"
wire_name list_tree = codes "list_tree"
wire_name search_paths = codes "search_paths"
wire_name search_text = codes "search_text"
wire_name read_file_lines = codes "read_file_lines"
wire_name file_metadata = codes "file_metadata"

abbrev pub all_tools : List RepositoryToolName
all_tools =
    repo_status ∷ list_tree ∷ search_paths ∷ search_text ∷ read_file_lines ∷ file_metadata ∷ []

pub data RepositoryToolArguments : Type 0 where
  repo_status_args : RepositoryToolArguments
  list_tree_args : Option FilePath → ℕ → ℕ → RepositoryToolArguments
  search_paths_args : Text → ℕ → RepositoryToolArguments
  search_text_args : Text → Option Text → ℕ → RepositoryToolArguments
  read_file_lines_args : FilePath → ℕ → ℕ → RepositoryToolArguments
  file_metadata_args : FilePath → RepositoryToolArguments

pub record RepositoryToolCall : Type 0 where
  pub call_id : Uuid
  pub snapshot_id : Uuid
  pub name : RepositoryToolName
  pub arguments : RepositoryToolArguments

pub data ToolOmissionReason : Type 0 where
  entry_limit byte_limit binary ignored permission_denied read_error : ToolOmissionReason
  stale_snapshot live_hash_mismatch cancelled_call : ToolOmissionReason

pub record ToolOmission : Type 0 where
  pub reason : ToolOmissionReason
  pub relative_path : Option FilePath
  pub detail_code : Text
  pub omitted_count : ℕ
  pub omitted_bytes : ℕ

pub record SourceRef : Type 0 where
  pub id : Uuid
  pub snapshot_id : Uuid
  pub relative_path : FilePath
  pub line_start : ℕ
  pub line_end : ℕ
  pub content_hash : Text
  pub excerpt : Text

pub record RepositoryToolResult : Type 0 where
  pub call_id : Uuid
  pub snapshot_id : Uuid
  pub content : Text
  pub source_refs : List SourceRef
  pub omissions : List ToolOmission
  pub content_bytes : ℕ

pub data RepositoryToolCallStatus : Type 0 where
  pending completed omitted failed : RepositoryToolCallStatus

pub record RepositoryToolCallRecord : Type 0 where
  pub trace_id : Uuid
  pub call_id : Uuid
  pub round : ℕ
  pub name : RepositoryToolName
  pub canonical_arguments_digest : Text
  pub result_digest : Option Text
  pub content_bytes : ℕ
  pub source_ref_ids : List Uuid
  pub status : RepositoryToolCallStatus

pub record GroundingTrace : Type 0 where
  pub id : Uuid
  pub conversation_id : Uuid
  pub turn_id : Uuid
  pub snapshot_id : Option Uuid
  pub tool_calls : List RepositoryToolCallRecord
  pub source_refs : List SourceRef
  pub egress_receipt_ids : List Uuid
  pub freshness : GroundingFreshness
