-- ===== src/Gateway/Types.antt =====
-- The gateway's state, what it takes from elsewhere, and the checks that its tools share.
use code_mentat.Base.{
  ℕ, zero, suc, ◌-◌, ◌*◌, Bool, true, false, not, ◌&&◌, ◌||◌, Option, none, some, List, [], ◌∷◌,
  ◌++◌, String, Text, codes, byte_len, char_len, trim, trim_end_char, is_empty, take, FilePath,
  Component, prefix, root_dir, cur_dir, parent_dir, normal, is_absolute, any, ltb, leb, nat_beq,
  if◌then◌else◌,
}
use code_mentat.Core.Error.{
  MentatError, Result, ok, err, backend_error, external_path_blocked, fail_if,
}
use code_mentat.Core.Models.{Uuid, FileRecord, RepositorySnapshot}
use code_mentat.Core.Tools.{
  SourceRef, ToolOmission, ToolOmissionReason, byte_limit, RepositoryToolResult, RepositoryToolName,
  repo_status, list_tree, search_paths, search_text, read_file_lines, file_metadata,
  RepositoryToolArguments, repo_status_args, list_tree_args, search_paths_args, search_text_args,
  read_file_lines_args, file_metadata_args,
}

-- What the gateway calls: the file system, SHA-256, Unicode, JSON, and `Uuid::new_v4` as a supply
-- of identifiers. `redact` is `EgressFilter::scan_and_redact_secrets` without its count.
pub record Services : Type 0 where
  pub read_content : FilePath → Result Text
  pub sha256_hex : Text → Text
  pub to_lowercase : Text → Text
  pub redact : Text → Text
  pub fresh_id : ℕ → Uuid
  pub encode_status : RepositorySnapshot → Bool → Text
  pub encode_paths : List Text → Option Text
  pub encode_matches : List SourceRef → Option Text
  pub encode_file : FileRecord → Text
  pub encoded_size : RepositoryToolResult → Option ℕ

pub record RepositoryToolGateway : Type 0 where
  pub stale : Bool
  pub snapshot : RepositorySnapshot
  pub files : List FileRecord

abbrev pub max_result_bytes : ℕ
max_result_bytes = 64 * 1024

abbrev pub max_read_lines : ℕ
max_read_lines = 400

abbrev pub tool_error : String → MentatError
tool_error code = backend_error code

-- `map_err` of a failed encoding.
abbrev pub encoded {ℓ} : {A : Type ℓ} → Option A → Result A
encoded none = err (tool_error "TOOL_RESULT_ENCODE_FAILED")
encoded (some a) = ok a

escapes : Component → Bool
escapes parent_dir = true
escapes root_dir = true
escapes (prefix s) = true
escapes cur_dir = false
escapes (normal s) = false

unfoldable pub leaves_root : FilePath → Bool
unfolding escapes
leaves_root path = is_absolute path || any escapes path

unfoldable pub validate_relative_path : FilePath → Result (Unit {0})
validate_relative_path path = fail_if (leaves_root path) external_path_blocked

unfoldable pub validate_query : Text → Result (Unit {0})
validate_query query =
    fail_if (is_empty (trim query) || ltb 512 (byte_len query)) (tool_error "TOOL_QUERY_INVALID")

unfoldable pub shape_matches : RepositoryToolName → RepositoryToolArguments → Bool
shape_matches repo_status repo_status_args = true
shape_matches list_tree (list_tree_args _ _ _) = true
shape_matches search_paths (search_paths_args _ _) = true
shape_matches search_text (search_text_args _ _ _) = true
shape_matches read_file_lines (read_file_lines_args _ _ _) = true
shape_matches file_metadata (file_metadata_args _) = true
shape_matches _ _ = false

unfoldable pub validate_call_shape :
    RepositoryToolName → RepositoryToolArguments → Result (Unit {0})
validate_call_shape name arguments =
    fail_if (not (shape_matches name arguments)) (tool_error "TOOL_ARGUMENT_VARIANT_MISMATCH")

abbrev pub omission : ToolOmissionReason → Option FilePath → String → ℕ → ℕ → ToolOmission
omission reason path detail count bytes = record {
  reason = reason;
  relative_path = path;
  detail_code = codes detail;
  omitted_count = count;
  omitted_bytes = bytes;
}

unfoldable pub truncate_chars : Text → ℕ → Text
truncate_chars value limit = take limit value

unfoldable pub source_ref : Services → Uuid → Uuid → FileRecord → ℕ → ℕ → Text → SourceRef
source_ref w id snapshot_id file line_start line_end excerpt = record {
  id = id;
  snapshot_id = snapshot_id;
  relative_path = file.relative_path;
  line_start = line_start;
  line_end = line_end;
  content_hash = file.content_hash;
  excerpt = truncate_chars (trim_end_char 10 (w.redact excerpt)) 512;
}

-- `str::is_char_boundary`.
unfoldable pub is_char_boundary : Text → ℕ → Bool
is_char_boundary [] end = nat_beq end 0
is_char_boundary (c ∷ t) end =
    let rest = is_char_boundary t (end - char_len c) in
    if nat_beq end 0 then true else leb (char_len c) end && rest

-- The `while` loop that moves `end` back to a boundary.
unfoldable pub back_to_boundary : Text → ℕ → ℕ
back_to_boundary t zero = zero
back_to_boundary t (suc end) =
    let before = back_to_boundary t end in if is_char_boundary t (suc end) then suc end else before

-- `String::truncate` at a boundary.
unfoldable pub truncate_bytes : Text → ℕ → Text
truncate_bytes [] end = []
truncate_bytes (c ∷ t) end =
    let rest = truncate_bytes t (end - char_len c) in if nat_beq end 0 then [] else c ∷ rest

-- The limit is an argument, so that a proof need not count down from 65536.
unfoldable pub bound_content_to : ℕ → Text → List ToolOmission → Text × List ToolOmission
bound_content_to limit content omissions =
    if leb (byte_len content) limit
    then (content, omissions)
    else let end = back_to_boundary content limit in
      (
        truncate_bytes content end,
        omissions
            ++ omission byte_limit none "TOOL_RESULT_BYTE_LIMIT" 0 (byte_len content - end) ∷ [],
      )

unfoldable pub bound_content : Text → List ToolOmission → Text × List ToolOmission
bound_content content omissions = bound_content_to max_result_bytes content omissions
