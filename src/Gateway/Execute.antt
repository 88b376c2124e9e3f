-- ===== src/Gateway/Execute.antt =====
-- `RepositoryToolGateway::new` and `execute`: the checks before a tool runs, the tool, and the
-- limits and the redaction of its result.
use code_mentat.Base.{
  ℕ, suc, Bool, true, false, not, ◌&&◌, ◌||◌, List, [], Text, FilePath, map, trim_end_char, retain,
  sort_by, path_le, take, nat_eq, ◌!=◌, ltb, u32_max,
}
use code_mentat.Core.Error.{Result, ok, cancelled, ◌>>=◌, ◌>>◌, fail_if}
use code_mentat.Core.Models.{FileRecord, RepositorySnapshot, SnapshotStatus, ready}
use code_mentat.Core.Tools.{
  SourceRef, ToolOmission, RepositoryToolName, repo_status, RepositoryToolArguments,
  repo_status_args, list_tree_args, search_paths_args, search_text_args, read_file_lines_args,
  file_metadata_args, RepositoryToolCall, RepositoryToolResult,
}
use code_mentat.Egress.Filename.{is_sensitive_filename}
use code_mentat.Gateway.Types.{
  Services, RepositoryToolGateway, max_result_bytes, tool_error, encoded, validate_call_shape,
  bound_content,
}
use code_mentat.Gateway.Tools.{ToolOutput}
use code_mentat.Gateway.Tools
use code_mentat.Gateway.Search

unfoldable pub by_path : FileRecord → FileRecord → Bool
by_path a b = path_le a.relative_path b.relative_path

unfoldable pub new : (Text → Text) → RepositorySnapshot → List FileRecord → RepositoryToolGateway
unfolding by_path
new to_lowercase snapshot files = record {
  stale = false;
  snapshot = snapshot;
  files =
      sort_by by_path
        (retain (λ file. not (is_sensitive_filename to_lowercase file.relative_path)) files);
}

unfoldable pub mark_stale : RepositoryToolGateway → RepositoryToolGateway
mark_stale g = record g { stale = true }

abbrev pub is_ready : SnapshotStatus → Bool
is_ready ready = true
is_ready _ = false

abbrev pub is_repo_status : RepositoryToolName → Bool
is_repo_status repo_status = true
is_repo_status _ = false

-- `repo_status` alone serves a stale or incomplete snapshot.
unfoldable pub needs_reindex : RepositoryToolGateway → RepositoryToolName → Bool
needs_reindex g name = not (is_repo_status name) && (not (is_ready g.snapshot.status) || g.stale)

-- The excerpts are redacted once more and lose the line ends behind them.
unfoldable pub clean_source : Services → SourceRef → SourceRef
clean_source w source = record source { excerpt = trim_end_char 10 (w.redact source.excerpt) }

-- The content is cut, redacted, and cut again.
unfoldable pub clean_content : Services → Text → List ToolOmission → Text × List ToolOmission
clean_content w content omissions =
    let (cut, first) = bound_content content omissions in bound_content (w.redact cut) first

-- The result whose size is measured: its own size field holds the greatest `u32`.
unfoldable pub measured : Services → RepositoryToolCall → ToolOutput → RepositoryToolResult
unfolding clean_source
measured w call (content, refs, omissions) =
    let (clean, cut) = clean_content w content omissions in
    record {
      call_id = call.call_id;
      snapshot_id = call.snapshot_id;
      content = clean;
      source_refs = map (clean_source w) refs;
      omissions = take 128 cut;
      content_bytes = u32_max;
    }

-- The end of `execute`, from the tool's output on.
unfoldable pub finish : Services → RepositoryToolCall → ToolOutput → Result RepositoryToolResult
finish w call output = do
  size ← encoded (w.encoded_size (measured w call output))
  fail_if (ltb max_result_bytes size) (tool_error "TOOL_RESULT_LIMIT_REACHED")
  ok (record (measured w call output) { content_bytes = size })

module _ (w : Services) (parse_path : Text → FilePath) (g : RepositoryToolGateway) where
  -- The first poll is the reading in `execute`; those behind it are the tool's.
  unfoldable pub dispatch : (ℕ → Bool) → RepositoryToolArguments → Result ToolOutput
  dispatch polls repo_status_args = ok (w.encode_status g.snapshot g.stale, [], [])
  dispatch polls (list_tree_args path depth limit) = Tools.list_tree w g path depth limit
  dispatch polls (search_paths_args query limit) = Tools.search_paths w g query limit
  dispatch polls (search_text_args query filter limit) =
      Search.search_text w g parse_path (λ n. polls (suc n)) query filter limit
  dispatch polls (read_file_lines_args path start_line end_line) =
      Tools.read_file_lines w g (polls 1) path start_line end_line
  dispatch polls (file_metadata_args path) = Tools.file_metadata w g path

  unfoldable pub execute : (ℕ → Bool) → RepositoryToolCall → Result RepositoryToolResult
  execute polls call = do
    fail_if (call.snapshot_id != g.snapshot.id) (tool_error "TOOL_SNAPSHOT_MISMATCH")
    validate_call_shape call.name call.arguments
    fail_if (needs_reindex g call.name) (tool_error "REPOSITORY_REINDEX_REQUIRED")
    fail_if (polls 0) cancelled
    output ← dispatch polls call.arguments
    finish w call output
