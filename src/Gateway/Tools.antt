-- ===== src/Gateway/Tools.antt =====
-- The tools `list_tree`, `search_paths`, `read_file_lines` and `file_metadata`.
use code_mentat.Base.{
  String, ℕ, ◌+◌, ◌-◌, Bool, not, ◌&&◌, ◌||◌, Option, none, some, List, [], ◌∷◌, ◌++◌, Text,
  has_substring, replace_char, lines, join_lines, FilePath, path_text, path_starts_with,
  component_eq, list_eq, nat_eq, ◌==◌, ◌!=◌, find, length, take, drop, clamp, min_of, ltb, leb,
  nat_beq, if◌then◌else◌,
}
use code_mentat.Core.Error.{Result, ok, err, cancelled, ◌>>=◌, ◌>>◌, fail_if}
use code_mentat.Core.Models.{FileRecord}
use code_mentat.Core.Tools.{SourceRef, ToolOmission, entry_limit}
use code_mentat.Gateway.Types.{
  Services, RepositoryToolGateway, max_read_lines, tool_error, encoded, validate_relative_path,
  validate_query, omission, source_ref,
}

-- What each tool returns: the content, its sources and what it left out.
abbrev pub ToolOutput : Type 0
ToolOutput = Text × List SourceRef × List ToolOmission

abbrev pub Listing : Type 0
Listing = List Text × ℕ

-- One more path, or one more omitted when the limit is reached.
unfoldable pub list_one : ℕ → Text → Listing → Listing
list_one limit path (paths, omitted) =
    if nat_beq (length paths) limit then (paths, omitted + 1) else (paths ++ path ∷ [], omitted)

-- A path with `/` for `\`.
abbrev pub slashed : FilePath → Text
slashed path = replace_char 92 47 (path_text path)

unfoldable pub in_tree : FilePath → ℕ → FileRecord → Bool
in_tree root depth file =
    path_starts_with file.relative_path root && leb (length file.relative_path - length root) depth

unfoldable pub path_matches : Services → Text → FileRecord → Bool
path_matches w query file = has_substring query (w.to_lowercase (slashed file.relative_path))

-- The loops of `list_tree` and of `search_paths`: the files that pass a test, up to a limit.
unfoldable pub collect : (FileRecord → Bool) → ℕ → List FileRecord → Listing → Listing
collect test limit [] listing = listing
collect test limit (file ∷ files) listing =
    collect test limit files
      (if test file then list_one limit (slashed file.relative_path) listing else listing)

abbrev limit_omission : String → ℕ → List ToolOmission
limit_omission detail omitted =
    if nat_beq omitted 0 then [] else omission entry_limit none detail omitted 0 ∷ []

-- The end of both tools.
unfoldable pub listing_output : Services → String → Listing → Result ToolOutput
listing_output w detail (paths, omitted) = do
  content ← encoded (w.encode_paths paths)
  ok (content, [], limit_omission detail omitted)

abbrev pub path_or_root : Option FilePath → FilePath
path_or_root none = []
path_or_root (some path) = path

module _ (w : Services) (g : RepositoryToolGateway) where
  unfoldable pub list_tree_listing : FilePath → ℕ → ℕ → Listing
  list_tree_listing root depth limit =
      collect (in_tree root (clamp 1 4 depth)) (clamp 1 500 limit) g.files ([], 0)

  unfoldable pub list_tree : Option FilePath → ℕ → ℕ → Result ToolOutput
  list_tree relative_path depth limit = do
    validate_relative_path (path_or_root relative_path)
    listing_output w "LIST_TREE_LIMIT" (list_tree_listing (path_or_root relative_path) depth limit)

  unfoldable pub search_paths_listing : Text → ℕ → Listing
  search_paths_listing query limit =
      collect (path_matches w (w.to_lowercase query)) (clamp 1 100 limit) g.files ([], 0)

  unfoldable pub search_paths : Text → ℕ → Result ToolOutput
  search_paths query limit = do
    validate_query query
    listing_output w "SEARCH_PATHS_LIMIT" (search_paths_listing query limit)

  abbrev pub or_missing : Option FileRecord → Result FileRecord
  or_missing none = err (tool_error "TOOL_PATH_NOT_FOUND")
  or_missing (some file) = ok file

  unfoldable pub file_record : FilePath → Result FileRecord
  file_record path = or_missing (find (λ file. file.relative_path == path) g.files)

  unfoldable pub range_invalid : ℕ → ℕ → Bool
  range_invalid start_line end_line =
      nat_beq start_line 0
      || ltb end_line start_line
      || ltb max_read_lines (end_line - start_line + 1)

  -- The body read, the range of its lines with the true end, and the excerpt.
  unfoldable pub selected_lines : FileRecord → Text → ℕ → ℕ → Result ToolOutput
  selected_lines file content start_line end_line =
      let body = lines content in
      let actual_end = min_of end_line (length body) in
      let selected =
        join_lines (take (actual_end - (start_line - 1)) (drop (start_line - 1) body)) in
      do
        fail_if (ltb (length body) start_line) (tool_error "READ_FILE_RANGE_INVALID")
        ok (
          selected,
          source_ref w (w.fresh_id 0) g.snapshot.id file start_line actual_end selected ∷ [],
          [],
        )

  -- `token_cancelled` is the reading of the cancel token.
  unfoldable pub read_file_lines : Bool → FilePath → ℕ → ℕ → Result ToolOutput
  read_file_lines token_cancelled relative_path start_line end_line = do
    validate_relative_path relative_path
    fail_if (range_invalid start_line end_line) (tool_error "READ_FILE_RANGE_INVALID")
    fail_if token_cancelled cancelled
    file ← file_record relative_path
    fail_if (not file.is_text) (tool_error "READ_FILE_BINARY")
    content ← w.read_content relative_path
    fail_if (w.sha256_hex content != file.content_hash) (tool_error "SOURCE_LIVE_HASH_MISMATCH")
    selected_lines file content start_line end_line

  unfoldable pub file_metadata : FilePath → Result ToolOutput
  file_metadata relative_path = do
    validate_relative_path relative_path
    file ← file_record relative_path
    ok (w.encode_file file, [], [])
