-- ===== src/Gateway/Search.antt =====
-- The tool `search_text`: the lines that hold a text, with their sources.
use code_mentat.Base.{
  ℕ, suc, ◌+◌, Bool, true, false, not, Option, none, some, List, [], ◌∷◌, ◌++◌, Text, has_substring,
  lines, FilePath, list_eq, nat_eq, ◌!=◌, length, clamp, ltb, leb, nat_beq, if◌then◌else◌,
}
use code_mentat.Core.Error.{MentatError, Result, ok, err, cancelled, ◌>>=◌, ◌>>◌}
use code_mentat.Core.Models.{FileRecord}
use code_mentat.Core.Tools.{SourceRef, ToolOmission, entry_limit, byte_limit, read_error}
use code_mentat.Gateway.Types.{
  Services, RepositoryToolGateway, max_result_bytes, tool_error, encoded, validate_relative_path,
  validate_query, omission, source_ref,
}
use code_mentat.Gateway.Tools.{ToolOutput, slashed}

-- The sources found and what was left out.
abbrev pub Found : Type 0
Found = List SourceRef × List ToolOmission

-- A round of the loop over the files goes on with the next file, ends the loop, or fails.
pub data Round : Type 0 where
  continue : Found → Round
  break : Found → Round
  fail : MentatError → Round

module _ (w : Services) (g : RepositoryToolGateway) (query_lower : Text) (limit : ℕ) where
  -- The loop over the lines of a file from the given index on; the flag says that the limit is met.
  unfoldable pub match_lines : FileRecord → ℕ → List Text → List SourceRef → List SourceRef × Bool
  match_lines file index [] refs = (refs, false)
  match_lines file index (line ∷ rest) refs =
      let found =
        refs
        ++ source_ref w (w.fresh_id (length refs)) g.snapshot.id file (index + 1) (index + 1) line
          ∷ [] in
      elim (has_substring query_lower (w.to_lowercase line)) [
        | false ↦ match_lines file (index + 1) rest refs
        | true ↦ elim (nat_beq (length found) limit) [
          | true ↦ (found, true)
          | false ↦ match_lines file (index + 1) rest found
        ]
      ]

  abbrev pub after_lines : List SourceRef × Bool → List ToolOmission → Round
  after_lines (refs, true) omissions = break (refs, omissions)
  after_lines (refs, false) omissions = continue (refs, omissions)

  unfoldable pub search_body : FileRecord → Result Text → Found → Round
  search_body file (err e) (refs, omissions) = continue (
    refs,
    omissions ++ omission read_error (some file.relative_path) "SEARCH_READ_FAILED" 1 0 ∷ [],
  )
  search_body file (ok content) (refs, omissions) =
      if w.sha256_hex content != file.content_hash
      then fail (tool_error "SOURCE_LIVE_HASH_MISMATCH")
      else after_lines (match_lines file 0 (lines content) refs) omissions

  abbrev pub filtered_out : Option Text → FileRecord → Bool
  filtered_out none file = false
  filtered_out (some filter) file = not (has_substring filter (slashed file.relative_path))

  -- `remaining` is the number of files from this one on; `token_cancelled` is the reading of the
  -- cancel token in this round.
  unfoldable pub search_file : Option Text → Bool → ℕ → FileRecord → Found → Round
  search_file path_filter token_cancelled remaining file (refs, omissions) =
      if leb 127 (length omissions)
      then break (refs, omissions ++ omission entry_limit none "OMISSION_LIMIT" remaining 0 ∷ [])
      else if token_cancelled
      then fail cancelled
      else if not file.is_text
      then continue (refs, omissions)
      else if filtered_out path_filter file
      then continue (refs, omissions)
      else if ltb max_result_bytes file.size_bytes
      then continue (
        refs,
        omissions
            ++ omission byte_limit (some file.relative_path) "SEARCH_FILE_TOO_LARGE" 1
                file.size_bytes
              ∷ [],
      )
      else search_body file (w.read_content file.relative_path) (refs, omissions)

  -- `polls` are the readings of the cancel token, one for each file.
  unfoldable pub search_loop : Option Text → (ℕ → Bool) → List FileRecord → Found → Result Found
  search_loop path_filter polls [] found = ok found
  search_loop path_filter polls (file ∷ files) found =
      elim (search_file path_filter (polls (length files)) (suc (length files)) file found) [
        | continue next ↦ search_loop path_filter polls files next
        | break last ↦ ok last
        | fail e ↦ err e
      ]

-- A filter is checked as a path; it is a parameter how a text reads as one.
abbrev pub validate_filter : (Text → FilePath) → Option Text → Result (Unit {0})
validate_filter parse none = ok tt
validate_filter parse (some filter) = validate_relative_path (parse filter)

module _ (w : Services) (g : RepositoryToolGateway) (parse_path : Text → FilePath) where
  unfoldable pub search_text : (ℕ → Bool) → Text → Option Text → ℕ → Result ToolOutput
  search_text polls query path_filter limit = do
    validate_query query
    validate_filter parse_path path_filter
    found ←
        search_loop w g (w.to_lowercase query) (clamp 1 100 limit) path_filter polls g.files
          ([], [])
    content ← encoded (w.encode_matches found.0)
    ok (content, found.0, found.1)
