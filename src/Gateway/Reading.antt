-- ===== src/Gateway/Reading.antt =====
-- What `read_file_lines` has checked when it succeeds, and where the sources of a result come from.
use code_mentat.Base.{
  trim_end_char, String, ◌∙◌, min_of, join_lines, take, drop, ℕ, ◌+◌, ◌-◌, ◌≤◌, ◌<◌, Bool, true,
  false, not, some, List, [], ◌∷◌, ◌≡◌, refl, sym, subst, Text, FilePath, lines, length, map, All,
  All-map, All-mem, All-sort_by, retain, retain-All, find, find-All, find-passes, ltb, nat_eq,
  list_eq, component_eq, ◌==◌, ◌!=◌, ==-sound, !=-sound, arith,
}
use code_mentat.Core.Error.{ok, >>=-eq-ok, fail_if-eq-ok}
use code_mentat.Core.Models.{FileRecord, RepositorySnapshot}
use code_mentat.Core.Tools.{
  RepositoryToolArguments, repo_status_args, list_tree_args, search_paths_args, search_text_args,
  read_file_lines_args, file_metadata_args, RepositoryToolCall, RepositoryToolResult, SourceRef,
}
use code_mentat.Egress.Filename.{is_sensitive_filename}
use code_mentat.Gateway.Types.{
  Services, RepositoryToolGateway, encoded, validate_query, validate_relative_path, leaves_root,
  truncate_chars, source_ref, max_read_lines,
}
use code_mentat.Gateway.Bounds.Matches.{FromFile, searchable, search_text_bounded}
use code_mentat.Gateway.Tools
use code_mentat.Gateway.Execute.{clean_source, dispatch, measured, new, execute}
use code_mentat.Gateway.Safety.{execute_parts, finish_parts}
use code_mentat.Gateway.Tools.{
  ToolOutput, Listing, path_or_root, listing_output, range_invalid, file_record, selected_lines,
  read_file_lines,
}

-- What a successful reading rests on.
pub record IsRead (w : Services) (g : RepositoryToolGateway) (path : FilePath)
    (start_line end_line : ℕ) (output : ToolOutput) : Type 0 where
  pub file : FileRecord
  pub content : Text
  pub source : SourceRef
  pub inside : leaves_root path ≡ false
  pub from_one : 0 < start_line
  pub ordered : start_line ≤ end_line
  pub few : end_line < start_line + max_read_lines
  pub known : find (λ f. f.relative_path == path) g.files ≡ some file
  pub text : file.is_text ≡ true
  pub reading : w.read_content path ≡ ok content
  pub unchanged : w.sha256_hex content ≡ file.content_hash
  pub only : output.1 ≡ source ∷ []
  pub located : (source.relative_path ≡ path) × (source.content_hash ≡ file.content_hash)
  pub starts : source.line_start ≡ start_line
  pub not_past : start_line ≤ length (lines content)
  pub ends : source.line_end ≡ min_of end_line (length (lines content))
  pub selected :
      output.0
      ≡ join_lines
          (take (source.line_end - (start_line - 1)) (drop (start_line - 1) (lines content)))
  pub excerpt : source.excerpt ≡ truncate_chars (trim_end_char 10 (w.redact output.0)) 512

-- The selected text and its source.
abbrev line_source : Services → RepositoryToolGateway → FileRecord → Text → ℕ → ℕ → Text × SourceRef
line_source w g file content start_line end_line =
    let body = lines content in
    let actual_end = min_of end_line (length body) in
    let selected = join_lines (take (actual_end - (start_line - 1)) (drop (start_line - 1) body)) in
    (selected, source_ref w (w.fresh_id 0) g.snapshot.id file start_line actual_end selected)

range_valid :
    (w : Services) (g : RepositoryToolGateway) (a b : ℕ)
    → range_invalid w g a b ≡ false
    → (0 < a) × (a ≤ b) × (b < a + max_read_lines)
unfolding range_invalid
range_valid w g a b h = ground arith

file_record-ok :
    (w : Services) (g : RepositoryToolGateway) (path : FilePath) (file : FileRecord)
    → file_record w g path ≡ ok file
    → find (λ f. f.relative_path == path) g.files ≡ some file
unfolding file_record
file_record-ok w g path file h = ground arith

-- A reading of lines succeeds only for a path that stays in the repository, for at most 400 lines
-- from line 1 on, of a text file of the gateway, whose body still has the scanned hash and reaches the
-- first line. The content is the lines of the body from the first to the last that it has of the
-- range. The one source has that path, that hash and these two lines, and its excerpt is the redacted
-- content, cut to 512 characters.
pub read_file_lines_checked :
    (w : Services) (g : RepositoryToolGateway) (token_cancelled : Bool) (path : FilePath)
    (start_line end_line : ℕ) (output : ToolOutput)
    → read_file_lines w g token_cancelled path start_line end_line ≡ ok output
    → IsRead w g path start_line end_line output
unfolding read_file_lines validate_relative_path selected_lines source_ref
read_file_lines_checked w g token_cancelled path start_line end_line output h =
    let a = fail_if-eq-ok (leaves_root path) _ _ output h in
    let b = fail_if-eq-ok (range_invalid w g start_line end_line) _ _ output a.1 in
    let c = fail_if-eq-ok token_cancelled _ _ output b.1 in
    let (file, known, d) = >>=-eq-ok (file_record w g path) _ output c.1 in
    let e = fail_if-eq-ok (not file.is_text) _ _ output d in
    let (content, reading, f) = >>=-eq-ok (w.read_content path) _ output e.1 in
    let i = fail_if-eq-ok (w.sha256_hex content != file.content_hash) _ _ output f in
    let j = fail_if-eq-ok (ltb (length (lines content)) start_line) _ _ output i.1 in
    let range = range_valid w g start_line end_line b.0 in
    let found = file_record-ok w g path file known in
    let (selected, source) = line_source w g file content start_line end_line in
    let same : (selected, source ∷ [], []) ≡ output = cc j.1 in
    subst (IsRead w g path start_line end_line) same (record {
      file = file;
      content = content;
      source = source;
      inside = a.0;
      from_one = range.0;
      ordered = range.1;
      few = range.2;
      known = found;
      text = ground arith;
      reading = reading;
      unchanged = !=-sound (w.sha256_hex content) file.content_hash i.0;
      only = refl;
      located = (==-sound file.relative_path path (find-passes _ g.files file found), refl);
      starts = refl;
      not_past = ground (arith, j.0);
      ends = refl;
      selected = refl;
      excerpt = refl;
    })

module _ (w : Services) (parse_path : Text → FilePath) (g : RepositoryToolGateway)
    (Q : FilePath → Type 0) where
  abbrev FilesHave : List FileRecord → Type 0
  FilesHave files = All (λ file. Q file.relative_path) files

  abbrev SourcesHave : List SourceRef → Type 0
  SourcesHave sources = All (λ source. Q source.relative_path) sources

  searched :
      (sources : List SourceRef)
      → FilesHave g.files
      → All (FromFile searchable g.files) sources
      → SourcesHave sources
  searched [] h k = tt
  searched (source ∷ rest) h k =
      (subst Q (sym k.0.3) (All-mem _ g.files k.0.0 h k.0.1), searched rest h k.1)

  none_at : (sources : List SourceRef) → sources ≡ [] → SourcesHave sources
  none_at sources e = subst SourcesHave (sym e) tt

  listing-sources :
      (detail : String) (listing : Listing) (output : ToolOutput)
      → listing_output w detail listing ≡ ok output
      → output.1 ≡ []
  unfolding listing_output
  listing-sources detail (paths, omitted) output e =
      let (content, _, k) = >>=-eq-ok (encoded (w.encode_paths paths)) _ output e in ground arith

  dispatch-sources :
      (polls : ℕ → Bool) (arguments : RepositoryToolArguments) (output : ToolOutput)
      → FilesHave g.files
      → dispatch w parse_path g polls arguments ≡ ok output
      → SourcesHave output.1
  unfolding dispatch Tools.list_tree Tools.search_paths Tools.file_metadata
  dispatch-sources polls repo_status_args output h e = none_at output.1 (ground arith)
  dispatch-sources polls (list_tree_args path depth limit) output h e =
      let (_, _, k) = >>=-eq-ok (validate_relative_path (path_or_root path)) _ output e in
      none_at output.1 (listing-sources _ _ output k)
  dispatch-sources polls (search_paths_args query limit) output h e =
      let (_, _, k) = >>=-eq-ok (validate_query query) _ output e in
      none_at output.1 (listing-sources _ _ output k)
  dispatch-sources polls (search_text_args query filter limit) output h e =
      searched output.1 h (search_text_bounded w g parse_path _ query filter limit e).2
  dispatch-sources polls (read_file_lines_args path start_line end_line) output h e =
      let r = read_file_lines_checked w g (polls 1) path start_line end_line output e in
      let q = find-All (λ f. Q f.relative_path) _ g.files r.file h r.known in
      let p : r.file.relative_path ≡ path =
        ==-sound r.file.relative_path path (find-passes _ g.files r.file r.known) in
      subst SourcesHave (sym r.only) (subst Q (p ∙ sym r.located.0) q, tt)
  dispatch-sources polls (file_metadata_args path) output h e =
      let (_, _, k) = >>=-eq-ok (validate_relative_path path) _ output e in
      let (file, _, l) = >>=-eq-ok (file_record w g path) _ output k in
      none_at output.1 (ground arith)

  clean-sources :
      (sources : List SourceRef) → SourcesHave sources → SourcesHave (map (clean_source w) sources)
  unfolding clean_source
  clean-sources [] h = tt
  clean-sources (source ∷ rest) h = (h.0, clean-sources rest h.1)

  execute-sources :
      (polls : ℕ → Bool) (call : RepositoryToolCall) (r : RepositoryToolResult)
      → FilesHave g.files
      → execute w parse_path g polls call ≡ ok r
      → SourcesHave r.source_refs
  unfolding measured
  execute-sources polls call r h e =
      let p = execute_parts w parse_path g polls call r e in
      let (size, _, _, same) = finish_parts w call p.4 r p.6 in
      subst (λ (x : RepositoryToolResult). SourcesHave x.source_refs) (sym same)
        (clean-sources p.4.1 (dispatch-sources polls call.arguments p.4 h p.5))

-- Whatever tool is called, no source of a result is in a file whose name is sensitive, in a gateway
-- that `new` made of any files.
pub sources_not_sensitive :
    (w : Services) (parse_path : Text → FilePath) (snapshot : RepositorySnapshot)
    (files : List FileRecord) (polls : ℕ → Bool) (call : RepositoryToolCall)
    (r : RepositoryToolResult)
    → execute w parse_path (new w.to_lowercase snapshot files) polls call ≡ ok r
    → All
        (λ source. is_sensitive_filename w.to_lowercase source.relative_path ≡ false)
        r.source_refs
unfolding new
sources_not_sensitive w parse_path snapshot files polls call r h =
    execute-sources w parse_path (new w.to_lowercase snapshot files)
      (λ path. is_sensitive_filename w.to_lowercase path ≡ false) polls call r
      (All-sort_by _ _ (retain _ files)
        (All-map _ _ (retain _ files) (λ f p. ground arith) (retain-All _ files)))
      h
