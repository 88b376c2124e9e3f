-- ===== src/Gateway/Examples.antt =====
-- crates/mentat-analysis/src/repository_tools.rs: a gateway of one source file and one key.
use code_mentat.Base.{
  true, false, none, some, List, [], ◌∷◌, ◌++◌, Text, codes, FilePath, normal, length, byte_len,
  ◌≡◌, refl, ◌⊎◌, clamp, All, ◌≤◌, ◌<◌, ◌+◌, sort_by, retain, list_beq, file_name, starts_with,
  has_substring, any, extension, is_absolute, find, component_beq, lines, join_lines, trim_end_char,
  trim, char_len,
}
use code_mentat.Core.Error.{ok}
use code_mentat.Core.Models.{FileRecord, source_code, RepositorySnapshot, ready}
use code_mentat.Core.Tools.{
  repo_status, read_file_lines as read_call, SourceRef, RepositoryToolCall, RepositoryToolResult,
  read_file_lines_args,
}
use code_mentat.Egress.Filename.{is_sensitive_filename}
use code_mentat.Gateway.Types.{
  Services, RepositoryToolGateway, bound_content, bound_content_to, validate_call_shape,
  shape_matches, validate_relative_path, leaves_root, source_ref, truncate_chars, validate_query,
}
use code_mentat.Gateway.Tools.{
  ToolOutput, read_file_lines, list_tree_listing, search_paths_listing, in_tree, path_matches,
  range_invalid, file_record, selected_lines,
}
use code_mentat.Gateway.Search.{search_text, search_loop, search_file, search_body, match_lines}
use code_mentat.Gateway.Execute.{
  new, execute, dispatch, finish, measured, clean_source, clean_content, needs_reindex,
}
use code_mentat.Gateway.Safety.{Answers, execute_bounded, execute_fresh}
use code_mentat.Gateway.Reading.{IsRead, read_file_lines_checked, sources_not_sensitive}
use code_mentat.Gateway.Bounds.Bytes.{bound_content_cut}
use code_mentat.Gateway.Bounds.Listings.{IsCut, selected, listings-IsCut}
use code_mentat.Gateway.Bounds.Matches.{FromFile, searchable, search_text_bounded}

abbrev pub body : Text
body = codes "fn a\nlet b"

-- The services: every file has the same body, and the hash of a text is the text.
abbrev pub services : Services
services = record {
  read_content = λ path. ok body;
  sha256_hex = λ t. t;
  to_lowercase = λ t. t;
  redact = λ t. t;
  fresh_id = λ n. n;
  encode_status = λ s stale. codes "{}";
  encode_paths = λ paths. some (codes "[]");
  encode_matches = λ sources. some (codes "[]");
  encode_file = λ file. codes "{}";
  encoded_size = λ r. some (byte_len r.content);
}

abbrev pub file_of : Text → FileRecord
file_of name = record {
  relative_path = normal name ∷ [];
  kind = source_code;
  size_bytes = 10;
  content_hash = body;
  is_text = true;
  line_count = some 2;
  text_preview = none;
}

abbrev pub snapshot : RepositorySnapshot
snapshot = record {
  id = 7;
  repo_id = 1;
  created_at = 0;
  tree_digest = codes "d";
  status = ready;
  file_count = 2;
  total_bytes = 20;
}

abbrev pub files : List FileRecord
files = file_of (codes "a.rs") ∷ file_of (codes "k.pem") ∷ []

abbrev gateway : RepositoryToolGateway
gateway = record { stale = false; snapshot = snapshot; files = file_of (codes "a.rs") ∷ [] }

abbrev pub call : RepositoryToolCall
call = record {
  call_id = 9;
  snapshot_id = 7;
  name = read_call;
  arguments = read_file_lines_args (normal (codes "a.rs") ∷ []) 2 9;
}

abbrev pub source : SourceRef
source = record {
  id = 0;
  snapshot_id = 7;
  relative_path = normal (codes "a.rs") ∷ [];
  line_start = 2;
  line_end = 2;
  content_hash = body;
  excerpt = codes "let b";
}

abbrev pub answer : RepositoryToolResult
answer = record {
  call_id = 9;
  snapshot_id = 7;
  content = codes "let b";
  source_refs = source ∷ [];
  omissions = [];
  content_bytes = 5;
}

abbrev pub parse_path : Text → FilePath
parse_path t = normal t ∷ []

no_key : new (λ t. t) snapshot files ≡ gateway
unfolding new sort_by retain is_sensitive_filename list_beq file_name starts_with has_substring any
    extension
no_key = refl

answered : execute services parse_path (new (λ t. t) snapshot files) (λ n. false) call ≡ ok answer
unfolding new sort_by retain is_sensitive_filename list_beq file_name starts_with has_substring any
    extension read_file_lines validate_relative_path leaves_root is_absolute range_invalid
    file_record find component_beq selected_lines lines join_lines source_ref truncate_chars
    trim_end_char execute dispatch finish measured clean_source clean_content bound_content
    bound_content_to validate_call_shape shape_matches needs_reindex byte_len char_len
answered = refl

sources_not_sensitive_example :
    All (λ s. is_sensitive_filename (λ t. t) s.relative_path ≡ false) answer.source_refs
sources_not_sensitive_example =
    sources_not_sensitive services parse_path snapshot files (λ n. false) call answer answered

execute_bounded_example : Answers services (new (λ t. t) snapshot files) call answer
execute_bounded_example =
    execute_bounded services parse_path (new (λ t. t) snapshot files) (λ n. false) call answer
      answered

execute_fresh_example :
    (call.name ≡ repo_status)
    ⊎ (((new (λ t. t) snapshot files).snapshot.status ≡ ready)
        × ((new (λ t. t) snapshot files).stale ≡ false))
execute_fresh_example =
    execute_fresh services parse_path (new (λ t. t) snapshot files) (λ n. false) call answer
      answered

abbrev reading : ToolOutput
reading = (codes "let b", source ∷ [], [])

read : read_file_lines services gateway false (normal (codes "a.rs") ∷ []) 2 9 ≡ ok reading
unfolding read_file_lines validate_relative_path leaves_root is_absolute any range_invalid
    file_record find list_beq component_beq selected_lines lines join_lines source_ref
    truncate_chars trim_end_char
read = refl

read_file_lines_checked_example : IsRead services gateway (normal (codes "a.rs") ∷ []) 2 9 reading
read_file_lines_checked_example =
    read_file_lines_checked services gateway false (normal (codes "a.rs") ∷ []) 2 9 reading read

abbrev found : ToolOutput
found = (codes "[]", source ∷ [], [])

searched : search_text services gateway parse_path (λ n. false) (codes "let") none 5 ≡ ok found
unfolding search_text validate_query trim byte_len char_len search_loop search_file search_body
    list_beq match_lines lines has_substring clamp source_ref truncate_chars trim_end_char
searched = refl

search_text_bounded_example :
    (length found.1 ≤ clamp 1 100 5)
    × (length found.2 ≤ 128)
    × All (FromFile searchable gateway.files) found.1
search_text_bounded_example =
    search_text_bounded services gateway parse_path (λ n. false) (codes "let") none 5
      {output = found} searched

listings-IsCut_example :
    IsCut
      (clamp 1 500 1)
      (selected (in_tree [] (clamp 1 4 2)) gateway.files)
      (list_tree_listing services gateway [] 2 1)
    × IsCut
        (clamp 1 100 1)
        (selected (path_matches services (codes "a")) gateway.files)
        (search_paths_listing services gateway (codes "a") 1)
listings-IsCut_example = listings-IsCut services gateway [] 2 1 (codes "a")

bound_content_cut_example :
    let cut = (bound_content_to 4 body []).0 in
    (byte_len cut ≤ 4)
    × ((rest : Text) × (cut ++ rest ≡ body))
    × ((cut ≡ body) ⊎ (4 < byte_len cut + 4))
bound_content_cut_example = bound_content_cut 4 body []
