-- ===== src/Repository/Session.antt =====
-- crates/mentat-repository/src/session.rs: reading lines of a file, and the snapshot of a scan.
pub mod Completeness
pub mod Examples
use code_mentat.Base.{
  ℕ, ◌-◌, Bool, ◌||◌, List, [], ◌∷◌, ◌++◌, FilePath, path_text, Text, lines, join_lines, length,
  take, drop, leb, ltb, nat_beq, sort_by, path_le, wrapping_add, min_of, if◌then◌else◌,
}
use code_mentat.Core.Error.{Result, ok, ◌>>=◌}
use code_mentat.Core.Models.{Uuid, Time, FileRecord, RepositorySnapshot, ready, incomplete}
use code_mentat.Repository.Scan.{ScanOutcome, is_complete}

-- `lines[start_line - 1 .. min(end_line, lines.len())]`, joined; nothing for an empty range.
unfoldable pub select_lines : Text → ℕ → ℕ → Text
select_lines content start_line end_line =
    let all_lines = lines content in
    if nat_beq start_line 0 || ltb (length all_lines) start_line
    then []
    else let start_idx = start_line - 1 in
      let end_idx = min_of end_line (length all_lines) in
      if leb end_idx start_idx
      then []
      else join_lines (take (end_idx - start_idx) (drop start_idx all_lines))

-- `read_file_content` of the file is a parameter: it reads the file system.
pub read_file_lines : (FilePath → Result Text) → FilePath → ℕ → ℕ → Result Text
unfolding select_lines
read_file_lines read_content path start_line end_line = do
  content ← read_content path
  ok (select_lines content start_line end_line)

by_path : FileRecord → FileRecord → Bool
by_path a b = path_le a.relative_path b.relative_path

hashed : List FileRecord → Text
hashed [] = []
hashed (file ∷ files) = path_text file.relative_path ++ (file.content_hash ++ hashed files)

total_size : ℕ → List FileRecord → ℕ
total_size sum [] = sum
total_size sum (file ∷ files) = total_size (wrapping_add sum file.size_bytes) files

-- The `Uuid` and the time of the new snapshot are arguments, and so is SHA-256 in hexadecimal.
module _ (sha256_hex : Text → Text) (repo_id : Uuid) (id : Uuid) (now : Time) where
  pub create_snapshot_from_files : List FileRecord → RepositorySnapshot
  unfolding hashed total_size
  create_snapshot_from_files files = record {
    id = id;
    repo_id = repo_id;
    created_at = now;
    tree_digest = sha256_hex (hashed (sort_by by_path files));
    status = ready;
    file_count = length files;
    total_bytes = total_size 0 (sort_by by_path files);
  }

  pub create_snapshot_from_outcome : ScanOutcome → RepositorySnapshot
  unfolding create_snapshot_from_files
  create_snapshot_from_outcome outcome =
      let snapshot = create_snapshot_from_files outcome.files in
      if is_complete outcome then snapshot else record snapshot { status = incomplete }
