-- ===== src/Gateway/Safety.antt =====
-- What a call of the gateway that succeeds has passed.
use code_mentat.Base.{
  ℕ, ◌≤◌, Bool, true, false, not, Option, none, some, ◌≡◌, refl, sym, subst, ◌⊎◌, Text, FilePath,
  length, length-take-le, ltb, nat_eq, list_eq, component_eq, ◌!=◌, !=-sound, arith, u32_max,
}
use code_mentat.Core.Error.{ok, >>=-eq-ok, fail_if-eq-ok}
use code_mentat.Core.Models.{ready}
use code_mentat.Core.Tools.{
  RepositoryToolName, repo_status, RepositoryToolCall, RepositoryToolResult,
}
use code_mentat.Gateway.Types.{
  Services, RepositoryToolGateway, max_result_bytes, encoded, validate_call_shape, shape_matches,
}
use code_mentat.Gateway.Tools.{ToolOutput}
use code_mentat.Gateway.Execute.{needs_reindex, measured, finish, dispatch, execute}

-- The parts of a call that succeeds.
pub execute_parts :
    (w : Services) (parse_path : Text → FilePath) (g : RepositoryToolGateway) (polls : ℕ → Bool)
    (call : RepositoryToolCall) (r : RepositoryToolResult)
    → execute w parse_path g polls call ≡ ok r
    → (call.snapshot_id ≡ g.snapshot.id)
      × (shape_matches call.name call.arguments ≡ true)
      × (needs_reindex g call.name ≡ false)
      × (polls 0 ≡ false)
      × (output : ToolOutput) × (dispatch w parse_path g polls call.arguments ≡ ok output)
      × (finish w call output ≡ ok r)
unfolding execute validate_call_shape
execute_parts w parse_path g polls call r h =
    let a = fail_if-eq-ok (call.snapshot_id != g.snapshot.id) _ _ r h in
    let b = fail_if-eq-ok (not (shape_matches call.name call.arguments)) _ _ r a.1 in
    let c = fail_if-eq-ok (needs_reindex g call.name) _ _ r b.1 in
    let d = fail_if-eq-ok (polls 0) _ _ r c.1 in
    let (output, e, f) = >>=-eq-ok (dispatch w parse_path g polls call.arguments) _ r d.1 in
    (!=-sound call.snapshot_id g.snapshot.id a.0, ground arith, c.0, d.0, output, e, f)

pub finish_parts :
    (w : Services) (call : RepositoryToolCall) (output : ToolOutput) (r : RepositoryToolResult)
    → finish w call output ≡ ok r
    → (size : ℕ) × (w.encoded_size (measured w call output) ≡ some size)
      × (size ≤ max_result_bytes)
      × (r ≡ record (measured w call output) { content_bytes = size })
unfolding finish
finish_parts w call output r h =
    let (size, e, k) = >>=-eq-ok (encoded (w.encoded_size (measured w call output))) _ r h in
    let b = fail_if-eq-ok (ltb max_result_bytes size) _ _ r k in
    (size, encoded-some (w.encoded_size (measured w call output)) size e, ground arith, cc b.1)
  where
    encoded-some : (o : Option ℕ) (n : ℕ) → encoded o ≡ ok n → o ≡ some n
    encoded-some none n q = cc
    encoded-some (some m) n q = cc

abbrev pub Answers :
    Services → RepositoryToolGateway → RepositoryToolCall → RepositoryToolResult → Type 0
Answers w g call r =
    (r.call_id ≡ call.call_id)
    × (r.snapshot_id ≡ g.snapshot.id)
    × (length r.omissions ≤ 128)
    × (r.content_bytes ≤ max_result_bytes)
    × (w.encoded_size (record r { content_bytes = u32_max }) ≡ some r.content_bytes)

-- A result names the call and the snapshot that it answers, has at most 128 omissions, and its
-- size is that of its own encoding, with the greatest `u32` in the place of the size, which is at
-- most 64 KiB.
pub execute_bounded :
    (w : Services) (parse_path : Text → FilePath) (g : RepositoryToolGateway) (polls : ℕ → Bool)
    (call : RepositoryToolCall) (r : RepositoryToolResult)
    → execute w parse_path g polls call ≡ ok r
    → Answers w g call r
unfolding measured
execute_bounded w parse_path g polls call r h =
    let p = execute_parts w parse_path g polls call r h in
    let (size, e, small, same) = finish_parts w call p.4 r p.6 in
    subst (Answers w g call) (sym same) (refl, p.0, length-take-le 128 _, small, e)

needs_reindex-false :
    (g : RepositoryToolGateway) (name : RepositoryToolName)
    → needs_reindex g name ≡ false
    → (name ≡ repo_status) ⊎ ((g.snapshot.status ≡ ready) × (g.stale ≡ false))
unfolding needs_reindex
needs_reindex-false g name h = ground arith

-- A gateway whose snapshot is not ready, or that is marked as stale, answers `repo_status` alone.
pub execute_fresh :
    (w : Services) (parse_path : Text → FilePath) (g : RepositoryToolGateway) (polls : ℕ → Bool)
    (call : RepositoryToolCall) (r : RepositoryToolResult)
    → execute w parse_path g polls call ≡ ok r
    → (call.name ≡ repo_status) ⊎ ((g.snapshot.status ≡ ready) × (g.stale ≡ false))
execute_fresh w parse_path g polls call r h =
    needs_reindex-false g call.name (execute_parts w parse_path g polls call r h).2
