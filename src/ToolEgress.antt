-- ===== src/ToolEgress.antt =====
-- crates/mentat-analysis/src/tool_egress.rs: the receipt that seals what a tool call sends to a
-- provider. A capability is a consent scope with a nonce and a revocation token; the token's state
-- and the clock and the new `Uuid` of a call are arguments.
pub mod Frames
pub mod Canonical
pub mod Sealing
pub mod Examples
use code_mentat.Base.{
  ℕ, Bool, true, false, not, ◌&&◌, ◌||◌, Option, none, some, List, [], ◌∷◌, ◌++◌, map, Text, codes,
  replace_char, path_text, decimal, as_bytes, Bytes, FilePath, Component, prefix, root_dir, cur_dir,
  parent_dir, normal, is_absolute, any, is_empty, ltb, leb, path_le, text_le, sort_by, length,
  to_be_bytes, u64_max, list_eq, nat_eq, ◌==◌, ◌!=◌, if◌then◌else◌, nat_beq,
}
use code_mentat.Core.Error.{MentatError, Result, ok, err, backend_error, ◌>>=◌, ◌>>◌, fail_if}
use code_mentat.Core.Models.{Uuid, Time}
use code_mentat.Core.Tools.{RepositoryToolName, wire_name}
use code_mentat.Core.Binding.{BindingServices, ProviderBinding, verify_target_digest, binding_beq}
use code_mentat.Core.Egress.{
  RepositoryConsentKind, request_once, repository_session, RepositoryConsentScope, CanonicalToolRef,
  ToolEgressReceipt, prepared,
}

abbrev pub tool_egress_seal_version : Text
tool_egress_seal_version = codes "CM_TOOL_EGRESS_V1"

-- `RuntimeConsentCapability`, with what its revocation token says when it is asked.
pub record RuntimeConsentCapability : Type 0 where
  pub scope : RepositoryConsentScope
  pub nonce : Bytes
  pub revoked : Bool

pub record ToolEgressEnvelope : Type 0 where
  pub trace_id : Uuid
  pub conversation_id : Uuid
  pub turn_id : Uuid
  pub tool_call_id : Uuid
  pub repository_id : Uuid
  pub snapshot_id : Uuid
  pub tool_name : RepositoryToolName
  pub refs : List CanonicalToolRef
  pub provider_binding : ProviderBinding
  pub semantic_payload : Bytes
  pub exact_provider_body : Bytes

abbrev pub is_set : Option Time → Bool
is_set none = false
is_set (some t) = true

unfoldable pub check_authorized : RuntimeConsentCapability → Result (Unit {0})
check_authorized c =
    fail_if (c.revoked || is_set c.scope.revoked_at) (backend_error "TOOL_EGRESS_CONSENT_REVOKED")

-- 32 zero bytes.
abbrev no_nonce : Bytes
no_nonce = let eight = 0 ∷ 0 ∷ 0 ∷ 0 ∷ 0 ∷ 0 ∷ 0 ∷ 0 ∷ [] in eight ++ (eight ++ (eight ++ eight))

unfoldable pub scope_mismatch : RepositoryConsentScope → ToolEgressEnvelope → Bool
scope_mismatch scope e =
    scope.conversation_id != e.conversation_id
    || scope.repository_id != e.repository_id
    || scope.snapshot_id != e.snapshot_id
    || not (binding_beq scope.provider_binding e.provider_binding)

unfoldable pub turn_mismatch : RepositoryConsentKind → Uuid → Bool
turn_mismatch (request_once approved) turn_id = approved != turn_id
turn_mismatch repository_session turn_id = false

abbrev escapes : Component → Bool
escapes (prefix s) = true
escapes root_dir = true
escapes cur_dir = false
escapes parent_dir = true
escapes (normal s) = false

unfoldable pub ref_invalid : CanonicalToolRef → Bool
ref_invalid r =
    is_absolute r.relative_path
    || any escapes r.relative_path
    || r.line_start == 0
    || ltb r.line_end r.line_start
    || is_empty r.content_hash
    || is_empty r.redacted_payload_digest

unfoldable pub validate_refs : List CanonicalToolRef → Result (Unit {0})
validate_refs [] = ok tt
validate_refs (r ∷ refs) =
    fail_if (ref_invalid r) (backend_error "TOOL_EGRESS_REF_INVALID") >> validate_refs refs

-- The order of the refs: by path, first line, last line and content hash.
unfoldable pub ref_le : CanonicalToolRef → CanonicalToolRef → Bool
ref_le a b =
    if not (path_le a.relative_path b.relative_path)
    then false
    else if not (path_le b.relative_path a.relative_path)
    then true
    else if ltb a.line_start b.line_start
    then true
    else if ltb b.line_start a.line_start
    then false
    else if ltb a.line_end b.line_end
    then true
    else if ltb b.line_end a.line_end
    then false
    else text_le a.content_hash b.content_hash

unfoldable pub sort_refs : List CanonicalToolRef → List CanonicalToolRef
sort_refs = sort_by ref_le

abbrev pub ref_fields : CanonicalToolRef → List Text
ref_fields r =
    replace_char 92 47 (path_text r.relative_path)
    ∷ decimal r.line_start
    ∷ decimal r.line_end
    ∷ r.content_hash
    ∷ r.redacted_payload_digest
    ∷ []

unfoldable pub refs_fields : List CanonicalToolRef → List Text
refs_fields [] = []
refs_fields (r ∷ refs) = ref_fields r ++ refs_fields refs

-- Each field behind its length in eight bytes; a length that does not fit is an error.
unfoldable pub frames : List Text → Result Bytes
frames [] = ok []
frames (field ∷ fields) = do
  let bytes = as_bytes field
  fail_if (ltb u64_max (length bytes)) (backend_error "TOOL_EGRESS_FIELD_TOO_LARGE")
  rest ← frames fields
  ok (to_be_bytes (length bytes) ++ (bytes ++ rest))

module _ (w : BindingServices) where
  unfoldable pub receipt_fields : ToolEgressReceipt → List Text
  receipt_fields r =
      r.seal_version
      ∷ w.show_uuid r.id
      ∷ w.show_uuid r.trace_id
      ∷ w.show_uuid r.consent_scope_id
      ∷ w.show_uuid r.conversation_id
      ∷ w.show_uuid r.turn_id
      ∷ w.show_uuid r.tool_call_id
      ∷ w.show_uuid r.repository_id
      ∷ w.show_uuid r.snapshot_id
      ∷ wire_name r.tool_name
      ∷ w.show_uuid r.provider_binding.profile_id
      ∷ r.provider_binding.provider
      ∷ r.provider_binding.endpoint_identity
      ∷ r.provider_binding.model_id
      ∷ r.provider_binding.target_digest
      ∷ r.semantic_payload_digest
      ∷ r.exact_provider_body_digest
      ∷ refs_fields (sort_refs r.canonical_refs)

  unfoldable pub canonical_digest : ToolEgressReceipt → Result Text
  canonical_digest r = do canonical ← frames (receipt_fields r); ok (w.sha256_hex canonical)

  -- The receipt of an envelope before its own digest is known.
  unfoldable pub unsealed :
      RepositoryConsentScope → ToolEgressEnvelope → Time → Uuid → ToolEgressReceipt
  unsealed scope e now id = record {
    id = id;
    seal_version = tool_egress_seal_version;
    trace_id = e.trace_id;
    consent_scope_id = scope.id;
    conversation_id = e.conversation_id;
    turn_id = e.turn_id;
    tool_call_id = e.tool_call_id;
    repository_id = e.repository_id;
    snapshot_id = e.snapshot_id;
    tool_name = e.tool_name;
    canonical_refs = sort_refs e.refs;
    provider_binding = e.provider_binding;
    semantic_payload_digest = w.sha256_hex e.semantic_payload;
    exact_provider_body_digest = w.sha256_hex e.exact_provider_body;
    canonical_digest = [];
    status = prepared;
    prepared_at = now;
    updated_at = now;
  }

  -- `ToolEgressSealer::prepare`, at a time and with the `Uuid` it makes.
  unfoldable pub prepare :
      RuntimeConsentCapability → ToolEgressEnvelope → Time → Uuid → Result ToolEgressReceipt
  prepare c e now id = do
    check_authorized c
    fail_if (c.nonce == no_nonce) (backend_error "TOOL_EGRESS_CAPABILITY_INVALID")
    fail_if (is_set c.scope.revoked_at) (backend_error "TOOL_EGRESS_CONSENT_REVOKED")
    fail_if (scope_mismatch c.scope e) (backend_error "TOOL_EGRESS_SCOPE_MISMATCH")
    fail_if (turn_mismatch c.scope.kind e.turn_id) (backend_error "TOOL_EGRESS_TURN_MISMATCH")
    verify_target_digest w e.provider_binding
    validate_refs e.refs
    digest ← canonical_digest (unsealed c.scope e now id)
    ok (record (unsealed c.scope e now id) { canonical_digest = digest })

  unfoldable pub verify : ToolEgressReceipt → Result (Unit {0})
  verify r = do
    fail_if (r.seal_version != tool_egress_seal_version)
        (backend_error "TOOL_EGRESS_SEAL_VERSION_INVALID")
    verify_target_digest w r.provider_binding
    validate_refs r.canonical_refs
    digest ← canonical_digest r
    fail_if (digest != r.canonical_digest) (backend_error "TOOL_EGRESS_CANONICAL_DIGEST_MISMATCH")

  unfoldable pub verify_exact_body : ToolEgressReceipt → Bytes → Result (Unit {0})
  verify_exact_body r exact_provider_body = do
    verify r
    fail_if (w.sha256_hex exact_provider_body != r.exact_provider_body_digest)
        (backend_error "TOOL_EGRESS_BODY_DIGEST_MISMATCH")
