-- ===== src/ToolEgress/Examples.antt =====
-- crates/mentat-analysis/src/tool_egress.rs: a receipt for one reading. The hash of these examples
-- keeps the first eight bytes.
use code_mentat.Base.{
  ℕ, zero, suc, Text, arith, false, none, some, [], ◌∷◌, codes, normal, take, as_bytes, ◌≡◌, ◌⊎◌,
  refl, trim, byte_len, char_len, list_beq, sort_by, replace_char, path_text, decimal, to_be_bytes,
  is_absolute, any,
}
use code_mentat.Core.Error.{ok}
use code_mentat.Core.Tools.{read_file_lines, wire_name}
use code_mentat.Core.Binding.{
  BindingServices, ProviderBinding, verify_target_digest, bind_provider, has_credentials, is_secure,
  target_digest_of, binding_beq,
}
use code_mentat.Core.Egress.{
  RepositoryConsentScope, CanonicalToolRef, ToolEgressReceipt, request_once, sent,
}
use code_mentat.ToolEgress.{
  RuntimeConsentCapability, ToolEgressEnvelope, prepare, unsealed, verify_exact_body,
  canonical_digest, receipt_fields, frames, refs_fields, sort_refs, check_authorized,
  scope_mismatch, turn_mismatch, validate_refs, ref_invalid,
}
use code_mentat.ToolEgress.Canonical.{SameReceipt, Collision, canonical_digest-binds}
use code_mentat.ToolEgress.Sealing.{
  IsCoveredBy, prepare_covered, prepare-verify_exact_body, verify_exact_body_only,
}

abbrev pub services : BindingServices
services = record {
  parse_url = λ t. some (record {
    scheme = codes "https";
    username = [];
    password = none;
    host = some (codes "h");
    port = none;
    path = [];
    query = none;
    fragment = none;
  });
  to_lowercase = λ t. t;
  sha256_hex = λ b. take 8 b;
  show_uuid = λ id. codes "u";
}

abbrev binding : ProviderBinding
binding = record {
  profile_id = 1;
  provider = codes "P";
  endpoint_identity = codes "https://h/";
  model_id = codes "m";
  target_digest = codes "CM_PROVI";
}

abbrev pub scope : RepositoryConsentScope
scope = record {
  id = 2;
  conversation_id = 3;
  repository_id = 4;
  snapshot_id = 5;
  provider_binding = binding;
  kind = request_once 6;
  granted_at = 0;
  revoked_at = none;
}

abbrev capability : RuntimeConsentCapability
capability = record { scope = scope; nonce = 1 ∷ []; revoked = false }

abbrev ref_of_reading : CanonicalToolRef
ref_of_reading = record {
  relative_path = normal (codes "a.rs") ∷ [];
  line_start = 1;
  line_end = 2;
  content_hash = codes "h";
  redacted_payload_digest = codes "d";
}

abbrev envelope : ToolEgressEnvelope
envelope = record {
  trace_id = 7;
  conversation_id = 3;
  turn_id = 6;
  tool_call_id = 8;
  repository_id = 4;
  snapshot_id = 5;
  tool_name = read_file_lines;
  refs = ref_of_reading ∷ [];
  provider_binding = binding;
  semantic_payload = codes "payload";
  exact_provider_body = codes "body";
}

-- The first frame holds the version of the seal, of 17 bytes.
abbrev receipt : ToolEgressReceipt
receipt = record (unsealed services scope envelope 100 9) {
  canonical_digest = 0 ∷ 0 ∷ 0 ∷ 0 ∷ 0 ∷ 0 ∷ 0 ∷ 17 ∷ [];
}

target_verified : verify_target_digest services binding ≡ ok tt
unfolding verify_target_digest bind_provider trim byte_len char_len has_credentials is_secure
    list_beq target_digest_of as_bytes
target_verified = refl

digested :
    canonical_digest services (unsealed services scope envelope 100 9)
    ≡ ok (0 ∷ 0 ∷ 0 ∷ 0 ∷ 0 ∷ 0 ∷ 0 ∷ 17 ∷ [])
unfolding canonical_digest frames receipt_fields as_bytes unsealed wire_name refs_fields sort_refs
    sort_by replace_char path_text decimal to_be_bytes
digested = refl

sealed : prepare services capability envelope 100 9 ≡ ok receipt
unfolding prepare check_authorized list_beq scope_mismatch binding_beq turn_mismatch validate_refs
    ref_invalid is_absolute any
sealed = rw (target_verified, digested) refl

prepare_covered_example : (capability.revoked ≡ false) × IsCoveredBy scope receipt
prepare_covered_example = prepare_covered services capability envelope 100 9 receipt sealed

prepare-verify_exact_body_example : verify_exact_body services receipt (codes "body") ≡ ok tt
prepare-verify_exact_body_example =
    prepare-verify_exact_body services capability envelope 100 9 receipt sealed

verify_exact_body_only_example : (codes "body" ≡ codes "body") ⊎ Collision services.sha256_hex
verify_exact_body_only_example =
    verify_exact_body_only services capability envelope 100 9 receipt (codes "body") sealed
      (prepare-verify_exact_body services capability envelope 100 9 receipt sealed)

-- Ids that are shown by as many letters.
abbrev tally : ℕ → Text
tally zero = []
tally (suc n) = 97 ∷ tally n

abbrev tallied : BindingServices
tallied = record services { show_uuid = tally }

tally-injective : (a b : ℕ) → as_bytes (tally a) ≡ as_bytes (tally b) → a ≡ b
unfolding as_bytes
tally-injective zero zero h = refl
tally-injective zero (suc b) h = cc h
tally-injective (suc a) zero h = cc h
tally-injective (suc a) (suc b) h =
    let rest : as_bytes (tally a) ≡ as_bytes (tally b) = cc h in
    omega (arith, tally-injective a b rest)

tallied_digest :
    canonical_digest tallied (unsealed tallied scope envelope 100 9)
    ≡ ok (0 ∷ 0 ∷ 0 ∷ 0 ∷ 0 ∷ 0 ∷ 0 ∷ 17 ∷ [])
unfolding canonical_digest frames receipt_fields as_bytes unsealed wire_name refs_fields sort_refs
    sort_by replace_char path_text decimal to_be_bytes
tallied_digest = refl

tallied_sent :
    canonical_digest tallied
      (record (unsealed tallied scope envelope 100 9) { status = sent; updated_at = 200 })
    ≡ ok (0 ∷ 0 ∷ 0 ∷ 0 ∷ 0 ∷ 0 ∷ 0 ∷ 17 ∷ [])
unfolding canonical_digest frames receipt_fields as_bytes unsealed wire_name refs_fields sort_refs
    sort_by replace_char path_text decimal to_be_bytes
tallied_sent = refl

canonical_digest-binds_example :
    SameReceipt
      (unsealed tallied scope envelope 100 9)
      (record (unsealed tallied scope envelope 100 9) { status = sent; updated_at = 200 })
    ⊎ Collision tallied.sha256_hex
canonical_digest-binds_example =
    canonical_digest-binds tallied (unsealed tallied scope envelope 100 9)
      (record (unsealed tallied scope envelope 100 9) { status = sent; updated_at = 200 })
      (0 ∷ 0 ∷ 0 ∷ 0 ∷ 0 ∷ 0 ∷ 0 ∷ 17 ∷ []) tally-injective tallied_digest tallied_sent
