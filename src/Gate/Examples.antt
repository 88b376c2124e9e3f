-- ===== src/Gate/Examples.antt =====
-- crates/mentat-app/src/tool_egress_gate.rs: a request with the result of one call.
use code_mentat.Core.Binding.{
  binding_beq, bind_provider, is_secure, has_credentials, is_loopback, target_digest_of,
  verify_target_digest, identity_of,
}
use code_mentat.ToolEgress.{
  prepare, check_authorized, scope_mismatch, turn_mismatch, validate_refs, canonical_digest, frames,
  receipt_fields, refs_fields, sort_refs, ref_le, unsealed, verify, verify_exact_body, ref_invalid,
}
use code_mentat.Base.{
  false, none, some, [], ◌∷◌, codes, list_beq, path_text, ◌≡◌, refl, as_bytes, decimal, to_be_bytes,
  contains, distinct, option_beq, sort_by, insert_by, path_le, text_le, trim, replace_char,
  char_len, byte_len, is_absolute, any, find, trim_end_char,
}
use code_mentat.Core.Error.{ok}
use code_mentat.Core.Tools.{wire_name}
use code_mentat.Core.Egress.{RepositoryConsentScope, repository_session}
use code_mentat.ToolEgress.Examples.{services, scope}
use code_mentat.Inference.Types.{
  AgentRequest, assistant_role, tool_role, tool_calls_content, tool_result_content,
}
use code_mentat.Storage.Receipts.{
  Sqlite, prepare_tool_egress_receipt, find_receipt, egress_status_text,
}
use code_mentat.Gateway.Examples.{call, answer}
use code_mentat.Agent.Examples.{request as question}
use code_mentat.Gate.{
  DurableToolEgressGate, GateState, authorize_exact_body, authorize_results, seal_result,
  requested_calls, tool_results, called_name, fail_prepared,
}
use code_mentat.Gate.Authorizing.{Authorized, authorize_exact_body_covered}

abbrev consent : RepositoryConsentScope
consent = record scope { repository_id = 1; snapshot_id = 7; kind = repository_session }

abbrev sound : Sqlite
sound = record { lock_poisoned = false; begin_fails = false; commit_fails = false }

abbrev gate : DurableToolEgressGate
gate = record {
  services = services;
  trace_id = 7;
  owner = 8;
  capability = λ n. record { scope = consent; nonce = 1 ∷ []; revoked = false };
  io = λ n. sound;
  now = λ n. 50;
  fresh_id = λ n. 20;
  failing_io = sound;
  failing_at = 60;
  ids_poisoned = false;
  show_provider = λ p. codes "P";
  encode_result = λ r. some (1 ∷ []);
}

abbrev request : AgentRequest
request = record question {
  messages =
      record {
        role = assistant_role;
        content = tool_calls_content (call ∷ []);
        provider_parts = none;
      }
      ∷ record { role = tool_role; content = tool_result_content answer; provider_parts = none }
      ∷ [];
}

abbrev before : GateState
before = record {
  store = record { traces = 7 ∷ []; scopes = consent ∷ []; receipts = [] };
  receipt_ids = [];
}

authorize_exact_body_test :
    (authorize_exact_body gate request (codes "https://h/") (codes "body") before).1 ≡ ok (20 ∷ [])
unfolding prepare check_authorized scope_mismatch turn_mismatch validate_refs canonical_digest
    frames receipt_fields refs_fields sort_refs ref_le unsealed verify verify_exact_body ref_invalid
    list_beq path_text as_bytes decimal to_be_bytes contains distinct option_beq sort_by insert_by
    path_le text_le trim replace_char char_len byte_len is_absolute any binding_beq bind_provider
    is_secure has_credentials is_loopback target_digest_of verify_target_digest wire_name
    prepare_tool_egress_receipt find_receipt egress_status_text find identity_of trim_end_char
    authorize_exact_body authorize_results seal_result requested_calls tool_results called_name
    fail_prepared
authorize_exact_body_test = refl

authorize_exact_body_covered_example :
    Authorized gate request
      (codes "body")
      before
      (authorize_exact_body gate request (codes "https://h/") (codes "body") before)
authorize_exact_body_covered_example =
    authorize_exact_body_covered gate request (codes "https://h/") (codes "body") before
