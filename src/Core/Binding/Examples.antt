-- ===== src/Core/Binding/Examples.antt =====
-- crates/mentat-core/src/models.rs: a binding to a local server.
use code_mentat.Base.{
  none, some, [], Text, codes, ◌≡◌, refl, trim, byte_len, char_len, list_beq, any, decimal,
  as_bytes, trim_end_char,
}
use code_mentat.Core.Error.{ok}
use code_mentat.Core.Binding.{
  BindingServices, ProviderBinding, bind_provider, target_digest_of, has_credentials, is_secure,
  is_loopback, identity_of,
}
use code_mentat.Core.Binding.Security.{IsBoundTo, bind_provider_secure}

-- The parser knows one address, and the digest of some bytes is the bytes.
abbrev pub services : BindingServices
services = record {
  parse_url = λ t. some (record {
    scheme = codes "http";
    username = [];
    password = none;
    host = some (codes "localhost");
    port = some 80;
    path = codes "/v1/";
    query = none;
    fragment = none;
  });
  to_lowercase = λ t. t;
  sha256_hex = λ b. b;
  show_uuid = λ id. codes "u";
}

abbrev pub local_identity : Text
local_identity = codes "http://localhost:80/v1/"

abbrev pub local_binding : ProviderBinding
local_binding = record {
  profile_id = 1;
  provider = codes "Ollama";
  endpoint_identity = local_identity;
  model_id = codes "m";
  target_digest = codes "CM_PROVIDER_TARGET_V1\nu\nOllama\nhttp://localhost:80/v1/\nm";
}

pub bound : bind_provider services 1 (codes "Ollama") local_identity (codes "m") ≡ ok local_binding
unfolding bind_provider trim byte_len char_len has_credentials is_secure list_beq is_loopback any
    identity_of target_digest_of decimal as_bytes trim_end_char
bound = refl

bind_provider_secure_example :
    IsBoundTo services (codes "Ollama") local_identity (codes "m") local_binding
bind_provider_secure_example =
    bind_provider_secure services 1 (codes "Ollama") local_identity (codes "m") local_binding bound
