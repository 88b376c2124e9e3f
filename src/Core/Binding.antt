-- ===== src/Core/Binding.antt =====
-- crates/mentat-core/src/models.rs: a provider, its endpoint and model, bound by a digest.
-- URLs are parsed by the crate `url`, and the digest is SHA-256; both are parameters, with Unicode
-- lower case and the text of a `Uuid`.
pub mod Security
pub mod Examples
use code_mentat.Base.{
  ℕ, Bool, true, false, not, ◌&&◌, ◌||◌, Option, none, some, List, [], ◌∷◌, ◌++◌, Text, codes, trim,
  trim_end_char, byte_len, is_empty, as_bytes, decimal, Bytes, list_eq, nat_eq, ◌==◌, ◌!=◌, ltb,
  any, if◌then◌else◌, ◌≡◌, ◌↔◌, refl, arith,
}
use code_mentat.Core.Error.{Result, ok, err, egress_violation, ◌>>=◌, ◌>>◌, fail_if}
use code_mentat.Core.Models.{Uuid}

pub record ParsedUrl : Type 0 where
  pub scheme : Text
  pub username : Text
  pub password : Option Text
  pub host : Option Text
  pub port : Option ℕ
  pub path : Text
  pub query : Option Text
  pub fragment : Option Text

pub record BindingServices : Type 0 where
  pub parse_url : Text → Option ParsedUrl
  pub to_lowercase : Text → Text
  pub sha256_hex : Bytes → Text
  pub show_uuid : Uuid → Text

pub record ProviderBinding : Type 0 where
  pub profile_id : Uuid
  pub provider : Text
  pub endpoint_identity : Text
  pub model_id : Text
  pub target_digest : Text

abbrev pub is_some : Option Text → Bool
is_some none = false
is_some (some t) = true

abbrev pub or_violation {ℓ} : {A : Type ℓ} → Option A → Result A
or_violation none = err egress_violation
or_violation (some a) = ok a

unfoldable pub has_credentials : ParsedUrl → Bool
has_credentials url =
    not (is_empty url.username) || is_some url.password || is_some url.query || is_some url.fragment

abbrev pub loopback_hosts : List Text
loopback_hosts = codes "localhost" ∷ codes "127.0.0.1" ∷ codes "::1" ∷ codes "[::1]" ∷ []

unfoldable pub is_loopback : Text → Bool
is_loopback host = any (λ h. host == h) loopback_hosts

unfoldable pub is_secure : Text → Text → Bool
is_secure scheme host = scheme == codes "https" || (scheme == codes "http" && is_loopback host)

abbrev port_text : Option ℕ → Text
port_text none = []
port_text (some port) = codes ":" ++ decimal port

abbrev path_or_slash : Text → Text
path_or_slash [] = codes "/"
path_or_slash (c ∷ t) = c ∷ t

module _ (w : BindingServices) where
  unfoldable pub identity_of : ParsedUrl → Text → Text
  identity_of url host =
      url.scheme
      ++ (codes "://"
          ++ (w.to_lowercase host
              ++ (port_text url.port ++ (trim_end_char 47 (path_or_slash url.path) ++ codes "/"))))

  unfoldable pub target_digest_of : Uuid → Text → Text → Text → Text
  target_digest_of profile_id provider endpoint_identity model_id = w.sha256_hex (
      as_bytes (
        codes "CM_PROVIDER_TARGET_V1\n"
        ++ (w.show_uuid profile_id
            ++ (10 ∷ provider ++ (10 ∷ endpoint_identity ++ (10 ∷ model_id))))))

  -- `ProviderBinding::new`.
  unfoldable pub bind_provider : Uuid → Text → Text → Text → Result ProviderBinding
  bind_provider profile_id provider endpoint model_id = do
    fail_if (is_empty (trim provider) || is_empty (trim model_id) || ltb 256 (byte_len model_id))
        egress_violation
    url ← or_violation (w.parse_url endpoint)
    fail_if (has_credentials url) egress_violation
    host ← or_violation url.host
    fail_if (not (is_secure url.scheme host)) egress_violation
    ok (record {
      profile_id = profile_id;
      provider = provider;
      endpoint_identity = identity_of url host;
      model_id = model_id;
      target_digest = target_digest_of profile_id provider (identity_of url host) model_id;
    })

  unfoldable pub verify_target_digest : ProviderBinding → Result (Unit {0})
  verify_target_digest b = do
    rebuilt ← bind_provider b.profile_id b.provider b.endpoint_identity b.model_id
    fail_if (rebuilt.target_digest != b.target_digest) egress_violation
  -- `#[derive(PartialEq)]`.

unfoldable pub binding_beq : ProviderBinding → ProviderBinding → Bool
binding_beq a b =
    a.profile_id == b.profile_id
    && a.provider == b.provider
    && a.endpoint_identity == b.endpoint_identity
    && a.model_id == b.model_id
    && a.target_digest == b.target_digest
