-- ===== src/Core/Binding/Security.antt =====
-- crates/mentat-core/src/models.rs: what a provider binding guarantees of its endpoint.
use code_mentat.Base.{
  ℕ, true, false, not, ◌||◌, Option, none, some, Text, trim, is_empty, byte_len, ltb, ◌≡◌, refl,
  arith, ◌≤◌, subst, or-split,
}
use code_mentat.Core.Error.{ok, egress_violation, >>=-eq-ok, fail_if-eq-ok}
use code_mentat.Core.Binding.{
  ParsedUrl, BindingServices, ProviderBinding, bind_provider, has_credentials, is_secure,
  identity_of, target_digest_of, or_violation,
}

-- The address that was parsed is one that a request may be sent to.
pub record IsSecureEndpoint (url : ParsedUrl) (host : Text) : Type 0 where
  pub host_known : url.host ≡ some host
  pub no_credentials : has_credentials url ≡ false
  pub secure : is_secure url.scheme host ≡ true

or_violation-eq-ok : {A : Type 0} (o : Option A) (a : A) → or_violation o ≡ ok a → o ≡ some a
or_violation-eq-ok none a h = cc
or_violation-eq-ok (some b) a h = cc

-- What a binding records of the request that made it.
pub record IsBoundTo (w : BindingServices) (provider endpoint model_id : Text) (b : ProviderBinding)
    : Type 0 where
  pub url : ParsedUrl
  pub host : Text
  pub parsed : w.parse_url endpoint ≡ some url
  pub endpoint_secure : IsSecureEndpoint url host
  pub provider_named : is_empty (trim provider) ≡ false
  pub model_named : is_empty (trim model_id) ≡ false
  pub model_short : byte_len model_id ≤ 256
  pub provider_kept : b.provider ≡ provider
  pub model_kept : b.model_id ≡ model_id
  pub identity : b.endpoint_identity ≡ identity_of w url host
  pub digest_own :
      b.target_digest ≡ target_digest_of w b.profile_id provider b.endpoint_identity model_id

-- A binding is made only for a named provider, a named model of at most 256 bytes, and an endpoint
-- that the URL parser accepts, that has no credentials, query or fragment and is reached by https,
-- or by http on a loopback host; its digest is the one of its own fields.
pub bind_provider_secure :
    (w : BindingServices) (profile_id : ℕ) (provider endpoint model_id : Text) (b : ProviderBinding)
    → bind_provider w profile_id provider endpoint model_id ≡ ok b
    → IsBoundTo w provider endpoint model_id b
unfolding bind_provider
bind_provider_secure w profile_id provider endpoint model_id b h =
    let blank_provider = is_empty (trim provider) in
    let blank_model = is_empty (trim model_id) in
    let named = blank_provider || blank_model || ltb 256 (byte_len model_id) in
    let s1 = fail_if-eq-ok named egress_violation _ b h in
    let blank = or-split (blank_provider || blank_model) (ltb 256 (byte_len model_id)) s1.0 in
    let s2 = >>=-eq-ok (or_violation (w.parse_url endpoint)) _ b s1.1 in
    let s3 = fail_if-eq-ok (has_credentials s2.0) egress_violation _ b s2.2 in
    let s4 = >>=-eq-ok (or_violation s2.0.host) _ b s3.1 in
    let s5 = fail_if-eq-ok (not (is_secure s2.0.scheme s4.0)) egress_violation _ b s4.2 in
    let made : record {
      profile_id = profile_id;
      provider = provider;
      endpoint_identity = identity_of w s2.0 s4.0;
      model_id = model_id;
      target_digest = target_digest_of w profile_id provider (identity_of w s2.0 s4.0) model_id;
    }
        ≡ b =
      cc s5.1 in
    subst (λ o. IsBoundTo w provider endpoint model_id o) made
      (record {
        url = s2.0;
        host = s4.0;
        parsed = or_violation-eq-ok (w.parse_url endpoint) s2.0 s2.1;
        endpoint_secure = record {
          host_known = or_violation-eq-ok s2.0.host s4.0 s4.1;
          no_credentials = s3.0;
          secure = ground (arith, s5.0);
        };
        provider_named = (or-split blank_provider blank_model blank.0).0;
        model_named = (or-split blank_provider blank_model blank.0).1;
        model_short = ground (arith, blank.1);
        provider_kept = refl;
        model_kept = refl;
        identity = refl;
        digest_own = refl;
      })
