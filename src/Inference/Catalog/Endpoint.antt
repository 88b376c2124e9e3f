-- ===== src/Inference/Catalog/Endpoint.antt =====
-- crates/mentat-inference/src/types.rs and crates/mentat-core/src/models.rs: an endpoint to which a
-- provider can be bound is one that the profile's check accepts.
use code_mentat.Base.{
  true, false, not, ◌||◌, Option, none, some, List, ◌∷◌, [], any, Text, codes, trim, is_empty,
  byte_len, ltb, Bool-cases, ==-sound, ◌≡◌, refl, sym, subst, inl, inr, arith, list_eq, nat_eq,
  ◌==◌, All,
}
use code_mentat.Core.Error.{ok, >>=-eq-ok, fail_if-eq-ok}
use code_mentat.Core.Models.{Uuid}
use code_mentat.Core.Binding.{
  ParsedUrl, BindingServices, ProviderBinding, or_violation, is_some, has_credentials,
  loopback_hosts, is_loopback, is_secure, bind_provider,
}
use code_mentat.Inference.Catalog.{check_scheme, validate_url}

loopback_lower :
    (lower : Text → Text) (host : Text) (hosts : List Text)
    → All (λ h. lower h ≡ h) hosts
    → any (λ h. host == h) hosts ≡ true
    → lower host ≡ host
unfolding any
loopback_lower lower host [] law h = cc
loopback_lower lower host (x ∷ hosts) law h = elim (Bool-cases (host == x)) [
  | inl e ↦ let same : host ≡ x = ==-sound host x e in rw same law.0
  | inr e ↦ loopback_lower lower host hosts law.1 (ground (arith, h, e))
]

loopback-lower :
    (w : BindingServices) (host : Text)
    → All (λ h. w.to_lowercase h ≡ h) loopback_hosts
    → is_loopback host ≡ true
    → w.to_lowercase host ≡ host
unfolding is_loopback
loopback-lower w host law h = loopback_lower w.to_lowercase host loopback_hosts law h

check_scheme-ok :
    (w : BindingServices) (url : ParsedUrl) (host : Text)
    → All (λ h. w.to_lowercase h ≡ h) loopback_hosts
    → url.host ≡ some host
    → is_secure url.scheme host ≡ true
    → check_scheme w url ≡ ok tt
unfolding is_secure
check_scheme-ok w url host law there h =
    let near : url.scheme == codes "https" ≡ false → is_loopback (w.to_lowercase host) ≡ true = λ e.
      let near_host : is_loopback host ≡ true = ground (arith, h, e) in
      subst (λ t. is_loopback t ≡ true) (sym (loopback-lower w host law near_host)) near_host in
    elim (Bool-cases (url.scheme == codes "https")) [
      | inl e ↦ rw e refl
      | inr e ↦
          let plain : url.scheme == codes "http" ≡ true = ground (arith, h, e) in
          rw (e, plain, there) (rw (near e) refl)
    ]

check_scheme-host : (o : Option Text) (host : Text) → or_violation o ≡ ok host → o ≡ some host
check_scheme-host none host h = cc h
check_scheme-host (some t) host h = cc h

no_userinfo :
    (url : ParsedUrl)
    → has_credentials url ≡ false
    → (not (is_empty url.username) || is_some url.password) ≡ false
unfolding has_credentials
no_userinfo url h = ground (arith, h)

-- When lower case leaves the names of the local host as they are, an endpoint to which a provider can
-- be bound passes the check of a profile's URL.
pub bind_provider-validate_url :
    (w : BindingServices) (profile_id : Uuid) (provider endpoint model_id : Text)
    (binding : ProviderBinding)
    → All (λ h. w.to_lowercase h ≡ h) loopback_hosts
    → bind_provider w profile_id provider endpoint model_id ≡ ok binding
    → validate_url w endpoint ≡ ok tt
unfolding bind_provider has_credentials validate_url
bind_provider-validate_url w profile_id provider endpoint model_id binding law h =
    let a =
      fail_if-eq-ok
        (is_empty (trim provider) || is_empty (trim model_id) || ltb 256 (byte_len model_id)) _ _
        binding h in
    let b = >>=-eq-ok (or_violation (w.parse_url endpoint)) _ binding a.1 in
    let c = fail_if-eq-ok (has_credentials b.0) _ _ binding b.2 in
    let d = >>=-eq-ok (or_violation b.0.host) _ binding c.1 in
    let e = fail_if-eq-ok (not (is_secure b.0.scheme d.0)) _ _ binding d.2 in
    let secure : is_secure b.0.scheme d.0 ≡ true = ground (arith, e.0) in
    let scheme = check_scheme-ok w b.0 d.0 law (check_scheme-host b.0.host d.0 d.1) secure in
    rw (b.1, no_userinfo b.0 c.0) scheme
