-- ===== src/Inference/Catalog/Examples.antt =====
-- crates/mentat-inference/src/types.rs: a catalog with a repeated and a refused id, and an endpoint on
-- the local host.
use code_mentat.Base.{
  true, none, some, List, [], ◌∷◌, Text, codes, contains, distinct, All, any, all, list_beq, trim,
  byte_len, starts_with, has_substring, ◌≡◌, refl, list_eq, nat_eq, char_len,
}
use code_mentat.Core.Error.{ok}
use code_mentat.Core.Binding.{
  BindingServices, ProviderBinding, is_loopback, is_secure, has_credentials, identity_of,
  target_digest_of, bind_provider,
}
use code_mentat.Inference.Catalog.{
  AvailableModel, is_id_char, valid_id, normalize, from_untrusted, validate_url,
}
use code_mentat.Inference.Catalog.Listing.{IsListed, ids, from_untrusted_clean}
use code_mentat.Inference.Catalog.Endpoint.{bind_provider-validate_url}

abbrev model : Text → Text → AvailableModel
model id name = record { id = id; display_name = name }

abbrev offered : List AvailableModel
offered =
    model (codes " m-1 ") []
    ∷ model (codes "../x") (codes "x")
    ∷ model (codes "m-1") (codes "M")
    ∷ []

from_untrusted_test : (from_untrusted offered).models ≡ model (codes "m-1") (codes "m-1") ∷ []
unfolding from_untrusted normalize valid_id trim byte_len char_len starts_with has_substring all
    is_id_char contains list_beq
from_untrusted_test = refl

from_untrusted_clean_example :
    All (IsListed []) (from_untrusted offered).models
    × (distinct (ids (from_untrusted offered).models) ≡ true)
    × All
        (λ (m : AvailableModel).
          valid_id (trim m.id) ≡ true
          → contains (trim m.id) (ids (from_untrusted offered).models) ≡ true)
        offered
from_untrusted_clean_example = from_untrusted_clean offered

abbrev services : BindingServices
services = record {
  parse_url = λ t. some (record {
    scheme = codes "http";
    username = [];
    password = none;
    host = some (codes "localhost");
    port = some 8080;
    path = codes "/v1";
    query = none;
    fragment = none;
  });
  to_lowercase = λ t. t;
  sha256_hex = λ b. [];
  show_uuid = λ u. [];
}

abbrev local : ProviderBinding
local = record {
  profile_id = 1;
  provider = codes "p";
  endpoint_identity =
      identity_of services
        (record {
          scheme = codes "http";
          username = [];
          password = none;
          host = some (codes "localhost");
          port = some 8080;
          path = codes "/v1";
          query = none;
          fragment = none;
        })
        (codes "localhost");
  model_id = codes "m";
  target_digest = [];
}

bound : bind_provider services 1 (codes "p") [] (codes "m") ≡ ok local
unfolding bind_provider has_credentials is_secure is_loopback any list_beq target_digest_of trim
    byte_len char_len
bound = refl

bind_provider-validate_url_example : validate_url services [] ≡ ok tt
bind_provider-validate_url_example =
    bind_provider-validate_url services 1 (codes "p") [] (codes "m") local
      (refl, (refl, (refl, (refl, tt)))) bound
