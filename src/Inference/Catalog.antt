-- ===== src/Inference/Catalog.antt =====
-- crates/mentat-inference/src/types.rs: the catalog of models that a provider offers, and the check of
-- a profile's endpoint.
pub mod Listing
pub mod Endpoint
pub mod Examples
use code_mentat.Base.{
  ℕ, ◌<◌, ◌≤◌, Bool, true, false, not, ◌&&◌, ◌||◌, Option, none, some, List, [], ◌∷◌, any, all,
  contains, Text, codes, trim, is_empty, byte_len, starts_with, has_substring, ltb, leb, list_eq,
  nat_eq, ◌==◌, if◌then◌else◌,
}
use code_mentat.Core.Error.{Result, ok, err, egress_violation, ◌>>=◌, ◌>>◌, fail_if}
use code_mentat.Core.Binding.{ParsedUrl, BindingServices, or_violation, is_some, is_loopback}

pub record AvailableModel : Type 0 where
  pub id : Text
  pub display_name : Text

pub record ModelCatalog : Type 0 where
  pub models : List AvailableModel
  pub latency_ms : Option ℕ

-- `is_ascii_alphanumeric`, or one of the five signs.
unfoldable pub is_id_char : ℕ → Bool
is_id_char c =
    (leb 48 c && leb c 57)
    || (leb 65 c && leb c 90)
    || (leb 97 c && leb c 122)
    || contains c (codes "-_./:")

unfoldable pub valid_id : Text → Bool
valid_id id =
    not (is_empty id)
    && leb (byte_len id) 256
    && not (starts_with (codes "/") id)
    && not (has_substring (codes "..") id)
    && all is_id_char id

abbrev pub display_of : Text → Text → Text
display_of id name = if is_empty (trim name) then id else trim name

-- The loop of `from_untrusted`, with the ids that it has seen.
unfoldable pub normalize : List Text → List AvailableModel → List AvailableModel
normalize seen [] = []
normalize seen (model ∷ models) =
    elim (valid_id (trim model.id) && not (contains (trim model.id) seen)) [
      | true ↦
          record {
            id = trim model.id;
            display_name = display_of (trim model.id) model.display_name;
          }
          ∷ normalize (trim model.id ∷ seen) models
      | false ↦ normalize seen models
    ]

-- `ModelCatalog::from_untrusted`.
unfoldable pub from_untrusted : List AvailableModel → ModelCatalog
from_untrusted models = record { models = normalize [] models; latency_ms = none }

abbrev pub loopback_only : (Text → Text) → Option Text → Result (Unit {0})
loopback_only to_lowercase none = err egress_violation
loopback_only to_lowercase (some host) =
    fail_if (not (is_loopback (to_lowercase host))) egress_violation

abbrev pub check_scheme : BindingServices → ParsedUrl → Result (Unit {0})
check_scheme w url =
    if url.scheme == codes "https"
    then ok tt
    else if url.scheme == codes "http"
    then loopback_only w.to_lowercase url.host
    else err egress_violation

-- `BackendProfile::validate_url`.
unfoldable pub validate_url : BindingServices → Text → Result (Unit {0})
validate_url w base_url = do
  url ← or_violation (w.parse_url base_url)
  fail_if (not (is_empty url.username) || is_some url.password) egress_violation
  check_scheme w url
