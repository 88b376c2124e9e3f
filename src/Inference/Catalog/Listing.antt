-- ===== src/Inference/Catalog/Listing.antt =====
-- crates/mentat-inference/src/types.rs: the models that a catalog lists.
use code_mentat.Base.{
  true, false, not, ◌&&◌, ◌||◌, List, [], ◌∷◌, map, contains, distinct, All, All-map, Text, trim,
  is_empty, Bool-cases, and-split, or-split, ==-sound, ==_refl, ◌≡◌, refl, sym, subst, ◌∙◌, inl,
  inr, arith, list_eq, nat_eq, ◌==◌,
}
use code_mentat.Inference.Catalog.{AvailableModel, valid_id, display_of, normalize, from_untrusted}

abbrev pub ids : List AvailableModel → List Text
ids = map (λ model. model.id)

-- A model with a valid id and a name.
pub record IsListed (seen : List Text) (model : AvailableModel) : Type 0 where
  pub valid : valid_id model.id ≡ true
  pub new : contains model.id seen ≡ false
  pub named : is_empty model.display_name ≡ false

valid_id-filled : (id : Text) → valid_id id ≡ true → is_empty id ≡ false
unfolding valid_id
valid_id-filled id h = ground (arith, h)

display_of-named : (id name : Text) → is_empty id ≡ false → is_empty (display_of id name) ≡ false
display_of-named id name h = ground (arith, h)

normalize-IsListed :
    (seen : List Text) (models : List AvailableModel) → All (IsListed seen) (normalize seen models)
unfolding normalize contains
normalize-IsListed seen [] = tt
normalize-IsListed seen (model ∷ models) =
    elim (Bool-cases (valid_id (trim model.id) && not (contains (trim model.id) seen))) [
      | inl e ↦
          let parts = and-split (valid_id (trim model.id)) _ e in
          let own : IsListed seen _ = record {
            valid = parts.0;
            new = ground (arith, parts.1);
            named = display_of-named _ model.display_name (valid_id-filled (trim model.id) parts.0);
          } in
          rw (e, normalize)
            (
              own,
              All-map (IsListed (trim model.id ∷ seen)) (IsListed seen) _
                  (λ m l. record {
                    valid = l.valid;
                    new = (or-split (trim model.id == m.id) (contains m.id seen) l.new).1;
                    named = l.named;
                  })
                  (normalize-IsListed (trim model.id ∷ seen) models),
            )
      | inr e ↦ rw (e, normalize) (normalize-IsListed seen models)
    ]

-- An id that no listed model may have is not among the ids.
not_among :
    (id : Text) (seen : List Text) (models : List AvailableModel)
    → All (IsListed (id ∷ seen)) models
    → contains id (ids models) ≡ false
unfolding contains
not_among id seen [] h = refl
not_among id seen (model ∷ models) h =
    let rest = not_among id seen models h.1 in
    let own = (or-split (id == model.id) (contains model.id seen) h.0.new).0 in
    elim (Bool-cases (model.id == id)) [
      | inl e ↦
          let same : model.id ≡ id = ==-sound model.id id e in
          let again : (id == model.id) ≡ true =
            subst (λ t. (id == t) ≡ true) (sym same) (==_refl id) in
          absurd (clash (sym again ∙ own))
      | inr e ↦ rw (e, rest) refl
    ]
  where
    clash : true ≡ false → ⊥
    clash h = cc h

normalize-distinct :
    (seen : List Text) (models : List AvailableModel)
    → distinct (ids (normalize seen models)) ≡ true
unfolding normalize distinct
normalize-distinct seen [] = refl
normalize-distinct seen (model ∷ models) =
    elim (Bool-cases (valid_id (trim model.id) && not (contains (trim model.id) seen))) [
      | inl e ↦
          let rest = normalize-distinct (trim model.id ∷ seen) models in
          let new =
            not_among (trim model.id) seen _ (normalize-IsListed (trim model.id ∷ seen) models) in
          rw (e, normalize) (rw (new, rest) refl)
      | inr e ↦ rw (e, normalize) (normalize-distinct seen models)
    ]

-- Each model with a valid id that was seen before or is listed.
abbrev Lists : List Text → List AvailableModel → List AvailableModel → Type 0
Lists seen models out =
    All
      (λ (m : AvailableModel).
        valid_id (trim m.id) ≡ true
        → (contains (trim m.id) seen || contains (trim m.id) (ids out)) ≡ true)
      models

normalize-taken :
    (seen : List Text) (model : AvailableModel) (models : List AvailableModel)
    → (valid_id (trim model.id) && not (contains (trim model.id) seen)) ≡ true
    → record { id = trim model.id; display_name = display_of (trim model.id) model.display_name }
        ∷ normalize (trim model.id ∷ seen) models
      ≡ normalize seen (model ∷ models)
unfolding normalize
normalize-taken seen model models e = rw (e, normalize) refl

normalize-passed :
    (seen : List Text) (model : AvailableModel) (models : List AvailableModel)
    → (valid_id (trim model.id) && not (contains (trim model.id) seen)) ≡ false
    → normalize seen models ≡ normalize seen (model ∷ models)
unfolding normalize
normalize-passed seen model models e = rw (e, normalize) refl

normalize-Lists :
    (seen : List Text) (models : List AvailableModel) → Lists seen models (normalize seen models)
unfolding contains
normalize-Lists seen [] = tt
normalize-Lists seen (model ∷ models) =
    elim (Bool-cases (valid_id (trim model.id) && not (contains (trim model.id) seen))) [
      | inl e ↦ subst (Lists seen (model ∷ models)) (normalize-taken seen model models e) (
        λ v. ground (arith, ==_refl (trim model.id)),
        All-map _ _ models (λ m h v. ground (arith, h v))
            (normalize-Lists (trim model.id ∷ seen) models),
      )
      | inr e ↦
          subst (Lists seen (model ∷ models)) (normalize-passed seen model models e)
            (λ v. ground (arith, e, v), normalize-Lists seen models)
    ]

-- Whatever a provider offers, the catalog lists models with valid ids and a name only, no id twice, and
-- each model whose trimmed id is valid is listed under that id.
pub from_untrusted_clean :
    (models : List AvailableModel)
    → All (IsListed []) (from_untrusted models).models
      × (distinct (ids (from_untrusted models).models) ≡ true)
      × All
          (λ (m : AvailableModel).
            valid_id (trim m.id) ≡ true
            → contains (trim m.id) (ids (from_untrusted models).models) ≡ true)
          models
unfolding from_untrusted contains
from_untrusted_clean models =
    (normalize-IsListed [] models, normalize-distinct [] models, normalize-Lists [] models)
