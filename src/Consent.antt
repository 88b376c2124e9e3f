-- ===== src/Consent.antt =====
-- crates/mentat-analysis/src/consent.rs: `ConsentAssemblyState`, the consent to send one packet.
-- The generation is a `u64` that wraps. The fields of a packet that the state does not read are
-- left to the type parameter.
pub mod Generation
pub mod Trace
pub mod Examples
use code_mentat.Base.{
  ℕ, ◌+◌, ◌%◌, ◌^◌, Bool, true, false, not, ◌&&◌, ◌||◌, Option, none, some, List, [], ◌∷◌, ◌++◌,
  FilePath, list_eq, component_eq, Text, contains, retain, ◌==◌, ◌!=◌, nat_eq, wrapping_add,
  if◌then◌else◌,
}

abbrev pub is_some {ℓ} : {A : Type ℓ} → Option A → Bool
is_some none = false
is_some (some a) = true

abbrev pub or_else {ℓ} : {A : Type ℓ} → Option A → Option A → Option A
or_else none b = b
or_else (some a) b = some a

abbrev pub unwrap_or {ℓ} : {A : Type ℓ} → Option A → A → A
unwrap_or none d = d
unwrap_or (some a) d = a

pub record ConsentAssemblyState (Packet : Type 0) : Type 0 where
  pub generation : ℕ
  pub rebuilding : Bool
  pub pending_packet : Option Packet
  pub last_display_packet : Option Packet
  pub pending_query : Option Text
  pub user_excluded_files : List FilePath

-- The body of the two branches on `exclude`.
pub exclude_file : List FilePath → FilePath → Bool → List FilePath
exclude_file files path true = if contains path files then files else files ++ path ∷ []
exclude_file files path false = retain (λ p. p != path) files

module _ {Packet : Type 0} where
  pub reset : ConsentAssemblyState Packet → ConsentAssemblyState Packet
  reset s = record {
    generation = s.generation;
    rebuilding = false;
    pending_packet = none;
    last_display_packet = none;
    pending_query = none;
    user_excluded_files = [];
  }

  -- Returns the new generation beside the state.
  pub begin_assembly : ConsentAssemblyState Packet → Text → ConsentAssemblyState Packet × ℕ
  begin_assembly s query =
      let next = wrapping_add s.generation 1 in
      (
        record s {
          generation = next;
          rebuilding = true;
          pending_packet = none;
          pending_query = some query;
        },
        next,
      )

  pub apply_exclusion_toggle :
      ConsentAssemblyState Packet → FilePath → Bool → ConsentAssemblyState Packet × ℕ
  unfolding begin_assembly exclude_file
  apply_exclusion_toggle s path exclude =
      begin_assembly
        (record s { user_excluded_files = exclude_file s.user_excluded_files path exclude })
        (unwrap_or s.pending_query [])

  pub accept_packet : ConsentAssemblyState Packet → ℕ → Packet → ConsentAssemblyState Packet × Bool
  accept_packet s generation packet = if generation != s.generation then (s, false) else (
    record s {
      last_display_packet = some packet;
      pending_packet = some packet;
      rebuilding = false;
    },
    true,
  )

  pub can_approve : ConsentAssemblyState Packet → Bool
  can_approve s = not s.rebuilding && is_some s.pending_packet

  pub should_show_sheet : ConsentAssemblyState Packet → Bool
  should_show_sheet s = s.rebuilding || is_some s.pending_packet || is_some s.last_display_packet

  pub taken :
      ConsentAssemblyState Packet
      → Option Packet
      → ConsentAssemblyState Packet × Option (Packet × Text)
  taken s none = (s, none)
  taken s (some packet) = (
    record s {
      pending_packet = none;
      pending_query = none;
      last_display_packet = none;
      rebuilding = false;
    },
    some (packet, unwrap_or s.pending_query []),
  )

  pub take_approved_packet :
      ConsentAssemblyState Packet → ConsentAssemblyState Packet × Option (Packet × Text)
  unfolding can_approve taken
  take_approved_packet s = if can_approve s then taken s s.pending_packet else (s, none)

  pub cancel : ConsentAssemblyState Packet → ConsentAssemblyState Packet
  cancel s = record s {
    pending_packet = none;
    last_display_packet = none;
    pending_query = none;
    rebuilding = false;
  }

  pub display_packet : ConsentAssemblyState Packet → Option Packet
  display_packet s = or_else s.pending_packet s.last_display_packet

  -- `preview_refs`, with the packet's refs as the function that reads them.
  pub preview_refs {ℓ} :
      {Ref : Type ℓ} → (Packet → List Ref) → ConsentAssemblyState Packet → List Ref
  unfolding display_packet
  preview_refs refs s = elim (display_packet s) [ none ↦ [] | some p ↦ refs p ]
