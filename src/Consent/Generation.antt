-- ===== src/Consent/Generation.antt =====
-- What one call does: a stale packet is refused, and nothing is approved while a packet is rebuilt.
use code_mentat.Base.{◌^◌, ◌<◌, Bool, true, false, none, some, [], FilePath, Text, ◌≡◌, refl, arith}
use code_mentat.Consent.{
  ConsentAssemblyState, apply_exclusion_toggle, accept_packet, can_approve, take_approved_packet,
  cancel, unwrap_or,
}

module _ {Packet : Type 0} where
  -- A change of the exclusions makes approval impossible until a packet of the new generation is
  -- accepted: the packet of the generation before is refused and leaves the state as it is, and the
  -- packet of the new generation is the one that an approval then hands out.
  pub toggle_invalidates :
      (s : ConsentAssemblyState Packet) (path : FilePath) (exclude : Bool) (old fresh : Packet)
      → s.generation < 2 ^ 64
      → let (t, next) = apply_exclusion_toggle s path exclude in
        (can_approve t ≡ false)
        × ((take_approved_packet t).1 ≡ none)
        × (accept_packet t s.generation old ≡ (t, false))
        × ((take_approved_packet (accept_packet t next fresh).0).1
            ≡ some (fresh, unwrap_or s.pending_query []))
  unfolding apply_exclusion_toggle accept_packet can_approve take_approved_packet
  toggle_invalidates s path exclude old fresh h = (refl, refl, ground arith, ground arith)

  -- An approval is used up: a second one hands out nothing, and no sheet is left to approve.
  pub take_once :
      (s : ConsentAssemblyState Packet) {p : Packet × Text}
      → (take_approved_packet s).1 ≡ some p
      → ((take_approved_packet (take_approved_packet s).0).1 ≡ none)
        × (can_approve (take_approved_packet s).0 ≡ false)
        × ((take_approved_packet s).0.generation ≡ s.generation)
  unfolding can_approve take_approved_packet
  take_once s h = ground arith

  -- A cancellation keeps the generation: a packet that was under assembly is accepted after it, can
  -- be approved and is handed out with the empty question.
  pub cancel_admits_in_flight :
      (s : ConsentAssemblyState Packet) (p : Packet)
      → ((accept_packet (cancel s) s.generation p).1 ≡ true)
        × (can_approve (accept_packet (cancel s) s.generation p).0 ≡ true)
        × ((take_approved_packet (accept_packet (cancel s) s.generation p).0).1 ≡ some (p, []))
  unfolding accept_packet can_approve take_approved_packet cancel
  cancel_admits_in_flight s p = ground arith
