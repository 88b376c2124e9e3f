-- ===== src/Consent/Examples.antt =====
-- crates/mentat-analysis/src/consent.rs: a packet is a list of paths here.
use mathlib.Core.List.{Memᴰ}
use code_mentat.Base.{
  true, false, none, some, List, [], ◌∷◌, FilePath, normal, codes, Text, contains, contains-All,
  component_beq, list_beq, list_eq, component_eq, ◌≡◌, refl, arith,
}
use code_mentat.Consent.{
  ConsentAssemblyState, begin_assembly, apply_exclusion_toggle, accept_packet, take_approved_packet,
  can_approve, cancel, exclude_file,
}
use code_mentat.Consent.Generation.{toggle_invalidates, take_once, cancel_admits_in_flight}
use code_mentat.Consent.Trace.{
  System, Reach, here, next as and_then, begins, toggles, delivers, idle, Avoids,
  approved_avoids_excluded,
}

abbrev path : Text → FilePath
path name = normal name ∷ []

abbrev packet : List FilePath
packet = path (codes "a.rs") ∷ []

abbrev reviewed : ConsentAssemblyState (List FilePath)
reviewed = record {
  generation = 3;
  rebuilding = false;
  pending_packet = some packet;
  last_display_packet = some packet;
  pending_query = some (codes "q");
  user_excluded_files = [];
}

toggle_invalidates_example :
    let (t, fresh) = apply_exclusion_toggle reviewed (path (codes "a.rs")) true in
    (can_approve t ≡ false)
    × ((take_approved_packet t).1 ≡ none)
    × (accept_packet t 3 packet ≡ (t, false))
    × ((take_approved_packet (accept_packet t fresh []).0).1 ≡ some ([], codes "q"))
toggle_invalidates_example =
    toggle_invalidates reviewed (path (codes "a.rs")) true packet [] (omega arith)

approved : (take_approved_packet reviewed).1 ≡ some (packet, codes "q")
unfolding take_approved_packet
approved = refl

take_once_example :
    ((take_approved_packet (take_approved_packet reviewed).0).1 ≡ none)
    × (can_approve (take_approved_packet reviewed).0 ≡ false)
    × ((take_approved_packet reviewed).0.generation ≡ 3)
take_once_example = take_once reviewed {p = (packet, codes "q")} approved

cancel_admits_in_flight_example :
    ((accept_packet (cancel reviewed) 3 packet).1 ≡ true)
    × (can_approve (accept_packet (cancel reviewed) 3 packet).0 ≡ true)
    × ((take_approved_packet (accept_packet (cancel reviewed) 3 packet).0).1 ≡ some (packet, []))
cancel_admits_in_flight_example = cancel_admits_in_flight reviewed packet

abbrev other : List FilePath
other = path (codes "b.rs") ∷ []

-- The system after a question, an exclusion of `a.rs` and the delivery of a packet without it.
abbrev delivered : System (λ p. p)
delivered = record {
  consent = record {
    generation = 2;
    rebuilding = false;
    pending_packet = some other;
    last_display_packet = some other;
    pending_query = some (codes "q");
    user_excluded_files = packet;
  };
  running = (2, packet) ∷ (1, []) ∷ [];
}

other-Avoids : Avoids (λ p. p) other packet
unfolding contains component_beq list_beq
other-Avoids f h = contains-All (λ x. contains x other ≡ false) f packet (refl, tt) h

reached : Reach (λ p. p) (idle (λ p. p)) delivered
unfolding begin_assembly apply_exclusion_toggle accept_packet exclude_file contains component_beq
    list_beq
reached =
    and_then
      (and_then (and_then here (begins (codes "q") (omega arith)))
        (toggles (path (codes "a.rs")) true (omega arith)))
      (delivers 2 packet other (Memᴰ.head refl) other-Avoids)

handed_out : (take_approved_packet delivered.consent).1 ≡ some (other, codes "q")
unfolding take_approved_packet
handed_out = refl

excluded : contains (path (codes "a.rs")) packet ≡ true
unfolding contains component_beq list_beq
excluded = refl

approved_avoids_excluded_example : contains (path (codes "a.rs")) other ≡ false
approved_avoids_excluded_example =
    approved_avoids_excluded (λ p. p) {s = delivered} other (codes "q") (path (codes "a.rs"))
      reached handed_out excluded
