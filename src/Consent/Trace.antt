-- ===== src/Consent/Trace.antt =====
-- The consent state among the assemblies that it starts: an assembly runs beside the state, and
-- delivers its packet, or nothing, at any later time.
use mathlib.Core.List.{Memᴰ}
use mathlib.Core.List.Memᴰ
use code_mentat.Base.{
  ◌⊎◌, inl, inr, ap, subst, Bool-cases, Option-cases, ==-sound, ◌==◌, nat_eq, ℕ, ◌+◌, ◌^◌, ◌<◌, ◌≤◌,
  Bool, true, false, none, some, List, [], ◌∷◌, FilePath, Text, component_eq, list_eq, contains,
  ◌≡◌, refl, arith,
}
use code_mentat.Consent.{
  ConsentAssemblyState, reset, begin_assembly, apply_exclusion_toggle, accept_packet,
  take_approved_packet, can_approve, taken, cancel,
}

-- `files` are the files of a packet: `included_files`.
module _ {Packet : Type 0} (files : Packet → List FilePath) where
  abbrev pub Avoids : Packet → List FilePath → Type 0
  Avoids p excluded = (f : FilePath) → contains f excluded ≡ true → contains f (files p) ≡ false

  -- A running assembly: its generation and the files that it leaves out.
  pub record System : Type 0 where
    pub consent : ConsentAssemblyState Packet
    pub running : List (ℕ × List FilePath)

  -- A new assembly gets the generation and the exclusions of the state that starts it.
  abbrev started : System → ConsentAssemblyState Packet → System
  started s t = record { consent = t; running = (t.generation, t.user_excluded_files) ∷ s.running }

  pub data Step (s : System) : System → Type 0 where
    begins :
        (query : Text)
        → s.consent.generation + 1 < 2 ^ 64
        → Step s (started s (begin_assembly s.consent query).0)
    toggles :
        (path : FilePath) (exclude : Bool)
        → s.consent.generation + 1 < 2 ^ 64
        → Step s (started s (apply_exclusion_toggle s.consent path exclude).0)
    delivers :
        (generation : ℕ) (excluded : List FilePath) (p : Packet)
        → Memᴰ (generation, excluded) s.running
        → Avoids p excluded
        → Step s (record s { consent = (accept_packet s.consent generation p).0 })
    takes : Step s (record s { consent = (take_approved_packet s.consent).0 })
    cancels : Step s (record s { consent = cancel s.consent })
    resets : Step s (record s { consent = reset s.consent })

  pub data Reach (s : System) : System → Type 0 where
    here : Reach s s
    next : {t u : System} → Reach s t → Step t u → Reach s u

  abbrev Covers : List FilePath → List FilePath → Type 0
  Covers excluded current = (f : FilePath) → contains f current ≡ true → contains f excluded ≡ true

  record IsSafe (s : System) : Type 0 where
    bounded : (g : ℕ) (e : List FilePath) → Memᴰ (g, e) s.running → g ≤ s.consent.generation
    covering :
        (g : ℕ) (e : List FilePath)
        → Memᴰ (g, e) s.running
        → g ≡ s.consent.generation
        → Covers e s.consent.user_excluded_files
    pending :
        (p : Packet) → s.consent.pending_packet ≡ some p → Avoids p s.consent.user_excluded_files

  started-bounded :
      (s : System) (t : ConsentAssemblyState Packet) (g : ℕ) (e : List FilePath)
      → s.consent.generation < t.generation
      → IsSafe s
      → Memᴰ (g, e) (started s t).running
      → ((g ≡ t.generation) × (e ≡ t.user_excluded_files)) ⊎ (g < t.generation)
  started-bounded s t g e newer v (Memᴰ.head p) = inl (ap (λ q. q.0) p, ap (λ q. q.1) p)
  started-bounded s t g e newer v (Memᴰ.tail m) = inr (omega (arith, v.bounded g e m))

  started-IsSafe :
      (s : System) (t : ConsentAssemblyState Packet)
      → s.consent.generation < t.generation
      → t.pending_packet ≡ none
      → IsSafe s
      → IsSafe (started s t)
  started-IsSafe s t newer empty v = record {
    bounded = λ g e m. elim (started-bounded s t g e newer v m) [
      | inl q ↦ omega (arith, q.0)
      | inr q ↦ omega (arith, q)
    ];
    covering = λ g e m same f c. elim (started-bounded s t g e newer v m) [
      | inl q ↦ rw q.1 c
      | inr q ↦ absurd (omega (arith, q))
    ];
    pending = λ p e. cc;
  }

  accepted-IsSafe :
      (s : System) (g : ℕ) (e : List FilePath) (p : Packet)
      → Memᴰ (g, e) s.running
      → Avoids p e
      → IsSafe s
      → IsSafe (record s { consent = (accept_packet s.consent g p).0 })
  unfolding accept_packet
  accepted-IsSafe s g e p m a v = elim (Bool-cases (g == s.consent.generation)) [
    | inl same ↦ rw same (record {
      bounded = v.bounded;
      covering = v.covering;
      pending = λ p' q f c.
          subst (λ x. contains f (files x) ≡ false) (let r : p ≡ p' = cc in r)
            (a f (v.covering g e m (==-sound g s.consent.generation same) f c));
    })
    | inr other ↦ rw other v
  ]

  taken-IsSafe :
      (s : System) → IsSafe s → IsSafe (record s { consent = (take_approved_packet s.consent).0 })
  unfolding take_approved_packet
  taken-IsSafe s v = elim (Bool-cases (can_approve s.consent)) [
    | inl yes' ↦ rw yes' (elim (Option-cases s.consent.pending_packet) [
      | inl e ↦ rw (e, taken) v
      | inr (p, e) ↦
          rw (e, taken)
            (record { bounded = v.bounded; covering = v.covering; pending = λ p' q. cc })
    ])
    | inr no' ↦ rw no' v
  ]

  Step-IsSafe : {s t : System} → Step s t → IsSafe s → IsSafe t
  unfolding begin_assembly apply_exclusion_toggle cancel reset contains
  Step-IsSafe {s} (begins query small) v = started-IsSafe s _ (ground arith) refl v
  Step-IsSafe {s} (toggles path exclude small) v = started-IsSafe s _ (ground arith) refl v
  Step-IsSafe {s} (delivers g e p m a) v = accepted-IsSafe s g e p m a v
  Step-IsSafe {s} takes v = taken-IsSafe s v
  Step-IsSafe {s} cancels v = record {
    bounded = v.bounded;
    covering = v.covering;
    pending = λ p e. cc;
  }
  Step-IsSafe {s} resets v = record {
    bounded = v.bounded;
    covering = λ g e m q f c. cc;
    pending = λ p e. cc;
  }

  Reach-IsSafe : {s t : System} → Reach s t → IsSafe s → IsSafe t
  Reach-IsSafe here v = v
  Reach-IsSafe (next r st) v = Step-IsSafe st (Reach-IsSafe r v)

  -- `ConsentAssemblyState::default()`, with no assembly running.
  abbrev pub idle : System
  idle = record {
    consent = record {
      generation = 0;
      rebuilding = false;
      pending_packet = none;
      last_display_packet = none;
      pending_query = none;
      user_excluded_files = [];
    };
    running = [];
  }

  idle-IsSafe : IsSafe idle
  idle-IsSafe = record {
    bounded = λ g e m. absurd (Memᴰ.not-nil m);
    covering = λ g e m q f c. absurd (Memᴰ.not-nil m);
    pending = λ p e. cc;
  }

  -- Whatever calls are made and whenever assemblies deliver, as long as a packet leaves out what was
  -- excluded when its assembly started and the generation does not wrap, an approved packet holds no
  -- file that is excluded at the time of its approval.
  pub approved_avoids_excluded :
      {s : System} (p : Packet) (query : Text) (f : FilePath)
      → Reach idle s
      → (take_approved_packet s.consent).1 ≡ some (p, query)
      → contains f s.consent.user_excluded_files ≡ true
      → contains f (files p) ≡ false
  unfolding take_approved_packet taken
  approved_avoids_excluded {s} p query f r h c =
      (Reach-IsSafe r idle-IsSafe).pending p (ground arith) f c
