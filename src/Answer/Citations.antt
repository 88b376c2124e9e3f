-- ===== src/Answer/Citations.antt =====
-- crates/mentat-analysis/src/answer_bundle.rs: what a claim rests on after its citations are
-- validated.
use code_mentat.Base.{
  Bool, true, false, not, ◌&&◌, ◌||◌, Option, some, List, [], ◌∷◌, map, length, is_empty, contains,
  distinct, any, all, find, retain, retain-All, all-All, sort_by, leb, All, All-map, All-sort_by,
  FilePath, Text, nat_eq, ◌==◌, ==-sound, Bool-cases, and-split, if_intro, ◌≡◌, ◌⊎◌, inl, inr, refl,
  arith,
}
use code_mentat.Core.Models.{
  Uuid, FileRecord, EvidenceRef, Claim, ConflictItem, AnswerBundle, is_unknown,
}
use code_mentat.Answer.{
  Floats, citation_is_valid, dedup, evidence_valid, invalid_ids, id_kept, kept_ids, claim_refused,
  conflict_kept, settle_claim, validate_citations,
}

All-dedup : (P : Uuid → Type 0) (ids : List Uuid) → All P ids → All P (dedup ids)
unfolding dedup
All-dedup P [] h = tt
All-dedup P (a ∷ []) h = h
All-dedup P (a ∷ b ∷ ids) h = ground (arith, All-dedup P (b ∷ ids) h.1)

length-map : {A B : Type 0} (f : A → B) (xs : List A) → length (map f xs) ≡ length xs
length-map f [] = refl
length-map f (x ∷ xs) = ground (arith, length-map f xs)

-- The first piece of evidence with an id that no refused piece has passes the test.
find-valid :
    (valid : EvidenceRef → Bool) (id : Uuid) (evidence : List EvidenceRef)
    → contains id (map (λ e. e.id) (retain (λ e. not (valid e)) evidence)) ≡ false
    → any (λ e. e.id == id) evidence ≡ true
    → (e : EvidenceRef) × (find (λ o. o.id == id) evidence ≡ some e) × (valid e ≡ true)
unfolding find any retain contains
find-valid valid id [] h k = cc
find-valid valid id (e ∷ evidence) h k =
    let refused = map (λ o. o.id) (retain (λ o. not (valid o)) evidence) in
    elim (Bool-cases (e.id == id)) [
      | inl own ↦ elim (Bool-cases (valid e)) [
        | inl v ↦ (e, rw own refl, v)
        | inr v ↦ absurd (ground (arith, own, v, h))
      ]
      | inr other ↦
          let less : contains id refused ≡ false = elim (Bool-cases (valid e)) [
            | inl v ↦ ground (arith, v, h)
            | inr v ↦ ground (arith, v, other, h)
          ] in
          let there : any (λ o. o.id == id) evidence ≡ true = ground (arith, other, k) in
          let rest = find-valid valid id evidence less there in (rest.0, rw other rest.1, rest.2)
    ]

-- What the refusal of a claim tests, when it does not refuse.
passed_tests :
    (a b u e f i : Bool)
    → (a || b || (not u && e) || (not f || not i)) ≡ false
    → (u ≡ true) ⊎ ((e ≡ false) × (f ≡ true) × (i ≡ true))
passed_tests a b u e f i h = ground arith

module _ (current : Uuid) (files : List FileRecord) (file_texts : FilePath → Option Text)
    (evidence : List EvidenceRef) where
  -- One piece of evidence has the id, and its citation holds.
  pub record IsCited (id : Uuid) : Type 0 where
    pub piece : EvidenceRef
    pub found : find (λ e. e.id == id) evidence ≡ some piece
    pub single : length (retain (λ e. e.id == piece.id) evidence) ≡ 1
    pub holds : citation_is_valid piece current files file_texts ≡ true

  id_kept-IsCited : (id : Uuid) → id_kept current files file_texts evidence id ≡ true → IsCited id
  unfolding id_kept invalid_ids evidence_valid
  id_kept-IsCited id h =
      let s =
        and-split (not (contains id (invalid_ids current files file_texts evidence)))
          (any (λ e. e.id == id) evidence) h in
      let f =
        find-valid (evidence_valid current files file_texts evidence) id evidence
          (ground (arith, s.0)) s.1 in
      let v =
        and-split (length (retain (λ o. o.id == f.0.id) evidence) == 1)
          (citation_is_valid f.0 current files file_texts) f.2 in
      record {
        piece = f.0;
        found = f.1;
        single = ==-sound (length (retain (λ o. o.id == f.0.id) evidence)) 1 v.0;
        holds = v.1;
      }

  kept_ids-IsCited :
      (ids : List Uuid) → All IsCited (kept_ids current files file_texts evidence ids)
  unfolding kept_ids
  kept_ids-IsCited ids =
      let keep = id_kept current files file_texts evidence in
      All-dedup IsCited (sort_by leb (retain keep ids)) (
        All-sort_by leb IsCited (retain keep ids) (
          All-map (λ i. keep i ≡ true) IsCited (retain keep ids) id_kept-IsCited
            (retain-All keep ids)))

  -- A settled claim is unknown, or has a confidence between 0 and 1 and rests on evidence.
  pub record IsSettledClaim {F : Type 0} (w : Floats F) (c : Claim F) : Type 0 where
    pub all_cited : All IsCited c.evidence_ids
    pub grounded :
        (is_unknown c.classification ≡ true)
        ⊎ ((is_empty c.evidence_ids ≡ false)
            × (w.is_finite c.confidence ≡ true)
            × (w.in_unit c.confidence ≡ true))

  settle_claim-IsSettledClaim :
      {F : Type 0} (w : Floats F) (c : Claim F)
      → IsSettledClaim w (settle_claim current files file_texts evidence w c)
  unfolding settle_claim claim_refused
  settle_claim-IsSettledClaim w c =
      if_intro (IsSettledClaim w) (claim_refused current files file_texts evidence w c) _ _
        (λ refused. record { all_cited = kept_ids-IsCited c.evidence_ids; grounded = inl refl })
        (λ accepted. record {
          all_cited = kept_ids-IsCited c.evidence_ids;
          grounded =
              passed_tests
                (any (λ id. not (id_kept current files file_texts evidence id)) c.evidence_ids)
                (not (distinct c.evidence_ids)) (is_unknown c.classification)
                (is_empty (kept_ids current files file_texts evidence c.evidence_ids))
                (w.is_finite c.confidence) (w.in_unit c.confidence) accepted;
        })

  settled-All :
      {F : Type 0} (w : Floats F) (claims : List (Claim F))
      → All (IsSettledClaim w) (map (settle_claim current files file_texts evidence w) claims)
  settled-All w [] = tt
  settled-All w (c ∷ claims) = (settle_claim-IsSettledClaim w c, settled-All w claims)

  -- A conflict that rests on evidence, each piece named once.
  pub record IsCitedConflict (c : ConflictItem) : Type 0 where
    pub filled : is_empty c.evidence_ids ≡ false
    pub all_distinct : distinct c.evidence_ids ≡ true
    pub conflict_cited : All IsCited c.evidence_ids

  conflict_kept-IsCitedConflict :
      (c : ConflictItem)
      → conflict_kept current files file_texts evidence c ≡ true
      → IsCitedConflict c
  unfolding conflict_kept
  conflict_kept-IsCitedConflict c h =
      let keep = id_kept current files file_texts evidence in
      let s1 =
        and-split (not (is_empty c.evidence_ids) && distinct c.evidence_ids)
          (all keep c.evidence_ids) h in
      let s2 = and-split (not (is_empty c.evidence_ids)) (distinct c.evidence_ids) s1.0 in
      record {
        filled = ground (arith, s2.0);
        all_distinct = s2.1;
        conflict_cited =
            All-map (λ i. keep i ≡ true) IsCited c.evidence_ids id_kept-IsCited
              (all-All keep c.evidence_ids s1.1);
      }

-- After the citations are validated, every claim cites only evidence that is the one piece with its
-- id and whose file, hash, lines and excerpt agree with the snapshot, and the claim is unknown unless it cites some and has
-- a confidence between 0 and 1; every conflict that is left cites such evidence, each piece once; and
-- as many claims and pieces of evidence are there as before.
pub validate_citations_settled :
    {F : Type 0} (w : Floats F) (b : AnswerBundle F) (current : Uuid) (files : List FileRecord)
    (file_texts : FilePath → Option Text)
    → let after = validate_citations w b current files file_texts in
      All (IsSettledClaim current files file_texts b.evidence_map w) after.claims
      × All (IsCitedConflict current files file_texts b.evidence_map) after.conflicts
      × (length after.claims ≡ length b.claims)
      × (length after.evidence_map ≡ length b.evidence_map)
unfolding validate_citations
validate_citations_settled w b current files file_texts =
    let keep = conflict_kept current files file_texts b.evidence_map in
    (
      settled-All current files file_texts b.evidence_map w b.claims,
      All-map (λ c. keep c ≡ true) (IsCitedConflict current files file_texts b.evidence_map)
          (retain keep b.conflicts)
          (conflict_kept-IsCitedConflict current files file_texts b.evidence_map)
          (retain-All keep b.conflicts),
      length-map _ b.claims,
      length-map _ b.evidence_map,
    )
