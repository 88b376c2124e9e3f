-- ===== src/Audit/Evidence.antt =====
-- crates/mentat-analysis/src/agent_loop.rs: the evidence of a bundle against the sources of a trace.
use mathlib.Core.List.{Memᴰ, reverse, reverse_aux, append-nil, append_assoc}
use code_mentat.Base.{
  false, Option, none, some, List, [], ◌∷◌, ◌++◌, map, contains, find-All, find-passes, All,
  component_eq, list_eq, nat_eq, ◌==◌, ◌!=◌, !=-sound, ==-sound, or-split, ◌≡◌, refl, sym, ◌∙◌,
}
use code_mentat.Core.Error.{ok, >>=-eq-ok, fail_if-eq-ok}
use code_mentat.Core.Models.{Uuid, EvidenceRef}
use code_mentat.Core.Tools.{SourceRef}
use code_mentat.Audit.{invalid, or_invalid, catalog_get, evidence_differs, check_evidence}

-- Evidence that is a source, field by field.
pub record IsSource (sources : List SourceRef) (e : EvidenceRef) : Type 0 where
  pub source : SourceRef
  pub known : Memᴰ source sources
  pub same_id : source.id ≡ e.id
  pub same_snapshot : e.snapshot_id ≡ source.snapshot_id
  pub same_path : e.relative_path ≡ source.relative_path
  pub same_start : e.line_start ≡ source.line_start
  pub same_end : e.line_end ≡ source.line_end
  pub same_hash : e.content_hash ≡ source.content_hash
  pub same_excerpt : e.excerpt ≡ source.excerpt

pub or_invalid-eq-ok {ℓ} : {A : Type ℓ} (o : Option A) (a : A) → or_invalid o ≡ ok a → o ≡ some a
or_invalid-eq-ok none a h = cc
or_invalid-eq-ok (some b) a h = cc h

All-of_mem {ℓ κ} :
    {A : Type ℓ} (P : A → Type κ) (xs : List A) → ((x : A) → Memᴰ x xs → P x) → All P xs
All-of_mem P [] f = tt
All-of_mem P (x ∷ xs) f = (f x (Memᴰ.head refl), All-of_mem P xs (λ y m. f y (Memᴰ.tail m)))

All-reverse_aux {ℓ κ} :
    {A : Type ℓ} (P : A → Type κ) (xs ys : List A) → All P xs → All P ys → All P (reverse_aux xs ys)
All-reverse_aux P [] ys h k = k
All-reverse_aux P (x ∷ xs) ys h k = All-reverse_aux P xs (x ∷ ys) h.1 (h.0, k)

All-mem_reverse : (sources : List SourceRef) → All (λ x. Memᴰ x sources) (reverse sources)
All-mem_reverse sources =
    All-reverse_aux (λ x. Memᴰ x sources) sources []
      (All-of_mem (λ x. Memᴰ x sources) sources (λ x m. m)) tt

-- A source that the catalog gives is one of the sources, with the id that was asked for.
catalog_get-known :
    (sources : List SourceRef) (id : Uuid) (s : SourceRef)
    → catalog_get sources id ≡ some s
    → Memᴰ s sources × (s.id ≡ id)
unfolding catalog_get
catalog_get-known sources id s h = (
  find-All (λ x. Memᴰ x sources) (λ x. x.id == id) (reverse sources) s (All-mem_reverse sources) h,
  ==-sound s.id id (find-passes (λ x. x.id == id) (reverse sources) s h),
)

evidence_differs-false :
    (sources : List SourceRef) (e : EvidenceRef) (s : SourceRef)
    → Memᴰ s sources
    → s.id ≡ e.id
    → evidence_differs e s ≡ false
    → IsSource sources e
unfolding evidence_differs
evidence_differs-false sources e s m i h =
    let s1 = or-split _ (e.excerpt != s.excerpt) h in
    let s2 = or-split _ (e.content_hash != s.content_hash) s1.0 in
    let s3 = or-split _ (e.line_end != s.line_end) s2.0 in
    let s4 = or-split _ (e.line_start != s.line_start) s3.0 in
    let s5 = or-split (e.snapshot_id != s.snapshot_id) (e.relative_path != s.relative_path) s4.0 in
    record {
      source = s;
      known = m;
      same_id = i;
      same_snapshot = !=-sound e.snapshot_id s.snapshot_id s5.0;
      same_path = !=-sound e.relative_path s.relative_path s5.1;
      same_start = !=-sound e.line_start s.line_start s4.1;
      same_end = !=-sound e.line_end s.line_end s3.1;
      same_hash = !=-sound e.content_hash s.content_hash s2.1;
      same_excerpt = !=-sound e.excerpt s.excerpt s1.1;
    }

abbrev pub evidence_ids : List EvidenceRef → List Uuid
evidence_ids = map (λ e. e.id)

-- A checked list of evidence holds sources only, and gives the ids seen before and its own.
pub check_evidence-IsSource :
    (sources : List SourceRef) (evidence : List EvidenceRef) (seen out : List Uuid)
    → check_evidence sources seen evidence ≡ ok out
    → All (IsSource sources) evidence × (out ≡ seen ++ evidence_ids evidence)
unfolding check_evidence
check_evidence-IsSource sources [] seen out h =
    let same : seen ≡ out = cc h in (tt, sym same ∙ sym (append-nil seen))
check_evidence-IsSource sources (e ∷ evidence) seen out h =
    let s1 = fail_if-eq-ok (contains e.id seen) invalid _ out h in
    let s2 = >>=-eq-ok (or_invalid (catalog_get sources e.id)) _ out s1.1 in
    let s3 = fail_if-eq-ok (evidence_differs e s2.0) invalid _ out s2.2 in
    let found = or_invalid-eq-ok (catalog_get sources e.id) s2.0 s2.1 in
    let k = catalog_get-known sources e.id s2.0 found in
    let rest = check_evidence-IsSource sources evidence (seen ++ (e.id ∷ [])) out s3.1 in
    (
      (evidence_differs-false sources e s2.0 k.0 k.1 s3.0, rest.0),
      rest.1 ∙ append_assoc seen (e.id ∷ []) (evidence_ids evidence),
    )
