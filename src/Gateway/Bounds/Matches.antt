-- ===== src/Gateway/Bounds/Matches.antt =====
-- The limits of `search_text`, and what is known of each of its sources.
use mathlib.Core.List.{Memᴰ}
use code_mentat.Base.{
  ◌&&◌, clamp, clamp_bounds, if_intro, subst, not, leb, ltb, list_eq, nat_eq, ◌!=◌, lines, ℕ, suc,
  ◌+◌, ◌≤◌, ◌<◌, Bool, true, false, Option, List, [], ◌∷◌, ◌++◌, ◌≡◌, refl, Text, FilePath, length,
  length-append, All, All-append, nat_beq, has_substring, arith, Bool-cases, inl, inr,
}
use code_mentat.Core.Error.{Result, ok, err, >>=-eq-ok}
use code_mentat.Core.Models.{FileRecord}
use code_mentat.Core.Tools.{SourceRef, ToolOmission}
use code_mentat.Gateway.Types.{
  Services, RepositoryToolGateway, source_ref, max_result_bytes, encoded, validate_query,
}
use code_mentat.Gateway.Tools.{ToolOutput}
use code_mentat.Gateway.Search.{
  Found, Round, continue, break, fail, after_lines, filtered_out, validate_filter, match_lines,
  search_body, search_file, search_loop, search_text,
}

module _ (w : Services) (g : RepositoryToolGateway) (query : Text) (limit : ℕ)
    (P : SourceRef → Type 0) where
  -- Sources within the limit, all with the property, and at most 128 omissions; below both limits
  -- while the loop goes on.
  abbrev RefsFit : ℕ → List SourceRef → Type 0
  RefsFit bound refs = (length refs < bound) × All P refs

  abbrev LinesFit : List SourceRef × Bool → Type 0
  LinesFit (refs, true) = RefsFit (suc limit) refs
  LinesFit (refs, false) = RefsFit limit refs

  abbrev SourcesOf : FileRecord → Type 0
  SourcesOf file =
      (id line : ℕ) (excerpt : Text)
      → 0 < line
      → P (source_ref w id g.snapshot.id file line line excerpt)

  match_lines-Fits :
      (file : FileRecord) (index : ℕ) (body : List Text) (refs : List SourceRef)
      → SourcesOf file
      → RefsFit limit refs
      → LinesFit (match_lines w g query limit file index body refs)
  unfolding match_lines
  match_lines-Fits file index [] refs p h = h
  match_lines-Fits file index (line ∷ rest) refs p h =
      elim (Bool-cases (has_substring query (w.to_lowercase line))) [
        | inl e ↦ elim (Bool-cases (nat_beq (length found) limit)) [
          | inl f ↦ rw (e, f, match_lines) (omega (arith, longer, h.0), fit)
          | inr f ↦
              rw (e, f, match_lines)
                (match_lines-Fits file (index + 1) rest found p (shorter f, fit))
        ]
        | inr e ↦ rw (e, match_lines) (match_lines-Fits file (index + 1) rest refs p h)
      ]
    where
      new_source : SourceRef
      new_source =
          source_ref w (w.fresh_id (length refs)) g.snapshot.id file (index + 1) (index + 1) line

      found : List SourceRef
      found = refs ++ new_source ∷ []

      longer : length found ≡ length refs + 1
      longer = length-append refs (new_source ∷ [])

      shorter : nat_beq (length found) limit ≡ false → length found < limit
      shorter f = ground (arith, longer)

      fit : All P found
      fit = All-append P refs (new_source ∷ []) h.1 (p _ (index + 1) line (omega arith), tt)

  abbrev FoundFit : ℕ → ℕ → Found → Type 0
  FoundFit refs_bound omissions_bound (refs, omissions) =
      RefsFit refs_bound refs × (length omissions < omissions_bound)

  abbrev RoundFit : Round → Type 0
  RoundFit (continue found) = FoundFit limit 128 found
  RoundFit (break found) = FoundFit (suc limit) 129 found
  RoundFit (fail e) = Unit

  after_lines-Fits :
      (r : List SourceRef × Bool) (omissions : List ToolOmission)
      → LinesFit r
      → length omissions < 128
      → RoundFit (after_lines w g query limit r omissions)
  after_lines-Fits (refs, true) omissions h k = (h, omega arith)
  after_lines-Fits (refs, false) omissions h k = (h, k)

  one_more :
      (omissions : List ToolOmission) (o : ToolOmission)
      → length omissions < 127
      → length (omissions ++ o ∷ []) < 128
  one_more omissions o k = omega (arith, length-append omissions (o ∷ []))

  search_body-Fits :
      (file : FileRecord) (r : Result Text) (found : Found)
      → SourcesOf file
      → RefsFit limit found.0
      → length found.1 < 127
      → RoundFit (search_body w g query limit file r found)
  unfolding search_body
  search_body-Fits file (err e) (refs, omissions) p h k = (h, one_more omissions _ k)
  search_body-Fits file (ok content) (refs, omissions) p h k =
      elim (Bool-cases (w.sha256_hex content != file.content_hash)) [
        | inl e ↦ rw (e, search_body) tt
        | inr e ↦
            rw (e, search_body)
              (after_lines-Fits _ omissions (match_lines-Fits file 0 (lines content) refs p h)
                (omega arith))
      ]

  search_file-Fits :
      (path_filter : Option Text) (token_cancelled : Bool) (remaining : ℕ) (file : FileRecord)
      (found : Found)
      → (file.is_text ≡ true → file.size_bytes ≤ max_result_bytes → SourcesOf file)
      → FoundFit limit 128 found
      → RoundFit (search_file w g query limit path_filter token_cancelled remaining file found)
  unfolding search_file
  search_file-Fits path_filter token_cancelled remaining file (refs, omissions) p h =
      if_intro RoundFit _ _ _ (λ a. ((omega (arith, h.0.0), h.0.1), last_omission _))
        λ a.
          if_intro RoundFit token_cancelled _ _ (λ b. tt)
            λ b.
              if_intro RoundFit (not file.is_text) _ _ (λ c. h)
                λ c.
                  if_intro RoundFit (filtered_out w g query limit path_filter file) _ _ (λ d. h)
                    λ d.
                      if_intro RoundFit (ltb max_result_bytes file.size_bytes) _ _
                        (λ e. (h.0, one_more omissions _ (room a)))
                        λ e.
                          search_body-Fits file (w.read_content file.relative_path)
                            (refs, omissions) (p (ground arith) (ground arith)) h.0 (room a)
    where
      last_omission : (o : ToolOmission) → length (omissions ++ o ∷ []) < 129
      last_omission o = omega (arith, h.1, length-append omissions (o ∷ []))

      room : leb 127 (length omissions) ≡ false → length omissions < 127
      room a = ground arith

  widen : (found : Found) → FoundFit limit 128 found → FoundFit (suc limit) 129 found
  widen (refs, omissions) h = ((omega (arith, h.0.0), h.0.1), omega (arith, h.1))

  search_loop-Fits :
      (path_filter : Option Text) (polls : ℕ → Bool) (files : List FileRecord) (found last : Found)
      → All
          (λ file. file.is_text ≡ true → file.size_bytes ≤ max_result_bytes → SourcesOf file)
          files
      → FoundFit limit 128 found
      → search_loop w g query limit path_filter polls files found ≡ ok last
      → FoundFit (suc limit) 129 last
  unfolding search_loop
  search_loop-Fits path_filter polls [] found last p h e =
      let same : found ≡ last = cc in subst (FoundFit (suc limit) 129) same (widen found h)
  search_loop-Fits path_filter polls (file ∷ files) found last p h e =
      next_round
        (search_file w g query limit path_filter (polls (length files)) (suc (length files)) file
          found)
        (search_file-Fits path_filter (polls (length files)) (suc (length files)) file found p.0 h)
        (λ next. search_loop-Fits path_filter polls files next last p.1) e
    where
      next_round :
          (r : Round)
          → RoundFit r
          → ((next : Found)
              → FoundFit limit 128 next
              → search_loop w g query limit path_filter polls files next ≡ ok last
              → FoundFit (suc limit) 129 last)
          → elim r [
            | continue next ↦ search_loop w g query limit path_filter polls files next
            | break final ↦ ok final
            | fail x ↦ err x
          ]
            ≡ ok last
          → FoundFit (suc limit) 129 last
      next_round (continue next) k ih q = ih next k q
      next_round (break final) k ih q =
          let same : final ≡ last = cc in subst (FoundFit (suc limit) 129) same k
      next_round (fail x) k ih q = cc

-- A file of the gateway, by a test that its record passes.
abbrev pub FromFile : (FileRecord → Bool) → List FileRecord → SourceRef → Type 0
FromFile test files source =
    (file : FileRecord) × Memᴰ file files
    × (test file ≡ true)
    × (source.relative_path ≡ file.relative_path)
    × (source.content_hash ≡ file.content_hash)
    × (source.line_start ≡ source.line_end)
    × (0 < source.line_start)

abbrev pub searchable : FileRecord → Bool
searchable file = file.is_text && leb file.size_bytes max_result_bytes

sources_of :
    (w : Services) (g : RepositoryToolGateway) (query : Text) (limit : ℕ)
    (all rest : List FileRecord)
    → ((file : FileRecord) → Memᴰ file rest → Memᴰ file all)
    → All
        (λ file.
          file.is_text ≡ true
          → file.size_bytes ≤ max_result_bytes
          → SourcesOf w g query limit (FromFile searchable all) file)
        rest
unfolding source_ref
sources_of w g query limit all [] sub = tt
sources_of w g query limit all (file ∷ rest) sub = (
  λ t size id line excerpt pos.
      (file, sub file (Memᴰ.head refl), ground arith, refl, refl, refl, pos),
  sources_of w g query limit all rest (λ other m. sub other (Memᴰ.tail m)),
)

-- A search that succeeds returns at most as many sources as its limit, which is brought between 1
-- and 100, and at most 128 omissions. Each source names one line of a text file of the gateway with
-- a scanned size of at most 64 KiB, by the path and the hash of that file's record.
pub search_text_bounded :
    (w : Services) (g : RepositoryToolGateway) (parse_path : Text → FilePath) (polls : ℕ → Bool)
    (query : Text) (path_filter : Option Text) (limit : ℕ) {output : ToolOutput}
    → search_text w g parse_path polls query path_filter limit ≡ ok output
    → (length output.1 ≤ clamp 1 100 limit)
      × (length output.2 ≤ 128)
      × All (FromFile searchable g.files) output.1
unfolding search_text
search_text_bounded w g parse_path polls query path_filter limit {output} h =
    let (a, _, h1) = >>=-eq-ok (validate_query query) _ output h in
    let (b, _, h2) = >>=-eq-ok (validate_filter parse_path path_filter) _ output h1 in
    let (found, e, h3) =
      >>=-eq-ok (search_loop w g _ _ path_filter polls g.files ([], [])) _ output h2 in
    let (content, _, h4) = >>=-eq-ok (encoded (w.encode_matches found.0)) _ output h3 in
    let some_room : 0 < clamp 1 100 limit = omega (arith, clamp_bounds 1 100 limit (omega arith)) in
    let fit =
      search_loop-Fits w g (w.to_lowercase query) (clamp 1 100 limit) (FromFile searchable g.files)
        path_filter polls g.files ([], []) found
        (sources_of w g (w.to_lowercase query) (clamp 1 100 limit) g.files g.files (λ file m. m))
        ((some_room, tt), omega arith) e in
    let same : (content, found.0, found.1) ≡ output = cc h4 in
    subst
      (λ (o : ToolOutput).
        (length o.1 ≤ clamp 1 100 limit)
        × (length o.2 ≤ 128)
        × All (FromFile searchable g.files) o.1)
      same (omega (arith, fit.0.0), omega (arith, fit.1), fit.0.1)
