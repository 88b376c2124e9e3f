-- ===== src/Gateway/Bounds/Listings.antt =====
-- The limits of `list_tree` and `search_paths`: what is listed and what is counted as omitted.
use mathlib.Core.List.{append-nil, append_assoc}
use code_mentat.Base.{
  zero, ◌<◌, ap, sym, ◌∙◌, length-take, take_long, take-append_left, ℕ, suc, ◌+◌, ◌≤◌, Bool, true,
  List, [], ◌∷◌, ◌++◌, ◌≡◌, refl, Text, FilePath, map, take, retain, length, length-append, clamp,
  nat_beq, arith, Bool-cases, inl, inr,
}
use code_mentat.Core.Models.{FileRecord}
use code_mentat.Gateway.Types.{Services, RepositoryToolGateway}
use code_mentat.Gateway.Tools.{
  Listing, list_one, slashed, in_tree, path_matches, collect, list_tree_listing,
  search_paths_listing,
}

-- The paths of the files that pass a test, in their order.
abbrev pub selected : (FileRecord → Bool) → List FileRecord → List Text
selected test files = map (λ file. slashed file.relative_path) (retain test files)

-- The first `limit` of the paths, and how many more there are.
abbrev pub IsCut : ℕ → List Text → Listing → Type 0
IsCut limit all (paths, omitted) =
    (length paths ≤ limit) × (paths ≡ take limit all) × (length paths + omitted ≡ length all)

list_one-IsCut :
    (limit : ℕ) (path : Text) (all : List Text) (listing : Listing)
    → IsCut limit all listing
    → IsCut limit (all ++ path ∷ []) (list_one limit path listing)
unfolding list_one
list_one-IsCut limit path all (paths, omitted) h =
    elim (Bool-cases (nat_beq (length paths) limit)) [
      | inl e ↦
          let full : limit ≤ length all = omega (arith, nat_beq-sound e, h.2) in
          rw e
            (h.0, h.1 ∙ sym (take-append_left limit all (path ∷ []) full), omega (arith, h.2, more))
      | inr e ↦
          let short : length all < limit = ground (arith, length-take limit all, ap length h.1) in
          let same : paths ≡ all = h.1 ∙ take_long limit all (omega arith) in
          rw e (
            omega (arith, short, same_length same, length-append paths (path ∷ [])),
            ap (λ (r : List Text). r ++ path ∷ []) same
                ∙ sym (take_long limit (all ++ path ∷ []) (omega (arith, more))),
            omega (arith, h.2, more, length-append paths (path ∷ [])),
          )
    ]
  where
    more : length (all ++ path ∷ []) ≡ length all + 1
    more = length-append all (path ∷ [])

    same_length : paths ≡ all → length paths ≡ length all
    same_length p = ap length p

    nat_beq-sound : nat_beq (length paths) limit ≡ true → length paths ≡ limit
    nat_beq-sound e = ground arith

collect-IsCut :
    (test : FileRecord → Bool) (limit : ℕ) (files : List FileRecord) (all : List Text)
    (listing : Listing)
    → IsCut limit all listing
    → IsCut limit (all ++ selected test files) (collect test limit files listing)
unfolding collect retain
collect-IsCut test limit [] all listing h = rw append-nil h
collect-IsCut test limit (file ∷ files) all listing h = elim (Bool-cases (test file)) [
  | inl e ↦
      let path = slashed file.relative_path in
      let ih =
        collect-IsCut test limit files (all ++ path ∷ []) (list_one limit path listing)
          (list_one-IsCut limit path all listing h) in
      rw (e, collect) (rw append_assoc at ih)
  | inr e ↦ rw (e, collect) (collect-IsCut test limit files all listing h)
]

nothing-IsCut : (limit : ℕ) → IsCut limit [] ([], 0)
nothing-IsCut zero = (omega arith, refl, refl)
nothing-IsCut (suc limit) = (omega arith, refl, refl)

-- `list_tree` lists the first paths below the root and within the depth, in the order of the
-- files, up to its limit, which is brought between 1 and 500 and the depth between 1 and 4; what it
-- counts as omitted is exactly the rest of them. `search_paths` does so for the paths that hold the
-- query, with a limit between 1 and 100.
pub listings-IsCut :
    (w : Services) (g : RepositoryToolGateway) (root : FilePath) (depth limit : ℕ) (query : Text)
    → IsCut
        (clamp 1 500 limit)
        (selected (in_tree root (clamp 1 4 depth)) g.files)
        (list_tree_listing w g root depth limit)
      × IsCut
          (clamp 1 100 limit)
          (selected (path_matches w (w.to_lowercase query)) g.files)
          (search_paths_listing w g query limit)
unfolding list_tree_listing search_paths_listing
listings-IsCut w g root depth limit query = (
  collect-IsCut (in_tree root (clamp 1 4 depth)) (clamp 1 500 limit) g.files [] ([], 0)
      (nothing-IsCut (clamp 1 500 limit)),
  collect-IsCut (path_matches w (w.to_lowercase query)) (clamp 1 100 limit) g.files [] ([], 0)
      (nothing-IsCut (clamp 1 100 limit)),
)
