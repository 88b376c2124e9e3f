-- ===== src/Base/Sort.antt =====
-- `slice::sort_by`: a stable sort by a Boolean order.
use mathlib.Core.Bool.{Bool, true, false}
use mathlib.Core.Path.{◌≡◌, refl}
use mathlib.Core.List.{List, [], ◌∷◌}
use native.Mathlib.Omega.{arith}
use Prim.Native.Nat.{ℕ, suc}
use code_mentat.Base.Tests.{if◌then◌else◌, ltb, leb}
use code_mentat.Base.Lists.{All, length}
use code_mentat.Base.Texts.{Text}
use code_mentat.Base.Paths.{Component, prefix, root_dir, cur_dir, parent_dir, normal, FilePath}

module _ {ℓ} {A : Type ℓ} (le : A → A → Bool) where
  unfoldable pub insert_by : A → List A → List A
  insert_by x [] = x ∷ []
  insert_by x (y ∷ ys) = let rest = insert_by x ys in if le x y then x ∷ y ∷ ys else y ∷ rest

  unfoldable pub sort_by : List A → List A
  unfolding insert_by
  sort_by [] = []
  sort_by (x ∷ xs) = insert_by x (sort_by xs)

  pub length-insert_by : (x : A) (xs : List A) → length (insert_by x xs) ≡ suc (length xs)
  unfolding insert_by
  length-insert_by x [] = refl
  length-insert_by x (y ∷ ys) = ground (arith, length-insert_by x ys)

module _ {ℓ κ} {A : Type ℓ} (le : A → A → Bool) (P : A → Type κ) where
  pub All-insert_by : (x : A) (xs : List A) → P x → All P xs → All P (insert_by le x xs)
  unfolding insert_by
  All-insert_by x [] h k = (h, tt)
  All-insert_by x (y ∷ ys) h k = ground (arith, All-insert_by x ys)

  pub All-sort_by : (xs : List A) → All P xs → All P (sort_by le xs)
  unfolding sort_by
  All-sort_by [] h = tt
  All-sort_by (x ∷ xs) h = All-insert_by x (sort_by le xs) h.0 (All-sort_by xs h.1)

-- `Ord` of a text: UTF-8 keeps the order of code points.
unfoldable pub text_le : Text → Text → Bool
text_le [] t = true
text_le (a ∷ s) [] = false
text_le (a ∷ s) (b ∷ t) =
    let rest = text_le s t in if ltb a b then true else if ltb b a then false else rest

abbrev rank : Component → ℕ
rank (prefix s) = 0
rank root_dir = 1
rank cur_dir = 2
rank parent_dir = 3
rank (normal s) = 4

unfoldable pub component_le : Component → Component → Bool
unfolding text_le
component_le (prefix s) (prefix t) = text_le s t
component_le (normal s) (normal t) = text_le s t
component_le a b = leb (rank a) (rank b)

-- `Ord` of a path: by components, the first difference decides.
unfoldable pub path_le : FilePath → FilePath → Bool
unfolding component_le
path_le [] q = true
path_le (a ∷ p) [] = false
path_le (a ∷ p) (b ∷ q) =
    let rest = path_le p q in
    if component_le a b then (if component_le b a then rest else true) else false
