-- ===== src/Base/Paths.antt =====
-- `std::path`: a path is the list of its components, as `Path::components` gives them and as the
-- comparisons of `Path` read them.
use mathlib.Core.Path.{◌≡◌, refl, ap}
use mathlib.Core.Logic.{◌↔◌}
use mathlib.Core.Bool.{Bool, true, false, ◌&&◌}
use mathlib.Core.Option.{Option, none, some}
use mathlib.Core.List.{List, [], ◌∷◌, ◌++◌, reverse}
use code_mentat.Base.Tests.{if◌then◌else◌, nat_beq}
use code_mentat.Base.Equality.{Eq, list_beq_iff, nat_eq, list_eq, ◌==◌}
use code_mentat.Base.Texts.{Text, codes}

pub data Component : Type 0 where
  prefix : Text → Component
  root_dir : Component
  cur_dir : Component
  parent_dir : Component
  normal : Text → Component

abbrev pub FilePath : Type 0
FilePath = List Component

unfoldable pub component_beq : Component → Component → Bool
component_beq (prefix s) (prefix t) = s == t
component_beq root_dir root_dir = true
component_beq cur_dir cur_dir = true
component_beq parent_dir parent_dir = true
component_beq (normal s) (normal t) = s == t
component_beq _ _ = false

component_beq_sound : (a b : Component) → component_beq a b ≡ true → a ≡ b
unfolding component_beq
component_beq_sound (prefix s) (prefix t) h = ap prefix ((list_beq_iff s t).0 h)
component_beq_sound (normal s) (normal t) h = ap normal ((list_beq_iff s t).0 h)
component_beq_sound root_dir root_dir h = refl
component_beq_sound cur_dir cur_dir h = refl
component_beq_sound parent_dir parent_dir h = refl
component_beq_sound _ _ h = cc

component_beq_refl : (a b : Component) → a ≡ b → component_beq a b ≡ true
unfolding component_beq
component_beq_refl (prefix s) (prefix t) h = (list_beq_iff s t).1 (cc)
component_beq_refl (normal s) (normal t) h = (list_beq_iff s t).1 (cc)
component_beq_refl root_dir root_dir h = refl
component_beq_refl cur_dir cur_dir h = refl
component_beq_refl parent_dir parent_dir h = refl
component_beq_refl _ _ h = cc

pub component_beq_iff : (a b : Component) → (component_beq a b ≡ true) ↔ (a ≡ b)
component_beq_iff a b = (component_beq_sound a b, component_beq_refl a b)

instance abbrev pub component_eq : Eq Component
component_eq = record { beq = component_beq; beq_iff = component_beq_iff }

-- `Path::is_absolute`, on Unix (a root) and on Windows (a prefix and a root).
unfoldable pub is_absolute : FilePath → Bool
is_absolute (root_dir ∷ _) = true
is_absolute (prefix _ ∷ root_dir ∷ _) = true
is_absolute _ = false

-- `Path::starts_with`.
unfoldable pub path_starts_with : FilePath → FilePath → Bool
path_starts_with p [] = true
path_starts_with [] (b ∷ bs) = false
path_starts_with (a ∷ rest) (b ∷ bs) = a == b && path_starts_with rest bs

-- `Path::strip_prefix`.
unfoldable pub strip_prefix : FilePath → FilePath → Option FilePath
strip_prefix p [] = some p
strip_prefix [] (b ∷ bs) = none
strip_prefix (a ∷ rest) (b ∷ bs) = let r = strip_prefix rest bs in if a == b then r else none

abbrev name_of : List Component → Option Text
name_of (normal s ∷ _) = some s
name_of _ = none

-- `Path::file_name`.
unfoldable pub file_name : FilePath → Option Text
file_name p = name_of (reverse p)

-- A name is split at its last dot: what stands before, reversed, and what stands behind.
abbrev split_at_dot : Text → Text → Option (Text × Text)
split_at_dot after [] = none
split_at_dot after (c ∷ before) =
    let rest = split_at_dot (c ∷ after) before in
    if nat_beq c 46 then some (before, after) else rest

abbrev extension_of : Option (Text × Text) → Option Text
extension_of none = none
extension_of (some ([], after)) = none
extension_of (some (c ∷ before, after)) = some after

-- `Path::extension`: none for a name with no dot or with its only dot at the front.
unfoldable pub extension : FilePath → Option Text
unfolding file_name
extension p = elim (file_name p) [
  | none ↦ none
  | some name ↦ extension_of (split_at_dot [] (reverse name))
]

abbrev component_text : Component → Text
component_text (prefix s) = s
component_text root_dir = []
component_text cur_dir = codes "."
component_text parent_dir = codes ".."
component_text (normal s) = s

-- `Path::to_string_lossy` with `/` between the components.
unfoldable pub path_text : FilePath → Text
path_text [] = []
path_text (c ∷ []) = component_text c
path_text (c ∷ d ∷ p) = component_text c ++ (47 ∷ path_text (d ∷ p))

extension_test :
    (extension (normal (codes "a.tar.gz") ∷ []) ≡ some (codes "gz"))
    × (extension (normal (codes ".env") ∷ []) ≡ none)
    × (path_text (normal (codes "src") ∷ normal (codes "a.rs") ∷ []) ≡ codes "src/a.rs")
unfolding extension path_text
extension_test = (refl, refl, refl)
