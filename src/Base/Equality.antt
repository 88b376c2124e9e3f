-- ===== src/Base/Equality.antt =====
-- `PartialEq`: a Boolean test that decides equality, and its instances.
use Prim.Native.Nat.{ℕ}
use mathlib.Core.Path.{◌≡◌, refl, subst, ap₂}
use mathlib.Core.Logic.{◌↔◌, inl, inr}
use mathlib.Core.Bool.{Bool, true, false, ◌&&◌, ◌||◌}
use mathlib.Core.Option.{Option, none, some}
use mathlib.Core.List.{List, [], ◌∷◌}
use native.Mathlib.Omega.{arith}
use code_mentat.Base.Tests.{nat_beq, nat_beq_iff, if◌then◌else◌, and-split, Bool-cases}
use code_mentat.Base.Lists.{All}

pub record Eq {ℓ} (A : Type ℓ) : Type ℓ where
  pub beq : A → A → Bool
  pub beq_iff : (x y : A) → (beq x y ≡ true) ↔ (x ≡ y)

module _ {ℓ} {A : Type ℓ} ⦃e : Eq A⦄ where
  infix 50 ◌!=◌ ◌==◌
  abbrev pub ◌==◌ : A → A → Bool
  x == y = e.beq x y

  abbrev pub ◌!=◌ : A → A → Bool
  x != y = if e.beq x y then false else true

instance abbrev pub nat_eq : Eq ℕ
nat_eq = record { beq = nat_beq; beq_iff = nat_beq_iff }

module _ {ℓ} {A : Type ℓ} ⦃e : Eq A⦄ where
  unfoldable pub list_beq : List A → List A → Bool
  list_beq [] [] = true
  list_beq (x ∷ xs) (y ∷ ys) = x == y && list_beq xs ys
  list_beq _ _ = false

  pub list_beq_sound : (xs ys : List A) → list_beq xs ys ≡ true → xs ≡ ys
  unfolding list_beq
  list_beq_sound [] [] h = refl
  list_beq_sound [] (y ∷ ys) h = cc
  list_beq_sound (x ∷ xs) [] h = cc
  list_beq_sound (x ∷ xs) (y ∷ ys) h =
      let c = and-split (x == y) (list_beq xs ys) h in
      ap₂ ◌∷◌ ((e.beq_iff x y).0 c.0) (list_beq_sound xs ys c.1)

  pub list_beq_refl : (xs : List A) → list_beq xs xs ≡ true
  unfolding list_beq
  list_beq_refl [] = refl
  list_beq_refl (x ∷ xs) = rw ((e.beq_iff x x).1 refl) (list_beq_refl xs)

  pub list_beq_iff : (xs ys : List A) → (list_beq xs ys ≡ true) ↔ (xs ≡ ys)
  list_beq_iff xs ys = (list_beq_sound xs ys, λ p. rw p (list_beq_refl ys))

  unfoldable pub option_beq : Option A → Option A → Bool
  option_beq none none = true
  option_beq (some a) (some b) = a == b
  option_beq _ _ = false

  pub option_beq_iff : (a b : Option A) → (option_beq a b ≡ true) ↔ (a ≡ b)
  unfolding option_beq
  option_beq_iff none none = (λ _. refl, λ _. refl)
  option_beq_iff none (some b) = (λ h. cc, λ h. cc)
  option_beq_iff (some a) none = (λ h. cc, λ h. cc)
  option_beq_iff (some a) (some b) = (λ h. cc ((e.beq_iff a b).0 h), λ h. (e.beq_iff a b).1 (cc h))

  -- `Vec::contains`, `HashSet::contains`.
  unfoldable pub contains : A → List A → Bool
  contains a [] = false
  contains a (x ∷ xs) = x == a || contains a xs

  -- No element occurs twice: `HashSet` of the list is as long as the list.
  unfoldable pub distinct : List A → Bool
  unfolding contains
  distinct [] = true
  distinct (x ∷ xs) = (if contains x xs then false else true) && distinct xs

instance abbrev pub list_eq {ℓ} : {A : Type ℓ} ⦃e : Eq A⦄ → Eq (List A)
list_eq = record { beq = list_beq; beq_iff = list_beq_iff }

instance abbrev pub option_eq {ℓ} : {A : Type ℓ} ⦃e : Eq A⦄ → Eq (Option A)
option_eq = record { beq = option_beq; beq_iff = option_beq_iff }

module _ {ℓ} {A : Type ℓ} ⦃e : Eq A⦄ where
  pub ==-sound : (a b : A) → a == b ≡ true → a ≡ b
  ==-sound a b = (e.beq_iff a b).0

  pub ==_refl : (a : A) → a == a ≡ true
  ==_refl a = (e.beq_iff a a).1 refl

  pub !=-sound : (a b : A) → a != b ≡ false → a ≡ b
  !=-sound a b h = (e.beq_iff a b).0 (ground arith)

  pub contains-All {κ} :
      (P : A → Type κ) (a : A) (xs : List A) → All P xs → contains a xs ≡ true → P a
  unfolding contains
  contains-All P a [] h c = cc
  contains-All P a (x ∷ xs) h c = elim (Bool-cases (x == a)) [
    | inl s ↦ subst P (==-sound x a s) h.0
    | inr s ↦ contains-All P a xs h.1 (ground arith)
  ]

  pub distinct-cons :
      (x : A) (xs : List A)
      → distinct (x ∷ xs) ≡ true
      → (contains x xs ≡ false) × (distinct xs ≡ true)
  unfolding distinct
  distinct-cons x xs h = ground (arith, h)
