-- ===== src/Core/Error.antt =====
-- crates/mentat-core/src/error.rs: the errors, with their codes and without the texts that a
-- reader sees, and the result of a fallible operation with the `?` operator as bind.
use code_mentat.Base.{String, Bool, true, false, ◌≡◌, ◌⊎◌, inl, inr, refl}

pub data MentatError : Type 0 where
  invalid_repository_path : MentatError
  external_path_blocked : MentatError
  storage_isolation_violation : MentatError
  egress_violation : MentatError
  app_data_inside_repository : MentatError
  io_error : MentatError
  platform_error : MentatError
  indexing_error : MentatError
  inference_error : MentatError
  backend_error : String → MentatError
  storage_error : String → MentatError
  prompt_error : String → MentatError
  cancelled : MentatError

pub data Result {ℓ} (A : Type ℓ) : Type ℓ where
  ok : A → Result A
  err : MentatError → Result A

-- The operator `?`, with what follows it.
module _ {ℓ κ} {A : Type ℓ} {B : Type κ} where
  infixl 5 ◌>>=◌
  abbrev pub ◌>>=◌ : Result A → (A → Result B) → Result B
  err e >>= rest = err e
  ok a >>= rest = rest a

module _ {ℓ} {B : Type ℓ} where
  infixl 5 ◌>>◌
  abbrev pub ◌>>◌ : Result (Unit {0}) → Result B → Result B
  first >> rest = first >>= λ _. rest

-- `if test { return Err(error); }`.
abbrev pub fail_if : Bool → MentatError → Result (Unit {0})
fail_if true e = err e
fail_if false e = ok tt

abbrev pub is_ok {ℓ} : {A : Type ℓ} → Result A → Bool
is_ok (ok a) = true
is_ok (err e) = false

pub Result-cases {ℓ} :
    {A : Type ℓ} (r : Result A) → ((a : A) × (r ≡ ok a)) ⊎ ((e : MentatError) × (r ≡ err e))
Result-cases (ok a) = inl (a, refl)
Result-cases (err e) = inr (e, refl)

pub >>=-eq-ok {ℓ κ} :
    {A : Type ℓ} {B : Type κ} (m : Result A) (f : A → Result B) (b : B)
    → (m >>= f) ≡ ok b
    → (a : A) × (m ≡ ok a) × (f a ≡ ok b)
>>=-eq-ok (ok a) f b h = (a, refl, h)
>>=-eq-ok (err e) f b h = cc

-- A passed guard: its test is false and the rest gave the result.
pub fail_if-eq-ok {κ} :
    {B : Type κ} (t : Bool) (e : MentatError) (k : Result B) (b : B)
    → (fail_if t e >>= λ _. k) ≡ ok b
    → (t ≡ false) × (k ≡ ok b)
fail_if-eq-ok true e k b h = cc
fail_if-eq-ok false e k b h = (refl, h)

pub fail_if-tt : (t : Bool) (e : MentatError) → fail_if t e ≡ ok tt → t ≡ false
fail_if-tt true e h = cc
fail_if-tt false e h = refl
