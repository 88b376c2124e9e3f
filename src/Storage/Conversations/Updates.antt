-- ===== src/Storage/Conversations/Updates.antt =====
-- crates/mentat-storage/src/conversation.rs: what an update of the rows under a test changes.
use code_mentat.Base.{
  ◌+◌, Bool, true, false, some, List, [], ◌∷◌, ◌++◌, any, find, All, length, ◌≡◌, refl, inl, inr,
  Bool-cases, arith, subst, if◌then◌else◌,
}
use code_mentat.Storage.Conversations.Rows.{update_where, count_where}

module _ {ℓ} {A : Type ℓ} where
  -- A row that the test passes over is found as before.
  pub find-update_where_kept :
      (p test : A → Bool) (change : A → A) (x : A) (rows : List A)
      → ((y : A) → p (change y) ≡ p y)
      → find p rows ≡ some x
      → test x ≡ false
      → find p (update_where test change rows) ≡ some x
  unfolding find update_where
  find-update_where_kept p test change x [] same h k = cc
  find-update_where_kept p test change x (y ∷ rows) same h k =
      ground (arith, same y, find-update_where_kept p test change x rows same)

  -- The row that is found after an update is the one found before, changed if it passes the test.
  pub find-update_where :
      (p test : A → Bool) (change : A → A) (x : A) (rows : List A)
      → ((y : A) → p (change y) ≡ p y)
      → find p rows ≡ some x
      → find p (update_where test change rows) ≡ some (if test x then change x else x)
  unfolding find update_where
  find-update_where p test change x [] same h = cc
  find-update_where p test change x (y ∷ rows) same h = elim (Bool-cases (p y)) [
    | inl own ↦
        let equal : y ≡ x = ground (arith, own, h) in
        subst
          (λ z.
            find p (update_where test change (y ∷ rows)) ≡ some (if test z then change z else z))
          equal (own_found y rows same own)
    | inr other ↦
        let there : find p rows ≡ some x = ground (arith, other, h) in
        ground (arith, other, same y, find-update_where p test change x rows same there)
  ]
    where
      own_found :
          (z : A) (rest : List A)
          → ((w : A) → p (change w) ≡ p w)
          → p z ≡ true
          → find p (update_where test change (z ∷ rest)) ≡ some (if test z then change z else z)
      own_found z rest keeps h = elim (Bool-cases (test z)) [
        | inl e ↦ ground (arith, e, keeps z, h)
        | inr e ↦ ground (arith, e, h)
      ]

  pub find-append_kept :
      (p : A → Bool) (x : A) (xs ys : List A) → find p xs ≡ some x → find p (xs ++ ys) ≡ some x
  unfolding find
  find-append_kept p x [] ys h = cc
  find-append_kept p x (y ∷ xs) ys h = ground (arith, find-append_kept p x xs ys)

  pub any-append_left : (p : A → Bool) (xs ys : List A) → any p xs ≡ true → any p (xs ++ ys) ≡ true
  unfolding any
  any-append_left p [] ys h = cc
  any-append_left p (x ∷ xs) ys h = ground (arith, any-append_left p xs ys)

  pub any-update_where :
      (p test : A → Bool) (change : A → A) (rows : List A)
      → ((y : A) → p (change y) ≡ p y)
      → any p (update_where test change rows) ≡ any p rows
  unfolding any update_where
  any-update_where p test change [] same = refl
  any-update_where p test change (y ∷ rows) same =
      ground (arith, same y, any-update_where p test change rows same)

  -- No row passes a test that each change makes fail.
  pub count_where-update_where_all :
      (test : A → Bool) (change : A → A) (rows : List A)
      → ((y : A) → test (change y) ≡ false)
      → count_where test (update_where test change rows) ≡ 0
  unfolding count_where update_where
  count_where-update_where_all test change [] h = refl
  count_where-update_where_all test change (y ∷ rows) h =
      ground (arith, h y, count_where-update_where_all test change rows h)

  -- A count of 0 stays one, when no change makes a row pass.
  pub count_where-update_where_none :
      (p test : A → Bool) (change : A → A) (rows : List A)
      → ((y : A) → p y ≡ false → p (change y) ≡ false)
      → count_where p rows ≡ 0
      → count_where p (update_where test change rows) ≡ 0
  unfolding count_where update_where
  count_where-update_where_none p test change [] h k = refl
  count_where-update_where_none p test change (y ∷ rows) h k =
      ground (arith, h y, count_where-update_where_none p test change rows h)

  pub count_where-append :
      (p : A → Bool) (xs ys : List A)
      → count_where p (xs ++ ys) ≡ count_where p xs + count_where p ys
  unfolding count_where
  count_where-append p [] ys = omega arith
  count_where-append p (x ∷ xs) ys = ground (arith, count_where-append p xs ys)

  pub length-update_where :
      (test : A → Bool) (change : A → A) (rows : List A)
      → length (update_where test change rows) ≡ length rows
  unfolding update_where
  length-update_where test change [] = refl
  length-update_where test change (y ∷ rows) = ground (arith, length-update_where test change rows)

  -- What holds of each row kept and of each row changed holds of all after the update.
  pub All-update_where {κ} :
      (P : A → Type κ) (test : A → Bool) (change : A → A) (rows : List A)
      → ((y : A) → test y ≡ true → P (change y))
      → ((y : A) → test y ≡ false → P y)
      → All P (update_where test change rows)
  unfolding update_where
  All-update_where P test change [] f g = tt
  All-update_where P test change (y ∷ rows) f g = elim (Bool-cases (test y)) [
    | inl e ↦ rw e (f y e, All-update_where P test change rows f g)
    | inr e ↦ rw e (g y e, All-update_where P test change rows f g)
  ]

  pub All-count_where :
      (p : A → Bool) (rows : List A) → All (λ y. p y ≡ false) rows → count_where p rows ≡ 0
  unfolding count_where
  All-count_where p [] h = refl
  All-count_where p (y ∷ rows) h = ground (arith, h.0, All-count_where p rows h.1)
