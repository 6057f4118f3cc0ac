-- ===== src/Backend/Lowdb/Reference.antt =====
-- A collection on which the assumptions hold, and what they give for `find` after a write.
use irhub.Prelude.{
  List, [], ◌∷◌, ◌++◌, none, some, Bool, true, ◌≡◌, refl, find, update_first, reject, arith,
}
use irhub.Js.{Value}
use irhub.Backend.Lowdb.{has_id, Collection}

abbrev pub reference {ℓ} : {A : Type ℓ} (key : A → Value) → Collection A key
reference key = record {
  find_by = λ id xs. find (has_id key id) xs;
  assign = λ id f xs. update_first (has_id key id) f xs;
  remove = λ id xs. reject (has_id key id) xs;
  push = λ x xs. xs ++ x ∷ [];
  find_lem = λ id xs p. refl;
  assign_lem = λ id f xs p. refl;
  remove_lem = λ id xs p. refl;
  push_lem = λ x xs. refl;
}

module _ {ℓ} {A : Type ℓ} (p : A → Bool) where
  pub find-append : (xs ys : List A) → find p xs ≡ none → find p (xs ++ ys) ≡ find p ys
  find-append [] ys h = refl
  find-append (x ∷ xs) ys h = ground (arith, find-append xs ys)

  pub find-update_first :
      (f : A → A) (xs : List A) (x : A)
      → ((y : A) → p y ≡ true → p (f y) ≡ true)
      → find p xs ≡ some x
      → find p (update_first p f xs) ≡ some (f x)
  find-update_first f [] x keep h = ground arith
  find-update_first f (y ∷ xs) x keep h = ground (arith, keep y, find-update_first f xs x keep)

  pub find-reject : (xs : List A) → find p (reject p xs) ≡ none
  find-reject [] = refl
  find-reject (x ∷ xs) = ground (arith, find-reject xs)

  pub update_first-missing : (f : A → A) (xs : List A) → find p xs ≡ none → update_first p f xs ≡ xs
  update_first-missing f [] h = refl
  update_first-missing f (x ∷ xs) h = ground (arith, update_first-missing f xs)
