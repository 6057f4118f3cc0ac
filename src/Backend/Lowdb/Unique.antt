-- ===== src/Backend/Lowdb/Unique.antt =====
-- At most one item of a collection carries a given string id, whatever is written.
use irhub.Prelude.{
  ℕ, suc, ◌+◌, ◌≤◌, List, [], ◌∷◌, ◌++◌, none, Bool, true, false, ◌≡◌, ◌≢◌, refl, find,
  update_first, reject, arith, ap, if◌then◌else◌, Bool-cases, inl, inr, Text,
}
use irhub.Js.{Value, str, strict_eq}
use irhub.Js.Laws.{strict_eq-str, strict_eq-str-ne}
use irhub.Backend.Lowdb.{has_id}

-- How many items pass a test.
abbrev pub count {ℓ} : {A : Type ℓ} → (A → Bool) → List A → ℕ
count p [] = 0
count p (x ∷ xs) = if p x then suc (count p xs) else count p xs

module _ {ℓ} {A : Type ℓ} where
  pub count-append : (p : A → Bool) (xs ys : List A) → count p (xs ++ ys) ≡ count p xs + count p ys
  count-append p [] ys = omega arith
  count-append p (x ∷ xs) ys = ground (arith, count-append p xs ys)

  pub count_of_find-none : (p : A → Bool) (xs : List A) → find p xs ≡ none → count p xs ≡ 0
  count_of_find-none p [] h = refl
  count_of_find-none p (x ∷ xs) h = ground (arith, count_of_find-none p xs)

  pub count-reject-le : (p q : A → Bool) (xs : List A) → count p (reject q xs) ≤ count p xs
  count-reject-le p q [] = omega arith
  count-reject-le p q (x ∷ xs) = ground (arith, count-reject-le p q xs)

  pub count-update_first :
      (p q : A → Bool) (f : A → A) (xs : List A)
      → ((x : A) → q x ≡ true → p (f x) ≡ p x)
      → count p (update_first q f xs) ≡ count p xs
  count-update_first p q f [] same = refl
  count-update_first p q f (x ∷ xs) same = ground (arith, same x, count-update_first p q f xs same)

  pub find-update_first_ne :
      (p q : A → Bool) (f : A → A) (xs : List A)
      → ((x : A) → p (f x) ≡ p x)
      → ((x : A) → q x ≡ true → p x ≡ false)
      → find p (update_first q f xs) ≡ find p xs
  find-update_first_ne p q f [] same apart = refl
  find-update_first_ne p q f (x ∷ xs) same apart =
      ground (arith, same x, apart x, find-update_first_ne p q f xs same apart)

  pub find-reject_ne :
      (p q : A → Bool) (xs : List A)
      → ((x : A) → q x ≡ true → p x ≡ false)
      → find p (reject q xs) ≡ find p xs
  find-reject_ne p q [] apart = refl
  find-reject_ne p q (x ∷ xs) apart = ground (arith, apart x, find-reject_ne p q xs apart)

  pub find-append_ne :
      (p : A → Bool) (xs : List A) (y : A) → p y ≡ false → find p (xs ++ y ∷ []) ≡ find p xs
  find-append_ne p [] y h = rw h
  find-append_ne p (x ∷ xs) y h = ground (arith, find-append_ne p xs y h)

module _ {ℓ} {A : Type ℓ} (key : A → Value) where
  abbrev pub HasUniqueIds : List A → Type 0
  HasUniqueIds xs = (t : Text) → count (has_id key (str t)) xs ≤ 1

  -- An item has no two string ids.
  pub has_id-apart :
      (t u : Text) → t ≢ u → (x : A) → has_id key (str t) x ≡ true → has_id key (str u) x ≡ false
  has_id-apart t u ne x h = rw (strict_eq-str (key x) t h) (strict_eq-str-ne t u ne)

  pub HasUniqueIds-push :
      (id : Value) (x : A) (xs : List A)
      → key x ≡ id
      → find (has_id key id) xs ≡ none
      → HasUniqueIds xs
      → HasUniqueIds (xs ++ x ∷ [])
  HasUniqueIds-push id x xs e missing h t = elim (Bool-cases (has_id key (str t) x)) [
    | inl yes_id ↦
        let same : id ≡ str t = rw e at (strict_eq-str (key x) t yes_id) in
        let gone : count (has_id key (str t)) xs ≡ 0 =
          count_of_find-none (has_id key (str t)) xs (rw same at missing) in
        rw (count-append (has_id key (str t)) xs (x ∷ [])) (rw (gone, yes_id) (omega arith))
    | inr other ↦ rw (count-append (has_id key (str t)) xs (x ∷ [])) (rw other (omega (arith, h t)))
  ]

  pub HasUniqueIds-update_first :
      (q : A → Bool) (f : A → A) (xs : List A)
      → ((x : A) → q x ≡ true → key (f x) ≡ key x)
      → HasUniqueIds xs
      → HasUniqueIds (update_first q f xs)
  HasUniqueIds-update_first q f xs same h t =
      rw
        (count-update_first (has_id key (str t)) q f xs
          (λ x here. ap (λ v. strict_eq v (str t)) (same x here)))
        (h t)

  pub HasUniqueIds-reject :
      (q : A → Bool) (xs : List A) → HasUniqueIds xs → HasUniqueIds (reject q xs)
  HasUniqueIds-reject q xs h t = omega (arith, h t, count-reject-le (has_id key (str t)) q xs)

module _ {ℓ} {A : Type ℓ} where
  -- Where nothing before an item passes the test, `update_first` changes that item.
  pub update_first-at :
      (p : A → Bool) (f : A → A) (pre post : List A) (x : A)
      → count p pre ≡ 0
      → p x ≡ true
      → update_first p f (pre ++ x ∷ post) ≡ pre ++ f x ∷ post
  update_first-at p f [] post x none_before h = rw h
  update_first-at p f (y ∷ pre) post x none_before h =
      ground (arith, update_first-at p f pre post x)

  -- The only item that passes has none before it.
  pub count_before :
      (p : A → Bool) (pre post : List A) (x : A)
      → p x ≡ true
      → count p (pre ++ x ∷ post) ≤ 1
      → count p pre ≡ 0
  count_before p pre post x h most =
      let head : count p (x ∷ post) ≡ suc (count p post) = rw h refl in
      omega (arith, count-append p pre (x ∷ post))

  -- An item may be replaced by one that passes the same tests.
  pub count-replace :
      (p : A → Bool) (pre post : List A) (x y : A)
      → p x ≡ p y
      → count p (pre ++ x ∷ post) ≡ count p (pre ++ y ∷ post)
  count-replace p [] post x y h = rw h
  count-replace p (z ∷ pre) post x y h = ground (arith, count-replace p pre post x y h)
