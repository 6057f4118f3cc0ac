-- ===== src/Backend/Lowdb/Places.antt =====
-- An item of a list by its place, where at most one passes a test.
use irhub.Prelude.{
  ℕ, zero, suc, ◌≤◌, List, [], ◌∷◌, some, Bool, true, ◌≡◌, refl, sym, ◌∙◌, ap, find, get_elem?,
  update_first, arith, Bool-cases, inl, inr, some_inj,
}
use irhub.Backend.Lowdb.Unique.{count}

module _ {ℓ} {A : Type ℓ} where
  -- A write to one place; a write out of bounds changes nothing.
  abbrev pub set : List A → ℕ → A → List A
  set [] i v = []
  set (x ∷ xs) zero v = v ∷ xs
  set (x ∷ xs) (suc i) v = x ∷ set xs i v

  module _ (p : A → Bool) where
    count-get_elem? :
        (xs : List A) (i : ℕ) (x : A) → get_elem? xs i ≡ some x → p x ≡ true → 1 ≤ count p xs
    count-get_elem? [] i x at here = ground arith
    count-get_elem? (y ∷ xs) zero x at here =
        let e : p y ≡ true = ap p (some_inj at) ∙ here in rw e (omega arith)
    count-get_elem? (y ∷ xs) (suc i) x at here = elim (Bool-cases (p y)) [
      | inl t ↦ rw t (omega arith)
      | inr f ↦ rw f (count-get_elem? xs i x at here)
    ]

    -- The one item that passes is the one that is found, and the first to be changed.
    pub get_elem?-first :
        (xs : List A) (i : ℕ) (x v : A)
        → count p xs ≤ 1
        → get_elem? xs i ≡ some x
        → p x ≡ true
        → (find p xs ≡ some x) × (set xs i v ≡ update_first p (λ _. v) xs)
    get_elem?-first [] i x v one at here = ground arith
    get_elem?-first (y ∷ xs) zero x v one at here =
        let e : p y ≡ true = ap p (some_inj at) ∙ here in rw e (at, refl)
    get_elem?-first (y ∷ xs) (suc i) x v one at here = elim (Bool-cases (p y)) [
      | inl t ↦
          let two : suc (count p xs) ≤ 1 = rw t at one in
          absurd (omega (arith, count-get_elem? xs i x at here))
      | inr f ↦
          let (found, written) = get_elem?-first xs i x v (rw f at one) at here in
          rw f (found, ap (λ ys. y ∷ ys) written)
    ]

-- Giving the first item that passes a test its own value changes nothing.
pub update_first_same {ℓ} :
    {A : Type ℓ} (p : A → Bool) (xs : List A) (x : A)
    → find p xs ≡ some x
    → update_first p (λ _. x) xs ≡ xs
update_first_same p [] x h = refl
update_first_same p (y ∷ ys) x h = elim (Bool-cases (p y)) [
  | inl here ↦ rw here (ap (λ z. z ∷ ys) (sym (some_inj (rw here at h))))
  | inr there ↦ rw there (ap (λ zs. y ∷ zs) (update_first_same p ys x (rw there at h)))
]
