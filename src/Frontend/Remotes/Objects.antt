-- ===== src/Frontend/Remotes/Objects.antt =====
-- The objects that the page holds on to, and the list in which it holds them.
use irhub.Prelude.{
  ℕ, Bool, false, List, [], ◌∷◌, map, none, some, find, find_sound, update_first, ◌≡◌, ◌≢◌, refl,
  sym, subst, ap, ap₂, arith, All, Bool-cases, inl, inr, none-ne-some, some_inj,
}
use irhub.Backend.State.{Remote}
use irhub.Frontend.Remotes.{change}

-- No object stands in the list twice.
abbrev pub AreDistinct : List ℕ → Type 0
AreDistinct [] = Unit {0}
AreDistinct (i ∷ is) = All (λ j. j ≢ i) is × AreDistinct is

pub change_self :
    (object : ℕ → Remote) (f : Remote → Remote) (i : ℕ) → change i f object i ≡ f (object i)
change_self object f i = ground arith

module _ (object : ℕ → Remote) (f : Remote → Remote) (p : Remote → Bool) where
  change_apart : (i j : ℕ) → j ≢ i → change i f object j ≡ object j
  change_apart i j ne = ground arith

  map-change_apart :
      (i : ℕ) (is : List ℕ) → All (λ j. j ≢ i) is → map (change i f object) is ≡ map object is
  map-change_apart i [] h = refl
  map-change_apart i (j ∷ js) (ne, h) =
      ap₂ (λ (x : Remote) xs. x ∷ xs) (change_apart i j ne) (map-change_apart i js h)

  at_head :
      (i j : ℕ) (js : List ℕ)
      → i ≡ j
      → All (λ k. k ≢ j) js
      → map (change i f object) (j ∷ js) ≡ f (object j) ∷ map object js
  at_head i j js same apart =
      subst (λ k. map (change k f object) (j ∷ js) ≡ f (object j) ∷ map object js) (sym same)
        (ap₂ (λ (x : Remote) xs. x ∷ xs) (change_self object f j) (map-change_apart j js apart))

  pub find-map :
      (is : List ℕ) (i : ℕ)
      → find (λ j. p (object j)) is ≡ some i
      → find p (map object is) ≡ some (object i)
  find-map [] i h = absurd (none-ne-some h)
  find-map (j ∷ js) i h = elim (Bool-cases (p (object j))) [
    | inl here ↦ rw here (ap (λ k. some (object k)) (some_inj (rw here at h)))
    | inr there ↦ rw there (find-map js i (rw there at h))
  ]

  pub find-map-none :
      (is : List ℕ) → find (λ j. p (object j)) is ≡ none → find p (map object is) ≡ none
  find-map-none [] h = refl
  find-map-none (j ∷ js) h = elim (Bool-cases (p (object j))) [
    | inl here ↦ absurd (none-ne-some (sym (rw here at h)))
    | inr there ↦ rw there (find-map-none js (rw there at h))
  ]

  -- Changing the object that `find` gives changes the first item of the list that is shown.
  pub map-change_found :
      (is : List ℕ) (i : ℕ)
      → AreDistinct is
      → find (λ j. p (object j)) is ≡ some i
      → map (change i f object) is ≡ update_first p f (map object is)
  map-change_found [] i distinct h = absurd (none-ne-some h)
  map-change_found (j ∷ js) i (apart, distinct) h = elim (Bool-cases (p (object j))) [
    | inl here ↦ rw here (at_head i j js (sym (some_inj (rw here at h))) apart)
    | inr there ↦
        let later = rw there at h in
        rw there (
          ap₂ (λ (x : Remote) xs. x ∷ xs) (change_apart i j (apart_from later there))
            (map-change_found js i distinct later))
  ]
    where
      apart_from : find (λ k. p (object k)) js ≡ some i → p (object j) ≡ false → j ≢ i
      apart_from later there e = cc (find_sound (λ k. p (object k)) js i later, rw e at there)
