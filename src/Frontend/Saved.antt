-- ===== src/Frontend/Saved.antt =====
-- Taking over what the backend stored: `if (existing) Object.assign(existing, saved); else push(saved)`
-- of the save handlers in `frontend/app.js`, against create or update in the backend.
use irhub.Prelude.{
  List, [], ◌∷◌, ◌++◌, Option, none, some, Text, ◌≡◌, refl, sym, ◌∙◌, ap, Bool-cases, Option-cases,
  inl, inr, find, find_sound, update_first, Bool, true, some_inj,
}
use irhub.Js.{Value, str}
use irhub.Js.Laws.{strict_eq-str}
use irhub.Backend.Lowdb.{has_id, Collection}
use irhub.Backend.Lowdb.Upsert.{upsert, upserted}

module _ {ℓ} {A : Type ℓ} (key : A → Value) where
  abbrev pub placed : A → List A → Option A → List A
  placed saved xs none = xs ++ saved ∷ []
  placed saved xs (some existing) = update_first (has_id key (key saved)) (λ _. saved) xs

  -- `Object.assign` gives the object every field that was saved.
  unfoldable pub place_saved : A → List A → List A
  place_saved saved xs = placed saved xs (find (has_id key (key saved)) xs)

module _ {ℓ} {A : Type ℓ} where
  update_first_found :
      (p : A → Bool) (f : A → A) (xs : List A) (x : A)
      → find p xs ≡ some x
      → update_first p (λ _. f x) xs ≡ update_first p f xs
  update_first_found p f [] x h = refl
  update_first_found p f (y ∷ ys) x h = elim (Bool-cases (p y)) [
    | inl here ↦
        let same : y ≡ x = some_inj (rw here at h) in rw here (ap (λ z. f z ∷ ys) (sym same))
    | inr there ↦ rw there (ap (λ zs. y ∷ zs) (update_first_found p f ys x (rw there at h)))
  ]

module _ {ℓ} {A : Type ℓ} (key : A → Value) (c : Collection A key) (t : Text) (new : A) (f : A → A)
    (xs : List A) where
  place_saved_as :
      (r : A) (o : Option A)
      → key r ≡ str t
      → find (has_id key (str t)) xs ≡ o
      → place_saved key r xs ≡ placed key r xs o
  unfolding place_saved
  place_saved_as r o its found =
      ap (placed key r xs) (ap (λ id. find (has_id key id) xs) its ∙ found)

  -- A list that takes over what was stored under a string id is the collection afterwards.
  pub place_saved-upsert :
      key new ≡ str t
      → ((x : A) → has_id key (str t) x ≡ true → key (f x) ≡ key x)
      → place_saved key (upserted key c (str t) new f (c.find_by (str t) xs)) xs
        ≡ upsert key c (str t) new f (c.find_by (str t) xs) xs
  place_saved-upsert new_id same_id = elim (Option-cases (find (has_id key (str t)) xs)) [
    | inl e ↦
        rw (c.find_lem (str t) xs tt, e)
          (place_saved_as new none new_id e ∙ sym (c.push_lem new xs))
    | inr (x, e) ↦
        let here : has_id key (str t) x ≡ true = find_sound (has_id key (str t)) xs x e in
        let its : key (f x) ≡ str t = same_id x here ∙ strict_eq-str (key x) t here in
        rw (c.find_lem (str t) xs tt, e)
          (place_saved_as (f x) (some x) its e
            ∙ ap (λ id. update_first (has_id key id) (λ _. f x) xs) its
            ∙ update_first_found (has_id key (str t)) f xs x e
            ∙ sym (c.assign_lem (str t) f xs tt))
  ]
