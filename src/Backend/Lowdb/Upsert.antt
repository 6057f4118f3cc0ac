-- ===== src/Backend/Lowdb/Upsert.antt =====
-- Create or update: the `existing ? assign : push` of the POST handlers, for any collection.
use irhub.Prelude.{
  List, [], ◌∷◌, Option, none, some, Text, ◌≡◌, ◌≢◌, refl, sym, ◌∙◌, ap, find, true,
}
use irhub.Js.{Value, str, IsPrimitive, strict_eq}
use irhub.Js.Laws.{strict_eq_refl}
use irhub.Backend.Lowdb.{has_id, Collection}
use irhub.Backend.Lowdb.Reference.{find-append, find-update_first, find-reject}
use irhub.Backend.Lowdb.Unique.{
  HasUniqueIds, HasUniqueIds-push, HasUniqueIds-update_first, HasUniqueIds-reject, has_id-apart,
  find-reject_ne,
}

module _ {ℓ} {A : Type ℓ} (key : A → Value) (c : Collection A key) (id : Value) (new : A)
    (f : A → A) where
  abbrev pub upsert : Option A → List A → List A
  upsert none xs = c.push new xs
  upsert (some x) xs = c.assign id f xs

  abbrev pub upserted : Option A → A
  upserted none = new
  upserted (some x) = f x

  module _ (prim : IsPrimitive id) (new_id : key new ≡ id)
      (same_id : (x : A) → has_id key id x ≡ true → key (f x) ≡ key x) where
    keeps_id : (x : A) → has_id key id x ≡ true → has_id key id (f x) ≡ true
    keeps_id x here = ap (λ k. strict_eq k id) (same_id x here) ∙ here

    -- What is found under the id afterwards.
    pub upsert-found :
        (o : Option A) (xs : List A)
        → c.find_by id xs ≡ o
        → c.find_by id (upsert o xs) ≡ some (upserted o)
    upsert-found none xs e =
        c.find_lem id (c.push new xs) prim
        ∙ ap (find (has_id key id)) (c.push_lem new xs)
        ∙ find-append (has_id key id) xs (new ∷ []) (sym (c.find_lem id xs prim) ∙ e)
        ∙ (rw (new_id, strict_eq_refl id prim) refl)
    upsert-found (some x) xs e =
        c.find_lem id (c.assign id f xs) prim
        ∙ ap (find (has_id key id)) (c.assign_lem id f xs prim)
        ∙ find-update_first (has_id key id) f xs x keeps_id (sym (c.find_lem id xs prim) ∙ e)

    pub upsert-HasUniqueIds :
        (o : Option A) (xs : List A)
        → c.find_by id xs ≡ o
        → HasUniqueIds key xs
        → HasUniqueIds key (upsert o xs)
    upsert-HasUniqueIds none xs e u =
        rw (c.push_lem new xs)
          (HasUniqueIds-push key id new xs new_id (sym (c.find_lem id xs prim) ∙ e) u)
    upsert-HasUniqueIds (some x) xs e u =
        rw (c.assign_lem id f xs prim)
          (HasUniqueIds-update_first key (has_id key id) f xs same_id u)

module _ {ℓ} {A : Type ℓ} (key : A → Value) (c : Collection A key) where
  pub remove-HasUniqueIds :
      (t : Text) (xs : List A) → HasUniqueIds key xs → HasUniqueIds key (c.remove (str t) xs)
  remove-HasUniqueIds t xs u =
      rw (c.remove_lem (str t) xs tt) (HasUniqueIds-reject key (has_id key (str t)) xs u)

  -- Afterwards the id is not found, and every other string id is found as before.
  pub remove-found :
      (t : Text) (xs : List A)
      → (c.find_by (str t) (c.remove (str t) xs) ≡ none)
        × ((u : Text) → t ≢ u → c.find_by (str u) (c.remove (str t) xs) ≡ c.find_by (str u) xs)
  remove-found t xs = (
    c.find_lem (str t) (c.remove (str t) xs) tt
        ∙ ap (find (has_id key (str t))) (c.remove_lem (str t) xs tt)
        ∙ find-reject (has_id key (str t)) xs,
    λ u ne.
        c.find_lem (str u) (c.remove (str t) xs) tt
        ∙ ap (find (has_id key (str u))) (c.remove_lem (str t) xs tt)
        ∙ find-reject_ne (has_id key (str u)) (has_id key (str t)) xs (has_id-apart key t u ne)
        ∙ sym (c.find_lem (str u) xs tt),
  )
