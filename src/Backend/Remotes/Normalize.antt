-- ===== src/Backend/Remotes/Normalize.antt =====
-- When the buttons of a request are normalized, and when reading them throws.
use irhub.Prelude.{
  ℕ, suc, Bool, true, false, ◌&&◌, not, List, [], ◌∷◌, Option, ◌≡◌, refl, arith, Bool-cases, inl,
  inr, text, if◌then◌else◌, length, ap,
}
use irhub.Js.{
  Value, undefined, null, bool, num, str, arr, obj, Items, nil, cons, items, ok, type_error,
  is_nullish, member, truthy, field,
}
use irhub.Backend.State.{Button, Remote, Env}
use irhub.Backend.Remotes.{
  normalized_button, normalize_button, normalize_buttons, requested_buttons, existing_buttons,
}

-- No button of the list is null or undefined.
abbrev pub all_defined : Items → Bool
all_defined nil = true
all_defined (cons b bs) = not (is_nullish b) && all_defined bs

-- The `buttons` of a request can be read: they are no array, or an array without null.
abbrev pub is_readable : Value → Bool
is_readable (arr bs) = all_defined bs
is_readable _ = true

-- The calls of `uuidv4` so far, after one button.
abbrev pub uuids_after : ℕ → Value → ℕ
uuids_after uuids b = if truthy (field (text "id") b) then uuids else suc uuids

module _ (env : Env) where
  normalize_button-nullish :
      (existing : List Button) (uuids idx : ℕ) (b : Value)
      → is_nullish b ≡ true
      → normalize_button env existing uuids idx b ≡ type_error
  unfolding normalize_button member
  normalize_button-nullish existing uuids idx b h = rw h

  normalize_button-defined :
      (existing : List Button) (uuids idx : ℕ) (b : Value)
      → is_nullish b ≡ false
      → normalize_button env existing uuids idx b
        ≡ ok (normalized_button env existing uuids idx b, uuids_after uuids b)
  unfolding normalize_button member
  normalize_button-defined existing uuids idx b h = rw h

  -- The normalized list has a button for each one of the request.
  pub normalize_buttons-defined :
      (existing : List Button) (uuids idx : ℕ) (bs : Items)
      → all_defined bs ≡ true
      → (r : List Button × ℕ) × (normalize_buttons env existing uuids idx bs ≡ ok r)
        × (length r.0 ≡ length (items bs))
  unfolding normalize_buttons
  normalize_buttons-defined existing uuids idx nil h = (([], uuids), refl, refl)
  normalize_buttons-defined existing uuids idx (cons b bs) h =
      let e = normalize_button-defined existing uuids idx b (ground arith) in
      let (rest, e', n) =
        normalize_buttons-defined existing (uuids_after uuids b) (suc idx) bs (ground arith) in
      ((normalized_button env existing uuids idx b ∷ rest.0, rest.1), rw (e, e'), ap suc n)

  pub normalize_buttons-undefined :
      (existing : List Button) (uuids idx : ℕ) (bs : Items)
      → all_defined bs ≡ false
      → normalize_buttons env existing uuids idx bs ≡ type_error
  unfolding normalize_buttons
  normalize_buttons-undefined existing uuids idx nil h = ground arith
  normalize_buttons-undefined existing uuids idx (cons b bs) h = elim (Bool-cases (is_nullish b)) [
    | inl gone ↦ rw (normalize_button-nullish existing uuids idx b gone)
    | inr there ↦ rw (
      normalize_button-defined existing uuids idx b there,
      normalize_buttons-undefined existing (uuids_after uuids b) (suc idx) bs (rw there at h),
    )
  ]

  pub requested_buttons-readable :
      (existing : Option Remote) (uuids : ℕ) (v : Value)
      → is_readable v ≡ true
      → (r : List Button × ℕ) × (requested_buttons env existing uuids v ≡ ok r)
  unfolding requested_buttons
  requested_buttons-readable existing uuids (arr bs) h =
      let (r, e, _) = normalize_buttons-defined (existing_buttons existing) uuids 0 bs h in (r, e)
  requested_buttons-readable existing uuids undefined h = ((existing_buttons existing, uuids), refl)
  requested_buttons-readable existing uuids null h = ((existing_buttons existing, uuids), refl)
  requested_buttons-readable existing uuids (bool b) h = ((existing_buttons existing, uuids), refl)
  requested_buttons-readable existing uuids (num n) h = ((existing_buttons existing, uuids), refl)
  requested_buttons-readable existing uuids (str t) h = ((existing_buttons existing, uuids), refl)
  requested_buttons-readable existing uuids (obj fs) h = ((existing_buttons existing, uuids), refl)

  pub requested_buttons-unreadable :
      (existing : Option Remote) (uuids : ℕ) (v : Value)
      → is_readable v ≡ false
      → requested_buttons env existing uuids v ≡ type_error
  unfolding requested_buttons
  requested_buttons-unreadable existing uuids (arr bs) h =
      normalize_buttons-undefined (existing_buttons existing) uuids 0 bs h
  requested_buttons-unreadable existing uuids undefined h = ground arith
  requested_buttons-unreadable existing uuids null h = ground arith
  requested_buttons-unreadable existing uuids (bool b) h = ground arith
  requested_buttons-unreadable existing uuids (num n) h = ground arith
  requested_buttons-unreadable existing uuids (str t) h = ground arith
  requested_buttons-unreadable existing uuids (obj fs) h = ground arith
