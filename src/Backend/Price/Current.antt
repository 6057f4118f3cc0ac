-- ===== src/Backend/Price/Current.antt =====
-- Which price counts as the current one, and what a refresh does to it.
use irhub.Prelude.{
  ℕ, Bool, true, false, List, [], ◌∷◌, some, text, ◌≡◌, refl, ap, arith, if◌then◌else◌, find, any,
  All, Bool-cases, inl, inr,
}
use irhub.Js.{
  Value, undefined, null, bool, num, str, obj, field, member, ok, is_nullish, Items, arr, items,
  truthy,
}
use irhub.Backend.State.{Server, Env}
use irhub.Backend.Price.{find_block, in_block, price_of, get_current_price_cents}

-- The block covers the time, its end excluded.
abbrev pub covers : Env → ℕ → Value → Bool
covers env now p =
    in_block now (env.date_ms (field (text "startDate") p)) (env.date_ms (field (text "endDate") p))

-- An entry that the API sends: an object.
abbrev pub IsBlock : Value → Type 0
IsBlock p = truthy p ≡ true

IsBlock-readable : (p : Value) → IsBlock p → is_nullish p ≡ false
unfolding truthy
IsBlock-readable undefined h = ground arith
IsBlock-readable null h = ground arith
IsBlock-readable (bool b) h = refl
IsBlock-readable (num n) h = refl
IsBlock-readable (str t) h = refl
IsBlock-readable (arr xs) h = refl
IsBlock-readable (obj fs) h = refl

module _ (env : Env) (now : ℕ) where
  find_block-find :
      (ps : List Value) → All IsBlock ps → find_block env now ps ≡ ok (find (covers env now) ps)
  unfolding find_block member
  find_block-find [] h = refl
  find_block-find (p ∷ ps) h =
      rw (IsBlock-readable p h.0, find_block-find ps h.1) (pick (covers env now p))
    where
      pick :
          (b : Bool)
          → (if b then ok (some p) else ok (find (covers env now) ps))
            ≡ ok (if b then some p else find (covers env now) ps)
      pick true = refl
      pick false = refl

  -- The price of the block found, where all that cover the time agree.
  price_of-find :
      (cents : Value) (ps : List Value)
      → All IsBlock ps
      → All (λ p. covers env now p ≡ true → field (text "price") p ≡ cents) ps
      → price_of (find (covers env now) ps) ≡ (if any (covers env now) ps then cents else null)
  price_of-find cents [] h agree = refl
  price_of-find cents (p ∷ ps) h agree = elim (Bool-cases (covers env now p)) [
    | inl c ↦ rw (c, h.0) (agree.0 c)
    | inr c ↦ rw c (price_of-find cents ps h.1 agree.1)
  ]

-- Where the cache holds blocks, and all that cover this instant have one price, the current price is
-- that price, in whatever order the blocks stand, and null if none covers it.
pub get_current_price_cents-agreed :
    (env : Env) (s : Server) (ps : Items) (cents : Value)
    → s.price_cache.prices ≡ arr ps
    → All IsBlock (items ps)
    → All (λ p. covers env s.now p ≡ true → field (text "price") p ≡ cents) (items ps)
    → get_current_price_cents env s ≡ ok (if any (covers env s.now) (items ps) then cents else null)
unfolding get_current_price_cents
get_current_price_cents-agreed env s ps cents e h agree =
    rw (e, find_block-find env s.now (items ps) h)
      (ap ok (price_of-find env s.now cents (items ps) h agree))
