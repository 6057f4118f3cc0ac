-- ===== src/Backend/Price/Refresh.antt =====
-- What `GET /api/price/current` answers, after any number of refreshes.
use irhub.Prelude.{
  ℕ, ◌≤◌, ◌<◌, true, false, List, [], ◌∷◌, Option, none, some, text, length, ◌≡◌, refl, sym, ◌∙◌,
  ap, arith, any, All, Bool-cases, inl, inr, ◌⊎◌,
}
use irhub.Js.{
  Value, null, num, arr, Items, items, of_ℕ, ℤ, pos, negsuc, field, member, ok, is_nullish, or_else,
  truthy,
}
use irhub.Backend.State.{Server, Env, PriceCache}
use irhub.Backend.Http.{json, price}
use irhub.Backend.Price.{
  in_block, Fetched, failed, bad_status, data_of, refresh_prices, get_price_current,
}
use irhub.Backend.Price.Current.{covers, IsBlock, get_current_price_cents-agreed}

abbrev pub IsAtMost : ℤ → ℕ → Type 0
IsAtMost (pos n) now = n ≤ now
IsAtMost (negsuc n) now = Unit

abbrev pub IsAfter : ℤ → ℕ → Type 0
IsAfter (pos n) now = now < n
IsAfter (negsuc n) now = ⊥

-- The block has two readable dates, begins at this time or before it, and ends after it.
abbrev pub Covers : Env → ℕ → Value → Type 0
Covers env now p =
    (start : ℤ) × (end : ℤ) × (env.date_ms (field (text "startDate") p) ≡ some start)
    × (env.date_ms (field (text "endDate") p) ≡ some end)
    × IsAtMost start now
    × IsAfter end now

abbrev pub SomeCovers : Env → ℕ → List Value → Type 0
SomeCovers env now [] = ⊥
SomeCovers env now (p ∷ ps) = Covers env now p ⊎ SomeCovers env now ps

-- The refreshes at their times, in order.
abbrev pub after_refreshes : Server → List (ℕ × Fetched) → Server
after_refreshes s [] = s
after_refreshes s ((time, outcome) ∷ more) =
    after_refreshes (refresh_prices (record s { now = time }) outcome) more

-- A refresh without blocks: `fetch` threw, the status was not ok, or the data are null.
abbrev pub BringsNothing : Fetched → Type 0
BringsNothing failed = Unit
BringsNothing (bad_status code) = Unit
BringsNothing (data_of v) = is_nullish v ≡ true

in_block_sound :
    (now : ℕ) (start end : Option ℤ)
    → in_block now start end ≡ true
    → (a : ℤ) × (b : ℤ) × (start ≡ some a) × (end ≡ some b) × IsAtMost a now × IsAfter b now
in_block_sound now none end h = absurd (ground arith)
in_block_sound now (some a) none h = absurd (ground arith)
in_block_sound now (some (pos a)) (some (pos b)) h =
    (pos a, pos b, refl, refl, ground arith, ground arith)
in_block_sound now (some (pos a)) (some (negsuc b)) h = absurd (ground arith)
in_block_sound now (some (negsuc a)) (some (pos b)) h =
    (negsuc a, pos b, refl, refl, tt, ground arith)
in_block_sound now (some (negsuc a)) (some (negsuc b)) h = absurd (ground arith)

in_block_complete :
    (now : ℕ) (a b : ℤ) → IsAtMost a now → IsAfter b now → in_block now (some a) (some b) ≡ true
in_block_complete now (pos a) (pos b) h k = ground arith
in_block_complete now (negsuc a) (pos b) h k = ground arith
in_block_complete now a (negsuc b) h k = absurd k

-- Refreshes that bring nothing leave the cache.
after_refreshes-keeps :
    (s : Server) (later : List (ℕ × Fetched))
    → All (λ (r : ℕ × Fetched). BringsNothing r.1) later
    → (after_refreshes s later).price_cache ≡ s.price_cache
unfolding refresh_prices member
after_refreshes-keeps s [] h = refl
after_refreshes-keeps s ((time, outcome) ∷ more) (nothing, h) =
    after_refreshes-keeps (refresh_prices (record s { now = time }) outcome) more h
    ∙ kept outcome nothing
  where
    kept :
        (o : Fetched)
        → BringsNothing o
        → (refresh_prices (record s { now = time }) o).price_cache ≡ s.price_cache
    kept failed b = refl
    kept (bad_status code) b = refl
    kept (data_of v) b = rw b

module _ (env : Env) (now : ℕ) where
  covers-Covers : (p : Value) → covers env now p ≡ true → Covers env now p
  covers-Covers p h = in_block_sound now _ _ h

  Covers-covers : (p : Value) → Covers env now p → covers env now p ≡ true
  Covers-covers p (a, b, starts, ends, since, until) =
      rw (starts, ends) (in_block_complete now a b since until)

  agree-covers :
      (cents : Value) (ps : List Value)
      → All (λ p. Covers env now p → field (text "price") p ≡ cents) ps
      → All (λ p. covers env now p ≡ true → field (text "price") p ≡ cents) ps
  agree-covers cents [] h = h
  agree-covers cents (p ∷ ps) (agrees, h) =
      ((λ c. agrees (covers-Covers p c)), agree-covers cents ps h)

  any-SomeCovers : (ps : List Value) → any (covers env now) ps ≡ true → SomeCovers env now ps
  any-SomeCovers [] h = absurd (ground arith)
  any-SomeCovers (p ∷ ps) h = elim (Bool-cases (covers env now p)) [
    | inl c ↦ inl (covers-Covers p c)
    | inr c ↦ inr (any-SomeCovers ps (rw c at h))
  ]

  any-none : (ps : List Value) → any (covers env now) ps ≡ false → All (λ p. ¬ Covers env now p) ps
  any-none [] h = tt
  any-none (p ∷ ps) h = elim (Bool-cases (covers env now p)) [
    | inl c ↦ absurd (false_true (rw c at h))
    | inr c ↦ (λ k. false_true (sym (Covers-covers p k) ∙ c), any-none ps (rw c at h))
  ]
    where
      false_true : true ≡ false → ⊥
      false_true e = ground arith

-- Refreshes at any times: one that brings an array of blocks, and any number of later ones that bring
-- nothing (`fetch` throws, the status is not ok, or the data are null). At any time, where the
-- blocks that cover it agree on a price, `GET /api/price/current` then answers that price if some
-- block covers that time, its begin included and its end excluded, and null if none does; with the
-- number of the blocks, and the time of the refresh that brought them; whatever was cached before.
pub get_price_current_refreshed :
    (env : Env) (s : Server) (time now : ℕ) (v : Value) (ps : Items) (cents : Value)
    (later : List (ℕ × Fetched))
    → member (text "prices") v ≡ ok (arr ps)
    → All IsBlock (items ps)
    → All (λ (r : ℕ × Fetched). BringsNothing r.1) later
    → All (λ p. Covers env now p → field (text "price") p ≡ cents) (items ps)
    → let s' : Server = record (after_refreshes s ((time, data_of v) ∷ later)) { now = now } in
      let reply = (get_price_current env s').1 in
      let count = num (of_ℕ (length (items ps))) in
      (SomeCovers env now (items ps) × (reply ≡ json 200 (price cents count time)))
      ⊎ (All (λ p. ¬ Covers env now p) (items ps) × (reply ≡ json 200 (price null count time)))
unfolding refresh_prices get_price_current or_else truthy
get_price_current_refreshed env s time now v ps cents later brings h nothing agree =
    let fresh : Server = refresh_prices (record s { now = time }) (data_of v) in
    let s' : Server = record (after_refreshes fresh later) { now = now } in
    let filled : fresh.price_cache ≡ record { prices = arr ps; fetched_at = time } = rw brings in
    let cache : s'.price_cache ≡ record { prices = arr ps; fetched_at = time } =
      after_refreshes-keeps fresh later nothing ∙ filled in
    let cents_now =
      get_current_price_cents-agreed env s' ps cents (ap (λ (c : PriceCache). c.prices) cache) h
        (agree-covers env now cents (items ps) agree) in
    elim (Bool-cases (any (covers env now) (items ps))) [
      | inl some_covers ↦
          inl
            (any-SomeCovers env now (items ps) some_covers, rw (cents_now, some_covers, cache) refl)
      | inr none_covers ↦
          inr (any-none env now (items ps) none_covers, rw (cents_now, none_covers, cache) refl)
    ]
