-- ===== src/Prelude/Strings.antt =====
-- A JavaScript string as the list of its UTF-16 code units, with `===`, and the helpers
-- that the sources use: `slice(0, n)` is `take`, a template literal is `++`.
use Prim.Native.Nat.{ℕ, zero, suc, ◌+◌, ◌/◌, ◌%◌, ◌<◌}
use Prim.Native.Char.{code}
use Prim.Native.String.{String}
use mathlib.Core.Path.{◌≡◌, refl}
use mathlib.Core.Logic.{◌≢◌}
use mathlib.Core.Bool.{Bool, true, false, ◌&&◌}
use mathlib.Core.List.{List, [], ◌∷◌}
use native.Mathlib.Omega.{arith}
use mathlib.Core.Logic.{inl, inr}
use irhub.Prelude.Tests.{◌==◌, if◌then◌else◌, ltb, Bool-cases}
use irhub.Prelude.Lists.{All}

abbrev pub Text : Type 0
Text = List ℕ

-- A literal of the source; its characters are all below U+10000, so each is one code unit.
abbrev pub text : String → Text
text String.[] = []
text (String.◌∷◌ c s) = code c ∷ text s

unfoldable pub text_eq : Text → Text → Bool
text_eq [] [] = true
text_eq [] (y ∷ ys) = false
text_eq (x ∷ xs) [] = false
text_eq (x ∷ xs) (y ∷ ys) = (x == y) && text_eq xs ys

pub text_eq_refl : (s : Text) → text_eq s s ≡ true
unfolding text_eq
text_eq_refl [] = refl
text_eq_refl (x ∷ xs) = ground (arith, text_eq_refl xs)

pub text_eq_sound : (s t : Text) → text_eq s t ≡ true → s ≡ t
unfolding text_eq
text_eq_sound [] [] h = refl
text_eq_sound [] (y ∷ t) h = ground arith
text_eq_sound (x ∷ s) [] h = ground arith
text_eq_sound (x ∷ s) (y ∷ t) h = ground (arith, text_eq_sound s t)

pub text_eq_ne : (s t : Text) → text_eq s t ≡ false → s ≢ t
text_eq_ne s t h e = cc (rw e at (text_eq_refl s), h)

-- `String(n)` for an index: decimal digits, least significant found first. The fuel `suc n` is
-- enough, since every round divides by ten.
digits_from : ℕ → ℕ → Text → Text
digits_from zero n acc = acc
digits_from (suc f) n acc =
    let more = digits_from f (n / 10) ((48 + n % 10) ∷ acc) in
    if ltb n 10 then (48 + n) ∷ acc else more

unfoldable pub decimal : ℕ → Text
unfolding digits_from
decimal n = digits_from (suc n) n []

module _ {ℓ} (P : ℕ → Type ℓ) (digit : (d : ℕ) → d < 10 → P (48 + d)) where
  digits_from-All : (f n : ℕ) (acc : Text) → All P acc → All P (digits_from f n acc)
  unfolding digits_from
  digits_from-All zero n acc h = h
  digits_from-All (suc f) n acc h = elim (Bool-cases (ltb n 10)) [
    | inl e ↦ rw e (digit n (ground arith), h)
    | inr e ↦ rw e (digits_from-All f (n / 10) _ (digit (n % 10) (omega arith), h))
  ]

  -- What holds of the ten digits holds of all that `String(n)` consists of.
  pub decimal-All : (n : ℕ) → All P (decimal n)
  unfolding decimal
  decimal-All n = digits_from-All (suc n) n [] tt
