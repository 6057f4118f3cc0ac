-- ===== src/Firmware/NetConfig/Digits.antt =====
-- One part of an address: the digit loop of `parse_ipv4` reads what stands before the next dot.
use irhub.Prelude.{
  ℕ, suc, ◌+◌, ◌-◌, ◌*◌, ◌≤◌, Bool, true, false, ◌&&◌, ◌||◌, List, [], ◌∷◌, ◌++◌, none, some, leb,
  ltb, ◌==◌, if◌then◌else◌, length, all, All, ◌≡◌, ◌≢◌, arith, ◌⊎◌, inl, inr, Bool-cases, Text,
}
use irhub.Frontend.Setup.Encoding.{is_digit, digits_value}
use irhub.Firmware.NetConfig.{scan_digits}

-- The text up to its first dot, and the rest from that dot on.
abbrev pub first_part : Text → Text
first_part [] = []
first_part (c ∷ s) = if c == 46 then [] else c ∷ first_part s

abbrev pub from_dot : Text → Text
from_dot [] = []
from_dot (c ∷ s) = if c == 46 then c ∷ s else from_dot s

-- A part may still be an octet behind d digits of the value v.
unfoldable pub fits : ℕ → ℕ → Text → Bool
fits d v o = all is_digit o && leb (d + length o) 3 && leb (digits_value v o) 255

digits_value-le : (v : ℕ) (o : Text) → v ≤ digits_value v o
digits_value-le v [] = omega arith
digits_value-le v (c ∷ o) = omega (arith, digits_value-le (v * 10 + (c - 48)) o)

fits_digit :
    (d v c : ℕ) (o : Text)
    → is_digit c ≡ true
    → fits d v (c ∷ o) ≡ fits (suc d) (v * 10 + (c - 48)) o
unfolding fits
fits_digit d v c o h =
    let shifted : d + suc (length o) ≡ suc d + length o = omega arith in rw (h, shifted)

fits_other : (d v c : ℕ) (o : Text) → is_digit c ≡ false → fits d v (c ∷ o) ≡ false
unfolding fits
fits_other d v c o h = rw h

fits_over : (d v : ℕ) (o : Text) → (ltb 3 d || ltb 255 v) ≡ true → fits d v o ≡ false
unfolding fits
fits_over d v o h = ground (arith, digits_value-le v o)

fits_nil : (d v : ℕ) → d ≤ 3 → v ≤ 255 → fits d v [] ≡ true
unfolding fits
fits_nil d v hd hv = ground arith

-- What the digit loop comes to on a text that a NUL ends: it reads the part up to the dot or the end,
-- or it gives up, or it stops before another character.
pub scan_digits-first_part :
    (pad : List ℕ) (s : Text) (d v : ℕ)
    → All (λ c. c ≢ 0) s
    → d ≤ 3
    → v ≤ 255
    → (scan_digits d v (s ++ 0 ∷ pad) ≡ (
        if fits d v (first_part s)
        then some (d + length (first_part s), digits_value v (first_part s), from_dot s ++ 0 ∷ pad)
        else none))
      ⊎ ((d' : ℕ) × (v' : ℕ) × (c : ℕ) × (t : List ℕ) × (scan_digits d v (s ++ 0 ∷ pad)
            ≡ some (d', v', c ∷ t))
          × (c ≢ 46)
          × (c ≢ 0)
          × (fits d v (first_part s) ≡ false))
unfolding scan_digits
scan_digits-first_part pad [] d v nul hd hv = inl (rw (fits_nil d v hd hv) (ground arith))
scan_digits-first_part pad (c ∷ s) d v (ne, nul) hd hv = elim (Bool-cases (c == 46)) [
  | inl dot ↦ inl (rw (dot, fits_nil d v hd hv) (ground arith))
  | inr other ↦ elim (Bool-cases (is_digit c)) [
    | inr stop ↦ inr (
      d,
      v,
      c,
      s ++ 0 ∷ pad,
      rw (stop, scan_digits),
      ground arith,
      ne,
      rw other (fits_other d v c (first_part s) stop),
    )
    | inl digit ↦ elim (Bool-cases (ltb 3 (suc d) || ltb 255 (v * 10 + (c - 48)))) [
      | inl over ↦ inl (
          rw (
            other,
            digit,
            over,
            fits_digit d v c (first_part s) digit,
            fits_over (suc d) (v * 10 + (c - 48)) (first_part s) over,
          ))
      | inr within ↦
          elim (scan_digits-first_part pad s (suc d) (v * 10 + (c - 48)) nul (ground arith)
            (ground arith)) [
              | inl e ↦
                  let shifted : d + suc (length (first_part s)) ≡ suc d + length (first_part s) =
                    omega arith in
                  inl (rw (other, digit, within, fits_digit d v c (first_part s) digit, shifted) e)
              | inr (d', v', c', t, e, not_dot, not_nul, bad) ↦ inr (
                d',
                v',
                c',
                t,
                rw (digit, within) e,
                not_dot,
                not_nul,
                rw (other, fits_digit d v c (first_part s) digit) bad,
              )
            ]
    ]
  ]
]
