-- ===== src/Firmware/NetConfig/Parts.antt =====
-- The loop over the parts of an address, against the parts that `split` finds.
use irhub.Prelude.{
  ℕ, zero, suc, ◌+◌, true, false, ◌&&◌, List, [], ◌∷◌, ◌++◌, map, Option, none, some, ◌==◌,
  if◌then◌else◌, length, all, All, ◌≡◌, ◌≢◌, refl, ◌∙◌, ap, arith, ◌⊎◌, inl, inr, Bool-cases, Text,
}
use irhub.Frontend.Setup.Encoding.{digits_value, split}
use irhub.Frontend.Setup.Form.{is_octet}
use irhub.Firmware.NetConfig.{scanned_part, with_value, after_part, scan_parts}
use irhub.Firmware.NetConfig.Digits.{first_part, from_dot, fits, scan_digits-first_part}

-- The parts behind the first, given what `from_dot` leaves.
abbrev pub further : Text → List Text
further [] = []
further (c ∷ t) = split 46 t

pub split-first_part : (s : Text) → split 46 s ≡ first_part s ∷ further (from_dot s)
unfolding split
split-first_part [] = refl
split-first_part (c ∷ s) = elim (Bool-cases (c == 46)) [
  | inl dot ↦ rw dot
  | inr other ↦ rw (other, split-first_part s)
]

-- What is left is nothing or starts with a dot.
from_dot-cases :
    (s : Text)
    → All (λ c. c ≢ 0) s
    → (from_dot s ≡ []) ⊎ ((t : Text) × (from_dot s ≡ 46 ∷ t) × All (λ c. c ≢ 0) t)
from_dot-cases [] nul = inl refl
from_dot-cases (c ∷ s) (ne, nul) = elim (Bool-cases (c == 46)) [
  | inl dot ↦ let e : c ≡ 46 = ground arith in inr (s, rw (dot, e), nul)
  | inr other ↦ rw other (from_dot-cases s nul)
]

-- A scan that `parse_ipv4` refuses whatever parts came before.
abbrev pub Refuses : Option (List ℕ × List ℕ) → Type 0
Refuses r = (r ≡ none) ⊎ ((vs : List ℕ) × (c : ℕ) × (t : List ℕ) × (r ≡ some (vs, c ∷ t)) × (c ≢ 0))

-- Either the parts are n octets and the scan ends at the NUL with their values, or it is refused.
abbrev pub Scans : List ℕ → ℕ → List Text → Option (List ℕ × List ℕ) → Type 0
Scans pad n parts r =
    (((length parts == n) && all is_octet parts) ≡ true
      × (r ≡ some (map (digits_value 0) parts, 0 ∷ pad)))
    ⊎ (((length parts == n) && all is_octet parts) ≡ false × Refuses r)

scanned-octet :
    (o : Text) (rest : List ℕ)
    → is_octet o ≡ true
    → scanned_part (if fits 0 0 o then some (0 + length o, digits_value 0 o, rest) else none)
      ≡ some (digits_value 0 o, rest)
unfolding fits
scanned-octet o rest h = ground arith

scanned_refused :
    (o : Text) (rest : List ℕ)
    → is_octet o ≡ false
    → scanned_part (if fits 0 0 o then some (0 + length o, digits_value 0 o, rest) else none) ≡ none
unfolding fits
scanned_refused o rest h = ground arith

fits-octet : (o : Text) → fits 0 0 o ≡ false → is_octet o ≡ false
unfolding fits
fits-octet o h = ground arith

-- A scan that stops before another character than a dot or the NUL is refused.
stopped_refused :
    (n d v c : ℕ) (t : List ℕ)
    → c ≢ 46
    → c ≢ 0
    → Refuses (after_part (scanned_part (some (d, v, c ∷ t))) (λ u. scan_parts n true u))
unfolding scan_parts
stopped_refused n d v c t not_dot not_nul = elim (Bool-cases (d == 0)) [
  | inl none_read ↦ inl (rw none_read refl)
  | inr some_read ↦ stops n some_read
]
  where
    stops :
        (m : ℕ)
        → d == 0 ≡ false
        → Refuses (after_part (scanned_part (some (d, v, c ∷ t))) (λ u. scan_parts m true u))
    stops zero e = inr (v ∷ [], c, t, rw e refl, not_nul)
    stops (suc m) e = let other : c == 46 ≡ false = ground arith in inl (rw (e, other) refl)

good_parts-cons :
    (n : ℕ) (o : Text) (parts : List Text)
    → is_octet o ≡ true
    → ((length (o ∷ parts) == suc n) && all is_octet (o ∷ parts))
      ≡ ((length parts == n) && all is_octet parts)
good_parts-cons n o parts octet =
    let shorter : (suc (length parts) == suc n) ≡ (length parts == n) = ground arith in
    rw (octet, shorter) refl

with_value-Scans :
    (pad : List ℕ) (n : ℕ) (o : Text) (parts : List Text) (r : Option (List ℕ × List ℕ))
    → is_octet o ≡ true
    → Scans pad n parts r
    → Scans pad (suc n) (o ∷ parts) (with_value (digits_value 0 o) r)
with_value-Scans pad n o parts r octet (inl (good, e)) =
    inl (good_parts-cons n o parts octet ∙ good, ap (with_value (digits_value 0 o)) e)
with_value-Scans pad n o parts r octet (inr (bad, inl e)) =
    inr (good_parts-cons n o parts octet ∙ bad, inl (ap (with_value (digits_value 0 o)) e))
with_value-Scans pad n o parts r octet (inr (bad, inr (vs, c, t, e, ne))) = inr (
  good_parts-cons n o parts octet ∙ bad,
  inr (digits_value 0 o ∷ vs, c, t, ap (with_value (digits_value 0 o)) e, ne),
)

bad_first-Scans :
    (pad : List ℕ) (n : ℕ) (o : Text) (parts : List Text) (r : Option (List ℕ × List ℕ))
    → is_octet o ≡ false
    → Refuses r
    → Scans pad n (o ∷ parts) r
bad_first-Scans pad n o parts r bad refused = inr (rw bad (ground arith), refused)

module _ (pad : List ℕ) where
  -- The loop with n parts to go behind a first, given the loop without a dot for fewer parts.
  scan_parts-further :
      (n : ℕ) (s : Text)
      → All (λ c. c ≢ 0) s
      → ((m : ℕ)
          → n ≡ suc m
          → (t : Text) → All (λ c. c ≢ 0) t
          → Scans pad (suc m) (split 46 t) (scan_parts (suc m) false (t ++ 0 ∷ pad)))
      → Scans pad n (further (from_dot s)) (scan_parts n true (from_dot s ++ 0 ∷ pad))
  unfolding scan_parts
  scan_parts-further n s nul ih = elim (from_dot-cases s nul) [
    | inl at_end ↦ rw at_end (ends n)
    | inr (t, at_dot, nul_t) ↦ rw at_dot (goes_on n t nul_t ih)
  ]
    where
      ends : (m : ℕ) → Scans pad m [] (scan_parts m true (0 ∷ pad))
      ends zero = inl (refl, refl)
      ends (suc m) = inr (ground arith, inl refl)

      goes_on :
          (m : ℕ) (t : Text)
          → All (λ c. c ≢ 0) t
          → ((k : ℕ)
              → m ≡ suc k
              → (u : Text) → All (λ c. c ≢ 0) u
              → Scans pad (suc k) (split 46 u) (scan_parts (suc k) false (u ++ 0 ∷ pad)))
          → Scans pad m (split 46 t) (scan_parts m true (46 ∷ t ++ 0 ∷ pad))
      goes_on zero t nul_t ih' =
          inr (rw split-first_part (ground arith), inr ([], 46, t ++ 0 ∷ pad, refl, omega arith))
      goes_on (suc m) t nul_t ih' = ih' m refl t nul_t

  -- The first part, given what the parts behind it come to.
  first_part-Scans :
      (n : ℕ) (s : Text)
      → All (λ c. c ≢ 0) s
      → Scans pad n (further (from_dot s)) (scan_parts n true (from_dot s ++ 0 ∷ pad))
      → Scans pad (suc n) (split 46 s) (scan_parts (suc n) false (s ++ 0 ∷ pad))
  unfolding scan_parts
  first_part-Scans n s nul behind =
      elim (scan_digits-first_part pad s 0 0 nul (omega arith) (omega arith)) [
        | inl e ↦ elim (Bool-cases (is_octet (first_part s))) [
          | inl octet ↦
              rw (split-first_part s, e, scanned-octet (first_part s) (from_dot s ++ 0 ∷ pad) octet)
                (with_value-Scans pad n (first_part s) (further (from_dot s)) _ octet behind)
          | inr bad ↦
              rw (split-first_part s, e, scanned_refused (first_part s) (from_dot s ++ 0 ∷ pad) bad)
                (bad_first-Scans pad (suc n) (first_part s) (further (from_dot s)) _ bad (inl refl))
        ]
        | inr (d, v, c, t, e, not_dot, not_nul, unfit) ↦
            rw (split-first_part s, e)
              (bad_first-Scans pad (suc n) (first_part s) (further (from_dot s)) _
                (fits-octet (first_part s) unfit) (stopped_refused n d v c t not_dot not_nul))
      ]

  -- The loop over n + 1 parts against the parts that `split` finds.
  pub scan_parts-split :
      (n : ℕ) (s : Text)
      → All (λ c. c ≢ 0) s
      → Scans pad (suc n) (split 46 s) (scan_parts (suc n) false (s ++ 0 ∷ pad))
  scan_parts-split zero s nul =
      first_part-Scans zero s nul (scan_parts-further zero s nul (λ m e. absurd (omega arith)))
  scan_parts-split (suc n) s nul = first_part-Scans (suc n) s nul (
      scan_parts-further (suc n) s nul
        (λ m e t h. let same : m ≡ n = omega arith in rw same (scan_parts-split n t h)))
