-- ===== src/Firmware/Provision/Hosts.antt =====
-- A broker address that the setup page accepts: digits and dots, short, and its own encoding.
use irhub.Prelude.{
  ℕ, suc, ◌+◌, ◌*◌, ◌≤◌, ◌<◌, true, ◌&&◌, List, [], ◌∷◌, length, all, All, ◌≡◌, ◌≢◌, refl, sym, ◌∙◌,
  ap, none, inl, inr, Bool-cases, Text, arith, ◌==◌,
}
use irhub.Frontend.Setup.Encoding.{is_digit, split, utf8_from, encode}
use irhub.Frontend.Setup.Form.{is_octet, is_ipv4}
use irhub.Firmware.NetConfig.Digits.{first_part, from_dot}
use irhub.Firmware.NetConfig.Parts.{further, split-first_part}

abbrev IsPlain : ℕ → Type 0
IsPlain c = (c ≢ 0) × (c < 128)

utf8_plain : (c : ℕ) (s : Text) → IsPlain c → utf8_from none (c ∷ s) ≡ c ∷ utf8_from none s
unfolding utf8_from
utf8_plain c s h = ground arith

encode_plain : (s : Text) → All IsPlain s → encode s ≡ s
unfolding utf8_from
encode_plain [] h = refl
encode_plain (c ∷ s) (plain, h) = utf8_plain c s plain ∙ ap (λ bytes. c ∷ bytes) (encode_plain s h)

octets_digits :
    (parts : List Text) → all is_octet parts ≡ true → all (λ o. all is_digit o) parts ≡ true
octets_digits [] h = refl
octets_digits (o ∷ parts) h = ground (arith, octets_digits parts)

split-IsPlain : (s : Text) → all (λ o. all is_digit o) (split 46 s) ≡ true → All IsPlain s
unfolding split
split-IsPlain [] h = tt
split-IsPlain (c ∷ s) h = elim (Bool-cases (c == 46)) [
  | inl dot ↦ ((ground arith, ground arith), split-IsPlain s (rw dot at h))
  | inr other ↦
      let h' : (is_digit c && all is_digit (first_part s))
            && all (λ o. all is_digit o) (further (from_dot s))
          ≡ true =
        rw (other, split-first_part s) at h in
      ((ground arith, ground arith), split-IsPlain s (rw (split-first_part s) (ground arith)))
]

-- What the parts take up, with a dot behind each.
abbrev widths : List Text → ℕ
widths [] = 0
widths (o ∷ parts) = suc (length o) + widths parts

widths-split : (s : Text) → widths (split 46 s) ≡ suc (length s)
unfolding split
widths-split [] = refl
widths-split (c ∷ s) = elim (Bool-cases (c == 46)) [
  | inl dot ↦ rw dot (omega (arith, widths-split s))
  | inr other ↦
      let e : widths (first_part s ∷ further (from_dot s)) ≡ suc (length s) =
        ap widths (sym (split-first_part s)) ∙ widths-split s in
      rw (other, split-first_part s) (omega arith)
]

octets-widths : (parts : List Text) → all is_octet parts ≡ true → widths parts ≤ 4 * length parts
octets-widths [] h = omega arith
octets-widths (o ∷ parts) h = ground (arith, octets-widths parts)

pub is_ipv4_octets :
    (s : Text) → is_ipv4 s ≡ true → (length (split 46 s) ≡ 4) × (all is_octet (split 46 s) ≡ true)
unfolding is_ipv4
is_ipv4_octets s h = (ground arith, ground arith)

is_ipv4_nonempty : (s : Text) → is_ipv4 s ≡ true → 1 ≤ length s
unfolding is_ipv4
is_ipv4_nonempty [] h = ground arith
is_ipv4_nonempty (c ∷ s) h = omega arith

-- The facts that the hub needs of an address.
pub is_ipv4-encode :
    (s : Text)
    → is_ipv4 s ≡ true
    → (encode s ≡ s) × All (λ c. c ≢ 0) s × (1 ≤ length s) × (length s ≤ 15)
is_ipv4-encode s h =
    let (four, octets) = is_ipv4_octets s h in
    let plain : All IsPlain s = split-IsPlain s (octets_digits (split 46 s) octets) in
    (
      encode_plain s plain,
      no_nul s plain,
      is_ipv4_nonempty s h,
      omega (arith, widths-split s, octets-widths (split 46 s) octets),
    )
  where
    no_nul : (t : Text) → All IsPlain t → All (λ c. c ≢ 0) t
    no_nul [] p = tt
    no_nul (c ∷ t) ((ne, low), p) = (ne, no_nul t p)
