-- ===== src/Firmware/NetConfig/Agrees.antt =====
-- `parse_ipv4` of the firmware and the address check of the setup page accept the same texts.
use irhub.Prelude.{
  ℕ, not, List, [], ◌∷◌, ◌++◌, map, none, some, ◌==◌, if◌then◌else◌, all, any, All, ◌≡◌, ◌≢◌, refl,
  arith, inl, inr, Bool-cases, Text,
}
use irhub.Frontend.Setup.Encoding.{digits_value, split}
use irhub.Frontend.Setup.Form.{is_ipv4}
use irhub.Firmware.NetConfig.{parse_ipv4}
use irhub.Firmware.NetConfig.Parts.{scan_parts-split}

all_zero-map :
    (parts : List Text)
    → all (λ v. v == 0) (map (digits_value 0) parts)
      ≡ not (any (λ o. not (digits_value 0 o == 0)) parts)
all_zero-map [] = refl
all_zero-map (o ∷ parts) = elim (Bool-cases (digits_value 0 o == 0)) [
  | inl z ↦ rw (z, all_zero-map parts) refl
  | inr nz ↦ rw nz refl
]

module _ (pad : List ℕ) (s : Text) (nul : All (λ c. c ≢ 0) s) where
  -- For a text without a NUL, in a buffer behind which anything may follow, the firmware's
  -- `parse_ipv4` succeeds exactly when the page's `ipv4` test does, and its four bytes are then the
  -- values of the parts between the dots.
  pub parse_ipv4-is_ipv4 :
      parse_ipv4 (s ++ 0 ∷ pad)
      ≡ (if is_ipv4 s then some (map (digits_value 0) (split 46 s)) else none)
  unfolding parse_ipv4 is_ipv4
  parse_ipv4-is_ipv4 = elim (scan_parts-split pad 3 s nul) [
    | inl (good, e) ↦ rw (e, all_zero-map (split 46 s)) (ground arith)
    | inr (bad, inl e) ↦ rw e (ground arith)
    | inr (bad, inr (vs, c, t, e, ne)) ↦ rw e (ground arith)
  ]
