-- ===== src/Frontend/Setup/Encoding.antt =====
-- `TextEncoder`, `split`, and decimal digits, as the setup page uses them.
use irhub.Prelude.{
  ℕ, ◌+◌, ◌-◌, ◌*◌, ◌/◌, ◌%◌, Bool, true, false, ◌&&◌, List, [], ◌∷◌, ◌++◌, Option, none, some,
  Text, leb, ltb, ◌==◌, if◌then◌else◌, length,
}

-- The UTF-8 bytes of a code point.
abbrev pub utf8_of : ℕ → List ℕ
utf8_of c =
    if ltb c 0x80
    then c ∷ []
    else if ltb c 0x800
    then (0xc0 + c / 64) ∷ (0x80 + c % 64) ∷ []
    else if ltb c 0x10000
    then (0xe0 + c / 4096) ∷ (0x80 + c / 64 % 64) ∷ (0x80 + c % 64) ∷ []
    else (0xf0 + c / 262144) ∷ (0x80 + c / 4096 % 64) ∷ (0x80 + c / 64 % 64) ∷ (0x80 + c % 64) ∷ []

abbrev pub is_high : ℕ → Bool
is_high c = leb 0xd800 c && leb c 0xdbff

abbrev pub is_low : ℕ → Bool
is_low c = leb 0xdc00 c && leb c 0xdfff

-- U+FFFD, for a surrogate that stands alone.
abbrev pub replacement : List ℕ
replacement = 0xef ∷ 0xbf ∷ 0xbd ∷ []

-- The bytes of a text, behind a high surrogate that waits for its low one, or behind none.
unfoldable pub utf8_from : Option ℕ → Text → List ℕ
utf8_from none [] = []
utf8_from (some h) [] = replacement
utf8_from none (c ∷ s) = elim (is_high c) [
  | true ↦ utf8_from (some c) s
  | false ↦ (if is_low c then replacement else utf8_of c) ++ utf8_from none s
]
utf8_from (some h) (c ∷ s) = elim (is_low c) [
  | true ↦ utf8_of (0x10000 + (h - 0xd800) * 1024 + (c - 0xdc00)) ++ utf8_from none s
  | false ↦ elim (is_high c) [
    | true ↦ replacement ++ utf8_from (some c) s
    | false ↦ replacement ++ utf8_of c ++ utf8_from none s
  ]
]

-- `new TextEncoder().encode(s)`
abbrev pub encode : Text → List ℕ
encode s = utf8_from none s

-- `byteLength(s)`
unfoldable pub byte_length : Text → ℕ
byte_length s = length (encode s)

abbrev pub onto_first : ℕ → List Text → List Text
onto_first c [] = (c ∷ []) ∷ []
onto_first c (part ∷ parts) = (c ∷ part) ∷ parts

-- `s.split(separator)` for a separator of one code unit.
unfoldable pub split : ℕ → Text → List Text
split d [] = [] ∷ []
split d (c ∷ s) = let parts = split d s in if c == d then [] ∷ parts else onto_first c parts

abbrev pub is_digit : ℕ → Bool
is_digit c = leb 48 c && leb c 57

-- `Number(s)` for a text of digits, read on from a value.
abbrev pub digits_value : ℕ → Text → ℕ
digits_value v [] = v
digits_value v (c ∷ s) = digits_value (v * 10 + (c - 48)) s
