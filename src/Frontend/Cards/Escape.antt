-- ===== src/Frontend/Cards/Escape.antt =====
-- What `escapeHtml` puts into a page shows as the text that it was given.
use irhub.Prelude.{
  ℕ, zero, suc, Bool, true, false, ◌||◌, List, [], ◌∷◌, ◌++◌, append_assoc, Option, none, some,
  Text, text, text_eq, length, take, ◌==◌, if◌then◌else◌, ◌≡◌, refl, sym, ◌∙◌, ap, if_false, arith,
  All, All-append, Bool-cases, inl, inr, ==_iff,
}
use irhub.Frontend.Cards.{escape_char, escape_html}

abbrev entities : List (Text × ℕ)
entities =
    (text "amp;", b'&')
    ∷ (text "lt;", b'<')
    ∷ (text "gt;", b'>')
    ∷ (text "quot;", b'"')
    ∷ (text "#39;", b'\'')
    ∷ []

-- The character whose reference goes on like this behind the `&`, and the length of that.
abbrev reference_in : List (Text × ℕ) → Text → Option (ℕ × ℕ)
reference_in [] s = none
reference_in ((name, c) ∷ more) s =
    if text_eq (take (length name) s) name then some (c, length name) else reference_in more s

abbrev shown : Option (ℕ × ℕ) → (ℕ → Text) → Text
shown none rest = b'&' ∷ rest 0
shown (some (c, n)) rest = c ∷ rest n

-- How a browser reads a text with these five character references, the first n characters skipped.
unfoldable pub unescape : ℕ → Text → Text
unescape n [] = []
unescape (suc n) (c ∷ s) = unescape n s
unescape zero (c ∷ s) =
    if c == b'&' then shown (reference_in entities s) (λ n. unescape n s) else c ∷ unescape zero s

is_char : (c k : ℕ) (s : Text) → c == k ≡ true → k ∷ s ≡ c ∷ s
is_char c k s e = ap (λ (x : ℕ). x ∷ s) (sym ((==_iff c k).0 e))

unescape-escape_char : (c : ℕ) (s : Text) → unescape 0 (escape_char c ++ s) ≡ c ∷ unescape 0 s
unfolding unescape escape_char text_eq
unescape-escape_char c s = elim (Bool-cases (c == b'&')) [
  | inl e ↦ rw e (is_char c b'&' (unescape 0 s) e)
  | inr amp ↦ elim (Bool-cases (c == b'<')) [
    | inl e ↦ rw (amp, e) (is_char c b'<' (unescape 0 s) e)
    | inr lt ↦ elim (Bool-cases (c == b'>')) [
      | inl e ↦ rw (amp, lt, e) (is_char c b'>' (unescape 0 s) e)
      | inr gt ↦ elim (Bool-cases (c == b'"')) [
        | inl e ↦ rw (amp, lt, gt, e) (is_char c b'"' (unescape 0 s) e)
        | inr quot ↦ elim (Bool-cases (c == b'\'')) [
          | inl e ↦ rw (amp, lt, gt, quot, e) (is_char c b'\'' (unescape 0 s) e)
          | inr apos ↦ rw (amp, lt, gt, quot, apos) (if_false _ _ amp)
        ]
      ]
    ]
  ]
]

-- A character that can open a tag or end an attribute.
abbrev pub is_markup : ℕ → Bool
is_markup c = c == b'<' || c == b'>' || c == b'"' || c == b'\''

escape_char-inert : (c : ℕ) → All (λ d. is_markup d ≡ false) (escape_char c)
unfolding escape_char
escape_char-inert c = elim (Bool-cases (c == b'&')) [
  | inl e ↦ rw e (ground arith)
  | inr amp ↦ elim (Bool-cases (c == b'<')) [
    | inl e ↦ rw (amp, e) (ground arith)
    | inr lt ↦ elim (Bool-cases (c == b'>')) [
      | inl e ↦ rw (amp, lt, e) (ground arith)
      | inr gt ↦ elim (Bool-cases (c == b'"')) [
        | inl e ↦ rw (amp, lt, gt, e) (ground arith)
        | inr quot ↦ elim (Bool-cases (c == b'\'')) [
          | inl e ↦ rw (amp, lt, gt, quot, e) (ground arith)
          | inr apos ↦ rw (amp, lt, gt, quot, apos) (ground arith)
        ]
      ]
    ]
  ]
]

-- What `escapeHtml` makes of any text holds no character that opens a tag or ends an attribute, and
-- wherever it stands, a browser that resolves the five character references shows exactly the text.
pub unescape-escape_html :
    (s rest : Text)
    → (unescape 0 (escape_html s ++ rest) ≡ s ++ unescape 0 rest)
      × All (λ c. is_markup c ≡ false) (escape_html s)
unfolding escape_html
unescape-escape_html [] rest = (refl, tt)
unescape-escape_html (c ∷ s) rest =
    let (reads, inert) = unescape-escape_html s rest in
    (
      ap (unescape 0) (append_assoc (escape_char c) (escape_html s) rest)
          ∙ unescape-escape_char c (escape_html s ++ rest)
          ∙ ap (λ t. c ∷ t) reads,
      All-append (λ d. is_markup d ≡ false) (escape_char c) (escape_html s) (escape_char-inert c)
          inert,
    )
