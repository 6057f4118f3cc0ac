-- ===== src/Backend/Slug/Shape.antt =====
-- The shape of a generated id: words of a-z and 0-9 joined by single dashes.
use irhub.Prelude.{
  ℕ, Bool, true, false, ◌&&◌, [], ◌∷◌, ◌==◌, if◌then◌else◌, Text, ◌≡◌, refl, ◌⊎◌, inl, inr, arith,
  Bool-cases, text, ap, ◌≢◌,
}
use irhub.Backend.Slug.{
  dash, is_word, lower, to_lower_case, is_space, trim_start, push_unless_space, trim_end, trim,
  dash_runs, drop_first_dash, drop_last_dash, slugify,
}

-- The rest of a slug; the flag asks for a word first, as at the front and behind a dash.
unfoldable pub is_words : Bool → Text → Bool
unfolding is_word
is_words true [] = false
is_words false [] = true
is_words true (c ∷ s) = is_word c && is_words false s
is_words false (c ∷ s) =
    let same = is_words false s in
    let fresh = c == dash && is_words true s in if is_word c then same else fresh

-- Empty, or words of a-z and 0-9 joined by single dashes.
abbrev pub IsSlug : Text → Type 0
IsSlug s = (s ≡ []) ⊎ (is_words true s ≡ true)

drop_last_dash-cons : (c : ℕ) (s : Text) → c ≢ dash → drop_last_dash (c ∷ s) ≡ c ∷ drop_last_dash s
unfolding drop_last_dash
drop_last_dash-cons c [] h = ground arith
drop_last_dash-cons c (d ∷ s) h = refl

is_word-ne-dash : (c : ℕ) → is_word c ≡ true → c ≢ dash
unfolding is_word
is_word-ne-dash c h = ground arith

-- What stands behind a word, and what stands behind a dash, after the last dash is dropped.
abbrev AfterWord : Text → Type 0
AfterWord s = is_words false (drop_last_dash (dash_runs false s)) ≡ true

abbrev AfterDash : Text → Type 0
AfterDash s = (dash_runs true s ≡ []) ⊎ (is_words true (drop_last_dash (dash_runs true s)) ≡ true)

word-cons :
    (c : ℕ) (s : Text)
    → is_word c ≡ true
    → AfterWord s
    → is_words true (drop_last_dash (c ∷ dash_runs false s)) ≡ true
unfolding is_words
word-cons c s w h =
    rw (drop_last_dash-cons c (dash_runs false s) (is_word-ne-dash c w)) (ground arith)

word-cons_false :
    (c : ℕ) (s : Text)
    → is_word c ≡ true
    → AfterWord s
    → is_words false (drop_last_dash (c ∷ dash_runs false s)) ≡ true
unfolding is_words
word-cons_false c s w h =
    rw (drop_last_dash-cons c (dash_runs false s) (is_word-ne-dash c w)) (ground arith)

dash-cons :
    (s : Text)
    → (s ≡ []) ⊎ (is_words true (drop_last_dash s) ≡ true)
    → is_words false (drop_last_dash (dash ∷ s)) ≡ true
unfolding is_words drop_last_dash
dash-cons [] h = refl
dash-cons (c ∷ s) h = ground arith

runs-shape : (s : Text) → AfterWord s × AfterDash s
unfolding dash_runs drop_last_dash is_words
runs-shape [] = (refl, inl refl)
runs-shape (c ∷ s) =
    let (word, behind) = runs-shape s in
    elim (Bool-cases (is_word c)) [
      | inl w ↦ (
        rw (w, dash_runs) (word-cons_false c s w word),
        inr (rw (w, dash_runs) (word-cons c s w word)),
      )
      | inr w ↦ (rw (w, dash_runs) (dash-cons (dash_runs true s) behind), rw (w, dash_runs) behind)
    ]

drop-word : (c : ℕ) (s : Text) → is_word c ≡ true → drop_first_dash (c ∷ s) ≡ c ∷ s
unfolding drop_first_dash
drop-word c s w = ground (arith, is_word-ne-dash c)

AfterDash-IsSlug : (s : Text) → AfterDash s → IsSlug (drop_last_dash (dash_runs true s))
unfolding drop_last_dash
AfterDash-IsSlug s (inl e) = rw e (inl refl)
AfterDash-IsSlug s (inr h) = inr h

drop-shape : (s : Text) → IsSlug (drop_last_dash (drop_first_dash (dash_runs false s)))
unfolding dash_runs drop_first_dash
drop-shape [] = inl (unfold drop_last_dash in refl)
drop-shape (c ∷ s) = elim (Bool-cases (is_word c)) [
  | inl w ↦
      rw (w, dash_runs)
        (rw (drop-word c (dash_runs false s) w) (inr (word-cons c s w (runs-shape s).0)))
  | inr w ↦ rw (w, dash_runs) (AfterDash-IsSlug s (runs-shape s).1)
]

-- For every name, the generated id is empty or words of a-z and 0-9 joined by single dashes.
pub slugify-IsSlug : (name : Text) → IsSlug (slugify name)
unfolding slugify
slugify-IsSlug name = drop-shape (trim (to_lower_case name))

-- On a slug every step of `slugify` changes nothing.
word_or_dash : (c : ℕ) → (is_word c ≡ true) ⊎ (c ≡ dash) → lower c ≡ c ∷ []
unfolding lower is_word
word_or_dash c h = ground arith

not_space : (c : ℕ) → (is_word c ≡ true) ⊎ (c ≡ dash) → is_space c ≡ false
unfolding is_space is_word
not_space c h = ground arith

words_cases :
    (b : Bool) (c : ℕ) (s : Text)
    → is_words b (c ∷ s) ≡ true
    → ((is_word c ≡ true) × (is_words false s ≡ true)) ⊎ ((c ≡ dash) × (is_words true s ≡ true))
unfolding is_words
words_cases true c s h = ground arith
words_cases false c s h = ground arith

-- A word or a dash at the front, and a shorter slug behind it.
words_head :
    (b : Bool) (c : ℕ) (s : Text)
    → is_words b (c ∷ s) ≡ true
    → ((is_word c ≡ true) ⊎ (c ≡ dash)) × (b' : Bool) × (is_words b' s ≡ true)
words_head b c s h = elim (words_cases b c s h) [
  | inl (w, r) ↦ (inl w, false, r)
  | inr (d, r) ↦ (inr d, true, r)
]

lower-words : (b : Bool) (s : Text) → is_words b s ≡ true → to_lower_case s ≡ s
unfolding to_lower_case
lower-words b [] h = refl
lower-words b (c ∷ s) h =
    let (kind, b', rest) = words_head b c s h in rw (word_or_dash c kind, lower-words b' s rest)

push-keep : (c : ℕ) (s : Text) → is_space c ≡ false → push_unless_space c s ≡ c ∷ s
push-keep c [] h = rw h
push-keep c (d ∷ s) h = refl

trim_end-words : (b : Bool) (s : Text) → is_words b s ≡ true → trim_end s ≡ s
unfolding trim_end
trim_end-words b [] h = refl
trim_end-words b (c ∷ s) h =
    let (kind, b', rest) = words_head b c s h in
    rw (trim_end-words b' s rest) (push-keep c s (not_space c kind))

trim_start-words : (b : Bool) (s : Text) → is_words b s ≡ true → trim_start s ≡ s
unfolding trim_start
trim_start-words b [] h = refl
trim_start-words b (c ∷ s) h = rw (not_space c (words_head b c s h).0)

dash_runs-words : (b : Bool) (s : Text) → is_words b s ≡ true → dash_runs b s ≡ s
unfolding dash_runs is_words
dash_runs-words b [] h = refl
dash_runs-words true (c ∷ s) h = ground (arith, dash_runs-words false s)
dash_runs-words false (c ∷ s) h = ground (arith, dash_runs-words false s, dash_runs-words true s)

drop_last_dash-words : (b : Bool) (s : Text) → is_words b s ≡ true → drop_last_dash s ≡ s
unfolding drop_last_dash
drop_last_dash-words b [] h = refl
drop_last_dash-words b (c ∷ []) h = elim (words_cases b c [] h) [
  | inl (w, r) ↦ ground (arith, is_word-ne-dash c)
  | inr (d, r) ↦ absurd (no_words r)
]
  where
    no_words : is_words true [] ≡ true → ⊥
    no_words e = unfold is_words in cc
drop_last_dash-words b (c ∷ d ∷ s) h =
    let (kind, b', rest) = words_head b c (d ∷ s) h in
    ap (c ∷◌) (drop_last_dash-words b' (d ∷ s) rest)

trim-words : (s : Text) → is_words true s ≡ true → trim s ≡ s
unfolding trim
trim-words s h = rw (trim_start-words true s h) (trim_end-words true s h)

first-words : (s : Text) → is_words true s ≡ true → drop_first_dash s ≡ s
unfolding is_words drop_first_dash
first-words [] h = refl
first-words (c ∷ s) h = ground (arith, is_word-ne-dash c)

words_weaken : (s : Text) → is_words true s ≡ true → is_words false s ≡ true
unfolding is_words
words_weaken [] h = refl
words_weaken (c ∷ s) h = ground arith

slugify-words : (s : Text) → is_words true s ≡ true → slugify s ≡ s
unfolding slugify
slugify-words s h =
    rw
      (
        lower-words true s h,
        trim-words s h,
        dash_runs-words false s (words_weaken s h),
        first-words s h,
      )
      (drop_last_dash-words true s h)

-- A text that has the shape of a generated id is its own id: posting a remote under its id as the
-- name finds the same remote again.
pub slugify_fixed : (s : Text) → IsSlug s → slugify s ≡ s
unfolding slugify to_lower_case
slugify_fixed s (inl e) = rw e refl
slugify_fixed s (inr h) = slugify-words s h

-- Making an id of an id changes nothing, whatever the name was.
pub slugify_idempotent : (name : Text) → slugify (slugify name) ≡ slugify name
slugify_idempotent name = slugify_fixed (slugify name) (slugify-IsSlug name)

slugify_bedroom : slugify (text "  Bedroom AC (2) ") ≡ text "bedroom-ac-2"
unfolding slugify
slugify_bedroom = refl
