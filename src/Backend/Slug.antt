-- ===== src/Backend/Slug.antt =====
-- The id that `POST /api/remotes` makes of a name (`backend/server.js`):
-- `name.toLowerCase().trim().replace(/[^a-z0-9]+/g, '-').replace(/(^-|-$)/g, '')`.
pub mod Shape
use irhub.Prelude.{
  ℕ, ◌+◌, Bool, true, false, ◌&&◌, ◌||◌, List, [], ◌∷◌, ◌++◌, leb, ◌==◌, if◌then◌else◌, Text,
}

abbrev pub dash : ℕ
dash = 45

-- `[a-z0-9]`
unfoldable pub is_word : ℕ → Bool
is_word c = (leb 97 c && leb c 122) || (leb 48 c && leb c 57)

-- What `toLowerCase` makes of a code unit, as far as the rest of the expression can tell: the
-- capitals A to Z, and the two other characters whose lower case holds an ASCII letter, U+0130
-- and U+212A. Any other code unit and its lower case lie outside `[a-z0-9]` alike, and outside
-- the ASCII letters.
unfoldable pub lower : ℕ → Text
lower c =
    if leb 65 c && leb c 90
    then (c + 32) ∷ []
    else if c == 0x130
    then 105 ∷ 0x307 ∷ []
    else if c == 0x212a
    then 107 ∷ []
    else c ∷ []

unfoldable pub to_lower_case : Text → Text
unfolding lower
to_lower_case [] = []
to_lower_case (c ∷ s) = lower c ++ to_lower_case s

-- White space and line terminators, as `trim` knows them.
unfoldable pub is_space : ℕ → Bool
is_space c =
    (leb 9 c && leb c 13)
    || c == 32
    || c == 0xa0
    || c == 0x1680
    || (leb 0x2000 c && leb c 0x200a)
    || c == 0x2028
    || c == 0x2029
    || c == 0x202f
    || c == 0x205f
    || c == 0x3000
    || c == 0xfeff

unfoldable pub trim_start : Text → Text
unfolding is_space
trim_start [] = []
trim_start (c ∷ s) = if is_space c then trim_start s else c ∷ s

-- A code unit of white space goes when nothing but white space follows.
abbrev push_unless_space : ℕ → Text → Text
push_unless_space c [] = if is_space c then [] else c ∷ []
push_unless_space c (d ∷ s) = c ∷ d ∷ s

unfoldable pub trim_end : Text → Text
unfolding is_space
trim_end [] = []
trim_end (c ∷ s) = push_unless_space c (trim_end s)

unfoldable pub trim : Text → Text
unfolding trim_start trim_end
trim s = trim_end (trim_start s)

-- `replace(/[^a-z0-9]+/g, '-')`; the flag is set inside a run that has its dash already.
unfoldable pub dash_runs : Bool → Text → Text
unfolding is_word
dash_runs in_run [] = []
dash_runs in_run (c ∷ s) =
    let kept = c ∷ dash_runs false s in
    let skipped = dash_runs true s in
    if is_word c then kept else if in_run then skipped else dash ∷ skipped

-- `replace(/(^-|-$)/g, '')`, at the front and then at the end.
unfoldable pub drop_first_dash : Text → Text
drop_first_dash [] = []
drop_first_dash (c ∷ s) = if c == dash then s else c ∷ s

unfoldable pub drop_last_dash : Text → Text
drop_last_dash [] = []
drop_last_dash (c ∷ []) = if c == dash then [] else c ∷ []
drop_last_dash (c ∷ d ∷ s) = c ∷ drop_last_dash (d ∷ s)

unfoldable pub slugify : Text → Text
unfolding to_lower_case trim dash_runs drop_first_dash drop_last_dash
slugify name = drop_last_dash (drop_first_dash (dash_runs false (trim (to_lower_case name))))
