-- ===== src/Frontend/Selects.antt =====
-- The drop-down lists of the two automation modals in `frontend/app.js`, and `String(v)`.
use irhub.Prelude.{
  List, [], ◌∷◌, Option, none, some, Text, text_eq, Bool, true, false, any, map, find,
  if◌then◌else◌,
}
use irhub.Js.{Value, str, strict_eq}
use irhub.Backend.State.{Button, Remote, Routine}

-- `String(v)`; of anything but a string it is an argument.
abbrev pub string_of : (Value → Text) → Value → Text
string_of stringify (str s) = s
string_of stringify v = stringify v

-- `!s`, of a text, and `a.length === 0`, of an array.
abbrev pub is_empty {ℓ} : {A : Type ℓ} → List A → Bool
is_empty [] = true
is_empty (x ∷ xs) = false

-- The values of the options, and the value of the list: that of the option that is chosen.
pub record Select : Type 0 where
  pub options : List Text
  pub value : Text

abbrev first_option : List Text → Text
first_option [] = []
first_option (v ∷ vs) = v

-- A list that was emptied and given options: the first is chosen.
abbrev pub filled : List Text → Select
filled options = record { options = options; value = first_option options }

-- `select.value = v`: without such an option none is chosen.
unfoldable pub choose : Text → Select → Select
unfolding text_eq
choose v s = record s { value = if any (λ o. text_eq o v) s.options then v else [] }

module _ (stringify : Value → Text) where
  -- `populateRemoteSelect(select)`
  unfoldable pub populate_remote_select : List Remote → Select
  populate_remote_select remotes = filled (map (λ (r : Remote). string_of stringify r.id) remotes)

  abbrev pub buttons_of : Option Remote → List Text
  buttons_of none = []
  buttons_of (some r) = map (λ (b : Button). string_of stringify b.id) r.buttons

  -- `populateButtonSelect(select, remoteId)`
  unfoldable pub populate_button_select : List Remote → Value → Select
  populate_button_select remotes remote_id =
      filled (buttons_of (find (λ (r : Remote). strict_eq r.id remote_id) remotes))

  -- `populateRoutineSelect(select)`
  unfoldable pub populate_routine_select : List Routine → Select
  populate_routine_select routines =
      filled (map (λ (r : Routine). string_of stringify r.id) routines)
