-- ===== src/Frontend/Remotes/Toolbar.antt =====
-- The controls above the grid of `frontend/app.js`, which act on the remote that is shown: the
-- buttons that add a button and delete the remote, and the input of its name.
pub mod Blur
use irhub.Prelude.{
  ℕ, Bool, List, [], ◌∷◌, Option, none, some, Text, find, text_eq, not, if◌then◌else◌,
}
use irhub.Js.{Value, strict_eq}
use irhub.Backend.Slug.{trim}
use irhub.Backend.State.{Remote}
use irhub.Frontend.Remotes.{Answer, Ui, add_button, remove_remote, rename_remote, rename_body}

-- `state.remotes.find((r) => r.id === state.activeRemoteId)`
unfoldable pub active_object : Ui → Option ℕ
active_object ui = find (λ i. strict_eq (ui.object i).id ui.active_remote_id) ui.remotes

abbrev pub on_active : (ℕ → Ui → Ui) → Option ℕ → Ui → Ui
on_active act none ui = ui
on_active act (some i) ui = act i ui

-- `addButtonBtn.onclick` and `deleteRemoteBtn.onclick`
unfoldable pub on_add_button : Text → Answer Remote → Ui → Ui
unfolding active_object
on_add_button label answer ui = on_active (λ i. add_button i label answer) (active_object ui) ui

unfoldable pub on_delete_remote : Bool → Answer (Unit {0}) → Ui → Ui
unfolding active_object
on_delete_remote confirmed answer ui =
    on_active (λ i. remove_remote i confirmed answer) (active_object ui) ui

-- The name that leaving the input posts: none if the input is blank, or holds the name as it is.
abbrev pub unless_blank : Text → Text → Option Text
unless_blank value [] = none
unless_blank value (c ∷ name) = some (c ∷ name)

unfoldable pub blurred_name : Text → Text → Option Text
unfolding text_eq
blurred_name value name = if text_eq value name then none else unless_blank value (trim value)

abbrev pub blurred : Option ℕ → Text → Ui → Option (ℕ × Text)
blurred none value ui = none
blurred (some i) value ui = elim (blurred_name value (ui.object i).name) [
  | none ↦ none
  | some name ↦ some (i, name)
]

-- The body that leaving the input posts, if it posts one.
unfoldable pub blur_request : Text → Ui → Option Value
unfolding active_object blurred_name
blur_request value ui = elim (blurred (active_object ui) value ui) [
  | none ↦ none
  | some (i, name) ↦ some (rename_body (ui.object i) name)
]

-- The listener of `blur` on the input, with the answer of the request.
unfoldable pub on_name_blur : Text → Answer Remote → Ui → Ui
unfolding active_object blurred_name
on_name_blur value answer ui = elim (blurred (active_object ui) value ui) [
  | none ↦ ui
  | some (i, name) ↦ rename_remote i answer ui
]
