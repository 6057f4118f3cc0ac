-- ===== src/Frontend/Remotes.antt =====
-- Remotes on the page of `frontend/app.js`: the actions on them, the modal that edits a button, and
-- learn mode as the page sees it. What the backend answers is an argument.
pub mod Add
pub mod Delete
pub mod Learn
pub mod Mirror
pub mod Objects
pub mod Relabel
pub mod Signal
pub mod Toolbar
use irhub.Prelude.{
  ℕ, suc, ◌/◌, ◌%◌, Bool, true, false, List, [], ◌∷◌, ◌++◌, map, Option, none, some, Text, text,
  if◌then◌else◌, ◌==◌, find, reject, update_first, length,
}
use irhub.Js.{
  Value, null, str, num, arr, obj, Items, nil, cons, end, prop, of_ℕ, truthy, strict_eq, field,
  is_nullish,
}
use irhub.Backend.Slug.{trim}
use irhub.Backend.State.{Button, Remote}
use irhub.Backend.Remotes.Normal.{button_json, buttons_json}
use irhub.Backend.Remotes.Roundtrip.{request_json, remote_json}

-- What an `api` call comes to: its data, or the message of the error that it throws.
pub data Answer {ℓ} (A : Type ℓ) : Type ℓ where
  answered : A → Answer A
  failed : Text → Answer A

-- The messages of `toast`, as far as the actions differ in them.
pub data Toast : Type 0 where
  problem : (message : Text) → Toast
  sent : (label : Value) → Toast
  point_remote : Toast
  learn_failed : (error : Value) → Toast
  clipped learned : (label : Value) → Toast

-- The page. `drawn` are the remotes as `renderAll` drew them last. A remote is an object that handlers hold on to: `object` is what each of them holds now,
-- `remotes` are the ones in `state.remotes`, in order. The modal knows its remote and its button.
pub record Ui : Type 0 where
  pub object : ℕ → Remote
  pub next_object : ℕ
  pub remotes : List ℕ
  pub active_remote_id : Value
  pub learning : Bool
  pub modal : Option (ℕ × Button)
  pub toasts : List Toast
  pub drawn : List Remote

abbrev pub show : Toast → Ui → Ui
show t ui = record ui { toasts = ui.toasts ++ t ∷ [] }

-- `renderAll()`, as far as it draws the remotes.
abbrev pub draw_all : Ui → Ui
draw_all ui = record ui { drawn = map ui.object ui.remotes }

-- `Object.assign(remote, saved)`, and other changes of one object.
abbrev pub change : ℕ → (Remote → Remote) → (ℕ → Remote) → ℕ → Remote
change i f object j = if j == i then f (object j) else object j

abbrev pub assign_saved : ℕ → Answer Remote → Ui → Ui
assign_saved i (answered saved) ui = record ui { object = change i (λ _. saved) ui.object }
assign_saved i (failed message) ui = show (problem message) ui

abbrev pub assign_drawn : ℕ → Answer Remote → Ui → Ui
assign_drawn i (answered saved) ui = draw_all (assign_saved i (answered saved) ui)
assign_drawn i (failed message) ui = show (problem message) ui

abbrev pub added : Answer Remote → Ui → Ui
added (answered remote) ui = draw_all (record ui {
  object = change ui.next_object (λ _. remote) ui.object;
  next_object = suc ui.next_object;
  remotes = ui.remotes ++ ui.next_object ∷ [];
  active_remote_id = remote.id;
})
added (failed message) ui = show (problem message) ui

-- `addRemote()`, with the text that `prompt` gives (empty if it is cancelled).
unfoldable pub add_remote : Text → Answer Remote → Ui → Ui
add_remote [] answer ui = ui
add_remote (c ∷ name) answer ui = added answer ui

-- The bodies that the actions post. `addRemote` sends an empty layout.
unfoldable pub add_remote_body : Text → Value
add_remote_body name = obj (prop (text "name") (str name) (prop (text "buttons") (arr nil) end))

abbrev pub append_item : Items → Value → Items
append_item nil v = cons v nil
append_item (cons w vs) v = cons w (append_item vs v)

-- `addButton`: the layout with one more button, at the next place of a grid three wide.
abbrev pub new_button_json : ℕ → Text → Value
new_button_json n label = obj (
    prop (text "label") (str label) (
      prop (text "row") (num (of_ℕ (n / 3)))
        (prop (text "col") (num (of_ℕ (n % 3))) (prop (text "signal") null end))))

unfoldable pub add_button_body : Remote → Text → Value
add_button_body r label =
    request_json r (append_item (buttons_json r.buttons) (new_button_json (length r.buttons) label))

unfoldable pub rename_body : Remote → Text → Value
rename_body r name = remote_json (record r { name = name })

-- `renameRemote(remote, newName)`, on the i-th object.
unfoldable pub rename_remote : ℕ → Answer Remote → Ui → Ui
rename_remote i answer ui = assign_saved i answer ui

-- `addButton(remote)`, with the text that `prompt` gives.
unfoldable pub add_button : ℕ → Text → Answer Remote → Ui → Ui
add_button i [] answer ui = ui
add_button i (c ∷ label) answer ui = assign_drawn i answer ui

-- `state.remotes[0]?.id || null`
abbrev pub first_id : (ℕ → Remote) → List ℕ → Value
first_id object [] = null
first_id object (i ∷ is) = if truthy (object i).id then (object i).id else null

abbrev pub removed : ℕ → Answer (Unit {0}) → Ui → Ui
removed i (failed message) ui = show (problem message) ui
removed i (answered _) ui =
    let kept = reject (λ j. strict_eq (ui.object j).id (ui.object i).id) ui.remotes in
    draw_all (record ui { remotes = kept; active_remote_id = first_id ui.object kept })

-- `removeRemote(remote)`, with the answer to `confirm`.
unfoldable pub remove_remote : ℕ → Bool → Answer (Unit {0}) → Ui → Ui
remove_remote i confirmed answer ui = if confirmed then removed i answer ui else ui

-- `openEditModal(remote, btn)`
unfoldable pub open_edit_modal : ℕ → Button → Ui → Ui
open_edit_modal i b ui = record ui { modal = some (i, b) }

-- `stopLearningUi()` and `closeModal()`
abbrev pub stop_learning_ui : Ui → Ui
stop_learning_ui ui = record ui { learning = false }

unfoldable pub close_modal : Ui → Ui
close_modal ui = record (if ui.learning then stop_learning_ui ui else ui) { modal = none }

abbrev pub tapped : Answer (Unit {0}) → Button → Ui → Ui
tapped (answered _) b ui = show (sent b.label) ui
tapped (failed message) b ui = show (problem message) ui

-- `handleButtonTap(remote, btn)`: a button that was not learned opens the modal.
unfoldable pub handle_button_tap : ℕ → Button → Answer (Unit {0}) → Ui → Ui
handle_button_tap i b answer ui =
    if truthy b.signal then tapped answer b ui else open_edit_modal i b ui

abbrev pub armed : Answer (Unit {0}) → Ui → Ui
armed (answered _) ui = show point_remote (record ui { learning = true })
armed (failed message) ui = show (problem message) ui

abbrev pub learn_clicked : Option (ℕ × Button) → Answer (Unit {0}) → Ui → Ui
learn_clicked none answer ui = ui
learn_clicked (some ctx) answer ui = if ui.learning then stop_learning_ui ui else armed answer ui

-- `modalLearnBtn.onclick`: arms learn mode, or cancels it whatever the backend answers.
unfoldable pub on_modal_learn : Answer (Unit {0}) → Ui → Ui
on_modal_learn answer ui = learn_clicked ui.modal answer ui

-- `modalDeleteBtn.onclick` posts the layout without the button.
unfoldable pub delete_button_body : Remote → Value → Value
delete_button_body r id =
    remote_json (record r { buttons = reject (λ (b : Button). strict_eq b.id id) r.buttons })

-- `modalSaveBtn.onclick` posts the layout with a new label, or the old one if the input is blank.
abbrev pub or_old_label : Text → Button → Value
or_old_label [] b = b.label
or_old_label (c ∷ s) b = str (c ∷ s)

abbrev pub new_label : Text → Button → Value
new_label input b = or_old_label (trim input) b

unfoldable pub save_button_body : Remote → Button → Text → Value
save_button_body r b input = remote_json (record r {
  buttons =
      map
        (λ (x : Button). if strict_eq x.id b.id then record x { label = new_label input b } else x)
        r.buttons;
})

abbrev pub closed_if_saved : ℕ → Answer Remote → Ui → Ui
closed_if_saved i (answered saved) ui = close_modal (assign_drawn i (answered saved) ui)
closed_if_saved i (failed message) ui = show (problem message) ui

abbrev pub saved_in : Option (ℕ × Button) → Answer Remote → Ui → Ui
saved_in none answer ui = ui
saved_in (some (i, b)) answer ui = closed_if_saved i answer ui

-- `modalSaveBtn.onclick`, and `modalDeleteBtn.onclick` once `confirm` says yes.
unfoldable pub on_modal_saved : Answer Remote → Ui → Ui
on_modal_saved answer ui = saved_in ui.modal answer ui
