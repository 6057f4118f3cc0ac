-- ===== src/Frontend/Routines.antt =====
-- The routine modal of `frontend/app.js`, the list of routines that it changes, and running one.
-- What the backend answers is an argument.
pub mod Draft
pub mod Moves
pub mod Ids
pub mod Save
pub mod Sync
use irhub.Prelude.{
  ℕ, zero, suc, Bool, true, false, not, ◌||◌, List, [], ◌∷◌, ◌++◌, Option, none, some, Text, text,
  find, reject, update_first, any, if◌then◌else◌,
}
use irhub.Js.{
  Value, null, num, str, arr, obj, Items, nil, cons, end, prop, finite, of_ℕ, truthy, strict_eq, ℤ,
}
use irhub.Backend.Slug.{trim}
use irhub.Backend.State.{Remote, Routine, RoutineStep}
use irhub.Frontend.Remotes.{Answer, answered, failed}
use irhub.Backend.Lowdb.{has_id}
use irhub.Backend.Routines.Store.{routine_key}
use irhub.Frontend.Saved.{place_saved}
use irhub.Frontend.Selects.{
  Select, is_empty, choose, populate_remote_select, populate_button_select,
}

-- The messages of `toast`.
pub data RoutineToast : Type 0 where
  needs_remote needs_choice needs_name needs_steps : RoutineToast
  saved : (name : Text) → RoutineToast
  running : (name : Text) → RoutineToast
  problem : (message : Text) → RoutineToast

-- The page, as far as routines go.
pub record RoutinePage : Type 0 where
  pub remotes : List Remote
  pub routines : List Routine
  pub editing : Value
  pub draft : List RoutineStep
  pub name_input : Text
  pub delay_input : Text
  pub step_remote : Select
  pub step_button : Select
  pub delete_hidden : Bool
  pub modal_open : Bool
  pub toasts : List RoutineToast

abbrev pub show : RoutineToast → RoutinePage → RoutinePage
show t p = record p { toasts = p.toasts ++ t ∷ [] }

abbrev id_or_null : Option Routine → Value
id_or_null none = null
id_or_null (some r) = r.id

abbrev steps_or_none : Option Routine → List RoutineStep
steps_or_none none = []
steps_or_none (some r) = r.steps

abbrev name_or_empty : Option Routine → Text
name_or_empty none = []
name_or_empty (some r) = r.name

abbrev is_new : Option Routine → Bool
is_new none = true
is_new (some r) = false

-- `closeRoutineModal()`
unfoldable pub close_routine_modal : RoutinePage → RoutinePage
close_routine_modal p = record p { modal_open = false; editing = null; draft = [] }

abbrev pub drop_at : ℕ → List RoutineStep → List RoutineStep
drop_at i [] = []
drop_at zero (step ∷ steps) = steps
drop_at (suc i) (step ∷ steps) = step ∷ drop_at i steps

-- `routineDraftSteps.splice(i, 1)`, of the row's button to remove it.
unfoldable pub remove_step : ℕ → RoutinePage → RoutinePage
remove_step i p = record p { draft = drop_at i p.draft }

-- `Number.isInteger(delayMs) ? delayMs : 0`, where `none` is no whole number.
abbrev pub delay_or_zero : Option ℤ → Value
delay_or_zero (some n) = num (finite n 0)
delay_or_zero none = num (of_ℕ 0)

-- `routineAddStepBtn.onclick`. `parse_int` is `parseInt(text, 10)` where that is a whole number.
unfoldable pub add_step : (Text → Option ℤ) → RoutinePage → RoutinePage
add_step parse_int p =
    if is_empty p.step_remote.value || is_empty p.step_button.value
    then show needs_choice p
    else record p {
      draft =
          p.draft
          ++ record {
            remote_id = str p.step_remote.value;
            button_id = str p.step_button.value;
            delay_ms = delay_or_zero (parse_int p.delay_input);
          }
            ∷ [];
      delay_input = [];
    }

-- `JSON.stringify` of a step and of a draft, as it is read back.
abbrev pub step_json : RoutineStep → Value
step_json step = obj (
    prop (text "remoteId") step.remote_id
      (prop (text "buttonId") step.button_id (prop (text "delayMs") step.delay_ms end)))

unfoldable pub steps_json : List RoutineStep → Items
steps_json [] = nil
steps_json (step ∷ steps) = cons (step_json step) (steps_json steps)

-- `payload`, with the id of the routine that is edited.
unfoldable pub routine_payload : Text → List RoutineStep → Value → Value
routine_payload name steps editing = obj (
    prop (text "name") (str name) (
      prop (text "steps") (arr (steps_json steps))
        (if truthy editing then prop (text "id") editing end else end)))

-- `routineSaveBtn.onclick` up to its request: the body that is posted, if any.
unfoldable pub save_request : RoutinePage → RoutinePage × Option Value
unfolding routine_payload
save_request p =
    if is_empty (trim p.name_input)
    then (show needs_name p, none)
    else if is_empty p.draft
    then (show needs_steps p, none)
    else (p, some (routine_payload (trim p.name_input) p.draft p.editing))

-- The rest of it, with the answer to the request.
unfoldable pub routine_saved : Answer Routine → RoutinePage → RoutinePage
unfolding close_routine_modal place_saved
routine_saved (failed message) p = show (problem message) p
routine_saved (answered r) p =
    show (saved r.name)
      (close_routine_modal (record p { routines = place_saved routine_key r p.routines }))

-- `routineDeleteBtn.onclick` up to its request: the id that is asked to go, if any.
unfoldable pub delete_request : Bool → RoutinePage → Option Value
delete_request confirmed p =
    if not (truthy p.editing) then none else if confirmed then some p.editing else none

-- The rest of it, with the answer to the request.
unfoldable pub routine_deleted : Value → Answer (Unit {0}) → RoutinePage → RoutinePage
unfolding close_routine_modal
routine_deleted id (failed message) p = show (problem message) p
routine_deleted id (answered _) p =
    close_routine_modal (record p { routines = reject (has_id routine_key id) p.routines })

-- `runRoutineNow(routine)`
unfoldable pub run_routine_now : Routine → Answer (Unit {0}) → RoutinePage → RoutinePage
run_routine_now r (answered _) p = show (running r.name) p
run_routine_now r (failed message) p = show (problem message) p

module _ (stringify : Value → Text) where
  -- `openRoutineModal(routine)`; `none` is null.
  unfoldable pub open_routine_modal : Option Routine → RoutinePage → RoutinePage
  unfolding populate_remote_select populate_button_select
  open_routine_modal o p =
      let remotes = populate_remote_select stringify p.remotes in
      record p {
        editing = id_or_null o;
        draft = steps_or_none o;
        name_input = name_or_empty o;
        delay_input = [];
        delete_hidden = is_new o;
        step_remote = remotes;
        step_button = populate_button_select stringify p.remotes (str remotes.value);
        modal_open = true;
      }

  -- `newRoutineBtn.onclick`
  unfoldable pub new_routine : RoutinePage → RoutinePage
  unfolding open_routine_modal
  new_routine p = if is_empty p.remotes then show needs_remote p else open_routine_modal none p

  -- The user picks a remote; `routineStepRemote.onchange` offers its buttons.
  unfoldable pub pick_step_remote : Text → RoutinePage → RoutinePage
  unfolding choose populate_button_select
  pick_step_remote v p =
      let remotes = choose v p.step_remote in
      record p {
        step_remote = remotes;
        step_button = populate_button_select stringify p.remotes (str remotes.value);
      }
