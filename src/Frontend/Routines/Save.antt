-- ===== src/Frontend/Routines/Save.antt =====
-- Saving and deleting in the routine modal, and what the backend makes of the requests.
use irhub.Prelude.{
  true, false, List, [], ◌∷◌, ◌++◌, Option, some, Text, text, text_eq, ◌≡◌, ◌⊎◌, refl, sym, ◌∙◌, ap,
  ap₂, if_true, Bool-cases, inl, inr, All, none-ne-some, some_inj, if◌then◌else◌,
}
use irhub.Js.{Value, undefined, null, str, arr, field, lookup_or, truthy, or_else, is_integer}
use irhub.Backend.Slug.{trim}
use irhub.Backend.State.{Routine, RoutineStep, Server, Env}
use irhub.Backend.Http.{json, routine, nonempty_string}
use irhub.Backend.Remotes.Normalize.{all_defined}
use irhub.Backend.Routines.{nonempty_array, post_routine}
use irhub.Backend.Routines.Steps.{stored_step, stored_steps}
use irhub.Backend.Routines.Store.{routine_key, routine_target}
use irhub.Backend.Routines.Upserts.{
  new_routine, edited, kept, kept_parts, written, post_routine-upserts,
}
use irhub.Frontend.Remotes.{answered}
use irhub.Frontend.Saved.{place_saved, place_saved-upsert}
use irhub.Frontend.Selects.{is_empty}
use irhub.Frontend.Routines.{
  RoutinePage, step_json, steps_json, routine_payload, save_request, close_routine_modal,
  routine_saved,
}

-- Delays are whole numbers.
abbrev pub HasWholeDelays : List RoutineStep → Type 0
HasWholeDelays steps = All (λ (step : RoutineStep). is_integer step.delay_ms ≡ true) steps

-- The modal edits a new routine, or one with a string for its id.
abbrev pub HasTextId : Value → Type 0
HasTextId editing = (editing ≡ null) ⊎ ((t : Text) × (editing ≡ str t))

stored_step-json :
    (step : RoutineStep) → is_integer step.delay_ms ≡ true → stored_step (step_json step) ≡ step
unfolding field lookup_or text_eq
stored_step-json step whole =
    ap (λ d. record { remote_id = step.remote_id; button_id = step.button_id; delay_ms = d })
      (if_true _ _ whole)

stored_steps-json :
    (steps : List RoutineStep) → HasWholeDelays steps → stored_steps (steps_json steps) ≡ steps
unfolding steps_json
stored_steps-json [] h = refl
stored_steps-json (step ∷ steps) (whole, h) =
    ap₂ (λ (x : RoutineStep) xs. x ∷ xs) (stored_step-json step whole) (stored_steps-json steps h)

all_defined-json : (steps : List RoutineStep) → all_defined (steps_json steps) ≡ true
unfolding steps_json
all_defined-json [] = refl
all_defined-json (step ∷ steps) = all_defined-json steps

field-payload :
    (name : Text) (steps : List RoutineStep) (editing : Value)
    → (field (text "name") (routine_payload name steps editing) ≡ str name)
      × (field (text "steps") (routine_payload name steps editing) ≡ arr (steps_json steps))
      × (field (text "id") (routine_payload name steps editing)
          ≡ (if truthy editing then editing else undefined))
unfolding routine_payload field lookup_or text_eq
field-payload name steps editing = elim (Bool-cases (truthy editing)) [
  | inl t ↦ rw t (refl, refl, refl)
  | inr f ↦ rw f (refl, refl, refl)
]

pub or_else-text :
    (editing : Value) (u : Text)
    → HasTextId editing
    → (t : Text) × (or_else (if truthy editing then editing else undefined) (str u) ≡ str t)
      × ((t ≡ u) ⊎ (editing ≡ str t))
unfolding or_else truthy
or_else-text editing u (inl is_null) = (u, rw is_null refl, inl refl)
or_else-text editing u (inr ([], e)) = (u, rw e refl, inl refl)
or_else-text editing u (inr (c ∷ t, e)) = (c ∷ t, rw e refl, inr e)

-- The id that the backend makes for a new routine.
abbrev pub next_id : Env → Server → Text
next_id env s = text "routine-" ++ env.short_uuid s.uuids

-- The id under which the backend stores what the modal posts is a string: a new one, or that of the
-- routine that is edited.
target-text :
    (env : Env) (s : Server) (name : Text) (steps : List RoutineStep) (editing : Value)
    → HasTextId editing
    → (t : Text) × (routine_target env s (field (text "id") (routine_payload name steps editing))
        ≡ str t)
      × ((t ≡ next_id env s) ⊎ (editing ≡ str t))
target-text env s name steps editing h =
    let (_, _, its_id) = field-payload name steps editing in
    let (t, e, origin) = or_else-text editing (next_id env s) h in
    (t, ap (routine_target env s) its_id ∙ e, origin)

-- A request is made only for a name and a draft that are not empty, and changes nothing.
save_request-some :
    (p q : RoutinePage) (body : Value)
    → save_request p ≡ (q, some body)
    → (q ≡ p)
      × (is_empty (trim p.name_input) ≡ false)
      × (is_empty p.draft ≡ false)
      × (body ≡ routine_payload (trim p.name_input) p.draft p.editing)
unfolding save_request
save_request-some p q body h = elim (Bool-cases (is_empty (trim p.name_input))) [
  | inl e ↦ absurd (none-ne-some (ap (λ (r : RoutinePage × Option Value). r.1) (rw e at h)))
  | inr e ↦ elim (Bool-cases (is_empty p.draft)) [
    | inl d ↦ absurd (none-ne-some (ap (λ (r : RoutinePage × Option Value). r.1) (rw (e, d) at h)))
    | inr d ↦
        let h' = rw (e, d) at h in
        (
          ap (λ (r : RoutinePage × Option Value). r.0) (sym h'),
          e,
          d,
          some_inj (ap (λ (r : RoutinePage × Option Value). r.1) (sym h')),
        )
  ]
]

named : (s : Text) → is_empty s ≡ false → nonempty_string (str s) ≡ some s
unfolding nonempty_string
named [] h = cc
named (c ∷ s) h = refl

filled_steps :
    (steps : List RoutineStep)
    → is_empty steps ≡ false
    → nonempty_array (arr (steps_json steps)) ≡ some (steps_json steps)
unfolding nonempty_array steps_json
filled_steps [] h = cc
filled_steps (step ∷ steps) h = refl

-- What the backend does with a request: it stores the name and the draft under a string id,
-- a new one or that of the routine that is edited.
pub save_request-kept :
    (env : Env) (s : Server) (p q : RoutinePage) (body : Value)
    → save_request p ≡ (q, some body)
    → HasTextId p.editing
    → HasWholeDelays p.draft
    → (t : Text) × (q ≡ p)
      × ((post_routine env s body).0.routines ≡ written env s (trim p.name_input) p.draft (str t))
      × ((post_routine env s body).1
          ≡ json 200 (routine (some (kept env s (trim p.name_input) p.draft (str t)))))
      × ((t ≡ next_id env s) ⊎ (p.editing ≡ str t))
save_request-kept env s p q body h text_id whole =
    let (same_page, some_name, some_steps, its_body) = save_request-some p q body h in
    let name = trim p.name_input in
    let (its_name, its_steps, _) = field-payload name p.draft p.editing in
    let (t, at, origin) = target-text env s name p.draft p.editing text_id in
    let (lists, reply) =
      post_routine-upserts env s (routine_payload name p.draft p.editing) name (steps_json p.draft)
        (str t) (ap nonempty_string its_name ∙ named name some_name)
        (ap nonempty_array its_steps ∙ filled_steps p.draft some_steps) (all_defined-json p.draft)
        at tt in
    let stored = stored_steps-json p.draft whole in
    (
      t,
      same_page,
      ap (λ b. (post_routine env s b).0.routines) its_body
          ∙ lists
          ∙ ap (λ steps. written env s name steps (str t)) stored,
      ap (λ b. (post_routine env s b).1) its_body
          ∙ reply
          ∙ ap (λ steps. json 200 (routine (some (kept env s name steps (str t))))) stored,
      origin,
    )

-- Saving, on both sides. The page shows the routines that the backend stores, and edits a new one or
-- one with a string for its id; the draft's delays are whole numbers. If the save button makes a
-- request at all, the backend takes it: it answers 200 with a routine that has the trimmed name and
-- exactly the steps of the draft, and once the page has that answer, it shows again what the backend
-- now stores, and the modal is closed.
pub save_request-routines :
    (env : Env) (s : Server) (p q : RoutinePage) (body : Value)
    → save_request p ≡ (q, some body)
    → HasTextId p.editing
    → HasWholeDelays p.draft
    → p.routines ≡ s.routines
    → (r : Routine) × ((post_routine env s body).1 ≡ json 200 (routine (some r)))
      × (r.name ≡ trim p.name_input)
      × (r.steps ≡ p.draft)
      × ((routine_saved (answered r) q).routines ≡ (post_routine env s body).0.routines)
      × ((routine_saved (answered r) q).modal_open ≡ false)
unfolding routine_saved close_routine_modal
save_request-routines env s p q body h text_id whole mirror =
    let name = trim p.name_input in
    let (t, same_page, stores, reply, _) = save_request-kept env s p q body h text_id whole in
    let r = kept env s name p.draft (str t) in
    let (kept_name, kept_steps) = kept_parts env s name p.draft (str t) in
    (
      r,
      reply,
      kept_name,
      kept_steps,
      ap (λ (page : RoutinePage). place_saved routine_key r page.routines) same_page
          ∙ ap (place_saved routine_key r) mirror
          ∙ place_saved-upsert routine_key env.routine_db t (new_routine env s name p.draft (str t))
              (edited env s name p.draft (str t)) s.routines refl (λ x _. refl)
          ∙ sym stores,
      refl,
    )
