-- ===== src/Frontend/Routines/Draft.antt =====
-- Drafts and stored routines: the ids are strings that a URL holds as they are, the delays are whole numbers.
use irhub.Prelude.{
  ℕ, zero, suc, true, List, [], ◌∷◌, Option, none, some, Text, ◌≡◌, refl, sym, ◌∙◌, Bool-cases, inl,
  inr, All, All-append, All-find, All-update_first, ◌||◌, ◌&&◌, Bool, leb, ◌==◌, arith,
}
use irhub.Js.{str, is_integer, ℤ}
use irhub.Backend.State.{Routine, RoutineStep, Server, Env}
use irhub.Backend.Lowdb.{has_id}
use irhub.Backend.Lowdb.Upsert.{upsert, upserted}
use irhub.Backend.Routines.Store.{routine_key}
use irhub.Backend.Routines.Upserts.{new_routine, edited, kept, written}
use irhub.Frontend.Selects.{is_empty}
use irhub.Frontend.Routines.{RoutinePage, add_step, remove_step, delay_or_zero, drop_at}
use irhub.Frontend.Routines.Save.{HasWholeDelays}

-- Letters, digits, dashes and underscores, which a URL holds as they are.
unfoldable pub is_plain : ℕ → Bool
is_plain c =
    (leb 97 c && leb c 122)
    || (leb 65 c && leb c 90)
    || (leb 48 c && leb c 57)
    || (c == 45)
    || (c == 95)

abbrev pub IsPlain : Text → Type 0
IsPlain t = All (λ c. is_plain c ≡ true) t

-- A routine as the backend stores it: its id is such a string, its delays are whole numbers.
abbrev pub IsStored : Routine → Type 0
IsStored r = ((t : Text) × (r.id ≡ str t) × IsPlain t) × HasWholeDelays r.steps

kept-IsStored :
    (env : Env) (s : Server) (name : Text) (steps : List RoutineStep) (t : Text)
    → IsPlain t
    → All IsStored s.routines
    → HasWholeDelays steps
    → IsStored (kept env s name steps (str t))
kept-IsStored env s name steps t plain stored whole =
    either (env.routine_db.find_by (str t) s.routines) refl
  where
    either :
        (o : Option Routine)
        → env.routine_db.find_by (str t) s.routines ≡ o
        → IsStored (
            upserted routine_key env.routine_db
              (str t)
              (new_routine env s name steps (str t))
              (edited env s name steps (str t))
              o)
    either none e = ((t, refl, plain), whole)
    either (some r) e =
        let (its, _) =
          All-find IsStored (has_id routine_key (str t)) s.routines r stored
            (sym (env.routine_db.find_lem (str t) s.routines tt) ∙ e) in
        (its, whole)

pub written-IsStored :
    (env : Env) (s : Server) (name : Text) (steps : List RoutineStep) (t : Text)
    → IsPlain t
    → All IsStored s.routines
    → HasWholeDelays steps
    → All IsStored (written env s name steps (str t))
written-IsStored env s name steps t plain stored whole =
    either (env.routine_db.find_by (str t) s.routines)
  where
    either :
        (o : Option Routine)
        → All IsStored (
            upsert routine_key env.routine_db
              (str t)
              (new_routine env s name steps (str t))
              (edited env s name steps (str t))
              o
              s.routines)
    either none =
        rw (env.routine_db.push_lem (new_routine env s name steps (str t)) s.routines)
          (All-append IsStored s.routines _ stored (((t, refl, plain), whole), tt))
    either (some r) =
        rw (env.routine_db.assign_lem (str t) (edited env s name steps (str t)) s.routines tt) (
          All-update_first IsStored (has_id routine_key (str t)) (edited env s name steps (str t))
            s.routines (λ x (its, _). (its, whole)) stored)

-- `parseInt` of anything is put into a draft as a whole number.
pub add_step-HasWholeDelays :
    (parse_int : Text → Option ℤ) (p : RoutinePage)
    → HasWholeDelays p.draft
    → HasWholeDelays (add_step parse_int p).draft
unfolding add_step
add_step-HasWholeDelays parse_int p whole =
    elim (Bool-cases (is_empty p.step_remote.value || is_empty p.step_button.value)) [
      | inl e ↦ rw e whole
      | inr e ↦ rw e (
          All-append (λ (step : RoutineStep). is_integer step.delay_ms ≡ true) p.draft _ whole
            (its_delay (parse_int p.delay_input), tt))
    ]
  where
    its_delay : (o : Option ℤ) → is_integer (delay_or_zero o) ≡ true
    its_delay none = unfold is_integer in refl
    its_delay (some n) = unfold is_integer in (ground arith)

pub remove_step-HasWholeDelays :
    (i : ℕ) (p : RoutinePage) → HasWholeDelays p.draft → HasWholeDelays (remove_step i p).draft
unfolding remove_step
remove_step-HasWholeDelays i p whole = without i p.draft whole
  where
    without :
        (j : ℕ) (steps : List RoutineStep) → HasWholeDelays steps → HasWholeDelays (drop_at j steps)
    without j [] h = h
    without zero (step ∷ steps) (h, hs) = hs
    without (suc j) (step ∷ steps) (h, hs) = (h, without j steps hs)
