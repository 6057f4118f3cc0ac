-- ===== src/Backend/Routines/Upserts.antt =====
-- `POST /api/routines` as one write of the collection.
use irhub.Prelude.{true, Text, List, Option, none, some, text, ◌≡◌, refl, ◌∙◌, ap}
use irhub.Js.{Value, IsPrimitive, Items, field}
use irhub.Backend.Lowdb.Upsert.{upsert, upserted, upsert-found}
use irhub.Backend.State.{Routine, RoutineStep, Server, Env}
use irhub.Backend.Http.{json, routine, nonempty_string}
use irhub.Backend.Remotes.Normalize.{all_defined}
use irhub.Backend.Routines.{nonempty_array, save_routine, post_routine}
use irhub.Backend.Routines.Steps.{stored_steps, normalize_steps_lem}
use irhub.Backend.Routines.Store.{routine_key, routine_target, write_routine-eq}

module _ (env : Env) (s : Server) (name : Text) (steps : List RoutineStep) (target : Value) where
  abbrev pub new_routine : Routine
  new_routine = record { id = target; name = name; steps = steps }

  abbrev pub edited : Routine → Routine
  edited r = record r { name = name; steps = steps }

  abbrev pub written : List Routine
  written =
      upsert routine_key env.routine_db target new_routine edited
        (env.routine_db.find_by target s.routines) s.routines

  abbrev pub kept : Routine
  kept =
      upserted routine_key env.routine_db target new_routine edited
        (env.routine_db.find_by target s.routines)

-- Whether the routine is new or edited, it has the name and the steps.
pub kept_parts :
    (env : Env) (s : Server) (name : Text) (steps : List RoutineStep) (target : Value)
    → ((kept env s name steps target).name ≡ name) × ((kept env s name steps target).steps ≡ steps)
kept_parts env s name steps target = either (env.routine_db.find_by target s.routines)
  where
    either :
        (o : Option Routine)
        → ((upserted routine_key env.routine_db target
              (new_routine env s name steps target)
              (edited env s name steps target)
              o).name
            ≡ name)
          × ((upserted routine_key env.routine_db target
                (new_routine env s name steps target)
                (edited env s name steps target)
                o).steps
              ≡ steps)
    either none = (refl, refl)
    either (some r) = (refl, refl)

pub post_routine-upserts :
    (env : Env) (s : Server) (body : Value) (name : Text) (vs : Items) (target : Value)
    → nonempty_string (field (text "name") body) ≡ some name
    → nonempty_array (field (text "steps") body) ≡ some vs
    → all_defined vs ≡ true
    → routine_target env s (field (text "id") body) ≡ target
    → IsPrimitive target
    → ((post_routine env s body).0.routines ≡ written env s name (stored_steps vs) target)
      × ((post_routine env s body).1
          ≡ json 200 (routine (some (kept env s name (stored_steps vs) target))))
unfolding post_routine save_routine
post_routine-upserts env s body name vs target e e' h at prim =
    let o = env.routine_db.find_by target s.routines in
    let lists = write_routine-eq env s target name o (stored_steps vs) in
    (
      rw (e, e', normalize_steps_lem vs, h, at) lists,
      rw (e, e', normalize_steps_lem vs, h, at)
          (ap (λ (r : Option Routine). json 200 (routine r))
            (ap (env.routine_db.find_by target) lists
              ∙ upsert-found routine_key env.routine_db target
                  (new_routine env s name (stored_steps vs) target)
                  (edited env s name (stored_steps vs) target) prim refl (λ x _. refl) o s.routines
                  refl)),
    )
