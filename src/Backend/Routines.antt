-- ===== src/Backend/Routines.antt =====
-- Routines in `backend/server.js`: the REST handlers and `runRoutine`.
pub mod Run
pub mod Steps
pub mod Store
pub mod Upserts
use irhub.Prelude.{
  ℕ, zero, suc, Bool, true, false, List, [], ◌∷◌, ◌++◌, Option, none, some, Text, text,
  if◌then◌else◌, get_elem?, ◌==◌,
}
use irhub.Js.{
  Value, null, undefined, num, str, arr, Items, nil, cons, of_ℕ, truthy, or_else, is_integer, field,
  member, Js, ok, type_error, ◌>>=◌,
}
use irhub.Backend.State.{
  Remote, Routine, RoutineStep, Server, Env, FireError, routine_not_found, Event, routine_started,
  routine_step, routine_finished,
}
use irhub.Backend.Http.{
  Reply, json, ended, thrown, error, routine, running, name_required, steps_required,
  routine_missing, nonempty_string,
}
use irhub.Backend.Http
use irhub.Backend.Fire.{fire_button}

-- What `steps.map` makes of one step; `s.remoteId` throws if `s` is null or undefined.
unfoldable pub normalize_step : Value → Js RoutineStep
normalize_step v = do
  remote_id ← member (text "remoteId") v
  let delay = field (text "delayMs") v
  ok (record {
    remote_id = remote_id;
    button_id = field (text "buttonId") v;
    delay_ms = if is_integer delay then delay else num (of_ℕ 0);
  })

unfoldable pub normalize_steps : Items → Js (List RoutineStep)
normalize_steps nil = ok []
normalize_steps (cons v vs) =
    normalize_step v >>= λ step. normalize_steps vs >>= λ steps. ok (step ∷ steps)

-- `!Array.isArray(steps) || steps.length === 0` refuses all but an array that is not empty.
unfoldable pub nonempty_array : Value → Option Items
nonempty_array (arr (cons v vs)) = some (cons v vs)
nonempty_array _ = none

module _ (env : Env) where
  unfoldable pub write_routine :
      Server → Value → Text → Option Routine → List RoutineStep → List Routine
  write_routine s id name none steps =
      env.routine_db.push (record { id = id; name = name; steps = steps }) s.routines
  write_routine s id name (some existing) steps =
      env.routine_db.assign id (λ r. record r { name = name; steps = steps }) s.routines

  unfoldable pub save_routine : Server → Value → Text → Js (List RoutineStep) → Server × Reply
  save_routine s id name type_error = (s, thrown)
  save_routine s id name (ok steps) =
      let routine_id = or_else id (str (text "routine-" ++ env.short_uuid s.uuids)) in
      let written =
        write_routine s routine_id name (env.routine_db.find_by routine_id s.routines) steps in
      (
        record s { routines = written; uuids = if truthy id then s.uuids else suc s.uuids },
        json 200 (routine (env.routine_db.find_by routine_id written)),
      )

  abbrev pub post_named_routine : Server → Value → Text → Option Items → Server × Reply
  post_named_routine s body name none = (s, json 400 (error steps_required))
  post_named_routine s body name (some steps) =
      save_routine s (field (text "id") body) name (normalize_steps steps)

  abbrev pub post_routine_as : Server → Value → Option Text → Server × Reply
  post_routine_as s body none = (s, json 400 (error name_required))
  post_routine_as s body (some name) =
      post_named_routine s body name (nonempty_array (field (text "steps") body))

  -- `POST /api/routines`
  unfoldable pub post_routine : Server → Value → Server × Reply
  post_routine s body = post_routine_as s body (nonempty_string (field (text "name") body))

  -- `DELETE /api/routines/:id`
  unfoldable pub delete_routine : Server → Text → Server × Reply
  delete_routine s id =
      (record s { routines = env.routine_db.remove (str id) s.routines }, ended 204)

-- `GET /api/routines`
unfoldable pub get_routines : Server → Server × Reply
get_routines s = (s, json 200 (Http.routines s.routines))
