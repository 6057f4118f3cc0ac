-- ===== src/Backend/Routines/Run.antt =====
-- `runRoutine` and `POST /api/routines/:id/run`, with whatever other handlers do while it waits.
pub mod Trace
use irhub.Prelude.{
  ℕ, zero, suc, Bool, List, [], ◌∷◌, ◌++◌, Option, none, some, Text, if◌then◌else◌, get_elem?,
}
use irhub.Js.{Value, str, truthy}
use irhub.Backend.State.{
  Routine, RoutineStep, Server, Env, FireError, routine_not_found, Event, routine_started,
  routine_step, routine_finished, broadcast,
}
use irhub.Backend.Http.{Reply, json, error, running, routine_missing}
use irhub.Backend.Fire.{fire_button}

-- What a run meets: the `steps` of the routine object at the head of each round, which a request
-- may replace meanwhile; what other handlers do to the server while step i waits for its delay, and
-- while its publish is under way; and what the MQTT client reports of that publish.
pub record World : Type 0 where
  pub steps_at : ℕ → List RoutineStep
  pub during_sleep : ℕ → Server → Server
  pub during_publish : ℕ → Server → Server
  pub ack : ℕ → Option Text

-- How `runRoutine` ends: the state, and the error that it rejects with, if it does.
pub record Outcome : Type 0 where
  pub server : Server
  pub error : Option FireError

module _ (env : Env) (w : World) where
  -- `if (step.delayMs) await sleep(step.delayMs)`
  abbrev pub after_delay : ℕ → RoutineStep → Server → Server
  after_delay i step s = if truthy step.delay_ms then w.during_sleep i s else s

  -- `fireButton` for step i, with the error it rejects with.
  unfoldable pub fire_step : ℕ → RoutineStep → Server → Server × Option FireError
  fire_step i step s =
      fire_button env (after_delay i step s) step.remote_id step.button_id (w.ack i)

  -- One round of the loop: fire, wait for the promise, tell the clients.
  unfoldable pub run_step : Value → ℕ → RoutineStep → Server → Server
  unfolding fire_step
  run_step id i step s =
      let fired = fire_step i step s in
      broadcast (routine_step id i fired.1) (w.during_publish i fired.0)

  -- The loop from round i on; `none` means that the fuel ran out.
  unfoldable pub run_steps : ℕ → Value → ℕ → Server → Option Server
  run_steps zero id i s = none
  run_steps (suc fuel) id i s = elim (get_elem? (w.steps_at i) i) [
    | none ↦ some s
    | some step ↦ run_steps fuel id (suc i) (run_step id i step s)
  ]

  abbrev pub finish : Value → Option Server → Option Outcome
  finish id none = none
  finish id (some s) = some (record { server = broadcast (routine_finished id) s; error = none })

  abbrev pub run_found : ℕ → Server → Value → Option Routine → Option Outcome
  run_found fuel s id none = some (record { server = s; error = some routine_not_found })
  run_found fuel s id (some r) =
      finish id (run_steps fuel id 0 (broadcast (routine_started id r.name) s))

  -- `runRoutine(routineId)`
  unfoldable pub run_routine : ℕ → Server → Value → Option Outcome
  run_routine fuel s id = run_found fuel s id (env.routine_db.find_by id s.routines)

-- `POST /api/routines/:id/run`: the reply, and the id for which `runRoutine` is called, if it is.
abbrev pub start_run : Option Routine → Reply × Option Value
start_run none = (json 404 (error routine_missing), none)
start_run (some r) = (json 202 (running r.id), some r.id)

unfoldable pub post_run : Env → Server → Text → Reply × Option Value
post_run env s id = start_run (env.routine_db.find_by (str id) s.routines)
