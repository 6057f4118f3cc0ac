-- ===== src/Backend/Routines/Run/Trace.antt =====
-- A run of a routine that is not edited meanwhile: it ends, and the clients hear of each step.
use irhub.Prelude.{
  ℕ, zero, suc, ◌<◌, List, [], ◌∷◌, ◌++◌, none, some, length, get_elem?, get_elem?-append-cons,
  get_elem?-length, length-append, append-nil, append_assoc, ◌∙◌, sym, ap, subst, ◌≡◌, refl, arith,
  Bool-cases, inl, inr, if◌then◌else◌,
}
use irhub.Js.{Value, truthy}
use irhub.Backend.State.{
  Routine, RoutineStep, Server, Env, Event, routine_started, routine_step, routine_finished,
  broadcast,
}
use irhub.Backend.Clients.{Hears, broadcast-Hears, fire_button-clients}
use irhub.Backend.Routines.Run.{
  World, Outcome, after_delay, fire_step, run_step, run_steps, run_routine,
}

-- What one client hears of other handlers in the course of a run: while step i waits for its delay
-- in some state, and while its publish is under way.
pub record Chatter : Type 0 where
  pub in_sleep : ℕ → Server → List Event
  pub in_publish : ℕ → Server → List Event

-- The other handlers keep the n-th client open, and tell it that.
pub record IsTold (w : World) (n : ℕ) (chat : Chatter) : Type 0 where
  pub sleeping :
      (i : ℕ) (s : Server) (es : List Event)
      → Hears n s es
      → Hears n (w.during_sleep i s) (es ++ chat.in_sleep i s)
  pub publishing :
      (i : ℕ) (s : Server) (es : List Event)
      → Hears n s es
      → Hears n (w.during_publish i s) (es ++ chat.in_publish i s)

-- What the client hears from round i on, in state s: for each step what others say in between, and
-- then how firing that step's button ended.
abbrev pub told : Env → World → Chatter → Value → ℕ → List RoutineStep → Server → List Event
told env w chat id i [] s = []
told env w chat id i (step ∷ steps) s =
    (if truthy step.delay_ms then chat.in_sleep i s else [])
    ++ (chat.in_publish i (fire_step env w i step s).0
        ++ (routine_step id i (fire_step env w i step s).1
            ∷ told env w chat id (suc i) steps (run_step env w id i step s)))

regroup :
    (es a b : List Event) (e : Event) (rest : List Event)
    → (((es ++ a) ++ b) ++ e ∷ []) ++ rest ≡ es ++ (a ++ (b ++ (e ∷ rest)))
regroup es a b e rest =
    append_assoc ((es ++ a) ++ b) (e ∷ []) rest
    ∙ append_assoc (es ++ a) b (e ∷ rest)
    ∙ append_assoc es a (b ++ (e ∷ rest))

module _ (env : Env) (w : World) (id : Value) (steps : List RoutineStep)
    (unedited : (i : ℕ) → w.steps_at i ≡ steps) (n : ℕ) (chat : Chatter)
    (hears : IsTold w n chat) where
  step_in :
      (i : ℕ) (pre rest : List RoutineStep) (step : RoutineStep)
      → steps ≡ pre ++ step ∷ rest
      → i ≡ length pre
      → get_elem? (w.steps_at i) i ≡ some step
  step_in i pre rest step split at_i =
      rw (unedited i, split, at_i) (get_elem?-append-cons pre rest step)

  at_end :
      (i : ℕ) (pre : List RoutineStep)
      → steps ≡ pre ++ []
      → i ≡ length pre
      → get_elem? (w.steps_at i) i ≡ none
  at_end i pre split at_i = rw (unedited i, split, append-nil pre, at_i) (get_elem?-length pre)

  -- The delay of step i, and one round.
  after_delay-Hears :
      (i : ℕ) (step : RoutineStep) (s : Server) (es : List Event)
      → Hears n s es
      → Hears n
          (after_delay env w i step s)
          (es ++ (if truthy step.delay_ms then chat.in_sleep i s else []))
  after_delay-Hears i step s es h = elim (Bool-cases (truthy step.delay_ms)) [
    | inl waits ↦ rw waits (hears.sleeping i s es h)
    | inr at_once ↦ rw at_once (subst (Hears n s) (sym (append-nil es)) h)
  ]

  run_step-Hears :
      (i : ℕ) (step : RoutineStep) (s : Server) (es : List Event)
      → Hears n s es
      → Hears n (run_step env w id i step s) (
          ((es ++ (if truthy step.delay_ms then chat.in_sleep i s else []))
            ++ chat.in_publish i (fire_step env w i step s).0)
          ++ routine_step id i (fire_step env w i step s).1 ∷ [])
  unfolding run_step fire_step
  run_step-Hears i step s es h =
      let woken = after_delay env w i step s in
      broadcast-Hears n _ _ _ (
        hears.publishing i _ _ (
          ap (λ cs. get_elem? cs n)
            (fire_button-clients env woken step.remote_id step.button_id (w.ack i))
          ∙ after_delay-Hears i step s es h))

  run_steps-told :
      (fuel i : ℕ) (pre rest : List RoutineStep) (s : Server) (es : List Event)
      → steps ≡ pre ++ rest
      → i ≡ length pre
      → length rest < fuel
      → Hears n s es
      → (s' : Server) × (run_steps env w fuel id i s ≡ some s')
        × Hears n s' (es ++ told env w chat id i rest s)
  unfolding run_steps
  run_steps-told zero i pre rest s es split at_i enough h = absurd (omega arith)
  run_steps-told (suc fuel) i pre [] s es split at_i enough h =
      (s, rw (at_end i pre split at_i, run_steps), subst (Hears n s) (sym (append-nil es)) h)
  run_steps-told (suc fuel) i pre (step ∷ rest) s es split at_i enough h =
      let (s', ends, heard) =
        run_steps-told fuel (suc i) (pre ++ step ∷ []) rest (run_step env w id i step s) _
          (split ∙ sym (append_assoc pre (step ∷ []) rest))
          (omega (arith, length-append {0} pre (step ∷ []))) (omega arith)
          (run_step-Hears i step s es h) in
      (
        s',
        rw (step_in i pre rest step split at_i, run_steps, ends),
        subst (Hears n s') (regroup es _ _ _ _) heard,
      )

-- A stored routine that no request edits while it runs, and a client that other handlers keep open:
-- whatever they do in between and whatever becomes of the steps, with more rounds than steps the run
-- ends and does not reject. The client then has received, after what it had before and in this
-- order: `routine-started`; for each step once, also behind a step that failed, what others told it
-- in the meantime and `routine-step` with the number of the step and how firing its button ended;
-- and `routine-finished`.
pub run_routine-told :
    (env : Env) (w : World) (s : Server) (id : Value) (fuel : ℕ) (r : Routine) (n : ℕ)
    (chat : Chatter) (es : List Event)
    → env.routine_db.find_by id s.routines ≡ some r
    → ((i : ℕ) → w.steps_at i ≡ r.steps)
    → length r.steps < fuel
    → IsTold w n chat
    → Hears n s es
    → (o : Outcome) × (run_routine env w fuel s id ≡ some o)
      × (o.error ≡ none)
      × Hears n o.server (
          es
          ++ (routine_started id r.name
              ∷ (told env w chat id 0 r.steps (broadcast (routine_started id r.name) s)
                  ++ (routine_finished id ∷ []))))
unfolding run_routine
run_routine-told env w s id fuel r n chat es found unedited enough hears h =
    let started = broadcast (routine_started id r.name) s in
    let (s', ends, heard) =
      run_steps-told env w id r.steps unedited n chat hears fuel 0 [] r.steps started
        (es ++ routine_started id r.name ∷ []) refl refl enough
        (broadcast-Hears n s es (routine_started id r.name) h) in
    let steps = told env w chat id 0 r.steps started in
    let finished = routine_finished id ∷ [] in
    (
      record { server = broadcast (routine_finished id) s'; error = none },
      rw (found, ends),
      refl,
      subst (Hears n (broadcast (routine_finished id) s'))
          (append_assoc (es ++ routine_started id r.name ∷ []) steps finished
            ∙ append_assoc es (routine_started id r.name ∷ []) (steps ++ finished))
          (broadcast-Hears n s' _ (routine_finished id) heard),
    )
