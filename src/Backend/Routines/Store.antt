-- ===== src/Backend/Routines/Store.antt =====
-- What `POST` and `DELETE /api/routines` store.
use irhub.Prelude.{
  none-ne-some, true, List, Option, none, some, Text, text, ◌++◌, if◌then◌else◌, ◌≡◌, ◌≢◌, refl,
  ◌∙◌, ap, Bool-cases, Option-cases, inl, inr,
}
use irhub.Js.{Value, str, Items, truthy, or_else, field, IsPrimitive}
use irhub.Backend.Lowdb.Unique.{HasUniqueIds}
use irhub.Backend.Lowdb.Upsert.{
  upsert, upserted, upsert-found, upsert-HasUniqueIds, remove-HasUniqueIds, remove-found,
}
use irhub.Backend.State.{Routine, RoutineStep, Server, Env}
use irhub.Backend.Http.{
  Reply, json, ended, thrown, error, routine, name_required, steps_required, nonempty_string,
}
use irhub.Backend.Remotes.Normalize.{all_defined}
use irhub.Backend.Routines.{
  nonempty_array, write_routine, save_routine, post_routine, delete_routine,
}
use irhub.Backend.Routines.Run.{post_run, start_run}
use irhub.Backend.Routines.Steps.{stored_steps, normalize_steps_lem}

abbrev pub routine_key : Routine → Value
routine_key r = r.id

-- How a request with this name and these steps is refused.
abbrev pub refusal : Option Text → Option Items → Option Reply
refusal none steps = some (json 400 (error name_required))
refusal (some name) none = some (json 400 (error steps_required))
refusal (some name) (some vs) = if all_defined vs then none else some thrown

module _ (env : Env) (s : Server) where
  -- The id under which a request is stored.
  abbrev pub routine_target : Value → Value
  routine_target id = or_else id (str (text "routine-" ++ env.short_uuid s.uuids))

  routine_target-IsPrimitive : (id : Value) → IsPrimitive id → IsPrimitive (routine_target id)
  unfolding or_else
  routine_target-IsPrimitive id p = elim (Bool-cases (truthy id)) [
    | inl t ↦ rw t p
    | inr f ↦ rw f tt
  ]

  pub write_routine-eq :
      (id : Value) (name : Text) (o : Option Routine) (steps : List RoutineStep)
      → write_routine env s id name o steps
        ≡ upsert routine_key env.routine_db id
            (record { id = id; name = name; steps = steps })
            (λ r. record r { name = name; steps = steps })
            o
            s.routines
  unfolding write_routine
  write_routine-eq id name none steps = refl
  write_routine-eq id name (some r) steps = refl

  -- What is found under the id once a request is stored.
  save_routine-found :
      (id : Value) (name : Text) (steps : List RoutineStep)
      → IsPrimitive id
      → (r : Routine) × (env.routine_db.find_by (routine_target id) (
            write_routine env s
              (routine_target id)
              name
              (env.routine_db.find_by (routine_target id) s.routines)
              steps)
          ≡ some r)
        × (r.name ≡ name)
        × (r.steps ≡ steps)
  save_routine-found id name steps p =
      let target = routine_target id in
      let o = env.routine_db.find_by target s.routines in
      let new : Routine = record { id = target; name = name; steps = steps } in
      let edit = λ (r : Routine). record r { name = name; steps = steps } in
      (
        upserted routine_key env.routine_db target new edit o,
        ap (env.routine_db.find_by target) (write_routine-eq target name o steps)
            ∙ upsert-found routine_key env.routine_db target new edit
                (routine_target-IsPrimitive id p) refl (λ x _. refl) o s.routines refl,
        upserted_name o,
        upserted_steps o,
      )
    where
      upserted_name :
          (o : Option Routine)
          → (upserted routine_key env.routine_db
              (routine_target id)
              (record { id = routine_target id; name = name; steps = steps })
              (λ r. record r { name = name; steps = steps })
              o).name
            ≡ name
      upserted_name none = refl
      upserted_name (some r) = refl

      upserted_steps :
          (o : Option Routine)
          → (upserted routine_key env.routine_db
              (routine_target id)
              (record { id = routine_target id; name = name; steps = steps })
              (λ r. record r { name = name; steps = steps })
              o).steps
            ≡ steps
      upserted_steps none = refl
      upserted_steps (some r) = refl

  save_routine-HasUniqueIds :
      (id : Value) (name : Text) (steps : List RoutineStep)
      → IsPrimitive id
      → HasUniqueIds routine_key s.routines
      → HasUniqueIds routine_key (
          write_routine env s
            (routine_target id)
            name
            (env.routine_db.find_by (routine_target id) s.routines)
            steps)
  save_routine-HasUniqueIds id name steps p u =
      let o = env.routine_db.find_by (routine_target id) s.routines in
      rw (write_routine-eq (routine_target id) name o steps) (
        upsert-HasUniqueIds routine_key env.routine_db (routine_target id) _ _
          (routine_target-IsPrimitive id p) refl (λ x _. refl) o s.routines refl u)

  -- Without a name the answer is 400; with a name and no array of steps, or an empty one, 400; and
  -- with a step that is null, a TypeError. In all three the state stays.
  pub post_routine_refused :
      (body : Value) (reply : Reply)
      → refusal
          (nonempty_string (field (text "name") body))
          (nonempty_array (field (text "steps") body))
        ≡ some reply
      → post_routine env s body ≡ (s, reply)
  unfolding post_routine save_routine
  post_routine_refused body reply h =
      elim (Option-cases (nonempty_string (field (text "name") body))) [
        | inl e ↦ let h' = rw e at h in rw e (cc h')
        | inr (name, e) ↦ elim (Option-cases (nonempty_array (field (text "steps") body))) [
          | inl e' ↦ let h' = rw (e, e') at h in rw (e, e') (cc h')
          | inr (vs, e') ↦ elim (Bool-cases (all_defined vs)) [
            | inl d ↦ absurd (none-ne-some (rw (e, e', d) at h))
            | inr d ↦ let h' = rw (e, e', d) at h in rw (e, e', normalize_steps_lem vs, d) (cc h')
          ]
        ]
      ]

  -- String ids stay unique under any request.
  pub post_routine-HasUniqueIds :
      (body : Value)
      → IsPrimitive (field (text "id") body)
      → HasUniqueIds routine_key s.routines
      → HasUniqueIds routine_key (post_routine env s body).0.routines
  unfolding post_routine save_routine
  post_routine-HasUniqueIds body p u =
      elim (Option-cases (nonempty_string (field (text "name") body))) [
        | inl e ↦ rw e u
        | inr (name, e) ↦ elim (Option-cases (nonempty_array (field (text "steps") body))) [
          | inl e' ↦ rw (e, e') u
          | inr (vs, e') ↦ elim (Bool-cases (all_defined vs)) [
            | inr d ↦ rw (e, e', normalize_steps_lem vs, d) u
            | inl d ↦
                rw (e, e', normalize_steps_lem vs, d)
                  (save_routine-HasUniqueIds (field (text "id") body) name (stored_steps vs) p u)
          ]
        ]
      ]

  -- A request with a name and steps, none of them null, under an id that is no object: it is
  -- answered 200 with the routine that is then stored under the id. That one has the name, and for
  -- each step of the request one step, with its ids and its delay, or 0 for a delay that is no
  -- whole number. String ids that are unique stay so.
  pub post_routine-stores :
      (body : Value) (name : Text) (vs : Items)
      → nonempty_string (field (text "name") body) ≡ some name
      → nonempty_array (field (text "steps") body) ≡ some vs
      → all_defined vs ≡ true
      → IsPrimitive (field (text "id") body)
      → HasUniqueIds routine_key s.routines
      → (r : Routine) × ((post_routine env s body).1 ≡ json 200 (routine (some r)))
        × (env.routine_db.find_by
              (routine_target (field (text "id") body))
              (post_routine env s body).0.routines
            ≡ some r)
        × (r.name ≡ name)
        × (r.steps ≡ stored_steps vs)
        × HasUniqueIds routine_key (post_routine env s body).0.routines
  unfolding post_routine save_routine
  post_routine-stores body name vs e e' h p u =
      let id = field (text "id") body in
      let (r, found, its_name, its_steps) = save_routine-found id name (stored_steps vs) p in
      (
        r,
        rw (e, e', normalize_steps_lem vs, h, found),
        rw (e, e', normalize_steps_lem vs, h) found,
        its_name,
        its_steps,
        rw (e, e', normalize_steps_lem vs, h)
            (save_routine-HasUniqueIds id name (stored_steps vs) p u),
      )

  -- Where string ids are unique they are after `DELETE /api/routines/:id` too, which answers 204.
  -- Afterwards running the routine is answered 404 and starts nothing, and running another is
  -- answered as before.
  pub delete_routine_lem :
      (t u : Text)
      → t ≢ u
      → HasUniqueIds routine_key s.routines
      → ((delete_routine env s t).1 ≡ ended 204)
        × (post_run env (delete_routine env s t).0 t ≡ start_run none)
        × (post_run env (delete_routine env s t).0 u ≡ post_run env s u)
        × HasUniqueIds routine_key (delete_routine env s t).0.routines
  unfolding delete_routine post_run
  delete_routine_lem t v ne u =
      let (gone, others) = remove-found routine_key env.routine_db t s.routines in
      (
        refl,
        ap start_run gone,
        ap start_run (others v ne),
        remove-HasUniqueIds routine_key env.routine_db t s.routines u,
      )
