-- ===== src/Frontend/Routines/Moves.antt =====
-- What a user does in the routine modal, with what the page and the backend make of it.
use irhub.Prelude.{ℕ, true, Option, none, some, Text, ◌≡◌, ◌⊎◌, All, get_elem?}
use irhub.Js.{Value, null, str, ℤ}
use irhub.Frontend.Selects.{string_of}
use irhub.Backend.State.{Routine, Server, Env}
use irhub.Backend.Http.{json, routine}
use irhub.Backend.Routines.{post_routine, delete_routine}
use irhub.Frontend.Remotes.{answered, failed}
use irhub.Frontend.Routines
use irhub.Frontend.Routines.{
  RoutinePage, needs_name, needs_steps, needs_remote, show, save_request, routine_saved,
  delete_request, routine_deleted, add_step, remove_step, open_routine_modal, pick_step_remote,
  close_routine_modal, delay_or_zero, drop_at,
}
use irhub.Frontend.Routines.Save.{HasWholeDelays}
use irhub.Frontend.Routines.Draft.{IsStored, IsPlain}

-- The modal edits a new routine, or one with a plain string for its id.
abbrev pub HasPlainId : Value → Type 0
HasPlainId editing = (editing ≡ null) ⊎ ((t : Text) × (editing ≡ str t) × IsPlain t)

-- The page shows what the backend stores, and the modal holds what the backend will take.
pub record IsSynced (p : RoutinePage) (s : Server) : Type 0 where
  pub mirror : p.routines ≡ s.routines
  pub stored : All IsStored s.routines
  pub plain_id : HasPlainId p.editing
  pub whole : HasWholeDelays p.draft

-- What happens to the page and the backend: the user's moves in the modal, and its two requests. A
-- request is carried out and answered, or fails before the backend has it, or is carried out and its
-- answer lost, which the page cannot tell from a failure. `route t` is the id that the handler of
-- `DELETE /api/routines/:id` is called with for the URL `/api/routines/` and then t, if it is called.
pub data Moves (env : Env) (stringify : Value → Text) (parse_int : Text → Option ℤ)
    (route : Text → Option Text) : RoutinePage → Server → RoutinePage → Server → Type 0 where
  makes_new :
      {p : RoutinePage} {s : Server}
      → Moves env stringify parse_int route p s (Routines.new_routine stringify p) s
  edits :
      {p : RoutinePage} {s : Server} (i : ℕ) (r : Routine)
      → get_elem? p.routines i ≡ some r
      → Moves env stringify parse_int route p s (open_routine_modal stringify (some r) p) s
  closes :
      {p : RoutinePage} {s : Server}
      → Moves env stringify parse_int route p s (close_routine_modal p) s
  types :
      {p : RoutinePage} {s : Server} (name delay : Text)
      → Moves env stringify parse_int route p s
          (record p { name_input = name; delay_input = delay })
          s
  picks_remote :
      {p : RoutinePage} {s : Server} (v : Text)
      → Moves env stringify parse_int route p s (pick_step_remote stringify v p) s
  adds :
      {p : RoutinePage} {s : Server}
      → Moves env stringify parse_int route p s (add_step parse_int p) s
  removes :
      {p : RoutinePage} {s : Server} (i : ℕ)
      → Moves env stringify parse_int route p s (remove_step i p) s
  stays :
      {p q : RoutinePage} {s : Server}
      → save_request p ≡ (q, none)
      → Moves env stringify parse_int route p s q s
  saves :
      {p q : RoutinePage} {s : Server} (body : Value) (r : Routine)
      → save_request p ≡ (q, some body)
      → (post_routine env s body).1 ≡ json 200 (routine (some r))
      → Moves env stringify parse_int route p s
          (routine_saved (answered r) q)
          (post_routine env s body).0
  save_fails :
      {p q : RoutinePage} {s : Server} (body : Value) (message : Text)
      → save_request p ≡ (q, some body)
      → Moves env stringify parse_int route p s (routine_saved (failed message) q) s
  save_lost :
      {p q : RoutinePage} {s : Server} (body : Value) (message : Text)
      → save_request p ≡ (q, some body)
      → Moves env stringify parse_int route p s
          (routine_saved (failed message) q)
          (post_routine env s body).0
  deletes :
      {p : RoutinePage} {s : Server} (id : Value) (t : Text)
      → delete_request true p ≡ some id
      → route (string_of stringify id) ≡ some t
      → Moves env stringify parse_int route p s
          (routine_deleted id (answered tt) p)
          (delete_routine env s t).0
  delete_fails :
      {p : RoutinePage} {s : Server} (id : Value) (message : Text)
      → delete_request true p ≡ some id
      → Moves env stringify parse_int route p s (routine_deleted id (failed message) p) s
  delete_lost :
      {p : RoutinePage} {s : Server} (id : Value) (t message : Text)
      → delete_request true p ≡ some id
      → route (string_of stringify id) ≡ some t
      → Moves env stringify parse_int route p s
          (routine_deleted id (failed message) p)
          (delete_routine env s t).0

-- Any number of moves.
pub data Reach (env : Env) (stringify : Value → Text) (parse_int : Text → Option ℤ)
    (route : Text → Option Text) (p : RoutinePage) (s : Server)
    : RoutinePage → Server → Type 0 where
  here : Reach env stringify parse_int route p s p s
  next :
      {q r : RoutinePage} {t u : Server}
      → Reach env stringify parse_int route p s q t
      → Moves env stringify parse_int route q t r u
      → Reach env stringify parse_int route p s r u

module _ {env : Env} {stringify : Value → Text} {parse_int : Text → Option ℤ}
    {route : Text → Option Text} where
  -- No answer is lost.
  abbrev pub IsHeard :
      {p q : RoutinePage} {s t : Server} → Moves env stringify parse_int route p s q t → Type 0
  IsHeard (save_lost body message e) = ⊥
  IsHeard (delete_lost id t message e at) = ⊥
  IsHeard _ = Unit

  abbrev pub AllHeard :
      {p : RoutinePage} {s : Server} {q : RoutinePage} {t : Server}
      → Reach env stringify parse_int route p s q t
      → Type 0
  AllHeard here = Unit
  AllHeard (next r m) = AllHeard r × IsHeard m
