-- ===== src/Frontend/Routines/Sync.antt =====
-- The routine modal together with the backend, over any sequence of what a user does.
use irhub.Prelude.{
  ℕ, ◌∷◌, Option, none, some, Text, ◌≡◌, refl, sym, subst, ◌∙◌, ap, Bool-cases, inl, inr, All,
  All-get_elem?, All-reject, ◌||◌, reject,
}
use irhub.Js.{Value, str, ℤ}
use irhub.Backend.Slug.{trim}
use irhub.Backend.State.{Routine, Server, Env}
use irhub.Backend.Lowdb.{has_id}
use irhub.Backend.Http.{json, routine}
use irhub.Backend.Routines.{post_routine, delete_routine}
use irhub.Backend.Routines.Store.{routine_key}
use irhub.Frontend.Remotes.{answered}
use irhub.Frontend.Routines
use irhub.Frontend.Selects.{is_empty}
use irhub.Frontend.Routines.{
  RoutinePage, needs_name, needs_steps, needs_remote, show, save_request, routine_saved,
  delete_request, routine_deleted, add_step, remove_step, open_routine_modal, pick_step_remote,
  close_routine_modal, delay_or_zero, drop_at,
}
use irhub.Frontend.Routines.Save.{HasWholeDelays, save_request-kept, save_request-routines}
use irhub.Frontend.Routines.Draft.{
  IsStored, IsPlain, written-IsStored, add_step-HasWholeDelays, remove_step-HasWholeDelays,
}
use irhub.Frontend.Routines.Moves.{
  IsSynced, Moves, Reach, here, next, IsHeard, AllHeard, HasPlainId, save_lost, delete_lost,
  makes_new, edits, closes, types, picks_remote, adds, removes, stays, saves, save_fails, deletes,
  delete_fails,
}
use irhub.Frontend.Routines.Ids.{HasPlainId-HasTextId, origin-IsPlain, routed_id}

-- A request leaves the routines, the draft and what is edited alone.
save_request-keeps :
    (p q : RoutinePage) (o : Option Value)
    → save_request p ≡ (q, o)
    → (q.routines ≡ p.routines) × (q.editing ≡ p.editing) × (q.draft ≡ p.draft)
unfolding save_request
save_request-keeps p q o h = elim (Bool-cases (is_empty (trim p.name_input))) [
  | inl e ↦ same (show needs_name p) none (rw e at h) (refl, refl, refl)
  | inr e ↦ elim (Bool-cases (is_empty p.draft)) [
    | inl d ↦ same (show needs_steps p) none (rw (e, d) at h) (refl, refl, refl)
    | inr d ↦ same p _ (rw (e, d) at h) (refl, refl, refl)
  ]
]
  where
    same :
        (r : RoutinePage) (o' : Option Value)
        → ◌≡◌ {A = RoutinePage × Option Value} (r, o') (q, o)
        → (r.routines ≡ p.routines) × (r.editing ≡ p.editing) × (r.draft ≡ p.draft)
        → (q.routines ≡ p.routines) × (q.editing ≡ p.editing) × (q.draft ≡ p.draft)
    same r o' e facts =
        subst
          (λ (x : RoutinePage).
            (x.routines ≡ p.routines) × (x.editing ≡ p.editing) × (x.draft ≡ p.draft))
          (ap (λ (x : RoutinePage × Option Value). x.0) e) facts

IsSynced-same :
    (p q : RoutinePage) (s : Server)
    → (q.routines ≡ p.routines) × (q.editing ≡ p.editing) × (q.draft ≡ p.draft)
    → IsSynced p s
    → IsSynced q s
IsSynced-same p q s (routines, editing, draft) y = record {
  mirror = routines ∙ y.mirror;
  stored = y.stored;
  plain_id = subst HasPlainId (sym editing) y.plain_id;
  whole = subst HasWholeDelays (sym draft) y.whole;
}

saves-IsSynced :
    (env : Env) (p q : RoutinePage) (s : Server) (body : Value) (r : Routine)
    → save_request p ≡ (q, some body)
    → (post_routine env s body).1 ≡ json 200 (routine (some r))
    → IsPlain (env.short_uuid s.uuids)
    → IsSynced p s
    → IsSynced (routine_saved (answered r) q) (post_routine env s body).0
unfolding routine_saved close_routine_modal
saves-IsSynced env p q s body r e reply short y =
    let text_id = HasPlainId-HasTextId p.editing y.plain_id in
    let name = trim p.name_input in
    let (t, _, stores, reply', origin) = save_request-kept env s p q body e text_id y.whole in
    let (r', reply'', _, _, mirror, _) =
      save_request-routines env s p q body e text_id y.whole y.mirror in
    let same : r' ≡ r = cc in
    record {
      mirror = ap (λ (x : Routine). (routine_saved (answered x) q).routines) (sym same) ∙ mirror;
      stored = subst (All IsStored) (sym stores) (
          written-IsStored env s name p.draft t
            (origin-IsPlain env s p.editing t short y.plain_id origin) y.stored y.whole);
      plain_id = inl refl;
      whole = tt;
    }

deletes-IsSynced :
    (env : Env) (p : RoutinePage) (s : Server) (t : Text)
    → IsSynced p s
    → IsSynced (routine_deleted (str t) (answered tt) p) (delete_routine env s t).0
unfolding routine_deleted close_routine_modal delete_routine
deletes-IsSynced env p s t y =
    let lists = env.routine_db.remove_lem (str t) s.routines tt in
    record {
      mirror = ap (reject (has_id routine_key (str t))) y.mirror ∙ sym lists;
      stored =
          subst (All IsStored) (sym lists)
            (All-reject IsStored (has_id routine_key (str t)) s.routines y.stored);
      plain_id = inl refl;
      whole = tt;
    }

add_step-keeps :
    (parse_int : Text → Option ℤ) (p : RoutinePage)
    → ((add_step parse_int p).routines ≡ p.routines) × ((add_step parse_int p).editing ≡ p.editing)
unfolding add_step
add_step-keeps parse_int p =
    elim (Bool-cases (is_empty p.step_remote.value || is_empty p.step_button.value)) [
      | inl e ↦ rw e (refl, refl)
      | inr e ↦ rw e (refl, refl)
    ]

new_routine-IsSynced :
    (stringify : Value → Text) (p : RoutinePage) (s : Server)
    → IsSynced p s
    → IsSynced (Routines.new_routine stringify p) s
unfolding Routines.new_routine open_routine_modal
new_routine-IsSynced stringify p s y = elim (Bool-cases (is_empty p.remotes)) [
  | inl e ↦ rw e (IsSynced-same p (show needs_remote p) s (refl, refl, refl) y)
  | inr e ↦ rw e record { mirror = y.mirror; stored = y.stored; plain_id = inl refl; whole = tt }
]

module _ (env : Env) (stringify : Value → Text) (parse_int : Text → Option ℤ)
    (route : Text → Option Text) (short : (n : ℕ) → IsPlain (env.short_uuid n))
    (plainly : (c : ℕ) (t : Text) → IsPlain (c ∷ t) → route (c ∷ t) ≡ some (c ∷ t)) where
  -- Every move whose answer is not lost keeps the page and the backend in step.
  Moves-IsSynced :
      {p q : RoutinePage} {s s' : Server}
      → (m : Moves env stringify parse_int route p s q s') → IsHeard m
      → IsSynced p s
      → IsSynced q s'
  unfolding open_routine_modal close_routine_modal pick_step_remote remove_step routine_saved
      routine_deleted
  Moves-IsSynced (makes_new {p} {s}) heard y = new_routine-IsSynced stringify p s y
  Moves-IsSynced (edits {p} {s} i r e) heard y =
      let (its, whole) =
        All-get_elem? IsStored p.routines i r (subst (All IsStored) (sym y.mirror) y.stored) e in
      record { mirror = y.mirror; stored = y.stored; plain_id = inr its; whole = whole }
  Moves-IsSynced (closes {p} {s}) heard y = record {
    mirror = y.mirror;
    stored = y.stored;
    plain_id = inl refl;
    whole = tt;
  }
  Moves-IsSynced (types {p} {s} name delay) heard y = IsSynced-same p _ s (refl, refl, refl) y
  Moves-IsSynced (picks_remote {p} {s} v) heard y = IsSynced-same p _ s (refl, refl, refl) y
  Moves-IsSynced (adds {p} {s}) heard y =
      let (routines, editing) = add_step-keeps parse_int p in
      record {
        mirror = routines ∙ y.mirror;
        stored = y.stored;
        plain_id = subst HasPlainId (sym editing) y.plain_id;
        whole = add_step-HasWholeDelays parse_int p y.whole;
      }
  Moves-IsSynced (removes {p} {s} i) heard y = record {
    mirror = y.mirror;
    stored = y.stored;
    plain_id = y.plain_id;
    whole = remove_step-HasWholeDelays i p y.whole;
  }
  Moves-IsSynced (stays {p} {q} {s} e) heard y =
      IsSynced-same p q s (save_request-keeps p q none e) y
  Moves-IsSynced (saves {p} {q} {s} body r e reply) heard y =
      saves-IsSynced env p q s body r e reply (short s.uuids) y
  Moves-IsSynced (save_fails {p} {q} {s} body message e) heard y =
      IsSynced-same p _ s (save_request-keeps p q (some body) e) y
  Moves-IsSynced (save_lost body message e) lost y = absurd lost
  Moves-IsSynced (deletes {p} {s} id t e at) heard y =
      subst (λ v. IsSynced (routine_deleted v (answered tt) p) (delete_routine env s t).0)
        (sym (routed_id stringify route p id t plainly y.plain_id e at))
        (deletes-IsSynced env p s t y)
  Moves-IsSynced (delete_lost id t message e at) lost y = absurd lost
  Moves-IsSynced (delete_fails {p} {s} id message e) heard y =
      IsSynced-same p _ s (refl, refl, refl) y

  -- The page and the backend stay in step. Short uuids are plain (letters, digits, dashes and
  -- underscores), and a URL that ends in plain characters is routed with them as the id. The page
  -- shows the stored routines, all with plain strings for their ids and with whole delays, and the
  -- modal is in order. Then after any sequence of moves, of opening, typing, picking, adding, removing,
  -- saving and deleting, with requests that fail before the backend has them but with no answer of the
  -- backend lost, the same holds again.
  pub Reach-IsSynced :
      {p : RoutinePage} {s : Server} {q : RoutinePage} {t : Server}
      → IsSynced p s
      → (r : Reach env stringify parse_int route p s q t) → AllHeard r
      → IsSynced q t
  Reach-IsSynced y here all = y
  Reach-IsSynced y (next r m) (all, heard) = Moves-IsSynced m heard (Reach-IsSynced y r all)
