-- ===== src/Backend/Remotes/Lookup.antt =====
-- What `POST` and `DELETE /api/remotes` make of the stored remotes.
use irhub.Prelude.{
  List, [], ◌∷◌, ◌++◌, Option, none, some, ◌≡◌, ◌≢◌, refl, Bool-cases, inl, inr, Text, text, find,
  update_first, ◌∙◌,
}
use irhub.Js.{Value, str, IsPrimitive, truthy, or_else, nullish_else}
use irhub.Js.Laws.{strict_eq_refl, strict_eq-str-ne}
use irhub.Backend.Lowdb.{has_id}
use irhub.Backend.Lowdb.Reference.{find-append, find-update_first}
use irhub.Backend.Lowdb.Unique.{
  HasUniqueIds, HasUniqueIds-push, HasUniqueIds-update_first, has_id-apart, find-update_first_ne,
  find-append_ne,
}
use irhub.Backend.State.{Button, Remote, Server, Env}
use irhub.Backend.Remotes.{remote_id_of, write_remote}

abbrev pub remote_key : Remote → Value
remote_key r = r.id

pub remote_id_of-IsPrimitive :
    (id : Value) (name : Text) → IsPrimitive id → IsPrimitive (remote_id_of id name)
unfolding remote_id_of or_else
remote_id_of-IsPrimitive id name p = elim (Bool-cases (truthy id)) [
  | inl t ↦ rw t p
  | inr f ↦ rw f tt
]

-- What the write makes of the remotes, in terms of the list: the first remote with the id is
-- changed, or a new one stands at the end.
module _ (env : Env) (s : Server) (id : Value) (name : Text) (icon : Value)
    (buttons : List Button) where
  abbrev pub new_remote : Remote
  new_remote = record {
    id = id;
    name = name;
    icon = or_else icon (str (text "remote"));
    buttons = buttons;
  }

  pub write_new : write_remote env s id name icon none buttons ≡ s.remotes ++ new_remote ∷ []
  unfolding write_remote
  write_new = env.remote_db.push_lem _ s.remotes

  pub write_existing :
      (r : Remote)
      → IsPrimitive id
      → write_remote env s id name icon (some r) buttons
        ≡ update_first
            (has_id remote_key id)
            (λ x. record x { name = name; icon = nullish_else icon r.icon; buttons = buttons })
            s.remotes
  unfolding write_remote
  write_existing r p = env.remote_db.assign_lem id _ s.remotes p

  -- The written remote is stored under its id, with the name and the buttons of the request.
  pub write_remote-found :
      (existing : Option Remote)
      → IsPrimitive id
      → find (has_id remote_key id) s.remotes ≡ existing
      → (r : Remote) × (find
            (has_id remote_key id)
            (write_remote env s id name icon existing buttons)
          ≡ some r)
        × (r.name ≡ name)
        × (r.buttons ≡ buttons)
  write_remote-found none p e = (
    new_remote,
    rw write_new (
        find-append (has_id remote_key id) s.remotes (new_remote ∷ []) e
        ∙ (rw (strict_eq_refl id p) refl)),
    refl,
    refl,
  )
  write_remote-found (some r) p e = (
    record r { name = name; icon = nullish_else icon r.icon; buttons = buttons },
    rw (write_existing r p) (find-update_first (has_id remote_key id) _ s.remotes r (λ y h. h) e),
    refl,
    refl,
  )

  -- Remotes under other string ids are as they were.
  pub write_remote-other :
      (existing : Option Remote) (t u : Text)
      → id ≡ str t
      → t ≢ u
      → find (has_id remote_key (str u)) (write_remote env s id name icon existing buttons)
        ≡ find (has_id remote_key (str u)) s.remotes
  write_remote-other none t u e ne = rw write_new (
      find-append_ne (has_id remote_key (str u)) s.remotes new_remote
        (rw e (strict_eq-str-ne t u ne)))
  write_remote-other (some r) t u e ne = rw (write_existing r (rw e tt)) (
      find-update_first_ne (has_id remote_key (str u)) (has_id remote_key id) _ s.remotes
        (λ x. refl) (rw e (has_id-apart remote_key t u ne)))

  pub write_remote-HasUniqueIds :
      (existing : Option Remote)
      → IsPrimitive id
      → find (has_id remote_key id) s.remotes ≡ existing
      → HasUniqueIds remote_key s.remotes
      → HasUniqueIds remote_key (write_remote env s id name icon existing buttons)
  write_remote-HasUniqueIds none p e u =
      rw write_new (HasUniqueIds-push remote_key id new_remote s.remotes refl e u)
  write_remote-HasUniqueIds (some r) p e u =
      rw (write_existing r p)
        (HasUniqueIds-update_first remote_key (has_id remote_key id) _ s.remotes (λ x _. refl) u)
