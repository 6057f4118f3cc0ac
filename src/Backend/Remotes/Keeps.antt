-- ===== src/Backend/Remotes/Keeps.antt =====
-- Ids stay unique under `POST` and `DELETE /api/remotes`; what a repeated name does.
use irhub.Prelude.{
  ℕ, Bool, false, List, [], ◌∷◌, some, ◌≡◌, ◌≢◌, refl, arith, Bool-cases, Option-cases, inl, inr,
  Text, text, ap, ◌∙◌, sym, length, update_first,
}
use irhub.Js.{Value, str, arr, nil, ok, IsPrimitive, field, truthy, or_else}
use irhub.Backend.Slug.{slugify}
use irhub.Backend.Lowdb.{has_id}
use irhub.Backend.Lowdb.Reference.{find-reject}
use irhub.Backend.Lowdb.Unique.{HasUniqueIds, HasUniqueIds-reject, find-reject_ne, has_id-apart}
use irhub.Backend.State.{Button, Remote, Server, Env}
use irhub.Backend.Http.{
  json, ended, thrown, error, name_required, nonempty_string, remote_not_found,
}
use irhub.Backend.Remotes.{
  requested_buttons, normalize_buttons, remote_id_of, post_remote, delete_remote, get_remote,
  remote_reply,
}
use irhub.Backend.Remotes.Normalize.{is_readable}
use irhub.Backend.Remotes.Lookup.{
  remote_key, remote_id_of-IsPrimitive, write_remote-HasUniqueIds, write_existing,
  write_remote-found,
}
use irhub.Backend.Remotes.Post.{target, written, post_remote_refused}

length-update_first {ℓ} :
    {A : Type ℓ} (p : A → Bool) (f : A → A) (xs : List A) → length (update_first p f xs) ≡ length xs
length-update_first p f [] = refl
length-update_first p f (x ∷ xs) = ground (arith, length-update_first p f xs)

target_without_id :
    (env : Env) (s : Server) (body : Value) (name : Text)
    → truthy (field (text "id") body) ≡ false
    → target env s body name ≡ str (slugify name)
unfolding remote_id_of or_else
target_without_id env s body name h = rw h

no_buttons :
    (env : Env) (r : Remote) (uuids : ℕ) (bs : List Button × ℕ)
    → requested_buttons env (some r) uuids (arr nil) ≡ ok bs
    → bs.0 ≡ []
unfolding requested_buttons normalize_buttons
no_buttons env r uuids bs e = ground arith

module _ (env : Env) (s : Server) where
  find_by-remove :
      (u t : Text)
      → t ≢ u
      → env.remote_db.find_by (str u) (env.remote_db.remove (str t) s.remotes)
        ≡ env.remote_db.find_by (str u) s.remotes
  find_by-remove u t ne =
      env.remote_db.find_lem (str u) (env.remote_db.remove (str t) s.remotes) tt
      ∙ rw (env.remote_db.remove_lem (str t) s.remotes tt) (
          find-reject_ne (has_id remote_key (str u)) (has_id remote_key (str t)) s.remotes
            (has_id-apart remote_key t u ne))
      ∙ sym (env.remote_db.find_lem (str u) s.remotes tt)

  -- Whatever the request, if its `id` is no object: a database in which every string id names one
  -- remote at most is left such a database by `POST /api/remotes`.
  pub post_remote-HasUniqueIds :
      (body : Value)
      → IsPrimitive (field (text "id") body)
      → HasUniqueIds remote_key s.remotes
      → HasUniqueIds remote_key (post_remote env s body).0.remotes
  post_remote-HasUniqueIds body p u =
      elim (Option-cases (nonempty_string (field (text "name") body))) [
        | inl e ↦ rw (post_remote_refused env s body (json 400 (error name_required)) (rw e)) u
        | inr (name, e) ↦ elim (Bool-cases (is_readable (field (text "buttons") body))) [
          | inr h ↦ rw (post_remote_refused env s body thrown (rw (e, h))) u
          | inl h ↦
              let (bs, _, post) = written env s body name e h in
              let prim = remote_id_of-IsPrimitive (field (text "id") body) name p in
              rw post (
                write_remote-HasUniqueIds env s (target env s body name) name
                  (field (text "icon") body) bs.0 _ prim
                  (sym (env.remote_db.find_lem _ s.remotes prim)) u)
        ]
      ]

  -- Where string ids are unique they are after `DELETE /api/remotes/:id` too, which answers 204.
  -- Afterwards `GET` of the id is answered 404, and of another id as before.
  pub delete_remote_lem :
      (t u : Text)
      → t ≢ u
      → HasUniqueIds remote_key s.remotes
      → HasUniqueIds remote_key (delete_remote env s t).0.remotes
        × ((delete_remote env s t).1 ≡ ended 204)
        × ((get_remote env (delete_remote env s t).0 t).1 ≡ json 404 (error remote_not_found))
        × ((get_remote env (delete_remote env s t).0 u).1 ≡ (get_remote env s u).1)
  unfolding delete_remote get_remote
  delete_remote_lem t v ne u =
      let gone = env.remote_db.remove_lem (str t) s.remotes tt in
      (
        rw gone (HasUniqueIds-reject remote_key (has_id remote_key (str t)) s.remotes u),
        refl,
        rw (
          env.remote_db.find_lem (str t) (env.remote_db.remove (str t) s.remotes) tt,
          gone,
          find-reject (has_id remote_key (str t)) s.remotes,
        ),
        ap remote_reply (find_by-remove v t ne),
      )

  -- A request without an id, for a name whose slug is the id of a stored remote, creates nothing:
  -- the stored remote takes the name, and with an empty `buttons` it loses its whole layout and
  -- every learned signal. There are as many remotes as before.
  pub post_remote_overwrites :
      (body : Value) (name : Text) (r : Remote)
      → nonempty_string (field (text "name") body) ≡ some name
      → truthy (field (text "id") body) ≡ false
      → field (text "buttons") body ≡ arr nil
      → env.remote_db.find_by (str (slugify name)) s.remotes ≡ some r
      → (length (post_remote env s body).0.remotes ≡ length s.remotes)
        × (r' : Remote) × (env.remote_db.find_by
              (str (slugify name))
              (post_remote env s body).0.remotes
            ≡ some r')
        × (r'.name ≡ name)
        × (r'.buttons ≡ [])
  post_remote_overwrites body name r named no_id empty found =
      let fresh = target_without_id env s body name no_id in
      let (bs, asked, post) = written env s body name named (rw empty refl) in
      let first = sym (env.remote_db.find_lem (str (slugify name)) s.remotes tt) ∙ found in
      let none_left = no_buttons env r s.uuids bs (rw (fresh, found, empty) at asked) in
      let ws =
        write_existing env s (str (slugify name)) name (field (text "icon") body) bs.0 r tt in
      let (r', now, same_name, same_buttons) =
        write_remote-found env s (str (slugify name)) name (field (text "icon") body) bs.0 (some r)
          tt first in
      (
        rw (post, fresh, found, ws) (length-update_first _ _ s.remotes),
        r',
        rw (post, fresh, found) (env.remote_db.find_lem (str (slugify name)) _ tt ∙ now),
        same_name,
        same_buttons ∙ none_left,
      )
