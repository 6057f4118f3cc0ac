-- ===== src/Backend/Remotes/Post.antt =====
-- `POST /api/remotes`, branch by branch.
use irhub.Prelude.{
  none-ne-some, ℕ, Bool, true, false, List, Option, none, some, ◌≡◌, ◌≢◌, refl, Bool-cases,
  Option-cases, inl, inr, Text, text, ◌∙◌, sym,
}
use irhub.Js.{Value, str, ok, IsPrimitive, field}
use irhub.Backend.State.{Button, Remote, Server, Env}
use irhub.Backend.Http.{Reply, json, thrown, error, remote, name_required, nonempty_string}
use irhub.Backend.Remotes.{requested_buttons, remote_id_of, write_remote, save_remote, post_remote}
use irhub.Backend.Remotes.Normalize.{
  is_readable, requested_buttons-readable, requested_buttons-unreadable,
}
use irhub.Backend.Remotes.Lookup.{remote_id_of-IsPrimitive, write_remote-found, write_remote-other}

-- How a request with this name and with readable `buttons`, or not, is refused.
abbrev pub refusal : Option Text → Bool → Option Reply
refusal none readable = some (json 400 (error name_required))
refusal (some name) false = some thrown
refusal (some name) true = none

module _ (env : Env) (s : Server) (body : Value) where
  -- The id that the request is about, where its name is `name`.
  abbrev pub target : Text → Value
  target name = remote_id_of (field (text "id") body) name

  -- A request with no name is answered 400, and one whose `buttons` hold null ends in a TypeError:
  -- in both cases the database, the clients and the hub are left as they were.
  pub post_remote_refused :
      (reply : Reply)
      → refusal
          (nonempty_string (field (text "name") body))
          (is_readable (field (text "buttons") body))
        ≡ some reply
      → post_remote env s body ≡ (s, reply)
  unfolding post_remote save_remote
  post_remote_refused reply h = elim (Option-cases (nonempty_string (field (text "name") body))) [
    | inl e ↦ let h' = rw e at h in rw (e, post_remote) (cc h')
    | inr (name, e) ↦ elim (Bool-cases (is_readable (field (text "buttons") body))) [
      | inl r ↦ absurd (none-ne-some (rw (e, r) at h))
      | inr r ↦
          let h' = rw (e, r) at h in
          rw
            (
              e,
              post_remote,
              save_remote,
              requested_buttons-unreadable env (env.remote_db.find_by (target name) s.remotes)
                  s.uuids (field (text "buttons") body) r,
            )
            (cc h')
    ]
  ]

  module _ (name : Text) (named : nonempty_string (field (text "name") body) ≡ some name) where
    -- The state and the reply of a request that is carried out.
    pub written :
        is_readable (field (text "buttons") body) ≡ true
        → (bs : List Button × ℕ) × (requested_buttons env
              (env.remote_db.find_by (target name) s.remotes)
              s.uuids
              (field (text "buttons") body)
            ≡ ok bs)
          × (post_remote env s body ≡ (
              let ws =
                write_remote env s
                  (target name)
                  name
                  (field (text "icon") body)
                  (env.remote_db.find_by (target name) s.remotes)
                  bs.0 in
              (
                record s { remotes = ws; uuids = bs.1 },
                json 200 (remote (env.remote_db.find_by (target name) ws)),
              )))
    unfolding post_remote save_remote
    written h =
        let (bs, e) =
          requested_buttons-readable env (env.remote_db.find_by (target name) s.remotes) s.uuids
            (field (text "buttons") body) h in
        (bs, e, rw (named, post_remote, save_remote, e))

    -- A named request whose `buttons` hold no null, under an id that is no object: it is answered
    -- 200 with the remote that is then stored under the id. That one has the name of the request,
    -- and the buttons that the request asks for.
    pub post_remote-stores :
        IsPrimitive (field (text "id") body)
        → is_readable (field (text "buttons") body) ≡ true
        → (r : Remote) × (bs : List Button × ℕ) × (requested_buttons env
              (env.remote_db.find_by (target name) s.remotes)
              s.uuids
              (field (text "buttons") body)
            ≡ ok bs)
          × ((post_remote env s body).1 ≡ json 200 (remote (some r)))
          × (env.remote_db.find_by (target name) (post_remote env s body).0.remotes ≡ some r)
          × (r.name ≡ name)
          × (r.buttons ≡ bs.0)
    post_remote-stores p h =
        let (bs, e, post) = written h in
        let prim = remote_id_of-IsPrimitive (field (text "id") body) name p in
        let existing = env.remote_db.find_by (target name) s.remotes in
        let old = env.remote_db.find_lem (target name) s.remotes prim in
        let (r, found, same_name, same_buttons) =
          write_remote-found env s (target name) name (field (text "icon") body) bs.0 existing prim
            (sym old) in
        let now =
          env.remote_db.find_lem (target name)
            (write_remote env s (target name) name (field (text "icon") body) existing bs.0) prim
          ∙ found in
        (r, bs, e, rw (post, now) refl, rw post now, same_name, same_buttons)

    -- Under two different string ids, a request for the one leaves the remote under the other.
    pub post_remote-other :
        (t u : Text)
        → target name ≡ str t
        → t ≢ u
        → is_readable (field (text "buttons") body) ≡ true
        → env.remote_db.find_by (str u) (post_remote env s body).0.remotes
          ≡ env.remote_db.find_by (str u) s.remotes
    post_remote-other t u same ne h =
        let (bs, e, post) = written h in
        rw (post, env.remote_db.find_lem (str u) _ tt, env.remote_db.find_lem (str u) _ tt)
          (write_remote-other env s (target name) name (field (text "icon") body) bs.0
            (env.remote_db.find_by (target name) s.remotes) t u same ne)
