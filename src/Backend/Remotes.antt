-- ===== src/Backend/Remotes.antt =====
-- The remotes of the REST API: `GET`, `POST` and `DELETE /api/remotes` in `backend/server.js`.
pub mod Normalize
pub mod Lookup
pub mod Post
pub mod Keeps
pub mod Normal
pub mod Roundtrip
use irhub.Prelude.{
  ℕ, suc, ◌+◌, ◌/◌, ◌%◌, Bool, true, false, List, [], ◌∷◌, ◌++◌, Option, none, some, Text, text,
  decimal, if◌then◌else◌, find,
}
use irhub.Js.{
  Value, undefined, null, num, str, arr, Items, nil, cons, of_ℕ, truthy, or_else, nullish_else,
  is_integer, strict_eq, field, member, Js, ok, type_error, ◌>>=◌,
}
use irhub.Backend.Slug.{slugify}
use irhub.Backend.State.{Button, Remote, Server, Env}
use irhub.Backend.Http.{
  Reply, json, ended, thrown, Body, error, remote, name_required, remote_not_found, nonempty_string,
}
use irhub.Backend.Http

-- `existing?.buttons`
abbrev pub existing_buttons : Option Remote → List Button
existing_buttons none = []
existing_buttons (some r) = r.buttons

-- `existing?.buttons.find((eb) => eb.id === b.id)?.signal ?? null`
unfoldable pub kept_signal : List Button → Value → Value
kept_signal buttons id = elim (find (λ (eb : Button). strict_eq eb.id id) buttons) [
  | none ↦ null
  | some eb ↦ nullish_else eb.signal null
]

-- The id of the remote that a request is about.
unfoldable pub remote_id_of : Value → Text → Value
remote_id_of id name = or_else id (str (slugify name))

-- `GET /api/remotes`
unfoldable pub get_remotes : Server → Server × Reply
get_remotes s = (s, json 200 (Http.remotes s.remotes))

abbrev pub remote_reply : Option Remote → Reply
remote_reply none = json 404 (error remote_not_found)
remote_reply (some r) = json 200 (remote (some r))

module _ (env : Env) where
  -- The button that `buttons.map` makes of `b` at index `idx`, after `uuids` calls of `uuidv4`.
  unfoldable pub normalized_button : List Button → ℕ → ℕ → Value → Button
  normalized_button existing uuids idx b =
      let id = field (text "id") b in
      let row = field (text "row") b in
      let col = field (text "col") b in
      record {
        id = or_else id (str (text "btn-" ++ env.short_uuid uuids));
        label = or_else (field (text "label") b) (str (text "Button " ++ decimal (idx + 1)));
        row = if is_integer row then row else num (of_ℕ (idx / 3));
        col = if is_integer col then col else num (of_ℕ (idx % 3));
        icon = or_else (field (text "icon") b) null;
        signal = nullish_else (field (text "signal") b) (kept_signal existing id);
      }

  -- The call itself, with the number of calls of `uuidv4` afterwards: `b.id` throws if `b` is null
  -- or undefined.
  unfoldable pub normalize_button : List Button → ℕ → ℕ → Value → Js (Button × ℕ)
  normalize_button existing uuids idx b = do
    id ← member (text "id") b
    ok (normalized_button existing uuids idx b, if truthy id then uuids else suc uuids)

  -- `buttons.map(…)` from index `idx` on.
  unfoldable pub normalize_buttons : List Button → ℕ → ℕ → Items → Js (List Button × ℕ)
  normalize_buttons existing uuids idx nil = ok ([], uuids)
  normalize_buttons existing uuids idx (cons b bs) = normalize_button existing uuids idx b >>= λ bn.
      normalize_buttons existing bn.1 (suc idx) bs >>= λ rest. ok (bn.0 ∷ rest.0, rest.1)

  -- `Array.isArray(buttons) ? buttons.map(…) : existing?.buttons || []`
  unfoldable pub requested_buttons : Option Remote → ℕ → Value → Js (List Button × ℕ)
  requested_buttons existing uuids (arr bs) =
      normalize_buttons (existing_buttons existing) uuids 0 bs
  requested_buttons existing uuids _ = ok (existing_buttons existing, uuids)

  -- The write of `POST /api/remotes`, and its reply.
  unfoldable pub write_remote :
      Server → Value → Text → Value → Option Remote → List Button → List Remote
  write_remote s id name icon none buttons =
      env.remote_db.push
        (record {
          id = id;
          name = name;
          icon = or_else icon (str (text "remote"));
          buttons = buttons;
        })
        s.remotes
  write_remote s id name icon (some existing) buttons =
      env.remote_db.assign id
        (λ r. record r { name = name; icon = nullish_else icon existing.icon; buttons = buttons })
        s.remotes

  abbrev stored : Server → Value → Server × Reply
  stored s id = (s, json 200 (remote (env.remote_db.find_by id s.remotes)))

  unfoldable pub save_remote : Server → Value → Text → Value → Value → Server × Reply
  save_remote s id name icon buttons =
      let existing = env.remote_db.find_by id s.remotes in
      elim (requested_buttons existing s.uuids buttons) [
        | type_error ↦ (s, thrown)
        | ok (normalized, uuids) ↦
            let written = write_remote s id name icon existing normalized in
            stored (record s { remotes = written; uuids = uuids }) id
      ]

  -- `POST /api/remotes`
  unfoldable pub post_remote : Server → Value → Server × Reply
  post_remote s body = elim (nonempty_string (field (text "name") body)) [
    | none ↦ (s, json 400 (error name_required))
    | some name ↦
        save_remote s (remote_id_of (field (text "id") body) name) name (field (text "icon") body)
          (field (text "buttons") body)
  ]

  -- `GET /api/remotes/:id`
  unfoldable pub get_remote : Server → Text → Server × Reply
  get_remote s id = (s, remote_reply (env.remote_db.find_by (str id) s.remotes))

  -- `DELETE /api/remotes/:id`
  unfoldable pub delete_remote : Server → Text → Server × Reply
  delete_remote s id = (record s { remotes = env.remote_db.remove (str id) s.remotes }, ended 204)
