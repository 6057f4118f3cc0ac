-- ===== src/Backend/Remotes/Roundtrip.antt =====
-- A client that reads a remote, changes its name and posts it back, as `renameRemote` does in
-- `frontend/app.js`.
use irhub.Prelude.{
  ℕ, true, List, [], ◌∷◌, some, ◌≡◌, refl, Text, text, Bool-cases, inl, inr, ◌∙◌, sym, text_eq,
}
use irhub.Js.{
  Value, Items, str, arr, obj, end, prop, Js, ok, IsPrimitive, field, truthy, or_else, nullish_else,
  lookup_or, is_nullish,
}
use irhub.Backend.Lowdb.{has_id}
use irhub.Backend.Lowdb.Reference.{find-update_first}
use irhub.Backend.State.{Button, Remote, Server, Env}
use irhub.Backend.Http.{nonempty_string}
use irhub.Backend.Remotes.{requested_buttons, normalize_buttons, remote_id_of, post_remote}
use irhub.Backend.Remotes.Normalize.{all_defined}
use irhub.Backend.Remotes.Lookup.{remote_key, write_existing}
use irhub.Backend.Remotes.Post.{target, written}
use irhub.Backend.Remotes.Normal.{
  IsLayout, buttons_json, button_json, normalize_buttons-repost, IsRepost, IsLayout-IsRepost,
}

-- `JSON.stringify({ id, name, icon, buttons })`, as it is read back, with the items of `buttons`.
abbrev pub request_json : Remote → Items → Value
request_json r items = obj (
    prop (text "id") r.id (
      prop (text "name") (str r.name)
        (prop (text "icon") r.icon (prop (text "buttons") (arr items) end))))

unfoldable pub remote_json : Remote → Value
remote_json r = request_json r (buttons_json r.buttons)

field-request :
    (r : Remote) (items : Items)
    → (field (text "id") (request_json r items) ≡ r.id)
      × (field (text "name") (request_json r items) ≡ str r.name)
      × (field (text "icon") (request_json r items) ≡ r.icon)
      × (field (text "buttons") (request_json r items) ≡ arr items)
unfolding field lookup_or text_eq
field-request r items = (refl, refl, refl, refl)

all_defined-json : (bs : List Button) → all_defined (buttons_json bs) ≡ true
unfolding buttons_json button_json
all_defined-json [] = refl
all_defined-json (b ∷ bs) = all_defined-json bs

named : (c : ℕ) (cs : Text) → nonempty_string (str (c ∷ cs)) ≡ some (c ∷ cs)
unfolding nonempty_string
named c cs = refl

own_target :
    (env : Env) (s : Server) (r : Remote) (items : Items) (name : Text)
    → truthy r.id ≡ true
    → target env s (request_json r items) name ≡ r.id
unfolding remote_id_of or_else
own_target env s r items name h = rw ((field-request r items).0, h)

ok_inj {ℓ} : {A : Type ℓ} {a b : A} → ◌≡◌ {A = Js A} (ok a) (ok b) → a ≡ b
ok_inj e = cc

same_icon : (v : Value) → nullish_else v v ≡ v
unfolding nullish_else
same_icon v = elim (Bool-cases (is_nullish v)) [ inl t ↦ rw t | inr f ↦ rw f ]

-- A stored remote, posted back under a name that is not empty and with items that come to the
-- buttons `kept`, is stored with this name and these buttons.
pub post_remote-request :
    (env : Env) (s : Server) (r : Remote) (c : ℕ) (cs : Text) (items : Items) (kept : List Button)
    (uuids : ℕ)
    → IsPrimitive r.id
    → truthy r.id ≡ true
    → env.remote_db.find_by r.id s.remotes ≡ some r
    → all_defined items ≡ true
    → normalize_buttons env r.buttons s.uuids 0 items ≡ ok (kept, uuids)
    → (env.remote_db.find_by r.id
          (post_remote env s (request_json (record r { name = c ∷ cs }) items)).0.remotes
        ≡ some (record r { name = c ∷ cs; buttons = kept }))
      × ((post_remote env s (request_json (record r { name = c ∷ cs }) items)).0.uuids ≡ uuids)
unfolding requested_buttons
post_remote-request env s r c cs items kept uuids prim id held defined normal =
    let r' : Remote = record r { name = c ∷ cs } in
    let (_, its_name, its_icon, its_buttons) = field-request r' items in
    let (bs, asked, post) =
      written env s (request_json r' items) (c ∷ cs) (rw its_name (named c cs))
        (rw its_buttons defined) in
    let own = own_target env s r' items (c ∷ cs) id in
    let same : bs ≡ (kept, uuids) = ok_inj (sym (rw (own, held, its_buttons) at asked) ∙ normal) in
    let lists = write_existing env s r.id (c ∷ cs) r.icon kept r prim in
    let first = sym (env.remote_db.find_lem r.id s.remotes prim) ∙ held in
    (
      rw (post, own, its_icon, held, same, lists)
          (env.remote_db.find_lem r.id _ prim
            ∙ find-update_first (has_id remote_key r.id) _ s.remotes r (λ y h. h) first
            ∙ rw (same_icon r.icon)),
      rw (post, same),
    )

-- The same with buttons in normal form.
pub post_remote-replace :
    (env : Env) (s : Server) (r : Remote) (c : ℕ) (cs : Text) (kept : List Button)
    → IsPrimitive r.id
    → truthy r.id ≡ true
    → env.remote_db.find_by r.id s.remotes ≡ some r
    → IsRepost r.buttons kept
    → (env.remote_db.find_by r.id
          (post_remote env s (remote_json (record r { name = c ∷ cs; buttons = kept }))).0.remotes
        ≡ some (record r { name = c ∷ cs; buttons = kept }))
      × ((post_remote env s (remote_json (record r { name = c ∷ cs; buttons = kept }))).0.uuids
          ≡ s.uuids)
unfolding remote_json
post_remote-replace env s r c cs kept prim id held layout =
    post_remote-request env s r c cs (buttons_json kept) kept s.uuids prim id held
      (all_defined-json kept) (normalize_buttons-repost env r.buttons kept s.uuids 0 layout)

-- Renaming. A remote `r` is stored under its id, which is truthy and no object, and its layout is
-- in normal form. Posting it back under a name that is not empty changes the name and nothing
-- else of it: the id, the icon, the buttons and their learned signals stay; no new id is made.
pub post_remote-rename :
    (env : Env) (s : Server) (r : Remote) (c : ℕ) (cs : Text)
    → IsPrimitive r.id
    → truthy r.id ≡ true
    → env.remote_db.find_by r.id s.remotes ≡ some r
    → IsLayout r.buttons r.buttons
    → (env.remote_db.find_by r.id
          (post_remote env s (remote_json (record r { name = c ∷ cs }))).0.remotes
        ≡ some (record r { name = c ∷ cs }))
      × ((post_remote env s (remote_json (record r { name = c ∷ cs }))).0.uuids ≡ s.uuids)
post_remote-rename env s r c cs prim id held layout =
    post_remote-replace env s r c cs r.buttons prim id held
      (IsLayout-IsRepost r.buttons r.buttons layout)
