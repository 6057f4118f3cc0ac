-- ===== src/Tests/Remotes.antt =====
-- Remotes posted, renamed and deleted; the ids made for them.
use irhub.Prelude.{
  ℕ, List, [], none, some, text, text_eq, text_eq_ne, length, if◌then◌else◌, ◌≡◌, refl, arith, ◌&&◌,
}
use irhub.Js.{
  Value, str, arr, nil, cons, obj, end, prop, ok, truthy, or_else, field, lookup_or, strict_eq,
  is_integer,
}
use irhub.Backend.Slug.{slugify}
use irhub.Backend.Slug.Shape.{IsSlug, slugify-IsSlug, slugify_idempotent}
use irhub.Backend.Lowdb.Unique.{HasUniqueIds}
use irhub.Backend.State.{Button, Remote}
use irhub.Backend.Http.{json, ended, error, remote, remote_not_found, nonempty_string, ids_required}
use irhub.Backend.Remotes.{requested_buttons, post_remote, get_remote, delete_remote, remote_id_of}
use irhub.Backend.Remotes.Lookup.{remote_key}
use irhub.Backend.Remotes.Post.{target, post_remote-stores, post_remote-other}
use irhub.Backend.Remotes.Keeps.{delete_remote_lem, post_remote_overwrites}
use irhub.Backend.Remotes.Normal.{IsNormal, IsLayout}
use irhub.Backend.Fire.{fire_button, post_send}
use irhub.Backend.Fire.Agree.{reply_of, post_send-fire_button}
use irhub.Tests.World.{env, power, mute, tv, home}

slugify_bedroom : slugify (text "  Bedroom AC (2) ") ≡ text "bedroom-ac-2"
unfolding slugify
slugify_bedroom = refl

slugify-IsSlug_example : IsSlug (slugify (text " TV! "))
slugify-IsSlug_example = slugify-IsSlug (text " TV! ")

slugify_idempotent_example : slugify (slugify (text " TV! ")) ≡ slugify (text " TV! ")
slugify_idempotent_example = slugify_idempotent (text " TV! ")

-- A request for a remote "Lamp" with one button.
abbrev lamp : Value
lamp = obj (
    prop (text "name") (str (text "Lamp")) (
      prop (text "buttons") (arr (cons (obj (prop (text "label") (str (text "On")) end)) nil)) end))

-- A request without a name, and one for a remote "TV" without buttons.
abbrev nameless : Value
nameless = obj end

abbrev bare_tv : Value
bare_tv = obj (prop (text "name") (str (text "TV")) (prop (text "buttons") (arr nil) end))

post_remote-stores_example :
    (r : Remote) × (bs : List Button × ℕ) × (requested_buttons env
        (env.remote_db.find_by (target env home lamp (text "Lamp")) home.remotes)
        home.uuids
        (field (text "buttons") lamp)
      ≡ ok bs)
    × ((post_remote env home lamp).1 ≡ json 200 (remote (some r)))
    × (env.remote_db.find_by
          (target env home lamp (text "Lamp"))
          (post_remote env home lamp).0.remotes
        ≡ some r)
    × (r.name ≡ text "Lamp")
    × (r.buttons ≡ bs.0)
unfolding nonempty_string field lookup_or text_eq
post_remote-stores_example = post_remote-stores env home lamp (text "Lamp") refl tt refl

post_remote-other_example :
    env.remote_db.find_by (str (text "tv")) (post_remote env home lamp).0.remotes
    ≡ env.remote_db.find_by (str (text "tv")) home.remotes
unfolding nonempty_string field lookup_or text_eq remote_id_of or_else truthy slugify
post_remote-other_example =
    post_remote-other env home lamp (text "Lamp") refl (text "lamp") (text "tv") refl
      (text_eq_ne _ _ refl) refl

home-HasUniqueIds : HasUniqueIds remote_key home.remotes
unfolding strict_eq
home-HasUniqueIds = λ t. ground arith

delete_remote_lem_example :
    HasUniqueIds remote_key (delete_remote env home (text "tv")).0.remotes
    × ((delete_remote env home (text "tv")).1 ≡ ended 204)
    × ((get_remote env (delete_remote env home (text "tv")).0 (text "tv")).1
        ≡ json 404 (error remote_not_found))
    × ((get_remote env (delete_remote env home (text "tv")).0 (text "ac")).1
        ≡ (get_remote env home (text "ac")).1)
unfolding text_eq
delete_remote_lem_example =
    delete_remote_lem env home (text "tv") (text "ac") (text_eq_ne _ _ refl) home-HasUniqueIds

post_remote_overwrites_example :
    (length (post_remote env home bare_tv).0.remotes ≡ length home.remotes)
    × (r' : Remote) × (env.remote_db.find_by
          (str (slugify (text "TV")))
          (post_remote env home bare_tv).0.remotes
        ≡ some r')
    × (r'.name ≡ text "TV")
    × (r'.buttons ≡ [])
unfolding nonempty_string field lookup_or text_eq truthy slugify strict_eq
post_remote_overwrites_example =
    post_remote_overwrites env home bare_tv (text "TV") tv refl refl refl refl

-- The layout of the television is one that the server stored.
power-IsNormal : IsNormal power
unfolding truthy is_integer or_else
power-IsNormal = record {
  has_id = refl;
  has_label = refl;
  whole_row = refl;
  whole_col = refl;
  icon_or_null = refl;
  signal_defined = λ e. cc;
}

mute-IsNormal : IsNormal mute
unfolding truthy is_integer or_else
mute-IsNormal = record {
  has_id = refl;
  has_label = refl;
  whole_row = refl;
  whole_col = refl;
  icon_or_null = refl;
  signal_defined = λ e. cc;
}

pub tv-IsLayout : IsLayout tv.buttons tv.buttons
unfolding strict_eq text_eq
tv-IsLayout = ((power-IsNormal, refl), ((mute-IsNormal, refl), tt))

-- A request to send the power button.
abbrev press_power : Value
press_power =
    obj (prop (text "remoteId") (str (text "tv")) (prop (text "buttonId") (str (text "p")) end))

post_send-fire_button_example : post_send env home press_power none ≡ (
    let rid = field (text "remoteId") press_power in
    let bid = field (text "buttonId") press_power in
    let fired = fire_button env home rid bid none in
    if truthy rid && truthy bid
    then (fired.0, reply_of rid bid fired.1)
    else (home, json 400 (error ids_required)))
post_send-fire_button_example = post_send-fire_button env home press_power none
