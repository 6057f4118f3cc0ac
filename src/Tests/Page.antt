-- ===== src/Tests/Page.antt =====
-- The page with the same house.
use irhub.Prelude.{
  Text, Option, suc, length, ◌++◌, map, true, [], ◌∷◌, none, some, text, text_eq, find, ◌≡◌, refl,
}
use irhub.Js.{str, truthy, strict_eq}
use irhub.Backend.State.{FireError}
use irhub.Frontend.Live.{LivePage}
use irhub.Backend.Remotes.{post_remote}
use irhub.Frontend.Remotes.{Ui, add_button_body, delete_button_body}
use irhub.Js.{Value, Number}
use irhub.Frontend.Remotes.{new_label, save_button_body}
use irhub.Frontend.Remotes.Relabel.{relabelled, post_remote-save_button_body}
use irhub.Frontend.Remotes.Add.{new_button, post_remote-add_button_body}
use irhub.Frontend.Remotes.Delete.{other_buttons, post_remote-delete_button_body}
use irhub.Tests.World.{env, mute, tv, home, learning}
use irhub.Tests.Remotes.{tv-IsLayout}

-- The page shows the television and waits for a signal.
abbrev waiting_page : Ui
waiting_page = record {
  object = λ _. tv;
  next_object = 1;
  remotes = 0 ∷ [];
  active_remote_id = str (text "tv");
  learning = true;
  modal = some (0, mute);
  toasts = [];
  drawn = tv ∷ [];
}

abbrev live_page : LivePage
live_page = record {
  ui = waiting_page;
  mqtt_online = true;
  price_value = [];
  price_updated = [];
  reconnects = 0;
}

abbrev error_text : FireError → Text
error_text e = text "failed"

post_remote-delete_button_body_example :
    (env.remote_db.find_by tv.id
        (post_remote env home (delete_button_body tv (str (text "m")))).0.remotes
      ≡ some (record tv { buttons = other_buttons tv (str (text "m")) }))
    × ((post_remote env home (delete_button_body tv (str (text "m")))).0.uuids ≡ home.uuids)
    × (find (λ b. strict_eq b.id (str (text "m"))) (other_buttons tv (str (text "m"))) ≡ none)
unfolding truthy strict_eq text_eq
post_remote-delete_button_body_example =
    post_remote-delete_button_body env home tv (str (text "m")) 84 (text "V") refl tt refl refl
      tv-IsLayout

post_remote-save_button_body_example :
    (env.remote_db.find_by tv.id
        (post_remote env home (save_button_body tv mute (text " Quiet "))).0.remotes
      ≡ some (record tv {
        buttons = map (relabelled mute.id (new_label (text " Quiet ") mute)) tv.buttons;
      }))
    × ((post_remote env home (save_button_body tv mute (text " Quiet "))).0.uuids ≡ home.uuids)
unfolding truthy strict_eq text_eq
post_remote-save_button_body_example =
    post_remote-save_button_body env home tv mute (text " Quiet ") 84 (text "V") refl tt refl refl
      refl tv-IsLayout

post_remote-add_button_body_example :
    (env.remote_db.find_by tv.id
        (post_remote env home (add_button_body tv (text "Power"))).0.remotes
      ≡ some (record tv {
        buttons = tv.buttons ++ new_button env home.uuids (length tv.buttons) (text "Power") ∷ [];
      }))
    × ((post_remote env home (add_button_body tv (text "Power"))).0.uuids ≡ suc home.uuids)
unfolding truthy strict_eq text_eq
post_remote-add_button_body_example =
    post_remote-add_button_body env home tv 80 (text "ower") 84 (text "V") refl tt refl refl
      tv-IsLayout

-- `String` and `Number` of what the captured signal holds.
abbrev stringify : Value → Text
stringify v = text "38000"

abbrev to_number : Value → Option Number
to_number v = none
