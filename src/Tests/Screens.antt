-- ===== src/Tests/Screens.antt =====
-- The views, the cards and the messages of the page.
use irhub.Prelude.{
  true, false, List, [], ◌∷◌, ◌++◌, map, none, some, is_some, decimal, Text, text, text_eq, All,
  find, ◌≡◌, refl,
}
use mathlib.Core.List.{Perm}
use irhub.Js.{Value, str, truthy, strict_eq}
use irhub.Backend.State.{Remote, Button, Event, learn_result, learned}
use irhub.Frontend.Selects.{is_empty}
use irhub.Frontend.Cards.{escape_html, routine_card, rule_card}
use irhub.Frontend.Cards.Escape.{unescape, is_markup, unescape-escape_html}
use irhub.Frontend.Cards.Markup.{markup, markup-cards}
use irhub.Frontend.Views.{View, Screen, Key, key_of, render_remote_view, show_view}
use irhub.Frontend.Views.Panels.{visible, panels_of, show_view-visible}
use irhub.Frontend.Views.Grid.{IsOrdered, render_remote_view-grid}
use irhub.Frontend.Live.{LivePage, event_json, on_ws_message}
use irhub.Frontend.Live.Messages.{heard, on_ws_message-heard}
use irhub.Frontend.Setup.Apply.{
  Page, setup_apply, on_setup_disconnected, reset_setup_ui, on_prov_status,
}
use irhub.Frontend.Setup.Find.{found, Readings, setup_find}
use irhub.Frontend.Setup.Find.Usable.{IsUsable}
use irhub.Frontend.Setup.Find.Reachable.{Moves, Reach, Reach-IsUsable}
use irhub.Tests.World.{tv, evening, cheap, signal}
use irhub.Tests.Setup.{page, whole_number, steady, online_view}

abbrev stringify : Value → Text
stringify v = text "5"

unescape-escape_html_example :
    (unescape 0 (escape_html (text "<b>Tom & Co</b>") ++ text "!")
      ≡ text "<b>Tom & Co</b>" ++ unescape 0 (text "!"))
    × All (λ c. is_markup c ≡ false) (escape_html (text "<b>Tom & Co</b>"))
unescape-escape_html_example = unescape-escape_html (text "<b>Tom & Co</b>") (text "!")

markup-cards_example :
    (markup (routine_card stringify (tv ∷ []) evening) ≡ 12)
    × (markup (rule_card stringify (tv ∷ []) (evening ∷ []) cheap) ≡ 18)
markup-cards_example = markup-cards stringify (tv ∷ []) (evening ∷ []) evening cheap refl

abbrev screen : Screen
screen = record {
  remotes = tv ∷ [];
  active = str (text "tv");
  routines = evening ∷ [];
  rules = cheap ∷ [];
  view = View.rules;
  remote_hidden = true;
  empty_hidden = true;
  routines_hidden = true;
  rules_hidden = false;
  setup_hidden = true;
  nav_routines = false;
  nav_rules = true;
  nav_setup = false;
  name_input = [];
  grid = [];
  routine_cards = [];
  rule_cards = [];
  price_asked = 1;
  support_checked = 0;
  toasts = [];
}

show_view-visible_example :
    visible (show_view stringify View.remote screen)
    ≡ panels_of View.remote
        (is_some (find (λ (r : Remote). strict_eq r.id screen.active) screen.remotes))
        (is_empty screen.remotes)
show_view-visible_example = show_view-visible stringify screen View.remote

screen-shows : find (λ (r : Remote). strict_eq r.id screen.active) screen.remotes ≡ some tv
unfolding strict_eq text_eq
screen-shows = refl

render_remote_view-grid_example :
    (bs : List Button) × ((render_remote_view stringify screen).grid ≡ map (key_of stringify) bs)
    × Perm bs tv.buttons
    × IsOrdered bs
    × (map (λ (k : Key). k.has_signal) (render_remote_view stringify screen).grid
        ≡ map (λ (b : Button). truthy b.signal) bs)
render_remote_view-grid_example = render_remote_view-grid stringify screen tv screen-shows

abbrev live : LivePage
live = record {
  ui = record {
    object = λ _. tv;
    next_object = 1;
    remotes = 0 ∷ [];
    active_remote_id = str (text "tv");
    learning = true;
    modal = none;
    toasts = [];
    drawn = [];
  };
  mqtt_online = false;
  price_value = text "--";
  price_updated = [];
  reconnects = 0;
}

abbrev result : Event
result = learn_result (str (text "tv")) (str (text "m")) (learned signal)

on_ws_message-heard_example :
    on_ws_message (some (event_json (λ _. text "failed") result)) live ≡ heard result live
on_ws_message-heard_example = on_ws_message-heard (λ _. text "failed") result live

page-IsUsable : IsUsable page
page-IsUsable = record { connected = λ h. (refl, refl); held = λ h. refl }

abbrev readings : Readings
readings = record {
  status = online_view;
  ssid = text "Home";
  host = text "192.168.1.10";
  port = 91 ∷ 7 ∷ [];
}

abbrev found_again : Page
found_again =
    setup_find (λ bytes. bytes) (found (some (text "IRHub-1A2B")) readings)
      (on_setup_disconnected page)

-- The hub is dropped and found again, and the form is applied.
Reach-IsUsable_example : IsUsable (setup_apply whole_number steady found_again)
Reach-IsUsable_example =
    Reach-IsUsable whole_number (λ bytes. bytes) page-IsUsable
      (Reach.next
        (Reach.next (Reach.next Reach.here Moves.drops)
          (Moves.finds (found (some (text "IRHub-1A2B")) readings)))
        (Moves.applies steady (λ i q u. u)))

found_again-form : (found_again.form_disabled ≡ false) × (found_again.form.port ≡ text "1883")
unfolding setup_find on_setup_disconnected reset_setup_ui on_prov_status decimal
found_again-form = (refl, refl)
