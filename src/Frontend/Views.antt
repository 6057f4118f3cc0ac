-- ===== src/Frontend/Views.antt =====
-- The four views of `frontend/app.js` and what they show: `showView`, `renderRemoteView`, `renderAll`,
-- and the start of the page, `boot`.
pub mod Panels
pub mod Grid
use irhub.Prelude.{
  ℕ, suc, Bool, true, false, not, ◌&&◌, ◌||◌, List, [], ◌∷◌, ◌++◌, map, Option, none, some, Text,
  text, length, find, ltb, if◌then◌else◌,
}
use irhub.Js.{Value, null, num, Number, number_lt, truthy, strict_eq}
use irhub.Backend.State.{Button, Remote, Routine, Rule}
use irhub.Frontend.Remotes.{Answer, answered, failed}
use irhub.Frontend.Selects.{is_empty, string_of}
use irhub.Frontend.Cards.{concat, escape_html, render_routines_list, render_rules_list}

pub data View : Type 0 where
  remote routines rules setup : View

abbrev pub is_remote : View → Bool
is_remote remote = true
is_remote _ = false

abbrev pub is_routines : View → Bool
is_routines routines = true
is_routines _ = false

abbrev pub is_rules : View → Bool
is_rules rules = true
is_rules _ = false

abbrev pub is_setup : View → Bool
is_setup setup = true
is_setup _ = false

-- A key of the grid: its class and its content.
pub record Key : Type 0 where
  pub has_signal : Bool
  pub html : Text

-- The state that is shown, and the elements that show it.
pub record Screen : Type 0 where
  pub remotes : List Remote
  pub active : Value
  pub routines : List Routine
  pub rules : List Rule
  pub view : View
  pub remote_hidden : Bool
  pub empty_hidden : Bool
  pub routines_hidden : Bool
  pub rules_hidden : Bool
  pub setup_hidden : Bool
  pub nav_routines : Bool
  pub nav_rules : Bool
  pub nav_setup : Bool
  pub name_input : Text
  pub grid : List Key
  pub routine_cards : List Text
  pub rule_cards : List Text
  -- how often the price was asked for, and the setup page looked at
  pub price_asked : ℕ
  pub support_checked : ℕ
  pub toasts : List Text

-- `(a.row - b.row) || (a.col - b.col)` is negative, for rows and columns that are numbers.
abbrev pub number_before : Value → Value → Bool
number_before (num m) (num n) = number_lt m n
number_before _ _ = false

unfoldable pub is_before : Button → Button → Bool
is_before a b =
    if number_before a.row b.row
    then true
    else if number_before b.row a.row
    then false
    else number_before a.col b.col

-- `sort`, which keeps the order of buttons that neither stands before.
unfoldable pub insert_button : Button → List Button → List Button
insert_button b [] = b ∷ []
insert_button b (c ∷ cs) = if is_before c b then c ∷ insert_button b cs else b ∷ c ∷ cs

unfoldable pub sort_buttons : List Button → List Button
unfolding insert_button
sort_buttons [] = []
sort_buttons (b ∷ bs) = insert_button b (sort_buttons bs)

module _ (stringify : Value → Text) where
  -- The key of a button.
  unfoldable pub key_of : Button → Key
  key_of b = record {
    has_signal = truthy b.signal;
    html = concat (
        text "<span class=\"text-sm font-medium\">"
        ∷ escape_html (string_of stringify b.label)
        ∷ text "</span><span class=\"text-[10px] mono "
        ∷ (if truthy b.signal then text "text-[var(--ok)]" else text "text-[var(--text-dim)]")
        ∷ text "\">"
        ∷ (if truthy b.signal then text "mapped" else text "unmapped")
        ∷ text "</span>"
        ∷ []);
  }

  abbrev shown_remote : Option Remote → Screen → Screen
  shown_remote none s = record s { remote_hidden = true; empty_hidden = ltb 0 (length s.remotes) }
  shown_remote (some r) s = record s {
    empty_hidden = true;
    remote_hidden = false;
    name_input = r.name;
    grid = map key_of (sort_buttons r.buttons);
  }

  -- `renderRemoteView()`
  unfoldable pub render_remote_view : Screen → Screen
  unfolding key_of sort_buttons
  render_remote_view s = shown_remote (find (λ (r : Remote). strict_eq r.id s.active) s.remotes) s

  -- The classes that `showView(view)` toggles.
  abbrev pub toggled : View → Screen → Screen
  toggled v s = record s {
    view = v;
    remote_hidden = not (is_remote v);
    empty_hidden = not (is_remote v) || ltb 0 (length s.remotes);
    routines_hidden = not (is_routines v);
    rules_hidden = not (is_rules v);
    setup_hidden = not (is_setup v);
    nav_routines = is_routines v;
    nav_rules = is_rules v;
    nav_setup = is_setup v;
  }

  abbrev with_routines : Screen → Screen
  with_routines s = record s { routine_cards = render_routines_list stringify s.remotes s.routines }

  abbrev with_rules : Screen → Screen
  with_rules s = record s { rule_cards = render_rules_list stringify s.remotes s.routines s.rules }

  abbrev pub rendered : View → Screen → Screen
  rendered remote s = render_remote_view s
  rendered routines s = with_routines s
  rendered rules s = record (with_rules s) { price_asked = suc s.price_asked }
  rendered setup s = record s { support_checked = suc s.support_checked }

  -- `showView(view)`
  unfoldable pub show_view : View → Screen → Screen
  unfolding render_remote_view
  show_view v s = rendered v (toggled v s)

  abbrev rendered_again : View → Screen → Screen
  rendered_again remote s = render_remote_view s
  rendered_again routines s = with_routines s
  rendered_again rules s = with_rules s
  rendered_again setup s = s

  -- `renderAll()`, less the list of remotes at the side.
  unfoldable pub render_all : Screen → Screen
  unfolding render_remote_view
  render_all s = rendered_again s.view s

  abbrev notify : Text → Screen → Screen
  notify message s = record s { toasts = s.toasts ++ message ∷ [] }

  -- `state.remotes[0]?.id || null`
  abbrev first_active : List Remote → Value
  first_active [] = null
  first_active (r ∷ rs) = if truthy r.id then r.id else null

  abbrev loaded_remotes : Answer (List Remote) → Screen → Screen
  loaded_remotes (answered rs) s = record s { remotes = rs; active = first_active rs }
  loaded_remotes (failed message) s = notify (text "Could not reach backend: " ++ message) s

  -- The rules are asked for once the routines are there.
  abbrev loaded_automation : Answer (List Routine) → Answer (List Rule) → Screen → Screen
  loaded_automation (failed message) ys s = notify (text "Could not load automation: " ++ message) s
  loaded_automation (answered xs) (failed message) s =
      notify (text "Could not load automation: " ++ message) (record s { routines = xs })
  loaded_automation (answered xs) (answered ys) s = record s { routines = xs; rules = ys }

  -- `boot()`, less the WebSocket, with the answers of the backend. It asks for the price at its end.
  unfoldable pub boot :
      Answer (List Remote) → Answer (List Routine) → Answer (List Rule) → Screen → Screen
  unfolding show_view
  boot asked_remotes asked_routines asked_rules s =
      let shown : Screen =
        show_view remote
          (loaded_automation asked_routines asked_rules (loaded_remotes asked_remotes s)) in
      record shown { price_asked = suc shown.price_asked }
