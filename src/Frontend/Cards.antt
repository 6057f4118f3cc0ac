-- ===== src/Frontend/Cards.antt =====
-- The cards of routines and of rules in `frontend/app.js`, and what they say: `escapeHtml`,
-- `describeSteps`, `describeAction`.
pub mod Escape
pub mod Markup
use irhub.Prelude.{
  ℕ, suc, Bool, true, false, List, [], ◌∷◌, ◌++◌, map, Option, none, some, Text, text, decimal,
  length, take, find, ltb, ◌==◌, if◌then◌else◌,
}
use irhub.Js.{Value, num, Number, strict_eq, truthy}
use irhub.Backend.State.{
  Button, Remote, Routine, RoutineStep, Rule, RuleAction, press, routine, Condition,
}
use irhub.Frontend.Selects.{string_of}
use irhub.Frontend.Rules.{condition_text}

-- What `escapeHtml` puts for one character.
unfoldable pub escape_char : ℕ → Text
escape_char c =
    if c == b'&'
    then text "&amp;"
    else if c == b'<'
    then text "&lt;"
    else if c == b'>'
    then text "&gt;"
    else if c == b'"'
    then text "&quot;"
    else if c == b'\''
    then text "&#39;"
    else c ∷ []

-- `escapeHtml(s)`
unfoldable pub escape_html : Text → Text
unfolding escape_char
escape_html [] = []
escape_html (c ∷ s) = escape_char c ++ escape_html s

-- A template literal, as its pieces.
abbrev pub concat : List Text → Text
concat [] = []
concat (s ∷ more) = s ++ concat more

-- `labels.join(' > ')`
unfoldable pub join : List Text → Text
join [] = []
join (s ∷ []) = s
join (s ∷ t ∷ more) = s ++ text " > " ++ join (t ∷ more)

abbrev pub button_in : Option Remote → Value → Option Button
button_in none id = none
button_in (some r) id = find (λ (b : Button). strict_eq b.id id) r.buttons

-- `state.remotes.find(…)` and in it `buttons.find(…)`.
abbrev pub remote_at : List Remote → Value → Option Remote
remote_at remotes id = find (λ (r : Remote). strict_eq r.id id) remotes

module _ (stringify : Value → Text) where
  abbrev pub label_or : Text → Option Button → Text
  label_or missing none = missing
  label_or missing (some b) = string_of stringify b.label

  -- `describeSteps(steps)`
  unfoldable pub describe_steps : List Remote → List RoutineStep → Text
  unfolding join
  describe_steps remotes steps =
      let labels =
        map
          (λ (s : RoutineStep).
            label_or (text "?") (button_in (remote_at remotes s.remote_id) s.button_id))
          steps in
      if ltb 3 (length labels) then join (take 3 labels) ++ text " > ..." else join labels

  abbrev pub name_or : Text → Option Remote → Text
  name_or missing none = missing
  name_or missing (some r) = r.name

  -- The label of the i-th row of `renderRoutineSteps`, counted from 0.
  unfoldable pub step_row : List Remote → ℕ → RoutineStep → Text
  step_row remotes i step = concat (
      decimal (suc i)
      ∷ text ". "
      ∷ name_or (text "?") (remote_at remotes step.remote_id)
      ∷ text " / "
      ∷ label_or (text "?") (button_in (remote_at remotes step.remote_id) step.button_id)
      ∷ (if truthy step.delay_ms
          then text " (+" ++ string_of stringify step.delay_ms ++ text "ms)"
          else [])
      ∷ [])

  step_rows : List Remote → ℕ → List RoutineStep → List Text
  step_rows remotes i [] = []
  step_rows remotes i (step ∷ steps) = step_row remotes i step ∷ step_rows remotes (suc i) steps

  -- `renderRoutineSteps()`, for the steps of the draft.
  unfoldable pub render_routine_steps : List Remote → List RoutineStep → List Text
  unfolding step_row step_rows
  render_routine_steps remotes [] = text "no steps yet" ∷ []
  render_routine_steps remotes (step ∷ steps) = step_rows remotes 0 (step ∷ steps)

  abbrev routine_name : Value → Option Routine → Text
  routine_name id none = string_of stringify id
  routine_name id (some r) = r.name

  abbrev press_name : Option Remote → Option Button → Text
  press_name (some r) (some b) = r.name ++ text " / " ++ string_of stringify b.label
  press_name _ _ = text "missing button"

  -- `describeAction(action)`
  unfoldable pub describe_action : List Remote → List Routine → RuleAction → Text
  describe_action remotes routines (routine id) =
      text "routine \""
      ++ routine_name id (find (λ (r : Routine). strict_eq r.id id) routines)
      ++ text "\""
  describe_action remotes routines (press remote_id button_id) =
      press_name (remote_at remotes remote_id) (button_in (remote_at remotes remote_id) button_id)

  -- The `innerHTML` of a card of `renderRoutinesList`, without the white space of the template.
  abbrev pub routine_pieces : List Remote → Routine → List Text
  routine_pieces remotes r =
      text "<p class=\"text-sm font-medium truncate\">"
      ∷ escape_html r.name
      ∷ text "</p><p class=\"text-xs text-[var(--text-dim)] mono mt-0.5\">"
      ∷ decimal (length r.steps)
      ∷ text " step"
      ∷ (if length r.steps == 1 then [] else text "s")
      ∷ text " &middot; "
      ∷ escape_html (describe_steps remotes r.steps)
      ∷ text "</p>"
      ∷ []

  unfoldable pub routine_card : List Remote → Routine → Text
  unfolding escape_html describe_steps
  routine_card remotes r = concat (routine_pieces remotes r)

  -- The `innerHTML` of a card of `renderRulesList`, without the white space of the template.
  abbrev pub rule_pieces : List Remote → List Routine → Rule → List Text
  rule_pieces remotes routines r =
      text "<p class=\"text-sm font-medium truncate\">"
      ∷ escape_html (string_of stringify r.name)
      ∷ text "<span class=\"text-[10px] mono ml-1 "
      ∷ (if r.enabled then text "text-[var(--ok)]" else text "text-[var(--text-dim)]")
      ∷ text "\">"
      ∷ (if r.enabled then text "enabled" else text "paused")
      ∷ text "</span></p><p class=\"text-xs text-[var(--text-dim)] mono mt-0.5\">"
      ∷ escape_html (condition_text r.condition)
      ∷ text " "
      ∷ stringify (num r.threshold_cents)
      ∷ text " c/kWh &rarr; "
      ∷ escape_html (describe_action remotes routines r.action)
      ∷ text "</p>"
      ∷ []

  unfoldable pub rule_card : List Remote → List Routine → Rule → Text
  unfolding escape_html describe_action
  rule_card remotes routines r = concat (rule_pieces remotes routines r)

  -- The list that is rendered, or the text in place of an empty one.
  unfoldable pub render_routines_list : List Remote → List Routine → List Text
  unfolding routine_card
  render_routines_list remotes [] =
      text
        "<p class=\"text-sm text-[var(--text-dim)]\"> No routines yet. Create one to chain button presses across any remotes</p>"
      ∷ []
  render_routines_list remotes (r ∷ rs) = map (routine_card remotes) (r ∷ rs)

  unfoldable pub render_rules_list : List Remote → List Routine → List Rule → List Text
  unfolding rule_card
  render_rules_list remotes routines [] =
      text
        "<p class=\"text-sm text-[var(--text-dim)]\"> No price rules yet. Create one to react to the spot price automatically</p>"
      ∷ []
  render_rules_list remotes routines (r ∷ rs) = map (rule_card remotes routines) (r ∷ rs)
