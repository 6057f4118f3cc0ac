-- ===== src/Frontend/Rules.antt =====
-- The rule modal of `frontend/app.js`, the list of rules that it changes, and pausing one. What the
-- backend answers is an argument.
pub mod Open
pub mod Save
pub mod Targets
pub mod Reopen
pub mod Toggle
use irhub.Prelude.{
  ℕ, zero, suc, Bool, true, false, not, ◌||◌, List, [], ◌∷◌, ◌++◌, Option, none, some, Text, text,
  reject, if◌then◌else◌,
}
use irhub.Js.{Value, null, bool, num, str, obj, Fields, end, prop, Number, truthy}
use irhub.Backend.Slug.{trim}
use irhub.Backend.Lowdb.{has_id}
use irhub.Backend.Lowdb.Places.{set}
use irhub.Backend.State.{Remote, Routine, Rule, RuleAction, press, routine, Condition, below, above}
use irhub.Backend.Rules.Evaluate.Pass.{rule_key}
use irhub.Frontend.Remotes.{Answer, answered, failed}
use irhub.Frontend.Saved.{place_saved}
use irhub.Frontend.Selects.{
  Select, is_empty, string_of, choose, populate_remote_select, populate_button_select,
  populate_routine_select,
}

-- The messages of `toast`.
pub data RuleToast : Type 0 where
  needs_target needs_name needs_number needs_routine needs_button : RuleToast
  saved : (name : Value) → RuleToast
  problem : (message : Text) → RuleToast

-- The options of `ruleActionType`.
pub data ActionKind : Type 0 where
  a_button a_routine : ActionKind

-- The page, as far as rules go.
pub record RulePage : Type 0 where
  pub remotes : List Remote
  pub routines : List Routine
  pub rules : List Rule
  pub editing : Value
  pub name_input : Text
  pub condition : Condition
  pub threshold_input : Text
  pub kind : ActionKind
  pub enabled : Bool
  pub target_remote : Select
  pub target_button : Select
  pub target_routine : Select
  pub button_row_hidden : Bool
  pub routine_row_hidden : Bool
  pub delete_hidden : Bool
  pub modal_open : Bool
  pub toasts : List RuleToast

abbrev pub show : RuleToast → RulePage → RulePage
show t p = record p { toasts = p.toasts ++ t ∷ [] }

abbrev pub is_routine : ActionKind → Bool
is_routine a_routine = true
is_routine a_button = false

-- `syncRuleActionRows()`
unfoldable pub sync_rule_action_rows : RulePage → RulePage
sync_rule_action_rows p = record p {
  button_row_hidden = is_routine p.kind;
  routine_row_hidden = not (is_routine p.kind);
}

-- `ruleActionType.onchange`
unfoldable pub pick_kind : ActionKind → RulePage → RulePage
unfolding sync_rule_action_rows
pick_kind kind p = sync_rule_action_rows (record p { kind = kind })

-- `closeRuleModal()`
unfoldable pub close_rule_modal : RulePage → RulePage
close_rule_modal p = record p { modal_open = false; editing = null }

-- The object of an action, and the texts of the two conditions.
abbrev pub action_json : RuleAction → Value
action_json (press remote_id button_id) = obj (
    prop (text "type") (str (text "button"))
      (prop (text "remoteId") remote_id (prop (text "buttonId") button_id end)))
action_json (routine routine_id) =
    obj (prop (text "type") (str (text "routine")) (prop (text "routineId") routine_id end))

abbrev pub condition_text : Condition → Text
condition_text below = text "below"
condition_text above = text "above"

-- The action that the form stands for, or what it lacks.
unfoldable pub chosen_action : RulePage → RulePage × Option RuleAction
chosen_action p =
    if is_routine p.kind
    then (if is_empty p.target_routine.value
        then (show needs_routine p, none)
        else (p, some (routine (str p.target_routine.value))))
    else if is_empty p.target_remote.value || is_empty p.target_button.value
    then (show needs_button p, none)
    else (p, some (press (str p.target_remote.value) (str p.target_button.value)))

-- `payload`, with the id of the rule that is edited.
unfoldable pub rule_payload : Text → Bool → Condition → Number → RuleAction → Value → Value
rule_payload name enabled condition threshold action editing = obj (
    prop (text "name") (str name) (
      prop (text "enabled") (bool enabled) (
        prop (text "condition") (str (condition_text condition)) (
          prop (text "thresholdCents") (num threshold) (
            prop (text "action") (action_json action)
              (if truthy editing then prop (text "id") editing end else end))))))

abbrev pub with_chosen : Number → RulePage → RulePage × Option RuleAction → RulePage × Option Value
with_chosen threshold p (q, none) = (q, none)
with_chosen threshold p (q, some action) =
    (q, some (rule_payload (trim p.name_input) p.enabled p.condition threshold action p.editing))

abbrev pub with_number : RulePage → Option Number → RulePage × Option Value
with_number p none = (show needs_number p, none)
with_number p (some threshold) = with_chosen threshold p (chosen_action p)

-- `ruleSaveBtn.onclick` up to its request: the body that is posted, if any. `parse_float` is
-- `parseFloat` where that is finite.
unfoldable pub save_request : (Text → Option Number) → RulePage → RulePage × Option Value
unfolding rule_payload chosen_action
save_request parse_float p =
    if is_empty (trim p.name_input)
    then (show needs_name p, none)
    else with_number p (parse_float p.threshold_input)

-- The rest of it, with the answer to the request.
unfoldable pub rule_saved : Answer Rule → RulePage → RulePage
unfolding close_rule_modal place_saved
rule_saved (failed message) p = show (problem message) p
rule_saved (answered r) p =
    show (saved r.name) (close_rule_modal (record p { rules = place_saved rule_key r p.rules }))

-- `ruleDeleteBtn.onclick` up to its request: the id that is asked to go, if any.
unfoldable pub delete_request : Bool → RulePage → Option Value
delete_request confirmed p =
    if not (truthy p.editing) then none else if confirmed then some p.editing else none

-- The rest of it, with the answer to the request.
unfoldable pub rule_deleted : Value → Answer (Unit {0}) → RulePage → RulePage
unfolding close_rule_modal
rule_deleted id (failed message) p = show (problem message) p
rule_deleted id (answered _) p =
    close_rule_modal (record p { rules = reject (has_id rule_key id) p.rules })

-- `{ ...rule, enabled: !rule.enabled }`
unfoldable pub toggle_body : Rule → Value
toggle_body r = obj (
    prop (text "id") r.id (
      prop (text "name") r.name (
        prop (text "enabled") (bool (not r.enabled)) (
          prop (text "condition") (str (condition_text r.condition)) (
            prop (text "thresholdCents") (num r.threshold_cents) (
              prop (text "action") (action_json r.action)
                (prop (text "lastTriggeredState") (bool r.last_triggered_state) end)))))))

-- `toggleRule(rule)` on the i-th rule of the list, with the answer to its request.
unfoldable pub rule_toggled : ℕ → Answer Rule → RulePage → RulePage
rule_toggled i (answered r) p = record p { rules = set p.rules i r }
rule_toggled i (failed message) p = show (problem message) p
