-- ===== src/Frontend/Rules/Open.antt =====
-- Opening the rule modal of `frontend/app.js`, with what its fields and lists then hold.
use irhub.Prelude.{true, false, [], Option, none, some, Text, if◌then◌else◌}
use irhub.Js.{Value, null, str, Number, truthy}
use irhub.Backend.State.{Rule, RuleAction, press, routine, below}
use irhub.Frontend.Selects.{
  Select, is_empty, string_of, choose, populate_remote_select, populate_button_select,
  populate_routine_select,
}
use irhub.Frontend.Rules.{
  RulePage, ActionKind, a_button, a_routine, needs_target, show, sync_rule_action_rows,
}

module _ (stringify : Value → Text) (number_input : Number → Text) where
  abbrev pub kind_of : RuleAction → ActionKind
  kind_of (press remote_id button_id) = a_button
  kind_of (routine id) = a_routine

  -- The fields of the form for a rule or a new one. `number_input n` is what a number input shows
  -- for n.
  abbrev pub with_fields : Option Rule → RulePage → RulePage
  with_fields none p = record p {
    editing = null;
    name_input = [];
    condition = below;
    threshold_input = [];
    kind = a_button;
    enabled = true;
    delete_hidden = true;
  }
  with_fields (some r) p = record p {
    editing = r.id;
    name_input = string_of stringify r.name;
    condition = r.condition;
    threshold_input = number_input r.threshold_cents;
    kind = kind_of r.action;
    enabled = r.enabled;
    delete_hidden = false;
  }

  abbrev pub or_unchosen : Value → Select → Select
  or_unchosen id s = if truthy id then choose (string_of stringify id) s else s

  -- The three lists, by the action of the rule if there is one.
  abbrev pub with_targets : Option RuleAction → RulePage → RulePage
  with_targets (some (press remote_id button_id)) p = record p {
    target_remote =
        choose (string_of stringify remote_id) (populate_remote_select stringify p.remotes);
    target_routine = populate_routine_select stringify p.routines;
    target_button =
        choose (string_of stringify button_id)
          (populate_button_select stringify p.remotes remote_id);
  }
  with_targets (some (routine id)) p =
      let remotes = populate_remote_select stringify p.remotes in
      record p {
        target_remote = remotes;
        target_routine = or_unchosen id (populate_routine_select stringify p.routines);
        target_button = populate_button_select stringify p.remotes (str remotes.value);
      }
  with_targets none p =
      let remotes = populate_remote_select stringify p.remotes in
      record p {
        target_remote = remotes;
        target_routine = populate_routine_select stringify p.routines;
        target_button = populate_button_select stringify p.remotes (str remotes.value);
      }

  abbrev pub its_action : Option Rule → Option RuleAction
  its_action none = none
  its_action (some r) = some r.action

  -- `openRuleModal(rule)`; `none` is null.
  unfoldable pub open_rule_modal : Option Rule → RulePage → RulePage
  unfolding choose populate_remote_select populate_button_select populate_routine_select
      sync_rule_action_rows
  open_rule_modal o p =
      record (sync_rule_action_rows (with_targets (its_action o) (with_fields o p))) {
        modal_open = true;
      }

  -- `newRuleBtn.onclick`
  unfoldable pub new_rule : RulePage → RulePage
  unfolding open_rule_modal
  new_rule p =
      if is_empty p.remotes
      then (if is_empty p.routines then show needs_target p else open_rule_modal none p)
      else open_rule_modal none p

  -- The user picks a remote; `ruleTargetRemote.onchange` offers its buttons.
  unfoldable pub pick_target_remote : Text → RulePage → RulePage
  unfolding choose populate_button_select
  pick_target_remote v p =
      let remotes = choose v p.target_remote in
      record p {
        target_remote = remotes;
        target_button = populate_button_select stringify p.remotes (str remotes.value);
      }
