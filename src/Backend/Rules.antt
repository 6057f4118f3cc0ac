-- ===== src/Backend/Rules.antt =====
-- Price rules in `backend/server.js`: the REST handlers.
pub mod Evaluate
pub mod Store
pub mod Upserts
use irhub.Prelude.{
  ℕ, suc, Bool, true, false, List, [], ◌∷◌, ◌++◌, Option, none, some, Text, text, text_eq,
  if◌then◌else◌, not,
}
use irhub.Js.{Value, bool, num, str, Number, truthy, or_else, field, is_nullish, strict_eq}
use irhub.Backend.State.{Rule, RuleAction, press, routine, Condition, below, above, Server, Env}
use irhub.Backend.Http.{
  Reply, json, ended, error, rule, name_required, condition_invalid, threshold_invalid,
  action_invalid,
}
use irhub.Backend.Http

-- `condition !== 'below' && condition !== 'above'` refuses all but these two texts.
unfoldable pub condition_of : Value → Option Condition
condition_of v =
    if strict_eq v (str (text "below"))
    then some below
    else if strict_eq v (str (text "above"))
    then some above
    else none

-- `typeof thresholdCents !== 'number'` refuses all but numbers.
unfoldable pub number_of : Value → Option Number
number_of (num n) = some n
number_of _ = none

-- `!action || (action.type !== 'button' && action.type !== 'routine')` refuses all but objects of
-- these two types. Of the object, what the rules engine reads is kept.
unfoldable pub action_of : Value → Option RuleAction
action_of v =
    if strict_eq (field (text "type") v) (str (text "button"))
    then some (press (field (text "remoteId") v) (field (text "buttonId") v))
    else if strict_eq (field (text "type") v) (str (text "routine"))
    then some (routine (field (text "routineId") v))
    else none

-- `enabled !== false`
abbrev pub enabled_of : Value → Bool
enabled_of v = not (strict_eq v (bool false))

-- `existing ? existing.lastTriggeredState : false`
abbrev pub last_state : Option Rule → Bool
last_state none = false
last_state (some r) = r.last_triggered_state

module _ (env : Env) where
  -- `assign(record)` sets every field of the record.
  unfoldable pub write_rule : Server → Rule → Option Rule → List Rule
  write_rule s r none = env.rule_db.push r s.rules
  write_rule s r (some existing) = env.rule_db.assign r.id (λ _. r) s.rules

  unfoldable pub save_rule :
      Server → Value → Value → Bool → Condition → Number → RuleAction → Server × Reply
  save_rule s id name enabled condition threshold action =
      let rule_id = or_else id (str (text "rule-" ++ env.short_uuid s.uuids)) in
      let existing = env.rule_db.find_by rule_id s.rules in
      let r : Rule = record {
        id = rule_id;
        name = name;
        enabled = enabled;
        condition = condition;
        threshold_cents = threshold;
        action = action;
        last_triggered_state = last_state existing;
      } in
      let written = write_rule s r existing in
      (
        record s { rules = written; uuids = if truthy id then s.uuids else suc s.uuids },
        json 200 (rule (env.rule_db.find_by rule_id written)),
      )

  -- The checks of `POST /api/rules`, in order.
  abbrev pub with_action : Server → Value → Condition → Number → Option RuleAction → Server × Reply
  with_action s body condition threshold none = (s, json 400 (error action_invalid))
  with_action s body condition threshold (some action) =
      save_rule s (field (text "id") body) (field (text "name") body)
        (enabled_of (field (text "enabled") body)) condition threshold action

  abbrev pub with_threshold : Server → Value → Condition → Option Number → Server × Reply
  with_threshold s body condition none = (s, json 400 (error threshold_invalid))
  with_threshold s body condition (some threshold) =
      with_action s body condition threshold (action_of (field (text "action") body))

  abbrev pub with_condition : Server → Value → Option Condition → Server × Reply
  with_condition s body none = (s, json 400 (error condition_invalid))
  with_condition s body (some condition) =
      with_threshold s body condition (number_of (field (text "thresholdCents") body))

  -- `POST /api/rules`
  unfoldable pub post_rule : Server → Value → Server × Reply
  post_rule s body =
      if truthy (field (text "name") body)
      then with_condition s body (condition_of (field (text "condition") body))
      else (s, json 400 (error name_required))

  -- `DELETE /api/rules/:id`
  unfoldable pub delete_rule : Server → Text → Server × Reply
  delete_rule s id = (record s { rules = env.rule_db.remove (str id) s.rules }, ended 204)

-- `GET /api/rules`
unfoldable pub get_rules : Server → Server × Reply
get_rules s = (s, json 200 (Http.rules s.rules))
