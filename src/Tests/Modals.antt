-- ===== src/Tests/Modals.antt =====
-- The modals of the page, over the small database.
use irhub.Prelude.{
  true, false, not, [], ◌∷◌, Option, none, some, Text, text, text_eq, ◌≡◌, refl, arith,
  if◌then◌else◌, inr, get_elem?,
}
use irhub.Js.{
  Value, str, Number, of_ℕ, ℤ, pos, is_integer, truthy, strict_eq, field, lookup_or, member,
  or_else,
}
use irhub.Backend.Slug.{trim, is_space}
use irhub.Backend.State
use irhub.Backend.State.{Routine, Rule, Server}
use irhub.Backend.Http.{json, routine, rule, nonempty_string}
use irhub.Backend.Lowdb.Places.{set}
use irhub.Backend.Lowdb.Unique.{HasUniqueIds}
use irhub.Backend.Routines.{
  post_routine, nonempty_array, save_routine, normalize_steps, normalize_step, write_routine,
}
use irhub.Backend.Rules.{last_state, post_rule}
use irhub.Backend.Rules.Evaluate.Pass.{rule_key}
use irhub.Frontend.Remotes.{answered}
use irhub.Frontend.Selects.{Select}
use irhub.Frontend.Routines
use irhub.Frontend.Routines.{RoutinePage, open_routine_modal, routine_saved}
use irhub.Frontend.Routines.Save.{HasWholeDelays, save_request-routines}
use irhub.Prelude.{ℕ, decimal, decimal-All}
use irhub.Frontend.Routines.Draft.{is_plain, IsPlain}
use irhub.Frontend.Routines.Moves.{IsSynced, Moves, Reach}
use irhub.Frontend.Routines.Sync.{Reach-IsSynced}
use irhub.Frontend.Rules
use irhub.Frontend.Rules.{RulePage, a_button, chosen_action, rule_saved, rule_toggled, toggle_body}
use irhub.Frontend.Rules.Save.{save_request-rules}
use irhub.Frontend.Rules.Toggle.{rule_toggled-post_rule}
use irhub.Tests.World.{env, tv, evening, steps, cheap, home}

-- `String(v)`, of the numbers that occur.
abbrev stringify : Value → Text
stringify v = text "5"

abbrev nothing_chosen : Select
nothing_chosen = record { options = []; value = [] }

abbrev page : RoutinePage
page = record {
  remotes = tv ∷ [];
  routines = evening ∷ [];
  editing = str (text "r1");
  draft = steps;
  name_input = text " Late ";
  delay_input = [];
  step_remote = nothing_chosen;
  step_button = nothing_chosen;
  delete_hidden = false;
  modal_open = true;
  toasts = [];
}

steps-HasWholeDelays : HasWholeDelays steps
unfolding is_integer
steps-HasWholeDelays = (refl, (refl, tt))

abbrev body : Value
body = Routines.routine_payload (text "Late") steps (str (text "r1"))

page-saves : Routines.save_request page ≡ (page, some body)
unfolding Routines.save_request trim is_space truthy
page-saves = refl

save_request-routines_example :
    (r : Routine) × ((post_routine env home body).1 ≡ json 200 (routine (some r)))
    × (r.name ≡ trim page.name_input)
    × (r.steps ≡ page.draft)
    × ((routine_saved (answered r) page).routines ≡ (post_routine env home body).0.routines)
    × ((routine_saved (answered r) page).modal_open ≡ false)
save_request-routines_example =
    save_request-routines env home page page body page-saves (inr (text "r1", refl))
      steps-HasWholeDelays refl

page-IsSynced : IsSynced page home
unfolding is_plain
page-IsSynced = record {
  mirror = refl;
  stored = (((text "r1", refl, (refl, (refl, tt))), steps-HasWholeDelays), tt);
  plain_id = inr (text "r1", refl, (refl, (refl, tt)));
  whole = steps-HasWholeDelays;
}

abbrev parse_int : Text → Option ℤ
parse_int s = if text_eq s (text "5") then some (pos 5) else none

abbrev late : Routine
late = record { id = str (text "r1"); name = text "Late"; steps = steps }

page-stores : (post_routine env home body).1 ≡ json 200 (routine (some late))
unfolding post_routine field lookup_or text_eq strict_eq nonempty_string is_integer truthy
    Routines.routine_payload nonempty_array Routines.steps_json save_routine normalize_steps
    normalize_step member write_routine or_else
page-stores = refl

page-shows : get_elem? (routine_saved (answered late) page).routines 0 ≡ some late
unfolding routine_saved strict_eq text_eq
page-shows = refl

decimal-IsPlain : (n : ℕ) → IsPlain (decimal n)
unfolding is_plain
decimal-IsPlain n = decimal-All (λ c. is_plain c ≡ true) (λ d h. ground arith) n

-- Saving, opening the saved routine again and taking its first step out.
Reach-IsSynced_example :
    IsSynced
      (Routines.remove_step 0
        (open_routine_modal stringify (some late) (routine_saved (answered late) page)))
      (post_routine env home body).0
Reach-IsSynced_example =
    Reach-IsSynced env stringify parse_int some decimal-IsPlain (λ c t plain. refl) page-IsSynced
      (Reach.next
        (Reach.next (Reach.next Reach.here (Moves.saves body late page-saves page-stores))
          (Moves.edits 0 late page-shows))
        (Moves.removes 0))
      (((tt, tt), tt), tt)

abbrev rule_page : RulePage
rule_page = record {
  remotes = tv ∷ [];
  routines = evening ∷ [];
  rules = cheap ∷ [];
  editing = str (text "c1");
  name_input = text "Cheap";
  condition = cheap.condition;
  threshold_input = text "5";
  kind = a_button;
  enabled = true;
  target_remote = record { options = text "tv" ∷ []; value = text "tv" };
  target_button = record { options = text "p" ∷ text "m" ∷ []; value = text "m" };
  target_routine = nothing_chosen;
  button_row_hidden = false;
  routine_row_hidden = true;
  delete_hidden = false;
  modal_open = true;
  toasts = [];
}

abbrev parse_float : Text → Option Number
parse_float s = if text_eq s (text "5") then some (of_ℕ 5) else none

abbrev rule_body : Value
rule_body =
    Rules.rule_payload (text "Cheap") true cheap.condition (of_ℕ 5)
      (State.press (str (text "tv")) (str (text "m"))) (str (text "c1"))

rule_page-saves : Rules.save_request parse_float rule_page ≡ (rule_page, some rule_body)
unfolding Rules.save_request trim is_space truthy text_eq
rule_page-saves = refl

save_request-rules_example :
    (r : Rule) × ((post_rule env home rule_body).1 ≡ json 200 (rule (some r)))
    × (r.name ≡ str (trim rule_page.name_input))
    × (r.enabled ≡ rule_page.enabled)
    × (r.condition ≡ rule_page.condition)
    × (parse_float rule_page.threshold_input ≡ some r.threshold_cents)
    × (chosen_action rule_page ≡ (rule_page, some r.action))
    × (r.last_triggered_state ≡ last_state (env.rule_db.find_by r.id home.rules))
    × ((rule_saved (answered r) rule_page).rules ≡ (post_rule env home rule_body).0.rules)
    × ((rule_saved (answered r) rule_page).modal_open ≡ false)
save_request-rules_example =
    save_request-rules env home parse_float rule_page rule_page rule_body rule_page-saves
      (inr (text "c1", refl)) refl

home-HasUniqueRules : HasUniqueIds rule_key home.rules
unfolding strict_eq
home-HasUniqueRules = λ t. ground arith

named : truthy cheap.name ≡ true
unfolding truthy
named = refl

rule_toggled-post_rule_example :
    ((post_rule env home (toggle_body cheap)).1
      ≡ json 200 (rule (some (record cheap { enabled = not cheap.enabled }))))
    × ((rule_toggled 0 (answered (record cheap { enabled = not cheap.enabled })) rule_page).rules
        ≡ (post_rule env home (toggle_body cheap)).0.rules)
    × ((post_rule env home (toggle_body cheap)).0.rules
        ≡ set home.rules 0 (record cheap { enabled = not cheap.enabled }))
rule_toggled-post_rule_example =
    rule_toggled-post_rule env home rule_page 0 cheap (text "c1") refl named refl refl
      home-HasUniqueRules refl
