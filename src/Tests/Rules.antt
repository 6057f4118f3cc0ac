-- ===== src/Tests/Rules.antt =====
-- Passes over the price rules.
use irhub.Prelude.{
  true, [], ◌∷◌, ◌++◌, Option, none, some, Text, text, text_eq, map, All, ◌≡◌, ◌≢◌, refl, ap, arith,
  inl, inr, Option-cases,
}
use irhub.Js.{Value, null, str, Js, ok, number_lt, truthy, strict_eq, field, member, lookup_or}
use irhub.Backend.Lowdb.Unique.{HasUniqueIds}
use irhub.Backend.State.{
  RuleAction, press, Server, routine_not_found, routine_started, routine_finished, find_button,
  broadcast,
}
use irhub.Backend.Fire.{signal_payload, publish, fire_button, fire_found}
use irhub.Backend.Fire.Agree.{fire_button_published}
use irhub.Backend.Routines.Run.{run_routine, run_steps}
use irhub.Backend.Price.{get_current_price_cents, find_block}
use irhub.Backend.Rules.Evaluate.{
  condition_met, numeric, Rounds, perform, trigger, evaluate_rule, evaluate_from, evaluate_rules,
}
use irhub.Backend.Rules.Evaluate.Pass.{rule_key, settled, HasStringId, IsQuiet}
use irhub.Backend.Rules.Evaluate.Edge.{evaluate_rules-settles, evaluate_rules_again}
use irhub.Backend.Rules.Evaluate.Overlap.{calm, overlapping_passes_fire_twice}
use irhub.Tests.World.{number, env, power, cheap, home}

fire_button-rules :
    (s : Server) (rid bid : Value) (ack : Option Text)
    → (fire_button env s rid bid ack).0.rules ≡ s.rules
fire_button-rules s rid bid ack = elim (fire_button_published env s rid bid ack) [
  | inl e ↦ ap (λ (q : Server). q.rules) e
  | inr (b, _, _, e) ↦ ap (λ (q : Server). q.rules) e
]

calm-IsQuiet : IsQuiet env calm 1
unfolding perform run_routine run_steps broadcast
calm-IsQuiet i (press rid bid) s =
    ((fire_button env s rid bid none), refl, fire_button-rules s rid bid none)
calm-IsQuiet i (RuleAction.routine id) s =
    elim (Option-cases (env.routine_db.find_by id s.routines)) [
      | inl e ↦ ((s, some routine_not_found), rw e, refl)
      | inr (r, e) ↦ (
        (broadcast (routine_finished id) (broadcast (routine_started id r.name) s), none),
        rw e,
        refl,
      )
    ]

home-HasUniqueRules : HasUniqueIds rule_key home.rules
unfolding strict_eq
home-HasUniqueRules = λ t. ground arith

home-price : get_current_price_cents env home ≡ ok (number 3)
unfolding get_current_price_cents find_block member truthy field lookup_or text_eq
home-price = refl

number-ne-null : number 3 ≢ null
number-ne-null e = cc

home-HasStringIds : All HasStringId home.rules
home-HasStringIds = ((text "c1", refl), tt)

evaluate_rules-settles_example :
    (s' : Server) × (evaluate_rules env calm 1 2 home ≡ ok (some s'))
    × (s'.rules ≡ map (settled env (number 3)) home.rules)
evaluate_rules-settles_example =
    evaluate_rules-settles env calm 1 2 home (number 3) calm-IsQuiet home-price number-ne-null
      (omega arith) home-HasUniqueRules home-HasStringIds

-- The house after a pass: the rule remembers that its condition is met.
abbrev warned : Server
warned = record home { rules = record cheap { last_triggered_state = true } ∷ [] }

warned-HasUniqueRules : HasUniqueIds rule_key warned.rules
unfolding strict_eq
warned-HasUniqueRules = λ t. ground arith

evaluate_rules_again_example : evaluate_rules env calm 1 2 warned ≡ ok (some warned)
unfolding condition_met numeric number_lt get_current_price_cents find_block member truthy field
    lookup_or text_eq
evaluate_rules_again_example =
    evaluate_rules_again env calm 1 2 home.rules warned (number 3) refl refl number-ne-null
      (omega arith) warned-HasUniqueRules home-HasStringIds

-- The state in which the second pass ends that runs while the first one awaits its publish.
abbrev met_twice : Server
met_twice = after_pass (evaluate_rules env calm 1 2 (publish (signal_payload power.signal) home))
  where
    after_pass : Js (Option Server) → Server
    after_pass (ok (some s)) = s
    after_pass _ = home

abbrev slow_broker : Rounds
slow_broker = record calm { during_publish = λ _ _. met_twice }

overlapping_passes_fire_twice_example :
    (s' : Server) × (evaluate_rules env slow_broker 1 2 home ≡ ok (some s'))
    × (s'.published
        ≡ home.published ++ signal_payload power.signal ∷ signal_payload power.signal ∷ [])
unfolding evaluate_rules evaluate_from evaluate_rule trigger perform fire_button fire_found
    find_button strict_eq condition_met numeric number_lt get_current_price_cents find_block member
    truthy field lookup_or text_eq broadcast
overlapping_passes_fire_twice_example =
    overlapping_passes_fire_twice env slow_broker 1 (number 3) cheap (text "c1") (str (text "tv"))
      (str (text "p")) power home met_twice refl refl refl refl refl (refl, refl) refl refl refl
      number-ne-null refl refl
