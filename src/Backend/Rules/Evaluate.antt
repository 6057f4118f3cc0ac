-- ===== src/Backend/Rules/Evaluate.antt =====
-- `evaluateRules`: one pass over the price rules.
pub mod Edge
pub mod Overlap
pub mod Pass
use irhub.Prelude.{
  ℕ, zero, suc, Bool, true, false, ◌&&◌, List, [], ◌∷◌, Option, none, some, Text, if◌then◌else◌,
  not, get_elem?, length,
}
use irhub.Js.{
  Value, undefined, null, bool, num, str, arr, obj, Number, of_ℕ, number_lt, Js, ok, type_error,
  is_nullish,
}
use irhub.Backend.State.{
  Rule, RuleAction, press, routine, Condition, below, above, Server, Env, FireError, Event,
  rule_triggered, broadcast,
}
use irhub.Backend.Fire.{fire_button}
use irhub.Backend.Price.{get_current_price_cents}
use irhub.Backend.Routines.Run.{World, Outcome, run_routine}

-- `Number(v)`, as `<` and `>` apply it; `none` is NaN.
unfoldable pub numeric : Env → Value → Option Number
numeric env undefined = none
numeric env null = some (of_ℕ 0)
numeric env (bool true) = some (of_ℕ 1)
numeric env (bool false) = some (of_ℕ 0)
numeric env (num n) = some n
numeric env v = env.to_number v

-- `condition === 'below' ? price < threshold : price > threshold`
abbrev pub compare_price : Condition → Option Number → Number → Bool
compare_price c none threshold = false
compare_price below (some price) threshold = number_lt price threshold
compare_price above (some price) threshold = number_lt threshold price

unfoldable pub condition_met : Env → Value → Rule → Bool
condition_met env price r = compare_price r.condition (numeric env price) r.threshold_cents

-- What a pass meets in its i-th round: the MQTT client's report of a button's publish, what other
-- handlers do during it, and all that a routine's run meets.
pub record Rounds : Type 0 where
  pub ack : ℕ → Option Text
  pub during_publish : ℕ → Server → Server
  pub run : ℕ → World

module _ (env : Env) (w : Rounds) (fuel : ℕ) where
  abbrev pub run_outcome : Option Outcome → Option (Server × Option FireError)
  run_outcome none = none
  run_outcome (some o) = some (o.server, o.error)

  -- `await fireButton(…)` or `await runRoutine(…)`; `none` if the routine's fuel ran out.
  unfoldable pub perform : ℕ → RuleAction → Server → Option (Server × Option FireError)
  perform i (press rid bid) s =
      let fired = fire_button env s rid bid (w.ack i) in some (w.during_publish i fired.0, fired.1)
  perform i (routine id) s = run_outcome (run_routine env (w.run i) fuel s id)

  abbrev pub tell : Rule → Value → Option (Server × Option FireError) → Option Server
  tell r price none = none
  tell r price (some (s, e)) = some (broadcast (rule_triggered r.id r.name price e) s)

  -- The action, on the edge: the condition is met and was not met at the last evaluation.
  unfoldable pub trigger : ℕ → Value → Rule → Server → Option Server
  trigger i price r s =
      if condition_met env price r && not r.last_triggered_state
      then tell r price (perform i r.action s)
      else some s

  -- `….find({ id: rule.id }).assign({ lastTriggeredState: conditionMet }).write()`
  abbrev pub settle : Value → Rule → Option Server → Option Server
  settle price r none = none
  settle price r (some s) = some (record s {
    rules =
        env.rule_db.assign r.id (λ x. record x { last_triggered_state = condition_met env price r })
          s.rules;
  })

  -- The body of the loop. A rule that is not enabled is skipped.
  unfoldable pub evaluate_rule : ℕ → Value → Rule → Server → Option Server
  evaluate_rule i price r s = if r.enabled then settle price r (trigger i price r s) else some s

  abbrev pub continue_with : (Server → Option Server) → Option Server → Option Server
  continue_with k none = none
  continue_with k (some s) = k s

  -- `for (const rule of rules)` walks the live array: round i takes what stands there then.
  unfoldable pub evaluate_from : ℕ → ℕ → Value → Server → Option Server
  evaluate_from zero i price s = none
  evaluate_from (suc rounds) i price s = elim (get_elem? s.rules i) [
    | none ↦ some s
    | some r ↦
        continue_with (λ s'. evaluate_from rounds (suc i) price s') (evaluate_rule i price r s)
  ]

  -- `if (priceCents === null) return;`, and a price that cannot be computed rejects.
  abbrev pub evaluate_at : ℕ → Server → Js Value → Js (Option Server)
  evaluate_at rounds s type_error = type_error
  evaluate_at rounds s (ok null) = ok (some s)
  evaluate_at rounds s (ok price) = ok (evaluate_from rounds 0 price s)

  -- `evaluateRules()`
  unfoldable pub evaluate_rules : ℕ → Server → Js (Option Server)
  evaluate_rules rounds s = evaluate_at rounds s (get_current_price_cents env s)
