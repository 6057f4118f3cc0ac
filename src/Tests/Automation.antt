-- ===== src/Tests/Automation.antt =====
-- Routines, price rules and the price cache at work.
use irhub.Prelude.{[], ◌∷◌, ◌++◌, none, some, Text, text, text_eq, text_eq_ne, ◌≡◌, refl, arith}
use irhub.Js.{
  num, null, member, Value, null, str, arr, obj, Items, nil, cons, end, prop, of_ℕ, truthy,
  strict_eq, field, lookup_or,
}
use irhub.Backend.Lowdb.Unique.{HasUniqueIds}
use irhub.Backend.State.{Rule, press, below, routine_started, routine_finished}
use irhub.Backend.Http.{json, ended}
use irhub.Backend.Routines.{delete_routine}
use irhub.Backend.Routines.Run.{World, Outcome, run_routine, start_run, post_run}
use irhub.Prelude.{subst, sym, append-nil}
use irhub.Backend.State.{broadcast}
use irhub.Backend.Clients.{Hears}
use irhub.Backend.Routines.Run.Trace.{Chatter, IsTold, told, run_routine-told}
use irhub.Backend.Routines.Store.{routine_key, delete_routine_lem}
use irhub.Backend.Http.{price}
use irhub.Backend.Price.{data_of, get_price_current}
use irhub.Prelude.{All, ◌⊎◌}
use irhub.Backend.State.{Server}
use irhub.Backend.Price.{failed}
use irhub.Backend.Price.Refresh.{after_refreshes, Covers, SomeCovers, get_price_current_refreshed}
use irhub.Backend.Rules.Store.{requested}
use irhub.Backend.Rules.Evaluate.Pass.{rule_key}
use irhub.Tests.World.{number, env, steps, evening, home, price_block}

-- Nothing happens while a routine waits, and the broker takes every message.
abbrev still : World
still = record {
  steps_at = λ _. steps;
  during_sleep = λ _ s. s;
  during_publish = λ _ s. s;
  ack = λ _. none;
}

-- Others tell a client nothing.
abbrev quiet : Chatter
quiet = record { in_sleep = λ i s. []; in_publish = λ i s. [] }

still-IsTold : IsTold still 0 quiet
still-IsTold = record {
  sleeping = λ i s es h. subst (Hears 0 s) (sym (append-nil es)) h;
  publishing = λ i s es h. subst (Hears 0 s) (sym (append-nil es)) h;
}

run_routine-told_example :
    (o : Outcome) × (run_routine env still 3 home (str (text "r1")) ≡ some o)
    × (o.error ≡ none)
    × Hears 0 o.server (
        routine_started (str (text "r1")) (text "Evening")
        ∷ (told env still quiet
              (str (text "r1"))
              0
              steps
              (broadcast (routine_started (str (text "r1")) (text "Evening")) home)
            ++ (routine_finished (str (text "r1")) ∷ [])))
unfolding strict_eq text_eq
run_routine-told_example =
    run_routine-told env still home (str (text "r1")) 3 evening 0 quiet [] refl (λ i. refl)
      (omega arith) still-IsTold refl

abbrev delays : Items
delays = cons (obj (prop (text "delayMs") (str (text "5")) end)) nil

-- A request for a routine, and one that has no steps.
abbrev morning : Value
morning = obj (prop (text "name") (str (text "Morning")) (prop (text "steps") (arr delays) end))

abbrev stepless : Value
stepless = obj (prop (text "name") (str (text "Morning")) end)

home-HasUniqueRoutines : HasUniqueIds routine_key home.routines
unfolding strict_eq
home-HasUniqueRoutines = λ t. ground arith

delete_routine_lem_example :
    ((delete_routine env home (text "r1")).1 ≡ ended 204)
    × (post_run env (delete_routine env home (text "r1")).0 (text "r1") ≡ start_run none)
    × (post_run env (delete_routine env home (text "r1")).0 (text "r2")
        ≡ post_run env home (text "r2"))
    × HasUniqueIds routine_key (delete_routine env home (text "r1")).0.routines
unfolding text_eq
delete_routine_lem_example =
    delete_routine_lem env home (text "r1") (text "r2") (text_eq_ne _ _ refl) home-HasUniqueRoutines

-- What the price service sends.
abbrev latest : Value
latest = obj (prop (text "prices") (arr (cons price_block nil)) end)

-- The service sends its blocks at 120 and is out of order at 140; at 150 a client asks.
get_price_current_refreshed_example :
    let s' : Server = record (after_refreshes home ((120, data_of latest) ∷ (140, failed) ∷ [])) {
      now = 150;
    } in
    let reply = (get_price_current env s').1 in
    (SomeCovers env 150 (price_block ∷ [])
      × (reply ≡ json 200 (price (number 3) (num (of_ℕ 1)) 120)))
    ⊎ (All (λ p. ¬ Covers env 150 p) (price_block ∷ [])
        × (reply ≡ json 200 (price null (num (of_ℕ 1)) 120)))
unfolding truthy member field lookup_or text_eq
get_price_current_refreshed_example =
    get_price_current_refreshed env home 120 150 latest (cons price_block nil) (number 3)
      ((140, failed) ∷ []) refl (refl, tt) (tt, tt) ((λ c. refl), tt)

home-HasUniqueRules : HasUniqueIds rule_key home.rules
unfolding strict_eq
home-HasUniqueRules = λ t. ground arith

-- A request for a rule, and one with a condition that is not known.
abbrev rule_request : Text → Value
rule_request condition = obj (
    prop (text "id") (str (text "c1")) (
      prop (text "name") (str (text "Cheap")) (
        prop (text "condition") (str condition) (
          prop (text "thresholdCents") (number 7) (
            prop (text "action")
              (obj (
                prop (text "type") (str (text "button")) (
                  prop (text "remoteId") (str (text "tv"))
                    (prop (text "buttonId") (str (text "p")) end))))
              end)))))

-- The rule that the request stands for.
abbrev cheaper : Rule
cheaper =
    requested env home (rule_request (text "below")) below (of_ℕ 7)
      (press (str (text "tv")) (str (text "p")))
