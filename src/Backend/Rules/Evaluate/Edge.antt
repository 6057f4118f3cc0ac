-- ===== src/Backend/Rules/Evaluate/Edge.antt =====
-- Rules are edge-triggered: a second pass at the same price does nothing.
use irhub.Prelude.{
  ℕ, zero, suc, ◌<◌, Bool, true, false, ◌&&◌, List, [], ◌∷◌, ◌++◌, none, some, not, get_elem?,
  length, map, ◌≡◌, ◌≢◌, refl, sym, ◌∙◌, ap, arith, Bool-cases, inl, inr, All,
  get_elem?-append-cons, get_elem?-length, length-append, append-nil, append_assoc, update_first,
  if_true, if_false, subst,
}
use mathlib.Core.Bool.{false≢true}
use irhub.Js.{Value, undefined, null, bool, num, str, arr, obj, ok}
use irhub.Backend.Lowdb.{has_id}
use irhub.Backend.Lowdb.Unique.{HasUniqueIds, update_first-at, count_before}
use irhub.Backend.State.{Rule, Server, Env}
use irhub.Backend.Price.{get_current_price_cents}
use irhub.Backend.Rules.Evaluate.{
  condition_met, Rounds, trigger, settle, evaluate_rule, evaluate_from, evaluate_at, evaluate_rules,
}
use irhub.Backend.Rules.Evaluate.Pass.{
  rule_key, settled, HasStringId, IsQuiet, own_id, settled-id, evaluate_from-settles,
}

-- An enabled rule remembers whether its condition is met at this price.
abbrev pub IsSettled : Env → Value → Rule → Type 0
IsSettled env price r = r.enabled ≡ true → r.last_triggered_state ≡ condition_met env price r

and-not_self : (a b : Bool) → b ≡ a → (a && not b) ≡ false
and-not_self a b e = ground arith

module _ (env : Env) (w : Rounds) (fuel : ℕ) (price : Value) where
  -- A settled rule triggers nothing, and the write puts back what is there.
  evaluate_rule-idle :
      (i : ℕ) (pre post : List Rule) (r : Rule) (s : Server)
      → IsSettled env price r
      → HasStringId r
      → HasUniqueIds rule_key s.rules
      → s.rules ≡ pre ++ r ∷ post
      → evaluate_rule env w fuel i price r s ≡ some s
  unfolding evaluate_rule trigger
  evaluate_rule-idle i pre post r s settled_r (t, its_id) unique split =
      elim (Bool-cases r.enabled) [
        | inr paused ↦ if_false _ (some s) paused
        | inl active ↦
            if_true _ (some s) active
            ∙ ap (settle env w fuel price r) (
                if_false _ (some s) (and-not_self (condition_met env price r) _ (settled_r active)))
            ∙ ap (λ rules. some (record s { rules = rules })) (same active)
      ]
    where
      remembering : Rule → Rule
      remembering x = record x { last_triggered_state = condition_met env price r }

      same : r.enabled ≡ true → env.rule_db.assign r.id remembering s.rules ≡ s.rules
      same active =
          env.rule_db.assign_lem r.id remembering s.rules (rw its_id tt)
          ∙ ap (update_first (has_id rule_key r.id) remembering) split
          ∙ update_first-at (has_id rule_key r.id) remembering pre post r
              (count_before (has_id rule_key r.id) pre post r (own_id r t its_id)
                (rw (split, ← its_id) at (unique t)))
              (own_id r t its_id)
          ∙ ap (λ b. pre ++ record r { last_triggered_state = b } ∷ post) (sym (settled_r active))
          ∙ sym split

  evaluate_from-idle :
      (rounds i : ℕ) (done rest : List Rule) (s : Server)
      → s.rules ≡ done ++ rest
      → i ≡ length done
      → length rest < rounds
      → HasUniqueIds rule_key s.rules
      → All HasStringId rest
      → All (IsSettled env price) rest
      → evaluate_from env w fuel rounds i price s ≡ some s
  unfolding evaluate_from
  evaluate_from-idle zero i done rest s split at_i enough unique ids idle = absurd (omega arith)
  evaluate_from-idle (suc rounds) i done [] s split at_i enough unique ids idle =
      let past : get_elem? s.rules i ≡ none =
        rw (split, append-nil done, at_i) (get_elem?-length done) in
      rw (past, evaluate_from)
  evaluate_from-idle (suc rounds) i done (r ∷ rest) s split at_i enough unique (id, ids)
        (now, idle) =
      let here : get_elem? s.rules i ≡ some r =
        rw (split, at_i) (get_elem?-append-cons done rest r) in
      rw (here, evaluate_from, evaluate_rule-idle i done rest r s now id unique split)
        (evaluate_from-idle rounds (suc i) (done ++ r ∷ []) rest s
          (split ∙ sym (append_assoc done (r ∷ []) rest))
          (omega (arith, at_i, length-append {0} done (r ∷ []))) (omega arith) unique ids idle)

pub evaluate_at-price :
    (env : Env) (w : Rounds) (fuel rounds : ℕ) (s : Server) (price : Value)
    → price ≢ null
    → evaluate_at env w fuel rounds s (ok price) ≡ ok (evaluate_from env w fuel rounds 0 price s)
evaluate_at-price env w fuel rounds s null h = absurd (h refl)
evaluate_at-price env w fuel rounds s undefined h = refl
evaluate_at-price env w fuel rounds s (bool b) h = refl
evaluate_at-price env w fuel rounds s (num n) h = refl
evaluate_at-price env w fuel rounds s (str t) h = refl
evaluate_at-price env w fuel rounds s (arr xs) h = refl
evaluate_at-price env w fuel rounds s (obj fs) h = refl

remembered : Env → Value → Rule → Rule
remembered env price r = record r { last_triggered_state = condition_met env price r }

settled-IsSettled :
    (env : Env) (price : Value) (r : Rule) → IsSettled env price (settled env price r)
unfolding condition_met remembered
settled-IsSettled env price r = elim (Bool-cases r.enabled) [
  | inl active ↦
      subst (IsSettled env price) (sym (if_true (remembered env price r) r active)) (λ _. refl)
  | inr paused ↦
      subst (IsSettled env price) (sym (if_false (remembered env price r) r paused))
        (λ active. absurd (false≢true (sym paused ∙ active)))
]

map-IsSettled :
    (env : Env) (price : Value) (rules : List Rule)
    → All (IsSettled env price) (map (settled env price) rules)
map-IsSettled env price [] = tt
map-IsSettled env price (r ∷ rules) = (settled-IsSettled env price r, map-IsSettled env price rules)

map-HasStringId :
    (env : Env) (price : Value) (rules : List Rule)
    → All HasStringId rules
    → All HasStringId (map (settled env price) rules)
map-HasStringId env price [] h = tt
map-HasStringId env price (r ∷ rules) ((t, e), h) =
    ((t, settled-id env price r ∙ e), map-HasStringId env price rules h)

-- With a current price that is not null, rules under distinct string ids, and actions that end and
-- leave the rules: a pass ends, and afterwards each enabled rule remembers whether its condition is
-- met, each other rule is as it was, and their order is the same.
pub evaluate_rules-settles :
    (env : Env) (w : Rounds) (fuel rounds : ℕ) (s : Server) (price : Value)
    → IsQuiet env w fuel
    → get_current_price_cents env s ≡ ok price
    → price ≢ null
    → length s.rules < rounds
    → HasUniqueIds rule_key s.rules
    → All HasStringId s.rules
    → (s' : Server) × (evaluate_rules env w fuel rounds s ≡ ok (some s'))
      × (s'.rules ≡ map (settled env price) s.rules)
unfolding evaluate_rules
evaluate_rules-settles env w fuel rounds s price quiet current there enough unique ids =
    let (s', ends, all_settled) =
      evaluate_from-settles env w fuel price quiet rounds 0 [] s.rules s refl refl enough unique
        ids in
    (s', rw (current, evaluate_at-price env w fuel rounds s price there, ends), all_settled)

-- Such a pass fires nothing that the pass before it saw: in any later state with the rules that a
-- pass left, and the same price, a pass changes nothing at all, and so no action is performed.
-- That holds whatever is done meanwhile.
pub evaluate_rules_again :
    (env : Env) (w : Rounds) (fuel rounds : ℕ) (rules : List Rule) (s : Server) (price : Value)
    → s.rules ≡ map (settled env price) rules
    → get_current_price_cents env s ≡ ok price
    → price ≢ null
    → length s.rules < rounds
    → HasUniqueIds rule_key s.rules
    → All HasStringId rules
    → evaluate_rules env w fuel rounds s ≡ ok (some s)
unfolding evaluate_rules
evaluate_rules_again env w fuel rounds rules s price left current there enough unique ids = rw (
  current,
  evaluate_at-price env w fuel rounds s price there,
  evaluate_from-idle env w fuel price rounds 0 [] s.rules s refl refl enough unique
      (rw left (map-HasStringId env price rules ids)) (rw left (map-IsSettled env price rules)),
)
