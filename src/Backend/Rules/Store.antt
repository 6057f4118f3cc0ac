-- ===== src/Backend/Rules/Store.antt =====
-- What `POST` and `DELETE /api/rules` store.
use irhub.Prelude.{
  none-ne-some, is_some, not, find, Option-cases, Bool, true, List, [], ◌∷◌, Option, none, some,
  Text, text, ◌++◌, ◌≡◌, ◌≢◌, refl, sym, ◌∙◌, ap, Bool-cases, inl, inr,
}
use irhub.Js.{Value, Number, str, truthy, or_else, field, IsPrimitive}
use irhub.Js.Laws.{strict_eq-str}
use irhub.Backend.Lowdb.{has_id}
use irhub.Backend.Lowdb.Unique.{HasUniqueIds}
use irhub.Backend.Lowdb.Upsert.{
  upsert, upserted, upsert-found, upsert-HasUniqueIds, remove-HasUniqueIds, remove-found,
}
use irhub.Backend.State.{Rule, RuleAction, Condition, Server, Env}
use irhub.Backend.Http.{
  Fault, Reply, json, ended, error, rule, name_required, condition_invalid, threshold_invalid,
  action_invalid,
}
use irhub.Backend.Rules.{
  condition_of, number_of, action_of, enabled_of, last_state, write_rule, save_rule, post_rule,
  delete_rule,
}
use irhub.Backend.Rules.Evaluate.Pass.{rule_key}

module _ (env : Env) (s : Server) (body : Value) where
  abbrev pub rule_target : Value
  rule_target = or_else (field (text "id") body) (str (text "rule-" ++ env.short_uuid s.uuids))

  -- The rule that a request stands for; what it remembers comes from the stored rule, if any.
  abbrev pub requested : Condition → Number → RuleAction → Rule
  requested condition threshold action = record {
    id = rule_target;
    name = field (text "name") body;
    enabled = enabled_of (field (text "enabled") body);
    condition = condition;
    threshold_cents = threshold;
    action = action;
    last_triggered_state = last_state (env.rule_db.find_by rule_target s.rules);
  }

  -- The checks of a request: what it lacks, and the error that says so.
  abbrev pub checks : List (Bool × Fault)
  checks =
      (not (truthy (field (text "name") body)), name_required)
      ∷ (not (is_some (condition_of (field (text "condition") body))), condition_invalid)
      ∷ (not (is_some (number_of (field (text "thresholdCents") body))), threshold_invalid)
      ∷ (not (is_some (action_of (field (text "action") body))), action_invalid)
      ∷ []

  -- A request that fails checks, no name, no known condition, no number for a threshold or no known
  -- type of action, is answered 400 with the error of the first, in this order, and the state stays.
  pub post_rule_refused :
      (lacks : Bool) (fault : Fault)
      → find (λ (check : Bool × Fault). check.0) checks ≡ some (lacks, fault)
      → post_rule env s body ≡ (s, json 400 (error fault))
  unfolding post_rule
  post_rule_refused lacks fault h = elim (Bool-cases (truthy (field (text "name") body))) [
    | inr n ↦ let h' = rw n at h in rw n (refused fault lacks _ _ h')
    | inl n ↦ elim (Option-cases (condition_of (field (text "condition") body))) [
      | inl c ↦ let h' = rw (n, c) at h in rw (n, c) (refused fault lacks _ _ h')
      | inr (_, c) ↦ elim (Option-cases (number_of (field (text "thresholdCents") body))) [
        | inl th ↦ let h' = rw (n, c, th) at h in rw (n, c, th) (refused fault lacks _ _ h')
        | inr (_, th) ↦ elim (Option-cases (action_of (field (text "action") body))) [
          | inl a ↦ let h' = rw (n, c, th, a) at h in rw (n, c, th, a) (refused fault lacks _ _ h')
          | inr (_, a) ↦ absurd (none-ne-some (rw (n, c, th, a) at h))
        ]
      ]
    ]
  ]
    where
      refused :
          (fault : Fault) (lacks lacks' : Bool) (fault' : Fault)
          → ◌≡◌ {A = Option (Bool × Fault)} (some (lacks', fault')) (some (lacks, fault))
          → ◌≡◌ {A = Server × Reply} (s, json 400 (error fault')) (s, json 400 (error fault))
      refused fault lacks lacks' fault' e = cc

  module _ (condition : Condition) (threshold : Number) (action : RuleAction) (t : Text)
      (its_id : rule_target ≡ str t) where
    pub write_rule-eq :
        (o : Option Rule)
        → write_rule env s (requested condition threshold action) o
          ≡ upsert rule_key env.rule_db rule_target
              (requested condition threshold action)
              (λ _. requested condition threshold action)
              o
              s.rules
    unfolding write_rule
    write_rule-eq none = refl
    write_rule-eq (some r) = refl

    pub same_id :
        (x : Rule)
        → has_id rule_key rule_target x ≡ true
        → (requested condition threshold action).id ≡ x.id
    same_id x here = its_id ∙ sym (strict_eq-str x.id t (rw its_id at here))

    pub either_way :
        (o : Option Rule)
        → upserted rule_key env.rule_db rule_target
            (requested condition threshold action)
            (λ _. requested condition threshold action)
            o
          ≡ requested condition threshold action
    either_way none = refl
    either_way (some r) = refl

    -- A request that passes the checks, and whose id is a string: it is answered 200 with the rule
    -- that is then stored under the id, which has every field from the request but one. Whether it
    -- remembers its condition as met is kept from the rule that was stored there, or false for a
    -- new one, so that saving a rule does not fire it again. String ids that are unique stay so.
    pub post_rule-stores :
        truthy (field (text "name") body) ≡ true
        → condition_of (field (text "condition") body) ≡ some condition
        → number_of (field (text "thresholdCents") body) ≡ some threshold
        → action_of (field (text "action") body) ≡ some action
        → HasUniqueIds rule_key s.rules
        → ((post_rule env s body).1 ≡ json 200 (rule (some (requested condition threshold action))))
          × (env.rule_db.find_by rule_target (post_rule env s body).0.rules
              ≡ some (requested condition threshold action))
          × HasUniqueIds rule_key (post_rule env s body).0.rules
    unfolding post_rule save_rule
    post_rule-stores n c th a u =
        let o = env.rule_db.find_by rule_target s.rules in
        let new = requested condition threshold action in
        let prim : IsPrimitive rule_target = rw its_id tt in
        let found =
          ap (env.rule_db.find_by rule_target) (write_rule-eq o)
          ∙ upsert-found rule_key env.rule_db rule_target new (λ _. new) prim refl same_id o s.rules
              refl
          ∙ ap some (either_way o) in
        (
          rw (n, c, th, a, found),
          rw (n, c, th, a) found,
          rw (n, c, th, a, write_rule-eq o)
              (upsert-HasUniqueIds rule_key env.rule_db rule_target new (λ _. new) prim refl same_id
                o s.rules refl u),
        )

-- `DELETE /api/rules/:id` answers 204 and removes the rule under the id and no rule under another
-- string id; string ids that are unique stay so.
pub delete_rule_lem :
    (env : Env) (s : Server) (t u : Text)
    → t ≢ u
    → HasUniqueIds rule_key s.rules
    → ((delete_rule env s t).1 ≡ ended 204)
      × (env.rule_db.find_by (str t) (delete_rule env s t).0.rules ≡ none)
      × (env.rule_db.find_by (str u) (delete_rule env s t).0.rules
          ≡ env.rule_db.find_by (str u) s.rules)
      × HasUniqueIds rule_key (delete_rule env s t).0.rules
unfolding delete_rule
delete_rule_lem env s t v ne u =
    let (gone, others) = remove-found rule_key env.rule_db t s.rules in
    (refl, gone, others v ne, remove-HasUniqueIds rule_key env.rule_db t s.rules u)
