-- ===== src/Backend/Rules/Upserts.antt =====
-- `POST /api/rules` as one write of the collection.
use irhub.Prelude.{true, Text, Option, none, some, text, ◌≡◌, refl, ◌∙◌, ap}
use irhub.Js.{Value, str, Number, IsPrimitive, truthy, field}
use irhub.Backend.Lowdb.Upsert.{upsert, upserted, upsert-found}
use irhub.Backend.State.{Rule, RuleAction, Condition, Server, Env}
use irhub.Backend.Http.{json, rule}
use irhub.Backend.Rules.{condition_of, number_of, action_of, save_rule, post_rule}
use irhub.Backend.Rules.Evaluate.Pass.{rule_key}
use irhub.Backend.Rules.Store.{rule_target, requested, write_rule-eq, same_id, either_way}

module _ (env : Env) (s : Server) (body : Value) (condition : Condition) (threshold : Number)
    (action : RuleAction) (t : Text) (its_id : rule_target env s body ≡ str t) where
  -- A request that passes the checks is one write, of the rule that it stands for.
  pub post_rule-upserts :
      truthy (field (text "name") body) ≡ true
      → condition_of (field (text "condition") body) ≡ some condition
      → number_of (field (text "thresholdCents") body) ≡ some threshold
      → action_of (field (text "action") body) ≡ some action
      → ((post_rule env s body).0.rules
          ≡ upsert rule_key env.rule_db
              (str t)
              (requested env s body condition threshold action)
              (λ _. requested env s body condition threshold action)
              (env.rule_db.find_by (str t) s.rules)
              s.rules)
        × ((post_rule env s body).1
            ≡ json 200 (rule (some (requested env s body condition threshold action))))
  unfolding post_rule save_rule
  post_rule-upserts n c th a =
      let target = rule_target env s body in
      let new = requested env s body condition threshold action in
      let o = env.rule_db.find_by target s.rules in
      let lists = write_rule-eq env s body condition threshold action t its_id o in
      let prim : IsPrimitive target = rw its_id tt in
      (
        rw (n, c, th, a)
            (lists
              ∙ ap
                  (λ id.
                    upsert rule_key env.rule_db id new (λ _. new) (env.rule_db.find_by id s.rules)
                      s.rules)
                  its_id),
        rw (n, c, th, a)
            (ap (λ (r : Option Rule). json 200 (rule r))
              (ap (env.rule_db.find_by target) lists
                ∙ upsert-found rule_key env.rule_db target new (λ _. new) prim refl
                    (same_id env s body condition threshold action t its_id) o s.rules refl
                ∙ ap some (either_way env s body condition threshold action t its_id o))),
      )

  -- What `upserted` names is the rule that was requested.
  pub upserted-requested :
      (o : Option Rule)
      → upserted rule_key env.rule_db
          (str t)
          (requested env s body condition threshold action)
          (λ _. requested env s body condition threshold action)
          o
        ≡ requested env s body condition threshold action
  upserted-requested none = refl
  upserted-requested (some r) = refl
