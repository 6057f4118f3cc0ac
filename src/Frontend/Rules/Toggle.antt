-- ===== src/Frontend/Rules/Toggle.antt =====
-- Pausing and enabling a rule from the list.
use irhub.Prelude.{
  ℕ, true, false, not, ◌++◌, some, Text, text, text_eq, ◌≡◌, refl, sym, ◌∙◌, ap, ap₂, get_elem?,
}
use irhub.Js.{bool, num, str, field, lookup_or, truthy, or_else, strict_eq}
use irhub.Backend.State.{Rule, Server, Env}
use irhub.Backend.Http.{json, rule}
use irhub.Backend.Lowdb.{has_id}
use irhub.Backend.Lowdb.Unique.{HasUniqueIds}
use irhub.Backend.Lowdb.Upsert.{upsert}
use irhub.Backend.Rules.{condition_of, number_of, action_of, enabled_of, last_state, post_rule}
use irhub.Backend.Rules.Evaluate.Pass.{rule_key}
use irhub.Backend.Rules.Store.{rule_target, requested}
use irhub.Backend.Rules.Upserts.{post_rule-upserts}
use irhub.Frontend.Remotes.{answered}
use irhub.Frontend.Selects.{is_empty}
use irhub.Frontend.Rules.{RulePage, action_json, condition_text, toggle_body, rule_toggled}
use irhub.Frontend.Rules.Save.{enabled_of-bool}
use irhub.Frontend.Rules.Targets.{truthy_text}
use irhub.Frontend.Rules.Reopen.{or_else-truthy, requested-rule}
use irhub.Backend.Lowdb.Places.{set, get_elem?-first}
use irhub.Frontend.Rules.Save.{condition_of-text, action_of-json, number_of-num}
use irhub.Js.Laws.{strict_eq_refl}

own_id_text : (r : Rule) (t : Text) → r.id ≡ str t → has_id rule_key (str t) r ≡ true
own_id_text r t e = ap (λ v. strict_eq v (str t)) e ∙ strict_eq_refl (str t) tt

field-toggle :
    (r : Rule)
    → (field (text "name") (toggle_body r) ≡ r.name)
      × (field (text "enabled") (toggle_body r) ≡ bool (not r.enabled))
      × (field (text "condition") (toggle_body r) ≡ str (condition_text r.condition))
      × (field (text "thresholdCents") (toggle_body r) ≡ num r.threshold_cents)
      × (field (text "action") (toggle_body r) ≡ action_json r.action)
      × (field (text "id") (toggle_body r) ≡ r.id)
unfolding toggle_body field lookup_or text_eq
field-toggle r = (refl, refl, refl, refl, refl, refl)

-- Pausing and enabling, on both sides. The page shows the rules that the backend stores, whose string
-- ids are unique, and the rule at one place of it has a name and a string for its id. The backend
-- answers the request of its button 200 with the rule as it was but for `enabled`, which is turned
-- over; what the rule remembers stays. Once the page has the answer, it shows again what the backend
-- now stores, and every other rule is as before.
pub rule_toggled-post_rule :
    (env : Env) (s : Server) (p : RulePage) (i : ℕ) (r : Rule) (t : Text)
    → get_elem? p.rules i ≡ some r
    → truthy r.name ≡ true
    → r.id ≡ str t
    → is_empty t ≡ false
    → HasUniqueIds rule_key s.rules
    → p.rules ≡ s.rules
    → ((post_rule env s (toggle_body r)).1
        ≡ json 200 (rule (some (record r { enabled = not r.enabled }))))
      × ((rule_toggled i (answered (record r { enabled = not r.enabled })) p).rules
          ≡ (post_rule env s (toggle_body r)).0.rules)
      × ((post_rule env s (toggle_body r)).0.rules
          ≡ set s.rules i (record r { enabled = not r.enabled }))
unfolding rule_toggled
rule_toggled-post_rule env s p i r t at named its_id some_t unique mirror =
    let body = toggle_body r in
    let r' : Rule = record r { enabled = not r.enabled } in
    let (f_name, f_enabled, f_condition, f_number, f_action, f_id) = field-toggle r in
    let truthy_id : truthy r.id ≡ true = ap truthy its_id ∙ truthy_text t some_t in
    let target : rule_target env s body ≡ r.id =
      ap (λ id. or_else id (str (text "rule-" ++ env.short_uuid s.uuids))) f_id
      ∙ or_else-truthy r.id _ truthy_id in
    let own : has_id rule_key (str t) r ≡ true = own_id_text r t its_id in
    let (found, written) =
      get_elem?-first (has_id rule_key (str t)) s.rules i r r' (unique t)
        (ap (λ xs. get_elem? xs i) (sym mirror) ∙ at) own in
    let held : env.rule_db.find_by (str t) s.rules ≡ some r =
      env.rule_db.find_lem (str t) s.rules tt ∙ found in
    let (lists, reply) =
      post_rule-upserts env s body r.condition r.threshold_cents r.action t (target ∙ its_id)
        (ap truthy f_name ∙ named) (ap condition_of f_condition ∙ condition_of-text r.condition)
        (ap number_of f_number ∙ number_of-num r.threshold_cents)
        (ap action_of f_action ∙ action_of-json r.action) in
    let same : requested env s body r.condition r.threshold_cents r.action ≡ r' =
      requested-rule env s body r' target f_name
        (ap enabled_of f_enabled ∙ enabled_of-bool (not r.enabled))
        (ap last_state (ap (λ id. env.rule_db.find_by id s.rules) (target ∙ its_id) ∙ held)) in
    let stores : (post_rule env s body).0.rules ≡ set s.rules i r' =
      lists
      ∙ ap₂ (λ (x : Rule) o. upsert rule_key env.rule_db (str t) x (λ _. x) o s.rules) same held
      ∙ env.rule_db.assign_lem (str t) (λ _. r') s.rules tt
      ∙ sym written in
    (
      reply ∙ ap (λ (x : Rule). json 200 (rule (some x))) same,
      ap (λ xs. set xs i r') mirror ∙ sym stores,
      stores,
    )
