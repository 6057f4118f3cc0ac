-- ===== src/Frontend/Rules/Reopen.antt =====
-- Opening a stored rule and saving it as it is.
use irhub.Prelude.{true, text, ◌≡◌, ◌∙◌, ap₂, if_true, Bool}
use irhub.Js.{Value, field, truthy, or_else}
use irhub.Backend.State.{Rule, Server, Env}
use irhub.Backend.Rules.{enabled_of, last_state}
use irhub.Backend.Rules.Store.{rule_target, requested}

pub or_else-truthy : (v w : Value) → truthy v ≡ true → or_else v w ≡ v
unfolding or_else
or_else-truthy v w h = if_true _ _ h

-- A request whose fields are those of a rule, over a stored rule that remembers the same, is that rule.
pub requested-rule :
    (env : Env) (s : Server) (body : Value) (r : Rule)
    → rule_target env s body ≡ r.id
    → field (text "name") body ≡ r.name
    → enabled_of (field (text "enabled") body) ≡ r.enabled
    → last_state (env.rule_db.find_by (rule_target env s body) s.rules) ≡ r.last_triggered_state
    → requested env s body r.condition r.threshold_cents r.action ≡ r
requested-rule env s body r id name enabled last =
    let made : Value → Value → Bool → Bool → Rule =
      λ i n e l. record r { id = i; name = n; enabled = e; last_triggered_state = l } in
    ap₂
      (λ i n.
        made i n (enabled_of (field (text "enabled") body))
          (last_state (env.rule_db.find_by (rule_target env s body) s.rules)))
      id name
    ∙ ap₂ (made r.id r.name) enabled last
