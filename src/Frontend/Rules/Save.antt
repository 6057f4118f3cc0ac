-- ===== src/Frontend/Rules/Save.antt =====
-- Saving in the rule modal, and what the backend makes of the request.
use irhub.Prelude.{
  true, false, ◌||◌, [], ◌∷◌, ◌++◌, Option, none, some, Text, text, text_eq, ◌≡◌, refl, sym, ◌∙◌,
  ap, if_true, if_false, Bool, Bool-cases, inl, inr, none-ne-some, some_inj, if◌then◌else◌,
}
use irhub.Js.{
  Value, undefined, bool, num, str, Number, field, lookup_or, truthy, or_else, strict_eq,
}
use irhub.Backend.Slug.{trim}
use irhub.Backend.State.{Rule, RuleAction, press, routine, Condition, below, above, Server, Env}
use irhub.Backend.Http.{json, rule}
use irhub.Backend.Lowdb.{has_id}
use irhub.Backend.Rules.{condition_of, number_of, action_of, enabled_of, last_state, post_rule}
use irhub.Backend.Rules.Evaluate.Pass.{rule_key}
use irhub.Backend.Rules.Store.{rule_target, requested, same_id}
use irhub.Backend.Lowdb.Upsert.{upsert}
use irhub.Backend.Rules.Upserts.{post_rule-upserts, upserted-requested}
use irhub.Frontend.Remotes.{answered}
use irhub.Frontend.Saved.{place_saved, place_saved-upsert}
use irhub.Frontend.Routines.Save.{HasTextId, or_else-text}
use irhub.Frontend.Selects.{is_empty}
use irhub.Frontend.Rules.{
  RulePage, is_routine, with_chosen, with_number, show, needs_name, action_json, condition_text,
  rule_payload, chosen_action, save_request, rule_saved, close_rule_modal,
}

pub condition_of-text : (c : Condition) → condition_of (str (condition_text c)) ≡ some c
unfolding condition_of strict_eq text_eq
condition_of-text below = refl
condition_of-text above = refl

pub action_of-json : (a : RuleAction) → action_of (action_json a) ≡ some a
unfolding action_of strict_eq text_eq field lookup_or
action_of-json (press remote_id button_id) = refl
action_of-json (routine id) = refl

pub enabled_of-bool : (b : Bool) → enabled_of (bool b) ≡ b
unfolding strict_eq
enabled_of-bool true = refl
enabled_of-bool false = refl

pub field-payload :
    (name : Text) (enabled : Bool) (c : Condition) (n : Number) (a : RuleAction) (editing : Value)
    → (field (text "name") (rule_payload name enabled c n a editing) ≡ str name)
      × (field (text "enabled") (rule_payload name enabled c n a editing) ≡ bool enabled)
      × (field (text "condition") (rule_payload name enabled c n a editing)
          ≡ str (condition_text c))
      × (field (text "thresholdCents") (rule_payload name enabled c n a editing) ≡ num n)
      × (field (text "action") (rule_payload name enabled c n a editing) ≡ action_json a)
      × (field (text "id") (rule_payload name enabled c n a editing)
          ≡ (if truthy editing then editing else undefined))
unfolding rule_payload field lookup_or text_eq
field-payload name enabled c n a editing = elim (Bool-cases (truthy editing)) [
  | inl t ↦ rw t (refl, refl, refl, refl, refl, refl)
  | inr f ↦ rw f (refl, refl, refl, refl, refl, refl)
]

-- Behind a guard that fails with `none`, a result means that the guard let through.
guarded {ℓ κ} :
    {A : Type ℓ} {B : Type κ} (b : Bool) (x q : A) (rest : A × Option B) (v : B)
    → (if b then (x, none) else rest) ≡ (q, some v)
    → (b ≡ false) × (rest ≡ (q, some v))
guarded true x q rest v h = absurd (none-ne-some (ap (λ r. r.1) h))
guarded false x q rest v h = (refl, h)

-- An action is chosen without a change to the page.
chosen_action-some : (p q : RulePage) (a : RuleAction) → chosen_action p ≡ (q, some a) → q ≡ p
unfolding chosen_action
chosen_action-some p q a h = elim (Bool-cases (is_routine p.kind)) [
  | inl r ↦
      let (_, rest) = guarded (is_empty p.target_routine.value) _ q _ a (sym (if_true _ _ r) ∙ h) in
      ap (λ (x : RulePage × Option RuleAction). x.0) (sym rest)
  | inr b ↦
      let (_, rest) =
        guarded (is_empty p.target_remote.value || is_empty p.target_button.value) _ q _ a
          (sym (if_false _ _ b) ∙ h) in
      ap (λ (x : RulePage × Option RuleAction). x.0) (sym rest)
]

with_chosen-some :
    (n : Number) (p q : RulePage) (body : Value) (w : RulePage × Option RuleAction)
    → with_chosen n p w ≡ (q, some body)
    → (a : RuleAction) × (w ≡ (q, some a))
      × (body ≡ rule_payload (trim p.name_input) p.enabled p.condition n a p.editing)
with_chosen-some n p q body (r, none) h =
    absurd (none-ne-some (ap (λ (x : RulePage × Option Value). x.1) h))
with_chosen-some n p q body (r, some a) h = (
  a,
  ap (λ (x : RulePage). (x, some a)) (ap (λ (x : RulePage × Option Value). x.0) h),
  some_inj (ap (λ (x : RulePage × Option Value). x.1) (sym h)),
)

with_number-some :
    (p q : RulePage) (body : Value) (o : Option Number)
    → with_number p o ≡ (q, some body)
    → (n : Number) × (o ≡ some n) × (with_chosen n p (chosen_action p) ≡ (q, some body))
with_number-some p q body none h =
    absurd (none-ne-some (ap (λ (x : RulePage × Option Value). x.1) h))
with_number-some p q body (some n) h = (n, refl, h)

-- A request is made only for a name, a number and a target, and changes nothing.
save_request-some :
    (parse_float : Text → Option Number) (p q : RulePage) (body : Value)
    → save_request parse_float p ≡ (q, some body)
    → (n : Number) × (a : RuleAction) × (q ≡ p)
      × (is_empty (trim p.name_input) ≡ false)
      × (parse_float p.threshold_input ≡ some n)
      × (chosen_action p ≡ (p, some a))
      × (body ≡ rule_payload (trim p.name_input) p.enabled p.condition n a p.editing)
unfolding save_request
save_request-some parse_float p q body h =
    let (named, rest) = guarded (is_empty (trim p.name_input)) (show needs_name p) q _ body h in
    let (n, parsed, chosen) = with_number-some p q body (parse_float p.threshold_input) rest in
    let (a, chose, its_body) = with_chosen-some n p q body (chosen_action p) chosen in
    let same = chosen_action-some p q a chose in
    (n, a, same, named, parsed, chose ∙ ap (λ (x : RulePage). (x, some a)) same, its_body)

pub number_of-num : (n : Number) → number_of (num n) ≡ some n
unfolding number_of
number_of-num n = refl

truthy_name : (s : Text) → is_empty s ≡ false → truthy (str s) ≡ true
unfolding truthy
truthy_name [] h = cc
truthy_name (c ∷ s) h = refl

target-text :
    (env : Env) (s : Server) (name : Text) (enabled : Bool) (c : Condition) (n : Number)
    (a : RuleAction) (editing : Value)
    → HasTextId editing
    → (t : Text) × (rule_target env s (rule_payload name enabled c n a editing) ≡ str t)
target-text env s name enabled c n a editing h =
    let (_, _, _, _, _, its_id) = field-payload name enabled c n a editing in
    let (t, e, _) = or_else-text editing (text "rule-" ++ env.short_uuid s.uuids) h in
    (t, ap (λ id. or_else id (str (text "rule-" ++ env.short_uuid s.uuids))) its_id ∙ e)

-- What the backend makes of a payload that it files under a string id: one write.
pub post_rule-payload :
    (env : Env) (s : Server) (name : Text) (enabled : Bool) (c : Condition) (n : Number)
    (a : RuleAction) (editing : Value) (t : Text)
    → is_empty name ≡ false
    → rule_target env s (rule_payload name enabled c n a editing) ≡ str t
    → ((post_rule env s (rule_payload name enabled c n a editing)).0.rules
        ≡ upsert rule_key env.rule_db
            (str t)
            (requested env s (rule_payload name enabled c n a editing) c n a)
            (λ _. requested env s (rule_payload name enabled c n a editing) c n a)
            (env.rule_db.find_by (str t) s.rules)
            s.rules)
      × ((post_rule env s (rule_payload name enabled c n a editing)).1
          ≡ json 200
              (rule (some (requested env s (rule_payload name enabled c n a editing) c n a))))
post_rule-payload env s name enabled c n a editing t some_name at =
    let (its_name, _, its_condition, its_threshold, its_action, _) =
      field-payload name enabled c n a editing in
    post_rule-upserts env s (rule_payload name enabled c n a editing) c n a t at
      (ap truthy its_name ∙ truthy_name name some_name)
      (ap condition_of its_condition ∙ condition_of-text c)
      (ap number_of its_threshold ∙ number_of-num n) (ap action_of its_action ∙ action_of-json a)

-- Saving, on both sides. The page shows the rules that the backend stores, and edits a new one or one
-- with a string for its id. If the save button makes a request at all, the backend takes it: it
-- answers 200 with a rule that has the trimmed name, the box, the condition, the number and the target
-- of the form, and that remembers whether its condition was met as the rule under its id did. Once the
-- page has that answer, it shows again what the backend now stores, and the modal is closed.
pub save_request-rules :
    (env : Env) (s : Server) (parse_float : Text → Option Number) (p q : RulePage) (body : Value)
    → save_request parse_float p ≡ (q, some body)
    → HasTextId p.editing
    → p.rules ≡ s.rules
    → (r : Rule) × ((post_rule env s body).1 ≡ json 200 (rule (some r)))
      × (r.name ≡ str (trim p.name_input))
      × (r.enabled ≡ p.enabled)
      × (r.condition ≡ p.condition)
      × (parse_float p.threshold_input ≡ some r.threshold_cents)
      × (chosen_action p ≡ (p, some r.action))
      × (r.last_triggered_state ≡ last_state (env.rule_db.find_by r.id s.rules))
      × ((rule_saved (answered r) q).rules ≡ (post_rule env s body).0.rules)
      × ((rule_saved (answered r) q).modal_open ≡ false)
unfolding rule_saved close_rule_modal
save_request-rules env s parse_float p q body h text_id mirror =
    let name = trim p.name_input in
    let (n, a, same_page, some_name, parsed, chose, its_body) =
      save_request-some parse_float p q body h in
    let payload = rule_payload name p.enabled p.condition n a p.editing in
    let (its_name, its_enabled, _, _, _, _) =
      field-payload name p.enabled p.condition n a p.editing in
    let (t, at) = target-text env s name p.enabled p.condition n a p.editing text_id in
    let r = requested env s payload p.condition n a in
    let (lists, reply) =
      post_rule-payload env s name p.enabled p.condition n a p.editing t some_name at in
    (
      r,
      ap (λ b. (post_rule env s b).1) its_body ∙ reply,
      its_name,
      ap enabled_of its_enabled ∙ enabled_of-bool p.enabled,
      refl,
      parsed,
      chose,
      refl,
      ap (λ (page : RulePage). place_saved rule_key r page.rules) same_page
          ∙ ap (place_saved rule_key r) mirror
          ∙ ap (λ x. place_saved rule_key x s.rules)
              (sym (
                upserted-requested env s payload p.condition n a t at
                  (env.rule_db.find_by (str t) s.rules)))
          ∙ place_saved-upsert rule_key env.rule_db t r (λ _. r) s.rules at
              (λ x here.
                same_id env s payload p.condition n a t at x
                  (ap (λ id. has_id rule_key id x) at ∙ here))
          ∙ sym (ap (λ b. (post_rule env s b).0.rules) its_body ∙ lists),
      refl,
    )
