-- ===== src/Frontend/Rules/Targets.antt =====
-- Opening a rule chooses the target of its action.
use irhub.Prelude.{
  true, false, ◌||◌, List, [], ◌∷◌, map, some, Text, text_eq, text_eq_refl, ◌≡◌, ◌⊎◌, refl, sym,
  ◌∙◌, ap, ap₂, if_true, if_false, Bool, Bool-cases, inl, inr, none-ne-some, any, find, subst,
}
use irhub.Js.{Value, str, Number, truthy, strict_eq}
use irhub.Js.Laws.{strict_eq-str}
use irhub.Backend.State.{Remote, Button, Routine, Rule, RuleAction, press, routine}
use irhub.Backend.Lowdb.{has_id}
use irhub.Frontend.Selects.{Select, is_empty, string_of, choose, filled, buttons_of}
use irhub.Frontend.Rules.{RulePage, is_routine, chosen_action, sync_rule_action_rows}
use irhub.Frontend.Rules.Open.{open_rule_modal}

any-map-find {ℓ κ} :
    {A : Type ℓ} {B : Type κ} (p : A → Bool) (q : B → Bool) (f : A → B) (xs : List A) (x : A)
    → ((y : A) → p y ≡ true → q (f y) ≡ true)
    → find p xs ≡ some x
    → any q (map f xs) ≡ true
any-map-find p q f [] x keep h = absurd (none-ne-some h)
any-map-find p q f (y ∷ ys) x keep h = elim (Bool-cases (p y)) [
  | inl here ↦ rw (keep y here) refl
  | inr there ↦ elim (Bool-cases (q (f y))) [
    | inl t ↦ rw t refl
    | inr f' ↦ rw f' (any-map-find p q f ys x keep (rw there at h))
  ]
]

-- An id that an item has can be chosen.
choose_found {ℓ} :
    {A : Type ℓ} (stringify : Value → Text) (key : A → Value) (t : Text) (xs : List A) (x : A)
    → find (has_id key (str t)) xs ≡ some x
    → (choose t (filled (map (λ y. string_of stringify (key y)) xs))).value ≡ t
unfolding choose
choose_found stringify key t xs x h = if_true _ _ (
    any-map-find (has_id key (str t)) (λ o. text_eq o t) (λ y. string_of stringify (key y)) xs x
      (λ y here.
        ap (λ v. text_eq (string_of stringify v) t) (strict_eq-str (key y) t here) ∙ text_eq_refl t)
      h)

-- The page still has what the action of a rule needs: a remote with a button, or a routine.
abbrev pub HasTarget : RulePage → RuleAction → Type 0
HasTarget p action =
    ((t u : Text) × (r : Remote) × (b : Button) × (action ≡ press (str t) (str u))
      × (is_empty t ≡ false)
      × (is_empty u ≡ false)
      × (find (λ (x : Remote). strict_eq x.id (str t)) p.remotes ≡ some r)
      × (find (λ (x : Button). strict_eq x.id (str u)) r.buttons ≡ some b))
    ⊎ ((t : Text) × (r : Routine) × (action ≡ routine (str t))
        × (is_empty t ≡ false)
        × (find (λ (x : Routine). strict_eq x.id (str t)) p.routines ≡ some r))

chosen_action-button :
    (p : RulePage) (t u : Text)
    → is_routine p.kind ≡ false
    → p.target_remote.value ≡ t
    → p.target_button.value ≡ u
    → is_empty t ≡ false
    → is_empty u ≡ false
    → chosen_action p ≡ (p, some (press (str t) (str u)))
unfolding chosen_action
chosen_action-button p t u kind at_remote at_button some_t some_u =
    if_false _ _ kind
    ∙ if_false _ _ (ap₂ (λ x y. is_empty x || is_empty y) at_remote at_button ∙ rw some_t some_u)
    ∙ ap₂ (λ x y. (p, some (press (str x) (str y)))) at_remote at_button

chosen_action-routine :
    (p : RulePage) (t : Text)
    → is_routine p.kind ≡ true
    → p.target_routine.value ≡ t
    → is_empty t ≡ false
    → chosen_action p ≡ (p, some (routine (str t)))
unfolding chosen_action
chosen_action-routine p t kind at some_t =
    if_true _ _ kind
    ∙ if_false _ _ (ap is_empty at ∙ some_t)
    ∙ ap (λ x. (p, some (routine (str x)))) at

pub truthy_text : (t : Text) → is_empty t ≡ false → truthy (str t) ≡ true
unfolding truthy
truthy_text [] h = cc
truthy_text (c ∷ t) h = refl

pub chosen_action-open :
    (stringify : Value → Text) (number_input : Number → Text) (p : RulePage) (r : Rule)
    → HasTarget p r.action
    → chosen_action (open_rule_modal stringify number_input (some r) p)
      ≡ (open_rule_modal stringify number_input (some r) p, some r.action)
unfolding open_rule_modal sync_rule_action_rows
chosen_action-open stringify number_input p r (inl (t, u, m, b, e, some_t, some_u, at, its)) =
    subst
      (λ (x : Rule).
        chosen_action (open_rule_modal stringify number_input (some x) p)
        ≡ (open_rule_modal stringify number_input (some x) p, some x.action))
      (ap (λ a. record r { action = a }) (sym e))
      (chosen_action-button
        (open_rule_modal stringify number_input (some (record r { action = press (str t) (str u) }))
          p)
        t u refl (choose_found stringify (λ (x : Remote). x.id) t p.remotes m at)
        (ap (λ bs. (choose u (filled bs)).value) (ap (buttons_of stringify) at)
          ∙ choose_found stringify (λ (x : Button). x.id) u m.buttons b its)
        some_t some_u)
chosen_action-open stringify number_input p r (inr (t, m, e, some_t, at)) =
    subst
      (λ (x : Rule).
        chosen_action (open_rule_modal stringify number_input (some x) p)
        ≡ (open_rule_modal stringify number_input (some x) p, some x.action))
      (ap (λ a. record r { action = a }) (sym e))
      (chosen_action-routine
        (open_rule_modal stringify number_input (some (record r { action = routine (str t) })) p) t
        refl
        (ap (λ (x : Select). x.value) (if_true _ _ (truthy_text t some_t))
          ∙ choose_found stringify (λ (x : Routine). x.id) t p.routines m at)
        some_t)
