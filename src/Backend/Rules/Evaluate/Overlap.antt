-- ===== src/Backend/Rules/Evaluate/Overlap.antt =====
-- Two passes that overlap: `setInterval` starts one while another awaits its action.
use irhub.Prelude.{
  ℕ, Bool, true, false, ◌&&◌, [], ◌∷◌, ◌++◌, Option, none, some, Text, not, get_elem?, ◌≡◌, ◌≢◌,
  refl, sym, ◌∙◌, ap, arith, if_true, append_assoc,
}
use irhub.Js.{Value, null, str, Js, ok, strict_eq}
use irhub.Backend.State.{Button, Rule, press, Server, Env, rule_triggered, broadcast, find_button}
use irhub.Backend.Fire.{signal_payload, publish, publish_error}
use irhub.Backend.Fire.Agree.{IsSendable, fire_button_sends}
use irhub.Backend.Price.{get_current_price_cents}
use irhub.Backend.Rules.Evaluate.{
  condition_met, Rounds, perform, tell, trigger, settle, evaluate_rule, evaluate_from,
  evaluate_rules,
}
use irhub.Backend.Rules.Evaluate.Pass.{own_id}
use irhub.Backend.Rules.Evaluate.Edge.{evaluate_at-price}

on_edge : (a b : Bool) → a ≡ true → b ≡ false → (a && not b) ≡ true
on_edge a b h k = ground arith

module _ (env : Env) (w : Rounds) (fuel : ℕ) (price : Value) (r : Rule) (t : Text) (rid bid : Value)
    (b : Button) (its_id : r.id ≡ str t) (action : r.action ≡ press rid bid)
    (active : r.enabled ≡ true) (met : condition_met env price r ≡ true)
    (fresh : r.last_triggered_state ≡ false) (sendable : IsSendable b) where
  remembering : Rule → Rule
  remembering x = record x { last_triggered_state = condition_met env price r }

  -- What the state is after the only rule fired its button and was written back.
  after_round : Server → Server
  after_round s =
      let told =
        broadcast (rule_triggered r.id r.name price (publish_error (w.ack 0)))
          (w.during_publish 0 (publish (signal_payload b.signal) s)) in
      record told { rules = env.rule_db.assign r.id remembering told.rules }

  settled_alone :
      (s : Server) (x : Rule)
      → (w.during_publish 0 (publish (signal_payload b.signal) s)).rules ≡ x ∷ []
      → x.id ≡ r.id
      → (after_round s).rules ≡ remembering x ∷ []
  unfolding after_round broadcast
  settled_alone s x now same = rw (
    env.rule_db.assign_lem r.id remembering
        (w.during_publish 0 (publish (signal_payload b.signal) s)).rules (rw its_id tt),
    now,
    ap (λ v. strict_eq v r.id) same ∙ own_id r t its_id,
  )

  performed :
      (s : Server)
      → find_button env s.remotes rid bid ≡ some b
      → perform env w fuel 0 r.action s
        ≡ some (w.during_publish 0 (publish (signal_payload b.signal) s), publish_error (w.ack 0))
  unfolding perform
  performed s found =
      ap (λ a. perform env w fuel 0 a s) action
      ∙ ap (λ fired. some (w.during_publish 0 fired.0, fired.1))
          (fire_button_sends env s rid bid (w.ack 0) b found sendable)

  fires :
      (s : Server)
      → find_button env s.remotes rid bid ≡ some b
      → evaluate_rule env w fuel 0 price r s ≡ some (after_round s)
  unfolding evaluate_rule trigger after_round remembering
  fires s found =
      if_true _ (some s) active
      ∙ ap (settle env w fuel price r) (
          if_true _ (some s) (on_edge (condition_met env price r) _ met fresh)
          ∙ ap (tell env w fuel r price) (performed s found))

  -- A pass over this rule alone, from a state that holds the target.
  pass_alone :
      (s : Server) (x : Rule)
      → s.rules ≡ r ∷ []
      → find_button env s.remotes rid bid ≡ some b
      → (w.during_publish 0 (publish (signal_payload b.signal) s)).rules ≡ x ∷ []
      → x.id ≡ r.id
      → evaluate_from env w fuel 2 0 price s ≡ some (after_round s)
  unfolding evaluate_from after_round
  pass_alone s x only found now same =
      let here : get_elem? s.rules 0 ≡ some r = rw only refl in
      let past : get_elem? (after_round s).rules 1 ≡ none = rw (settled_alone s x now same) refl in
      rw (here, evaluate_from, fires s found, past)

-- A pass during which the broker takes every publish at once and nothing else happens.
abbrev pub calm : Rounds
calm = record {
  ack = λ _. none;
  during_publish = λ _ s. s;
  run = λ _. record {
    steps_at = λ _. [];
    during_sleep = λ _ s. s;
    during_publish = λ _ s. s;
    ack = λ _. none;
  };
}

some_ok_inj {ℓ} :
    {A : Type ℓ} {a b : A} → ◌≡◌ {A = Js (Option A)} (ok (some a)) (ok (some b)) → a ≡ b
some_ok_inj e = cc

-- One enabled rule under a string id, whose condition is met and was not met before, and whose
-- button may be sent. While a pass awaits the publish, as it does as long as the broker is not
-- reachable, the next pass runs. The button is then fired twice for one change of the price, since
-- the first pass remembers the change only behind its `await`.
pub overlapping_passes_fire_twice :
    (env : Env) (w : Rounds) (fuel : ℕ) (price : Value) (r : Rule) (t : Text) (rid bid : Value)
    (b : Button) (s inner : Server)
    → r.id ≡ str t
    → r.action ≡ press rid bid
    → r.enabled ≡ true
    → condition_met env price r ≡ true
    → r.last_triggered_state ≡ false
    → IsSendable b
    → s.rules ≡ r ∷ []
    → find_button env s.remotes rid bid ≡ some b
    → get_current_price_cents env s ≡ ok price
    → price ≢ null
    → evaluate_rules env calm fuel 2 (publish (signal_payload b.signal) s) ≡ ok (some inner)
    → w.during_publish 0 (publish (signal_payload b.signal) s) ≡ inner
    → (s' : Server) × (evaluate_rules env w fuel 2 s ≡ ok (some s'))
      × (s'.published ≡ s.published ++ signal_payload b.signal ∷ signal_payload b.signal ∷ [])
unfolding evaluate_rules after_round remembering broadcast get_current_price_cents
overlapping_passes_fire_twice env w fuel price r t rid bid b s inner its_id action active met fresh
      sendable only found current there runs during =
    let p = signal_payload b.signal in
    let mid = publish p s in
    let first =
      after_round env calm fuel price r t rid bid b its_id action active met fresh sendable mid in
    let alone : evaluate_from env calm fuel 2 0 price mid ≡ some first =
      pass_alone env calm fuel price r t rid bid b its_id action active met fresh sendable mid r
        only found only refl in
    let is_first : inner ≡ first = some_ok_inj (
      sym runs ∙ (rw (current, evaluate_at-price env calm fuel 2 mid price there) (ap ok alone))) in
    let seen = during ∙ is_first in
    let now =
      ap (λ (x : Server). x.rules) seen
      ∙ settled_alone env calm fuel price r t rid bid b its_id action active met fresh sendable mid
          r only refl in
    let alone' =
      pass_alone env w fuel price r t rid bid b its_id action active met fresh sendable s
        (remembering env calm fuel price r t rid bid b its_id action active met fresh sendable r)
        only found now refl in
    (
      after_round env w fuel price r t rid bid b its_id action active met fresh sendable s,
      rw (current, evaluate_at-price env w fuel 2 s price there) (ap ok alone'),
      ap (λ (x : Server). x.published) seen ∙ append_assoc s.published (p ∷ []) (p ∷ []),
    )
