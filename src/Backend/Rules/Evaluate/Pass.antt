-- ===== src/Backend/Rules/Evaluate/Pass.antt =====
-- A whole pass over rules that no other handler changes meanwhile.
use irhub.Prelude.{
  ℕ, zero, suc, ◌<◌, true, ◌&&◌, List, [], ◌∷◌, ◌++◌, Option, none, some, Text, if◌then◌else◌, not,
  get_elem?, length, map, ◌≡◌, refl, sym, ◌∙◌, ap, arith, Bool-cases, inl, inr, All,
  get_elem?-append-cons, get_elem?-length, length-append, append-nil, append_assoc, map-append,
  update_first, if_true, if_false,
}
use irhub.Js.{Value, str, strict_eq}
use irhub.Js.Laws.{strict_eq_refl}
use irhub.Backend.Lowdb.{has_id}
use irhub.Backend.Lowdb.Unique.{count-replace, HasUniqueIds, update_first-at, count_before}
use irhub.Backend.State.{Rule, RuleAction, Server, Env, FireError, rule_triggered, broadcast}
use irhub.Backend.Rules.Evaluate.{
  condition_met, Rounds, perform, trigger, settle, evaluate_rule, evaluate_from,
}

abbrev pub rule_key : Rule → Value
rule_key r = r.id

-- A rule after it was looked at: enabled, it remembers whether its condition was met.
abbrev pub settled : Env → Value → Rule → Rule
settled env price r =
    if r.enabled then record r { last_triggered_state = condition_met env price r } else r

-- Every rule has a string id.
abbrev pub HasStringId : Rule → Type 0
HasStringId r = (t : Text) × (r.id ≡ str t)

-- Every action comes to an end, and no other handler changes the rules while it is awaited.
abbrev pub IsQuiet : Env → Rounds → ℕ → Type 0
IsQuiet env w fuel =
    (i : ℕ) (a : RuleAction) (s : Server)
    → (r : Server × Option FireError) × (perform env w fuel i a s ≡ some r) × (r.0.rules ≡ s.rules)

pub own_id : (r : Rule) (t : Text) → r.id ≡ str t → has_id rule_key r.id r ≡ true
own_id r t e = strict_eq_refl r.id (rw e tt)

pub settled-id : (env : Env) (price : Value) (r : Rule) → (settled env price r).id ≡ r.id
settled-id env price r = elim (Bool-cases r.enabled) [
  | inl active ↦ ap rule_key (if_true _ r active)
  | inr paused ↦ ap rule_key (if_false _ r paused)
]

module _ (env : Env) (w : Rounds) (fuel : ℕ) (price : Value) (quiet : IsQuiet env w fuel) where
  trigger-rules :
      (i : ℕ) (r : Rule) (s : Server)
      → (s' : Server) × (trigger env w fuel i price r s ≡ some s') × (s'.rules ≡ s.rules)
  unfolding trigger broadcast
  trigger-rules i r s =
      elim (Bool-cases (condition_met env price r && not r.last_triggered_state)) [
        | inr idle ↦ (s, rw idle, refl)
        | inl edge ↦
            let (done, performed, same) = quiet i r.action s in
            (broadcast (rule_triggered r.id r.name price done.1) done.0, rw (edge, performed), same)
      ]

  -- One rule, in its place among the others.
  evaluate_rule-at :
      (i : ℕ) (pre post : List Rule) (r : Rule) (s : Server)
      → HasStringId r
      → HasUniqueIds rule_key s.rules
      → s.rules ≡ pre ++ r ∷ post
      → (s' : Server) × (evaluate_rule env w fuel i price r s ≡ some s')
        × (s'.rules ≡ pre ++ settled env price r ∷ post)
  unfolding evaluate_rule
  evaluate_rule-at i pre post r s (t, its_id) unique split = elim (Bool-cases r.enabled) [
    | inr paused ↦ (
      s,
      if_false (settle env w fuel price r (trigger env w fuel i price r s)) (some s) paused,
      split ∙ ap (λ x. pre ++ x ∷ post) (sym (if_false (remembering r) r paused)),
    )
    | inl active ↦
        let (s', done, same) = trigger-rules i r s in
        (
          record s' { rules = env.rule_db.assign r.id remembering s'.rules },
          if_true (settle env w fuel price r (trigger env w fuel i price r s)) (some s) active
              ∙ rw done,
          env.rule_db.assign_lem r.id remembering s'.rules (rw its_id tt)
              ∙ ap (update_first (has_id rule_key r.id) remembering) (same ∙ split)
              ∙ update_first-at (has_id rule_key r.id) remembering pre post r
                  (count_before (has_id rule_key r.id) pre post r (own_id r t its_id)
                    (rw (split, ← its_id) at (unique t)))
                  (own_id r t its_id)
              ∙ ap (λ x. pre ++ x ∷ post) (sym (if_true (remembering r) r active)),
        )
  ]
    where
      remembering : Rule → Rule
      remembering x = record x { last_triggered_state = condition_met env price r }

  settled-HasUniqueIds :
      (pre post : List Rule) (r : Rule) (rules rules' : List Rule)
      → rules ≡ pre ++ r ∷ post
      → rules' ≡ pre ++ settled env price r ∷ post
      → HasUniqueIds rule_key rules
      → HasUniqueIds rule_key rules'
  settled-HasUniqueIds pre post r rules rules' e e' u t =
      rw
        (
          e',
          ← count-replace (has_id rule_key (str t)) pre post r (settled env price r)
              (ap (λ v. strict_eq v (str t)) (sym (settled-id env price r))),
          ← e,
        )
        (u t)

  -- The loop from round i on, with the rules of the earlier rounds done.
  pub evaluate_from-settles :
      (rounds i : ℕ) (done rest : List Rule) (s : Server)
      → s.rules ≡ map (settled env price) done ++ rest
      → i ≡ length (map (settled env price) done)
      → length rest < rounds
      → HasUniqueIds rule_key s.rules
      → All HasStringId rest
      → (s' : Server) × (evaluate_from env w fuel rounds i price s ≡ some s')
        × (s'.rules ≡ map (settled env price) (done ++ rest))
  unfolding evaluate_from
  evaluate_from-settles zero i done rest s split at_i enough unique ids = absurd (omega arith)
  evaluate_from-settles (suc rounds) i done [] s split at_i enough unique ids =
      let past : get_elem? s.rules i ≡ none =
        rw (split, append-nil (map (settled env price) done), at_i)
          (get_elem?-length (map (settled env price) done)) in
      (
        s,
        rw (past, evaluate_from),
        split ∙ append-nil _ ∙ ap (map (settled env price)) (sym (append-nil done)),
      )
  evaluate_from-settles (suc rounds) i done (r ∷ rest) s split at_i enough unique (id, ids) =
      let pre = map (settled env price) done in
      let here : get_elem? s.rules i ≡ some r =
        rw (split, at_i) (get_elem?-append-cons pre rest r) in
      let (s1, round, now) = evaluate_rule-at i pre rest r s id unique split in
      let grown = map-append (settled env price) done (r ∷ []) in
      let (s', ends, all_settled) =
        evaluate_from-settles rounds (suc i) (done ++ r ∷ []) rest s1
          (now
            ∙ sym (append_assoc pre (settled env price r ∷ []) rest)
            ∙ ap (λ xs. xs ++ rest) (sym grown))
          (omega (arith, at_i, ap length grown, length-append {0} pre (settled env price r ∷ [])))
          (omega arith) (settled-HasUniqueIds pre rest r s.rules s1.rules split now unique) ids in
      (
        s',
        rw (here, evaluate_from, round) ends,
        all_settled ∙ ap (map (settled env price)) (append_assoc done (r ∷ []) rest),
      )
