-- ===== src/Backend/Routines/Steps.antt =====
-- What `steps.map` makes of the steps of a request.
use irhub.Prelude.{
  true, List, [], ◌∷◌, text, if◌then◌else◌, ◌≡◌, refl, ◌∙◌, Bool-cases, inl, inr, All, sym, subst,
}
use irhub.Js.{
  Value, num, Items, nil, cons, of_ℕ, is_integer, field, member, is_nullish, Js, ok, type_error,
}
use irhub.Backend.State.{RoutineStep}
use irhub.Backend.Remotes.Normalize.{all_defined}
use irhub.Backend.Routines.{normalize_step, normalize_steps}

-- The step that is stored for a step of the request: an unreadable delay counts as 0.
abbrev pub stored_step : Value → RoutineStep
stored_step v = record {
  remote_id = field (text "remoteId") v;
  button_id = field (text "buttonId") v;
  delay_ms =
      if is_integer (field (text "delayMs") v) then field (text "delayMs") v else num (of_ℕ 0);
}

abbrev pub stored_steps : Items → List RoutineStep
stored_steps nil = []
stored_steps (cons v vs) = stored_step v ∷ stored_steps vs

-- The steps can be read exactly if none of them is null.
pub normalize_steps_lem :
    (vs : Items)
    → normalize_steps vs ≡ (if all_defined vs then ok (stored_steps vs) else type_error)
unfolding normalize_steps normalize_step member
normalize_steps_lem nil = refl
normalize_steps_lem (cons v vs) = elim (Bool-cases (is_nullish v)) [
  | inl gone ↦ rw gone
  | inr there ↦ elim (Bool-cases (all_defined vs)) [
    | inl rest ↦ rw (there, normalize_steps_lem vs, rest)
    | inr cut ↦ rw (there, normalize_steps_lem vs, cut)
  ]
]

stored_steps-integer :
    (vs : Items) → All (λ (step : RoutineStep). is_integer step.delay_ms ≡ true) (stored_steps vs)
stored_steps-integer nil = tt
stored_steps-integer (cons v vs) = (whole (field (text "delayMs") v), stored_steps-integer vs)
  where
    whole : (d : Value) → is_integer (if is_integer d then d else num (of_ℕ 0)) ≡ true
    whole d = elim (Bool-cases (is_integer d)) [
      | inl t ↦ rw t t
      | inr f ↦ rw f (unfold is_integer in refl)
    ]

-- Every step of a request that is read is stored with a delay that is a whole number, whatever the
-- request holds under `delayMs`.
pub normalize_steps-integer :
    (vs : Items) (steps : List RoutineStep)
    → normalize_steps vs ≡ ok steps
    → All (λ (step : RoutineStep). is_integer step.delay_ms ≡ true) steps
normalize_steps-integer vs steps h = elim (Bool-cases (all_defined vs)) [
  | inl there ↦
      subst (All (λ (step : RoutineStep). is_integer step.delay_ms ≡ true))
        (ok_inj (sym (rw (normalize_steps_lem vs, there) refl) ∙ h)) (stored_steps-integer vs)
  | inr gone ↦ absurd (type_error-ne-ok (rw (normalize_steps_lem vs, gone) at h))
]
  where
    ok_inj : {a b : List RoutineStep} → ok a ≡ ok b → a ≡ b
    ok_inj e = cc

    type_error-ne-ok :
        {a : List RoutineStep} → ◌≡◌ {A = Js (List RoutineStep)} type_error (ok a) → ⊥
    type_error-ne-ok e = cc
