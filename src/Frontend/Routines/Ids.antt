-- ===== src/Frontend/Routines/Ids.antt =====
-- The ids that the routine modal sends: that of what is saved, and that of what is deleted.
use irhub.Prelude.{
  ℕ, true, false, [], ◌∷◌, ◌⊎◌, some_inj, none-ne-some, text, All-append, arith, Option, some, Text,
  ◌≡◌, refl, sym, subst, ◌∙◌, ap, Bool-cases, inl, inr,
}
use irhub.Js.{Value, null, str, truthy}
use irhub.Js.Laws.{str_inj}
use irhub.Backend.State.{Server, Env}
use irhub.Frontend.Selects.{string_of}
use irhub.Frontend.Routines.{RoutinePage, delete_request}
use irhub.Frontend.Routines.Save.{next_id, HasTextId}
use irhub.Frontend.Routines.Draft.{IsPlain, is_plain}
use irhub.Frontend.Routines.Moves.{HasPlainId}

contradiction : true ≡ false → ⊥
contradiction e = ground arith

pub HasPlainId-HasTextId : (editing : Value) → HasPlainId editing → HasTextId editing
HasPlainId-HasTextId editing (inl e) = inl e
HasPlainId-HasTextId editing (inr (t, e, plain)) = inr (t, e)

routine_prefix-IsPlain : IsPlain (text "routine-")
unfolding is_plain
routine_prefix-IsPlain = (refl, (refl, (refl, (refl, (refl, (refl, (refl, (refl, tt))))))))

null_not_str : (t : Text) → ¬ (null ≡ str t)
null_not_str t e = cc

-- The id of what is stored is plain: it is a new one, or that of the routine that was edited.
pub origin-IsPlain :
    (env : Env) (s : Server) (editing : Value) (t : Text)
    → IsPlain (env.short_uuid s.uuids)
    → HasPlainId editing
    → (t ≡ next_id env s) ⊎ (editing ≡ str t)
    → IsPlain t
origin-IsPlain env s editing t short h (inl new) = subst IsPlain (sym new) (
    All-append (λ c. is_plain c ≡ true) (text "routine-") (env.short_uuid s.uuids)
      routine_prefix-IsPlain short)
origin-IsPlain env s editing t short (inl is_null) (inr e) =
    absurd (null_not_str t (sym is_null ∙ e))
origin-IsPlain env s editing t short (inr (u, e', plain)) (inr e) =
    subst IsPlain (str_inj u t (sym e' ∙ e)) plain

-- The id that is asked to go is the one that is edited, and the request is about the routine under it.
delete_request-id :
    (p : RoutinePage) (id : Value)
    → delete_request true p ≡ some id
    → (truthy p.editing ≡ true) × (p.editing ≡ id)
unfolding delete_request
delete_request-id p id h = elim (Bool-cases (truthy p.editing)) [
  | inl t ↦ (t, some_inj (rw t at h))
  | inr f ↦ absurd (none-ne-some (rw f at h))
]

pub routed_id :
    (stringify : Value → Text) (route : Text → Option Text) (p : RoutinePage) (id : Value)
    (u : Text)
    → ((c : ℕ) (t : Text) → IsPlain (c ∷ t) → route (c ∷ t) ≡ some (c ∷ t))
    → HasPlainId p.editing
    → delete_request true p ≡ some id
    → route (string_of stringify id) ≡ some u
    → id ≡ str u
unfolding truthy
routed_id stringify route p id u plainly h asked at = either h
  where
    its : (truthy p.editing ≡ true) × (p.editing ≡ id)
    its = delete_request-id p id asked

    under : (t : Text) → id ≡ str t → IsPlain t → id ≡ str u
    under [] e plain = absurd (contradiction (sym (rw (its.1, e) at its.0)))
    under (c ∷ t) e plain = e ∙ ap str (some_inj (sym (plainly c t plain) ∙ (rw e at at)))

    either : HasPlainId p.editing → id ≡ str u
    either (inl e) = absurd (contradiction (sym (rw e at its.0)))
    either (inr (t, e, plain)) = under t (sym its.1 ∙ e) plain
