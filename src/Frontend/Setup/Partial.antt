-- ===== src/Frontend/Setup/Partial.antt =====
-- What reached the hub when a write of `setupApply` is rejected.
use irhub.Prelude.{
  ℕ, suc, true, false, List, [], ◌∷◌, ◌++◌, append-nil, append_assoc, Option, none, some, Text, ◌≡◌,
  refl, sym, ◌∙◌, ap, Option-cases, inl, inr, if_true,
}
use irhub.Js.{ℤ}
use irhub.Frontend.Setup.Form.{Form, validate_setup_form}
use irhub.Frontend.Setup.Apply.{
  Page, Write, Link, port_bytes, apply_writes, write_all, applied, apply_unless, setup_apply,
}
use irhub.Frontend.Setup.Checks.{values_of}

-- No handler that runs between the writes edits the form or writes itself.
abbrev pub IsUndisturbed : Link → Type 0
IsUndisturbed link =
    (i : ℕ) (q : Page)
    → ((link.meanwhile i q).form ≡ q.form) × ((link.meanwhile i q).written ≡ q.written)

-- A part of the values reached the hub, from the first on.
abbrev pub IsPart : List Write → List Write → List Write → Type 0
IsPart before after values =
    (sent rest : List Write) × (after ≡ before ++ sent) × (sent ++ rest ≡ values)

module _ (link : Link) (still : IsUndisturbed link) where
  write_all-IsPart :
      (i : ℕ) (ws : List (Form → Option Write)) (p : Page)
      → IsPart p.written (write_all link i ws p).0.written (values_of ws p.form)
  unfolding write_all
  write_all-IsPart i [] p = ([], [], sym (append-nil p.written), refl)
  write_all-IsPart i (next ∷ more) p = elim (Option-cases (next p.form)) [
    | inl out ↦ rw out (write_all-IsPart (suc i) more p)
    | inr (w, out) ↦ elim (Option-cases (link.rejects i w)) [
      | inr (reason, refused) ↦
          rw (out, refused)
            ([], w ∷ values_of more p.form, (still i p).1 ∙ sym (append-nil p.written), refl)
      | inl taken ↦
          let q = record p { written = p.written ++ w ∷ [] } in
          let (same_form, same_writes) = still i q in
          let (sent, rest, after, whole) = write_all-IsPart (suc i) more (link.meanwhile i q) in
          rw (out, taken)
            (
              w ∷ sent,
              rest,
              after ∙ ap (λ ws. ws ++ sent) same_writes ∙ append_assoc p.written (w ∷ []) sent,
              ap (λ ws. w ∷ ws) (whole ∙ ap (values_of more) same_form),
            )
    ]
  ]

applied-writes : (o : Page × Option Text) → (applied o).written ≡ o.0.written
applied-writes (q, none) = refl
applied-writes (q, some reason) = refl

applied-enabled : (o : Page × Option Text) → (applied o).apply_disabled ≡ false
applied-enabled (q, none) = refl
applied-enabled (q, some reason) = refl

-- Applying a form that passes, while no handler edits the form, whichever write the hub rejects: what
-- reaches the hub is a part, from the first on, of the values that the form stands for, in their
-- order and none twice; and the button to apply is enabled again.
pub setup_apply-IsPart :
    (number : Text → Option ℤ) (link : Link) (p : Page)
    → IsUndisturbed link
    → p.has_chars ≡ true
    → validate_setup_form number p.last_state p.form ≡ none
    → IsPart p.written
        (setup_apply number link p).written
        (values_of (apply_writes (port_bytes (number p.form.port))) p.form)
      × ((setup_apply number link p).apply_disabled ≡ false)
unfolding setup_apply
setup_apply-IsPart number link p still there passes =
    let ran =
      write_all link 0 (apply_writes (port_bytes (number p.form.port)))
        (record p { apply_disabled = true }) in
    let runs : setup_apply number link p ≡ applied ran =
      if_true _ _ there ∙ ap (apply_unless number link p) passes in
    let (sent, rest, after, whole) =
      write_all-IsPart link still 0 (apply_writes (port_bytes (number p.form.port)))
        (record p { apply_disabled = true }) in
    (
      (sent, rest, ap (λ (q : Page). q.written) runs ∙ applied-writes ran ∙ after, whole),
      ap (λ (q : Page). q.apply_disabled) runs ∙ applied-enabled ran,
    )
