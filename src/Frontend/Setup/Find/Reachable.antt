-- ===== src/Frontend/Setup/Find/Reachable.antt =====
-- The form of the setup page can be used only while there is a hub to write to, whatever happens.
use irhub.Prelude.{
  ℕ, suc, Bool, true, List, [], ◌∷◌, Option, none, some, Text, refl, sym, Bool-cases, inl, inr,
  Option-cases, subst, if_true, if_false, ◌++◌, ◌&&◌,
}
use irhub.Js.{ℤ}
use irhub.Frontend.Setup.Form.{Form, Problem, validate_setup_form}
use irhub.Frontend.Setup.Apply.{
  Page, Link, Write, setup_apply, setup_forget, on_prov_status, reset_setup_ui,
  on_setup_disconnected, on_open_network, write_one, write_all, applied, forgot, was_online,
  apply_unless, apply_writes, port_bytes, unless_rejected,
}
use irhub.Frontend.Setup.Find.{Outcome, setup_find}
use irhub.Frontend.Setup.Find.Usable.{
  IsUsable, on_prov_status-keeps, IsUsable-Same, setup_find-IsUsable,
}

-- The handlers that run while a write is under way keep the page usable.
abbrev pub KeepsUsable : Link → Type 0
KeepsUsable link = (i : ℕ) (q : Page) → IsUsable q → IsUsable (link.meanwhile i q)

module _ (link : Link) (keeps : KeepsUsable link) where
  write_one-IsUsable :
      (i : ℕ) (o : Option Write) (p : Page) → IsUsable p → IsUsable (write_one link i o p).0
  write_one-IsUsable i none p u = u
  write_one-IsUsable i (some w) p u = elim (Option-cases (link.rejects i w)) [
    | inr (reason, e) ↦ rw e (keeps i p u)
    | inl e ↦ rw e (
        keeps i (record p { written = p.written ++ w ∷ [] })
          (IsUsable-Same p (record p { written = p.written ++ w ∷ [] }) (refl, refl, refl) u))
  ]

  write_all-IsUsable :
      (i : ℕ) (ws : List (Form → Option Write)) (p : Page)
      → IsUsable p
      → IsUsable (write_all link i ws p).0
  unfolding write_all
  write_all-IsUsable i [] p u = u
  write_all-IsUsable i (w ∷ ws) p u =
      onward (write_one link i (w p.form) p) (write_one-IsUsable i (w p.form) p u)
        (λ q v. write_all-IsUsable (suc i) ws q v)
    where
      onward :
          (o : Page × Option Text)
          → IsUsable o.0
          → ((q : Page) → IsUsable q → IsUsable (write_all link (suc i) ws q).0)
          → IsUsable (unless_rejected o (λ q. write_all link (suc i) ws q)).0
      onward (q, some reason) v rest = v
      onward (q, none) v rest = rest q v

  applied-IsUsable : (o : Page × Option Text) → IsUsable o.0 → IsUsable (applied o)
  applied-IsUsable (q, none) u = IsUsable-Same q (applied (q, none)) (refl, refl, refl) u
  applied-IsUsable (q, some reason) u =
      IsUsable-Same q (applied (q, some reason)) (refl, refl, refl) u

  setup_apply-IsUsable :
      (number : Text → Option ℤ) (p : Page) → IsUsable p → IsUsable (setup_apply number link p)
  unfolding setup_apply
  setup_apply-IsUsable number p u = elim (Bool-cases p.has_chars) [
    | inr no_chars ↦
        subst IsUsable
          (sym (
            if_false (apply_unless number link p (validate_setup_form number p.last_state p.form)) p
              no_chars))
          u
    | inl chars ↦
        subst IsUsable
          (sym (
            if_true (apply_unless number link p (validate_setup_form number p.last_state p.form)) p
              chars))
          (checked (validate_setup_form number p.last_state p.form))
  ]
    where
      checked : (o : Option Problem) → IsUsable (apply_unless number link p o)
      checked (some problem) = IsUsable-Same p _ (refl, refl, refl) u
      checked none = applied-IsUsable _ (
          write_all-IsUsable 0 (apply_writes (port_bytes (number p.form.port)))
            (record p { apply_disabled = true })
            (IsUsable-Same p (record p { apply_disabled = true }) (refl, refl, refl) u))

  setup_forget-IsUsable :
      (confirmed : Bool) (p : Page) → IsUsable p → IsUsable (setup_forget confirmed link p)
  unfolding setup_forget
  setup_forget-IsUsable confirmed p u = elim (Bool-cases (p.has_chars && confirmed)) [
    | inr stop ↦
        subst IsUsable
          (sym (if_false (forgot (write_one link 0 (some (Write.command (0x02 ∷ []))) p)) p stop)) u
    | inl go ↦
        subst IsUsable
          (sym (if_true (forgot (write_one link 0 (some (Write.command (0x02 ∷ []))) p)) p go))
          (told (write_one link 0 (some (Write.command (0x02 ∷ []))) p)
            (write_one-IsUsable 0 (some (Write.command (0x02 ∷ []))) p u))
  ]
    where
      told : (o : Page × Option Text) → IsUsable o.0 → IsUsable (forgot o)
      told (q, none) v = IsUsable-Same q (forgot (q, none)) (refl, refl, refl) v
      told (q, some reason) v = IsUsable-Same q (forgot (q, some reason)) (refl, refl, refl) v

-- What happens to the setup page: looking for a hub or dropping it, reports and the end of the link,
-- the inputs, and the two buttons that write, with handlers in between that are of this kind too.
pub data Moves (number : Text → Option ℤ) (decode : List ℕ → Text) : Page → Page → Type 0 where
  finds : {p : Page} (outcome : Outcome) → Moves number decode p (setup_find decode outcome p)
  reports : {p : Page} (view : List ℕ) → Moves number decode p (on_prov_status view p)
  drops : {p : Page} → Moves number decode p (on_setup_disconnected p)
  ticks : {p : Page} (checked : Bool) → Moves number decode p (on_open_network checked p)
  types : {p : Page} (form : Form) → Moves number decode p (record p { form = form })
  applies :
      {p : Page} (link : Link)
      → KeepsUsable link
      → Moves number decode p (setup_apply number link p)
  forgets :
      {p : Page} (confirmed : Bool) (link : Link)
      → KeepsUsable link
      → Moves number decode p (setup_forget confirmed link p)

pub data Reach (number : Text → Option ℤ) (decode : List ℕ → Text) (p : Page) : Page → Type 0 where
  here : Reach number decode p p
  next : {q r : Page} → Reach number decode p q → Moves number decode q r → Reach number decode p r

on_setup_disconnected-IsUsable : (p : Page) → IsUsable (on_setup_disconnected p)
unfolding on_setup_disconnected reset_setup_ui
on_setup_disconnected-IsUsable p = elim (Bool-cases (was_online p.last_state)) [
  | inl e ↦ rw e record { connected = λ h. cc; held = λ h. cc }
  | inr e ↦ rw e record { connected = λ h. cc; held = λ h. cc }
]

Moves-IsUsable :
    (number : Text → Option ℤ) (decode : List ℕ → Text) {p q : Page}
    → Moves number decode p q
    → IsUsable p
    → IsUsable q
unfolding on_open_network
Moves-IsUsable number decode (finds {p} outcome) u = setup_find-IsUsable decode outcome p u
Moves-IsUsable number decode (reports {p} view) u =
    IsUsable-Same p (on_prov_status view p) (on_prov_status-keeps view p) u
Moves-IsUsable number decode (drops {p}) u = on_setup_disconnected-IsUsable p
Moves-IsUsable number decode (ticks {p} checked) u =
    IsUsable-Same p (on_open_network checked p) (refl, refl, refl) u
Moves-IsUsable number decode (types {p} form) u =
    IsUsable-Same p (record p { form = form }) (refl, refl, refl) u
Moves-IsUsable number decode (applies {p} link keeps) u = setup_apply-IsUsable link keeps number p u
Moves-IsUsable number decode (forgets {p} confirmed link keeps) u =
    setup_forget-IsUsable link keeps confirmed p u

-- From a page without a hub, or any that is in order, no sequence of looking for a hub, with every way
-- in which that can fail, of reports, disconnections, inputs and writes leads to a form that is enabled
-- without a device and its characteristics to write to.
pub Reach-IsUsable :
    (number : Text → Option ℤ) (decode : List ℕ → Text) {p q : Page}
    → IsUsable p
    → Reach number decode p q
    → IsUsable q
Reach-IsUsable number decode u here = u
Reach-IsUsable number decode u (next r m) =
    Moves-IsUsable number decode m (Reach-IsUsable number decode u r)
