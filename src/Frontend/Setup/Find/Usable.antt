-- ===== src/Frontend/Setup/Find/Usable.antt =====
-- The form of the setup page can be used only while there is a hub to write to.
use irhub.Prelude.{
  ℕ, zero, suc, Bool, true, false, List, none, some, Text, text, ltb, length, ◌≡◌, refl, sym, ◌∙◌,
  Bool-cases, inl, inr, subst, if_true, if_false, ◌++◌,
}
use irhub.Frontend.Setup.Status.{error}
use irhub.Frontend.Setup.Apply.{Page, on_prov_status, reset_setup_ui, toast}
use irhub.Frontend.Setup.Find.{
  Outcome, no_device, not_connected, not_read, found, Readings, run_reads, reads, connecting,
  gave_up, searched, setup_find,
}

-- A form that is enabled has the characteristics of a device to write to.
pub record IsUsable (p : Page) : Type 0 where
  pub connected : p.form_disabled ≡ false → (p.has_device ≡ true) × (p.has_chars ≡ true)
  pub held : p.has_chars ≡ true → p.has_device ≡ true

pub on_prov_status-keeps :
    (view : List ℕ) (p : Page)
    → ((on_prov_status view p).form_disabled ≡ p.form_disabled)
      × ((on_prov_status view p).has_device ≡ p.has_device)
      × ((on_prov_status view p).has_chars ≡ p.has_chars)
unfolding on_prov_status
on_prov_status-keeps view p = elim (Bool-cases (ltb (length view) 8)) [
  | inl e ↦ rw e (refl, refl, refl)
  | inr e ↦ rw e (refl, refl, refl)
]

-- The part of the page that matters here.
abbrev pub Same : Page → Page → Type 0
Same q p =
    (q.form_disabled ≡ p.form_disabled)
    × (q.has_device ≡ p.has_device)
    × (q.has_chars ≡ p.has_chars)

pub IsUsable-Same : (p q : Page) → Same q p → IsUsable p → IsUsable q
IsUsable-Same p q (e, d, c) u = record {
  connected = λ h. let (has, chars) = u.connected (sym e ∙ h) in (d ∙ has, c ∙ chars);
  held = λ h. d ∙ u.held (sym c ∙ h);
}

pub reset_setup_ui-IsUsable : (p : Page) → IsUsable (reset_setup_ui p)
unfolding reset_setup_ui
reset_setup_ui-IsUsable p = record { connected = λ h. cc; held = λ h. cc }

run_reads-keeps :
    (decode : List ℕ → Text) (hub : Readings) (n : ℕ) (p : Page)
    → Same (run_reads n (reads decode hub) p) p
run_reads-keeps decode hub zero p = (refl, refl, refl)
run_reads-keeps decode hub (suc zero) p = on_prov_status-keeps hub.status p
run_reads-keeps decode hub (suc (suc zero)) p = on_prov_status-keeps hub.status p
run_reads-keeps decode hub (suc (suc (suc zero))) p = on_prov_status-keeps hub.status p
run_reads-keeps decode hub (suc (suc (suc (suc n)))) p = on_prov_status-keeps hub.status p

-- Giving up leaves no form that is enabled.
gave_up-IsUsable :
    (message : Text) (linked : Bool) (p : Page)
    → p.form_disabled ≡ true
    → p.has_device ≡ true
    → IsUsable (gave_up message linked p)
gave_up-IsUsable message true p disabled has = record { connected = λ h. cc; held = λ h. has }
gave_up-IsUsable message false p disabled has =
    reset_setup_ui-IsUsable (toast (text "Bluetooth: " ++ message) error p)

disabled : (p : Page) → p.has_device ≡ false → IsUsable p → p.form_disabled ≡ true
disabled p free u = elim (Bool-cases p.form_disabled) [
  | inl e ↦ e
  | inr e ↦ let (has, _) = u.connected e in cc
]

searched-IsUsable :
    (decode : List ℕ → Text) (outcome : Outcome) (p : Page)
    → p.has_device ≡ false
    → IsUsable p
    → IsUsable (searched decode outcome p)
searched-IsUsable decode (no_device none) p free u = u
searched-IsUsable decode (no_device (some message)) p free u =
    IsUsable-Same p (toast (text "Bluetooth: " ++ message) error p) (refl, refl, refl) u
searched-IsUsable decode (not_connected name message linked) p free u =
    gave_up-IsUsable message linked (connecting name p) (disabled p free u) refl
searched-IsUsable decode (not_read name hub n message linked) p free u =
    let q : Page = record (connecting name p) { has_chars = true } in
    let (e, d, c) = run_reads-keeps decode hub n q in
    gave_up-IsUsable message linked (run_reads n (reads decode hub) q) (e ∙ disabled p free u) d
searched-IsUsable decode (found name hub) p free u =
    let q : Page = record (connecting name p) { has_chars = true } in
    let (e, d, c) = run_reads-keeps decode hub 4 q in
    record { connected = λ h. (d, c); held = λ h. d }

pub setup_find-IsUsable :
    (decode : List ℕ → Text) (outcome : Outcome) (p : Page)
    → IsUsable p
    → IsUsable (setup_find decode outcome p)
unfolding setup_find
setup_find-IsUsable decode outcome p u = elim (Bool-cases p.has_device) [
  | inl has ↦ subst IsUsable (sym (if_true p (searched decode outcome p) has)) u
  | inr free ↦
      subst IsUsable (sym (if_false p (searched decode outcome p) free))
        (searched-IsUsable decode outcome p free u)
]
