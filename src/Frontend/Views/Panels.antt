-- ===== src/Frontend/Views/Panels.antt =====
-- Which panel of the page is shown.
use irhub.Prelude.{
  Bool, List, [], ◌∷◌, is_some, length, find, ltb, if◌then◌else◌, ◌≡◌, refl, arith, Option-cases,
  inl, inr, Text,
}
use irhub.Js.{Value, strict_eq}
use irhub.Backend.State.{Remote}
use irhub.Frontend.Selects.{is_empty}
use irhub.Frontend.Views.{
  View, remote, routines, rules, setup, Screen, render_remote_view, show_view,
}

-- What stands on the page.
pub data Panel : Type 0 where
  remote_panel empty_panel routines_panel rules_panel setup_panel : Panel

abbrev unless : Bool → Panel → List Panel → List Panel
unless hidden panel panels = if hidden then panels else panel ∷ panels

-- The panels that are not hidden.
abbrev pub visible : Screen → List Panel
visible s = unless s.remote_hidden remote_panel (
    unless s.empty_hidden empty_panel (
      unless s.routines_hidden routines_panel
        (unless s.rules_hidden rules_panel (unless s.setup_hidden setup_panel []))))

-- What a view is to show: the active remote, or the empty page where there are no remotes.
abbrev pub panels_of : View → Bool → Bool → List Panel
panels_of remote found nothing =
    if found then remote_panel ∷ [] else if nothing then empty_panel ∷ [] else []
panels_of routines found nothing = routines_panel ∷ []
panels_of rules found nothing = rules_panel ∷ []
panels_of setup found nothing = setup_panel ∷ []

module _ (stringify : Value → Text) (s : Screen) where
  -- Whatever was shown before, `showView` leaves exactly the panel of the view. The one exception is
  -- the remote view while there are remotes and none of them is the active one: then no panel is shown.
  pub show_view-visible :
      (v : View)
      → visible (show_view stringify v s)
        ≡ panels_of v
            (is_some (find (λ (r : Remote). strict_eq r.id s.active) s.remotes))
            (is_empty s.remotes)
  unfolding show_view render_remote_view
  show_view-visible routines = refl
  show_view-visible rules = refl
  show_view-visible setup = refl
  show_view-visible remote =
      elim (Option-cases (find (λ (r : Remote). strict_eq r.id s.active) s.remotes)) [
        | inr (r, e) ↦ rw e refl
        | inl e ↦ rw e (empties s.remotes)
      ]
    where
      empties :
          (rs : List Remote)
          → (if ltb 0 (length rs) then [] else empty_panel ∷ [])
            ≡ (if is_empty rs then empty_panel ∷ [] else [])
      empties [] = refl
      empties (r ∷ rs) = ground arith
