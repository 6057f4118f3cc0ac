-- ===== src/Frontend/Views/Grid.antt =====
-- The order of the keys of a remote.
use irhub.Prelude.{
  Bool, true, false, List, [], ◌∷◌, map, find, some, Text, ◌≡◌, refl, ap, arith, Bool-cases, inl,
  inr, if◌then◌else◌,
}
use mathlib.Core.List.{Perm}
use mathlib.Core.List.Perm
use irhub.Js.{Value, num, strict_eq, truthy}
use irhub.Js.Laws.{number_lt_asymm}
use irhub.Backend.State.{Button, Remote}
use irhub.Frontend.Views.{
  Screen, Key, key_of, render_remote_view, number_before, is_before, insert_button, sort_buttons,
}

number_before_asymm : (v w : Value) → number_before v w ≡ true → number_before w v ≡ false
number_before_asymm (num m) (num n) h = number_lt_asymm m n h
number_before_asymm v w h = cc

is_before_asymm : (a b : Button) → is_before a b ≡ true → is_before b a ≡ false
unfolding is_before
is_before_asymm a b h = ground (
  arith,
  number_before_asymm a.row b.row,
  number_before_asymm b.row a.row,
  number_before_asymm a.col b.col,
)

-- No button stands behind one that belongs behind it.
abbrev pub IsOrdered : List Button → Type 0
IsOrdered [] = Unit {0}
IsOrdered (a ∷ []) = Unit {0}
IsOrdered (a ∷ b ∷ bs) = (is_before b a ≡ false) × IsOrdered (b ∷ bs)

insert_button-IsOrdered :
    (b : Button) (bs : List Button) → IsOrdered bs → IsOrdered (insert_button b bs)
unfolding insert_button
insert_button-IsOrdered b [] h = tt
insert_button-IsOrdered b (c ∷ []) h = elim (Bool-cases (is_before c b)) [
  | inl t ↦ rw t (is_before_asymm c b t, tt)
  | inr f ↦ rw f (f, tt)
]
insert_button-IsOrdered b (c ∷ d ∷ bs) (apart, h) = elim (Bool-cases (is_before c b)) [
  | inr f ↦ rw f (f, (apart, h))
  | inl t ↦ rw t (behind t (insert_button-IsOrdered b (d ∷ bs) h) (is_before d b) refl)
]
  where
    behind :
        is_before c b ≡ true
        → IsOrdered (insert_button b (d ∷ bs))
        → (x : Bool) → is_before d b ≡ x
        → IsOrdered (c ∷ (if is_before d b then d ∷ insert_button b bs else b ∷ d ∷ bs))
    behind t inner true e = rw e (apart, rw e at inner)
    behind t inner false e = rw e (is_before_asymm c b t, (e, h))

insert_button-perm : (b : Button) (bs : List Button) → Perm (insert_button b bs) (b ∷ bs)
unfolding insert_button
insert_button-perm b [] = Perm.refl (b ∷ [])
insert_button-perm b (c ∷ cs) = elim (Bool-cases (is_before c b)) [
  | inr f ↦ rw f (Perm.refl (b ∷ c ∷ cs))
  | inl t ↦ rw t (Perm.trans (Perm.cons c (insert_button-perm b cs)) (Perm.swap b c cs))
]

sort_buttons-perm : (bs : List Button) → Perm (sort_buttons bs) bs
unfolding sort_buttons
sort_buttons-perm [] = Perm.nil
sort_buttons-perm (b ∷ bs) =
    Perm.trans (insert_button-perm b (sort_buttons bs)) (Perm.cons b (sort_buttons-perm bs))

sort_buttons-IsOrdered : (bs : List Button) → IsOrdered (sort_buttons bs)
unfolding sort_buttons
sort_buttons-IsOrdered [] = tt
sort_buttons-IsOrdered (b ∷ bs) =
    insert_button-IsOrdered b (sort_buttons bs) (sort_buttons-IsOrdered bs)

-- The grid of an active remote has a key for each of its buttons, and no other, in an order in which
-- none stands directly behind one that belongs behind it by row and column. A key says that its button
-- is mapped exactly if that has a signal.
pub render_remote_view-grid :
    (stringify : Value → Text) (s : Screen) (r : Remote)
    → find (λ (x : Remote). strict_eq x.id s.active) s.remotes ≡ some r
    → (bs : List Button) × ((render_remote_view stringify s).grid ≡ map (key_of stringify) bs)
      × Perm bs r.buttons
      × IsOrdered bs
      × (map (λ (k : Key). k.has_signal) (render_remote_view stringify s).grid
          ≡ map (λ (b : Button). truthy b.signal) bs)
unfolding render_remote_view key_of
render_remote_view-grid stringify s r e = (
  sort_buttons r.buttons,
  rw e refl,
  sort_buttons-perm r.buttons,
  sort_buttons-IsOrdered r.buttons,
  rw e (mapped (sort_buttons r.buttons)),
)
  where
    mapped :
        (bs : List Button)
        → map (λ (k : Key). k.has_signal) (map (key_of stringify) bs)
          ≡ map (λ (b : Button). truthy b.signal) bs
    mapped [] = refl
    mapped (b ∷ bs) = ap (λ xs. truthy b.signal ∷ xs) (mapped bs)
