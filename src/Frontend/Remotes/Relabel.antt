-- ===== src/Frontend/Remotes/Relabel.antt =====
-- Saving a button's label in the modal: what the page posts, and what the backend then stores.
use irhub.Prelude.{
  ℕ, true, List, [], ◌∷◌, some, Text, if◌then◌else◌, map, ◌≡◌, refl, sym, subst, Bool-cases, inl,
  inr,
}
use irhub.Js.{Value, IsPrimitive, truthy, strict_eq}
use irhub.Backend.Slug.{trim}
use irhub.Backend.State.{Button, Remote, Server, Env}
use irhub.Backend.Remotes.{post_remote}
use irhub.Backend.Remotes.Normal.{IsNormal, IsLayout, IsRepost, IsLayout-IsRepost}
use irhub.Backend.Remotes.Roundtrip.{remote_json, post_remote-replace}
use irhub.Frontend.Remotes.{or_old_label, new_label, save_button_body}

-- The button under the id with another label.
abbrev pub relabelled : Value → Value → Button → Button
relabelled id label x = if strict_eq x.id id then record x { label = label } else x

label-IsNormal :
    (x : Button) (label : Value)
    → truthy label ≡ true
    → IsNormal x
    → IsNormal (record x { label = label })
label-IsNormal x label t n = record {
  has_id = n.has_id;
  has_label = t;
  whole_row = n.whole_row;
  whole_col = n.whole_col;
  icon_or_null = n.icon_or_null;
  signal_defined = n.signal_defined;
}

IsRepost-relabelled :
    (id label : Value) (whole bs : List Button)
    → truthy label ≡ true
    → IsRepost whole bs
    → IsRepost whole (map (relabelled id label) bs)
IsRepost-relabelled id label whole [] t h = h
IsRepost-relabelled id label whole (b ∷ bs) t ((n, blank), h) =
    elim (Bool-cases (strict_eq b.id id)) [
      | inl same ↦
          rw same ((label-IsNormal b label t n, blank), IsRepost-relabelled id label whole bs t h)
      | inr other ↦ rw other ((n, blank), IsRepost-relabelled id label whole bs t h)
    ]

new_label-truthy :
    (input : Text) (b : Button) → truthy b.label ≡ true → truthy (new_label input b) ≡ true
unfolding truthy
new_label-truthy input b h = pick (trim input)
  where
    pick : (s : Text) → truthy (or_old_label s b) ≡ true
    pick [] = h
    pick (c ∷ s) = refl

-- The backend stores a remote in normal form, under an id that is truthy and no object, with a name
-- that is not empty. When the page saves the label of a button that has one, the backend then stores
-- the same remote with that label on the buttons under that button's id, or the old label if the input
-- was blank; every learned signal, every other button, the name and the icon stay, and no new id is
-- made.
pub post_remote-save_button_body :
    (env : Env) (s : Server) (r : Remote) (b : Button) (input : Text) (c : ℕ) (cs : Text)
    → r.name ≡ c ∷ cs
    → IsPrimitive r.id
    → truthy r.id ≡ true
    → truthy b.label ≡ true
    → env.remote_db.find_by r.id s.remotes ≡ some r
    → IsLayout r.buttons r.buttons
    → (env.remote_db.find_by r.id (post_remote env s (save_button_body r b input)).0.remotes
        ≡ some (record r { buttons = map (relabelled b.id (new_label input b)) r.buttons }))
      × ((post_remote env s (save_button_body r b input)).0.uuids ≡ s.uuids)
unfolding save_button_body
post_remote-save_button_body env s r b input c cs named prim truthy_id labelled held layout =
    let kept = map (relabelled b.id (new_label input b)) r.buttons in
    let posted = λ (n : Text). remote_json (record r { name = n; buttons = kept }) in
    subst
      (λ n.
        (env.remote_db.find_by r.id (post_remote env s (posted n)).0.remotes
          ≡ some (record r { name = n; buttons = kept }))
        × ((post_remote env s (posted n)).0.uuids ≡ s.uuids))
      (sym named)
      (post_remote-replace env s r c cs kept prim truthy_id held (
        IsRepost-relabelled b.id (new_label input b) r.buttons r.buttons
          (new_label-truthy input b labelled) (IsLayout-IsRepost r.buttons r.buttons layout)))
