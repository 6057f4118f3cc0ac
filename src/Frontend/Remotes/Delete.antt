-- ===== src/Frontend/Remotes/Delete.antt =====
-- Deleting a button: what the page posts, and what the backend then stores.
use irhub.Prelude.{
  ℕ, Bool, true, List, [], ◌∷◌, none, some, Text, find, reject, ◌≡◌, sym, subst, Bool-cases, inl,
  inr,
}
use irhub.Js.{Value, IsPrimitive, truthy, strict_eq}
use irhub.Backend.Lowdb.Reference.{find-reject}
use irhub.Backend.State.{Button, Remote, Server, Env}
use irhub.Backend.Remotes.{post_remote}
use irhub.Backend.Remotes.Normal.{IsLayout, IsLayout-IsRepost}
use irhub.Backend.Remotes.Roundtrip.{remote_json, post_remote-replace}
use irhub.Frontend.Remotes.{delete_button_body}

IsLayout-reject :
    (p : Button → Bool) (whole bs : List Button) → IsLayout whole bs → IsLayout whole (reject p bs)
IsLayout-reject p whole [] h = h
IsLayout-reject p whole (b ∷ bs) (first, rest) = elim (Bool-cases (p b)) [
  | inl gone ↦ rw gone (IsLayout-reject p whole bs rest)
  | inr kept ↦ rw kept (first, IsLayout-reject p whole bs rest)
]

abbrev pub other_buttons : Remote → Value → List Button
other_buttons r id = reject (λ (b : Button). strict_eq b.id id) r.buttons

-- The backend stores a remote in normal form, under an id that is truthy and no object, with a name
-- that is not empty. When the page deletes a button of it, the backend then stores the same remote
-- without the buttons under that id: the name, the icon and every other button, its learned signal
-- included, stay, and no new id is made. No button is found under the id any more.
pub post_remote-delete_button_body :
    (env : Env) (s : Server) (r : Remote) (id : Value) (c : ℕ) (cs : Text)
    → r.name ≡ c ∷ cs
    → IsPrimitive r.id
    → truthy r.id ≡ true
    → env.remote_db.find_by r.id s.remotes ≡ some r
    → IsLayout r.buttons r.buttons
    → (env.remote_db.find_by r.id (post_remote env s (delete_button_body r id)).0.remotes
        ≡ some (record r { buttons = other_buttons r id }))
      × ((post_remote env s (delete_button_body r id)).0.uuids ≡ s.uuids)
      × (find (λ (b : Button). strict_eq b.id id) (other_buttons r id) ≡ none)
unfolding delete_button_body
post_remote-delete_button_body env s r id c cs named prim truthy_id held layout =
    let kept = other_buttons r id in
    let posted = λ (n : Text). remote_json (record r { name = n; buttons = kept }) in
    let (stored, same) =
      subst
        (λ n.
          (env.remote_db.find_by r.id (post_remote env s (posted n)).0.remotes
            ≡ some (record r { name = n; buttons = kept }))
          × ((post_remote env s (posted n)).0.uuids ≡ s.uuids))
        (sym named)
        (post_remote-replace env s r c cs kept prim truthy_id held (
          IsLayout-IsRepost r.buttons kept
            (IsLayout-reject (λ (b : Button). strict_eq b.id id) r.buttons r.buttons layout))) in
    (stored, same, find-reject (λ (b : Button). strict_eq b.id id) r.buttons)
