-- ===== src/Frontend/Remotes/Add.antt =====
-- A new button: what `addButton` posts, and what the backend then stores.
use irhub.Prelude.{
  ℕ, suc, ◌+◌, ◌/◌, ◌%◌, true, false, List, [], ◌∷◌, ◌++◌, none, some, Text, text, find, length,
  ◌≡◌, refl, sym, ap, subst, text_eq, arith,
}
use irhub.Js.{
  Value, undefined, null, bool, str, num, arr, obj, ok, of_ℕ, IsPrimitive, truthy, strict_eq,
  or_else, nullish_else, field, lookup_or, member,
}
use irhub.Backend.State.{Button, Remote, Server, Env}
use irhub.Backend.Remotes.{
  kept_signal, normalized_button, normalize_button, normalize_buttons, post_remote,
}
use irhub.Backend.Remotes.Normalize.{all_defined}
use irhub.Backend.Remotes.Normal.{
  IsLayout, IsRepost, IsLayout-IsRepost, buttons_json, button_json, normalize_button_again,
  of_ℕ-integer,
}
use irhub.Backend.Remotes.Roundtrip.{request_json, post_remote-request}
use irhub.Frontend.Remotes.{append_item, new_button_json, add_button_body}

-- The new button as the backend stores it, the n-th of its remote, with the id that the backend makes.
abbrev pub new_button : Env → ℕ → ℕ → Text → Button
new_button env uuids n label = record {
  id = str (text "btn-" ++ env.short_uuid uuids);
  label = str label;
  row = num (of_ℕ (n / 3));
  col = num (of_ℕ (n % 3));
  icon = null;
  signal = null;
}

truthy-named : (v : Value) → truthy v ≡ true → strict_eq v undefined ≡ false
unfolding truthy strict_eq
truthy-named undefined h = sym h
truthy-named null h = refl
truthy-named (bool x) h = refl
truthy-named (num x) h = refl
truthy-named (str x) h = refl
truthy-named (arr x) h = refl
truthy-named (obj x) h = refl

-- A button in normal form has an id, so none is found under a missing one.
found_undefined :
    (whole bs : List Button)
    → IsLayout whole bs
    → find (λ (eb : Button). strict_eq eb.id undefined) bs ≡ none
found_undefined whole [] h = refl
found_undefined whole (b ∷ bs) ((n, first), h) =
    rw (truthy-named b.id n.has_id) (found_undefined whole bs h)

kept_signal-undefined : (bs : List Button) → IsLayout bs bs → kept_signal bs undefined ≡ null
unfolding kept_signal
kept_signal-undefined bs h = rw (kept_signal, found_undefined bs bs h) refl

normalized_button-new_button :
    (env : Env) (bs : List Button) (uuids n : ℕ) (c : ℕ) (label : Text)
    → kept_signal bs undefined ≡ null
    → normalized_button env bs uuids n (new_button_json n (c ∷ label))
      ≡ new_button env uuids n (c ∷ label)
unfolding normalized_button field lookup_or text_eq or_else nullish_else truthy
normalized_button-new_button env bs uuids n c label h =
    rw (of_ℕ-integer (n / 3), of_ℕ-integer (n % 3), h) refl

normalize_button-new_button :
    (env : Env) (whole : List Button) (uuids n : ℕ) (c : ℕ) (label : Text)
    → kept_signal whole undefined ≡ null
    → normalize_button env whole uuids n (new_button_json n (c ∷ label))
      ≡ ok (new_button env uuids n (c ∷ label), suc uuids)
unfolding normalize_button member field lookup_or text_eq truthy
normalize_button-new_button env whole uuids n c label h =
    ap (λ b. ok (b, suc uuids)) (normalized_button-new_button env whole uuids n c label h)

all_defined-append_item :
    (bs : List Button) (n : ℕ) (label : Text)
    → all_defined (append_item (buttons_json bs) (new_button_json n label)) ≡ true
unfolding buttons_json button_json
all_defined-append_item [] n label = refl
all_defined-append_item (b ∷ bs) n label = all_defined-append_item bs n label

n-is : (idx n : ℕ) → n ≡ idx + 0 → n ≡ idx
n-is idx n e = omega arith

normalize_buttons-append_item :
    (env : Env) (whole bs : List Button) (uuids idx n : ℕ) (c : ℕ) (label : Text)
    → kept_signal whole undefined ≡ null
    → n ≡ idx + length bs
    → IsRepost whole bs
    → normalize_buttons env whole uuids idx
        (append_item (buttons_json bs) (new_button_json n (c ∷ label)))
      ≡ ok (bs ++ new_button env uuids n (c ∷ label) ∷ [], suc uuids)
unfolding normalize_buttons buttons_json
normalize_buttons-append_item env whole [] uuids idx n c label h e r =
    rw (n-is idx n e, normalize_button-new_button env whole uuids idx c label h) refl
normalize_buttons-append_item env whole (b ∷ bs) uuids idx n c label h e ((normal, blank), r) = rw (
  normalize_button_again env whole b uuids idx normal blank,
  normalize_buttons-append_item env whole bs uuids (suc idx) n c label h (omega arith) r,
)

-- The backend stores a remote in normal form, under an id that is truthy and no object, with a name
-- that is not empty. When the page adds a button with a label that is not empty, the backend then
-- stores the same remote with one more button at the end: it has this label, one new id, no signal
-- and no icon, and lies in the next cell of a grid three wide. The name, the icon and every other
-- button, its learned signal included, stay.
pub post_remote-add_button_body :
    (env : Env) (s : Server) (r : Remote) (l : ℕ) (label : Text) (c : ℕ) (cs : Text)
    → r.name ≡ c ∷ cs
    → IsPrimitive r.id
    → truthy r.id ≡ true
    → env.remote_db.find_by r.id s.remotes ≡ some r
    → IsLayout r.buttons r.buttons
    → (env.remote_db.find_by r.id (post_remote env s (add_button_body r (l ∷ label))).0.remotes
        ≡ some (record r {
          buttons = r.buttons ++ new_button env s.uuids (length r.buttons) (l ∷ label) ∷ [];
        }))
      × ((post_remote env s (add_button_body r (l ∷ label))).0.uuids ≡ suc s.uuids)
unfolding add_button_body
post_remote-add_button_body env s r l label c cs named prim truthy_id held layout =
    let n = length r.buttons in
    let kept = r.buttons ++ new_button env s.uuids n (l ∷ label) ∷ [] in
    let items = append_item (buttons_json r.buttons) (new_button_json n (l ∷ label)) in
    subst
      (λ name.
        (env.remote_db.find_by r.id
            (post_remote env s (request_json (record r { name = name }) items)).0.remotes
          ≡ some (record r { name = name; buttons = kept }))
        × ((post_remote env s (request_json (record r { name = name }) items)).0.uuids
            ≡ suc s.uuids))
      (sym named)
      (post_remote-request env s r c cs items kept (suc s.uuids) prim truthy_id held
        (all_defined-append_item r.buttons n (l ∷ label))
        (normalize_buttons-append_item env r.buttons r.buttons s.uuids 0 n l label
          (kept_signal-undefined r.buttons layout) (omega arith)
          (IsLayout-IsRepost r.buttons r.buttons layout)))
