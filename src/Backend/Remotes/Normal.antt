-- ===== src/Backend/Remotes/Normal.antt =====
-- The buttons that `POST /api/remotes` stores, and what posting them back does.
use irhub.Prelude.{
  ℕ, suc, ◌/◌, ◌%◌, true, List, [], ◌∷◌, some, ◌≡◌, ◌≢◌, refl, arith, Bool-cases, Option-cases, inl,
  inr, text, find, All, text_eq, if◌then◌else◌,
}
use irhub.Js.{
  Value, undefined, null, bool, num, str, arr, obj, Items, nil, cons, end, prop, ok, field, truthy,
  or_else, nullish_else, is_integer, strict_eq, lookup_or, of_ℕ, member,
}
use irhub.Backend.Remotes.Normalize.{uuids_after}
use irhub.Backend.State.{Button, Env}
use irhub.Backend.Remotes.{kept_signal, normalized_button, normalize_button, normalize_buttons}

-- A button as it is stored.
pub record IsNormal (b : Button) : Type 0 where
  pub has_id : truthy b.id ≡ true
  pub has_label : truthy b.label ≡ true
  pub whole_row : is_integer b.row ≡ true
  pub whole_col : is_integer b.col ≡ true
  pub icon_or_null : or_else b.icon null ≡ b.icon
  pub signal_defined : b.signal ≢ undefined

or_else-truthy : (a b : Value) → truthy b ≡ true → truthy (or_else a b) ≡ true
unfolding or_else
or_else-truthy a b h = elim (Bool-cases (truthy a)) [ inl t ↦ rw t t | inr f ↦ rw f h ]

or_else-null : (a : Value) → or_else (or_else a null) null ≡ or_else a null
unfolding or_else
or_else-null a = elim (Bool-cases (truthy a)) [
  | inl t ↦ rw t (rw t refl)
  | inr f ↦ rw f (unfold truthy in refl)
]

pub of_ℕ-integer : (n : ℕ) → is_integer (num (of_ℕ n)) ≡ true
unfolding is_integer
of_ℕ-integer n = ground arith

nullish_else-defined : (a b : Value) → b ≢ undefined → nullish_else a b ≢ undefined
unfolding nullish_else
nullish_else-defined undefined b h = h
nullish_else-defined null b h = h
nullish_else-defined (bool x) b h = λ e. cc
nullish_else-defined (num x) b h = λ e. cc
nullish_else-defined (str x) b h = λ e. cc
nullish_else-defined (arr x) b h = λ e. cc
nullish_else-defined (obj x) b h = λ e. cc

kept_signal-defined : (buttons : List Button) (id : Value) → kept_signal buttons id ≢ undefined
unfolding kept_signal
kept_signal-defined buttons id =
    elim (Option-cases (find (λ (eb : Button). strict_eq eb.id id) buttons)) [
      | inl e ↦ rw (kept_signal, e) (λ e'. cc)
      | inr (eb, e) ↦ rw (kept_signal, e) (nullish_else-defined eb.signal null (λ e'. cc))
    ]

cell-integer : (v : Value) (n : ℕ) → is_integer (if is_integer v then v else num (of_ℕ n)) ≡ true
cell-integer v n = elim (Bool-cases (is_integer v)) [
  | inl t ↦ rw t t
  | inr f ↦ rw f (of_ℕ-integer n)
]

module _ (env : Env) where
  -- Every button of a request is stored in normal form: with an id and a label, in a whole row and
  -- column, with null for a missing icon or signal.
  pub normalized_button-IsNormal :
      (existing : List Button) (uuids idx : ℕ) (b : Value)
      → IsNormal (normalized_button env existing uuids idx b)
  unfolding normalized_button
  normalized_button-IsNormal existing uuids idx b = record {
    has_id = or_else-truthy _ _ (unfold truthy in refl);
    has_label = or_else-truthy _ _ (unfold truthy in refl);
    whole_row = cell-integer (field (text "row") b) (idx / 3);
    whole_col = cell-integer (field (text "col") b) (idx % 3);
    icon_or_null = or_else-null _;
    signal_defined = nullish_else-defined _ _ (kept_signal-defined existing _);
  }

-- A stored button as `JSON.stringify` writes it and `JSON.parse` reads it back.
unfoldable pub button_json : Button → Value
button_json b = obj (
    prop (text "id") b.id (
      prop (text "label") b.label (
        prop (text "row") b.row (
          prop (text "col") b.col
            (prop (text "icon") b.icon (prop (text "signal") b.signal end))))))

unfoldable pub buttons_json : List Button → Items
buttons_json [] = nil
buttons_json (b ∷ bs) = cons (button_json b) (buttons_json bs)

-- Every button of a layout is in normal form, and is the first one under its id.
abbrev pub IsLayout : List Button → List Button → Type 0
IsLayout whole bs =
    All (λ b. IsNormal b × (find (λ (eb : Button). strict_eq eb.id b.id) whole ≡ some b)) bs

nullish_else_self : (v k : Value) → v ≢ undefined → (v ≡ null → k ≡ null) → nullish_else v k ≡ v
unfolding nullish_else
nullish_else_self undefined k d e = absurd (d refl)
nullish_else_self null k d e = e refl
nullish_else_self (bool x) k d e = refl
nullish_else_self (num x) k d e = refl
nullish_else_self (str x) k d e = refl
nullish_else_self (arr x) k d e = refl
nullish_else_self (obj x) k d e = refl

kept_null :
    (whole : List Button) (id : Value) (b : Button)
    → find (λ (eb : Button). strict_eq eb.id id) whole ≡ some b
    → b.signal ≡ null
    → kept_signal whole id ≡ null
unfolding nullish_else kept_signal
kept_null whole id b first e = rw (first, kept_signal) (rw e refl)

module _ (b : Button) where
  or_else_self : (a c : Value) → truthy a ≡ true → or_else a c ≡ a
  unfolding or_else
  or_else_self a c h = rw h

  field-button :
      (field (text "id") (button_json b) ≡ b.id)
      × (field (text "label") (button_json b) ≡ b.label)
      × (field (text "row") (button_json b) ≡ b.row)
      × (field (text "col") (button_json b) ≡ b.col)
      × (field (text "icon") (button_json b) ≡ b.icon)
      × (field (text "signal") (button_json b) ≡ b.signal)
  unfolding button_json field lookup_or text_eq
  field-button = (refl, refl, refl, refl, refl, refl)

  normalized_again :
      (env : Env) (whole : List Button) (uuids idx : ℕ)
      → IsNormal b
      → (b.signal ≡ null → kept_signal whole b.id ≡ null)
      → normalized_button env whole uuids idx (button_json b) ≡ b
  unfolding normalized_button
  normalized_again env whole uuids idx n blank =
      let (id, label, row, col, icon, signal) = field-button in
      rw (
        id,
        label,
        row,
        col,
        icon,
        signal,
        or_else_self b.id _ n.has_id,
        or_else_self b.label _ n.has_label,
        n.whole_row,
        n.whole_col,
        n.icon_or_null,
        nullish_else_self b.signal (kept_signal whole b.id) n.signal_defined blank,
      )

uuids_again : (b : Button) (uuids : ℕ) → IsNormal b → uuids_after uuids (button_json b) ≡ uuids
uuids_again b uuids n = rw ((field-button b).0, n.has_id)

-- Buttons in normal form, of which one without a signal has none in the stored layout either.
abbrev pub IsRepost : List Button → List Button → Type 0
IsRepost whole bs =
    All (λ (b : Button). IsNormal b × (b.signal ≡ null → kept_signal whole b.id ≡ null)) bs

pub IsLayout-IsRepost : (whole bs : List Button) → IsLayout whole bs → IsRepost whole bs
IsLayout-IsRepost whole [] h = h
IsLayout-IsRepost whole (b ∷ bs) ((n, first), h) =
    ((n, λ e. kept_null whole b.id b first e), IsLayout-IsRepost whole bs h)

pub normalize_button_again :
    (env : Env) (whole : List Button) (b : Button) (uuids idx : ℕ)
    → IsNormal b
    → (b.signal ≡ null → kept_signal whole b.id ≡ null)
    → normalize_button env whole uuids idx (button_json b) ≡ ok (b, uuids)
unfolding normalize_button member button_json
normalize_button_again env whole b uuids idx n blank =
    rw (normalized_again b env whole uuids idx n blank, uuids_again b uuids n)

pub normalize_buttons-repost :
    (env : Env) (whole bs : List Button) (uuids idx : ℕ)
    → IsRepost whole bs
    → normalize_buttons env whole uuids idx (buttons_json bs) ≡ ok (bs, uuids)
unfolding normalize_buttons buttons_json
normalize_buttons-repost env whole [] uuids idx h = refl
normalize_buttons-repost env whole (b ∷ bs) uuids idx ((n, blank), h) = rw (
  normalize_button_again env whole b uuids idx n blank,
  normalize_buttons-repost env whole bs uuids (suc idx) h,
)

-- Posting a stored layout back gives the same layout, and asks for no new id.
pub normalize_buttons-again :
    (env : Env) (whole bs : List Button) (uuids idx : ℕ)
    → IsLayout whole bs
    → normalize_buttons env whole uuids idx (buttons_json bs) ≡ ok (bs, uuids)
normalize_buttons-again env whole bs uuids idx h =
    normalize_buttons-repost env whole bs uuids idx (IsLayout-IsRepost whole bs h)
