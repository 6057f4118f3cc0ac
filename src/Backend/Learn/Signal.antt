-- ===== src/Backend/Learn/Signal.antt =====
-- The write of a learned signal into the database, and what is found afterwards.
use irhub.Prelude.{
  List, Option, none, some, Text, text_eq, text_eq_sound, text_eq_refl, ◌≡◌, ◌≢◌, refl, sym, ◌∙◌,
  ap, Option-cases, Bool-cases, inl, inr, ◌⊎◌, find, update_first,
}
use irhub.Js.{Value, str}
use irhub.Backend.Lowdb.{has_id}
use irhub.Backend.Lowdb.Reference.{find-update_first, update_first-missing}
use irhub.Backend.Lowdb.Unique.{has_id-apart, find-update_first_ne}
use irhub.Backend.State.{Button, Remote, button_of, find_button, Env}
use irhub.Backend.Learn.{store_signal}

abbrev remote_key : Remote → Value
remote_key r = r.id

abbrev button_key : Button → Value
button_key b = b.id

abbrev pub with_signal : Value → Button → Button
with_signal signal b = record b { signal = signal }

button_of-cases :
    (id : Value) (o : Option Remote) (b : Button)
    → button_of id o ≡ some b
    → (r : Remote) × (o ≡ some r) × (find (has_id button_key id) r.buttons ≡ some b)
button_of-cases id none b e = cc
button_of-cases id (some r) b e = (r, refl, e)

pub find_button-cases :
    (env : Env) (rid bid : Text) (remotes : List Remote) (b : Button)
    → find_button env remotes (str rid) (str bid) ≡ some b
    → (r : Remote) × (find (has_id remote_key (str rid)) remotes ≡ some r)
      × (find (has_id button_key (str bid)) r.buttons ≡ some b)
unfolding find_button
find_button-cases env rid bid remotes b e =
    let (r, found, its) = button_of-cases (str bid) (env.remote_db.find_by (str rid) remotes) b e in
    (r, sym (env.remote_db.find_lem (str rid) remotes tt) ∙ found, its)

module _ (env : Env) (rid bid : Text) (signal : Value) where
  in_remote : Remote → Remote
  in_remote r = record r { buttons = env.button_db.assign (str bid) (with_signal signal) r.buttons }

  store_signal-eq :
      (remotes : List Remote)
      → store_signal env (str rid) (str bid) signal remotes
        ≡ update_first (has_id remote_key (str rid)) in_remote remotes
  unfolding store_signal in_remote
  store_signal-eq remotes = env.remote_db.assign_lem (str rid) _ remotes tt

  in_buttons :
      (buttons : List Button) (b : Button)
      → find (has_id button_key (str bid)) buttons ≡ some b
      → find
          (has_id button_key (str bid))
          (env.button_db.assign (str bid) (with_signal signal) buttons)
        ≡ some (with_signal signal b)
  in_buttons buttons b e =
      rw (env.button_db.assign_lem (str bid) (with_signal signal) buttons tt) (
        find-update_first (has_id button_key (str bid)) (with_signal signal) buttons b (λ y h. h) e)

  -- The target has the signal afterwards.
  pub store_signal-target :
      (remotes : List Remote) (b : Button)
      → find_button env remotes (str rid) (str bid) ≡ some b
      → find_button env (store_signal env (str rid) (str bid) signal remotes) (str rid) (str bid)
        ≡ some (with_signal signal b)
  unfolding find_button in_remote
  store_signal-target remotes b e =
      let (r, held, its) = find_button-cases env rid bid remotes b e in
      rw
        (
          env.remote_db.find_lem (str rid) (store_signal env (str rid) (str bid) signal remotes) tt,
          store_signal-eq remotes,
          find-update_first (has_id remote_key (str rid)) in_remote remotes r (λ y h. h) held,
        )
        (in_buttons r.buttons b its)

  same_remote :
      (u : Text) (r : Remote)
      → u ≢ bid
      → find (has_id button_key (str u)) (in_remote r).buttons
        ≡ find (has_id button_key (str u)) r.buttons
  unfolding in_remote
  same_remote u r ne = rw (env.button_db.assign_lem (str bid) (with_signal signal) r.buttons tt) (
      find-update_first_ne (has_id button_key (str u)) (has_id button_key (str bid))
        (with_signal signal) r.buttons (λ x. refl)
        (has_id-apart button_key bid u (λ e. ne (sym e))))

  other_remote :
      (remotes : List Remote) (t : Text)
      → t ≢ rid
      → env.remote_db.find_by (str t) (store_signal env (str rid) (str bid) signal remotes)
        ≡ env.remote_db.find_by (str t) remotes
  unfolding in_remote
  other_remote remotes t ne =
      rw
        (
          env.remote_db.find_lem (str t) (store_signal env (str rid) (str bid) signal remotes) tt,
          store_signal-eq remotes,
          env.remote_db.find_lem (str t) remotes tt,
        )
        (find-update_first_ne (has_id remote_key (str t)) (has_id remote_key (str rid)) in_remote
          remotes (λ x. refl) (has_id-apart remote_key rid t (λ e. ne (sym e))))

  other_button :
      (remotes : List Remote) (u : Text)
      → u ≢ bid
      → button_of (str u) (
          find
            (has_id remote_key (str rid))
            (update_first (has_id remote_key (str rid)) in_remote remotes))
        ≡ button_of (str u) (find (has_id remote_key (str rid)) remotes)
  other_button remotes u ne = elim (Option-cases (find (has_id remote_key (str rid)) remotes)) [
    | inl missing ↦
        rw (update_first-missing (has_id remote_key (str rid)) in_remote remotes missing)
    | inr (r, held) ↦
        rw
          (
            find-update_first (has_id remote_key (str rid)) in_remote remotes r
                (λ y h. unfold in_remote in h) held,
            held,
          )
          (same_remote u r ne)
  ]

  -- Every other button is as it was.
  pub store_signal-other :
      (remotes : List Remote) (t u : Text)
      → (t ≢ rid) ⊎ (u ≢ bid)
      → find_button env (store_signal env (str rid) (str bid) signal remotes) (str t) (str u)
        ≡ find_button env remotes (str t) (str u)
  unfolding find_button
  store_signal-other remotes t u (inl ne) = ap (button_of (str u)) (other_remote remotes t ne)
  store_signal-other remotes t u (inr ne) = elim (Bool-cases (text_eq t rid)) [
    | inr apart ↦
        ap (button_of (str u)) (other_remote remotes t (λ e. cc (rw e at (text_eq_refl t), apart)))
    | inl same ↦
        rw
          (
            text_eq_sound t rid same,
            env.remote_db.find_lem (str rid) (store_signal env (str rid) (str bid) signal remotes)
                tt,
            store_signal-eq remotes,
            env.remote_db.find_lem (str rid) remotes tt,
          )
          (other_button remotes u ne)
  ]
