-- ===== src/Backend/Learn/Results.antt =====
-- What a message on `irhub/learned` does in a learn session, and the press that follows.
use irhub.Prelude.{
  true, false, List, [], Option, none, some, Text, text, text_eq, ◌≡◌, ◌≢◌, refl, ◌∙◌, ap, arith,
  Option-cases, inl, inr, ◌⊎◌,
}
use irhub.Js.{Value, undefined, null, bool, num, arr, obj, str, ok, is_nullish, truthy, field}
use irhub.Backend.State.{
  Button, Remote, find_button, Server, Env, Session, Event, learn_result, learned, target_not_found,
  broadcast,
}
use irhub.Backend.Fire.{signal_payload, publish, publish_error, fire_button}
use irhub.Backend.Fire.Agree.{fire_button_sends}
use irhub.Backend.Learn.{
  store_signal, learn_signal, on_message, clear_learn_session, log_throws, is_unreadable,
}
use irhub.Backend.Learn.Timers.{HasOwnTimer, clear_session_timer-nil}
use irhub.Backend.Learn.Signal.{with_signal, store_signal-target, store_signal-other}

truthy-defined : (v : Value) → truthy v ≡ true → is_nullish v ≡ false
unfolding truthy
truthy-defined undefined h = ground arith
truthy-defined null h = ground arith
truthy-defined (bool b) h = refl
truthy-defined (num n) h = refl
truthy-defined (str t) h = refl
truthy-defined (arr xs) h = refl
truthy-defined (obj fs) h = refl

readable : (v : Value) → truthy v ≡ true → log_throws v ≡ false → is_unreadable v ≡ false
readable v h printed = rw (truthy-defined v h, printed)

module _ (env : Env) (s : Server) (payload : Text) where
  -- What every client hears, and the state in which the session is over.
  abbrev pub over : Event → List Remote → Server
  over event remotes =
      let told = broadcast event s in
      record told { remotes = remotes; learn_session = none; timers = [] }

  -- How a session ends with a signal: the target may have been deleted meanwhile.
  abbrev pub ending : Session → Value → Option Button → Server
  ending session signal none =
      over (learn_result session.remote_id session.button_id target_not_found) s.remotes
  ending session signal (some b) =
      over (learn_result session.remote_id session.button_id (learned signal))
        (store_signal env session.remote_id session.button_id signal s.remotes)

  -- A signal ends the session, its timer included. If the target exists it takes the signal, and
  -- the clients hear the result; if it was deleted meanwhile, the remotes stay and they hear that.
  pub on_message_in_session :
      (session : Session) (signal : Value)
      → s.learn_session ≡ some session
      → HasOwnTimer s
      → env.json_parse payload ≡ some signal
      → is_unreadable signal ≡ false
      → on_message env s (text "irhub/learned") payload
        ≡ ok (ending session signal (find_button env s.remotes session.remote_id session.button_id))
  unfolding on_message text_eq learn_signal clear_learn_session broadcast
  on_message_in_session session signal active own e there =
      let cleared = clear_session_timer-nil (some session) s.timers (rw active at own) in
      elim (Option-cases (find_button env s.remotes session.remote_id session.button_id)) [
        | inl gone ↦ rw (e, there, active, gone, cleared)
        | inr (b, found) ↦ rw (e, there, active, found, cleared)
      ]

-- Learning a button and pressing it. In a session for a stored button, a signal arrives that is
-- truthy and not truncated, and that the listener can print for the console (no object in place of a
-- number has a `toString` of its own): the next press of the button publishes exactly that signal's carrier
-- and pulses, whatever the MQTT client reports, and the press of another button finds what it found
-- before.
pub fire_after_learn :
    (env : Env) (s : Server) (payload rid bid t u : Text) (session : Session) (signal : Value)
    (b : Button) (ack : Option Text)
    → s.learn_session ≡ some session
    → HasOwnTimer s
    → session.remote_id ≡ str rid
    → session.button_id ≡ str bid
    → env.json_parse payload ≡ some signal
    → find_button env s.remotes (str rid) (str bid) ≡ some b
    → truthy signal ≡ true
    → log_throws signal ≡ false
    → truthy (field (text "truncated") signal) ≡ false
    → (t ≢ rid) ⊎ (u ≢ bid)
    → (s' : Server) × (on_message env s (text "irhub/learned") payload ≡ ok s')
      × (fire_button env s' (str rid) (str bid) ack
          ≡ (publish (signal_payload signal) s', publish_error ack))
      × (find_button env s'.remotes (str t) (str u) ≡ find_button env s.remotes (str t) (str u))
fire_after_learn env s payload rid bid t u session signal b ack active own er eb parsed found learnt
      printed whole apart =
    (
      ending env s payload session signal (some b),
      on_message_in_session env s payload session signal active own parsed
            (readable signal learnt printed)
          ∙ ap (λ o. ok (ending env s payload session signal o)) {y = some b} (rw (er, eb) found),
      fire_button_sends env _ (str rid) (str bid) ack (with_signal signal b)
          (rw (er, eb) (store_signal-target env rid bid signal s.remotes b found)) (learnt, whole),
      rw (er, eb) (store_signal-other env rid bid signal s.remotes t u apart),
    )
