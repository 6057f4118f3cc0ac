-- ===== src/Backend/Steps/Sound.antt =====
-- What holds of the backend in every state that it reaches.
use irhub.Prelude.{
  ℕ, ◌||◌, not, List, Option, none, some, Text, text, text_eq, ◌≡◌, refl, sym, subst, Bool-cases,
  Option-cases, inl, inr,
}
use irhub.Js.{Value, IsPrimitive, truthy, field, Js, ok, type_error}
use irhub.Backend.Lowdb.Unique.{HasUniqueIds, HasUniqueIds-update_first}
use irhub.Backend.Lowdb.Upsert.{remove-HasUniqueIds}
use irhub.Backend.State.{Remote, Server, Env, Session, find_button, broadcast, greet}
use irhub.Backend.Learn.{
  arm, post_learn, delete_learn, clear_learn_session, store_signal, learn_signal, receive,
  on_learned, is_unreadable, on_message, on_timeout, on_mqtt,
}
use irhub.Backend.Learn.Timers.{
  HasOwnTimer, Leaves, post_learn-HasOwnTimer, delete_learn-HasOwnTimer, on_timeout_lem,
  on_message-HasOwnTimer,
}
use irhub.Backend.Remotes.{delete_remote}
use irhub.Backend.Remotes.Lookup.{remote_key}
use irhub.Backend.Remotes.Keeps.{post_remote-HasUniqueIds}
use irhub.Backend.Routines.{delete_routine}
use irhub.Backend.Routines.Store.{routine_key, post_routine-HasUniqueIds}
use irhub.Backend.Rules.{delete_rule}
use irhub.Backend.Price.{Fetched, failed, bad_status, data_of, cache_data, refresh_prices}
use irhub.Backend.Steps.{Step, Reach}
use irhub.Backend.Steps.Keeps.{
  post_remote_keeps, post_routine_keeps, post_rule_keeps, fire_button_keeps, post_send_keeps,
}

abbrev pub IsPlain : Option Session → Type 0
IsPlain none = Unit {0}
IsPlain (some session) = IsPrimitive session.remote_id

-- A session's remote has an id that is no object, and string ids are unique.
abbrev pub IsStored : Server → Type 0
IsStored s =
    IsPlain s.learn_session
    × HasUniqueIds remote_key s.remotes
    × HasUniqueIds routine_key s.routines

-- Outside a learn session no timer is pending, and in one exactly its own; ids are unique.
abbrev pub IsSound : Server → Type 0
IsSound s = HasOwnTimer s × IsStored s

post_learn-IsStored :
    (env : Env) (s : Server) (body : Value)
    → IsPrimitive (field (text "remoteId") body)
    → IsStored s
    → IsStored (post_learn env s body).0
unfolding post_learn arm broadcast clear_learn_session
post_learn-IsStored env s body plain h =
    elim (Bool-cases (
      not (truthy (field (text "remoteId") body)) || not (truthy (field (text "buttonId") body)))) [
        | inl missing ↦ rw missing h
        | inr given ↦
            elim (Option-cases (
              find_button env s.remotes (field (text "remoteId") body)
                (field (text "buttonId") body))) [
                  | inl e ↦ rw (given, e) h
                  | inr (b, e) ↦ rw (given, e) (plain, h.1, h.2)
                ]
      ]

store_signal-HasUniqueIds :
    (env : Env) (rid bid signal : Value) (remotes : List Remote)
    → IsPrimitive rid
    → HasUniqueIds remote_key remotes
    → HasUniqueIds remote_key (store_signal env rid bid signal remotes)
unfolding store_signal
store_signal-HasUniqueIds env rid bid signal remotes plain h =
    subst (HasUniqueIds remote_key) (sym (env.remote_db.assign_lem rid _ remotes plain))
      (HasUniqueIds-update_first remote_key _ _ remotes (λ x _. refl) h)

receive-IsStored :
    (env : Env) (s : Server) (signal : Value) (session : Option Session)
    → IsPlain session
    → IsStored s
    → IsStored (receive env s signal session)
unfolding broadcast learn_signal clear_learn_session
receive-IsStored env s signal none plain h = h
receive-IsStored env s signal (some session) plain h =
    elim (Option-cases (find_button env s.remotes session.remote_id session.button_id)) [
      | inl e ↦ rw e (tt, h.1, h.2)
      | inr (b, e) ↦ rw e (
        tt,
        store_signal-HasUniqueIds env session.remote_id session.button_id signal s.remotes plain
            h.1,
        h.2,
      )
    ]

on_message-IsStored :
    (env : Env) (s : Server) (topic payload : Text)
    → IsStored s
    → Leaves IsStored (on_message env s topic payload)
unfolding on_message broadcast
on_message-IsStored env s topic payload h =
    elim (Bool-cases (text_eq topic (text "irhub/status"))) [
      | inl hub ↦ rw hub h
      | inr other ↦ elim (Bool-cases (text_eq topic (text "irhub/learned"))) [
        | inl signal ↦ rw (other, signal) (heard (env.json_parse payload))
        | inr ignored ↦ rw (other, ignored) h
      ]
    ]
  where
    heard : (parsed : Option Value) → Leaves IsStored (on_learned env s parsed)
    heard none = h
    heard (some signal) = elim (Bool-cases (is_unreadable signal)) [
      | inl thrown ↦ rw thrown tt
      | inr there ↦ rw there (receive-IsStored env s signal s.learn_session h.0 h)
    ]

-- What a handler leaves, where it is known to leave a state.
left_by : (P : Server → Type 0) (o : Js Server) (s : Server) → o ≡ ok s → Leaves P o → P s
left_by P o s e h = subst (Leaves P) e h

on_timeout-IsSound : (s : Server) (n : ℕ) → IsSound s → IsSound (on_timeout s n)
unfolding broadcast
on_timeout-IsSound s n h = elim (on_timeout_lem s n h.0) [
  | inl same ↦ rw same h
  | inr (own, _, _, over) ↦ rw over (refl, (tt, h.1.1, h.1.2))
]

refresh_prices-IsSound : (s : Server) (f : Fetched) → IsSound s → IsSound (refresh_prices s f)
unfolding refresh_prices
refresh_prices-IsSound s failed h = h
refresh_prices-IsSound s (bad_status code) h = h
refresh_prices-IsSound s (data_of v) h = cached _
  where
    cached : (o : Js Value) → IsSound (cache_data s o)
    cached type_error = h
    cached (ok v) = h

Step-IsSound : {env : Env} {s t : Server} → Step env s t → IsSound s → IsSound t
unfolding delete_remote delete_routine delete_rule delete_learn clear_learn_session on_mqtt greet
    broadcast
Step-IsSound {env} (Step.remote_posted s body plain) h = (
  post_remote_keeps HasOwnTimer env s h.0 body (λ _ _. h.0),
  (
    post_remote_keeps (λ t. IsPlain t.learn_session) env s h.1.0 body (λ _ _. h.1.0),
    post_remote-HasUniqueIds env s body plain h.1.1,
    post_remote_keeps (λ t. HasUniqueIds routine_key t.routines) env s h.1.2 body (λ _ _. h.1.2),
  ),
)
Step-IsSound {env} (Step.remote_deleted s id) h =
    (h.0, (h.1.0, remove-HasUniqueIds remote_key env.remote_db id s.remotes h.1.1, h.1.2))
Step-IsSound {env} (Step.button_sent s body ack) h =
    post_send_keeps IsSound env s h body ack (λ _. h)
Step-IsSound {env} (Step.learn_posted s body plain) (own, stored) =
    (post_learn-HasOwnTimer env s body own, post_learn-IsStored env s body plain stored)
Step-IsSound (Step.learn_deleted s) h = (delete_learn-HasOwnTimer s h.0, (tt, h.1.1, h.1.2))
Step-IsSound (Step.timer_fired s n) h = on_timeout-IsSound s n h
Step-IsSound {env} (Step.message_received s s' topic payload e) (own, stored) = (
  left_by HasOwnTimer _ s' e (on_message-HasOwnTimer env s topic payload own),
  left_by IsStored _ s' e (on_message-IsStored env s topic payload stored),
)
Step-IsSound (Step.mqtt_changed s connected) h = h
Step-IsSound (Step.client_connected s) h = h
Step-IsSound {env} (Step.routine_posted s body plain) h = (
  post_routine_keeps HasOwnTimer env s h.0 body (λ _ _. h.0),
  (
    post_routine_keeps (λ t. IsPlain t.learn_session) env s h.1.0 body (λ _ _. h.1.0),
    post_routine_keeps (λ t. HasUniqueIds remote_key t.remotes) env s h.1.1 body (λ _ _. h.1.1),
    post_routine-HasUniqueIds env s body plain h.1.2,
  ),
)
Step-IsSound {env} (Step.routine_deleted s id) h =
    (h.0, (h.1.0, h.1.1, remove-HasUniqueIds routine_key env.routine_db id s.routines h.1.2))
Step-IsSound {env} (Step.rule_posted s body) h = post_rule_keeps IsSound env s h body (λ _ _. h)
Step-IsSound (Step.rule_deleted s id) h = h
Step-IsSound (Step.prices_refreshed s fetched) h = refresh_prices-IsSound s fetched h
Step-IsSound {env} (Step.button_fired s rid bid ack) h =
    fire_button_keeps IsSound env s h rid bid ack (λ _. h)
Step-IsSound (Step.rule_settled s id met) h = h
Step-IsSound (Step.event_told s e) h = h
Step-IsSound (Step.clock_ticked s now) h = h

-- From a sound state, whatever requests, messages, timers and awaits follow one another, the backend
-- reaches sound states only, if the ids in the bodies of requests are no objects: no learn timer is
-- pending outside a session, exactly the session's own timer is pending in one, and each string id
-- names one remote and one routine at most.
pub Reach-IsSound : (env : Env) (s t : Server) → IsSound s → Reach env s t → IsSound t
Reach-IsSound env s t h Reach.here = h
Reach-IsSound env s t h (Reach.next more step) = Step-IsSound step (Reach-IsSound env s _ h more)
