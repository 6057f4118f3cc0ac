-- ===== src/Backend/Learn/Timers.antt =====
-- The timers of learn mode.
use irhub.Prelude.{
  ℕ, List, [], ◌∷◌, Option, none, some, Text, text, ◌≡◌, refl, arith, Bool-cases, inl, inr, ◌⊎◌,
  ◌||◌, not, ◌==◌, text_eq, find,
}
use irhub.Js.{Value, Js, ok, type_error, truthy, field}
use irhub.Backend.State.{
  Button, find_button, Server, Env, Session, Timer, learn_result, timed_out, broadcast,
}
use irhub.Backend.Learn.{
  clear_timeout, clear_session_timer, clear_learn_session, arm, arm_found, learn_found, post_learn,
  delete_learn, on_timeout, learn_signal, receive, on_learned, is_unreadable, on_message,
}

-- The timers that a session needs: its own, which closes over its ids.
abbrev pub IsTimerOf : Option Session → List Timer → Type 0
IsTimerOf none timers = timers ≡ []
IsTimerOf (some session) timers =
    (t : Timer) × (timers ≡ t ∷ [])
    × (t.number ≡ session.timer)
    × (t.remote_id ≡ session.remote_id)
    × (t.button_id ≡ session.button_id)

-- No timer is pending outside a session, and in one exactly the session's own.
abbrev pub HasOwnTimer : Server → Type 0
HasOwnTimer s = IsTimerOf s.learn_session s.timers

pub clear_session_timer-nil :
    (session : Option Session) (timers : List Timer)
    → IsTimerOf session timers
    → clear_session_timer session timers ≡ []
clear_session_timer-nil none timers h = h
clear_session_timer-nil (some session) timers (t, only, number, _, _) = rw only (ground arith)

-- After `clearLearnSession` no session is active and no timer is pending.
clear_learn_session-idle : (s : Server) → HasOwnTimer s → HasOwnTimer (clear_learn_session s)
unfolding clear_learn_session
clear_learn_session-idle s h = clear_session_timer-nil s.learn_session s.timers h

arm-HasOwnTimer :
    (s : Server) (rid bid timeout : Value) → HasOwnTimer s → HasOwnTimer (arm s rid bid timeout)
unfolding arm broadcast clear_learn_session
arm-HasOwnTimer s rid bid timeout h = (
  record { number = s.next_timer; remote_id = rid; button_id = bid; timeout = timeout },
  rw (clear_session_timer-nil s.learn_session s.timers h),
  refl,
  refl,
  refl,
)

arm_found-HasOwnTimer :
    (s : Server) (rid bid timeout : Value) (o : Option Button)
    → HasOwnTimer s
    → HasOwnTimer (arm_found s rid bid timeout o).0
arm_found-HasOwnTimer s rid bid timeout none h = h
arm_found-HasOwnTimer s rid bid timeout (some b) h = arm-HasOwnTimer s rid bid timeout h

-- `POST /api/learn` and `DELETE /api/learn` keep the timer in step with the session.
pub post_learn-HasOwnTimer :
    (env : Env) (s : Server) (body : Value) → HasOwnTimer s → HasOwnTimer (post_learn env s body).0
unfolding post_learn
post_learn-HasOwnTimer env s body h =
    elim (Bool-cases (
      not (truthy (field (text "remoteId") body)) || not (truthy (field (text "buttonId") body)))) [
        | inl missing ↦ rw missing h
        | inr given ↦ rw given (arm_found-HasOwnTimer s _ _ _ (find_button env s.remotes _ _) h)
      ]

pub delete_learn-HasOwnTimer : (s : Server) → HasOwnTimer s → HasOwnTimer (delete_learn s).0
unfolding delete_learn
delete_learn-HasOwnTimer s h = clear_learn_session-idle s h

-- The timers hold no other timer than the session's.
timer_cases :
    (session : Option Session) (timers : List Timer) (n : ℕ)
    → IsTimerOf session timers
    → (find (λ (t : Timer). t.number == n) timers ≡ none)
      ⊎ ((own : Session) × (t : Timer) × (session ≡ some own)
          × (find (λ (t : Timer). t.number == n) timers ≡ some t)
          × (n ≡ own.timer)
          × (t.remote_id ≡ own.remote_id)
          × (t.button_id ≡ own.button_id)
          × (clear_session_timer session (clear_timeout t.number timers) ≡ []))
timer_cases none timers n h = inl (rw h)
timer_cases (some own) timers n (t, only, number, rid, bid) = elim (Bool-cases (t.number == n)) [
  | inr other ↦ inl (rw (only, other))
  | inl same ↦ inr (own, t, refl, rw (only, same), ground arith, rid, bid, rw only (ground arith))
]

-- A timer that fires is the session's own, or it was cleared before and does nothing. In the first
-- case every client hears that the session's button timed out, and the session is over.
pub on_timeout_lem :
    (s : Server) (n : ℕ)
    → HasOwnTimer s
    → (on_timeout s n ≡ s)
      ⊎ ((own : Session) × (s.learn_session ≡ some own)
          × (n ≡ own.timer)
          × (on_timeout s n ≡ (
              let told = broadcast (learn_result own.remote_id own.button_id timed_out) s in
              record told { learn_session = none; timers = [] })))
unfolding on_timeout clear_learn_session broadcast
on_timeout_lem s n h = elim (timer_cases s.learn_session s.timers n h) [
  | inl gone ↦ inl (rw gone)
  | inr (own, t, active, found, number, rid, bid, cleared) ↦
      inr (own, active, number, rw (found, rid, bid, cleared))
]

pub on_timeout-HasOwnTimer : (s : Server) (n : ℕ) → HasOwnTimer s → HasOwnTimer (on_timeout s n)
on_timeout-HasOwnTimer s n h = elim (on_timeout_lem s n h) [
  | inl same ↦ rw same h
  | inr (own, _, _, ended) ↦ rw ended refl
]

learn_found-HasOwnTimer :
    (env : Env) (s : Server) (session : Session) (signal : Value) (o : Option Button)
    → HasOwnTimer s
    → HasOwnTimer (learn_found env s session signal o)
unfolding broadcast
learn_found-HasOwnTimer env s session signal none h = clear_learn_session-idle _ h
learn_found-HasOwnTimer env s session signal (some b) h = clear_learn_session-idle _ h

receive-HasOwnTimer :
    (env : Env) (s : Server) (signal : Value) (session : Option Session)
    → HasOwnTimer s
    → HasOwnTimer (receive env s signal session)
unfolding broadcast learn_signal
receive-HasOwnTimer env s signal none h = h
receive-HasOwnTimer env s signal (some session) h =
    learn_found-HasOwnTimer env s session signal (find_button env s.remotes _ _) h

-- What holds of the state that a listener leaves, if it throws no TypeError.
abbrev pub Leaves : (Server → Type 0) → Js Server → Type 0
Leaves P (ok s) = P s
Leaves P type_error = Unit

on_learned-HasOwnTimer :
    (env : Env) (s : Server) (parsed : Option Value)
    → HasOwnTimer s
    → Leaves HasOwnTimer (on_learned env s parsed)
on_learned-HasOwnTimer env s none h = h
on_learned-HasOwnTimer env s (some signal) h = elim (Bool-cases (is_unreadable signal)) [
  | inl thrown ↦ rw thrown tt
  | inr there ↦ rw there (receive-HasOwnTimer env s signal s.learn_session h)
]

pub on_message-HasOwnTimer :
    (env : Env) (s : Server) (topic payload : Text)
    → HasOwnTimer s
    → Leaves HasOwnTimer (on_message env s topic payload)
unfolding on_message broadcast
on_message-HasOwnTimer env s topic payload h =
    elim (Bool-cases (text_eq topic (text "irhub/status"))) [
      | inl hub ↦ rw hub h
      | inr other ↦ elim (Bool-cases (text_eq topic (text "irhub/learned"))) [
        | inl signal ↦ rw (other, signal) (on_learned-HasOwnTimer env s (env.json_parse payload) h)
        | inr ignored ↦ rw (other, ignored) h
      ]
    ]
