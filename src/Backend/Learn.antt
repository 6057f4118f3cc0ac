-- ===== src/Backend/Learn.antt =====
-- Learn mode in `backend/server.js`: the one session, its timer, the REST handlers that arm and
-- cancel it, the timer's callback, and the MQTT messages.
pub mod Timers
pub mod Signal
pub mod Results
use irhub.Prelude.{
  is_some, ℕ, suc, Bool, true, false, List, [], ◌∷◌, ◌++◌, Option, none, some, Text, text, text_eq,
  if◌then◌else◌, ◌||◌, not, ◌==◌, find, reject,
}
use irhub.Js.{
  Value, Js, ok, type_error, truthy, or_else, nullish_else, field, is_nullish, num, of_ℕ,
  string_throws, optional_length,
}
use irhub.Backend.State.{
  Button, Remote, Server, Env, Session, Timer, Event, hub_status, learn_armed, learn_result,
  raw_signal, learned, target_not_found, timed_out, broadcast, find_button,
}
use irhub.Backend.Http.{
  Reply, json, Body, error, armed, cancelled, status, ids_required, remote_or_button_not_found,
}

-- `clearTimeout(timer)`
abbrev pub clear_timeout : ℕ → List Timer → List Timer
clear_timeout n timers = reject (λ (t : Timer). t.number == n) timers

abbrev pub clear_session_timer : Option Session → List Timer → List Timer
clear_session_timer none timers = timers
clear_session_timer (some session) timers = clear_timeout session.timer timers

-- `clearLearnSession()`
unfoldable pub clear_learn_session : Server → Server
clear_learn_session s = record s {
  learn_session = none;
  timers = clear_session_timer s.learn_session s.timers;
}

-- What `POST /api/learn` does once the target is known to exist.
unfoldable pub arm : Server → Value → Value → Value → Server
arm s remote_id button_id timeout =
    let cleared = clear_learn_session s in
    let timer : Timer = record {
      number = s.next_timer;
      remote_id = remote_id;
      button_id = button_id;
      timeout = timeout;
    } in
    let session : Session = record {
      remote_id = remote_id;
      button_id = button_id;
      timer = s.next_timer;
      started_at = s.now;
    } in
    broadcast (learn_armed remote_id button_id timeout) (record cleared {
      timers = cleared.timers ++ timer ∷ [];
      next_timer = suc s.next_timer;
      learn_session = some session;
    })

abbrev pub arm_found : Server → Value → Value → Value → Option Button → Server × Reply
arm_found s remote_id button_id timeout none = (s, json 404 (error remote_or_button_not_found))
arm_found s remote_id button_id timeout (some b) =
    (arm s remote_id button_id timeout, json 202 (armed remote_id button_id timeout))

-- `POST /api/learn`
unfoldable pub post_learn : Env → Server → Value → Server × Reply
post_learn env s body =
    let remote_id = field (text "remoteId") body in
    let button_id = field (text "buttonId") body in
    let timeout = or_else (field (text "timeoutMs") body) env.learn_timeout_ms in
    if not (truthy remote_id) || not (truthy button_id)
    then (s, json 400 (error ids_required))
    else arm_found s remote_id button_id timeout (find_button env s.remotes remote_id button_id)

-- `DELETE /api/learn`
unfoldable pub delete_learn : Server → Server × Reply
delete_learn s = (clear_learn_session s, json 200 (cancelled (is_some s.learn_session)))

-- `GET /api/status`
unfoldable pub get_status : Server → Server × Reply
get_status s = (s, json 200 (status s.mqtt_connected (is_some s.learn_session)))

-- The callback of a timer that is pending; a timer that was cleared is not called.
abbrev pub call_timer : Server → Option Timer → Server
call_timer s none = s
call_timer s (some t) = clear_learn_session (
    broadcast (learn_result t.remote_id t.button_id timed_out)
      (record s { timers = clear_timeout t.number s.timers }))

unfoldable pub on_timeout : Server → ℕ → Server
on_timeout s n = call_timer s (find (λ (t : Timer). t.number == n) s.timers)

-- `….find({ id: remoteId }).get('buttons').find({ id: buttonId }).assign({ signal }).write()`
unfoldable pub store_signal : Env → Value → Value → Value → List Remote → List Remote
store_signal env remote_id button_id signal remotes =
    env.remote_db.assign remote_id
      (λ r. record r {
        buttons = env.button_db.assign button_id (λ b. record b { signal = signal }) r.buttons;
      })
      remotes

-- A signal that arrives in a session, whose target was looked up.
abbrev pub learn_found : Env → Server → Session → Value → Option Button → Server
learn_found env s session signal none =
    clear_learn_session
      (broadcast (learn_result session.remote_id session.button_id target_not_found) s)
learn_found env s session signal (some b) = clear_learn_session (
    broadcast (learn_result session.remote_id session.button_id (learned signal)) (record s {
      remotes = store_signal env session.remote_id session.button_id signal s.remotes;
    }))

unfoldable pub learn_signal : Env → Server → Session → Value → Server
learn_signal env s session signal =
    learn_found env s session signal (find_button env s.remotes session.remote_id session.button_id)

abbrev pub receive : Env → Server → Value → Option Session → Server
receive env s signal none = broadcast (raw_signal signal) s
receive env s signal (some session) = learn_signal env s session signal

-- Whether the line on a signal for the console throws a TypeError: it prints the number of pulses,
-- the carrier and the number of frames, which it compares with 1 before.
unfoldable pub log_throws : Value → Bool
unfolding optional_length string_throws nullish_else
log_throws signal =
    string_throws (nullish_else (optional_length (field (text "pulses") signal)) (num (of_ℕ 0)))
    || string_throws (field (text "carrier_freq") signal)
    || string_throws (nullish_else (field (text "frame_count") signal) (num (of_ℕ 1)))

-- `signal.frame_count` throws on the JSON text `null`.
abbrev pub is_unreadable : Value → Bool
is_unreadable signal = is_nullish signal || log_throws signal

-- A message on `irhub/learned`. Nothing around the listener catches what it throws.
abbrev pub on_learned : Env → Server → Option Value → Js Server
on_learned env s none = ok s
on_learned env s (some signal) =
    if is_unreadable signal then type_error else ok (receive env s signal s.learn_session)

-- `mqttClient.on('message', …)`; a TypeError is one that leaves the listener.
unfoldable pub on_message : Env → Server → Text → Text → Js Server
on_message env s topic payload =
    if text_eq topic (text "irhub/status")
    then ok (broadcast (hub_status payload) s)
    else if text_eq topic (text "irhub/learned")
    then on_learned env s (env.json_parse payload)
    else ok s

-- `mqttClient.on('connect', …)` and `mqttClient.on('close', …)`
unfoldable pub on_mqtt : Bool → Server → Server
on_mqtt connected s =
    broadcast (Event.mqtt_status connected) (record s { mqtt_connected = connected })
