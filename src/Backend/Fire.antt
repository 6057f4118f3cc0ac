-- ===== src/Backend/Fire.antt =====
-- Firing a button: `fireButton` and `POST /api/send` in `backend/server.js`.
pub mod Agree
use irhub.Prelude.{
  Bool, List, [], ◌∷◌, ◌++◌, Option, none, some, Text, text, if◌then◌else◌, ◌||◌, not,
}
use irhub.Js.{Value, undefined, obj, Fields, end, prop, truthy, field}
use irhub.Backend.State.{
  Button, Server, Env, FireError, not_found, no_signal, truncated, publish_failed, find_button,
}
use irhub.Backend.Http.{
  Reply, json, error, sent, ids_required, button_not_found, no_learned_signal, signal_truncated,
  publish_refused,
}

-- A property as `JSON.stringify` writes it: left out if the value is undefined.
abbrev pub json_prop : Text → Value → Fields → Fields
json_prop k undefined rest = rest
json_prop k v rest = prop k v rest

-- `JSON.stringify({ carrier_freq: signal.carrier_freq, pulses: signal.pulses })`
unfoldable pub signal_payload : Value → Value
signal_payload signal = obj (
    json_prop (text "carrier_freq") (field (text "carrier_freq") signal)
      (json_prop (text "pulses") (field (text "pulses") signal) end))

-- `mqttClient.publish(TOPIC_SEND, payload, { qos: 1 }, …)`
abbrev pub publish : Value → Server → Server
publish payload s = record s { published = s.published ++ payload ∷ [] }

-- What the callback of `publish` makes of its `err`.
abbrev pub publish_error : Option Text → Option FireError
publish_error none = none
publish_error (some message) = some (publish_failed message)

-- `fireButton` on the button that was found. `ack` is what the MQTT client passes to the callback;
-- with the error that the promise is rejected with, or none.
unfoldable pub fire_found :
    Server → Value → Value → Option Text → Option Button → Server × Option FireError
fire_found s remote_id button_id ack none = (s, some (not_found remote_id button_id))
fire_found s remote_id button_id ack (some b) =
    if not (truthy b.signal)
    then (s, some (no_signal remote_id button_id))
    else if truthy (field (text "truncated") b.signal)
    then (s, some (truncated remote_id button_id))
    else (publish (signal_payload b.signal) s, publish_error ack)

unfoldable pub fire_button : Env → Server → Value → Value → Option Text → Server × Option FireError
fire_button env s remote_id button_id ack =
    fire_found s remote_id button_id ack (find_button env s.remotes remote_id button_id)

-- The callback of `publish` in `POST /api/send`.
abbrev pub sent_reply : Value → Value → Option Text → Reply
sent_reply remote_id button_id none = json 200 (sent remote_id button_id)
sent_reply remote_id button_id (some message) = json 502 (error publish_refused)

unfoldable pub send_found : Server → Value → Value → Option Text → Option Button → Server × Reply
send_found s remote_id button_id ack none = (s, json 404 (error button_not_found))
send_found s remote_id button_id ack (some b) =
    if not (truthy b.signal)
    then (s, json 409 (error no_learned_signal))
    else if truthy (field (text "truncated") b.signal)
    then (s, json 409 (error signal_truncated))
    else (publish (signal_payload b.signal) s, sent_reply remote_id button_id ack)

-- `POST /api/send`
unfoldable pub post_send : Env → Server → Value → Option Text → Server × Reply
post_send env s body ack =
    let remote_id = field (text "remoteId") body in
    let button_id = field (text "buttonId") body in
    if not (truthy remote_id) || not (truthy button_id)
    then (s, json 400 (error ids_required))
    else send_found s remote_id button_id ack (find_button env s.remotes remote_id button_id)
