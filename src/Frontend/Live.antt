-- ===== src/Frontend/Live.antt =====
-- What `frontend/app.js` hears and asks by itself: the WebSocket, whose messages `backend/server.js`
-- writes, and the current price.
pub mod Messages
use irhub.Prelude.{
  ℕ, suc, Bool, true, false, List, [], ◌∷◌, ◌++◌, Option, none, some, Text, text, text_eq,
  if◌then◌else◌,
}
use irhub.Js.{
  Value, undefined, null, bool, num, str, obj, Fields, end, prop, of_ℕ, Number, truthy, field,
  is_nullish, strict_eq,
}
use irhub.Backend.State.{
  Event, mqtt_status, hub_status, hello, learn_armed, learn_result, raw_signal, routine_started,
  routine_step, routine_finished, rule_triggered, FireError, LearnOutcome, learned,
  target_not_found, timed_out,
}
use irhub.Frontend.Remotes.{Ui, Answer, answered, failed, stop_learning_ui}
use irhub.Frontend.Remotes.Learn.{LearnResult, on_learn_result}

-- `{ type, payload }`
abbrev pub message : Text → Fields → Value
message kind payload = obj (prop (text "type") (str kind) (prop (text "payload") (obj payload) end))

abbrev outcome_fields : LearnOutcome → Fields
outcome_fields (learned signal) =
    prop (text "signal") signal (prop (text "success") (bool true) end)
outcome_fields target_not_found =
    prop (text "success") (bool false)
      (prop (text "error") (str (text "target button not found")) end)
outcome_fields timed_out =
    prop (text "success") (bool false)
      (prop (text "error") (str (text "timed out waiting for signal")) end)

abbrev success_fields : (FireError → Text) → Option FireError → Fields
success_fields error_text none = prop (text "success") (bool true) end
success_fields error_text (some e) =
    prop (text "success") (bool false) (prop (text "error") (str (error_text e)) end)

abbrev error_fields : (FireError → Text) → Option FireError → Fields
error_fields error_text none = end
error_fields error_text (some e) = prop (text "error") (str (error_text e)) end

-- What `broadcast(type, payload)` and the greeting write for an event, as it is read back.
-- `error_text` is the message of an error.
unfoldable pub event_json : (FireError → Text) → Event → Value
event_json error_text (mqtt_status connected) =
    message (text "mqtt-status") (prop (text "connected") (bool connected) end)
event_json error_text (hub_status status) =
    message (text "hub-status") (prop (text "status") (str status) end)
event_json error_text (hello connected) =
    message (text "hello") (prop (text "mqttConnected") (bool connected) end)
event_json error_text (learn_armed remote_id button_id timeout_ms) = message (text "learn-armed") (
    prop (text "remoteId") remote_id
      (prop (text "buttonId") button_id (prop (text "timeoutMs") timeout_ms end)))
event_json error_text (learn_result remote_id button_id outcome) =
    message (text "learn-result")
      (prop (text "remoteId") remote_id (prop (text "buttonId") button_id (outcome_fields outcome)))
event_json error_text (raw_signal signal) =
    message (text "raw-signal") (prop (text "signal") signal end)
event_json error_text (routine_started id name) =
    message (text "routine-started")
      (prop (text "routineId") id (prop (text "name") (str name) end))
event_json error_text (routine_step id index error) = message (text "routine-step") (
    prop (text "routineId") id
      (prop (text "stepIndex") (num (of_ℕ index)) (success_fields error_text error)))
event_json error_text (routine_finished id) =
    message (text "routine-finished") (prop (text "routineId") id end)
event_json error_text (rule_triggered id name price error) = message (text "rule-triggered") (
    prop (text "ruleId") id
      (prop (text "name") name (prop (text "priceCents") price (error_fields error_text error))))

-- The page: the remotes part, the sign for the broker, the two texts on the price, and the
-- reconnections of the WebSocket that wait for their timer.
pub record LivePage : Type 0 where
  pub ui : Ui
  pub mqtt_online : Bool
  pub price_value : Text
  pub price_updated : Text
  pub reconnects : ℕ

-- `setMqttStatus(connected)`: the colour of the dot and the text beside it.
unfoldable pub set_mqtt_status : Bool → LivePage → LivePage
set_mqtt_status connected p = record p { mqtt_online = connected }

abbrev pub result_of : Value → LearnResult
result_of payload = record {
  remote_id = field (text "remoteId") payload;
  button_id = field (text "buttonId") payload;
  success = truthy (field (text "success") payload);
  signal = field (text "signal") payload;
  error = field (text "error") payload;
}

-- `onLearnResult(msg.payload)`: without a payload it throws once it has stopped to wait.
abbrev pub learn_result_heard : Value → Ui → Ui
learn_result_heard payload ui =
    if is_nullish payload
    then (if ui.learning then stop_learning_ui ui else ui)
    else on_learn_result (result_of payload) ui

-- `setMqttStatus(!!msg.payload.key)`, which throws without a payload.
abbrev pub status_heard : Text → Value → LivePage → LivePage
status_heard key payload p =
    if is_nullish payload then p else record p { mqtt_online = truthy (field key payload) }

-- The `switch` on `msg.type`.
unfoldable pub dispatch : Value → Value → LivePage → LivePage
dispatch kind payload p =
    if strict_eq kind (str (text "hello"))
    then status_heard (text "mqttConnected") payload p
    else if strict_eq kind (str (text "mqtt-status"))
    then status_heard (text "connected") payload p
    else if strict_eq kind (str (text "learn-result"))
    then record p { ui = learn_result_heard payload p.ui }
    else p

-- `ws.onmessage`, of the parsed message, or none where `JSON.parse` throws. A message of `null`
-- throws too.
unfoldable pub on_ws_message : Option Value → LivePage → LivePage
unfolding dispatch
on_ws_message none p = p
on_ws_message (some msg) p =
    if is_nullish msg then p else dispatch (field (text "type") msg) (field (text "payload") msg) p

-- `ws.onclose`
unfoldable pub on_ws_close : LivePage → LivePage
unfolding set_mqtt_status
on_ws_close p = record (set_mqtt_status false p) { reconnects = suc p.reconnects }

-- What `GET /api/price/current` answers, as far as the page reads it.
pub record PriceAnswer : Type 0 where
  pub price_cents : Value
  pub cached_blocks : Value
  pub fetched_at : Value

-- `refreshCurrentPrice()`. `to_fixed` is `toFixed(2)`, which throws on all but numbers, and
-- `time_of` prints the time of a date.
abbrev pub price_known : (Value → Option Text) → (Value → Text) → PriceAnswer → LivePage → LivePage
price_known to_fixed time_of data_read p = either (to_fixed data_read.price_cents)
  where
    either : Option Text → LivePage
    either none = record p { price_value = text "--"; price_updated = text "price unavailable" }
    either (some digits) = record p {
      price_value = digits ++ text " c/kWh";
      price_updated =
          if truthy data_read.fetched_at
          then text "updated " ++ time_of data_read.fetched_at
          else [];
    }

unfoldable pub refresh_current_price :
    (Value → Option Text) → (Value → Text) → Answer PriceAnswer → LivePage → LivePage
refresh_current_price to_fixed time_of (failed reason) p = record p {
  price_value = text "--";
  price_updated = text "price unavailable";
}
refresh_current_price to_fixed time_of (answered a) p =
    if is_nullish a.price_cents
    then record p {
      price_value = text "--";
      price_updated =
          if truthy a.cached_blocks
          then text "no block covers now"
          else text "no price data cached";
    }
    else price_known to_fixed time_of a p
