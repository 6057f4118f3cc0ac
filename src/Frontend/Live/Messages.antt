-- ===== src/Frontend/Live/Messages.antt =====
-- The page understands what the backend writes.
use irhub.Prelude.{true, false, some, Text, text, text_eq, ◌≡◌, refl}
use irhub.Js.{Value, undefined, str, truthy, field, lookup_or, strict_eq}
use irhub.Backend.State.{
  Event, mqtt_status, hub_status, hello, learn_armed, learn_result, raw_signal, routine_started,
  routine_step, routine_finished, rule_triggered, FireError, LearnOutcome, learned,
  target_not_found, timed_out,
}
use irhub.Frontend.Remotes.Learn.{LearnResult, on_learn_result}
use irhub.Frontend.Live.{LivePage, event_json, dispatch, on_ws_message}

-- The result of a session, as a record.
abbrev pub result_for : Value → Value → LearnOutcome → LearnResult
result_for remote_id button_id (learned signal) = record {
  remote_id = remote_id;
  button_id = button_id;
  success = true;
  signal = signal;
  error = undefined;
}
result_for remote_id button_id target_not_found = record {
  remote_id = remote_id;
  button_id = button_id;
  success = false;
  signal = undefined;
  error = str (text "target button not found");
}
result_for remote_id button_id timed_out = record {
  remote_id = remote_id;
  button_id = button_id;
  success = false;
  signal = undefined;
  error = str (text "timed out waiting for signal");
}

-- What an event means to the page.
abbrev pub heard : Event → LivePage → LivePage
heard (mqtt_status connected) p = record p { mqtt_online = connected }
heard (hello connected) p = record p { mqtt_online = connected }
heard (learn_result remote_id button_id outcome) p = record p {
  ui = on_learn_result (result_for remote_id button_id outcome) p.ui;
}
heard _ p = p

-- Every event that the backend broadcasts, and its greeting, means to the page what it says: once the
-- message is parsed again, the page shows whether the broker is reached, or takes over the result of a
-- learn session, with its ids, its signal or its error; and every other event changes nothing.
pub on_ws_message-heard :
    (error_text : FireError → Text) (e : Event) (p : LivePage)
    → on_ws_message (some (event_json error_text e)) p ≡ heard e p
unfolding on_ws_message dispatch event_json field lookup_or text_eq strict_eq truthy
on_ws_message-heard error_text (mqtt_status true) p = refl
on_ws_message-heard error_text (mqtt_status false) p = refl
on_ws_message-heard error_text (hub_status status) p = refl
on_ws_message-heard error_text (hello true) p = refl
on_ws_message-heard error_text (hello false) p = refl
on_ws_message-heard error_text (learn_armed remote_id button_id timeout_ms) p = refl
on_ws_message-heard error_text (learn_result remote_id button_id (learned signal)) p = refl
on_ws_message-heard error_text (learn_result remote_id button_id target_not_found) p = refl
on_ws_message-heard error_text (learn_result remote_id button_id timed_out) p = refl
on_ws_message-heard error_text (raw_signal signal) p = refl
on_ws_message-heard error_text (routine_started id name) p = refl
on_ws_message-heard error_text (routine_step id index error) p = refl
on_ws_message-heard error_text (routine_finished id) p = refl
on_ws_message-heard error_text (rule_triggered id name price error) p = refl
