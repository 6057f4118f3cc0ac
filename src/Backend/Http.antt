-- ===== src/Backend/Http.antt =====
-- The replies of the REST handlers of `backend/server.js`.
use irhub.Prelude.{ℕ, Bool, List, ◌∷◌, Option, none, some, Text}
use irhub.Js.{Value, str}
use irhub.Backend.State.{Remote, Routine, Rule}

-- The `error` texts of the handlers.
pub data Fault : Type 0 where
  name_required remote_not_found ids_required button_not_found no_learned_signal : Fault
  signal_truncated publish_refused remote_or_button_not_found steps_required : Fault
  routine_missing condition_invalid threshold_invalid action_invalid not_found : Fault

-- The JSON bodies. `none` is a body of `undefined`, which Express sends empty.
pub data Body : Type 0 where
  error : Fault → Body
  remotes : List Remote → Body
  remote : Option Remote → Body
  sent : (remote_id button_id : Value) → Body
  armed : (remote_id button_id timeout_ms : Value) → Body
  cancelled : Bool → Body
  status : (mqtt_connected learn_session_active : Bool) → Body
  price : (price_cents cached_blocks : Value) → (fetched_at : ℕ) → Body
  prices : Value → (fetched_at : ℕ) → Body
  routines : List Routine → Body
  routine : Option Routine → Body
  running : (routine_id : Value) → Body
  rules : List Rule → Body
  rule : Option Rule → Body

-- `json code body` is `res.status(code).json(body)`, `ended code` is `res.status(code).end()`, and
-- `thrown` is a TypeError that leaves a synchronous handler, which Express answers with 500.
pub data Reply : Type 0 where
  json : ℕ → Body → Reply
  ended : ℕ → Reply
  thrown : Reply

-- `!name || typeof name !== 'string'` refuses all but a string that is not empty.
unfoldable pub nonempty_string : Value → Option Text
nonempty_string (str (c ∷ cs)) = some (c ∷ cs)
nonempty_string _ = none
