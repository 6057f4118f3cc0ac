-- ===== src/Backend/State.antt =====
-- The state of `backend/server.js`: the lowdb database, the learn session with its timer, the price
-- cache, the WebSocket clients and the MQTT connection; and what it takes from outside.
use irhub.Prelude.{
  ℕ, Bool, List, [], ◌∷◌, ◌++◌, Option, Text, ◌==◌, if◌then◌else◌, map, find, none, some,
}
use irhub.Js.{Value, Number, ℤ, strict_eq}
use irhub.Backend.Lowdb.{Collection}

-- A button as `POST /api/remotes` normalizes it. Ids, labels, icons and signals are what a client
-- or the hub sent, any JSON value.
pub record Button : Type 0 where
  pub id : Value
  pub label : Value
  pub row : Value
  pub col : Value
  pub icon : Value
  pub signal : Value

pub record Remote : Type 0 where
  pub id : Value
  pub name : Text
  pub icon : Value
  pub buttons : List Button

-- A step of a routine.
pub record RoutineStep : Type 0 where
  pub remote_id : Value
  pub button_id : Value
  pub delay_ms : Value

pub record Routine : Type 0 where
  pub id : Value
  pub name : Text
  pub steps : List RoutineStep

pub data Condition : Type 0 where
  below above : Condition

-- The action of a rule: `type` is `button` or `routine`, the ids are any value.
pub data RuleAction : Type 0 where
  press : (remote_id button_id : Value) → RuleAction
  routine : (routine_id : Value) → RuleAction

pub record Rule : Type 0 where
  pub id : Value
  pub name : Value
  pub enabled : Bool
  pub condition : Condition
  pub threshold_cents : Number
  pub action : RuleAction
  pub last_triggered_state : Bool

-- Why `fireButton` rejects; the message of each names both ids, or is the MQTT client's.
pub data FireError : Type 0 where
  not_found : (remote_id button_id : Value) → FireError
  no_signal : (remote_id button_id : Value) → FireError
  truncated : (remote_id button_id : Value) → FireError
  publish_failed : (message : Text) → FireError
  routine_not_found : FireError

-- The outcome that `learn-result` reports.
pub data LearnOutcome : Type 0 where
  learned : (signal : Value) → LearnOutcome
  target_not_found timed_out : LearnOutcome

-- What `broadcast` sends, one constructor to a message type.
pub data Event : Type 0 where
  mqtt_status : (connected : Bool) → Event
  hub_status : (status : Text) → Event
  hello : (mqtt_connected : Bool) → Event
  learn_armed : (remote_id button_id timeout_ms : Value) → Event
  learn_result : (remote_id button_id : Value) → LearnOutcome → Event
  raw_signal : (signal : Value) → Event
  routine_started : (routine_id : Value) → (name : Text) → Event
  routine_step : (routine_id : Value) → (step_index : ℕ) → (error : Option FireError) → Event
  routine_finished : (routine_id : Value) → Event
  rule_triggered :
      (rule_id name : Value) → (price_cents : Value) → (error : Option FireError) → Event

-- A WebSocket connection: its `readyState`, and what was sent on it, the latest last.
pub record Client : Type 0 where
  pub ready_state : ℕ
  pub received : List Event

-- The `learnSession` object, with the number of its timer.
pub record Session : Type 0 where
  pub remote_id : Value
  pub button_id : Value
  pub timer : ℕ
  pub started_at : ℕ

-- A pending `setTimeout` of learn mode: the ids that its callback closes over.
pub record Timer : Type 0 where
  pub number : ℕ
  pub remote_id : Value
  pub button_id : Value
  pub timeout : Value

-- `prices` is what the price service sent, any JSON value.
pub record PriceCache : Type 0 where
  pub prices : Value
  pub fetched_at : ℕ

pub record Server : Type 0 where
  pub remotes : List Remote
  pub routines : List Routine
  pub rules : List Rule
  pub learn_session : Option Session
  pub timers : List Timer
  pub next_timer : ℕ
  pub price_cache : PriceCache
  pub clients : List Client
  pub mqtt_connected : Bool
  -- the payloads published to `irhub/send`, the latest last
  pub published : List Value
  -- how many times `uuidv4` was called
  pub uuids : ℕ
  -- `Date.now()`
  pub now : ℕ

-- What the code takes from outside: lowdb, `uuidv4().slice(0, 8)` at its n-th call,
-- `new Date(v).getTime()` (`none` is NaN), and `Number(v)` where v is a string, an array or an
-- object, as `<` applies it.
pub record Env : Type 0 where
  pub remote_db : Collection Remote (λ r. r.id)
  pub button_db : Collection Button (λ b. b.id)
  pub routine_db : Collection Routine (λ r. r.id)
  pub rule_db : Collection Rule (λ r. r.id)
  pub short_uuid : ℕ → Text
  pub date_ms : Value → Option ℤ
  pub to_number : Value → Option Number
  pub learn_timeout_ms : Value
  -- `JSON.parse`, `none` where it throws
  pub json_parse : Text → Option Value

-- `client.readyState === 1`
abbrev pub deliver : Event → Client → Client
deliver e c = if c.ready_state == 1 then record c { received = c.received ++ e ∷ [] } else c

-- `broadcast(type, payload)`
unfoldable pub broadcast : Event → Server → Server
broadcast e s = record s { clients = map (deliver e) s.clients }

-- `wss.on('connection', …)`: a client that connects is told whether the broker is reached.
unfoldable pub greet : Server → Server
greet s = record s {
  clients = s.clients ++ record { ready_state = 1; received = hello s.mqtt_connected ∷ [] } ∷ [];
}

-- `remotes.find({ id: remoteId })` and in it `buttons.find((b) => b.id === buttonId)`.
abbrev pub button_of : Value → Option Remote → Option Button
button_of id none = none
button_of id (some r) = find (λ (b : Button). strict_eq b.id id) r.buttons

unfoldable pub find_button : Env → List Remote → Value → Value → Option Button
find_button env remotes remote_id button_id =
    button_of button_id (env.remote_db.find_by remote_id remotes)
