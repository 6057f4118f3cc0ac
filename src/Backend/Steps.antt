-- ===== src/Backend/Steps.antt =====
-- All that moves the backend from one state to the next, as one relation: a request, an MQTT message,
-- a timer, a connection, the clock, a refresh of the prices, and the stretches of `runRoutine` and
-- `evaluateRules` between two awaits.
pub mod Keeps
pub mod Sound
use irhub.Prelude.{ℕ, Bool, Option, Text, text, ◌≡◌}
use irhub.Js.{Value, Js, ok, IsPrimitive, field}
use irhub.Backend.State.{Server, Env, Rule, Event, broadcast, greet}
use irhub.Backend.Remotes.{post_remote, delete_remote}
use irhub.Backend.Fire.{post_send, fire_button}
use irhub.Backend.Learn.{post_learn, delete_learn, on_timeout, on_message, on_mqtt}
use irhub.Backend.Routines.{post_routine, delete_routine}
use irhub.Backend.Rules.{post_rule, delete_rule}
use irhub.Backend.Price.{Fetched, refresh_prices}

-- The ids of requests are taken to be no objects. A listener that throws has left no state behind.
pub data Step (env : Env) : Server → Server → Type 0 where
  remote_posted :
      (s : Server) (body : Value)
      → IsPrimitive (field (text "id") body)
      → Step env s (post_remote env s body).0
  remote_deleted : (s : Server) (id : Text) → Step env s (delete_remote env s id).0
  button_sent :
      (s : Server) (body : Value) (ack : Option Text) → Step env s (post_send env s body ack).0
  learn_posted :
      (s : Server) (body : Value)
      → IsPrimitive (field (text "remoteId") body)
      → Step env s (post_learn env s body).0
  learn_deleted : (s : Server) → Step env s (delete_learn s).0
  timer_fired : (s : Server) (n : ℕ) → Step env s (on_timeout s n)
  message_received :
      (s s' : Server) (topic payload : Text)
      → on_message env s topic payload ≡ ok s'
      → Step env s s'
  mqtt_changed : (s : Server) (connected : Bool) → Step env s (on_mqtt connected s)
  client_connected : (s : Server) → Step env s (greet s)
  routine_posted :
      (s : Server) (body : Value)
      → IsPrimitive (field (text "id") body)
      → Step env s (post_routine env s body).0
  routine_deleted : (s : Server) (id : Text) → Step env s (delete_routine env s id).0
  rule_posted : (s : Server) (body : Value) → Step env s (post_rule env s body).0
  rule_deleted : (s : Server) (id : Text) → Step env s (delete_rule env s id).0
  prices_refreshed : (s : Server) (fetched : Fetched) → Step env s (refresh_prices s fetched)
  button_fired :
      (s : Server) (rid bid : Value) (ack : Option Text)
      → Step env s (fire_button env s rid bid ack).0
  rule_settled :
      (s : Server) (id : Value) (met : Bool)
      → Step env s (record s {
        rules = env.rule_db.assign id (λ r. record r { last_triggered_state = met }) s.rules;
      })
  event_told : (s : Server) (e : Event) → Step env s (broadcast e s)
  clock_ticked : (s : Server) (now : ℕ) → Step env s (record s { now = now })

-- One step after another.
pub data Reach (env : Env) (s : Server) : Server → Type 0 where
  here : Reach env s s
  next : {t u : Server} → Reach env s t → Step env t u → Reach env s u
