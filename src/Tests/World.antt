-- ===== src/Tests/World.antt =====
-- A small database: a television with two buttons, one of them learned, a routine and a rule; and the
-- outside world, with stand-ins for lowdb, `JSON.parse` and `Date`.
use irhub.Prelude.{
  ℕ, true, false, List, [], ◌∷◌, Option, none, some, Text, text, text_eq, decimal, if◌then◌else◌,
}
use irhub.Js.{Value, null, num, str, arr, obj, nil, cons, end, prop, of_ℕ, finite, ℤ}
use irhub.Backend.Lowdb.Reference.{reference}
use irhub.Backend.State.{
  Button, Remote, RoutineStep, Routine, Rule, press, below, Session, Timer, Server, Env,
}

abbrev pub number : ℕ → Value
number n = num (of_ℕ n)

abbrev pub pulses : Value
pulses = arr (cons (number 9000) (cons (number 4500) nil))

abbrev pub signal : Value
signal = obj (prop (text "carrier_freq") (number 38000) (prop (text "pulses") pulses end))

abbrev pub price_block : Value
price_block = obj (
    prop (text "price") (number 3)
      (prop (text "startDate") (number 100) (prop (text "endDate") (number 200) end)))

abbrev pub parse : Text → Option Value
parse [] = none
parse (c ∷ s) = if text_eq (c ∷ s) (text "null") then some null else some signal

abbrev pub date_of : Value → Option ℤ
date_of (num (finite n k)) = some n
date_of _ = none

abbrev pub env : Env
env = record {
  remote_db = reference (λ r. r.id);
  button_db = reference (λ b. b.id);
  routine_db = reference (λ r. r.id);
  rule_db = reference (λ r. r.id);
  short_uuid = decimal;
  date_ms = date_of;
  to_number = λ _. none;
  learn_timeout_ms = number 15000;
  json_parse = parse;
}

abbrev pub power : Button
power = record {
  id = str (text "p");
  label = str (text "Power");
  row = number 0;
  col = number 0;
  icon = null;
  signal = signal;
}

abbrev pub mute : Button
mute = record {
  id = str (text "m");
  label = str (text "Mute");
  row = number 0;
  col = number 1;
  icon = null;
  signal = null;
}

abbrev pub tv : Remote
tv = record { id = str (text "tv"); name = text "TV"; icon = null; buttons = power ∷ mute ∷ [] }

abbrev pub steps : List RoutineStep
steps =
    record { remote_id = str (text "tv"); button_id = str (text "p"); delay_ms = number 0 }
    ∷ record { remote_id = str (text "tv"); button_id = str (text "m"); delay_ms = number 5 }
    ∷ []

abbrev pub evening : Routine
evening = record { id = str (text "r1"); name = text "Evening"; steps = steps }

abbrev pub cheap : Rule
cheap = record {
  id = str (text "c1");
  name = str (text "Cheap");
  enabled = true;
  condition = below;
  threshold_cents = of_ℕ 5;
  action = press (str (text "tv")) (str (text "p"));
  last_triggered_state = false;
}

abbrev pub home : Server
home = record {
  remotes = tv ∷ [];
  routines = evening ∷ [];
  rules = cheap ∷ [];
  learn_session = none;
  timers = [];
  next_timer = 1;
  price_cache = record { prices = arr (cons price_block nil); fetched_at = 90 };
  clients = record { ready_state = 1; received = [] } ∷ [];
  mqtt_connected = true;
  published = [];
  uuids = 0;
  now = 150;
}

abbrev pub session : Session
session = record {
  remote_id = str (text "tv");
  button_id = str (text "m");
  timer = 1;
  started_at = 140;
}

abbrev pub own_timer : Timer
own_timer = record {
  number = 1;
  remote_id = str (text "tv");
  button_id = str (text "m");
  timeout = number 15000;
}

-- The same house, while the button "Mute" is being learned.
abbrev pub learning : Server
learning = record home { learn_session = some session; timers = own_timer ∷ []; next_timer = 2 }
