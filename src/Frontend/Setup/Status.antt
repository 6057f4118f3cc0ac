-- ===== src/Frontend/Setup/Status.antt =====
-- The status characteristic of the hub: `describeProvStatus`, with the codes of `PROV_STATE`.
use irhub.Prelude.{
  ℕ, List, [], ◌∷◌, ◌++◌, Option, none, some, Text, text, ltb, ◌==◌, if◌then◌else◌, find, get_elem?,
  decimal,
}

pub data Kind : Type 0 where
  info error ok : Kind

-- `PROV_STATE`
pub data ProvState : Type 0 where
  unprovisioned idle wifi_connecting wifi_failed mqtt_connecting : ProvState
  mqtt_failed online reverted invalid save_failed : ProvState

abbrev pub code : ProvState → ℕ
code unprovisioned = 0
code idle = 1
code wifi_connecting = 2
code wifi_failed = 3
code mqtt_connecting = 4
code mqtt_failed = 5
code online = 6
code reverted = 7
code invalid = 8
code save_failed = 9

abbrev pub prov_states : List ProvState
prov_states =
    unprovisioned ∷ idle ∷ wifi_connecting ∷ wifi_failed ∷ mqtt_connecting ∷ mqtt_failed ∷ online
    ∷ reverted ∷ invalid ∷ save_failed ∷ []

-- The `case` that a state byte selects.
unfoldable pub prov_state_of : ℕ → Option ProvState
prov_state_of n = find (λ state. code state == n) prov_states

-- `view.getUint8(i)`, which the callers use within the view.
abbrev pub get_uint8 : List ℕ → ℕ → ℕ
get_uint8 view i = or_zero (get_elem? view i)
  where
    or_zero : Option ℕ → ℕ
    or_zero none = 0
    or_zero (some n) = n

-- `texts[i] || fallback` for texts of which none is empty but the first, at an index from 0 on.
abbrev pub text_at : List Text → ℕ → Text → Text
text_at texts i fallback = pick (get_elem? texts i)
  where
    pick : Option Text → Text
    pick none = fallback
    pick (some []) = fallback
    pick (some (c ∷ s)) = c ∷ s

-- `texts[view.getInt8(1)] || fallback`: a negative index has no text.
abbrev pub reason_text : List Text → ℕ → Text → Text
reason_text texts reason fallback =
    if ltb reason 128 then text_at texts reason fallback else fallback

abbrev pub source_text : List ℕ → Text
source_text view =
    text_at (text "stored settings" ∷ text "new settings" ∷ text "build defaults" ∷ [])
      (get_uint8 view 7) (text "settings")

-- `nth`
abbrev pub attempt_text : ℕ → Text
attempt_text attempt =
    if ltb 1 attempt then text " (attempt " ++ decimal attempt ++ text ")" else []

abbrev pub ip_text : List ℕ → Text
ip_text view =
    decimal (get_uint8 view 2)
    ++ text "."
    ++ decimal (get_uint8 view 3)
    ++ text "."
    ++ decimal (get_uint8 view 4)
    ++ text "."
    ++ decimal (get_uint8 view 5)

abbrev pub wifi_reasons : List Text
wifi_reasons =
    text "Wi-Fi failed"
    ∷ text "Wi-Fi network not found or not answering"
    ∷ text "Wrong Wi-Fi password"
    ∷ text "Wi-Fi connection failed"
    ∷ []

abbrev pub mqtt_reasons : List Text
mqtt_reasons =
    text "MQTT failed"
    ∷ text "MQTT broker did not answer"
    ∷ text "MQTT broker refused the connection"
    ∷ text "Could not reach the MQTT broker"
    ∷ []

abbrev pub invalid_fields : List Text
invalid_fields = [] ∷ text "SSID" ∷ text "password" ∷ text "broker IP" ∷ text "port" ∷ []

-- ` (${source})${nth}.`
abbrev pub failure_tail : List ℕ → Text
failure_tail view =
    text " (" ++ source_text view ++ text ")" ++ attempt_text (get_uint8 view 6) ++ text "."

-- The `switch` of `describeProvStatus(view)`, on the state.
unfoldable pub describe_state : Option ProvState → List ℕ → Text × Kind
describe_state (some unprovisioned) view =
    (text "The hub has no settings yet — enter them below.", info)
describe_state (some idle) view = (text "Connected to the hub.", info)
describe_state (some wifi_connecting) view = (
  text "Joining Wi-Fi with " ++ source_text view ++ attempt_text (get_uint8 view 6) ++ text "…",
  info,
)
describe_state (some wifi_failed) view =
    (reason_text wifi_reasons (get_uint8 view 1) (text "Wi-Fi failed") ++ failure_tail view, error)
describe_state (some mqtt_connecting) view = (
  text "Wi-Fi OK, connecting to the MQTT broker with "
      ++ source_text view
      ++ attempt_text (get_uint8 view 6)
      ++ text "…",
  info,
)
describe_state (some mqtt_failed) view =
    (reason_text mqtt_reasons (get_uint8 view 1) (text "MQTT failed") ++ failure_tail view, error)
describe_state (some online) view = (text "Online at " ++ ip_text view ++ text " ✓", ok)
describe_state (some reverted) view =
    (text "The new settings did not work — the hub kept its previous settings.", error)
describe_state (some invalid) view = (
  text "The hub rejected the "
      ++ reason_text invalid_fields (get_uint8 view 1) (text "settings")
      ++ text ".",
  error,
)
describe_state (some save_failed) view = (
  text "Online, but the settings could not be saved to flash — they will be lost on reboot.",
  error,
)
describe_state none view = (text "Unknown status " ++ decimal (get_uint8 view 0) ++ text ".", info)

-- `describeProvStatus(view)`
unfoldable pub describe_prov_status : List ℕ → Text × Kind
describe_prov_status view = describe_state (prov_state_of (get_uint8 view 0)) view
