-- ===== src/Tests/Hub.antt =====
-- The hub, with the form of the setup page.
use irhub.Prelude.{
  ℕ, true, [], ◌∷◌, ◌++◌, map, none, some, Text, text, All, ◌≡◌, ◌≢◌, refl, inl, arith,
  if◌then◌else◌,
}
use irhub.Js.{pos}
use irhub.Frontend.Setup.Encoding.{encode, utf8_from, split, digits_value}
use irhub.Frontend.Setup.Form.{is_ipv4}
use irhub.Frontend.Setup.Apply.{apply_writes, port_bytes}
use irhub.Frontend.Setup.Checks.{values_of}
use irhub.Firmware.NetConfig.{parse_ipv4, scan_parts, scan_digits, bounded_len}
use irhub.Firmware.NetConfig.Agrees.{parse_ipv4-is_ipv4}
use irhub.Firmware.Provision.{Hub, zeros, accepted, apply_values}
use irhub.Firmware.Provision.Settings.{settings, IsPasswordBuffer}
use irhub.Firmware.Provision.Accepts.{handed_off, apply_values-settings}
use irhub.Tests.Setup.{form, whole_number, form-passes}

abbrev address : Text
address = text "192.168.1.10"

address-no_nul : All (λ c. c ≢ 0) address
address-no_nul = omega arith

parse_ipv4-is_ipv4_example :
    parse_ipv4 (address ++ 0 ∷ zeros 3)
    ≡ (if is_ipv4 address then some (map (digits_value 0) (split 46 address)) else none)
parse_ipv4-is_ipv4_example = parse_ipv4-is_ipv4 (zeros 3) address address-no_nul

parse_ipv4_bytes : parse_ipv4 (address ++ 0 ∷ zeros 3) ≡ some (192 ∷ 168 ∷ 1 ∷ 10 ∷ [])
unfolding parse_ipv4 scan_parts scan_digits
parse_ipv4_bytes = refl

abbrev hub : Hub
hub = record {
  staged = record { ssid = zeros 33; password = zeros 64; broker_host = zeros 64; broker_port = 0 };
  handoff = none;
  signals = [];
  status = zeros 8;
  subscribed = true;
  notify_queue = [];
}

hub-IsPasswordBuffer : IsPasswordBuffer hub.staged.password
unfolding bounded_len
hub-IsPasswordBuffer = (0, refl, inl refl)

ssid-no_nul : All (λ c. c ≢ 0) (encode form.ssid)
unfolding utf8_from
ssid-no_nul = omega arith

password-no_nul : All (λ c. c ≢ 0) (encode form.password)
unfolding utf8_from
password-no_nul = omega arith

apply_values-settings_example :
    (n : ℕ) × (whole_number form.port ≡ some (pos n))
    × ((apply_values (values_of (apply_writes (port_bytes (whole_number form.port))) form) hub).0
        ≡ handed_off (settings form n hub.staged.password) hub)
    × All
        (λ a. a ≡ accepted)
        (apply_values (values_of (apply_writes (port_bytes (whole_number form.port))) form) hub).1
apply_values-settings_example =
    apply_values-settings whole_number (some 0) form hub form-passes ssid-no_nul password-no_nul
      hub-IsPasswordBuffer
