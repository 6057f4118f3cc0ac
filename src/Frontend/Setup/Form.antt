-- ===== src/Frontend/Setup/Form.antt =====
-- The form of the setup page, and `validateSetupForm`.
use irhub.Prelude.{
  ℕ, Bool, true, false, ◌&&◌, ◌||◌, not, Option, none, some, Text, text, leb, ltb, ◌==◌,
  if◌then◌else◌, length, all, any,
}
use irhub.Js.{ℤ, pos}
use irhub.Backend.Slug.{trim}
use irhub.Frontend.Setup.Encoding.{byte_length, split, is_digit, digits_value}
use irhub.Frontend.Setup.Status.{unprovisioned, code}

-- The inputs of the page. `port` is a number input, whose value is a text.
pub record Form : Type 0 where
  pub ssid : Text
  pub password : Text
  pub open_network : Bool
  pub host : Text
  pub port : Text

-- What `validateSetupForm` complains of, one constructor to a message.
pub data Problem : Type 0 where
  ssid_length password_missing password_length host_format port_range : Problem

abbrev pub message : Problem → Text
message ssid_length = text "The SSID must be 1–32 bytes."
message password_missing = text "Enter the Wi-Fi password, or tick \"Open network\"."
message password_length = text "A WPA2 password is 8–63 characters."
message host_format = text "The broker must be an IPv4 address such as 192.168.1.100."
message port_range = text "The port must be 1–65535."

-- `/^\d{1,3}$/.test(o) && Number(o) <= 255`
abbrev pub is_octet : Text → Bool
is_octet o = all is_digit o && leb 1 (length o) && leb (length o) 3 && leb (digits_value 0 o) 255

-- `ipv4`
unfoldable pub is_ipv4 : Text → Bool
unfolding split
is_ipv4 s =
    let octets = split 46 s in
    (length octets == 4) && all is_octet octets && any (λ o. not (digits_value 0 o == 0)) octets

-- The problem of the password field, if any: it may stay empty for a network that is open, or
-- whose password the hub has.
unfoldable pub password_problem : Bool → Option ℕ → ℕ → Option Problem
password_problem true last_state n = none
password_problem false last_state n =
    if (n == 0) && is_unprovisioned last_state
    then some password_missing
    else if not (n == 0) && (ltb n 8 || ltb 63 n)
    then some password_length
    else none
  where
    is_unprovisioned : Option ℕ → Bool
    is_unprovisioned none = false
    is_unprovisioned (some state) = state == code unprovisioned

-- `!Number.isInteger(port) || port < 1 || port > 65535`, where `none` is no whole number.
abbrev pub is_port : Option ℤ → Bool
is_port (some (pos n)) = leb 1 n && leb n 65535
is_port _ = false

abbrev pub after_password : Text → Option ℤ → Option Problem → Option Problem
after_password s n (some problem) = some problem
after_password s n none =
    if not (is_ipv4 s) then some host_format else if not (is_port n) then some port_range else none

-- `validateSetupForm()`. `number` is `Number(text)` where that is a whole number.
unfoldable pub validate_setup_form : (Text → Option ℤ) → Option ℕ → Form → Option Problem
validate_setup_form number last_state f =
    if ltb (byte_length f.ssid) 1 || ltb 32 (byte_length f.ssid)
    then some ssid_length
    else after_password (trim f.host) (number f.port)
        (password_problem f.open_network last_state (byte_length f.password))
