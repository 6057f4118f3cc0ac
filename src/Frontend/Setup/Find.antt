-- ===== src/Frontend/Setup/Find.antt =====
-- Looking for a hub, `setupFind`, and whether the browser can, `renderSetupSupport`.
pub mod Usable
pub mod Reachable
use irhub.Prelude.{
  ℕ, zero, suc, ◌+◌, ◌*◌, Bool, true, false, not, ◌||◌, List, [], ◌∷◌, ◌++◌, Option, none, some,
  Text, text, decimal, ◌==◌, if◌then◌else◌,
}
use irhub.Frontend.Setup.Status.{Kind, info, error}
use irhub.Frontend.Setup.Form.{Form}
use irhub.Frontend.Setup.Apply.{Page, toast, on_prov_status, reset_setup_ui}

-- What the hub gives to read, in the order in which `setupFind` reads it.
pub record Readings : Type 0 where
  pub status : List ℕ
  pub ssid : List ℕ
  pub host : List ℕ
  pub port : List ℕ

-- `getUint16(0, true)`
abbrev pub get_uint16 : List ℕ → ℕ
get_uint16 (low ∷ high ∷ rest) = low + 256 * high
get_uint16 _ = 0

-- `v || 1883`
abbrev pub port_or_default : ℕ → ℕ
port_or_default n = if n == 0 then 1883 else n

-- What each value that arrives does to the page. `decode` is `TextDecoder.decode`.
abbrev pub reads : (List ℕ → Text) → Readings → List (Page → Page)
reads decode hub =
    (λ p. on_prov_status hub.status p)
    ∷ (λ p. record p { form = record p.form { ssid = decode hub.ssid } })
    ∷ (λ p. record p { form = record p.form { host = decode hub.host } })
    ∷ (λ p. record p {
      form = record p.form { port = decimal (port_or_default (get_uint16 hub.port)) };
    })
    ∷ []

abbrev pub run_reads : ℕ → List (Page → Page) → Page → Page
run_reads n [] p = p
run_reads zero (f ∷ fs) p = p
run_reads (suc n) (f ∷ fs) p = run_reads n fs (f p)

-- How looking for a hub goes on: no device is chosen (with the message of the error, unless the user
-- closed the chooser); a device is, and connecting fails before its characteristics are known, or
-- behind the first n values, with the link up still or not; or all goes well.
pub data Outcome : Type 0 where
  no_device : (message : Option Text) → Outcome
  not_connected : (name : Option Text) → (message : Text) → (linked : Bool) → Outcome
  not_read :
      (name : Option Text)
      → (hub : Readings) → (n : ℕ) → (message : Text) → (linked : Bool) → Outcome
  found : (name : Option Text) → (hub : Readings) → Outcome

-- `device.name || 'IR Hub'`
abbrev pub name_or_default : Option Text → Text
name_or_default none = text "IR Hub"
name_or_default (some []) = text "IR Hub"
name_or_default (some (c ∷ s)) = c ∷ s

-- A device was chosen.
abbrev pub connecting : Option Text → Page → Page
connecting name p = record p {
  has_device = true;
  last_state = none;
  device_name = name_or_default name;
  find_label = text "Disconnect";
  status = (text "Connecting… your system may ask to pair with the hub.", info);
}

-- The `catch`: a link that is up is dropped, and the page hears of that later.
abbrev pub gave_up : Text → Bool → Page → Page
gave_up message linked p =
    let told = toast (text "Bluetooth: " ++ message) error p in
    if linked then told else reset_setup_ui told

abbrev pub searched : (List ℕ → Text) → Outcome → Page → Page
searched decode (no_device none) p = p
searched decode (no_device (some message)) p = toast (text "Bluetooth: " ++ message) error p
searched decode (not_connected name message linked) p = gave_up message linked (connecting name p)
searched decode (not_read name hub n message linked) p =
    gave_up message linked
      (run_reads n (reads decode hub) (record (connecting name p) { has_chars = true }))
searched decode (found name hub) p =
    let q = run_reads 4 (reads decode hub) (record (connecting name p) { has_chars = true }) in
    record q { form = record q.form { password = []; open_network = false }; form_disabled = false }

-- `setupFind()`: with a device it only drops the link, and the page hears of that later.
unfoldable pub setup_find : (List ℕ → Text) → Outcome → Page → Page
unfolding on_prov_status reset_setup_ui
setup_find decode outcome p = if p.has_device then p else searched decode outcome p

-- `renderSetupSupport()`: the message, and whether the button is disabled.
unfoldable pub render_setup_support : (is_secure_context has_bluetooth : Bool) → Text × Bool
render_setup_support is_secure_context has_bluetooth =
    if not is_secure_context
    then (
      text
          "Web Bluetooth only works on a secure page. Open this UI at http://localhost:8080 on the machine serving it, or over HTTPS.",
      true,
    )
    else if not has_bluetooth
    then (
      text
          "This browser has no Web Bluetooth. Use Chrome or Edge on desktop or Android (not Firefox or iOS Safari). On Linux, Chrome may need chrome://flags/#enable-experimental-web-platform-features.",
      true,
    )
    else ([], false)
