-- ===== src/Frontend/Setup/Apply.antt =====
-- The setup page, and what `setupApply` and `setupForget` write to the hub.
use irhub.Prelude.{
  ℕ, suc, ◌-◌, ◌/◌, ◌%◌, ◌^◌, Bool, true, false, ◌&&◌, List, [], ◌∷◌, ◌++◌, Option, none, some,
  Text, text, ltb, ◌==◌, if◌then◌else◌, length,
}
use irhub.Js.{ℤ, pos, negsuc}
use irhub.Backend.Slug.{trim}
use irhub.Frontend.Setup.Encoding.{encode}
use irhub.Frontend.Setup.Status.{
  Kind, info, error, ok, online, code, get_uint8, describe_prov_status,
}
use irhub.Frontend.Setup.Form.{Form, Problem, message, validate_setup_form}

-- A value that was written to a characteristic.
pub data Write : Type 0 where
  ssid password host port command : (bytes : List ℕ) → Write

-- The page, and what reached the hub. `has_chars` says whether `setup.chars` is set.
pub record Page : Type 0 where
  pub form : Form
  pub form_disabled : Bool
  pub password_disabled : Bool
  pub apply_disabled : Bool
  pub has_device : Bool
  pub has_chars : Bool
  pub last_state : Option ℕ
  pub device_name : Text
  pub find_label : Text
  pub status : Text × Kind
  pub toasts : List (Text × Kind)
  pub written : List Write

-- The link while `setupApply` runs: the message with which the i-th write is rejected, if it is,
-- and what other handlers do to the page before the i-th write and the end is reached.
pub record Link : Type 0 where
  pub rejects : ℕ → Write → Option Text
  pub meanwhile : ℕ → Page → Page

-- `setUint16(0, port, true)`: two bytes, the low one first, of the number modulo 2 ^ 16.
abbrev pub port_bytes : Option ℤ → List ℕ
port_bytes (some (pos n)) = n % 256 ∷ (n / 256 % 256) ∷ []
port_bytes (some (negsuc n)) = let m = 65535 - n % 2 ^ 16 in m % 256 ∷ (m / 256) ∷ []
port_bytes none = 0 ∷ 0 ∷ []

-- The write of the password: an open network has none, and an empty field keeps the hub's own.
abbrev pub password_write : Form → Option Write
password_write f =
    if f.open_network
    then some (password [])
    else if is_empty f.password
    then none
    else some (password (encode f.password))
  where
    is_empty : Text → Bool
    is_empty [] = true
    is_empty (c ∷ s) = false

-- The writes of `setupApply` in their order. All but the port read the form when their turn comes.
abbrev pub apply_writes : List ℕ → List (Form → Option Write)
apply_writes bytes =
    (λ f. some (ssid (encode f.ssid)))
    ∷ password_write
    ∷ (λ f. some (host (encode (trim f.host))))
    ∷ (λ f. some (port bytes))
    ∷ (λ f. some (command (0x01 ∷ [])))
    ∷ []

-- `await c.….writeValueWithResponse(…)`, the i-th one: the page, and the rejection's message.
abbrev pub write_one : Link → ℕ → Option Write → Page → Page × Option Text
write_one link i none p = (p, none)
write_one link i (some w) p = answered (link.rejects i w)
  where
    answered : Option Text → Page × Option Text
    answered (some reason) = (link.meanwhile i p, some reason)
    answered none = (link.meanwhile i (record p { written = p.written ++ w ∷ [] }), none)

abbrev pub unless_rejected : Page × Option Text → (Page → Page × Option Text) → Page × Option Text
unless_rejected (q, some reason) more = (q, some reason)
unless_rejected (q, none) more = more q

-- The writes from the i-th on, until one is rejected.
unfoldable pub write_all : Link → ℕ → List (Form → Option Write) → Page → Page × Option Text
write_all link i [] p = (p, none)
write_all link i (next ∷ more) p =
    unless_rejected (write_one link i (next p.form) p) (λ q. write_all link (suc i) more q)

abbrev pub toast : Text → Kind → Page → Page
toast s kind p = record p { toasts = p.toasts ++ (s, kind) ∷ [] }

-- The end of the `try`, the `catch` and the `finally` of `setupApply`.
abbrev pub applied : Page × Option Text → Page
applied (q, some reason) =
    record (toast (text "The hub rejected the settings: " ++ reason) error q) {
      apply_disabled = false;
    }
applied (q, none) = record q {
  form = record q.form { password = [] };
  status = (text "Settings sent — the hub is trying them…", info);
  apply_disabled = false;
}

abbrev pub apply_unless : (Text → Option ℤ) → Link → Page → Option Problem → Page
apply_unless number link p (some problem) = toast (message problem) error p
apply_unless number link p none = applied (
    write_all link 0 (apply_writes (port_bytes (number p.form.port)))
      (record p { apply_disabled = true }))

-- `setupApply()`
unfoldable pub setup_apply : (Text → Option ℤ) → Link → Page → Page
setup_apply number link p =
    if p.has_chars
    then apply_unless number link p (validate_setup_form number p.last_state p.form)
    else p

abbrev pub forgot : Page × Option Text → Page
forgot (q, some reason) = toast (text "Could not erase settings: " ++ reason) error q
forgot (q, none) = toast (text "Stored settings erased") ok q

-- `setupForget()`, with the answer to `confirm`.
unfoldable pub setup_forget : Bool → Link → Page → Page
setup_forget confirmed link p =
    if p.has_chars && confirmed then forgot (write_one link 0 (some (command (0x02 ∷ []))) p) else p

-- `onProvStatus(view)`
unfoldable pub on_prov_status : List ℕ → Page → Page
on_prov_status view p =
    if ltb (length view) 8
    then p
    else record p { last_state = some (get_uint8 view 0); status = describe_prov_status view }

-- `resetSetupUi()`
unfoldable pub reset_setup_ui : Page → Page
reset_setup_ui p = record p {
  has_device = false;
  has_chars = false;
  form_disabled = true;
  form = record p.form { password = [] };
  device_name = text "not connected";
  find_label = text "Find hub";
}

abbrev pub was_online : Option ℕ → Bool
was_online none = false
was_online (some state) = state == code online

-- `onSetupDisconnected()`
unfoldable pub on_setup_disconnected : Page → Page
unfolding reset_setup_ui
on_setup_disconnected p =
    let q = reset_setup_ui p in
    if was_online p.last_state
    then record q { status = (text "Hub is online — it has turned Bluetooth off.", ok) }
    else record q { status = (text "Disconnected from the hub.", info) }

-- `setupOpenNetwork.onchange`, with the box as it now stands.
unfoldable pub on_open_network : Bool → Page → Page
on_open_network checked p = record p {
  password_disabled = checked;
  form = record p.form {
    open_network = checked;
    password = if checked then [] else p.form.password;
  };
}
