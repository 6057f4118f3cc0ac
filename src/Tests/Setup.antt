-- ===== src/Tests/Setup.antt =====
-- The setup page, with a form that is in order.
use irhub.Prelude.{
  ℕ, true, false, List, [], ◌∷◌, ◌++◌, Option, none, some, Text, text, text_eq, ◌≡◌, refl, ◌≤◌, ◌<◌,
  ◌+◌, ◌*◌, if◌then◌else◌, ◌==◌,
}
use irhub.Js.{ℤ, pos}
use irhub.Backend.Slug.{trim, is_space}
use irhub.Frontend.Setup.Encoding.{encode, byte_length, utf8_from}
use irhub.Frontend.Setup.Status.{info}
use irhub.Frontend.Setup.Form.{Form, is_ipv4, password_problem, validate_setup_form}
use irhub.Frontend.Setup.Apply.{
  apply_writes, port_bytes, Page, ssid, host, port, command, Link, setup_apply,
}
use irhub.Frontend.Setup.Partial.{IsPart, setup_apply-IsPart}
use irhub.Frontend.Setup.Checks.{
  values_of, IsPassword, IsPort, password_values, validate_setup_form_sound, setup_apply_sends,
}

abbrev pub form : Form
form = record {
  ssid = text "Café";
  password = text "password";
  open_network = false;
  host = text " 192.168.1.10 ";
  port = text "1883";
}

abbrev pub page : Page
page = record {
  form = form;
  form_disabled = false;
  password_disabled = false;
  apply_disabled = false;
  has_device = true;
  has_chars = true;
  last_state = some 0;
  device_name = text "IRHub-1A2B";
  find_label = text "Disconnect";
  status = (text "Connected to the hub.", info);
  toasts = [];
  written = [];
}

-- `Number`, of the one text that is needed.
abbrev pub whole_number : Text → Option ℤ
whole_number s = if text_eq s (text "1883") then some (pos 1883) else none

abbrev pub steady : Link
steady = record { rejects = λ _ _. none; meanwhile = λ _ q. q }

pub form-passes : validate_setup_form whole_number (some 0) form ≡ none
unfolding validate_setup_form byte_length utf8_from password_problem is_ipv4 trim is_space text_eq
form-passes = refl

validate_setup_form_sound_example :
    (1 ≤ byte_length form.ssid)
    × (byte_length form.ssid ≤ 32)
    × IsPassword form.open_network (byte_length form.password)
    × (is_ipv4 (trim form.host) ≡ true)
    × IsPort (whole_number form.port)
validate_setup_form_sound_example = validate_setup_form_sound whole_number (some 0) form form-passes

setup_apply_sends_example :
    (n low high : ℕ) × (whole_number page.form.port ≡ some (pos n))
    × (low < 256)
    × (high < 256)
    × (low + 256 * high ≡ n)
    × ((setup_apply whole_number steady page).written
        ≡ page.written
          ++ ssid (encode page.form.ssid)
            ∷ (password_values page.form
                ++ host (encode (trim page.form.host))
                  ∷ port (low ∷ high ∷ [])
                  ∷ command (1 ∷ [])
                  ∷ []))
    × ((setup_apply whole_number steady page).form.password ≡ [])
setup_apply_sends_example =
    setup_apply_sends whole_number steady page ((λ i w. refl), (λ i q. (refl, refl))) refl
      form-passes

-- A hub that takes the SSID and the password and rejects the address.
abbrev refusing : Link
refusing = record {
  rejects = λ i _. if i == 2 then some (text "GATT error") else none;
  meanwhile = λ _ q. q;
}

setup_apply-IsPart_example :
    IsPart page.written
      (setup_apply whole_number refusing page).written
      (values_of (apply_writes (port_bytes (whole_number page.form.port))) page.form)
    × ((setup_apply whole_number refusing page).apply_disabled ≡ false)
setup_apply-IsPart_example =
    setup_apply-IsPart whole_number refusing page (λ i q. (refl, refl)) refl form-passes

-- A status of eight bytes: online at 10.0.0.7.
abbrev pub online_view : List ℕ
online_view = 6 ∷ 0 ∷ 10 ∷ 0 ∷ 0 ∷ 7 ∷ 1 ∷ 1 ∷ []

cafe_bytes : encode (text "Café") ≡ 67 ∷ 97 ∷ 102 ∷ 195 ∷ 169 ∷ []
unfolding utf8_from
cafe_bytes = refl
