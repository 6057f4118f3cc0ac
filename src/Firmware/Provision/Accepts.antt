-- ===== src/Firmware/Provision/Accepts.antt =====
-- The hub takes what the setup page sends for a form that passes.
use irhub.Prelude.{
  ℕ, ◌+◌, ◌*◌, ◌%◌, ◌/◌, ◌≤◌, false, List, [], ◌∷◌, ◌++◌, Option, none, some, length, All, ◌≡◌, ◌≢◌,
  refl, ap, inl, inr, Text, arith, ltb, if_false,
}
use irhub.Js.{ℤ, pos}
use irhub.Backend.Slug.{trim}
use irhub.Frontend.Setup.Encoding.{encode, byte_length}
use irhub.Frontend.Setup.Form.{Form, validate_setup_form}
use irhub.Frontend.Setup.Apply.{
  Write, ssid, password, host, port, command, port_bytes, password_write, apply_writes,
}
use irhub.Frontend.Setup.Checks.{values_of, with_value, IsPassword, validate_setup_form_sound}
use irhub.Firmware.NetConfig.{NetConfig, fine, validate}
use irhub.Firmware.Provision.{
  Hub, accepted, commit, set_text, apply_staged, run_command, set_port, set_value, apply_value,
  apply_values,
}
use irhub.Firmware.Provision.Hosts.{is_ipv4-encode}
use irhub.Firmware.Provision.Settings.{
  IsPasswordBuffer, password_buffer, settings, password_write-cases, password_fits, settings_valid,
}

apply_staged_fine :
    (h : Hub)
    → validate h.staged ≡ fine
    → apply_staged h
      ≡ (record h { handoff = some h.staged; signals = h.signals ++ commit ∷ [] }, accepted)
unfolding apply_staged
apply_staged_fine h e = rw e refl

-- A value within the cap is set.
module _ (bytes : List ℕ) (h : Hub) where
  apply_value-ssid :
      length bytes ≤ 32
      → apply_value (ssid bytes) h
        ≡ (record h { staged = record h.staged { ssid = set_text 33 bytes } }, accepted)
  unfolding apply_value set_value
  apply_value-ssid short =
      let within : ltb 32 (length bytes) ≡ false = ground arith in if_false _ _ within

  apply_value-password :
      length bytes ≤ 63
      → apply_value (password bytes) h
        ≡ (record h { staged = record h.staged { password = set_text 64 bytes } }, accepted)
  unfolding apply_value set_value
  apply_value-password short =
      let within : ltb 63 (length bytes) ≡ false = ground arith in if_false _ _ within

  apply_value-host :
      length bytes ≤ 63
      → apply_value (host bytes) h
        ≡ (record h { staged = record h.staged { broker_host = set_text 64 bytes } }, accepted)
  unfolding apply_value set_value
  apply_value-host short =
      let within : ltb 63 (length bytes) ≡ false = ground arith in if_false _ _ within

apply_value-port :
    (n : ℕ) (h : Hub)
    → n ≤ 65535
    → apply_value (port (n % 256 ∷ (n / 256 % 256) ∷ [])) h
      ≡ (record h { staged = record h.staged { broker_port = n } }, accepted)
unfolding apply_value set_value set_port
apply_value-port n h most =
    let e : n % 256 + 256 * (n / 256 % 256) ≡ n = omega arith in
    ap (λ k. (record h { staged = record h.staged { broker_port = k } }, accepted)) e

-- What the hub comes to when the settings are handed off.
abbrev pub handed_off : NetConfig → Hub → Hub
handed_off c h = record h { staged = c; handoff = some c; signals = h.signals ++ commit ∷ [] }

apply_value-apply :
    (h : Hub)
    → validate h.staged ≡ fine
    → apply_value (command (1 ∷ [])) h ≡ (handed_off h.staged h, accepted)
unfolding apply_value set_value run_command
apply_value-apply h valid = apply_staged_fine h valid

-- The writes are all accepted, and leave the hub in the given state.
abbrev Accepts : List Write → Hub → Hub → Type 0
Accepts ws h h' = ((apply_values ws h).0 ≡ h') × All (λ a. a ≡ accepted) (apply_values ws h).1

Accepts-cons :
    (w : Write) (ws : List Write) (h h' h'' : Hub)
    → apply_value w h ≡ (h', accepted)
    → Accepts ws h' h''
    → Accepts (w ∷ ws) h h''
unfolding apply_values
Accepts-cons w ws h h' h'' e rest = rw e (rest.0, (refl, rest.1))

module _ (f : Form) (n : ℕ) (short : length (trim f.host) ≤ 15) (most : n ≤ 65535) where
  abbrev last_writes : List Write
  last_writes = host (trim f.host) ∷ port (n % 256 ∷ (n / 256 % 256) ∷ []) ∷ command (1 ∷ []) ∷ []

  abbrev last_settings : NetConfig → NetConfig
  last_settings c = record c { broker_host = set_text 64 (trim f.host); broker_port = n }

  last_accepted :
      (h : Hub)
      → validate (last_settings h.staged) ≡ fine
      → Accepts last_writes h (handed_off (last_settings h.staged) h)
  unfolding apply_values
  last_accepted h valid =
      let with_host : Hub = record h {
        staged = record h.staged { broker_host = set_text 64 (trim f.host) };
      } in
      let with_port : Hub = record h { staged = last_settings h.staged } in
      let its_port : Write = port (n % 256 ∷ (n / 256 % 256) ∷ []) in
      let apply : Write = command (1 ∷ []) in
      Accepts-cons (host (trim f.host)) (its_port ∷ apply ∷ []) h with_host _
        (apply_value-host (trim f.host) h (omega arith))
        (Accepts-cons its_port (apply ∷ []) with_host with_port _
          (apply_value-port n with_host most)
          (Accepts-cons apply [] with_port (handed_off (last_settings h.staged) h) _
            (apply_value-apply with_port valid) (refl, tt {0})))

  -- The password, if one is sent, and what follows it.
  password_accepted :
      (h : Hub)
      → IsPassword f.open_network (byte_length f.password)
      → validate (
          last_settings
            (record h.staged { password = password_buffer (password_write f) h.staged.password }))
        ≡ fine
      → Accepts (with_value (password_write f) last_writes) h (
          handed_off
            (last_settings
              (record h.staged { password = password_buffer (password_write f) h.staged.password }))
            h)
  password_accepted h good valid = elim (password_write-cases f) [
    | inl (free, e) ↦ rw e (step [] (omega arith) (rw e at valid))
    | inr (closed, inl e) ↦ rw e (last_accepted h (rw e at valid))
    | inr (closed, inr e) ↦
        rw e (step (encode f.password) (password_fits f good closed) (rw e at valid))
  ]
    where
      step :
          (bytes : List ℕ)
          → length bytes ≤ 63
          → validate (last_settings (record h.staged { password = set_text 64 bytes })) ≡ fine
          → Accepts
              (password bytes ∷ last_writes)
              h
              (handed_off (last_settings (record h.staged { password = set_text 64 bytes })) h)
      step bytes len ok_now =
          let h' : Hub = record h { staged = record h.staged { password = set_text 64 bytes } } in
          Accepts-cons (password bytes) last_writes h h' _ (apply_value-password bytes h len)
            (last_accepted h' ok_now)

-- For a form that passes the checks of the page, with no NUL in its SSID or its password, and a hub
-- whose own password is empty or of 8 to 63 bytes: the hub accepts every value that `setupApply`
-- writes, hands off to the network task exactly the settings that the form stands for (its own
-- password where the form sends none), signals that once, and keeps its status.
pub apply_values-settings :
    (number : Text → Option ℤ) (last : Option ℕ) (f : Form) (h : Hub)
    → validate_setup_form number last f ≡ none
    → All (λ c. c ≢ 0) (encode f.ssid)
    → All (λ c. c ≢ 0) (encode f.password)
    → IsPasswordBuffer h.staged.password
    → (n : ℕ) × (number f.port ≡ some (pos n))
      × ((apply_values (values_of (apply_writes (port_bytes (number f.port))) f) h).0
          ≡ handed_off (settings f n h.staged.password) h)
      × All
          (λ a. a ≡ accepted)
          (apply_values (values_of (apply_writes (port_bytes (number f.port))) f) h).1
unfolding byte_length
apply_values-settings number last f h passes ssid_nul password_nul old =
    let (least, most, good, address, (n, its_port, some_port, max_port)) =
      validate_setup_form_sound number last f passes in
    let (same, host_nul, some_host, short) = is_ipv4-encode (trim f.host) address in
    let h' : Hub = record h { staged = record h.staged { ssid = set_text 33 (encode f.ssid) } } in
    let (ends, takes) =
      Accepts-cons (ssid (encode f.ssid))
        (with_value (password_write f) (last_writes f n short max_port)) h h' _
        (apply_value-ssid (encode f.ssid) h most)
        (password_accepted f n short max_port h' good (
          settings_valid f n h.staged.password least most good address some_port ssid_nul
            password_nul old)) in
    (n, its_port, rw (its_port, same) ends, rw (its_port, same) takes)
