-- ===== src/Firmware/Provision/Settings.antt =====
-- The settings that a form stands for, and that they pass `validate`.
use irhub.Prelude.{
  ℕ, ◌-◌, ◌≤◌, ◌<◌, true, false, List, [], ◌∷◌, Option, none, some, is_some, length, All, ◌≡◌, ◌≢◌,
  refl, ◌⊎◌, inl, inr, Bool-cases, Text, arith, if_true, if_false,
}
use irhub.Backend.Slug.{trim}
use irhub.Frontend.Setup.Encoding.{encode, byte_length}
use irhub.Frontend.Setup.Form.{Form, is_ipv4}
use irhub.Frontend.Setup.Apply.{Write, password, password_write}
use irhub.Frontend.Setup.Checks.{IsPassword}
use irhub.Firmware.NetConfig.{NetConfig, fine, bounded_len, parse_ipv4, validate}
use irhub.Firmware.NetConfig.Agrees.{parse_ipv4-is_ipv4}
use irhub.Firmware.Provision.{zeros, set_text}
use irhub.Firmware.Provision.Buffers.{set_text_lem, bounded_len-set_text}
use irhub.Firmware.Provision.Hosts.{is_ipv4-encode}

-- A buffer that holds no password, or one of 8 to 63 bytes.
abbrev pub IsPasswordBuffer : List ℕ → Type 0
IsPasswordBuffer buffer =
    (n : ℕ) × (bounded_len buffer ≡ (n, true)) × ((n ≡ 0) ⊎ ((8 ≤ n) × (n ≤ 63)))

-- The password of the settings: what the form sends, or what the hub has.
abbrev pub password_buffer : Option Write → List ℕ → List ℕ
password_buffer (some (password bytes)) kept = set_text 64 bytes
password_buffer _ kept = kept

-- The settings that a form and its port stand for.
abbrev pub settings : Form → ℕ → List ℕ → NetConfig
settings f n kept = record {
  ssid = set_text 33 (encode f.ssid);
  password = password_buffer (password_write f) kept;
  broker_host = set_text 64 (trim f.host);
  broker_port = n;
}

validate_fine :
    (c : NetConfig) (m k : ℕ)
    → bounded_len c.ssid ≡ (m, true)
    → 1 ≤ m
    → m ≤ 32
    → IsPasswordBuffer c.password
    → bounded_len c.broker_host ≡ (k, true)
    → 1 ≤ k
    → is_some (parse_ipv4 c.broker_host) ≡ true
    → c.broker_port ≢ 0
    → validate c ≡ fine
unfolding validate
validate_fine c m k its_ssid least most (n, its_password, long) its_host named address its_port =
    rw (its_ssid, its_password, its_host, address) (ground arith)

pub password_write-cases :
    (f : Form)
    → ((f.open_network ≡ true) × (password_write f ≡ some (password [])))
      ⊎ ((f.open_network ≡ false)
          × ((password_write f ≡ none) ⊎ (password_write f ≡ some (password (encode f.password)))))
password_write-cases f = elim (Bool-cases f.open_network) [
  | inl free ↦ inl (free, if_true _ _ free)
  | inr closed ↦ inr (closed, by_text f.password closed)
]
  where
    by_text :
        (s : Text)
        → f.open_network ≡ false
        → (password_write (record f { password = s }) ≡ none)
          ⊎ (password_write (record f { password = s }) ≡ some (password (encode s)))
    by_text [] closed = inl (if_false _ _ closed)
    by_text (c ∷ s) closed = inr (if_false _ _ closed)

pub password_fits :
    (f : Form)
    → IsPassword f.open_network (byte_length f.password)
    → f.open_network ≡ false
    → length (encode f.password) ≤ 63
unfolding byte_length
password_fits f (inl free) closed = cc
password_fits f (inr (inl len)) closed = omega arith
password_fits f (inr (inr len)) closed = omega arith

password_buffer-IsPasswordBuffer :
    (f : Form) (kept : List ℕ)
    → IsPassword f.open_network (byte_length f.password)
    → All (λ c. c ≢ 0) (encode f.password)
    → IsPasswordBuffer kept
    → IsPasswordBuffer (password_buffer (password_write f) kept)
unfolding byte_length
password_buffer-IsPasswordBuffer f kept good nul old = elim (password_write-cases f) [
  | inl (free, e) ↦ rw e (0, bounded_len-set_text 64 [] (omega arith) tt, inl refl)
  | inr (closed, inl e) ↦ rw e old
  | inr (closed, inr e) ↦ rw e (
    length (encode f.password),
    bounded_len-set_text 64 (encode f.password) (omega (arith, password_fits f good closed)) nul,
    length_good good closed,
  )
]
  where
    length_good :
        IsPassword f.open_network (length (encode f.password))
        → f.open_network ≡ false
        → (length (encode f.password) ≡ 0)
          ⊎ ((8 ≤ length (encode f.password)) × (length (encode f.password) ≤ 63))
    length_good (inl free) closed = cc
    length_good (inr len) closed = len

-- The settings of a form that passes are valid.
pub settings_valid :
    (f : Form) (n : ℕ) (kept : List ℕ)
    → 1 ≤ byte_length f.ssid
    → byte_length f.ssid ≤ 32
    → IsPassword f.open_network (byte_length f.password)
    → is_ipv4 (trim f.host) ≡ true
    → 1 ≤ n
    → All (λ c. c ≢ 0) (encode f.ssid)
    → All (λ c. c ≢ 0) (encode f.password)
    → IsPasswordBuffer kept
    → validate (settings f n kept) ≡ fine
unfolding byte_length
settings_valid f n kept least most good address some_port ssid_nul password_nul old =
    let (same, host_nul, some_host, short) = is_ipv4-encode (trim f.host) address in
    validate_fine (settings f n kept) (length (encode f.ssid)) (length (trim f.host))
      (bounded_len-set_text 33 (encode f.ssid) (omega arith) ssid_nul) least most
      (password_buffer-IsPasswordBuffer f kept good password_nul old)
      (bounded_len-set_text 64 (trim f.host) (omega arith) host_nul) some_host
      (parsed (trim f.host) host_nul (omega arith) address) (omega arith)
  where
    parsed :
        (s : Text)
        → All (λ c. c ≢ 0) s
        → length s < 64
        → is_ipv4 s ≡ true
        → is_some (parse_ipv4 (set_text 64 s)) ≡ true
    parsed s nul len good_address =
        rw
          (
            set_text_lem 64 s len,
            parse_ipv4-is_ipv4 (zeros (64 - length s - 1)) s nul,
            good_address,
          )
          refl
