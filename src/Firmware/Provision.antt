-- ===== src/Firmware/Provision.antt =====
-- What the hub does with a value that the setup page writes: `apply_value` and `push_status` of
-- `firmware/src/ble_provision.cpp`.
pub mod Buffers
pub mod Hosts
pub mod Settings
pub mod Accepts
use irhub.Prelude.{
  ℕ, zero, suc, ◌+◌, ◌-◌, ◌*◌, Bool, true, false, not, List, [], ◌∷◌, ◌++◌, Option, none, some, ltb,
  ◌==◌, if◌then◌else◌, length,
}
use irhub.Frontend.Setup.Apply.{Write}
use irhub.Firmware.NetConfig.{NetConfig, Invalid, validate}
use irhub.Firmware.NetConfig.Invalid.{fine, bad_ssid, bad_password, bad_host, bad_port}

-- The notification bits for the network task.
pub data Signal : Type 0 where
  commit forget : Signal

-- The answer to a write: none of the errors of the ATT protocol, or one.
pub data Answer : Type 0 where
  accepted invalid_length not_allowed : Answer

-- `s_staged`, `s_handoff` when it is valid, the signals sent to the network task, `s_status`,
-- `s_subscribed`, and the notifications that wait, the oldest first.
pub record Hub : Type 0 where
  pub staged : NetConfig
  pub handoff : Option NetConfig
  pub signals : List Signal
  pub status : List ℕ
  pub subscribed : Bool
  pub notify_queue : List (List ℕ)

abbrev pub zeros : ℕ → List ℕ
zeros zero = []
zeros (suc n) = 0 ∷ zeros n

-- `set_text(dst, dst_size, data, len)`
unfoldable pub set_text : ℕ → List ℕ → List ℕ
set_text dst_size bytes = bytes ++ zeros (dst_size - length bytes)

abbrev drop_first : List (List ℕ) → List (List ℕ)
drop_first [] = []
drop_first (oldest ∷ more) = more

-- `push_status(s)`, for the bytes of s.
unfoldable pub push_status : List ℕ → Hub → Hub
push_status s h =
    if not h.subscribed
    then record h { status = s }
    else if length h.notify_queue == 4
    then record h { status = s; notify_queue = drop_first h.notify_queue ++ s ∷ [] }
    else record h { status = s; notify_queue = h.notify_queue ++ s ∷ [] }

-- The number of a reason, as a byte of the status.
abbrev pub reason : Invalid → ℕ
reason fine = 0
reason bad_ssid = 1
reason bad_password = 2
reason bad_host = 3
reason bad_port = 4

-- `Status{State::Invalid, (int8_t)why, {0, 0, 0, 0}, 0, Source::Candidate}`
abbrev pub invalid_status : Invalid → List ℕ
invalid_status why = 8 ∷ reason why ∷ 0 ∷ 0 ∷ 0 ∷ 0 ∷ 0 ∷ 1 ∷ []

-- The case `CMD_APPLY`.
unfoldable pub apply_staged : Hub → Hub × Answer
unfolding push_status
apply_staged h = judged (validate h.staged)
  where
    judged : Invalid → Hub × Answer
    judged fine =
        (record h { handoff = some h.staged; signals = h.signals ++ Signal.commit ∷ [] }, accepted)
    judged why = (push_status (invalid_status why) h, not_allowed)

-- The case `H_CMD`, for the bytes that were written.
unfoldable pub run_command : List ℕ → Hub → Hub × Answer
unfolding apply_staged
run_command (c ∷ []) h =
    if c == 0x01
    then apply_staged h
    else if c == 0x02
    then (record h { signals = h.signals ++ Signal.forget ∷ [] }, accepted)
    else (h, not_allowed)
run_command _ h = (h, invalid_length)

-- The case `H_PORT`, with `little_endian_read_16`.
unfoldable pub set_port : List ℕ → Hub → Hub × Answer
set_port (low ∷ high ∷ []) h =
    (record h { staged = record h.staged { broker_port = low + 256 * high } }, accepted)
set_port _ h = (h, invalid_length)

-- `field_cap(handle)`
abbrev pub field_cap : Write → ℕ
field_cap (Write.ssid bytes) = 32
field_cap (Write.password bytes) = 63
field_cap (Write.host bytes) = 63
field_cap (Write.port bytes) = 2
field_cap (Write.command bytes) = 1

abbrev pub bytes_of : Write → List ℕ
bytes_of (Write.ssid bytes) = bytes
bytes_of (Write.password bytes) = bytes
bytes_of (Write.host bytes) = bytes
bytes_of (Write.port bytes) = bytes
bytes_of (Write.command bytes) = bytes

-- The `switch` of `apply_value`.
unfoldable pub set_value : Write → Hub → Hub × Answer
unfolding set_text set_port run_command
set_value (Write.ssid bytes) h =
    (record h { staged = record h.staged { ssid = set_text 33 bytes } }, accepted)
set_value (Write.password bytes) h =
    (record h { staged = record h.staged { password = set_text 64 bytes } }, accepted)
set_value (Write.host bytes) h =
    (record h { staged = record h.staged { broker_host = set_text 64 bytes } }, accepted)
set_value (Write.port bytes) h = set_port bytes h
set_value (Write.command bytes) h = run_command bytes h

-- `apply_value(handle, data, len)`
unfoldable pub apply_value : Write → Hub → Hub × Answer
unfolding set_value
apply_value w h =
    if ltb (field_cap w) (length (bytes_of w)) then (h, invalid_length) else set_value w h

-- The writes of a client, one after the other, and the answers to them.
unfoldable pub apply_values : List Write → Hub → Hub × List Answer
unfolding apply_value
apply_values [] h = (h, [])
apply_values (w ∷ ws) h =
    let (h', answer) = apply_value w h in
    let (h'', answers) = apply_values ws h' in (h'', answer ∷ answers)
