-- ===== src/Frontend/Remotes/Signal/Verdict.antt =====
-- What the modal says of a signal, and what the backend does when the button is pressed.
use irhub.Prelude.{Option, some, Text}
use irhub.Js.{Value, Js}
use irhub.Backend.State.{Server, FireError, no_signal, truncated}
use irhub.Backend.Fire.{signal_payload, publish, publish_error}
use irhub.Frontend.Remotes.Signal.{SignalInfo, not_learned, clipped_by_hub}

-- What pressing the button comes to, by what the modal says of its signal.
abbrev pub pressed :
    Server → Value → Value → Value → Option Text → SignalInfo → Server × Option FireError
pressed s rid bid signal ack not_learned = (s, some (no_signal rid bid))
pressed s rid bid signal ack (clipped_by_hub html) = (s, some (truncated rid bid))
pressed s rid bid signal ack _ = (publish (signal_payload signal) s, publish_error ack)
