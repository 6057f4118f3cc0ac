-- ===== src/Frontend/Remotes/Mirror.antt =====
-- The page keeps a copy of the remotes; what a learned signal does to it, and to the backend.
use irhub.Prelude.{true, map, Text, ◌≡◌}
use irhub.Js.{Value, undefined, str}
use irhub.Backend.State.{Server}
use irhub.Frontend.Remotes.{Ui}
use irhub.Frontend.Remotes.Learn.{LearnResult}

-- The page holds what the backend stores.
abbrev pub IsMirror : Ui → Server → Type 0
IsMirror ui s = map ui.object ui.remotes ≡ s.remotes

-- The payload of `learn-result` for a signal that was stored.
abbrev pub success_of : Text → Text → Value → LearnResult
success_of rid bid signal = record {
  remote_id = str rid;
  button_id = str bid;
  success = true;
  signal = signal;
  error = undefined;
}
