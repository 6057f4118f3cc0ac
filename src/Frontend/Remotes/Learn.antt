-- ===== src/Frontend/Remotes/Learn.antt =====
-- What the page does with the result of a learn session, `onLearnResult`.
use irhub.Prelude.{
  ℕ, Bool, ◌&&◌, ◌||◌, not, Option, none, some, text, if◌then◌else◌, find, update_first,
}
use irhub.Js.{
  Value, num, of_ℕ, truthy, strict_eq, field, is_nullish, nullish_else, optional_length,
  string_throws,
}
use irhub.Backend.State.{Button, Remote}
use irhub.Frontend.Remotes.{
  Ui, Toast, clipped, learned, learn_failed, show, change, draw_all, stop_learning_ui,
}

-- The payload of `learn-result`.
pub record LearnResult : Type 0 where
  pub remote_id : Value
  pub button_id : Value
  pub success : Bool
  pub signal : Value
  pub error : Value

-- The toast on a learned signal, of which a clipped one is reported as an error.
abbrev pub learned_toast : Value → Value → Toast
learned_toast label signal =
    if truthy (field (text "truncated") signal) then clipped label else learned label

abbrev pub with_button : Value → Button → Button
with_button v b = record b { signal = v }

-- The change of one remote in `onLearnResult`: the first button under the id takes the signal.
abbrev pub give_signal : Value → Value → Remote → Remote
give_signal button_id v r = record r {
  buttons = update_first (λ (b : Button). strict_eq b.id button_id) (with_button v) r.buttons;
}

-- Whether `updateModalSignalInfo(signal)` throws a TypeError: a signal without pulses does, and one
-- of which it cannot print the carrier, the number of pulses or that of frames.
unfoldable pub info_throws : Value → Bool
unfolding optional_length string_throws nullish_else
info_throws signal =
    truthy signal
    && (is_nullish (field (text "pulses") signal)
        || string_throws (optional_length (field (text "pulses") signal))
        || string_throws (field (text "carrier_freq") signal)
        || not (truthy (field (text "truncated") signal))
          && string_throws (nullish_else (field (text "frame_count") signal) (num (of_ℕ 1))))

-- `if (button) …`, for the i-th object. If `updateModalSignalInfo` throws, the page holds the signal
-- but draws nothing; and a signal without pulses that it lets pass throws at the toast.
abbrev pub learned_button : LearnResult → Ui → ℕ → Option Button → Ui
learned_button payload ui i none = ui
learned_button payload ui i (some b) =
    let given = record ui {
      object = change i (give_signal payload.button_id payload.signal) ui.object;
    } in
    if info_throws payload.signal
    then given
    else if is_nullish (field (text "pulses") payload.signal)
    then draw_all given
    else show (learned_toast b.label payload.signal) (draw_all given)

-- The first remote under the id, and in it the first button.
abbrev pub learned_at : LearnResult → Ui → Option ℕ → Ui
learned_at payload ui none = ui
learned_at payload ui (some i) =
    learned_button payload ui i
      (find (λ (b : Button). strict_eq b.id payload.button_id) (ui.object i).buttons)

abbrev pub learn_ended : LearnResult → Ui → Ui
learn_ended payload ui =
    if payload.success
    then learned_at payload ui (find (λ i. strict_eq (ui.object i).id payload.remote_id) ui.remotes)
    else show (learn_failed payload.error) ui

-- `onLearnResult(payload)`: a result that nobody waits for is ignored.
unfoldable pub on_learn_result : LearnResult → Ui → Ui
on_learn_result payload ui = if ui.learning then learn_ended payload (stop_learning_ui ui) else ui
