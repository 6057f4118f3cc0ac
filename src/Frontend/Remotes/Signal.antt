-- ===== src/Frontend/Remotes/Signal.antt =====
-- What the modal of a button says about its signal: `updateModalSignalInfo` in `frontend/app.js`.
pub mod Verdict
use irhub.Prelude.{
  ℕ, Bool, true, false, Option, none, some, Text, text, ◌++◌, length, if◌then◌else◌, not,
}
use irhub.Js.{
  Value, undefined, null, num, str, arr, items, Number, of_ℕ, number_lt, truthy, nullish_else,
  field, member, Js, ok, type_error, ◌>>=◌,
}
use irhub.Frontend.Selects.{string_of}
use irhub.Frontend.Cards.{escape_html}

-- The text of the modal, with the class that colours it.
pub data SignalInfo : Type 0 where
  not_learned : SignalInfo
  clipped_by_hub : (html : Text) → SignalInfo
  several_frames : (html : Text) → SignalInfo
  whole_signal : (content : Text) → SignalInfo

-- `v.length`
abbrev pub length_of : Value → Js Value
length_of (arr xs) = ok (num (of_ℕ (length (items xs))))
length_of (str s) = ok (num (of_ℕ (length s)))
length_of v = member (text "length") v

-- `v > 1`, with `Number(v)` as an argument, which is nothing where that is NaN.
abbrev pub number_above_one : Option Number → Bool
number_above_one none = false
number_above_one (some n) = number_lt (of_ℕ 1) n

module _ (stringify : Value → Text) (to_number : Value → Option Number) where
  abbrev pub is_above_one : Value → Bool
  is_above_one (num n) = number_lt (of_ℕ 1) n
  is_above_one v = number_above_one (to_number v)

  -- `${signal.pulses.length} pulses @ ${signal.carrier_freq} Hz`
  abbrev pub base_of : Value → Value → Text
  base_of signal pulses =
      string_of stringify pulses
      ++ text " pulses @ "
      ++ string_of stringify (field (text "carrier_freq") signal)
      ++ text " Hz"

  abbrev pub clipped_html : Text → Text
  clipped_html base =
      escape_html base
      ++ text
          "<br><span class=\"text-[10px]\">clipped by the hub &mdash; re-learn this button</span>"

  abbrev pub several_html : Text → Value → Text
  several_html base frames =
      escape_html base
      ++ text "<br><span class=\"text-[10px]\">"
      ++ string_of stringify frames
      ++ text " frames &mdash; normal for A/C, otherwise you may have held the key</span>"

  abbrev pub info_of : Value → Text → Value → SignalInfo
  info_of signal base frames =
      if truthy (field (text "truncated") signal)
      then clipped_by_hub (clipped_html base)
      else if is_above_one frames
      then several_frames (several_html base frames)
      else whole_signal base

  -- `updateModalSignalInfo(signal)`: a signal without pulses ends in a TypeError.
  unfoldable pub update_modal_signal_info : Value → Js SignalInfo
  update_modal_signal_info signal =
      if not (truthy signal)
      then ok not_learned
      else (member (text "pulses") signal >>= λ pulses. length_of pulses >>= λ n. ok (
          info_of signal (base_of signal n)
            (nullish_else (field (text "frame_count") signal) (num (of_ℕ 1)))))
