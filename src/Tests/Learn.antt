-- ===== src/Tests/Learn.antt =====
-- Learning a button, and pressing it.
use irhub.Prelude.{none, some, text, text_eq, text_eq_ne, ◌≡◌, refl, inr, ◌⊎◌}
use irhub.Js.{
  str, ok, truthy, field, lookup_or, strict_eq, number_eq, string_throws, has_own, optional_length,
  nullish_else,
}
use irhub.Backend.State.{Button, Server, find_button}
use irhub.Backend.Fire.{signal_payload, publish, publish_error, fire_button}
use irhub.Backend.Fire.Agree.{IsSendable, fire_button_published}
use irhub.Backend.Learn.{on_message, log_throws}
use irhub.Backend.Learn.Timers.{HasOwnTimer}
use irhub.Backend.Learn.Results.{fire_after_learn}
use irhub.Tests.World.{signal, env, mute, home, session, own_timer, learning}

learning-HasOwnTimer : HasOwnTimer learning
learning-HasOwnTimer = (own_timer, refl, refl, refl, refl)

fire_after_learn_example :
    (s' : Server) × (on_message env learning (text "irhub/learned") (text "{}") ≡ ok s')
    × (fire_button env s' (str (text "tv")) (str (text "m")) none
        ≡ (publish (signal_payload signal) s', publish_error none))
    × (find_button env s'.remotes (str (text "tv")) (str (text "p"))
        ≡ find_button env learning.remotes (str (text "tv")) (str (text "p")))
unfolding truthy field lookup_or text_eq strict_eq number_eq find_button log_throws string_throws
    has_own optional_length nullish_else
fire_after_learn_example =
    fire_after_learn env learning (text "{}") (text "tv") (text "m") (text "tv") (text "p") session
      signal mute none refl learning-HasOwnTimer refl refl refl refl refl refl refl
      (inr (text_eq_ne _ _ refl))

fire_button_published_example :
    ((fire_button env home (str (text "tv")) (str (text "m")) none).0 ≡ home)
    ⊎ ((b : Button) × (find_button env home.remotes (str (text "tv")) (str (text "m")) ≡ some b)
        × IsSendable b
        × ((fire_button env home (str (text "tv")) (str (text "m")) none).0
            ≡ publish (signal_payload b.signal) home))
fire_button_published_example =
    fire_button_published env home (str (text "tv")) (str (text "m")) none
