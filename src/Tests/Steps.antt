-- ===== src/Tests/Steps.antt =====
-- A run of the backend: learn mode is armed again for another button, and its timer fires.
use irhub.Prelude.{text, text_eq, refl, arith}
use irhub.Js.{Value, str, obj, end, prop, field, lookup_or, strict_eq}
use irhub.Backend.Lowdb.Unique.{HasUniqueIds}
use irhub.Backend.Learn.{post_learn, on_timeout}
use irhub.Backend.Remotes.Lookup.{remote_key}
use irhub.Backend.Routines.Store.{routine_key}
use irhub.Backend.Steps.{Step, Reach}
use irhub.Backend.Steps.Sound.{IsSound, Reach-IsSound}
use irhub.Tests.World.{env, own_timer, learning}

abbrev learn_power : Value
learn_power =
    obj (prop (text "remoteId") (str (text "tv")) (prop (text "buttonId") (str (text "p")) end))

learning-HasUniqueRemotes : HasUniqueIds remote_key learning.remotes
unfolding strict_eq
learning-HasUniqueRemotes = λ t. ground arith

learning-HasUniqueRoutines : HasUniqueIds routine_key learning.routines
unfolding strict_eq
learning-HasUniqueRoutines = λ t. ground arith

Reach-IsSound_example : IsSound (on_timeout (post_learn env learning learn_power).0 2)
unfolding field lookup_or text_eq
Reach-IsSound_example =
    Reach-IsSound env learning (on_timeout (post_learn env learning learn_power).0 2)
      (
        (own_timer, refl, refl, refl, refl),
        (tt, learning-HasUniqueRemotes, learning-HasUniqueRoutines),
      )
      (Reach.next (Reach.next Reach.here (Step.learn_posted learning learn_power tt))
        (Step.timer_fired (post_learn env learning learn_power).0 2))
