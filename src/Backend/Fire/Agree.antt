-- ===== src/Backend/Fire/Agree.antt =====
-- What is published, and when; `POST /api/send` and `fireButton` do the same.
use irhub.Prelude.{
  ◌&&◌, true, false, Option, none, some, Text, text, if◌then◌else◌, ◌≡◌, refl, arith, ◌⊎◌, inl, inr,
  Bool-cases,
}
use irhub.Js.{Value, truthy, field}
use irhub.Backend.State.{
  Button, Server, Env, FireError, not_found, no_signal, truncated, find_button,
}
use irhub.Backend.Http.{
  Reply, json, error, sent, ids_required, button_not_found, no_learned_signal, signal_truncated,
  publish_refused,
}
use irhub.Backend.Fire.{
  signal_payload, publish, publish_error, fire_found, fire_button, send_found, post_send,
}

-- A button whose signal may be sent: it is learned and not truncated.
abbrev pub IsSendable : Button → Type 0
IsSendable b = (truthy b.signal ≡ true) × (truthy (field (text "truncated") b.signal) ≡ false)

-- How `POST /api/send` answers each way in which `fireButton` ends.
abbrev pub reply_of : Value → Value → Option FireError → Reply
reply_of remote_id button_id none = json 200 (sent remote_id button_id)
reply_of remote_id button_id (some (not_found _ _)) = json 404 (error button_not_found)
reply_of remote_id button_id (some (no_signal _ _)) = json 409 (error no_learned_signal)
reply_of remote_id button_id (some (truncated _ _)) = json 409 (error signal_truncated)
reply_of remote_id button_id (some _) = json 502 (error publish_refused)

send_found-fire_found :
    (s : Server) (rid bid : Value) (ack : Option Text) (o : Option Button)
    → send_found s rid bid ack o
      ≡ ((fire_found s rid bid ack o).0, reply_of rid bid (fire_found s rid bid ack o).1)
unfolding send_found fire_found
send_found-fire_found s rid bid ack none = refl
send_found-fire_found s rid bid none (some b) = ground arith
send_found-fire_found s rid bid (some e) (some b) = ground arith

-- `POST /api/send` agrees with `fireButton`, whose code it repeats. With both ids given it leaves
-- the state that `fireButton` leaves, and answers 200, 404, 409, 409 or 502 as that resolves, or
-- rejects for a missing button, a missing signal, a truncated signal or a failed publish. Without
-- one of them it answers 400 and does nothing.
pub post_send-fire_button :
    (env : Env) (s : Server) (body : Value) (ack : Option Text)
    → post_send env s body ack ≡ (
        let rid = field (text "remoteId") body in
        let bid = field (text "buttonId") body in
        let fired = fire_button env s rid bid ack in
        if truthy rid && truthy bid
        then (fired.0, reply_of rid bid fired.1)
        else (s, json 400 (error ids_required)))
unfolding post_send fire_button
post_send-fire_button env s body ack = elim (Bool-cases (truthy (field (text "remoteId") body))) [
  | inr r ↦ rw r
  | inl r ↦ elim (Bool-cases (truthy (field (text "buttonId") body))) [
    | inr b ↦ rw (r, b)
    | inl b ↦ rw (r, b) (send_found-fire_found s _ _ ack _)
  ]
]

fire_found_published :
    (s : Server) (rid bid : Value) (ack : Option Text) (o : Option Button)
    → ((fire_found s rid bid ack o).0 ≡ s)
      ⊎ ((b : Button) × (o ≡ some b)
          × IsSendable b
          × ((fire_found s rid bid ack o).0 ≡ publish (signal_payload b.signal) s))
unfolding fire_found
fire_found_published s rid bid ack none = inl refl
fire_found_published s rid bid ack (some b) = elim (Bool-cases (truthy b.signal)) [
  | inr unlearned ↦ inl (rw unlearned)
  | inl learned ↦ elim (Bool-cases (truthy (field (text "truncated") b.signal))) [
    | inl clipped ↦ inl (rw (learned, clipped))
    | inr whole ↦ inr (b, refl, (learned, whole), rw (learned, whole))
  ]
]

-- `fireButton` changes nothing but what is published: either nothing, or the carrier and the pulses
-- of one stored button with these ids, whose signal is learned and not truncated.
pub fire_button_published :
    (env : Env) (s : Server) (rid bid : Value) (ack : Option Text)
    → ((fire_button env s rid bid ack).0 ≡ s)
      ⊎ ((b : Button) × (find_button env s.remotes rid bid ≡ some b)
          × IsSendable b
          × ((fire_button env s rid bid ack).0 ≡ publish (signal_payload b.signal) s))
unfolding fire_button
fire_button_published env s rid bid ack =
    fire_found_published s rid bid ack (find_button env s.remotes rid bid)

-- A stored button that may be sent is sent: the promise resolves if the MQTT client takes it, and
-- is rejected with the client's message if not.
pub fire_button_sends :
    (env : Env) (s : Server) (rid bid : Value) (ack : Option Text) (b : Button)
    → find_button env s.remotes rid bid ≡ some b
    → IsSendable b
    → fire_button env s rid bid ack ≡ (publish (signal_payload b.signal) s, publish_error ack)
unfolding fire_button fire_found
fire_button_sends env s rid bid ack b found (learned, whole) =
    rw (found, fire_found, learned, whole)
