-- ===== src/Backend/Steps/Keeps.antt =====
-- What the POST handlers change at most: the collection that they write, and the count of new ids.
use irhub.Prelude.{
  ℕ, ◌&&◌, List, Option, none, some, Text, text, Bool-cases, Option-cases, inl, inr,
}
use irhub.Js.{Value, truthy, field}
use irhub.Backend.State.{Remote, Routine, Rule, Server, Env, find_button, Button}
use irhub.Backend.Http.{json, thrown, error, name_required, nonempty_string}
use irhub.Backend.Fire.{fire_button, fire_found, post_send}
use irhub.Backend.Fire.Agree.{post_send-fire_button}
use irhub.Backend.Remotes.{post_remote}
use irhub.Backend.Remotes.Normalize.{is_readable, all_defined}
use irhub.Backend.Remotes.Post.{post_remote_refused, written}
use irhub.Backend.Routines.{nonempty_array, post_routine, save_routine}
use irhub.Backend.Routines.Steps.{normalize_steps_lem}
use irhub.Backend.Rules.{condition_of, number_of, action_of, post_rule, save_rule}

module _ (P : Server → Type 0) (env : Env) (s : Server) (h : P s) where
  pub post_remote_keeps :
      (body : Value)
      → ((remotes : List Remote) (n : ℕ) → P (record s { remotes = remotes; uuids = n }))
      → P (post_remote env s body).0
  post_remote_keeps body kept = elim (Option-cases (nonempty_string (field (text "name") body))) [
    | inl e ↦ rw (post_remote_refused env s body (json 400 (error name_required)) (rw e)) h
    | inr (name, e) ↦ elim (Bool-cases (is_readable (field (text "buttons") body))) [
      | inr r ↦ rw (post_remote_refused env s body thrown (rw (e, r))) h
      | inl r ↦ let (bs, _, post) = written env s body name e r in rw post (kept _ _)
    ]
  ]

  pub post_routine_keeps :
      (body : Value)
      → ((routines : List Routine) (n : ℕ) → P (record s { routines = routines; uuids = n }))
      → P (post_routine env s body).0
  unfolding post_routine save_routine
  post_routine_keeps body kept = elim (Option-cases (nonempty_string (field (text "name") body))) [
    | inl e ↦ rw e h
    | inr (name, e) ↦ elim (Option-cases (nonempty_array (field (text "steps") body))) [
      | inl e' ↦ rw (e, e') h
      | inr (vs, e') ↦ elim (Bool-cases (all_defined vs)) [
        | inr d ↦ rw (e, e', normalize_steps_lem vs, d) h
        | inl d ↦ rw (e, e', normalize_steps_lem vs, d) (kept _ _)
      ]
    ]
  ]

  pub post_rule_keeps :
      (body : Value)
      → ((rules : List Rule) (n : ℕ) → P (record s { rules = rules; uuids = n }))
      → P (post_rule env s body).0
  unfolding post_rule save_rule
  post_rule_keeps body kept = elim (Bool-cases (truthy (field (text "name") body))) [
    | inr n ↦ rw n h
    | inl n ↦ elim (Option-cases (condition_of (field (text "condition") body))) [
      | inl c ↦ rw (n, c) h
      | inr (_, c) ↦ elim (Option-cases (number_of (field (text "thresholdCents") body))) [
        | inl t ↦ rw (n, c, t) h
        | inr (_, t) ↦ elim (Option-cases (action_of (field (text "action") body))) [
          | inl a ↦ rw (n, c, t, a) h
          | inr (_, a) ↦ rw (n, c, t, a) (kept _ _)
        ]
      ]
    ]
  ]

  fire_found_keeps :
      (rid bid : Value) (ack : Option Text) (o : Option Button)
      → ((published : List Value) → P (record s { published = published }))
      → P (fire_found s rid bid ack o).0
  unfolding fire_found
  fire_found_keeps rid bid ack none kept = h
  fire_found_keeps rid bid ack (some b) kept = elim (Bool-cases (truthy b.signal)) [
    | inr unlearned ↦ rw unlearned h
    | inl learned ↦ elim (Bool-cases (truthy (field (text "truncated") b.signal))) [
      | inl clipped ↦ rw (learned, clipped) h
      | inr whole ↦ rw (learned, whole) (kept _)
    ]
  ]

  pub fire_button_keeps :
      (rid bid : Value) (ack : Option Text)
      → ((published : List Value) → P (record s { published = published }))
      → P (fire_button env s rid bid ack).0
  unfolding fire_button
  fire_button_keeps rid bid ack kept =
      fire_found_keeps rid bid ack (find_button env s.remotes rid bid) kept

  pub post_send_keeps :
      (body : Value) (ack : Option Text)
      → ((published : List Value) → P (record s { published = published }))
      → P (post_send env s body ack).0
  post_send_keeps body ack kept =
      rw (post_send-fire_button env s body ack)
        (elim (Bool-cases
          (truthy (field (text "remoteId") body) && truthy (field (text "buttonId") body))) [
            | inl given ↦ rw given (fire_button_keeps _ _ ack kept)
            | inr missing ↦ rw missing h
          ])
