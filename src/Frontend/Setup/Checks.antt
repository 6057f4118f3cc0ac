-- ===== src/Frontend/Setup/Checks.antt =====
-- What a form that passes `validateSetupForm` holds, and what `setupApply` then sends.
use irhub.Prelude.{
  ℕ, zero, suc, ◌+◌, ◌*◌, ◌/◌, ◌%◌, ◌≤◌, ◌<◌, Bool, true, false, ◌||◌, List, [], ◌∷◌, ◌++◌,
  append_assoc, append-nil, Option, none, some, Text, ltb, ◌≡◌, refl, sym, ◌∙◌, ap, arith, ◌⊎◌, inl,
  inr, Bool-cases, none-ne-some, if_true,
}
use irhub.Js.{ℤ, pos, negsuc}
use irhub.Backend.Slug.{trim}
use irhub.Frontend.Setup.Encoding.{encode, byte_length}
use irhub.Frontend.Setup.Form.{
  Form, Problem, is_ipv4, is_port, password_problem, after_password, validate_setup_form,
}
use irhub.Frontend.Setup.Apply.{
  Page, Write, ssid, host, port, command, Link, port_bytes, password_write, apply_writes, write_one,
  write_all, applied, apply_unless, setup_apply,
}

-- The password field may stay empty, or holds 8 to 63 bytes, or the network is open.
abbrev pub IsPassword : Bool → ℕ → Type 0
IsPassword free n = (free ≡ true) ⊎ ((n ≡ 0) ⊎ ((8 ≤ n) × (n ≤ 63)))

password_problem-none :
    (free : Bool) (last : Option ℕ) (n : ℕ)
    → password_problem free last n ≡ none
    → IsPassword free n
unfolding password_problem
password_problem-none true last n h = inl refl
password_problem-none false last zero h = inr (inl refl)
password_problem-none false last (suc n) h = inr (inr (ground arith))

abbrev pub IsPort : Option ℤ → Type 0
IsPort o = (n : ℕ) × (o ≡ some (pos n)) × (1 ≤ n) × (n ≤ 65535)

is_port-IsPort : (o : Option ℤ) → is_port o ≡ true → IsPort o
is_port-IsPort none h = ground arith
is_port-IsPort (some (negsuc n)) h = ground arith
is_port-IsPort (some (pos n)) h = (n, refl, ground arith, ground arith)

after_password-none :
    (s : Text) (n : Option ℤ) (o : Option Problem)
    → after_password s n o ≡ none
    → (o ≡ none) × (is_ipv4 s ≡ true) × (is_port n ≡ true)
after_password-none s n (some problem) h = ground arith
after_password-none s n none h = elim (Bool-cases (is_ipv4 s)) [
  | inr i ↦ absurd (none-ne-some (sym (rw i at h)))
  | inl i ↦ elim (Bool-cases (is_port n)) [
    | inr w ↦ absurd (none-ne-some (sym (rw (i, w) at h)))
    | inl w ↦ (refl, i, w)
  ]
]

-- A form that passes has an SSID of 1 to 32 bytes, a password that is empty or of 8 to 63 bytes
-- unless the network is open, an IPv4 address that is not all zeros for the broker, and a whole
-- port from 1 to 65535.
pub validate_setup_form_sound :
    (number : Text → Option ℤ) (last : Option ℕ) (f : Form)
    → validate_setup_form number last f ≡ none
    → (1 ≤ byte_length f.ssid)
      × (byte_length f.ssid ≤ 32)
      × IsPassword f.open_network (byte_length f.password)
      × (is_ipv4 (trim f.host) ≡ true)
      × IsPort (number f.port)
unfolding validate_setup_form
validate_setup_form_sound number last f h =
    elim (Bool-cases (ltb (byte_length f.ssid) 1 || ltb 32 (byte_length f.ssid))) [
      | inl bad ↦ absurd (none-ne-some (sym (rw bad at h)))
      | inr good ↦
          let (pass, address, its_port) =
            after_password-none (trim f.host) (number f.port) _ (rw good at h) in
          (
            ground arith,
            ground arith,
            password_problem-none f.open_network last (byte_length f.password) pass,
            address,
            is_port-IsPort (number f.port) its_port,
          )
    ]

abbrev pub with_value : Option Write → List Write → List Write
with_value none ws = ws
with_value (some w) ws = w ∷ ws

-- The writes that are not left out, for one form.
abbrev pub values_of : List (Form → Option Write) → Form → List Write
values_of [] f = []
values_of (next ∷ more) f = with_value (next f) (values_of more f)

-- The hub takes every write, and no handler that runs in between edits the form or writes.
abbrev pub IsCalm : Link → Type 0
IsCalm link =
    ((i : ℕ) (w : Write) → link.rejects i w ≡ none)
    × ((i : ℕ) (q : Page)
        → ((link.meanwhile i q).form ≡ q.form) × ((link.meanwhile i q).written ≡ q.written))

module _ (link : Link) (calm : IsCalm link) where
  write_one_calm :
      (i : ℕ) (o : Option Write) (ws : List Write) (p : Page)
      → (q : Page) × (write_one link i o p ≡ (q, none))
        × (q.form ≡ p.form)
        × (q.written ++ ws ≡ p.written ++ with_value o ws)
  write_one_calm i none ws p = (p, refl, refl, refl)
  write_one_calm i (some w) ws p =
      let q = record p { written = p.written ++ w ∷ [] } in
      let (same_form, same_writes) = calm.1 i q in
      (
        link.meanwhile i q,
        rw (calm.0 i w),
        same_form,
        rw same_writes (append_assoc p.written (w ∷ []) ws),
      )

  write_all_calm :
      (i : ℕ) (ws : List (Form → Option Write)) (p : Page)
      → (q : Page) × (write_all link i ws p ≡ (q, none))
        × (q.form ≡ p.form)
        × (q.written ≡ p.written ++ values_of ws p.form)
  unfolding write_all
  write_all_calm i [] p = (p, refl, refl, sym (append-nil p.written))
  write_all_calm i (next ∷ more) p =
      let (q, one, its_form, its_writes) =
        write_one_calm i (next p.form) (values_of more p.form) p in
      let (r, rest, last_form, last_writes) = write_all_calm (suc i) more q in
      (r, rw (one, rest), last_form ∙ its_form, last_writes ∙ rw its_form its_writes)

-- The password that a form sends, if it sends one.
abbrev pub password_values : Form → List Write
password_values f = with_value (password_write f) []

-- Applying a form that passes, over a link that takes every write and while no handler edits the
-- form. The hub is sent the SSID, the password if there is one to send, the broker's address without
-- the white space around it, the port as two bytes of which the low one is first and that read back
-- as the number in the form, and the command to apply; in this order and nothing else. Afterwards
-- the page no longer holds the password.
pub setup_apply_sends :
    (number : Text → Option ℤ) (link : Link) (p : Page)
    → IsCalm link
    → p.has_chars ≡ true
    → validate_setup_form number p.last_state p.form ≡ none
    → (n low high : ℕ) × (number p.form.port ≡ some (pos n))
      × (low < 256)
      × (high < 256)
      × (low + 256 * high ≡ n)
      × ((setup_apply number link p).written
          ≡ p.written
            ++ ssid (encode p.form.ssid)
              ∷ (password_values p.form
                  ++ host (encode (trim p.form.host))
                    ∷ port (low ∷ high ∷ [])
                    ∷ command (1 ∷ [])
                    ∷ []))
      × ((setup_apply number link p).form.password ≡ [])
unfolding setup_apply
setup_apply_sends number link p calm there passes =
    let (_, _, _, _, (n, its_port, least, most)) =
      validate_setup_form_sound number p.last_state p.form passes in
    let (q, sent, _, writes) =
      write_all_calm link calm 0 (apply_writes (port_bytes (number p.form.port)))
        (record p { apply_disabled = true }) in
    let runs : setup_apply number link p ≡ applied (q, none) =
      if_true _ _ there ∙ ap (apply_unless number link p) passes ∙ ap applied sent in
    (
      n,
      n % 256,
      n / 256 % 256,
      its_port,
      omega arith,
      omega arith,
      omega arith,
      ap (λ (r : Page). r.written) runs
          ∙ writes
          ∙ rw its_port (
              ap (λ ws. p.written ++ ssid (encode p.form.ssid) ∷ ws)
                (placed (password_write p.form) _)),
      rw runs,
    )
  where
    placed : (o : Option Write) (ws : List Write) → with_value o ws ≡ with_value o [] ++ ws
    placed none ws = refl
    placed (some w) ws = refl
