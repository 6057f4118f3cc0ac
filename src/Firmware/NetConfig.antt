-- ===== src/Firmware/NetConfig.antt =====
-- The settings of the hub and their checks: `firmware/src/net_config.cpp`.
pub mod Digits
pub mod Parts
pub mod Agrees
use irhub.Prelude.{
  ℕ, zero, suc, ◌+◌, ◌-◌, ◌*◌, Bool, true, false, ◌&&◌, ◌||◌, not, List, [], ◌∷◌, ◌++◌, Option,
  none, some, is_some, ltb, ◌==◌, if◌then◌else◌, all,
}
use irhub.Frontend.Setup.Encoding.{is_digit}

-- The three texts are arrays of 33, 64 and 64 bytes.
pub record NetConfig : Type 0 where
  pub ssid : List ℕ
  pub password : List ℕ
  pub broker_host : List ℕ
  pub broker_port : ℕ

-- `Invalid`: the field that is wrong, or none.
pub data Invalid : Type 0 where
  fine bad_ssid bad_password bad_host bad_port : Invalid

-- `bounded_len(s, cap, terminated)`, for an array of `cap` bytes.
unfoldable pub bounded_len : List ℕ → ℕ × Bool
bounded_len [] = (0, false)
bounded_len (c ∷ s) =
    let (n, terminated) = bounded_len s in if c == 0 then (0, true) else (suc n, terminated)

-- `*s`; the callers stay within a text that ends with a NUL.
abbrev pub peek : List ℕ → ℕ
peek [] = 0
peek (c ∷ s) = c

abbrev pub skip : List ℕ → List ℕ
skip [] = []
skip (c ∷ s) = s

-- The `while` loop over the digits of one part: how many there were, their value, and what follows.
unfoldable pub scan_digits : ℕ → ℕ → List ℕ → Option (ℕ × ℕ × List ℕ)
scan_digits digits v [] = some (digits, v, [])
scan_digits digits v (c ∷ s) =
    let more = scan_digits (suc digits) (v * 10 + (c - 48)) s in
    if is_digit c
    then (if ltb 3 (suc digits) || ltb 255 (v * 10 + (c - 48)) then none else more)
    else some (digits, v, c ∷ s)

abbrev pub scanned_part : Option (ℕ × ℕ × List ℕ) → Option (ℕ × List ℕ)
scanned_part none = none
scanned_part (some (digits, v, s)) = if digits == 0 then none else some (v, s)

abbrev pub with_value : ℕ → Option (List ℕ × List ℕ) → Option (List ℕ × List ℕ)
with_value v none = none
with_value v (some (vs, t)) = some (v ∷ vs, t)

abbrev pub after_part :
    Option (ℕ × List ℕ) → (List ℕ → Option (List ℕ × List ℕ)) → Option (List ℕ × List ℕ)
after_part none rest = none
after_part (some (v, s)) rest = with_value v (rest s)

-- The `for` loop with n parts to go; `part > 0` says whether a dot has to come first.
unfoldable pub scan_parts : ℕ → Bool → List ℕ → Option (List ℕ × List ℕ)
scan_parts zero later s = some ([], s)
scan_parts (suc n) later s =
    if later && not (peek s == 46)
    then none
    else after_part (scanned_part (scan_digits 0 0 (if later then skip s else s)))
        (λ t. scan_parts n true t)

-- The checks behind the loop: nothing follows, and not all four parts are zero.
abbrev pub whole_address : Option (List ℕ × List ℕ) → Option (List ℕ)
whole_address none = none
whole_address (some (vs, t)) =
    if not (peek t == 0) then none else if all (λ v. v == 0) vs then none else some vs

-- `parse_ipv4(s, out)`: the four bytes of `out`, or `false`.
unfoldable pub parse_ipv4 : List ℕ → Option (List ℕ)
parse_ipv4 s = whole_address (scan_parts 4 false s)

-- `validate(c)`
unfoldable pub validate : NetConfig → Invalid
validate c =
    let (ssid_len, ssid_term) = bounded_len c.ssid in
    let (pass_len, pass_term) = bounded_len c.password in
    let (host_len, host_term) = bounded_len c.broker_host in
    if not ssid_term || ssid_len == 0 || ltb 32 ssid_len
    then bad_ssid
    else if not pass_term || ltb 63 pass_len || (not (pass_len == 0) && ltb pass_len 8)
    then bad_password
    else if not host_term || host_len == 0 || not (is_some (parse_ipv4 c.broker_host))
    then bad_host
    else if c.broker_port == 0
    then bad_port
    else fine
