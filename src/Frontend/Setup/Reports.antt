-- ===== src/Frontend/Setup/Reports.antt =====
-- What the page says of the hub's last status, while it is connected and when the link is gone.
use irhub.Prelude.{
  ℕ, ◌≤◌, false, List, Option, none, some, ltb, ◌==◌, if◌then◌else◌, length, find_sound, ◌≡◌, refl,
  sym, subst, arith, ◌↔◌,
}
use irhub.Frontend.Setup.Status.{
  Kind, info, ok, ProvState, unprovisioned, idle, wifi_connecting, wifi_failed, mqtt_connecting,
  mqtt_failed, online, reverted, invalid, save_failed, code, prov_states, prov_state_of, get_uint8,
  describe_state, describe_prov_status,
}
use irhub.Frontend.Setup.Apply.{Page, on_prov_status, on_setup_disconnected}

-- The kinds are apart.
abbrev IsOk : Kind → Type 0
IsOk ok = Unit {0}
IsOk _ = ⊥

describe_state-online :
    (o : Option ProvState) (view : List ℕ) → (describe_state o view).1 ≡ ok → o ≡ some online
unfolding describe_state
describe_state-online none view h = absurd (subst IsOk (sym h) tt)
describe_state-online (some online) view h = refl
describe_state-online (some unprovisioned) view h = absurd (subst IsOk (sym h) tt)
describe_state-online (some idle) view h = absurd (subst IsOk (sym h) tt)
describe_state-online (some wifi_connecting) view h = absurd (subst IsOk (sym h) tt)
describe_state-online (some wifi_failed) view h = absurd (subst IsOk (sym h) tt)
describe_state-online (some mqtt_connecting) view h = absurd (subst IsOk (sym h) tt)
describe_state-online (some mqtt_failed) view h = absurd (subst IsOk (sym h) tt)
describe_state-online (some reverted) view h = absurd (subst IsOk (sym h) tt)
describe_state-online (some invalid) view h = absurd (subst IsOk (sym h) tt)
describe_state-online (some save_failed) view h = absurd (subst IsOk (sym h) tt)

prov_state_of-code : (n : ℕ) (state : ProvState) → prov_state_of n ≡ some state → n ≡ code state
unfolding prov_state_of
prov_state_of-code n state h =
    let found = find_sound (λ st. code st == n) prov_states state h in ground (arith, found)

describe_state-ok : (n : ℕ) (view : List ℕ) → (describe_state (prov_state_of n) view).1 ≡ ok ↔ n ≡ 6
unfolding describe_state prov_state_of
describe_state-ok n view = (
  λ h. prov_state_of-code n online (describe_state-online (prov_state_of n) view h),
  λ e. subst (λ m. (describe_state (prov_state_of m) view).1 ≡ ok) (sym e) refl,
)

-- Once a status of at least eight bytes is shown, it is shown as a success exactly if its first byte
-- says that the hub is online, and a disconnect is then reported as a success in that case only,
-- whatever the page held before.
pub on_setup_disconnected_after :
    (view : List ℕ) (p : Page)
    → 8 ≤ length view
    → ((on_prov_status view p).status.1 ≡ ok ↔ get_uint8 view 0 ≡ 6)
      × ((on_setup_disconnected (on_prov_status view p)).status.1
          ≡ (if get_uint8 view 0 == 6 then ok else info))
unfolding on_prov_status on_setup_disconnected describe_prov_status
on_setup_disconnected_after view p long =
    let whole : ltb (length view) 8 ≡ false = ground arith in
    rw whole (describe_state-ok (get_uint8 view 0) view, ground arith)
