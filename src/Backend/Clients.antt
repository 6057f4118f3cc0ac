-- ===== src/Backend/Clients.antt =====
-- What one WebSocket client receives of the broadcasts of `backend/server.js`.
use irhub.Prelude.{
  ℕ, zero, suc, List, [], ◌∷◌, ◌++◌, Option, some, none-ne-some, some_inj, map, get_elem?, ◌≡◌, ap,
  inl, inr,
}
use irhub.Js.{Value}
use irhub.Prelude.{Text}
use irhub.Backend.State.{Server, Env, Event, broadcast, deliver}
use irhub.Backend.Fire.{fire_button}
use irhub.Backend.Fire.Agree.{fire_button_published}

-- The n-th client is open and has received these events, the latest last.
abbrev pub Hears : ℕ → Server → List Event → Type 0
Hears n s es = get_elem? s.clients n ≡ some (record { ready_state = 1; received = es })

get_elem?-map {ℓ κ} :
    {A : Type ℓ} {B : Type κ} (f : A → B) (xs : List A) (n : ℕ) (x : A)
    → get_elem? xs n ≡ some x
    → get_elem? (map f xs) n ≡ some (f x)
get_elem?-map f [] n x h = absurd (none-ne-some h)
get_elem?-map f (y ∷ ys) zero x h = ap (λ z. some (f z)) (some_inj h)
get_elem?-map f (y ∷ ys) (suc n) x h = get_elem?-map f ys n x h

pub broadcast-Hears :
    (n : ℕ) (s : Server) (es : List Event) (e : Event)
    → Hears n s es
    → Hears n (broadcast e s) (es ++ e ∷ [])
unfolding broadcast
broadcast-Hears n s es e h = get_elem?-map (deliver e) s.clients n _ h

-- Firing a button tells the clients nothing.
pub fire_button-clients :
    (env : Env) (s : Server) (rid bid : Value) (ack : Option Text)
    → (fire_button env s rid bid ack).0.clients ≡ s.clients
fire_button-clients env s rid bid ack = elim (fire_button_published env s rid bid ack) [
  | inl same ↦ ap (λ (t : Server). t.clients) same
  | inr (b, _, _, sent) ↦ ap (λ (t : Server). t.clients) sent
]
