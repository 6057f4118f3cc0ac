-- ===== src/Firmware/Provision/Buffers.antt =====
-- Texts in the hub's buffers: what `bounded_len` finds in what `set_text` wrote.
use irhub.Prelude.{
  ℕ, suc, ◌-◌, ◌<◌, true, false, List, [], ◌∷◌, ◌++◌, length, All, ◌≡◌, ◌≢◌, refl, ap, arith, ◌==◌,
}
use irhub.Firmware.NetConfig.{bounded_len}
use irhub.Firmware.Provision.{zeros, set_text}

pub set_text_lem :
    (dst_size : ℕ) (bytes : List ℕ)
    → length bytes < dst_size
    → set_text dst_size bytes ≡ bytes ++ 0 ∷ zeros (dst_size - length bytes - 1)
unfolding set_text
set_text_lem dst_size bytes h =
    let e : dst_size - length bytes ≡ suc (dst_size - length bytes - 1) = omega arith in
    ap (λ n. bytes ++ zeros n) e

bounded_len-append :
    (pad bytes : List ℕ)
    → All (λ c. c ≢ 0) bytes
    → bounded_len (bytes ++ 0 ∷ pad) ≡ (length bytes, true)
unfolding bounded_len
bounded_len-append pad [] nul = refl
bounded_len-append pad (c ∷ bytes) (ne, nul) =
    let other : c == 0 ≡ false = ground arith in rw (other, bounded_len-append pad bytes nul) refl

pub bounded_len-set_text :
    (dst_size : ℕ) (bytes : List ℕ)
    → length bytes < dst_size
    → All (λ c. c ≢ 0) bytes
    → bounded_len (set_text dst_size bytes) ≡ (length bytes, true)
bounded_len-set_text dst_size bytes h nul =
    rw (set_text_lem dst_size bytes h)
      (bounded_len-append (zeros (dst_size - length bytes - 1)) bytes nul)
