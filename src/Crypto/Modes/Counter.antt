-- ===== src/Crypto/Modes/Counter.antt =====
-- The counter block of counter mode (`aes_ctr` of crates/rustee-crypto/src/provider.rs).
use rustee.Prelude.{
  ℕ, suc, ◌+◌, ◌*◌, ◌%◌, ◌^◌, ◌<◌, ◌≡◌, ap, ap₂, ◌∙◌, sym, List, [], ◌∷◌, arith, length, ◌==◌,
  Bool-cases, inl, inr, ltb, ltb→lt, ltb→le,
}
use rustee.Bytes.{from_le, IsBytes}
use native.Mathlib.Nat.{pow-suc}
use rustee.Crypto.Modes.{carry}

from_le_lt : (bs : List ℕ) → IsBytes bs → from_le bs < 256 ^ length bs
from_le_lt [] h = omega arith
from_le_lt (b ∷ bs) h = omega (arith, from_le_lt bs h.1, h.0, pow-suc 256 (length bs))

small_mod : (x m : ℕ) → x < m → x % m ≡ x
small_mod x m h = grind arith

full_mod : (m : ℕ) → 0 < m → m % m ≡ 0
full_mod m h = grind arith

mod_carry : (v m : ℕ) → v < m → (256 * (v + 1)) % (256 * m) ≡ 256 * ((v + 1) % m)
mod_carry v m h = elim (Bool-cases (ltb (v + 1) m)) [
  | inl less ↦
      let lt = ltb→lt _ _ less in
      small_mod (256 * (v + 1)) (256 * m) (omega (arith, lt))
      ∙ ap (λ k. 256 * k) (sym (small_mod (v + 1) m lt))
  | inr full ↦
      let e : v + 1 ≡ m = omega (arith, h, ltb→le _ _ full) in
      ap (λ k. (256 * k) % (256 * m)) e
      ∙ full_mod (256 * m) (omega (arith, h))
      ∙ ap (λ k. 256 * k) (sym (full_mod m (omega (arith, h))) ∙ ap (λ k. k % m) (sym e))
]

-- The increment of a counter block of bytes, read from its last byte on, adds one and wraps.
pub carry-suc : (bs : List ℕ) → IsBytes bs → from_le (carry bs) ≡ (from_le bs + 1) % 256 ^ length bs
unfolding carry
carry-suc [] h = omega arith
carry-suc (b ∷ bs) h =
    let v = from_le bs in
    let bound = from_le_lt bs h.1 in
    let m = 256 ^ length bs in
    let more : 256 * m ≡ 256 ^ suc (length bs) = omega (arith, pow-suc 256 (length bs)) in
    elim (Bool-cases ((b + 1) % 256 == 0)) [
      | inl wraps ↦
          let last : b + 256 * v + 1 ≡ 256 * (v + 1) = ground (arith, h.0) in
          rw wraps (
            ap (λ k. 0 + 256 * k) (carry-suc bs h.1)
            ∙ (let e : 0 + 256 * ((v + 1) % m) ≡ 256 * ((v + 1) % m) = omega arith in e)
            ∙ sym (mod_carry v m bound)
            ∙ ap₂ ◌%◌ (sym last) more)
      | inr stays ↦
          let less : b + 1 < 256 = ground (arith, h.0) in
          let low : (b + 1) % 256 ≡ b + 1 = omega (arith, less) in
          rw (stays, low)
            (let e : b + 1 + 256 * v ≡ b + 256 * v + 1 = omega arith in
              e
              ∙ sym (small_mod (b + 256 * v + 1) (256 * m) (omega (arith, less, bound)))
              ∙ ap (λ k. (b + 256 * v + 1) % k) more)
    ]
