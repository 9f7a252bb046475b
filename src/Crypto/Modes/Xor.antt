-- ===== src/Crypto/Modes/Xor.antt =====
-- Exclusive or undoes itself, on numbers and on byte strings.
use rustee.Prelude.{
  ℕ, zero, suc, ◌+◌, ◌-◌, ◌*◌, ◌/◌, ◌%◌, ◌<◌, ◌≤◌, ◌≡◌, refl, ap, ap₂, ◌∙◌, sym, min, List, [], ◌∷◌,
  arith, length, Bool-cases, inl, inr, ◌==◌,
}
use rustee.Crypto.Modes.{xor_bytes}
use Prim.Native.Nat.{bit_xor, digits, differ, bit_xor-bitwise}

-- The digits that are left to do do not matter once there are as many as the number has.
abbrev xor_digits : ℕ → ℕ → ℕ → ℕ
xor_digits left m k = digits (λ low. low) differ left m k

one_more : (left m k : ℕ) → m ≤ left → xor_digits (suc left) m k ≡ xor_digits left m k
one_more zero zero k fits = refl
one_more (suc left) zero k fits = refl
one_more zero (suc m) k fits = absurd (omega (arith, fits))
one_more (suc left) (suc m) k fits =
    let below = one_more left (suc m / 2) (k / 2) (omega (arith, fits)) in
    ap (λ high. high * 2 + differ (suc m % 2) (k % 2)) below

settled : (extra m k : ℕ) → xor_digits (extra + m) m k ≡ bit_xor m k
settled zero m k =
    ap (λ l. xor_digits l m k) (let e : 0 + m ≡ m = omega arith in e) ∙ sym (bit_xor-bitwise m k)
settled (suc extra) m k =
    ap (λ l. xor_digits l m k) (let e : suc extra + m ≡ suc (extra + m) = omega arith in e)
    ∙ one_more (extra + m) m k (omega arith)
    ∙ settled extra m k

-- The lowest digit, and the others.
bit_xor_step : (m k : ℕ) → bit_xor m k ≡ bit_xor (m / 2) (k / 2) * 2 + differ (m % 2) (k % 2)
bit_xor_step zero k =
    bit_xor-bitwise 0 k
    ∙ (let e : k ≡ k / 2 * 2 + k % 2 = omega arith in e)
    ∙ ap (λ high. high * 2 + k % 2) (sym (bit_xor-bitwise 0 (k / 2)))
bit_xor_step (suc m) k =
    let half = suc m / 2 in
    let enough : m ≡ (m - half) + half = omega arith in
    bit_xor-bitwise (suc m) k
    ∙ ap (λ l. xor_digits l half (k / 2) * 2 + differ (suc m % 2) (k % 2)) enough
    ∙ ap (λ high. high * 2 + differ (suc m % 2) (k % 2)) (settled (m - half) half (k / 2))

differ-differ : (x y : ℕ) → x < 2 → y < 2 → (differ (differ x y) y ≡ x) × (differ x y < 2)
differ-differ zero zero p q = (refl, omega arith)
differ-differ zero (suc zero) p q = (refl, omega arith)
differ-differ zero (suc (suc y)) p q = absurd (omega (arith, q))
differ-differ (suc zero) zero p q = (refl, omega arith)
differ-differ (suc zero) (suc zero) p q = (refl, omega arith)
differ-differ (suc zero) (suc (suc y)) p q = absurd (omega (arith, q))
differ-differ (suc (suc x)) y p q = absurd (omega (arith, p))

bit_xor_fuel : (n a b : ℕ) → a + b ≤ n → bit_xor (bit_xor a b) b ≡ a
bit_xor_fuel zero zero zero h = refl
bit_xor_fuel zero (suc a) b h = absurd (omega (arith, h))
bit_xor_fuel zero zero (suc b) h = absurd (omega (arith, h))
bit_xor_fuel (suc n) a b h = elim (Bool-cases (a + b == 0)) [
  | inl none ↦
      let ea : a ≡ 0 = ground arith in
      let eb : b ≡ 0 = ground arith in ap₂ (λ x y. bit_xor (bit_xor x y) y) ea eb ∙ sym ea
  | inr some ↦
      let q = bit_xor (a / 2) (b / 2) in
      let d = differ-differ (a % 2) (b % 2) (omega arith) (omega arith) in
      let half : a / 2 + b / 2 ≤ n = ground arith in
      let first = bit_xor_step a b in
      let high : bit_xor a b / 2 ≡ q = omega (arith, first, d.1) in
      let low : bit_xor a b % 2 ≡ differ (a % 2) (b % 2) = omega (arith, first, d.1) in
      bit_xor_step (bit_xor a b) b
      ∙ ap₂ (λ x y. bit_xor x (b / 2) * 2 + differ y (b % 2)) high low
      ∙ ap₂ (λ x y. x * 2 + y) (bit_xor_fuel n (a / 2) (b / 2) half) d.0
      ∙ omega arith
]

pub xor_bytes-xor_bytes :
    (bs ks : List ℕ) → length bs ≤ length ks → xor_bytes (xor_bytes bs ks) ks ≡ bs
unfolding xor_bytes
xor_bytes-xor_bytes [] ks h = refl
xor_bytes-xor_bytes (b ∷ bs) [] h = absurd (omega (arith, h))
xor_bytes-xor_bytes (b ∷ bs) (k ∷ ks) h =
    ap₂ (λ x xs. x ∷ xs) (bit_xor_fuel (b + k) b k (omega arith))
      (xor_bytes-xor_bytes bs ks (omega (arith, h)))

pub length-xor_bytes : (bs ks : List ℕ) → length (xor_bytes bs ks) ≡ min (length bs) (length ks)
unfolding xor_bytes
length-xor_bytes [] ks = omega arith
length-xor_bytes (b ∷ bs) [] = omega arith
length-xor_bytes (b ∷ bs) (k ∷ ks) = omega (arith, length-xor_bytes bs ks)
