-- ===== src/Crypto/Arith/Bits/Digits.antt =====
-- A bit of a big integer is a binary digit of its magnitude (`get_bit` of
-- crates/rustee-crypto/src/arith.rs).
use rustee.Prelude.{
  ℕ, zero, suc, ◌+◌, ◌-◌, ◌*◌, ◌/◌, ◌%◌, ◌^◌, ◌<◌, ◌≤◌, ◌≡◌, refl, ap, ◌∙◌, sym, List, [], ◌∷◌,
  arith, length, get_or, take, drop, leb, ◌==◌, Bool-cases, inl, inr, leb→le,
}
use native.Mathlib.Nat.{pow-suc, add-mul-div_left, div-div-eq-div-mul, one-le-pow, zero-div}
use rustee.Crypto.Arith.Bits.{get_bit}
use rustee.Crypto.Arith.Limbs.{value_of, Words}
use rustee.Crypto.Arith.Magnitude.{
  IsBigInt, limb_list, magnitude, nlimbs_or_zero-IsBigInt, length-limb_list, limb_list-Words,
}

double : (a b c : ℕ) → a ≡ 2 * b → a * c ≡ 2 * (b * c)
double a b c e = grind arith

pow_split : (k j : ℕ) → 2 ^ k * 2 ^ j ≡ 2 ^ (k + j)
pow_split zero j = let e : 2 ^ j ≡ 2 ^ (0 + j) = ap (λ n. 2 ^ n) (omega arith) in omega (arith, e)
pow_split (suc k) j =
    let e : 2 ^ suc (k + j) ≡ 2 ^ (suc k + j) = ap (λ n. 2 ^ n) (omega arith) in
    let d = double (2 ^ suc k) (2 ^ k) (2 ^ j) (omega (arith, pow-suc 2 k)) in
    omega (arith, pow_split k j, pow-suc 2 (k + j), e, d)

-- A limb's own bits: those of the limbs above it do not reach them.
regroup : (p w v : ℕ) → p * w ≡ 2147483648 → 4294967296 * v ≡ p * (2 * (w * v))
regroup p w v e = grind arith

low_digit : (k l v : ℕ) → k < 32 → (l + 4294967296 * v) / 2 ^ k % 2 ≡ l / 2 ^ k % 2
low_digit k l v h =
    let w = 2 ^ (31 - k) in
    let top : 2 ^ k * w ≡ 2147483648 =
      pow_split k (31 - k) ∙ ap (λ n. 2 ^ n) (let e : k + (31 - k) ≡ 31 = omega (arith, h) in e) in
    ap (λ t. (l + t) / 2 ^ k % 2) (regroup (2 ^ k) w v top)
    ∙ ap (λ t. t % 2) (add-mul-div_left l (2 * (w * v)) {y = 2 ^ k} (one-le-pow k 2 (omega arith)))
    ∙ even (l / 2 ^ k) (w * v)
  where
    even : (x y : ℕ) → (x + 2 * y) % 2 ≡ x % 2
    even x y = omega arith

high_digit : (b l v : ℕ) → l < 4294967296 → (l + 4294967296 * v) / 2 ^ (32 + b) ≡ v / 2 ^ b
high_digit b l v h =
    ap (λ t. (l + 4294967296 * v) / t) (sym (pow_split 32 b))
    ∙ sym (div-div-eq-div-mul (l + 4294967296 * v) 4294967296 (2 ^ b))
    ∙ ap (λ t. t / 2 ^ b) (let e : (l + 4294967296 * v) / 4294967296 ≡ v = omega (arith, h) in e)

-- The limb that holds a bit, in limbs that reach it.
digit :
    (ls : List ℕ) (i k : ℕ)
    → Words ls
    → i < length ls
    → k < 32
    → value_of ls / 2 ^ (32 * i + k) % 2 ≡ get_or ls i 0 / 2 ^ k % 2
digit [] i k w h kh = absurd (omega (arith, h))
digit (l ∷ ls) zero k w h kh =
    ap (λ t. value_of (l ∷ ls) / 2 ^ t % 2) (let e : 32 * 0 + k ≡ k = omega arith in e)
    ∙ low_digit k l (value_of ls) kh
digit (l ∷ ls) (suc i) k w h kh =
    ap (λ t. value_of (l ∷ ls) / 2 ^ t % 2)
      (let e : 32 * suc i + k ≡ 32 + (32 * i + k) = omega arith in e)
    ∙ ap (λ t. t % 2) (high_digit (32 * i + k) l (value_of ls) w.0)
    ∙ digit ls i k w.1 (omega (arith, h)) kh

digit_behind :
    (ls : List ℕ) (i k : ℕ) → Words ls → length ls ≤ i → value_of ls / 2 ^ (32 * i + k) ≡ 0
digit_behind [] i k w h = zero-div (2 ^ (32 * i + k))
digit_behind (l ∷ ls) zero k w h = absurd (omega (arith, h))
digit_behind (l ∷ ls) (suc i) k w h =
    ap (λ t. value_of (l ∷ ls) / 2 ^ t)
      (let e : 32 * suc i + k ≡ 32 + (32 * i + k) = omega arith in e)
    ∙ high_digit (32 * i + k) l (value_of ls) w.0
    ∙ digit_behind ls i k w.1 (omega (arith, h))

get_or-take : (n : ℕ) (xs : List ℕ) (i : ℕ) → i < n → get_or (take n xs) i 0 ≡ get_or xs i 0
get_or-take zero xs i h = absurd (omega (arith, h))
get_or-take (suc n) [] i h = refl
get_or-take (suc n) (x ∷ xs) zero h = refl
get_or-take (suc n) (x ∷ xs) (suc i) h = get_or-take n xs i (omega (arith, h))

get_or-drop_head :
    (op : List ℕ) (i : ℕ) → 2 ≤ length op → get_or op (2 + i) 0 ≡ get_or (drop 2 op) i 0
get_or-drop_head [] i h = absurd (omega (arith, h))
get_or-drop_head (x ∷ []) i h = absurd (omega (arith, h))
get_or-drop_head (x ∷ y ∷ op) i h =
    ap (λ t. get_or (x ∷ y ∷ op) t 0) (let e : 2 + i ≡ suc (suc i) = omega arith in e)

-- A bit of a big integer is that binary digit of its magnitude; behind its limbs there are none.
pub get_bit-magnitude :
    (src : List ℕ) (bit : ℕ) → IsBigInt src → get_bit src bit ≡ (magnitude src / 2 ^ bit % 2 == 1)
unfolding get_bit
get_bit-magnitude src bit v =
    let n = nlimbs_or_zero-IsBigInt src v in
    let size = length-limb_list src v in
    elim (Bool-cases (leb (get_or src 1 0) (bit / 32))) [
      | inl behind ↦
          let le : get_or src 1 0 ≤ bit / 32 = leb→le _ _ behind in
          let place : 32 * (bit / 32) + bit % 32 ≡ bit = omega arith in
          let none : magnitude src / 2 ^ bit ≡ 0 =
            ap (λ t. magnitude src / 2 ^ t) (sym place)
            ∙ digit_behind (limb_list src) (bit / 32) (bit % 32) (limb_list-Words src v)
                (omega (arith, le, size)) in
          rw (n, behind, none, get_bit) refl
      | inr inside ↦
          let lt : bit / 32 < get_or src 1 0 = ground arith in
          let place : 32 * (bit / 32) + bit % 32 ≡ bit = omega arith in
          let limb : get_or (limb_list src) (bit / 32) 0 ≡ get_or src (2 + bit / 32) 0 =
            get_or-take (get_or src 1 0) (drop 2 src) (bit / 32) lt
            ∙ sym (get_or-drop_head src (bit / 32) v.head) in
          rw (n, inside, get_bit)
            (ap (λ w. w / 2 ^ (bit % 32) % 2 == 1) (sym limb)
              ∙ ap (λ d. d == 1)
                  (sym (
                    digit (limb_list src) (bit / 32) (bit % 32) (limb_list-Words src v)
                      (omega (arith, lt, size)) (omega arith)))
              ∙ ap (λ t. magnitude src / 2 ^ t % 2 == 1) place)
    ]
