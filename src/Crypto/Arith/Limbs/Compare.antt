-- ===== src/Crypto/Arith/Limbs/Compare.antt =====
-- The loops of `cmp_mag` and `trim`: limbs compared from the top, and zeros at the top dropped.
use rustee.Prelude.{
  ℕ, zero, suc, ◌+◌, ◌*◌, ◌^◌, ◌<◌, ◌≤◌, ◌≡◌, refl, ap, ap₂, ◌∙◌, sym, List, [], ◌∷◌, length,
  get_or, take, ltb, ◌==◌, if◌then◌else◌, ℤ, pos, negsuc, arith, Bool-cases, inl, inr, ◌⊎◌, true,
  false, ltb→lt,
}
use rustee.Crypto.Arith.Limbs.{cmp_limbs, trim_count, value_of, Words}
use native.Mathlib.Nat.{pow-suc, mul-le-mul_left, mul-le-mul_right, one-le-pow, pow-le-pow_right}

pub take_all {ℓ} : {A : Type ℓ} (xs : List A) (n : ℕ) → n ≡ length xs → take n xs ≡ xs
take_all [] zero e = refl
take_all [] (suc n) e = absurd (omega arith)
take_all (x ∷ xs) zero e = absurd (omega arith)
take_all (x ∷ xs) (suc n) e = ap (λ l. x ∷ l) (take_all xs n (omega arith))

-- 1, -1 or 0, as `m` lies above, below or at `n`.
abbrev pub order : ℕ → ℕ → ℤ
order m n = if ltb n m then pos 1 else if ltb m n then negsuc 0 else pos 0

abbrev pub base : ℕ
base = 2 ^ 32

pub value_of_lt : (ls : List ℕ) → Words ls → value_of ls < base ^ length ls
value_of_lt [] w = omega arith
value_of_lt (x ∷ ls) w =
    let more = value_of_lt ls w.1 in omega (arith, more, w.0, pow-suc base (length ls))

pub value_of-take :
    (ls : List ℕ) (i : ℕ)
    → value_of (take (suc i) ls) ≡ value_of (take i ls) + base ^ i * get_or ls i 0
value_of-take [] zero = omega arith
value_of-take [] (suc i) = omega arith
value_of-take (x ∷ ls) zero = omega arith
value_of-take (x ∷ ls) (suc i) =
    omega (arith, value_of-take ls i, pow-suc base i, ap (λ k. k * get_or ls i 0) (pow-suc base i))

take-Words : (ls : List ℕ) (i : ℕ) → Words ls → value_of (take i ls) < base ^ i
take-Words ls zero w = omega arith
take-Words [] (suc i) w = let p = one-le-pow (suc i) base in omega (arith, p)
take-Words (x ∷ ls) (suc i) w =
    let more = take-Words ls i w.1 in omega (arith, more, w.0, pow-suc base i)

pub order_add : (m n k : ℕ) → order (m + k) (n + k) ≡ order m n
order_add m n k = ground arith

-- A higher limb outweighs all the limbs below it.
top_lt : (u v p x y : ℕ) → u < p → x < y → u + p * x < v + p * y
top_lt u v p x y h k =
    let m : p * (x + 1) ≤ p * y = mul-le-mul_left p (omega arith) in omega (arith, m)

pub cmp_limbs-order :
    (a b : List ℕ) (i : ℕ)
    → Words a
    → Words b
    → cmp_limbs a b i ≡ order (value_of (take i a)) (value_of (take i b))
unfolding cmp_limbs
cmp_limbs-order a b zero wa wb = refl
cmp_limbs-order a b (suc i) wa wb =
    let x = get_or a i 0 in
    let y = get_or b i 0 in
    let ea = value_of-take a i in
    let eb = value_of-take b i in
    let more = cmp_limbs-order a b i wa wb in
    elim (Bool-cases (ltb y x)) [
      | inl g ↦
          let t =
            top_lt (value_of (take i b)) (value_of (take i a)) (base ^ i) y x (take-Words b i wb)
              (ltb→lt _ _ g) in
          let o : ltb (value_of (take (suc i) b)) (value_of (take (suc i) a)) ≡ true =
            ground (arith, ea, eb, t) in
          rw (g, o, cmp_limbs) refl
      | inr g ↦ elim (Bool-cases (ltb x y)) [
        | inl l ↦
            let t =
              top_lt (value_of (take i a)) (value_of (take i b)) (base ^ i) x y (take-Words a i wa)
                (ltb→lt _ _ l) in
            let o : ltb (value_of (take (suc i) b)) (value_of (take (suc i) a)) ≡ false =
              ground (arith, ea, eb, t) in
            let o' : ltb (value_of (take (suc i) a)) (value_of (take (suc i) b)) ≡ true =
              ground (arith, ea, eb, t) in
            rw (g, l, o, o', cmp_limbs) refl
        | inr l ↦
            let same : x ≡ y = ground arith in
            let eb' = eb ∙ ap (λ k. value_of (take i b) + base ^ i * k) (sym same) in
            rw (g, l, cmp_limbs)
              (more
                ∙ sym (
                    ap₂ order ea eb'
                    ∙ order_add (value_of (take i a)) (value_of (take i b)) (base ^ i * x)))
      ]
    ]

-- The highest limb is not zero.
abbrev pub Trimmed : List ℕ → Type 0
Trimmed [] = Unit
Trimmed (x ∷ []) = 0 < x
Trimmed (x ∷ y ∷ ls) = Trimmed (y ∷ ls)

pub Trimmed-le : (x : ℕ) (ls : List ℕ) → Trimmed (x ∷ ls) → base ^ length ls ≤ value_of (x ∷ ls)
Trimmed-le x [] t = omega (arith, t)
Trimmed-le x (y ∷ ls) t =
    let more = Trimmed-le y ls t in omega (arith, more, pow-suc base (length ls))

-- Fewer limbs are a smaller number.
pub shorter_lt :
    (a b : List ℕ) → Words a → Trimmed b → length a < length b → value_of a < value_of b
shorter_lt a [] wa t h = absurd (omega arith)
shorter_lt a (y ∷ b) wa t h =
    let low = value_of_lt a wa in
    let high = Trimmed-le y b t in
    let grow : base ^ length a ≤ base ^ length b =
      pow-le-pow_right {n = base} (omega arith) {i = length a} {j = length b} (omega arith) in
    omega (arith, low, high, grow)

-- Dropping the zeros at the top keeps the number.
pub value_of-trim_count :
    (ls : List ℕ) (n : ℕ) → value_of (take (trim_count ls n) ls) ≡ value_of (take n ls)
unfolding trim_count
value_of-trim_count ls zero = refl
value_of-trim_count ls (suc n) = elim (Bool-cases (get_or ls n 0 == 0)) [
  | inl z ↦
      let top : get_or ls n 0 ≡ 0 = ground arith in
      let same : value_of (take (suc n) ls) ≡ value_of (take n ls) =
        value_of-take ls n ∙ omega (arith, ap (λ k. base ^ n * k) top) in
      rw (z, trim_count) (value_of-trim_count ls n ∙ sym same)
  | inr z ↦ rw (z, trim_count) refl
]

pub trim_count_le : (ls : List ℕ) (n : ℕ) → trim_count ls n ≤ n
unfolding trim_count
trim_count_le ls zero = omega arith
trim_count_le ls (suc n) = ground (arith, trim_count_le ls n)

pow_add : (m n : ℕ) → base ^ (m + n) ≡ base ^ m * base ^ n
pow_add zero n = ap (λ k. base ^ k) (let e : 0 + n ≡ n = omega arith in e) ∙ omega arith
pow_add (suc m) n =
    ap (λ k. base ^ k) (let e : suc m + n ≡ suc (m + n) = omega arith in e)
    ∙ pow-suc base (m + n)
    ∙ omega (arith, ap (λ k. k * base) (pow_add m n), ap (λ k. k * base ^ n) (pow-suc base m))

product_lt : (u v p q : ℕ) → u < p → v < q → u * v < p * q
product_lt u v p q h k =
    let m : u * (v + 1) ≤ u * q = mul-le-mul_left u (omega arith) in
    let n : (u + 1) * q ≤ p * q = mul-le-mul_right q (omega arith) in omega (arith, m, n)

-- A number below the power of its places has a zero limb there.
pub top_zero :
    (ls : List ℕ) (n : ℕ)
    → length ls ≡ n + 1
    → value_of ls < base ^ n
    → value_of (take n ls) ≡ value_of ls
top_zero ls n e h =
    let last = value_of-take ls n in
    let whole : value_of (take (suc n) ls) ≡ value_of ls =
      ap value_of (take_all ls (suc n) (omega (arith, e))) in
    elim (get_or_cases (get_or ls n 0)) [
      | inl z ↦ omega (arith, last, whole, ap (λ k. base ^ n * k) z)
      | inr z ↦
          let m : base ^ n * 1 ≤ base ^ n * get_or ls n 0 = mul-le-mul_left (base ^ n) z in
          absurd (omega (arith, m, last, whole, h))
    ]
  where
    get_or_cases : (k : ℕ) → (k ≡ 0) ⊎ (1 ≤ k)
    get_or_cases zero = inl refl
    get_or_cases (suc k) = inr (omega arith)

pub product_places :
    (a b : List ℕ) → Words a → Words b → value_of a * value_of b < base ^ (length a + length b)
product_places a b wa wb = rw (pow_add (length a) (length b)) (
    product_lt (value_of a) (value_of b) (base ^ length a) (base ^ length b) (value_of_lt a wa)
      (value_of_lt b wb))
