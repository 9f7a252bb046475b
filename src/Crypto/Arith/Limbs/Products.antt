-- ===== src/Crypto/Arith/Limbs/Products.antt =====
-- The loops of `mul` multiply the numbers that the limbs stand for.
use rustee.Prelude.{
  subst, sym, ℕ, zero, suc, ◌+◌, ◌-◌, ◌*◌, ◌/◌, ◌^◌, ◌<◌, ◌≤◌, ◌≡◌, refl, ap, ◌∙◌, List, [], ◌∷◌,
  length, get_or, drop, replicate, arith,
}
use rustee.Crypto.Arith.Limbs.{mul_row, mul_rows, value_of, Words, rest}
use rustee.Crypto.Arith.Limbs.Sums.{value_of-next, rest-Words}
use native.Mathlib.Nat.{mul-le-mul}

-- Every limb is zero.
abbrev pub Zeros : List ℕ → Type 0
Zeros [] = Unit
Zeros (x ∷ xs) = (x ≡ 0) × Zeros xs

get_or_zero : (acc : List ℕ) (k : ℕ) → Zeros (drop k acc) → get_or acc k 0 ≡ 0
get_or_zero [] k z = refl
get_or_zero (x ∷ acc) zero z = z.0
get_or_zero (x ∷ acc) (suc k) z = get_or_zero acc k z

-- A product of two words and two words more fit a double word.
carry_lt :
    (t x y c : ℕ)
    → t < 2 ^ 32
    → x < 2 ^ 32
    → y < 2 ^ 32
    → c < 2 ^ 32
    → (t + x * y + c) / 2 ^ 32 < 2 ^ 32
carry_lt t x y c ht hx hy hc =
    let m : x * y ≤ (2 ^ 32 - 1) * (2 ^ 32 - 1) =
      mul-le-mul {n₂ = 2 ^ 32 - 1} {m₂ = 2 ^ 32 - 1} (omega arith) (omega arith) in
    omega (arith, m)

value_of-mul_row :
    (acc : List ℕ) (x : ℕ) (b : List ℕ) (c : ℕ)
    → length b < length acc
    → get_or acc (length b) 0 ≡ 0
    → Words acc
    → x < 2 ^ 32
    → Words b
    → c < 2 ^ 32
    → value_of (mul_row acc x b c) ≡ value_of acc + x * value_of b + c
unfolding mul_row
value_of-mul_row [] x [] c l z wa hx wb hc = absurd (omega arith)
value_of-mul_row (t ∷ acc) x [] c l z wa hx wb hc = omega (arith, z, hc)
value_of-mul_row [] x (y ∷ b) c l z wa hx wb hc = absurd (omega arith)
value_of-mul_row (t ∷ acc) x (y ∷ b) c l z wa hx wb hc =
    let p = t + x * y + c in
    let more =
      value_of-mul_row acc x b (p / 2 ^ 32) (omega arith) z wa.1 hx wb.1
        (carry_lt t x y c wa.0 hx wb.0 hc) in
    omega (arith, more)

mul_row-Words : (acc : List ℕ) (x : ℕ) (b : List ℕ) (c : ℕ) → Words acc → Words (mul_row acc x b c)
unfolding mul_row
mul_row-Words [] x [] c w = tt
mul_row-Words (t ∷ acc) x [] c w = (omega arith, w.1)
mul_row-Words [] x (y ∷ b) c w = tt
mul_row-Words (t ∷ acc) x (y ∷ b) c w = (omega arith, mul_row-Words acc x b _ w.1)

length-mul_row :
    (acc : List ℕ) (x : ℕ) (b : List ℕ) (c : ℕ) → length (mul_row acc x b c) ≡ length acc
unfolding mul_row
length-mul_row [] x [] c = refl
length-mul_row (t ∷ acc) x [] c = refl
length-mul_row [] x (y ∷ b) c = refl
length-mul_row (t ∷ acc) x (y ∷ b) c = ap suc (length-mul_row acc x b _)

-- Behind the carry nothing changes.
drop-mul_row :
    (acc : List ℕ) (x : ℕ) (b : List ℕ) (c : ℕ)
    → drop (suc (length b)) (mul_row acc x b c) ≡ drop (suc (length b)) acc
unfolding mul_row
drop-mul_row [] x [] c = refl
drop-mul_row (t ∷ acc) x [] c = refl
drop-mul_row [] x (y ∷ b) c = refl
drop-mul_row (t ∷ acc) x (y ∷ b) c = drop-mul_row acc x b _

length-rest_le : (xs : List ℕ) (n : ℕ) → suc n ≤ length xs → n ≤ length (rest xs)
length-rest_le [] n h = absurd (omega arith)
length-rest_le (x ∷ xs) n h = omega arith

length-rest_eq : (xs : List ℕ) (n : ℕ) → length xs ≡ suc n → length (rest xs) ≡ n
length-rest_eq [] n h = absurd (omega arith)
length-rest_eq (x ∷ xs) n h = omega arith

drop-rest : (xs : List ℕ) (k : ℕ) → drop k (rest xs) ≡ drop (suc k) xs
drop-rest [] zero = refl
drop-rest [] (suc k) = refl
drop-rest (x ∷ xs) k = refl

Zeros-rest : (xs : List ℕ) (k : ℕ) → Zeros (drop k xs) → Zeros (drop (suc k) xs)
Zeros-rest [] k z = tt
Zeros-rest (x ∷ xs) zero z = z.1
Zeros-rest (x ∷ xs) (suc k) z = Zeros-rest xs k z

pub value_of-mul_rows :
    (acc a b : List ℕ)
    → length a + length b ≤ length acc
    → Zeros (drop (length b) acc)
    → Words acc
    → Words a
    → Words b
    → value_of (mul_rows acc a b) ≡ value_of acc + value_of a * value_of b
unfolding mul_rows
value_of-mul_rows acc [] b l z wc wa wb = omega arith
value_of-mul_rows acc (x ∷ a) b l z wc wa wb =
    let r = mul_row acc x b 0 in
    let row =
      value_of-mul_row acc x b 0 (omega arith) (get_or_zero acc (length b) z) wc wa.0 wb
        (omega arith) in
    let clear : Zeros (drop (length b) (rest r)) =
      subst Zeros (sym (drop-rest r (length b) ∙ drop-mul_row acc x b 0))
        (Zeros-rest acc (length b) z) in
    let more =
      value_of-mul_rows (rest r) a b
        (length-rest_le r (length a + length b) (omega (arith, length-mul_row acc x b 0, l))) clear
        (rest-Words r (mul_row-Words acc x b 0 wc)) wa.1 wb in
    omega (arith, more, row, value_of-next r)

pub length-mul_rows :
    (acc a b : List ℕ) → length a ≤ length acc → length (mul_rows acc a b) ≡ length acc
unfolding mul_rows
length-mul_rows acc [] b h = refl
length-mul_rows [] (x ∷ a) b h = absurd (omega arith)
length-mul_rows (t ∷ acc) (x ∷ a) b h =
    let r = mul_row (t ∷ acc) x b 0 in
    let e = length-mul_row (t ∷ acc) x b 0 in
    let s : length (rest r) ≡ length acc = length-rest_eq r (length acc) e in
    omega (arith, length-mul_rows (rest r) a b (omega (arith, s, h)), s)

pub Zeros-replicate : (n : ℕ) → Zeros (replicate n 0)
Zeros-replicate zero = tt
Zeros-replicate (suc n) = (refl, Zeros-replicate n)

pub Zeros-drop : (xs : List ℕ) (k : ℕ) → Zeros xs → Zeros (drop k xs)
Zeros-drop xs zero z = z
Zeros-drop [] (suc k) z = tt
Zeros-drop (x ∷ xs) (suc k) z = Zeros-drop xs k z.1

pub value_of-Zeros : (xs : List ℕ) → Zeros xs → (value_of xs ≡ 0) × Words xs
value_of-Zeros [] z = (refl, tt)
value_of-Zeros (x ∷ xs) z =
    let more = value_of-Zeros xs z.1 in (omega (arith, z.0, more.0), (omega (arith, z.0), more.1))
