-- ===== src/Crypto/Arith/Limbs.antt =====
-- The loops over limbs of crates/rustee-crypto/src/arith.rs, and the numbers that limbs stand for.
use rustee.Prelude.{
  ℕ, zero, suc, ◌+◌, ◌-◌, ◌*◌, ◌/◌, ◌%◌, ◌^◌, ◌<◌, ◌≤◌, ◌≡◌, refl, ap, ap₂, ◌∙◌, sym, List, [], ◌∷◌,
  ◌++◌, Bool, true, false, length, get_or, set, take, drop, replicate, ltb, leb, ◌==◌,
  if◌then◌else◌, ℤ, pos, negsuc, arith, min, max,
}
pub mod Sums
pub mod Products
pub mod Compare

-- `x as u32`
abbrev pub word : ℕ → ℕ
word x = x % 2 ^ 32

-- `if i < a.len() { a[i] } else { 0 }` at the next limb, and the limbs behind it.
abbrev pub next : List ℕ → ℕ
next [] = 0
next (x ∷ xs) = x

abbrev pub rest : List ℕ → List ℕ
rest [] = []
rest (x ∷ xs) = xs

-- The loop of `add_mag` over `n` limbs; the last word is the carry.
unfoldable pub add_limbs : ℕ → List ℕ → List ℕ → ℕ → List ℕ
add_limbs zero a b carry = word carry ∷ []
add_limbs (suc n) a b carry =
    let s = next a + next b + carry in word s ∷ add_limbs n (rest a) (rest b) (s / 2 ^ 32)

-- The loop of `sub_mag`.
unfoldable pub sub_limbs : List ℕ → List ℕ → ℕ → List ℕ
sub_limbs [] b borrow = []
sub_limbs (x ∷ a) b borrow =
    if ltb x (next b + borrow)
    then (x + 2 ^ 32 - (next b + borrow)) ∷ sub_limbs a (rest b) 1
    else (x - (next b + borrow)) ∷ sub_limbs a (rest b) 0

-- The inner loop of `mul`: the limb `x` times `b` is added to the accumulator, and the carry is stored
-- behind it.
unfoldable pub mul_row : List ℕ → ℕ → List ℕ → ℕ → List ℕ
mul_row acc x [] carry = set acc 0 (word carry)
mul_row [] x (y ∷ b) carry = []
mul_row (t ∷ acc) x (y ∷ b) carry =
    let p = t + x * y + carry in word p ∷ mul_row acc x b (p / 2 ^ 32)

-- The outer loop: each limb of `a` works on the accumulator from its own place on.
unfoldable pub mul_rows : List ℕ → List ℕ → List ℕ → List ℕ
unfolding mul_row
mul_rows acc [] b = acc
mul_rows acc (x ∷ a) b = let r = mul_row acc x b 0 in next r ∷ mul_rows (rest r) a b

-- The loop of `cmp_mag`, from the limb below `i` down.
unfoldable pub cmp_limbs : List ℕ → List ℕ → ℕ → ℤ
cmp_limbs a b zero = pos 0
cmp_limbs a b (suc i) =
    if ltb (get_or b i 0) (get_or a i 0)
    then pos 1
    else if ltb (get_or a i 0) (get_or b i 0)
    then negsuc 0
    else cmp_limbs a b i

-- The loop of `trim`: the number of limbs without the zeros at the top.
unfoldable pub trim_count : List ℕ → ℕ → ℕ
trim_count ls zero = 0
trim_count ls (suc n) = if get_or ls n 0 == 0 then trim_count ls n else suc n

abbrev pub reverse : List ℕ → List ℕ
reverse [] = []
reverse (x ∷ xs) = reverse xs ++ (x ∷ [])

-- The number that limbs stand for.
abbrev pub value_of : List ℕ → ℕ
value_of [] = 0
value_of (x ∷ xs) = x + 2 ^ 32 * value_of xs

-- Every limb is a 32-bit word.
abbrev pub Words : List ℕ → Type 0
Words [] = Unit
Words (x ∷ xs) = (x < 2 ^ 32) × Words xs
