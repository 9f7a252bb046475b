-- ===== src/Crypto/Arith/Limbs/Sums.antt =====
-- The loops of `add_mag` and `sub_mag` add and subtract the numbers that the limbs stand for.
use rustee.Prelude.{
  ℕ, zero, suc, ◌+◌, ◌*◌, ◌/◌, ◌^◌, ◌<◌, ◌≤◌, ◌≡◌, refl, List, [], ◌∷◌, length, ltb, arith,
  Bool-cases, inl, inr, ltb→lt,
}
use rustee.Crypto.Arith.Limbs.{add_limbs, sub_limbs, value_of, Words, next, rest}

next_lt : (xs : List ℕ) → Words xs → next xs < 2 ^ 32
next_lt [] w = omega arith
next_lt (x ∷ xs) w = w.0

pub rest-Words : (xs : List ℕ) → Words xs → Words (rest xs)
rest-Words [] w = tt
rest-Words (x ∷ xs) w = w.1

length-rest : (xs : List ℕ) (n : ℕ) → length xs ≤ suc n → length (rest xs) ≤ n
length-rest [] n h = omega arith
length-rest (x ∷ xs) n h = omega arith

pub value_of-next : (xs : List ℕ) → value_of xs ≡ next xs + 2 ^ 32 * value_of (rest xs)
value_of-next [] = refl
value_of-next (x ∷ xs) = refl

value_of_empty : (xs : List ℕ) → length xs ≤ 0 → value_of xs ≡ 0
value_of_empty [] h = refl
value_of_empty (x ∷ xs) h = absurd (omega arith)

pub value_of-add_limbs :
    (n : ℕ) (a b : List ℕ) (carry : ℕ)
    → length a ≤ n
    → length b ≤ n
    → Words a
    → Words b
    → carry ≤ 1
    → value_of (add_limbs n a b carry) ≡ value_of a + value_of b + carry
unfolding add_limbs
value_of-add_limbs zero a b carry la lb wa wb h =
    omega (arith, value_of_empty a la, value_of_empty b lb)
value_of-add_limbs (suc n) a b carry la lb wa wb h =
    let s = next a + next b + carry in
    let more =
      value_of-add_limbs n (rest a) (rest b) (s / 2 ^ 32) (length-rest a n la) (length-rest b n lb)
        (rest-Words a wa) (rest-Words b wb) (omega (arith, next_lt a wa, next_lt b wb)) in
    omega (arith, more, value_of-next a, value_of-next b)

pub add_limbs-Words : (n : ℕ) (a b : List ℕ) (carry : ℕ) → Words (add_limbs n a b carry)
unfolding add_limbs
add_limbs-Words zero a b carry = (omega arith, tt)
add_limbs-Words (suc n) a b carry = (omega arith, add_limbs-Words n (rest a) (rest b) _)

pub length-add_limbs : (n : ℕ) (a b : List ℕ) (carry : ℕ) → length (add_limbs n a b carry) ≡ n + 1
unfolding add_limbs
length-add_limbs zero a b carry = refl
length-add_limbs (suc n) a b carry =
    omega (arith, length-add_limbs n (rest a) (rest b) ((next a + next b + carry) / 2 ^ 32))

pub length-sub_limbs : (a b : List ℕ) (borrow : ℕ) → length (sub_limbs a b borrow) ≡ length a
unfolding sub_limbs
length-sub_limbs [] b borrow = refl
length-sub_limbs (x ∷ a) b borrow =
    ground (arith, length-sub_limbs a (rest b) 1, length-sub_limbs a (rest b) 0)

pub value_of-sub_limbs :
    (a b : List ℕ) (borrow : ℕ)
    → length b ≤ length a
    → Words a
    → Words b
    → borrow ≤ 1
    → value_of b + borrow ≤ value_of a
    → value_of (sub_limbs a b borrow) + value_of b + borrow ≡ value_of a
unfolding sub_limbs
value_of-sub_limbs [] b borrow l wa wb h le = omega (arith, le)
value_of-sub_limbs (x ∷ a) b borrow l wa wb h le =
    let split = value_of-next b in
    let small = next_lt b wb in
    elim (Bool-cases (ltb x (next b + borrow))) [
      | inl t ↦
          let less : x < next b + borrow = ltb→lt _ _ t in
          let more =
            value_of-sub_limbs a (rest b) 1 (length-rest b (length a) l) wa.1 (rest-Words b wb)
              (omega arith) (omega (arith, le, split, less)) in
          rw (t, sub_limbs) (omega (arith, more, split, less, wa.0))
      | inr t ↦
          let most : next b + borrow ≤ x = ground arith in
          let more =
            value_of-sub_limbs a (rest b) 0 (length-rest b (length a) l) wa.1 (rest-Words b wb)
              (omega arith) (omega (arith, le, split, most, wa.0, small)) in
          rw (t, sub_limbs) (omega (arith, more, split, most))
    ]
