-- ===== src/Bytes/Laws.antt =====
-- Words and slices read back what was written.
use rustee.Prelude.{
  ℕ, zero, suc, ◌+◌, ◌/◌, ◌^◌, ◌<◌, ◌≤◌, ◌≡◌, refl, ap, List, [], ◌∷◌, ◌++◌, arith, take, drop,
  length, take-append, ◌∙◌, sym, length-take, length-drop,
}
use rustee.Bytes.{to_le, from_le, bytes_at, IsBytes}
use native.Mathlib.Nat.{pow-suc}

pub from_le-to_le : (n v : ℕ) → v < 256 ^ n → from_le (to_le n v) ≡ v
from_le-to_le zero v h = omega arith
from_le-to_le (suc n) v h = omega (arith, from_le-to_le n (v / 256) (omega (arith, pow-suc 256 n)))

pub length-to_le : (n v : ℕ) → length (to_le n v) ≡ n
length-to_le zero v = refl
length-to_le (suc n) v = ap suc (length-to_le n (v / 256))

pub to_le-IsBytes : (n v : ℕ) → IsBytes (to_le n v)
to_le-IsBytes zero v = tt
to_le-IsBytes (suc n) v = (omega arith, to_le-IsBytes n (v / 256))

module _ {ℓ} {A : Type ℓ} where
  -- A slice that starts behind a prefix is a slice of the rest.
  pub drop-skip : (xs ys : List A) (n k : ℕ) → n ≡ length xs + k → drop n (xs ++ ys) ≡ drop k ys
  drop-skip [] ys n k h = ap (λ m. drop m ys) (omega arith)
  drop-skip (x ∷ xs) ys zero k h = absurd (omega arith)
  drop-skip (x ∷ xs) ys (suc n) k h = drop-skip xs ys n k (omega arith)

  -- A slice that ends where the prefix ends is the prefix.
  pub take-exact : (xs ys : List A) (n : ℕ) → n ≡ length xs → take n (xs ++ ys) ≡ xs
  take-exact xs ys n h = ap (λ m. take m (xs ++ ys)) h ∙ take-append xs ys

  drop-nil : (k : ℕ) → drop {A = A} k [] ≡ []
  drop-nil zero = refl
  drop-nil (suc k) = refl

  pub drop-drop : (m n : ℕ) (xs : List A) → drop m (drop n xs) ≡ drop (n + m) xs
  drop-drop m zero xs = ap (λ k. drop k xs) (omega arith)
  drop-drop m (suc n) [] = drop-nil m ∙ sym (drop-nil (suc n + m))
  drop-drop m (suc n) (x ∷ xs) =
      drop-drop m n xs
      ∙ ap (λ k. drop k (x ∷ xs)) (let e : suc (n + m) ≡ suc n + m = omega arith in e)

  pub take-append-drop : (n : ℕ) (xs : List A) → take n xs ++ drop n xs ≡ xs
  take-append-drop zero xs = refl
  take-append-drop (suc n) [] = refl
  take-append-drop (suc n) (x ∷ xs) = ap (λ l. x ∷ l) (take-append-drop n xs)

-- What stands behind an offset is a slice there, then what stands behind the slice.
pub bytes_at-split : (b : List ℕ) (off n : ℕ) → drop off b ≡ bytes_at b off n ++ drop (off + n) b
bytes_at-split b off n =
    sym (take-append-drop n (drop off b)) ∙ ap (λ l. bytes_at b off n ++ l) (drop-drop n off b)

pub length-bytes_at : (b : List ℕ) (off n : ℕ) → off + n ≤ length b → length (bytes_at b off n) ≡ n
length-bytes_at b off n h = omega (arith, length-take n (drop off b), length-drop off b)
