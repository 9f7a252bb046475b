-- ===== src/Crypto/Arith/Bits.antt =====
-- Bits and shifts of big integers (crates/rustee-crypto/src/arith.rs).
use rustee.Prelude.{
  ℕ, zero, suc, ◌+◌, ◌-◌, ◌*◌, ◌/◌, ◌%◌, ◌^◌, List, [], ◌∷◌, ◌++◌, Bool, true, false, not, ◌&&◌,
  ◌||◌, length, get_or, set, take, drop, replicate, ltb, leb, ◌==◌, if◌then◌else◌,
}
use rustee.Bytes.{write_at}
use rustee.Crypto.Arith.{nlimbs_or_zero, limbs_or_empty, trim, init, assign}
use Prim.Native.Nat.{bit_and, bit_or}
pub mod Digits

abbrev pub is_zero : List ℕ → Bool
is_zero op = nlimbs_or_zero op == 0

unfoldable pub get_bit : List ℕ → ℕ → Bool
unfolding nlimbs_or_zero
get_bit src bit =
    if leb (nlimbs_or_zero src) (bit / 32)
    then false
    else get_or src (2 + bit / 32) 0 / 2 ^ (bit % 32) % 2 == 1

-- `32 - w.leading_zeros()`
abbrev pub bit_length : ℕ → ℕ → ℕ
bit_length zero w = 0
bit_length (suc n) w = if leb (2 ^ n) w then suc n else bit_length n w

unfoldable pub get_bit_count : List ℕ → ℕ
unfolding limbs_or_empty
get_bit_count src =
    let n = length (limbs_or_empty src) in
    if n == 0 then 0 else (n - 1) * 32 + bit_length 32 (get_or (limbs_or_empty src) (n - 1) 0)

unfoldable pub set_bit : List ℕ → ℕ → Bool → List ℕ
unfolding nlimbs_or_zero trim
set_bit op bit val =
    let i = bit / 32 in
    let w = get_or op (2 + i) 0 in
    let mask = 2 ^ (bit % 32) in
    if leb (length op) (2 + i)
    then op
    else if val
    then (let op' = set op (2 + i) (bit_or w mask) in
        if ltb (get_or op' 1 0) (i + 1) then set op' 1 (i + 1) else op')
    else if ltb i (nlimbs_or_zero op)
    then trim (set op (2 + i) (bit_and w (2 ^ 32 - 1 - mask)))
    else op

-- The limbs shifted by fewer than 32 bits, and what leaves them, on the side that they leave.
unfoldable pub shr_limbs : ℕ → List ℕ → List ℕ × ℕ
shr_limbs rem [] = ([], 0)
shr_limbs rem (l ∷ ls) =
    let more = shr_limbs rem ls in
    (bit_or (l / 2 ^ rem) more.1 ∷ more.0, l * 2 ^ (32 - rem) % 2 ^ 32)

unfoldable pub shl_limbs : ℕ → List ℕ → ℕ → List ℕ × ℕ
shl_limbs rem [] carry = ([], carry)
shl_limbs rem (l ∷ ls) carry =
    let more = shl_limbs rem ls (l / 2 ^ (32 - rem)) in
    (bit_or (l * 2 ^ rem % 2 ^ 32) carry ∷ more.0, more.1)

unfoldable pub shift_right : List ℕ → List ℕ → ℕ → List ℕ
unfolding assign nlimbs_or_zero shr_limbs trim
shift_right dest src bits =
    let d = assign dest src in
    let words = bits / 32 in
    let rem = bits % 32 in
    let n = nlimbs_or_zero d in
    let new_n = n - words in
    let moved = take new_n (drop (2 + words) d) in
    let d' = set (write_at d 2 (if ltb 0 rem then (shr_limbs rem moved).0 else moved)) 1 new_n in
    if bits == 0
    then d
    else if leb n words
    then init d
    else trim (take (2 + new_n) d' ++ replicate (length d - (2 + new_n)) 0)

-- The part of `shl_words` below a word.
abbrev shl_rest : List ℕ → ℕ → List ℕ
shl_rest op rem =
    let n = nlimbs_or_zero op in
    let shifted = shl_limbs rem (take n (drop 2 op)) 0 in
    let op' = write_at op 2 shifted.0 in
    if ltb 0 shifted.1 && ltb (2 + n) (length op)
    then set (set op' (2 + n) shifted.1) 1 (n + 1)
    else op'

unfoldable pub shl_words : List ℕ → ℕ → List ℕ
unfolding nlimbs_or_zero shl_limbs
shl_words op bits =
    let words = bits / 32 in
    let rem = bits % 32 in
    let n = nlimbs_or_zero op in
    let moved = set (write_at op 2 (replicate words 0 ++ take n (drop 2 op))) 1 (n + words) in
    let op' = if ltb 0 words then moved else op in
    if bits == 0 || is_zero op
    then op
    else if ltb (length op) (2 + n + words + 1)
    then op
    else if ltb 0 rem
    then shl_rest op' rem
    else op'
