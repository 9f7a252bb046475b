-- ===== src/Crypto/Arith.antt =====
-- crates/rustee-crypto/src/arith.rs: big integers in slices of 32-bit words. Word 0 holds the sign in
-- its lowest bit, word 1 the number of limbs, and the limbs follow from the lowest on. A caller's
-- destination is an argument, and the result is what it holds afterwards; a slice has at least the two
-- words of its head, and a write outside a slice is a panic where the code does not rule it out.
use rustee.Prelude.{
  ℕ, zero, suc, ◌+◌, ◌-◌, ◌*◌, ◌/◌, ◌%◌, ◌^◌, min, max, List, [], ◌∷◌, ◌++◌, Option, none, some,
  Bool, true, false, not, ◌&&◌, ◌||◌, length, get_or, set, take, drop, replicate, ltb, leb, ◌==◌,
  if◌then◌else◌, Res, ok, err, panic, ◌>>=◌, ◌>>◌, ensure, ℤ, pos, negsuc, neg_ℤ, ltb_ℤ,
}
use rustee.Bytes.{to_le, from_le, write_at}
pub mod Limbs
pub mod Magnitude
pub mod Signed
pub mod Bits
pub mod Division
use rustee.Crypto.Arith.Limbs.{add_limbs, sub_limbs, mul_rows, cmp_limbs, trim_count, word, reverse}

pub data ArithError : Type 0 where
  bad_size short_buffer : ArithError

abbrev pub max_bigint_bits : ℕ
max_bigint_bits = 4096

-- `nbits` is a 32-bit word, so nothing wraps.
unfoldable pub bigint_size_in_u32 : ℕ → ℕ
bigint_size_in_u32 nbits = (nbits + 31) / 32 + 2

unfoldable pub fmm_context_size_in_u32 : ℕ → ℕ
unfolding bigint_size_in_u32
fmm_context_size_in_u32 bits = bigint_size_in_u32 (bits % 2 ^ 32) + 4

unfoldable pub fmm_size_in_u32 : ℕ → ℕ
unfolding bigint_size_in_u32
fmm_size_in_u32 bits = bigint_size_in_u32 (bits % 2 ^ 32)

abbrev pub cap : List ℕ → Res ArithError ℕ
cap op = if ltb (length op) 2 then err bad_size else ok (length op - 2)

unfoldable pub nlimbs : List ℕ → Res ArithError ℕ
nlimbs op = do c ← cap op; ensure (leb (2 + get_or op 1 0) (length op)) bad_size; ok (get_or op 1 0)

unfoldable pub limbs : List ℕ → Res ArithError (List ℕ)
unfolding nlimbs
limbs op = do n ← nlimbs op; ok (take n (drop 2 op))

-- `nlimbs(op).unwrap_or(0)` and `limbs(op).unwrap_or(&[])`
unfoldable pub nlimbs_or_zero : List ℕ → ℕ
unfolding nlimbs
nlimbs_or_zero op = elim (nlimbs op) [ ok n ↦ n | err e ↦ 0 | panic ↦ 0 ]

unfoldable pub limbs_or_empty : List ℕ → List ℕ
unfolding limbs
limbs_or_empty op = elim (limbs op) [ ok ls ↦ ls | err e ↦ [] | panic ↦ [] ]

-- `op.first().copied().unwrap_or(0) & FLAG_NEG`
abbrev pub flag : List ℕ → ℕ
flag op = get_or op 0 0 % 2

-- The callers have set the number of limbs inside the slice.
unfoldable pub trim : List ℕ → List ℕ
trim op =
    let n = trim_count (drop 2 op) (get_or op 1 0) in
    let op' = set op 1 n in if n == 0 then set op' 0 0 else op'

abbrev pub init : List ℕ → List ℕ
init op = replicate (length op) 0

unfoldable pub init_fmm_context1 : List ℕ → List ℕ → List ℕ
init_fmm_context1 ctx modulus =
    let n = min (length modulus) (length ctx) in write_at (init ctx) 0 (take n modulus)

-- An i32, as an integer.
unfoldable pub from_s32 : List ℕ → ℤ → Res ArithError (List ℕ)
from_s32 op (pos zero) = ok (init op)
from_s32 op (pos (suc n)) =
    if ltb (length op) 3 then panic else ok (set (set (init op) 1 1) 2 (suc n))
from_s32 op (negsuc n) =
    if ltb (length op) 3 then panic else ok (set (set (set (init op) 0 1) 1 1) 2 (suc n))

unfoldable pub to_s32 : List ℕ → Res ArithError ℤ
unfolding nlimbs
to_s32 op = do
  n ← nlimbs op
  if n == 0 then ok (pos 0) else do
    ensure (not (ltb 1 n || (n == 1 && ltb (2 ^ 31 - 1) (get_or op 2 0)))) bad_size
    ok (if flag op == 0 then pos (get_or op 2 0) else neg_ℤ (pos (get_or op 2 0)))

-- Zero bytes behind the last one, up to a multiple of four; `k` of the last four are there.
abbrev pad_words : ℕ → List ℕ → List ℕ
pad_words k [] = replicate ((4 - k) % 4) 0
pad_words k (b ∷ bs) = b ∷ pad_words ((k + 1) % 4) bs

abbrev pub words_of : ℕ → List ℕ → List ℕ
words_of zero bs = []
words_of (suc n) bs = from_le (take 4 bs) ∷ words_of n (drop 4 bs)

-- On an error the slice has been zeroed.
unfoldable pub from_octet_string : List ℕ → List ℕ → ℤ → Res ArithError (List ℕ)
unfolding trim
from_octet_string op [] sign = ok (init op)
from_octet_string op (b ∷ bs) sign =
    let bytes = pad_words 0 (reverse (b ∷ bs)) in
    let n = length bytes / 4 in
    do
      c ← cap (init op)
      ensure (leb n c) bad_size
      let op' = set (write_at (init op) 2 (words_of n bytes)) 1 n
      ok (trim (if ltb_ℤ sign (pos 0) then set op' 0 1 else op'))

abbrev pub le_bytes : List ℕ → List ℕ
le_bytes [] = []
le_bytes (w ∷ ws) = to_le 4 w ++ le_bytes ws

-- The bytes from the highest on, without leading zeros but for the last byte.
abbrev pub strip : List ℕ → List ℕ
strip [] = []
strip (b ∷ []) = b ∷ []
strip (b ∷ c ∷ bs) = if b == 0 then strip (c ∷ bs) else b ∷ c ∷ bs

-- The number of bytes, and the buffer.
unfoldable pub to_octet_string : List ℕ → List ℕ → Res ArithError (ℕ × List ℕ)
unfolding limbs
to_octet_string op buf = do
  ls ← limbs op
  elim ls [
    | [] ↦ ok (0, buf)
    | l ∷ ls' ↦
        let bytes = strip (reverse (le_bytes (l ∷ ls'))) in
        if ltb (length buf) (length bytes)
        then err short_buffer
        else ok (length bytes, write_at buf 0 bytes)
  ]

unfoldable pub cmp_mag : List ℕ → List ℕ → ℤ
unfolding nlimbs_or_zero
cmp_mag a b =
    let la = nlimbs_or_zero a in
    let lb = nlimbs_or_zero b in
    if ltb lb la then pos 1 else if ltb la lb then negsuc 0 else cmp_limbs (drop 2 a) (drop 2 b) la

unfoldable pub cmp : List ℕ → List ℕ → ℤ
unfolding cmp_mag
cmp a b =
    if not (flag a == 0) && flag b == 0
    then negsuc 0
    else if flag a == 0 && not (flag b == 0)
    then pos 1
    else if not (flag a == 0)
    then neg_ℤ (cmp_mag a b)
    else cmp_mag a b

unfoldable pub cmp_s32 : List ℕ → ℤ → Res ArithError ℤ
unfolding from_s32 cmp
cmp_s32 a b = do tmp ← from_s32 (replicate 4 0) b; ok (cmp a tmp)

unfoldable pub assign : List ℕ → List ℕ → List ℕ
assign dest src =
    let n = min (length dest) (length src) in take n src ++ replicate (length dest - n) 0

-- `op[0] &= !FLAG_NEG` and `op[0] ^= FLAG_NEG`
abbrev pub clear_flag : List ℕ → List ℕ
clear_flag op = set op 0 (get_or op 0 0 - get_or op 0 0 % 2)

abbrev pub flip_flag : List ℕ → List ℕ
flip_flag op = set op 0 (if flag op == 0 then get_or op 0 0 + 1 else get_or op 0 0 - 1)

unfoldable pub abs : List ℕ → List ℕ → List ℕ
unfolding assign
abs dest src = clear_flag (assign dest src)

unfoldable pub neg : List ℕ → List ℕ → List ℕ
unfolding assign nlimbs_or_zero
neg dest op = let d = assign dest op in if nlimbs_or_zero d == 0 then set d 0 0 else flip_flag d

-- The loop writes the words 2 to n + 2 in turn.
unfoldable pub add_mag : List ℕ → List ℕ → List ℕ → Res ArithError (List ℕ)
unfolding nlimbs
add_mag dest a b = do
  la ← nlimbs a
  lb ← nlimbs b
  c ← cap dest
  let n = max la lb
  ensure (leb (n + 1) c) bad_size
  let sum = add_limbs n (take la (drop 2 a)) (take lb (drop 2 b)) 0
  ok (set (set (write_at dest 2 sum) 1 (n + (if get_or sum n 0 == 0 then 0 else 1))) 0 0)

-- `|a| >= |b|`; the loop writes the words from 2 on, and panics behind the end of a short destination.
unfoldable pub sub_mag : List ℕ → List ℕ → List ℕ → Res ArithError (List ℕ)
unfolding nlimbs trim
sub_mag dest a b = do
  la ← nlimbs a
  lb ← nlimbs b
  if ltb (length dest) (2 + la)
      then panic
      else ok (
          trim (
            set (set (write_at dest 2 (sub_limbs (take la (drop 2 a)) (take lb (drop 2 b)) 0)) 1 la)
              0 0))

-- `let _ = ...`: an error leaves the destination as it was.
abbrev pub ignore : List ℕ → Res ArithError (List ℕ) → Res ArithError (List ℕ)
ignore dest (ok d) = ok d
ignore dest (err e) = ok dest
ignore dest panic = panic

unfoldable pub add : List ℕ → List ℕ → List ℕ → Res ArithError (List ℕ)
unfolding add_mag sub_mag cmp_mag nlimbs_or_zero
add dest op1 op2 =
    if flag op1 == flag op2
    then (do
      d ← ignore dest (add_mag dest op1 op2)
      let d' = set d 0 (flag op1)
      ok (if nlimbs_or_zero d' == 0 then set d' 0 0 else d'))
    else elim (cmp_mag op1 op2) [
      | pos zero ↦ ok (init dest)
      | pos (suc n) ↦ (do d ← ignore dest (sub_mag dest op1 op2); ok (set d 0 (flag op1)))
      | negsuc n ↦ (do d ← ignore dest (sub_mag dest op2 op1); ok (set d 0 (flag op2)))
    ]

unfoldable pub sub : List ℕ → List ℕ → List ℕ → Res ArithError (List ℕ)
unfolding add assign nlimbs_or_zero
sub dest op1 op2 =
    let n = assign (replicate 130 0) op2 in
    add dest op1 (if nlimbs_or_zero n == 0 then n else flip_flag n)

unfoldable pub mul : List ℕ → List ℕ → List ℕ → List ℕ
unfolding nlimbs_or_zero trim assign
mul dest op1 op2 =
    let la = nlimbs_or_zero op1 in
    let lb = nlimbs_or_zero op2 in
    let rows = mul_rows (replicate (la + lb + 1) 0) (take la (drop 2 op1)) (take lb (drop 2 op2)) in
    assign dest (trim ((flag op1 + flag op2) % 2 ∷ (la + lb) ∷ rows))

unfoldable pub square : List ℕ → List ℕ → List ℕ
unfolding mul
square dest op = mul dest op op
