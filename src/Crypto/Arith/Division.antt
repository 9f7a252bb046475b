-- ===== src/Crypto/Arith/Division.antt =====
-- Division and modular arithmetic of big integers (crates/rustee-crypto/src/arith.rs).
use rustee.Prelude.{
  ℕ, zero, suc, ◌+◌, ◌-◌, ◌%◌, List, true, not, ◌&&◌, set, replicate, ◌==◌, if◌then◌else◌, Res, ok,
  ◌>>=◌, ltb_ℤ, pos,
}
use rustee.Crypto.Arith.{
  ArithError, flag, trim, init, from_s32, cmp_mag, assign, sub_mag, ignore, add, sub, mul,
}
use rustee.Crypto.Arith.Bits.{is_zero, get_bit, get_bit_count, set_bit, shl_words}

abbrev array : ℕ → List ℕ
array n = replicate n 0

-- The loop over the bits of the quotient from the highest on, with `i` of them to go.
unfoldable pub div_loop : ℕ → List ℕ → List ℕ → List ℕ → Res ArithError (List ℕ × List ℕ)
unfolding cmp_mag sub_mag assign set_bit shl_words
div_loop zero quot rem dvs = ok (quot, rem)
div_loop (suc i) quot rem dvs =
    let shifted = shl_words (assign (array 130) dvs) i in
    let kept = div_loop i quot rem dvs in
    let taken = (do
      nrem ← ignore (array 130) (sub_mag (array 130) rem shifted)
      div_loop i (set_bit quot i true) (assign rem nrem) dvs) in
    if ltb_ℤ (cmp_mag rem shifted) (pos 0) then kept else taken

unfoldable pub div : List ℕ → List ℕ → List ℕ → List ℕ → Res ArithError (List ℕ × List ℕ)
unfolding div_loop cmp_mag assign get_bit_count trim
div quot rem op1 op2 =
    let rem₀ = set (assign rem op1) 0 0 in
    let dvs = set (assign (array 130) op2) 0 0 in
    if is_zero op2
    then ok (init quot, init rem)
    else if ltb_ℤ (cmp_mag rem₀ dvs) (pos 0)
    then ok (init quot, set rem₀ 0 (flag op1))
    else (do
      r ← div_loop (get_bit_count rem₀ - get_bit_count dvs + 1) (init quot) rem₀ dvs
      ok (trim (set r.0 0 ((flag op1 + flag op2) % 2)), trim (set r.1 0 (flag op1))))

unfoldable pub modulo : List ℕ → List ℕ → List ℕ → Res ArithError (List ℕ)
unfolding div sub assign
modulo dest op n = do
  r ← div (array 130) dest op n
  let d = set r.1 0 0
  if not (flag op == 0) && not (is_zero d)
      then (do t ← sub (array 130) n d; ok (set (assign d t) 0 0))
      else ok d

unfoldable pub add_mod : List ℕ → List ℕ → List ℕ → List ℕ → Res ArithError (List ℕ)
unfolding add modulo
add_mod dest op1 op2 n = do s ← add (array 130) op1 op2; modulo dest s n

unfoldable pub sub_mod : List ℕ → List ℕ → List ℕ → List ℕ → Res ArithError (List ℕ)
unfolding sub modulo
sub_mod dest op1 op2 n = do s ← sub (array 130) op1 op2; modulo dest s n

unfoldable pub mul_mod : List ℕ → List ℕ → List ℕ → List ℕ → Res ArithError (List ℕ)
unfolding mul modulo
mul_mod dest op1 op2 n = modulo dest (mul (array 260) op1 op2) n

unfoldable pub square_mod : List ℕ → List ℕ → List ℕ → Res ArithError (List ℕ)
unfolding mul_mod
square_mod dest op n = mul_mod dest op op n

-- The loop over the bits of the exponent from the lowest on, with `left` of them to go.
unfoldable pub exp_loop : ℕ → ℕ → List ℕ → List ℕ → List ℕ → List ℕ → Res ArithError (List ℕ)
unfolding get_bit mul_mod square_mod assign
exp_loop zero i exp base result n = ok result
exp_loop (suc left) i exp base result n = do
  t ← (if get_bit exp i then mul_mod (array 130) result base n else ok result)
  sq ← square_mod (array 130) base n
  exp_loop left (i + 1) exp (assign base sq) (assign result t) n

unfoldable pub exp_mod : List ℕ → List ℕ → List ℕ → List ℕ → Res ArithError (List ℕ)
unfolding modulo from_s32 exp_loop get_bit_count assign
exp_mod dest op exp n = do
  base ← modulo (array 130) op n
  one ← from_s32 (array 130) (pos 1)
  result ← exp_loop (get_bit_count exp) 0 exp base one n
  ok (assign dest result)

unfoldable pub convert_to_fmm : List ℕ → List ℕ → List ℕ → Res ArithError (List ℕ)
unfolding modulo
convert_to_fmm dest src n = modulo dest src n

unfoldable pub convert_from_fmm : List ℕ → List ℕ → List ℕ → Res ArithError (List ℕ)
unfolding modulo
convert_from_fmm dest src n = modulo dest src n

unfoldable pub compute_fmm : List ℕ → List ℕ → List ℕ → List ℕ → Res ArithError (List ℕ)
unfolding mul_mod
compute_fmm dest op1 op2 n = mul_mod dest op1 op2 n
