-- ===== src/Crypto/Modes/RoundTrip.antt =====
-- What is encrypted in CBC and in counter mode is decrypted again (`aes_cbc_encrypt`,
-- `aes_cbc_decrypt` and `aes_ctr` of crates/rustee-crypto/src/provider.rs).
use rustee.Prelude.{
  ℕ, zero, suc, ◌+◌, ◌*◌, ◌/◌, ◌%◌, ◌<◌, ◌≤◌, ◌≡◌, refl, ap, ◌∙◌, sym, min, List, [], ◌∷◌, ◌++◌,
  Bool, true, false, arith, length, take, drop, if◌then◌else◌, ok, append-nil, length-append,
  length-take, length-drop, ==_refl, ◌>>=◌,
}
use rustee.Bytes.Laws.{take-append-drop}
use rustee.Crypto.Arith.Limbs.{reverse}
use rustee.Crypto.Provider.{Primitives, crypt_blocks, aes_crypt}
use rustee.Crypto.Modes.{
  xor_bytes, carry, increment, cbc_encrypt_blocks, cbc_decrypt_blocks, aes_cbc_encrypt,
  aes_cbc_decrypt, ctr_loop, aes_ctr,
}
use rustee.Crypto.Modes.Xor.{xor_bytes-xor_bytes, length-xor_bytes}

-- The block cipher maps blocks to blocks, and its decryption undoes its encryption.
pub record IsBlockCipher (p : Primitives) : Type 0 where
  pub inverts :
      (key block : List ℕ)
      → length block ≡ 16
      → p.decrypt_block key (p.encrypt_block key block) ≡ block
  pub keeps : (key block : List ℕ) → length block ≡ 16 → length (p.encrypt_block key block) ≡ 16

take_front :
    (n : ℕ) (xs ys : List ℕ)
    → length xs ≡ min n (length xs + length ys)
    → (take n (xs ++ ys) ≡ xs) × (drop n (xs ++ ys) ≡ ys)
take_front zero [] ys h = (refl, refl)
take_front zero (x ∷ xs) ys h = absurd (omega (arith, h))
take_front (suc n) [] [] h = (refl, refl)
take_front (suc n) [] (y ∷ ys) h = absurd (omega (arith, h))
take_front (suc n) (x ∷ xs) ys h =
    let r = take_front n xs ys (omega (arith, h)) in (ap (λ l. x ∷ l) r.0, r.1)

length-reverse : (bs : List ℕ) → length (reverse bs) ≡ length bs
length-reverse [] = refl
length-reverse (b ∷ bs) = omega (arith, length-append (reverse bs) (b ∷ []), length-reverse bs)

length-carry : (bs : List ℕ) → length (carry bs) ≡ length bs
unfolding carry
length-carry [] = refl
length-carry (b ∷ bs) = ground (arith, length-carry bs)

length-increment : (ctr : List ℕ) → length (increment ctr) ≡ length ctr
length-increment ctr =
    length-reverse (carry (reverse ctr)) ∙ length-carry (reverse ctr) ∙ length-reverse ctr

one_block :
    (p : Primitives) (key block : List ℕ) (encrypt : Bool)
    → length block ≡ 16
    → aes_crypt p key block 16 encrypt
      ≡ ok (if encrypt then p.encrypt_block key block else p.decrypt_block key block)
unfolding aes_crypt crypt_blocks
one_block p key block encrypt size =
    let whole : take 16 block ≡ block =
      ap (take 16) (sym (append-nil block)) ∙ (take_front 16 block [] (omega (arith, size))).0 in
    rw (size, whole, aes_crypt) (ap ok (append-nil _))

module _ (p : Primitives) (laws : IsBlockCipher p) (key : List ℕ) where
  cbc_blocks :
      (n : ℕ) (prev pt : List ℕ)
      → length prev ≡ 16
      → length pt ≡ n * 16
      → (ct : List ℕ) × (cbc_encrypt_blocks p key prev pt n ≡ ok ct)
        × (length ct ≡ n * 16)
        × (cbc_decrypt_blocks p key prev ct n ≡ ok pt)
  unfolding cbc_encrypt_blocks cbc_decrypt_blocks
  cbc_blocks zero prev [] size whole = ([], refl, refl, refl)
  cbc_blocks zero prev (x ∷ pt) size whole = absurd (omega (arith, whole))
  cbc_blocks (suc n) prev pt size whole =
      let x = xor_bytes (take 16 pt) prev in
      let block : length x ≡ 16 =
        omega (arith, length-xor_bytes (take 16 pt) prev, length-take 16 pt, size, whole) in
      let outb = p.encrypt_block key x in
      let out_size = laws.keeps key x block in
      let (ct, later, rest_size, back) =
        cbc_blocks n outb (drop 16 pt) out_size (omega (arith, length-drop 16 pt, whole)) in
      let front = take_front 16 outb ct (omega (arith, out_size)) in
      (
        outb ++ ct,
        rw (one_block p key x true block, later) refl,
        omega (arith, length-append outb ct, out_size, rest_size),
        rw (front.0, front.1, one_block p key outb false out_size, laws.inverts key x block, back)
            (ap ok (
              ap (λ l. l ++ drop 16 pt)
                (xor_bytes-xor_bytes (take 16 pt) prev (omega (arith, length-take 16 pt, size)))
              ∙ take-append-drop 16 pt)),
      )

  ctr_step :
      (n : ℕ) (ctr xs : List ℕ)
      → length ctr ≡ 16
      → 0 < length xs
      → ctr_loop p (suc n) key ctr xs ≡ (
          ctr_loop p n key (increment ctr) (drop 16 xs)
          >>= (λ rest. ok (xor_bytes (take 16 xs) (p.encrypt_block key ctr) ++ rest)))
  unfolding ctr_loop
  ctr_step n ctr [] size some = absurd (omega (arith, some))
  ctr_step n ctr (x ∷ xs) size some = rw (one_block p key ctr true size) refl

  ctr_loop-twice :
      (n : ℕ) (ctr xs : List ℕ)
      → length ctr ≡ 16
      → length xs ≤ n * 16
      → (out : List ℕ) × (ctr_loop p n key ctr xs ≡ ok out)
        × (length out ≡ length xs)
        × (ctr_loop p n key ctr out ≡ ok xs)
  unfolding ctr_loop
  ctr_loop-twice zero ctr [] size few = ([], refl, refl, refl)
  ctr_loop-twice zero ctr (x ∷ xs) size few = absurd (omega (arith, few))
  ctr_loop-twice (suc n) ctr [] size few = ([], refl, refl, refl)
  ctr_loop-twice (suc n) ctr (x ∷ xs) size few =
      let ks = p.encrypt_block key ctr in
      let ks_size = laws.keeps key ctr size in
      let piece = xor_bytes (take 16 (x ∷ xs)) ks in
      let part : length piece ≡ min 16 (length (x ∷ xs)) =
        omega (arith, length-xor_bytes (take 16 (x ∷ xs)) ks, length-take 16 (x ∷ xs), ks_size) in
      let (out, later, same, back) =
        ctr_loop-twice n (increment ctr) (drop 16 (x ∷ xs)) (length-increment ctr ∙ size)
          (omega (arith, length-drop 16 (x ∷ xs), few)) in
      let left = length-drop 16 (x ∷ xs) in
      let front = take_front 16 piece out (omega (arith, part, same, left)) in
      let all : length (piece ++ out) ≡ length (x ∷ xs) =
        omega (arith, length-append piece out, part, same, left) in
      (
        piece ++ out,
        ctr_step n ctr (x ∷ xs) size (omega arith) ∙ rw later refl,
        all,
        ctr_step n ctr (piece ++ out) size (omega (arith, all))
            ∙ rw (front.0, front.1, back)
                (ap ok (
                  ap (λ l. l ++ drop 16 (x ∷ xs))
                    (xor_bytes-xor_bytes (take 16 (x ∷ xs)) ks
                      (omega (arith, length-take 16 (x ∷ xs), ks_size)))
                  ∙ take-append-drop 16 (x ∷ xs))),
      )

-- With a block cipher that keeps its promises, whole blocks are encrypted in CBC mode, and decrypted
-- under the same key and initialization vector to what they were.
pub aes_cbc_decrypt-aes_cbc_encrypt :
    (p : Primitives) (key iv pt : List ℕ)
    → IsBlockCipher p
    → length iv ≡ 16
    → length pt % 16 ≡ 0
    → (ct : List ℕ) × (aes_cbc_encrypt p key iv pt (length pt) ≡ ok ct)
      × (length ct ≡ length pt)
      × (aes_cbc_decrypt p key iv ct (length pt) ≡ ok pt)
unfolding aes_cbc_encrypt aes_cbc_decrypt
aes_cbc_decrypt-aes_cbc_encrypt p key iv pt laws size whole =
    let (ct, enc, same, dec) =
      cbc_blocks p laws key (length pt / 16) iv pt size (omega (arith, whole)) in
    let all : length ct ≡ length pt = omega (arith, same, whole) in
    (ct, rw (whole, ==_refl (length pt)) enc, all, rw (all, whole, ==_refl (length pt)) dec)

-- With a block cipher that keeps its promises, counter mode keeps the length, and a second run under the
-- same key and initial counter block gives the bytes back.
pub aes_ctr-aes_ctr :
    (p : Primitives) (key iv bytes : List ℕ)
    → IsBlockCipher p
    → length iv ≡ 16
    → (out : List ℕ) × (aes_ctr p key iv bytes ≡ ok out)
      × (length out ≡ length bytes)
      × (aes_ctr p key iv out ≡ ok bytes)
unfolding aes_ctr
aes_ctr-aes_ctr p key iv bytes laws size =
    let (out, once, same, twice) =
      ctr_loop-twice p laws key (length bytes / 16 + 1) iv bytes size (omega arith) in
    (out, once, same, ap (λ k. ctr_loop p (k / 16 + 1) key iv out) same ∙ twice)
