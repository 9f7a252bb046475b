-- ===== src/Crypto/Modes.antt =====
-- AES in CBC and in counter mode (crates/rustee-crypto/src/provider.rs), over `aes_crypt`.
use rustee.Prelude.{
  ℕ, zero, suc, ◌+◌, ◌*◌, ◌/◌, ◌%◌, min, List, [], ◌∷◌, ◌++◌, true, false, length, take, drop, ◌==◌,
  if◌then◌else◌, Res, ok, err, ◌>>=◌, ◌>>◌, ensure,
}
use rustee.Crypto.Arith.Limbs.{reverse}
use rustee.Crypto.Provider.{CryptoError, invalid_length, Primitives, aes_crypt}
use Prim.Native.Nat.{bit_xor}
pub mod Xor
pub mod RoundTrip
pub mod Counter

-- Byte by byte, as far as both go.
unfoldable pub xor_bytes : List ℕ → List ℕ → List ℕ
xor_bytes [] ks = []
xor_bytes (b ∷ bs) [] = []
xor_bytes (b ∷ bs) (k ∷ ks) = bit_xor b k ∷ xor_bytes bs ks

-- The increment from the last byte on, which comes first here.
unfoldable pub carry : List ℕ → List ℕ
carry [] = []
carry (b ∷ bs) = if (b + 1) % 256 == 0 then 0 ∷ carry bs else (b + 1) % 256 ∷ bs

abbrev pub increment : List ℕ → List ℕ
increment ctr = reverse (carry (reverse ctr))

module _ (p : Primitives) where
  -- The loops over the blocks, with the block in front.
  unfoldable pub cbc_encrypt_blocks : List ℕ → List ℕ → List ℕ → ℕ → Res CryptoError (List ℕ)
  unfolding aes_crypt xor_bytes
  cbc_encrypt_blocks key prev pt zero = ok []
  cbc_encrypt_blocks key prev pt (suc n) = do
    outb ← aes_crypt p key (xor_bytes (take 16 pt) prev) 16 true
    rest ← cbc_encrypt_blocks key outb (drop 16 pt) n
    ok (outb ++ rest)

  unfoldable pub cbc_decrypt_blocks : List ℕ → List ℕ → List ℕ → ℕ → Res CryptoError (List ℕ)
  unfolding aes_crypt xor_bytes
  cbc_decrypt_blocks key prev ct zero = ok []
  cbc_decrypt_blocks key prev ct (suc n) = do
    dec ← aes_crypt p key (take 16 ct) 16 false
    rest ← cbc_decrypt_blocks key (take 16 ct) (drop 16 ct) n
    ok (xor_bytes dec prev ++ rest)

  unfoldable pub aes_cbc_encrypt : List ℕ → List ℕ → List ℕ → ℕ → Res CryptoError (List ℕ)
  unfolding cbc_encrypt_blocks
  aes_cbc_encrypt key iv pt ct = do
    ensure (length pt % 16 == 0) invalid_length
    ensure (ct == length pt) invalid_length
    cbc_encrypt_blocks key iv pt (length pt / 16)

  unfoldable pub aes_cbc_decrypt : List ℕ → List ℕ → List ℕ → ℕ → Res CryptoError (List ℕ)
  unfolding cbc_decrypt_blocks
  aes_cbc_decrypt key iv ct pt = do
    ensure (length ct % 16 == 0) invalid_length
    ensure (pt == length ct) invalid_length
    cbc_decrypt_blocks key iv ct (length ct / 16)

  -- The loop in counter mode takes a step for every sixteen bytes that are left, and one for a rest.
  unfoldable pub ctr_loop : ℕ → List ℕ → List ℕ → List ℕ → Res CryptoError (List ℕ)
  unfolding aes_crypt xor_bytes carry
  ctr_loop zero key ctr inout = ok inout
  ctr_loop (suc n) key ctr [] = ok []
  ctr_loop (suc n) key ctr (b ∷ inout) = do
    ks ← aes_crypt p key ctr 16 true
    rest ← ctr_loop n key (increment ctr) (drop 16 (b ∷ inout))
    ok (xor_bytes (take 16 (b ∷ inout)) ks ++ rest)

  unfoldable pub aes_ctr : List ℕ → List ℕ → List ℕ → Res CryptoError (List ℕ)
  unfolding ctr_loop
  aes_ctr key iv inout = ctr_loop (length inout / 16 + 1) key iv inout
