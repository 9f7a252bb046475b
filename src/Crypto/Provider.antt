-- ===== src/Crypto/Provider.antt =====
-- crates/rustee-crypto/src/lib.rs and crates/rustee-crypto/src/provider.rs: AES in its modes, the
-- authenticated encryption and the derivations over the primitives of third-party crates. An `out`
-- argument is its length, and the result is what it holds afterwards.
use rustee.Prelude.{
  ℕ, zero, suc, ◌+◌, ◌-◌, ◌*◌, ◌/◌, ◌%◌, min, List, [], ◌∷◌, ◌++◌, Option, none, some, Bool, true,
  false, not, ◌||◌, length, get_or, take, drop, leb, ◌==◌, ◌≡◌, ◌<◌, ◌≤◌, ◌^◌, if◌then◌else◌, Res,
  ok, err, panic, ◌>>=◌, ◌>>◌, ensure, ok_or,
}
use Prim.Native.Nat.{bit_xor}
pub mod Gcm

pub data CryptoError : Type 0 where
  unsupported invalid_length invalid_nonce auth_failure key_rejected entropy_error
        ree_entropy_not_allowed ree_huk_not_allowed :
      CryptoError

-- The block cipher (`aes`), the authenticated encryption (`aes_gcm`: key, nonce, associated data and
-- message), `hmac` and `hkdf` (key material, info and the number of bytes).
pub record Primitives : Type 0 where
  pub encrypt_block : List ℕ → List ℕ → List ℕ
  pub decrypt_block : List ℕ → List ℕ → List ℕ
  pub gcm_encrypt : List ℕ → List ℕ → List ℕ → List ℕ → Option (List ℕ)
  pub gcm_decrypt : List ℕ → List ℕ → List ℕ → List ℕ → Option (List ℕ)
  pub hmac : List ℕ → List ℕ → Option (List ℕ)
  pub hkdf_expand : List ℕ → List ℕ → ℕ → Option (List ℕ)

-- `AesKey::from_bytes`: a key is its bytes.
unfoldable pub from_bytes : List ℕ → Res CryptoError (List ℕ)
from_bytes bytes = if length bytes == 16 || length bytes == 32 then ok bytes else err invalid_length

module _ (p : Primitives) where
  -- The loop over the blocks of sixteen bytes.
  unfoldable pub crypt_blocks : List ℕ → ℕ → List ℕ → Bool → List ℕ
  crypt_blocks key zero bytes encrypt = []
  crypt_blocks key (suc n) bytes encrypt =
      (if encrypt then p.encrypt_block key (take 16 bytes) else p.decrypt_block key (take 16 bytes))
      ++ crypt_blocks key n (drop 16 bytes) encrypt

  unfoldable pub aes_crypt : List ℕ → List ℕ → ℕ → Bool → Res CryptoError (List ℕ)
  unfolding crypt_blocks
  aes_crypt key bytes out encrypt = do
    ensure (length bytes % 16 == 0) invalid_length
    ensure (out == length bytes) invalid_length
    ok (crypt_blocks key (length bytes / 16) bytes encrypt)

  unfoldable pub aes_gcm_encrypt :
      List ℕ → List ℕ → List ℕ → List ℕ → ℕ → Res CryptoError (List ℕ × List ℕ)
  aes_gcm_encrypt key nonce aad pt ct = do
    ensure (ct == length pt) invalid_length
    out ← ok_or (p.gcm_encrypt key nonce aad pt) auth_failure
    ensure (length out == length pt + 16) invalid_length
    ok (take (length pt) out, drop (length pt) out)

  -- `copy_from_slice` panics on another length.
  unfoldable pub aes_gcm_decrypt :
      List ℕ → List ℕ → List ℕ → List ℕ → List ℕ → ℕ → Res CryptoError (List ℕ)
  aes_gcm_decrypt key nonce aad ct tag pt = do
    ensure (pt == length ct) invalid_length
    out ← ok_or (p.gcm_decrypt key nonce aad (ct ++ tag)) auth_failure
    if length out == pt then ok out else panic

  unfoldable pub hmac_sha256 : List ℕ → List ℕ → Res CryptoError (List ℕ)
  hmac_sha256 key bytes = ok_or (p.hmac key bytes) key_rejected

  unfoldable pub hkdf_sha256 : List ℕ → List ℕ → ℕ → Res CryptoError (List ℕ)
  hkdf_sha256 ikm info okm = ok_or (p.hkdf_expand ikm info okm) invalid_length
