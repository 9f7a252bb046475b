-- ===== src/Crypto/Provider/Gcm.antt =====
-- Authenticated encryption (`aes_gcm_encrypt`, `aes_gcm_decrypt`) and the derivations.
use rustee.Prelude.{
  ℕ, ◌+◌, ◌^◌, ◌<◌, ◌≤◌, ◌≡◌, refl, List, some, true, arith, length, take, drop, ◌==◌, ok,
  length-take, length-drop,
}
use rustee.Bytes.Laws.{take-append-drop}
use rustee.Crypto.Provider.{Primitives, aes_gcm_encrypt, aes_gcm_decrypt, hmac_sha256, hkdf_sha256}

-- What the crates promise: lengths, and that a message that has been encrypted is decrypted.
pub record IsGcm (p : Primitives) : Type 0 where
  pub encrypts :
      (key nonce aad msg : List ℕ)
      → length msg < 2 ^ 36
      → length aad < 2 ^ 36
      → (out : List ℕ) × (p.gcm_encrypt key nonce aad msg ≡ some out)
        × (length out ≡ length msg + 16)
        × (p.gcm_decrypt key nonce aad out ≡ some msg)
  pub macs :
      (key bytes : List ℕ) → (mac : List ℕ) × (p.hmac key bytes ≡ some mac) × (length mac ≡ 32)
  pub derives :
      (ikm info : List ℕ) (n : ℕ)
      → n ≤ 8160
      → (okm : List ℕ) × (p.hkdf_expand ikm info n ≡ some okm) × (length okm ≡ n)

module _ (p : Primitives) (laws : IsGcm p) where
  -- With primitives that keep their promises, a message and associated data below the cipher's limits
  -- are encrypted into a text as long as the message and a tag of sixteen bytes, which decrypt to the
  -- message.
  pub aes_gcm_decrypt-aes_gcm_encrypt :
      (key nonce aad msg : List ℕ)
      → length msg < 2 ^ 36
      → length aad < 2 ^ 36
      → (ct : List ℕ) × (tag : List ℕ) × (aes_gcm_encrypt p key nonce aad msg (length msg)
          ≡ ok (ct, tag))
        × (length ct ≡ length msg)
        × (length tag ≡ 16)
        × (aes_gcm_decrypt p key nonce aad ct tag (length msg) ≡ ok msg)
  unfolding aes_gcm_encrypt aes_gcm_decrypt
  aes_gcm_decrypt-aes_gcm_encrypt key nonce aad msg hm ha =
      let (out, enc, size, dec) = laws.encrypts key nonce aad msg hm ha in
      let m = length msg in
      let same : (m == m) ≡ true = ground arith in
      let exact : (length out == m + 16) ≡ true = ground (arith, size) in
      let text : length (take m out) ≡ m = omega (arith, length-take m out, size) in
      let fits : (m == length (take m out)) ≡ true = ground (arith, text) in
      (
        take m out,
        drop m out,
        rw (same, enc, exact) refl,
        text,
        omega (arith, length-drop m out, size),
        rw (fits, take-append-drop m out, dec, same) refl,
      )

  pub hkdf_sha256-total :
      (ikm info : List ℕ)
      → (okm : List ℕ) × (hkdf_sha256 p ikm info 32 ≡ ok okm) × (length okm ≡ 32)
  unfolding hkdf_sha256
  hkdf_sha256-total ikm info =
      let (okm, e, l) = laws.derives ikm info 32 (omega arith) in (okm, rw e refl, l)

  pub hmac_sha256-total :
      (key bytes : List ℕ) → (mac : List ℕ) × (hmac_sha256 p key bytes ≡ ok mac) × (length mac ≡ 32)
  unfolding hmac_sha256
  hmac_sha256-total key bytes = let (mac, e, l) = laws.macs key bytes in (mac, rw e refl, l)
