-- ===== src/Crypto/Tests.antt =====
-- The theorems on big integers and on the modes of AES at concrete slices.
use rustee.Prelude.{
  ℕ, ◌*◌, ◌≡◌, ◌++◌, none, replicate, refl, List, [], ◌∷◌, ok, ◌+ℤ◌, arith, length,
}
use rustee.Crypto.Provider.{Primitives}
use rustee.Crypto.Modes.{aes_cbc_encrypt, aes_cbc_decrypt}
use rustee.Crypto.Modes.RoundTrip.{IsBlockCipher, aes_cbc_decrypt-aes_cbc_encrypt}
use rustee.Crypto.Arith.{add, mul}
use rustee.Crypto.Arith.Limbs.Compare.{Trimmed}
use rustee.Crypto.Arith.Magnitude.{IsBigInt, limb_list, magnitude, magnitude-mul}
use rustee.Crypto.Arith.Signed.{int_of, add_lem, add_no_room}

-- 2 ^ 32 + 5, and minus 4294967295
abbrev large : List ℕ
large = 0 ∷ 2 ∷ 5 ∷ 1 ∷ []

abbrev negative : List ℕ
negative = 1 ∷ 1 ∷ 4294967295 ∷ []

abbrev room : List ℕ
room = 0 ∷ 0 ∷ 0 ∷ 0 ∷ 0 ∷ 0 ∷ 0 ∷ []

large-IsBigInt : IsBigInt large
large-IsBigInt = record {
  head = omega arith;
  inside = omega arith;
  words = (omega arith, (omega arith, tt));
}

negative-IsBigInt : IsBigInt negative
negative-IsBigInt = record { head = omega arith; inside = omega arith; words = (omega arith, tt) }

large-Trimmed : Trimmed (limb_list large)
large-Trimmed = omega arith

negative-Trimmed : Trimmed (limb_list negative)
negative-Trimmed = omega arith

magnitude-mul_example : magnitude (mul room large negative) ≡ magnitude large * magnitude negative
magnitude-mul_example =
    magnitude-mul large negative large-IsBigInt negative-IsBigInt room (omega arith)

add_lem_example :
    (d : List ℕ) × (add room large negative ≡ ok d) × (int_of d ≡ int_of large +ℤ int_of negative)
add_lem_example =
    add_lem large negative room large-IsBigInt negative-IsBigInt large-Trimmed negative-Trimmed
      (omega arith)

-- A destination as long as the summands.
add_no_room_example :
    (d : List ℕ) × (add large large large ≡ ok d) × (magnitude d ≡ magnitude large)
add_no_room_example =
    add_no_room large large large large-IsBigInt large-IsBigInt refl (omega arith) (omega arith)
      (omega arith)

-- A block cipher that leaves a block as it is.
abbrev plain_blocks : Primitives
plain_blocks = record {
  encrypt_block = λ key block. block;
  decrypt_block = λ key block. block;
  gcm_encrypt = λ key nonce aad msg. none;
  gcm_decrypt = λ key nonce aad packed. none;
  hmac = λ key bytes. none;
  hkdf_expand = λ ikm info n. none;
}

plain_blocks-IsBlockCipher : IsBlockCipher plain_blocks
plain_blocks-IsBlockCipher = record {
  inverts = λ key block size. refl;
  keeps = λ key block size. size;
}

abbrev text : List ℕ
text = replicate 16 65 ++ replicate 16 66

aes_cbc_decrypt-aes_cbc_encrypt_example :
    (ct : List ℕ) × (aes_cbc_encrypt plain_blocks [] (replicate 16 3) text 32 ≡ ok ct)
    × (length ct ≡ 32)
    × (aes_cbc_decrypt plain_blocks [] (replicate 16 3) ct 32 ≡ ok text)
aes_cbc_decrypt-aes_cbc_encrypt_example =
    aes_cbc_decrypt-aes_cbc_encrypt plain_blocks [] (replicate 16 3) text plain_blocks-IsBlockCipher
      refl (omega arith)
