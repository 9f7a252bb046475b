-- ===== src/Client/Context/Uuids.antt =====
-- The UUID of a TA on its way from the client (`Uuid::from_bytes`, `Uuid::words`) through two words of a
-- message to the guest (`uuid_from_words` of guest/rustee-guest/src/proto_cmd.rs).
use rustee.Prelude.{ℕ, ◌/◌, ◌%◌, ◌^◌, ◌≡◌, refl, ap, ap₂, ◌∙◌, List, [], ◌∷◌, ◌++◌, arith}
use rustee.Bytes.{IsBytes, from_be}
use rustee.Guest.{uuid_from_words}
use rustee.Client.Context.{uuid_from_bytes, words, low_word}

-- The eight bytes of a word from its highest on.
abbrev octets : ℕ → List ℕ
octets w =
    w / 2 ^ 56 % 256
    ∷ w / 2 ^ 48 % 256
    ∷ w / 2 ^ 40 % 256
    ∷ w / 2 ^ 32 % 256
    ∷ w / 2 ^ 24 % 256
    ∷ w / 2 ^ 16 % 256
    ∷ w / 2 ^ 8 % 256
    ∷ w % 256
    ∷ []

abbrev word : List ℕ → ℕ
word b = from_be 0 b

octets-word :
    (b0 b1 b2 b3 b4 b5 b6 b7 : ℕ)
    → IsBytes (b0 ∷ b1 ∷ b2 ∷ b3 ∷ b4 ∷ b5 ∷ b6 ∷ b7 ∷ [])
    → octets (word (b0 ∷ b1 ∷ b2 ∷ b3 ∷ b4 ∷ b5 ∷ b6 ∷ b7 ∷ []))
      ≡ b0 ∷ b1 ∷ b2 ∷ b3 ∷ b4 ∷ b5 ∷ b6 ∷ b7 ∷ []
octets-word b0 b1 b2 b3 b4 b5 b6 b7 (h0, (h1, (h2, (h3, (h4, (h5, (h6, (h7, _)))))))) =
    ap₂ ◌∷◌ (omega arith) (
      ap₂ ◌∷◌ (omega arith) (
        ap₂ ◌∷◌ (omega arith) (
          ap₂ ◌∷◌ (omega arith) (
            ap₂ ◌∷◌ (omega arith)
              (ap₂ ◌∷◌ (omega arith) (ap₂ ◌∷◌ (omega arith) (ap₂ ◌∷◌ (omega arith) refl)))))))

-- The sixteen bytes that name a TA, turned into a client's UUID and into the two words of the message
-- that opens a session, are the bytes that the guest makes of the two words.
pub uuid_from_words-words :
    (b0 b1 b2 b3 b4 b5 b6 b7 b8 b9 b10 b11 b12 b13 b14 b15 : ℕ)
    → IsBytes
        (b0 ∷ b1 ∷ b2 ∷ b3 ∷ b4 ∷ b5 ∷ b6 ∷ b7 ∷ b8 ∷ b9 ∷ b10 ∷ b11 ∷ b12 ∷ b13 ∷ b14 ∷ b15 ∷ [])
    → let b =
        b0 ∷ b1 ∷ b2 ∷ b3 ∷ b4 ∷ b5 ∷ b6 ∷ b7 ∷ b8 ∷ b9 ∷ b10 ∷ b11 ∷ b12 ∷ b13 ∷ b14 ∷ b15 ∷ [] in
      uuid_from_words (words (uuid_from_bytes b)).0 (words (uuid_from_bytes b)).1 ≡ b
unfolding uuid_from_words words low_word uuid_from_bytes
uuid_from_words-words b0 b1 b2 b3 b4 b5 b6 b7 b8 b9 b10 b11 b12 b13 b14 b15
      (h0, (h1, (h2, (h3, (h4, (h5, (h6, (h7, low)))))))) =
    let high =
      octets-word b0 b1 b2 b3 b4 b5 b6 b7 (h0, (h1, (h2, (h3, (h4, (h5, (h6, (h7, tt)))))))) in
    let low_octets = octets-word b8 b9 b10 b11 b12 b13 b14 b15 low in
    let hi_eq : (words (
          uuid_from_bytes (
            b0 ∷ b1 ∷ b2 ∷ b3 ∷ b4 ∷ b5 ∷ b6 ∷ b7 ∷ b8 ∷ b9 ∷ b10 ∷ b11 ∷ b12 ∷ b13 ∷ b14 ∷ b15
            ∷ []))).0
        ≡ word (b0 ∷ b1 ∷ b2 ∷ b3 ∷ b4 ∷ b5 ∷ b6 ∷ b7 ∷ []) =
      omega arith in
    let lo_eq : (words (
          uuid_from_bytes (
            b0 ∷ b1 ∷ b2 ∷ b3 ∷ b4 ∷ b5 ∷ b6 ∷ b7 ∷ b8 ∷ b9 ∷ b10 ∷ b11 ∷ b12 ∷ b13 ∷ b14 ∷ b15
            ∷ []))).1
        ≡ word (b8 ∷ b9 ∷ b10 ∷ b11 ∷ b12 ∷ b13 ∷ b14 ∷ b15 ∷ []) =
      omega arith in
    ap₂ ◌++◌ (ap octets hi_eq ∙ high) (ap octets lo_eq ∙ low_octets)
