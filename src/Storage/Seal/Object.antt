-- ===== src/Storage/Seal/Object.antt =====
-- An object's blob is decrypted to the object (`write_object` and `decrypt_object`).
use rustee.Prelude.{
  ◌≤◌, panic, lt→leb, leb→le, ℕ, ◌+◌, ◌%◌, ◌^◌, ◌<◌, ◌≡◌, refl, ap, ap₂, ◌∙◌, sym, List, [], ◌∷◌,
  ◌++◌, true, false, arith, length, drop, leb, ◌==◌, ok, length-append, bytes_eq, bytes_eq_refl,
  append-nil, le→leb, lt→==, ◌≢◌, err, Bool-cases, bytes_eq_sound, inl, inr,
}
use rustee.Bytes.{to_le, from_le, bytes_at, read_u64, byte_at}
use rustee.Bytes.Laws.{from_le-to_le, drop-skip, take-exact}
use rustee.Crypto.Provider.{Primitives, aes_gcm_encrypt, aes_gcm_decrypt}
use rustee.Crypto.Provider.Gcm.{IsGcm, aes_gcm_decrypt-aes_gcm_encrypt}
use rustee.Storage.Env.{corrupt}
use rustee.Storage.Format.{concat}
use rustee.Storage.Format.Parts.{bytes_at-part, length-concat}
use rustee.Storage.Handle.{ObjectHandle}
use rustee.Storage.Seal.{wrap_key, key_aad, object_magic, object_blob, decrypt_object}
use rustee.Storage.Seal.Laws.{from_bytes-32}

-- The fields of a handle fit their places in the blob.
pub record HandleFits (h : ObjectHandle) : Type 0 where
  pub ta_id : length h.ta ≡ 16
  pub file_name : length h.file_id ≡ 16
  pub short_id : length h.object_id < 256
  pub small : length h.contents < 2 ^ 35

abbrev plain : ObjectHandle → List ℕ
plain h = concat ((length h.object_id % 256 ∷ []) ∷ h.object_id ∷ h.contents ∷ [])

-- The slices of a blob, in the parts that the code writes.
module _ (magic mark fid ta ver wn bn w t ln ct tag : List ℕ) (n : ℕ) (l0 : length magic ≡ 4)
    (l1 : length mark ≡ 4) (l2 : length fid ≡ 16) (l3 : length ta ≡ 16) (l4 : length ver ≡ 8)
    (l5 : length wn ≡ 12) (l6 : length bn ≡ 12) (l7 : length w ≡ 32) (l8 : length t ≡ 16)
    (l9 : length ln ≡ 8) (l10 : length ct ≡ n) (l11 : length tag ≡ 16) where
  abbrev parts : List (List ℕ)
  parts = magic ∷ mark ∷ fid ∷ ta ∷ ver ∷ wn ∷ bn ∷ w ∷ t ∷ ln ∷ ct ∷ tag ∷ []

  slices :
      (length (concat parts) ≡ 144 + n)
      × (bytes_at (concat parts) 0 4 ≡ magic)
      × (bytes_at (concat parts) 48 12 ≡ wn)
      × (bytes_at (concat parts) 60 12 ≡ bn)
      × (bytes_at (concat parts) 72 32 ≡ w)
      × (bytes_at (concat parts) 104 16 ≡ t)
      × (bytes_at (concat parts) 120 8 ≡ ln)
      × (bytes_at (concat parts) 128 n ≡ ct)
      × (bytes_at (concat parts) (128 + n) 16 ≡ tag)
  slices = (
    omega (arith, length-concat parts, l0, l1, l2, l3, l4, l5, l6, l7, l8, l9, l10, l11),
    bytes_at-part parts 0 0 4 (omega arith) refl (sym l0),
    bytes_at-part parts 5 48 12 (omega arith) (omega (arith, l0, l1, l2, l3, l4)) (sym l5),
    bytes_at-part parts 6 60 12 (omega arith) (omega (arith, l0, l1, l2, l3, l4, l5)) (sym l6),
    bytes_at-part parts 7 72 32 (omega arith) (omega (arith, l0, l1, l2, l3, l4, l5, l6)) (sym l7),
    bytes_at-part parts 8 104 16 (omega arith) (omega (arith, l0, l1, l2, l3, l4, l5, l6, l7))
        (sym l8),
    bytes_at-part parts 9 120 8 (omega arith) (omega (arith, l0, l1, l2, l3, l4, l5, l6, l7, l8))
        (sym l9),
    bytes_at-part parts 10 128 n (omega arith)
        (omega (arith, l0, l1, l2, l3, l4, l5, l6, l7, l8, l9)) (sym l10),
    bytes_at-part parts 11 (128 + n) 16 (omega arith)
        (omega (arith, l0, l1, l2, l3, l4, l5, l6, l7, l8, l9, l10)) (sym l11),
  )

-- The plain text is taken apart again.
plain_parts :
    (h : ObjectHandle)
    → length h.object_id < 256
    → (length (plain h) ≡ 1 + length h.object_id + length h.contents)
      × (byte_at (plain h) 0 ≡ length h.object_id)
      × (bytes_at (plain h) 1 (length h.object_id) ≡ h.object_id)
      × (drop (1 + length h.object_id) (plain h) ≡ h.contents)
unfolding byte_at
plain_parts h short =
    let n = length h.object_id in
    (
      omega (arith, length-append h.object_id (h.contents ++ []), length-append h.contents []),
      omega (arith, short),
      take-exact h.object_id (h.contents ++ []) n refl,
      drop-skip (n % 256 ∷ h.object_id) (h.contents ++ []) (1 + n) 0 (omega arith)
          ∙ append-nil h.contents,
    )

pub bytes_eq-apart : (xs ys : List ℕ) → xs ≢ ys → bytes_eq xs ys ≡ false
bytes_eq-apart xs ys apart = elim (Bool-cases (bytes_eq xs ys)) [
  | inl same ↦ absurd (apart (bytes_eq_sound xs ys same))
  | inr differs ↦ differs
]

-- A blob whose slices are what `write_object` wrote.
module _ (p : Primitives) (huk : List ℕ) (h : ObjectHandle)
    (k_wrap fek wn bn w t ct tag blob pt : List ℕ) (n : ℕ) (key : wrap_key p huk h.ta ≡ ok k_wrap)
    (lk : length k_wrap ≡ 32) (lf : length fek ≡ 32)
    (unwraps : aes_gcm_decrypt p k_wrap wn (key_aad h.ta h.file_id h.obj_version) w t 32 ≡ ok fek)
    (decrypts : aes_gcm_decrypt p fek bn
        (key_aad h.ta h.file_id h.obj_version ++ to_le 8 n)
        ct
        tag
        n
      ≡ ok pt)
    (whole : length blob ≡ 144 + n) (few : n < 2 ^ 40) (len_at : read_u64 blob 120 ≡ n)
    (magic_at : bytes_at blob 0 4 ≡ object_magic) (wn_at : bytes_at blob 48 12 ≡ wn)
    (bn_at : bytes_at blob 60 12 ≡ bn) (w_at : bytes_at blob 72 32 ≡ w)
    (t_at : bytes_at blob 104 16 ≡ t) (ct_at : bytes_at blob 128 n ≡ ct)
    (tag_at : bytes_at blob (128 + n) 16 ≡ tag) (id_at : byte_at pt 0 ≡ length h.object_id)
    (long : length pt ≡ 1 + length h.object_id + length h.contents)
    (oid_at : bytes_at pt 1 (length h.object_id) ≡ h.object_id)
    (contents_at : drop (1 + length h.object_id) pt ≡ h.contents) where
  abbrev handle_with : List ℕ → List ℕ → ObjectHandle
  handle_with oid contents = record {
    ta = h.ta;
    file_id = h.file_id;
    object_id = oid;
    flags = h.flags;
    contents = contents;
    obj_version = h.obj_version;
  }

  opened : decrypt_object p huk h.ta h.file_id h.object_id h.flags h.obj_version blob ≡ ok h
  unfolding decrypt_object
  opened =
      let g : leb 128 (length blob) ≡ true = le→leb _ _ (omega (arith, whole)) in
      let u : (128 + n) % 2 ^ 64 ≡ 128 + n = omega (arith, few) in
      let u' : (128 + n + 16) % 2 ^ 64 ≡ 128 + n + 16 = omega (arith, few) in
      let g' : leb (128 + n + 16) (length blob) ≡ true = le→leb _ _ (omega (arith, whole)) in
      let g₀ : leb 128 (128 + n) ≡ true = le→leb _ _ (omega arith) in
      let g₁ : leb (128 + n) (length blob) ≡ true = le→leb _ _ (omega (arith, whole)) in
      let e : (length pt == 0) ≡ false = lt→== 0 _ (omega (arith, long)) in
      let l : leb (1 + byte_at pt 0) (length pt) ≡ true = le→leb _ _ (omega (arith, long, id_at)) in
      let oid : bytes_at pt 1 (byte_at pt 0) ≡ h.object_id =
        ap (λ k. bytes_at pt 1 k) id_at ∙ oid_at in
      let same : bytes_eq (bytes_at pt 1 (byte_at pt 0)) h.object_id ≡ true =
        ap (λ o. bytes_eq o h.object_id) oid ∙ bytes_eq_refl h.object_id in
      let rest : drop (1 + byte_at pt 0) pt ≡ h.contents =
        ap (λ k. drop (1 + k) pt) id_at ∙ contents_at in
      rw
        (
          g,
          magic_at,
          bytes_eq_refl object_magic,
          len_at,
          u,
          u',
          g',
          g₀,
          g₁,
          key,
          from_bytes-32 k_wrap lk,
          wn_at,
          w_at,
          t_at,
          unwraps,
          from_bytes-32 fek lf,
          bn_at,
          ct_at,
          tag_at,
          decrypts,
          e,
          l,
          same,
          decrypt_object,
        )
        (ap₂ (λ o c. ok (handle_with o c)) oid rest)

  -- Under another id the blob is refused.
  refused :
      (object_id : List ℕ) (flags : ℕ)
      → object_id ≢ h.object_id
      → decrypt_object p huk h.ta h.file_id object_id flags h.obj_version blob ≡ err corrupt
  unfolding decrypt_object
  refused object_id flags other =
      let g : leb 128 (length blob) ≡ true = le→leb _ _ (omega (arith, whole)) in
      let u : (128 + n) % 2 ^ 64 ≡ 128 + n = omega (arith, few) in
      let u' : (128 + n + 16) % 2 ^ 64 ≡ 128 + n + 16 = omega (arith, few) in
      let g' : leb (128 + n + 16) (length blob) ≡ true = le→leb _ _ (omega (arith, whole)) in
      let g₀ : leb 128 (128 + n) ≡ true = le→leb _ _ (omega arith) in
      let g₁ : leb (128 + n) (length blob) ≡ true = le→leb _ _ (omega (arith, whole)) in
      let e : (length pt == 0) ≡ false = lt→== 0 _ (omega (arith, long)) in
      let l : leb (1 + byte_at pt 0) (length pt) ≡ true = le→leb _ _ (omega (arith, long, id_at)) in
      let oid : bytes_at pt 1 (byte_at pt 0) ≡ h.object_id =
        ap (λ k. bytes_at pt 1 k) id_at ∙ oid_at in
      let differs : bytes_eq (bytes_at pt 1 (byte_at pt 0)) object_id ≡ false =
        ap (λ o. bytes_eq o object_id) oid
        ∙ bytes_eq-apart h.object_id object_id (λ e. other (sym e)) in
      rw
        (
          g,
          magic_at,
          bytes_eq_refl object_magic,
          len_at,
          u,
          u',
          g',
          g₀,
          g₁,
          key,
          from_bytes-32 k_wrap lk,
          wn_at,
          w_at,
          t_at,
          unwraps,
          from_bytes-32 fek lf,
          bn_at,
          ct_at,
          tag_at,
          decrypts,
          e,
          l,
          differs,
          decrypt_object,
        )
        refl

-- The blob of an object, what it is decrypted to and what it is refused as.
pub object_blob-opens :
    (p : Primitives) (huk k_wrap fek wrap_nonce body_nonce : List ℕ) (h : ObjectHandle)
    → IsGcm p
    → HandleFits h
    → wrap_key p huk h.ta ≡ ok k_wrap
    → length k_wrap ≡ 32
    → length fek ≡ 32
    → length wrap_nonce ≡ 12
    → length body_nonce ≡ 12
    → (blob : List ℕ) × (object_blob p k_wrap fek wrap_nonce body_nonce h ≡ ok blob)
      × (decrypt_object p huk h.ta h.file_id h.object_id h.flags h.obj_version blob ≡ ok h)
      × ((object_id : List ℕ) (flags : ℕ)
          → object_id ≢ h.object_id
          → decrypt_object p huk h.ta h.file_id object_id flags h.obj_version blob ≡ err corrupt)
unfolding object_blob read_u64
object_blob-opens p huk k_wrap fek wn bn h laws fits key lk lf lwn lbn =
    let aad = key_aad h.ta h.file_id h.obj_version in
    let n = length (plain h) in
    let text = plain_parts h fits.short_id in
    let aad_size : length aad < 2 ^ 35 = omega (
      arith,
      length-append h.ta (h.file_id ++ (to_le 8 h.obj_version ++ [])),
      length-append h.file_id (to_le 8 h.obj_version ++ []),
      fits.ta_id,
      fits.file_name,
    ) in
    let baad_size : length (aad ++ to_le 8 n) < 2 ^ 36 =
      omega (arith, length-append aad (to_le 8 n), aad_size) in
    let (w, t, wraps, lw, lt, unwraps) =
      aes_gcm_decrypt-aes_gcm_encrypt p laws k_wrap wn aad fek (omega (arith, lf))
        (omega (arith, aad_size)) in
    let (ct, tag, encrypts, lct, ltag, decrypts) =
      aes_gcm_decrypt-aes_gcm_encrypt p laws fek bn (aad ++ to_le 8 n) (plain h)
        (omega (arith, text.0, fits.short_id, fits.small)) baad_size in
    let lw' : length w ≡ 32 = lw ∙ lf in
    let s =
      slices object_magic (1 ∷ 0 ∷ 0 ∷ 0 ∷ []) h.file_id h.ta (to_le 8 h.obj_version) wn bn w t
        (to_le 8 n) ct tag n refl refl fits.file_name fits.ta_id refl lwn lbn lw' lt refl lct
        ltag in
    let wraps' : aes_gcm_encrypt p k_wrap wn aad fek 32 ≡ ok (w, t) =
      ap (aes_gcm_encrypt p k_wrap wn aad fek) (sym lf) ∙ wraps in
    let unwraps' : aes_gcm_decrypt p k_wrap wn aad w t 32 ≡ ok fek =
      ap (aes_gcm_decrypt p k_wrap wn aad w t) (sym lf) ∙ unwraps in
    let short : n < 2 ^ 40 = omega (arith, text.0, fits.short_id, fits.small) in
    let len_at =
      ap from_le s.6 ∙ from_le-to_le 8 n (omega (arith, text.0, fits.short_id, fits.small)) in
    (
      concat (
          parts object_magic (1 ∷ 0 ∷ 0 ∷ 0 ∷ []) h.file_id h.ta (to_le 8 h.obj_version) wn bn w t
            (to_le 8 n) ct tag n refl refl fits.file_name fits.ta_id refl lwn lbn lw' lt refl lct
            ltag),
      rw (from_bytes-32 k_wrap lk, wraps', encrypts) refl,
      opened p huk h k_wrap fek wn bn w t ct tag _ (plain h) n key lk lf unwraps' decrypts s.0 short
          len_at s.1 s.2 s.3 s.4 s.5 s.7 s.8 text.1 text.0 text.2 text.3,
      refused p huk h k_wrap fek wn bn w t ct tag _ (plain h) n key lk lf unwraps' decrypts s.0
          short len_at s.1 s.2 s.3 s.4 s.5 s.7 s.8 text.1 text.0 text.2 text.3,
    )

-- With primitives that keep their promises and the key of its TA, an object whose fields fit their
-- places is written as a blob, which is decrypted to the same object.
pub decrypt_object-object_blob :
    (p : Primitives) (huk k_wrap fek wrap_nonce body_nonce : List ℕ) (h : ObjectHandle)
    → IsGcm p
    → HandleFits h
    → wrap_key p huk h.ta ≡ ok k_wrap
    → length k_wrap ≡ 32
    → length fek ≡ 32
    → length wrap_nonce ≡ 12
    → length body_nonce ≡ 12
    → (blob : List ℕ) × (object_blob p k_wrap fek wrap_nonce body_nonce h ≡ ok blob)
      × (decrypt_object p huk h.ta h.file_id h.object_id h.flags h.obj_version blob ≡ ok h)
decrypt_object-object_blob p huk k_wrap fek wn bn h laws fits key lk lf lwn lbn =
    let (blob, written, opens, refuses) =
      object_blob-opens p huk k_wrap fek wn bn h laws fits key lk lf lwn lbn in
    (blob, written, opens)

-- A blob of at least 144 and fewer than 2 ^ 63 bytes with the magic number, whose length of the
-- encrypted part is in the last 144 numbers of the 64-bit words, makes the decryption panic, before anything in it is authenticated.
pub decrypt_object-panics :
    (p : Primitives) (huk ta file_id object_id blob : List ℕ) (flags obj_version : ℕ)
    → 144 ≤ length blob
    → length blob < 2 ^ 63
    → bytes_at blob 0 4 ≡ object_magic
    → 2 ^ 64 ≤ read_u64 blob 120 + 144
    → read_u64 blob 120 < 2 ^ 64
    → decrypt_object p huk ta file_id object_id flags obj_version blob ≡ panic
unfolding decrypt_object
decrypt_object-panics p huk ta file_id object_id blob flags obj_version long fits magic high word =
    let n = read_u64 blob 120 in
    let end = (128 + n) % 2 ^ 64 in
    let g : leb 128 (length blob) ≡ true = le→leb _ _ (omega (arith, long)) in
    let m = ap (λ b. bytes_eq b object_magic) magic ∙ bytes_eq_refl object_magic in
    let g' : leb ((end + 16) % 2 ^ 64) (length blob) ≡ true =
      le→leb _ _ (omega (arith, long, high, word)) in
    elim (Bool-cases (leb 128 end)) [
      | inr low ↦ rw (g, m, g', low, decrypt_object) refl
      | inl behind ↦
          let over : leb end (length blob) ≡ false =
            lt→leb _ _ (omega (arith, leb→le _ _ behind, high, word, fits)) in
          rw (g, m, g', behind, over, decrypt_object) refl
    ]
