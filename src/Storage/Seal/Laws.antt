-- ===== src/Storage/Seal/Laws.antt =====
-- Blobs are opened again (`write_object` and `decrypt_object`, `store_dir_full` and `load_dir_full`).
use rustee.Prelude.{
  ℕ, ◌+◌, ◌-◌, ◌^◌, ◌<◌, ◌≡◌, refl, ap, ◌∙◌, sym, List, [], ◌∷◌, ◌++◌, true, arith, length, take,
  drop, leb, ok, length-append, bytes_eq_refl, append-nil,
}
use rustee.Bytes.Laws.{drop-skip, take-exact}
use rustee.Crypto.Provider.{Primitives, from_bytes, hmac_sha256, aes_gcm_decrypt}
use rustee.Crypto.Provider.Gcm.{
  IsGcm, aes_gcm_decrypt-aes_gcm_encrypt, hkdf_sha256-total, hmac_sha256-total,
}
use rustee.Storage.Format.{concat, parse_dir}
use rustee.Storage.Seal.{
  tsk, derive, wrap_key, dir_keys, dir_aad, dir_blob, open_dir, ssk_info, ta_info, wrap_info,
  dir_info, mac_info,
}

pub from_bytes-32 : (k : List ℕ) → length k ≡ 32 → from_bytes k ≡ ok k
unfolding from_bytes
from_bytes-32 k h = ground (arith, h)

module _ (p : Primitives) (laws : IsGcm p) (huk ta : List ℕ) where
  pub wrap_key-total : (k : List ℕ) × (wrap_key p huk ta ≡ ok k) × (length k ≡ 32)
  unfolding wrap_key tsk derive
  wrap_key-total =
      let (ssk, e, l) = hkdf_sha256-total p laws huk ssk_info in
      let (t, e', l') = hkdf_sha256-total p laws ssk (ta_info ++ ta) in
      let (k, e'', l'') = hkdf_sha256-total p laws t wrap_info in (k, rw (e, e', e'') refl, l'')

  pub dir_keys-total :
      (k_dir : List ℕ) × (k_mac : List ℕ) × (dir_keys p huk ta ≡ ok (k_dir, k_mac))
      × (length k_dir ≡ 32)
  unfolding dir_keys tsk derive
  dir_keys-total =
      let (ssk, e, l) = hkdf_sha256-total p laws huk ssk_info in
      let (t, e', l') = hkdf_sha256-total p laws ssk (ta_info ++ ta) in
      let (kd, e₁, l₁) = hkdf_sha256-total p laws t dir_info in
      let (km, e₂, l₂) = hkdf_sha256-total p laws t mac_info in
      (kd, km, rw (e, e', e₁, e₂) refl, l₁)

-- The directory.
module _ (p : Primitives) (laws : IsGcm p) (huk ta nonce pt : List ℕ) (n : length nonce ≡ 12)
    (small : length pt < 2 ^ 35) (ta_id : length ta ≡ 16) where
  -- A blob whose slices are the parts that `store_dir_full` wrote.
  module _ (k_dir k_mac ct tag mac body blob : List ℕ)
      (keys : dir_keys p huk ta ≡ ok (k_dir, k_mac)) (lk : length k_dir ≡ 32) (lt : length tag ≡ 16)
      (lm : length mac ≡ 32) (lc : length ct ≡ length pt) (auth : hmac_sha256 p k_mac body ≡ ok mac)
      (dec : aes_gcm_decrypt p k_dir nonce (dir_aad ta) ct tag (length pt) ≡ ok pt)
      (is_body : body ≡ ct ++ tag) (is_blob : blob ≡ nonce ++ (body ++ mac)) where
    size : length body ≡ 16 + length ct
    size = ap length is_body ∙ omega (arith, length-append ct tag, lt)

    rest_is : drop 12 blob ≡ body ++ mac
    rest_is = ap (drop 12) is_blob ∙ drop-skip nonce (body ++ mac) 12 0 (omega (arith, n))

    open_parts : open_dir p huk ta blob ≡ parse_dir pt
    unfolding open_dir
    open_parts =
        let rest_size : length (drop 12 blob) ≡ 48 + length ct =
          ap length rest_is ∙ omega (arith, length-append body mac, size, lm) in
        let blob_size : length blob ≡ 60 + length ct =
          ap length is_blob
          ∙ omega (arith, length-append nonce (body ++ mac), length-append body mac, size, lm, n) in
        let g : leb 60 (length blob) ≡ true = ground (arith, blob_size) in
        let h : leb 48 (length (drop 12 blob)) ≡ true = ground (arith, rest_size) in
        let m : length (drop 12 blob) - 32 ≡ 16 + length ct = omega (arith, rest_size) in
        let is_signed : take (16 + length ct) (drop 12 blob) ≡ body =
          ap (take (16 + length ct)) rest_is ∙ take-exact body mac (16 + length ct) (sym size) in
        let is_mac : drop (16 + length ct) (drop 12 blob) ≡ mac =
          ap (drop (16 + length ct)) rest_is
          ∙ drop-skip body mac (16 + length ct) 0 (omega (arith, size)) in
        let t : leb 16 (length body) ≡ true = ground (arith, size) in
        let m' : length body - 16 ≡ length ct = omega (arith, size) in
        let is_ct : take (length ct) body ≡ ct =
          ap (take (length ct)) is_body ∙ take-exact ct tag (length ct) refl in
        let is_tag : drop (length ct) body ≡ tag =
          ap (drop (length ct)) is_body ∙ drop-skip ct tag (length ct) 0 (omega arith) in
        let is_nonce : take 12 blob ≡ nonce =
          ap (take 12) is_blob ∙ take-exact nonce (body ++ mac) 12 (sym n) in
        rw
          (
            g,
            keys,
            h,
            m,
            is_signed,
            is_mac,
            auth,
            bytes_eq_refl mac,
            t,
            m',
            is_ct,
            is_tag,
            is_nonce,
            from_bytes-32 k_dir lk,
            lc,
            dec,
            open_dir,
          )
          refl

  pub open_dir-dir_blob :
      (k_dir k_mac : List ℕ)
      → dir_keys p huk ta ≡ ok (k_dir, k_mac)
      → length k_dir ≡ 32
      → (blob : List ℕ) × (dir_blob p k_dir k_mac nonce ta pt ≡ ok blob)
        × (open_dir p huk ta blob ≡ parse_dir pt)
  unfolding dir_blob
  open_dir-dir_blob k_dir k_mac keys lk =
      let (ct, tag, enc, lc, lt, dec) =
        aes_gcm_decrypt-aes_gcm_encrypt p laws k_dir nonce (dir_aad ta) pt (omega (arith, small))
          (omega (arith, ta_id)) in
      let (mac, auth, lm) = hmac_sha256-total p laws k_mac (concat (ct ∷ tag ∷ [])) in
      (
        concat (nonce ∷ concat (ct ∷ tag ∷ []) ∷ mac ∷ []),
        rw (from_bytes-32 k_dir lk, enc, auth) refl,
        open_parts k_dir k_mac ct tag mac (concat (ct ∷ tag ∷ [])) _ keys lk lt lm lc auth dec
            (ap (λ l. ct ++ l) (append-nil tag))
            (ap (λ l. nonce ++ (concat (ct ∷ tag ∷ []) ++ l)) (append-nil mac)),
      )
