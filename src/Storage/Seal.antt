-- ===== src/Storage/Seal.antt =====
-- How crates/rustee-storage/src/lib.rs protects an object and a directory: the keys, the encrypted
-- blobs and their decryption. The random bytes that the code draws are arguments.
pub mod Laws
pub mod Object
use rustee.Prelude.{
  ℕ, zero, suc, ◌+◌, ◌-◌, ◌*◌, ◌%◌, ◌^◌, ◌&&◌, List, [], ◌∷◌, ◌++◌, Bool, true, false, not, length,
  take, drop, replicate, ltb, leb, ◌==◌, if◌then◌else◌, Res, ok, err, panic, ◌>>=◌, ◌>>◌, ensure,
  bytes_eq,
}
use rustee.Bytes.{to_le, from_le, bytes_at, read_u64, byte_at}
use rustee.Crypto.Provider.{
  Primitives, from_bytes, aes_gcm_encrypt, aes_gcm_decrypt, hmac_sha256, hkdf_sha256,
}
use rustee.Storage.Env.{StorageError, corrupt, crypto_error, map_err}
use rustee.Storage.Format.{ObjectMeta, FileRef, concat, dir_bytes, parse_dir}
use rustee.Storage.Handle.{ObjectHandle}

-- "RSTO", version 1, and what the code authenticates with an object's key.
abbrev pub object_magic : List ℕ
object_magic = 82 ∷ 83 ∷ 84 ∷ 79 ∷ []

abbrev pub key_aad : List ℕ → List ℕ → ℕ → List ℕ
key_aad ta file_id version = concat (object_magic ∷ (1 ∷ []) ∷ ta ∷ file_id ∷ to_le 8 version ∷ [])

-- "RSTE-dir-v1"
abbrev pub dir_aad : List ℕ → List ℕ
dir_aad ta = (82 ∷ 83 ∷ 84 ∷ 69 ∷ 45 ∷ 100 ∷ 105 ∷ 114 ∷ 45 ∷ 118 ∷ 49 ∷ []) ++ ta

-- "rustee.storage.ssk.v1"
abbrev pub ssk_info : List ℕ
ssk_info =
    114 ∷ 117 ∷ 115 ∷ 116 ∷ 101 ∷ 101 ∷ 46 ∷ 115 ∷ 116 ∷ 111 ∷ 114 ∷ 97 ∷ 103 ∷ 101 ∷ 46 ∷ 115 ∷ 115
    ∷ 107 ∷ 46 ∷ 118 ∷ 49 ∷ []

-- "rustee.storage.ta.v1"
abbrev pub ta_info : List ℕ
ta_info =
    114 ∷ 117 ∷ 115 ∷ 116 ∷ 101 ∷ 101 ∷ 46 ∷ 115 ∷ 116 ∷ 111 ∷ 114 ∷ 97 ∷ 103 ∷ 101 ∷ 46 ∷ 116 ∷ 97
    ∷ 46 ∷ 118 ∷ 49 ∷ []

-- "rustee.storage.wrap.v1"
abbrev pub wrap_info : List ℕ
wrap_info =
    114 ∷ 117 ∷ 115 ∷ 116 ∷ 101 ∷ 101 ∷ 46 ∷ 115 ∷ 116 ∷ 111 ∷ 114 ∷ 97 ∷ 103 ∷ 101 ∷ 46 ∷ 119 ∷ 114
    ∷ 97 ∷ 112 ∷ 46 ∷ 118 ∷ 49 ∷ []

-- "rustee.storage.dir.v1"
abbrev pub dir_info : List ℕ
dir_info =
    114 ∷ 117 ∷ 115 ∷ 116 ∷ 101 ∷ 101 ∷ 46 ∷ 115 ∷ 116 ∷ 111 ∷ 114 ∷ 97 ∷ 103 ∷ 101 ∷ 46 ∷ 100 ∷ 105
    ∷ 114 ∷ 46 ∷ 118 ∷ 49 ∷ []

-- "rustee.storage.mac.v1"
abbrev pub mac_info : List ℕ
mac_info =
    114 ∷ 117 ∷ 115 ∷ 116 ∷ 101 ∷ 101 ∷ 46 ∷ 115 ∷ 116 ∷ 111 ∷ 114 ∷ 97 ∷ 103 ∷ 101 ∷ 46 ∷ 109 ∷ 97
    ∷ 99 ∷ 46 ∷ 118 ∷ 49 ∷ []

-- A slice whose ends are out of order or out of range panics; `usize` has 64 bits and wraps.
abbrev slice : Bool → Res StorageError (Unit {0})
slice false = panic
slice true = ok tt

module _ (p : Primitives) where
  unfoldable pub tsk : List ℕ → List ℕ → Res StorageError (List ℕ)
  tsk huk ta = do
    ssk ← map_err (hkdf_sha256 p huk ssk_info 32) crypto_error
    map_err (hkdf_sha256 p ssk (ta_info ++ ta) 32) crypto_error

  unfoldable pub derive : List ℕ → List ℕ → Res StorageError (List ℕ)
  derive key info = map_err (hkdf_sha256 p key info 32) crypto_error

  unfoldable pub wrap_key : List ℕ → List ℕ → Res StorageError (List ℕ)
  unfolding tsk derive
  wrap_key huk ta = do t ← tsk huk ta; derive t wrap_info

  unfoldable pub dir_keys : List ℕ → List ℕ → Res StorageError (List ℕ × List ℕ)
  unfolding tsk derive
  dir_keys huk ta = do
    t ← tsk huk ta
    k_dir ← derive t dir_info
    k_mac ← derive t mac_info
    ok (k_dir, k_mac)

  -- `write_object` from the keys and the nonces on.
  unfoldable pub object_blob :
      List ℕ → List ℕ → List ℕ → List ℕ → ObjectHandle → Res StorageError (List ℕ)
  object_blob k_wrap fek wrap_nonce body_nonce h = do
    key ← map_err (from_bytes k_wrap) crypto_error
    let aad = key_aad h.ta h.file_id h.obj_version
    wrapped ← map_err (aes_gcm_encrypt p key wrap_nonce aad fek 32) crypto_error
    let pt = concat ((length h.object_id % 256 ∷ []) ∷ h.object_id ∷ h.contents ∷ [])
    let baad = aad ++ to_le 8 (length pt)
    body ← map_err (aes_gcm_encrypt p fek body_nonce baad pt (length pt)) crypto_error
    ok (
        concat (
          object_magic
          ∷ (1 ∷ 0 ∷ [])
          ∷ to_le 2 0
          ∷ h.file_id
          ∷ h.ta
          ∷ to_le 8 h.obj_version
          ∷ wrap_nonce
          ∷ body_nonce
          ∷ wrapped.0
          ∷ wrapped.1
          ∷ to_le 8 (length pt)
          ∷ body.0
          ∷ body.1
          ∷ []))

  unfoldable pub decrypt_object :
      List ℕ → List ℕ → List ℕ → List ℕ → ℕ → ℕ → List ℕ → Res StorageError ObjectHandle
  unfolding wrap_key
  decrypt_object huk ta file_id object_id flags obj_version blob = do
    ensure (leb 128 (length blob)) corrupt
    ensure (bytes_eq (bytes_at blob 0 4) object_magic) corrupt
    let pt_len = read_u64 blob 120
    let body_end = (128 + pt_len) % 2 ^ 64
    ensure (leb ((body_end + 16) % 2 ^ 64) (length blob)) corrupt
    slice (leb 128 body_end && leb body_end (length blob))
    k_wrap ← wrap_key huk ta
    key ← map_err (from_bytes k_wrap) crypto_error
    let aad = key_aad ta file_id obj_version
    fek_bytes ←
        map_err
          (aes_gcm_decrypt p key (bytes_at blob 48 12) aad (bytes_at blob 72 32)
            (bytes_at blob 104 16) 32)
          corrupt
    fek ← map_err (from_bytes fek_bytes) crypto_error
    pt ←
        map_err
          (aes_gcm_decrypt p fek (bytes_at blob 60 12) (aad ++ to_le 8 pt_len)
            (bytes_at blob 128 pt_len) (bytes_at blob (128 + pt_len) 16) pt_len)
          corrupt
    ensure (not (length pt == 0)) corrupt
    let oid_len = byte_at pt 0
    ensure (leb (1 + oid_len) (length pt)) corrupt
    ensure (bytes_eq (bytes_at pt 1 oid_len) object_id) corrupt
    let h : ObjectHandle = record {
      ta = ta;
      file_id = file_id;
      object_id = bytes_at pt 1 oid_len;
      flags = flags;
      contents = drop (1 + oid_len) pt;
      obj_version = obj_version;
    }
    ok h

  -- `store_dir_full` from the nonce on.
  unfoldable pub dir_blob : List ℕ → List ℕ → List ℕ → List ℕ → List ℕ → Res StorageError (List ℕ)
  dir_blob k_dir k_mac nonce ta pt = do
    key ← map_err (from_bytes k_dir) crypto_error
    sealed ← map_err (aes_gcm_encrypt p key nonce (dir_aad ta) pt (length pt)) crypto_error
    let body = concat (sealed.0 ∷ sealed.1 ∷ [])
    mac ← map_err (hmac_sha256 p k_mac body) crypto_error
    ok (concat (nonce ∷ body ∷ mac ∷ []))

  -- `load_dir_full` behind the read of the file.
  unfoldable pub open_dir :
      List ℕ → List ℕ → List ℕ → Res StorageError (List ObjectMeta × List FileRef)
  unfolding dir_keys
  open_dir huk ta blob = do
    ensure (leb 60 (length blob)) corrupt
    k ← dir_keys huk ta
    let rest = drop 12 blob
    ensure (leb 48 (length rest)) corrupt
    let ct_and_tag = take (length rest - 32) rest
    expect ← map_err (hmac_sha256 p k.1 ct_and_tag) corrupt
    ensure (bytes_eq expect (drop (length rest - 32) rest)) corrupt
    ensure (leb 16 (length ct_and_tag)) corrupt
    let ct = take (length ct_and_tag - 16) ct_and_tag
    key ← map_err (from_bytes k.0) crypto_error
    pt ←
        map_err
          (aes_gcm_decrypt p key (bytes_at blob 0 12) (dir_aad ta) ct
            (drop (length ct_and_tag - 16) ct_and_tag) (length ct))
          corrupt
    parse_dir pt
