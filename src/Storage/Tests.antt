-- ===== src/Storage/Tests.antt =====
-- The storage at a concrete environment: primitives that append an empty tag, a file system in memory
-- and an entropy source that gives zeros.
use rustee.Prelude.{
  panic, ℕ, ◌-◌, ◌≡◌, ◌≢◌, refl, get_or, bytes_eq, ap, List, [], ◌∷◌, ◌++◌, some, none, ok, err,
  arith, length, take, replicate, length-append, length-replicate, max, bytes_eq_refl,
  if◌then◌else◌, ◌==◌,
}
use rustee.Bytes.{read_u32, read_u64, byte_at}
use rustee.Bytes.Laws.{take-exact}
use rustee.Crypto.Provider.{Primitives, aes_gcm_decrypt, hkdf_sha256, hmac_sha256, from_bytes}
use rustee.Crypto.Provider.Gcm.{IsGcm}
use rustee.Storage.Env.{corrupt, not_found, Entropy, Env, ReeFs}
use rustee.Storage.Format.{
  ObjectMeta, FileRef, dir_bytes, dir_entries, dir_path, parse_dir, parse_entries, position,
}
use rustee.Storage.Format.Directory.{MetaFits, pad_files, parse_dir-dir_bytes}
use rustee.Storage.Handle.{ObjectHandle, read}
use rustee.Storage.Memory.{MemFs, mem_fs, mem_fs-IsStore, lookup}
use rustee.Storage.Objects.Removal.{open_object-delete}
use rustee.Storage.Objects.Writing.{open_object-write}
use rustee.Storage.Objects.{write, delete, create, open_object, load_dir_full}
use rustee.Storage.Objects.Create.{new_handle}
use rustee.Storage.Objects.Opening.{open_object-create, open_object-create_other}
use rustee.Storage.Rpc.{put, read_loop, rpc_create, rpc_read}
use rustee.Storage.Rpc.Whole.{rpc_read-rpc_create}
use rustee.Storage.Rpc.Files.{put-read}
use rustee.Storage.Rpc.FdMem.{FdMem, fd_mem, contents}
use rustee.Storage.Rpc.FdMem.Laws.{fd_mem-IsFiles}
use rustee.Storage.Seal.{
  object_magic, open_dir, dir_keys, tsk, derive, wrap_key, object_blob, decrypt_object,
}
use rustee.Storage.Seal.Object.{decrypt_object-object_blob, decrypt_object-panics}

abbrev plain : Primitives
plain = record {
  encrypt_block = λ key block. block;
  decrypt_block = λ key block. block;
  gcm_encrypt = λ key nonce aad msg. some (msg ++ replicate 16 0);
  gcm_decrypt = λ key nonce aad packed. some (take (length packed - 16) packed);
  hmac = λ key bytes. some (replicate 32 0);
  hkdf_expand = λ ikm info n. some (replicate n 0);
}

decrypted :
    (msg : List ℕ) → take (length (msg ++ replicate 16 0) - 16) (msg ++ replicate 16 0) ≡ msg
decrypted msg =
    take-exact msg (replicate 16 0) _ (omega (arith, length-append msg (replicate 16 0)))

plain-IsGcm : IsGcm plain
plain-IsGcm = record {
  encrypts = λ key nonce aad msg hm ha.
      (msg ++ replicate 16 0, refl, length-append msg (replicate 16 0), ap some (decrypted msg));
  macs = λ key bytes. (replicate 32 0, refl, refl);
  derives = λ ikm info n h. (replicate n 0, refl, length-replicate n 0);
}

abbrev zeros : Entropy ℕ
zeros = record { fill = λ e n. (replicate n 0, e); length-fill = λ e n. length-replicate n 0 }

abbrev env : Env ℕ MemFs
env = record { provider = plain; rng = zeros; rpc = mem_fs }

abbrev empty : ReeFs ℕ MemFs
empty = record { entropy = 0; huk = replicate 32 7; fs = [] }

abbrev ta : List ℕ
ta = replicate 16 9

abbrev hello : List ℕ
hello = 104 ∷ 101 ∷ 108 ∷ 108 ∷ 111 ∷ []

abbrev meta : ObjectMeta
meta = record { object_id = 111 ∷ 105 ∷ 100 ∷ []; flags = 0; data_size = 5 }

meta-MetaFits : MetaFits meta
meta-MetaFits = record { short_id = omega arith; flags_word = omega arith; size_word = omega arith }

abbrev a_file : FileRef
a_file = (replicate 16 3, 1)

parse_dir-dir_bytes_example :
    parse_dir (dir_bytes (meta ∷ meta ∷ []) (a_file ∷ []))
    ≡ ok (meta ∷ meta ∷ [], pad_files (meta ∷ meta ∷ []) (a_file ∷ []))
parse_dir-dir_bytes_example =
    parse_dir-dir_bytes (meta ∷ meta ∷ []) (a_file ∷ []) (meta-MetaFits, (meta-MetaFits, tt))
      ((refl, omega arith), tt) (omega arith)

open_object-create_example :
    (s' : ReeFs ℕ MemFs) × (create env ta meta.object_id 0 hello empty
      ≡ (ok (new_handle env ta meta.object_id 0 hello empty), s'))
    × (open_object env ta meta.object_id s'
        ≡ (ok (new_handle env ta meta.object_id 0 hello empty), s'))
unfolding lookup
open_object-create_example =
    open_object-create env plain-IsGcm mem_fs-IsStore ta meta.object_id 0 hello empty refl
      (omega arith) (omega arith) (omega arith) not_found refl

-- A directory of one object, and the id of another one.
abbrev one_dir : List ℕ
one_dir = replicate 12 0 ++ (dir_bytes (meta ∷ []) (a_file ∷ []) ++ replicate 48 0)

abbrev one_object : ReeFs ℕ MemFs
one_object = record { entropy = 0; huk = replicate 32 7; fs = (dir_path ta, one_dir) ∷ [] }

abbrev other_id : List ℕ
other_id = 116 ∷ 119 ∷ 111 ∷ []

one_dir-opened : open_dir plain (replicate 32 7) ta one_dir ≡ ok (meta ∷ [], a_file ∷ [])
unfolding open_dir dir_keys tsk derive hkdf_sha256 hmac_sha256 bytes_eq from_bytes aes_gcm_decrypt
    parse_dir parse_entries read_u32 read_u64 byte_at dir_bytes dir_entries
one_dir-opened = refl

one_dir-read : (mem_fs.read_file one_object.fs (dir_path ta)).0 ≡ ok one_dir
unfolding lookup
one_dir-read = rw (bytes_eq_refl (dir_path ta)) refl

other_id-apart : other_id ≢ meta.object_id
other_id-apart e = omega (arith, ap (λ l. get_or l 0 0) e)

-- The first object is lost once a second one has been created.
open_object-create_other_example :
    (s' : ReeFs ℕ MemFs) × (create env ta other_id 0 hello one_object
      ≡ (ok (new_handle env ta other_id 0 hello one_object), s'))
    × (open_object env ta meta.object_id s' ≡ (err corrupt, s'))
unfolding position bytes_eq dir_bytes dir_entries
open_object-create_other_example =
    open_object-create_other env plain-IsGcm mem_fs-IsStore ta other_id 0 hello one_object refl
      (omega arith) (omega arith) (omega arith) meta [] a_file [] one_dir one_dir-read
      one_dir-opened refl other_id-apart
      (
        meta-MetaFits,
        (record { short_id = omega arith; flags_word = omega arith; size_word = omega arith }, tt),
      )
      ((refl, omega arith), tt) (omega arith) (omega arith)

-- The handle of the object in that directory.
abbrev one_handle : ObjectHandle
one_handle = record {
  ta = ta;
  file_id = replicate 16 3;
  object_id = meta.object_id;
  flags = 0;
  contents = hello;
  obj_version = 1;
}

open_object-write_example :
    (h' : ObjectHandle) × (s' : ReeFs ℕ MemFs) × (write env one_handle 3 hello one_object
      ≡ (h', (ok 5, s')))
    × (length h'.contents ≡ max 5 8)
    × (read h' 3 (replicate 5 0) ≡ (5, hello))
    × (open_object env ta meta.object_id s' ≡ (ok h', s'))
unfolding position bytes_eq
open_object-write_example =
    open_object-write env plain-IsGcm mem_fs-IsStore one_handle one_object
      (record { ta_id = refl; file_name = refl; short_id = omega arith; small = omega arith })
      (omega arith) 3 hello (replicate 5 0) one_dir (meta ∷ []) (a_file ∷ []) 0 (omega arith)
      (omega arith) refl one_dir-read one_dir-opened refl refl (meta-MetaFits, tt)
      ((refl, omega arith), tt) (omega arith)

decrypt_object-object_blob_example :
    let h = new_handle env ta meta.object_id 0 hello empty in
    (blob : List ℕ) × (object_blob plain
        (replicate 32 0)
        (replicate 32 1)
        (replicate 12 2)
        (replicate 12 3)
        h
      ≡ ok blob)
    × (decrypt_object plain (replicate 32 7) h.ta h.file_id h.object_id h.flags h.obj_version blob
        ≡ ok h)
unfolding wrap_key tsk derive hkdf_sha256
decrypt_object-object_blob_example =
    decrypt_object-object_blob plain (replicate 32 7) (replicate 32 0) (replicate 32 1)
      (replicate 12 2) (replicate 12 3) (new_handle env ta meta.object_id 0 hello empty) plain-IsGcm
      (record { ta_id = refl; file_name = refl; short_id = omega arith; small = omega arith }) refl
      refl refl refl refl

-- The descriptor 1 is open on a file.
abbrev one_fd : FdMem
one_fd = record { files = (ta, hello) ∷ []; fds = λ i. if i == 1 then some ta else none; next = 2 }

one_fd-contents : contents ta one_fd 1 ≡ some hello
unfolding lookup bytes_eq
one_fd-contents = refl

-- What nobody has opened is not written.
fd_mem-unopened : (put fd_mem one_fd 7 (1 ∷ [])).0 ≡ err not_found
unfolding put
fd_mem-unopened = refl

put-read_example :
    (m : FdMem) × (m' : FdMem) × (put fd_mem one_fd 1 (replicate 9 1) ≡ (ok tt, m))
    × (contents ta m 1 ≡ some (replicate 9 1))
    × (read_loop fd_mem 1 m 1 [] ≡ (ok (replicate 9 1), m'))
    × (contents ta m' 1 ≡ some (replicate 9 1))
put-read_example =
    put-read fd_mem (contents ta) one_fd 1 (replicate 9 1) hello 1 (fd_mem-IsFiles ta)
      one_fd-contents (omega arith) (omega arith)

rpc_read-rpc_create_example :
    (m₁ : FdMem) × (m₂ : FdMem) × (rpc_create fd_mem one_fd ta (replicate 9 1) ≡ (ok tt, m₁))
    × (lookup m₁.files ta ≡ ok (replicate 9 1))
    × (rpc_read fd_mem 1 m₁ ta ≡ (ok (replicate 9 1), m₂))
    × (lookup m₂.files ta ≡ ok (replicate 9 1))
rpc_read-rpc_create_example =
    rpc_read-rpc_create one_fd ta (replicate 9 1) 1 (omega arith) (omega arith)

open_object-delete_example :
    (s' : ReeFs ℕ MemFs) × (delete env ta meta.object_id one_object ≡ (ok tt, s'))
    × (load_dir_full env ta s' ≡ (ok ([], []), s'))
    × (open_object env ta meta.object_id s' ≡ (err not_found, s'))
unfolding position bytes_eq dir_bytes dir_entries
open_object-delete_example =
    open_object-delete env plain-IsGcm mem_fs-IsStore ta meta.object_id one_object one_dir
      (meta ∷ []) (a_file ∷ []) 0 a_file refl one_dir-read one_dir-opened refl refl refl refl
      (meta-MetaFits, tt) ((refl, omega arith), tt) (omega arith) (omega arith)

-- A blob whose encrypted part would be longer than the address space.
abbrev long_blob : List ℕ
long_blob = object_magic ++ (replicate 116 0 ++ (replicate 8 255 ++ replicate 16 0))

decrypt_object-panics_example : decrypt_object plain [] ta a_file.0 hello 0 1 long_blob ≡ panic
unfolding read_u64
decrypt_object-panics_example =
    decrypt_object-panics plain [] ta a_file.0 hello long_blob 0 1 (omega arith) (omega arith) refl
      (omega arith) (omega arith)
