-- ===== src/Storage/Objects.antt =====
-- The objects of crates/rustee-storage/src/lib.rs: `ReeFs` and its operations, which run on what is left
-- of the entropy source and on the file system.
pub mod Steps
pub mod Create
pub mod Opening
pub mod Removal
pub mod Writing
use rustee.Prelude.{
  ℕ, zero, suc, ◌+◌, ◌%◌, ◌^◌, List, [], ◌∷◌, ◌++◌, Option, none, some, Bool, true, false, not,
  length, get_elem?, set, ltb, leb, if◌then◌else◌, Res, ok, err, panic, replicate,
}
use rustee.Crypto.Provider.{from_bytes}
use rustee.Storage.Env.{
  StorageError, corrupt, not_found, too_big, crypto_error, fs_error, map_err, Env, ReeFs, Io, ◌>>=◌,
  ◌>>◌, lift, or_else, unwrap_or, ignore, map_code, fill_random, fs_read, fs_delete, fs_mkdir,
  fs_write, fs_create,
}
use rustee.Storage.Format.{
  ObjectMeta, FileRef, dir_path, obj_dir, obj_path, hex32, dir_bytes, position, remove, put_extra,
}
use rustee.Storage.Handle.{ObjectHandle, max_object, write_handle, truncate_handle}
use rustee.Storage.Seal.{wrap_key, dir_keys, object_blob, decrypt_object, dir_blob, open_dir}

-- An early return, and a slice index that panics out of range.
abbrev check : Bool → StorageError → Res StorageError (Unit {0})
check test code = if test then ok tt else err code

abbrev found : Option ℕ → Res StorageError ℕ
found none = err not_found
found (some i) = ok i

abbrev at_index {ℓ} : {A : Type ℓ} → List A → ℕ → Res StorageError A
at_index xs i = elim (get_elem? xs i) [ none ↦ panic | some x ↦ ok x ]

module _ {E F : Type 0} (env : Env E F) where
  -- The key material that the state carries.
  abbrev huk_of : Io E F (List ℕ)
  huk_of = λ s. (ok s.huk, s)

  unfoldable pub write_object : ObjectHandle → Io E F (Unit {0})
  unfolding object_blob wrap_key
  write_object h = do
    huk ← huk_of
    k_wrap ← lift (wrap_key env.provider huk h.ta)
    fek_bytes ← fill_random env 32
    fek ← lift (map_err (from_bytes fek_bytes) crypto_error)
    wrap_nonce ← fill_random env 12
    body_nonce ← fill_random env 12
    blob ← lift (object_blob env.provider k_wrap fek wrap_nonce body_nonce h)
    let path = obj_path h.ta h.file_id
    or_else (fs_write env path blob) (fs_create env path blob)

  unfoldable pub load_dir_full : List ℕ → Io E F (List ObjectMeta × List FileRef)
  unfolding open_dir
  load_dir_full ta = do
    blob ← map_code (fs_read env (dir_path ta)) not_found
    huk ← huk_of
    lift (open_dir env.provider huk ta blob)

  unfoldable pub load_dir : List ℕ → Io E F (List ObjectMeta)
  unfolding load_dir_full
  load_dir ta = do d ← load_dir_full ta; lift (ok d.0)

  unfoldable pub store_dir_full : List ℕ → List ObjectMeta → List FileRef → Io E F (Unit {0})
  unfolding dir_blob dir_keys
  store_dir_full ta entries files = do
    huk ← huk_of
    k ← lift (dir_keys env.provider huk ta)
    nonce ← fill_random env 12
    blob ← lift (dir_blob env.provider k.0 k.1 nonce ta (dir_bytes entries files))
    let path = dir_path ta
    or_else (fs_write env path blob) (fs_create env path blob)

  unfoldable pub store_dir : List ℕ → List ObjectMeta → List FileRef → Io E F (Unit {0})
  unfolding load_dir_full store_dir_full put_extra
  store_dir ta entries extra = do
    existing ← unwrap_or (load_dir_full ta) ([], [])
    store_dir_full ta entries (put_extra existing.1 extra 0)

  unfoldable pub create : List ℕ → List ℕ → ℕ → List ℕ → Io E F ObjectHandle
  unfolding load_dir write_object store_dir
  create ta object_id flags bytes = do
    lift (check (leb (length bytes) max_object) too_big)
    ignore (fs_mkdir env (hex32 ta))
    ignore (fs_mkdir env (obj_dir ta))
    entries ← unwrap_or (load_dir ta) []
    lift (check (elim (position entries object_id) [ none ↦ true | some i ↦ false ]) fs_error)
    file_id ← fill_random env 16
    let h : ObjectHandle = record {
      ta = ta;
      file_id = file_id;
      object_id = object_id;
      flags = flags;
      contents = bytes;
      obj_version = 1;
    }
    write_object h
    let e : ObjectMeta = record { object_id = object_id; flags = flags; data_size = length bytes }
    store_dir ta (entries ++ e ∷ []) ((file_id, 1) ∷ [])
    lift (ok h)

  unfoldable pub list : List ℕ → Io E F (List ObjectMeta)
  unfolding load_dir
  list ta = load_dir ta

  unfoldable pub open_object : List ℕ → List ℕ → Io E F ObjectHandle
  unfolding load_dir_full decrypt_object
  open_object ta object_id = do
    d ← load_dir_full ta
    idx ← lift (found (position d.0 object_id))
    f ← lift (at_index d.1 idx)
    blob ← map_code (fs_read env (obj_path ta f.0)) corrupt
    e ← lift (at_index d.0 idx)
    huk ← huk_of
    lift (decrypt_object env.provider huk ta f.0 object_id e.flags f.1 blob)

  abbrev pub entry_of : ObjectHandle → List ℕ → ObjectMeta
  entry_of h object_id = record {
    object_id = object_id;
    flags = h.flags;
    data_size = length h.contents;
  }

  -- The entry of the object in the directory, or a new one.
  abbrev pub upsert_in : ObjectHandle → List ObjectMeta × List FileRef → Io E F (Unit {0})
  upsert_in h d = elim (position d.0 h.object_id) [
    | none ↦
        store_dir_full h.ta (d.0 ++ entry_of h h.object_id ∷ [])
          (d.1 ++ (h.file_id, h.obj_version) ∷ [])
    | some i ↦
        if ltb i (length d.1)
        then store_dir_full h.ta (set d.0 i (entry_of h h.object_id))
            (set d.1 i (h.file_id, h.obj_version))
        else lift panic
  ]

  unfoldable pub upsert_dir : ObjectHandle → Io E F (Unit {0})
  unfolding load_dir_full store_dir_full
  upsert_dir h = do d ← unwrap_or (load_dir_full h.ta) ([], []); upsert_in h d

  -- The handle as the code leaves it, the outcome and the state.
  unfoldable pub write :
      ObjectHandle → ℕ → List ℕ → ReeFs E F → ObjectHandle × (Res StorageError ℕ × ReeFs E F)
  unfolding write_object upsert_dir
  write h off buf s = elim (write_handle h off buf) [
    | err code ↦ (h, (err code, s))
    | panic ↦ (h, (panic, s))
    | ok h' ↦ (h', (do write_object h'; upsert_dir h'; lift (ok (length buf))) s)
  ]

  unfoldable pub truncate :
      ObjectHandle → ℕ → ReeFs E F → ObjectHandle × (Res StorageError (Unit {0}) × ReeFs E F)
  unfolding write_object upsert_dir
  truncate h size s = elim (truncate_handle h size) [
    | err code ↦ (h, (err code, s))
    | panic ↦ (h, (panic, s))
    | ok h' ↦ (h', (do write_object h'; upsert_dir h') s)
  ]

  unfoldable pub delete : List ℕ → List ℕ → Io E F (Unit {0})
  unfolding load_dir_full store_dir_full
  delete ta object_id = do
    d ← load_dir_full ta
    idx ← lift (found (position d.0 object_id))
    f ← lift (at_index d.1 idx)
    ignore (fs_delete env (obj_path ta f.0))
    store_dir_full ta (remove d.0 idx) (remove d.1 idx)

  unfoldable pub rename : List ℕ → List ℕ → List ℕ → Io E F (Unit {0})
  unfolding open_object write_object delete load_dir store_dir
  rename ta old new = do
    h ← open_object ta old
    let h' : ObjectHandle = record {
      ta = h.ta;
      file_id = h.file_id;
      object_id = new;
      flags = h.flags;
      contents = h.contents;
      obj_version = (h.obj_version + 1) % 2 ^ 64;
    }
    write_object h'
    delete ta old
    entries ← unwrap_or (load_dir ta) []
    store_dir ta (entries ++ entry_of h' new ∷ []) ((h'.file_id, h'.obj_version) ∷ [])
