-- ===== src/Storage/Objects/Steps.antt =====
-- What the storage relies on below it, and its writes and reads of one file on that ground.
use rustee.Prelude.{ℕ, ◌^◌, ◌<◌, ◌≡◌, ◌≢◌, ap, ap₂, ◌∙◌, List, length, ok, err}
use rustee.Crypto.Provider.Gcm.{IsGcm}
use rustee.Storage.Env.{
  StorageError, corrupt, not_found, FsRpc, Env, ReeFs, Io, ◌>>=◌, lift, or_else, or_else-ok, >>=-ok,
  >>=-err, map_code, map_err, fs_read, fs_write, fs_create,
}
use rustee.Storage.Format.{ObjectMeta, FileRef, dir_path, obj_path, dir_bytes, parse_dir}
use rustee.Storage.Format.Directory.{AllMetaFit, AllRefFit, pad_files, parse_dir-dir_bytes}
use rustee.Storage.Handle.{ObjectHandle}
use rustee.Storage.Seal.{decrypt_object, open_dir}
use rustee.Storage.Seal.Laws.{from_bytes-32, wrap_key-total, dir_keys-total, open_dir-dir_blob}
use rustee.Storage.Seal.Object.{HandleFits, object_blob-opens}
use rustee.Storage.Objects.{write_object, load_dir_full, store_dir_full}

-- A file system that keeps what is written, file by file, and on which nothing fails but the read of
-- a file that is not there.
pub record IsStore {F : Type 0} (rpc : FsRpc F) : Type 0 where
  pub writes :
      (f : F) (path bytes : List ℕ)
      → (f' : F) × (rpc.write_file f path bytes ≡ (ok tt, f'))
        × (rpc.read_file f' path ≡ (ok bytes, f'))
        × ((other : List ℕ) → other ≢ path → (rpc.read_file f' other).0 ≡ (rpc.read_file f other).0)
  pub reads : (f : F) (path : List ℕ) → (rpc.read_file f path).1 ≡ f
  pub deletes :
      (f : F) (path : List ℕ)
      → (f' : F) × (rpc.delete_file f path ≡ (ok tt, f'))
        × ((other : List ℕ) → other ≢ path → (rpc.read_file f' other).0 ≡ (rpc.read_file f other).0)
  pub mkdirs : (f : F) (path : List ℕ) → rpc.mkdir f path ≡ (ok tt, f)

abbrev pub after : {E F : Type 0} (e : E) (huk : List ℕ) (f : F) → ReeFs E F
after e huk f = record { entropy = e; huk = huk; fs = f }

-- The state with another file system.
abbrev with_fs : {E F : Type 0} (s : ReeFs E F) (f : F) → ReeFs E F
with_fs s f = record { entropy = s.entropy; huk = s.huk; fs = f }

-- Under another id the blob of an object is refused.
abbrev pub Refuses : {E F : Type 0} (env : Env E F) (h : ObjectHandle) (huk blob : List ℕ) → Type 0
Refuses env h huk blob =
    (object_id : List ℕ) (flags : ℕ)
    → object_id ≢ h.object_id
    → decrypt_object env.provider huk h.ta h.file_id object_id flags h.obj_version blob
      ≡ err corrupt

put_file :
    {E F : Type 0} (env : Env E F) (path blob : List ℕ) (s : ReeFs E F) (f : F)
    → env.rpc.write_file s.fs path blob ≡ (ok tt, f)
    → or_else (fs_write env path blob) (fs_create env path blob) s ≡ (ok tt, with_fs s f)
put_file env path blob s f wrote =
    or_else-ok (fs_write env path blob) (fs_create env path blob) s (with_fs s f) tt
      (ap (λ r. (r.0, with_fs s r.1)) wrote)

module _ {E F : Type 0} (env : Env E F) (laws : IsGcm env.provider) (store : IsStore env.rpc) where
  pub store_dir_full-written :
      (ta : List ℕ) (entries : List ObjectMeta) (files : List FileRef) (s : ReeFs E F)
      → length ta ≡ 16
      → length (dir_bytes entries files) < 2 ^ 35
      → (e : E) × (f : F) × (blob : List ℕ) × (store_dir_full env ta entries files s
          ≡ (ok tt, after e s.huk f))
        × (env.rpc.read_file f (dir_path ta) ≡ (ok blob, f))
        × (open_dir env.provider s.huk ta blob ≡ parse_dir (dir_bytes entries files))
        × ((other : List ℕ)
            → other ≢ dir_path ta
            → (env.rpc.read_file f other).0 ≡ (env.rpc.read_file s.fs other).0)
  unfolding store_dir_full
  store_dir_full-written ta entries files s id small =
      let (k_dir, k_mac, keys, lk) = dir_keys-total env.provider laws s.huk ta in
      let drawn = env.rng.fill s.entropy 12 in
      let (blob, sealed, opens) =
        open_dir-dir_blob env.provider laws s.huk ta drawn.0 (dir_bytes entries files)
          (env.rng.length-fill s.entropy 12) small id k_dir k_mac keys lk in
      let (f, wrote, reads, keeps) = store.writes s.fs (dir_path ta) blob in
      (
        drawn.1,
        f,
        blob,
        rw (keys, sealed, store_dir_full) (put_file env (dir_path ta) blob _ f wrote),
        reads,
        opens,
        keeps,
      )

  pub write_object-written :
      (h : ObjectHandle) (s : ReeFs E F)
      → HandleFits h
      → (e : E) × (f : F) × (blob : List ℕ) × (write_object env h s ≡ (ok tt, after e s.huk f))
        × (env.rpc.read_file f (obj_path h.ta h.file_id) ≡ (ok blob, f))
        × (decrypt_object env.provider s.huk h.ta h.file_id h.object_id h.flags h.obj_version blob
            ≡ ok h)
        × Refuses env h s.huk blob
        × ((other : List ℕ)
            → other ≢ obj_path h.ta h.file_id
            → (env.rpc.read_file f other).0 ≡ (env.rpc.read_file s.fs other).0)
  unfolding write_object
  write_object-written h s fits =
      let (k, key, lk) = wrap_key-total env.provider laws s.huk h.ta in
      let fek = env.rng.fill s.entropy 32 in
      let wn = env.rng.fill fek.1 12 in
      let bn = env.rng.fill wn.1 12 in
      let lf = env.rng.length-fill s.entropy 32 in
      let (blob, sealed, opens, refuses) =
        object_blob-opens env.provider s.huk k fek.0 wn.0 bn.0 h laws fits key lk lf
          (env.rng.length-fill fek.1 12) (env.rng.length-fill wn.1 12) in
      let (f, wrote, reads, keeps) = store.writes s.fs (obj_path h.ta h.file_id) blob in
      (
        bn.1,
        f,
        blob,
        rw (key, from_bytes-32 fek.0 lf, sealed, write_object)
            (put_file env (obj_path h.ta h.file_id) blob _ f wrote),
        reads,
        opens,
        refuses,
        keeps,
      )

  -- `load_dir_full` behind the read.
  abbrev opens : List ℕ → List ℕ → Io E F (List ObjectMeta × List FileRef)
  opens ta blob = (λ s. (ok s.huk, s)) >>= (λ huk. lift (open_dir env.provider huk ta blob))

  pub load_dir_full-read :
      (ta blob : List ℕ) (s : ReeFs E F)
      → (env.rpc.read_file s.fs (dir_path ta)).0 ≡ ok blob
      → load_dir_full env ta s ≡ (open_dir env.provider s.huk ta blob, s)
  unfolding load_dir_full
  load_dir_full-read ta blob s e =
      >>=-ok (map_code (fs_read env (dir_path ta)) not_found) (opens ta) s s blob
        (ap₂ (λ r f. (map_err r not_found, with_fs s f)) e (store.reads s.fs (dir_path ta)))

  pub load_dir_full-missing :
      (ta : List ℕ) (s : ReeFs E F) (code : StorageError)
      → (env.rpc.read_file s.fs (dir_path ta)).0 ≡ err code
      → load_dir_full env ta s ≡ (err not_found, s)
  unfolding load_dir_full
  load_dir_full-missing ta s code e =
      >>=-err (map_code (fs_read env (dir_path ta)) not_found) (opens ta) s s not_found
        (ap₂ (λ r f. (map_err r not_found, with_fs s f)) e (store.reads s.fs (dir_path ta)))

  -- With primitives that keep their promises and a file system that keeps what is written, a directory
  -- whose fields fit their places, of fewer than 2 ^ 32 entries and 2 ^ 35 bytes, is stored under a TA's id
  -- of sixteen bytes, and loaded again: its entries, and a file for each of them.
  pub load_dir_full-store_dir_full :
      (ta : List ℕ) (entries : List ObjectMeta) (files : List FileRef) (s : ReeFs E F)
      → length ta ≡ 16
      → AllMetaFit entries
      → AllRefFit files
      → length entries < 2 ^ 32
      → length (dir_bytes entries files) < 2 ^ 35
      → (s' : ReeFs E F) × (store_dir_full env ta entries files s ≡ (ok tt, s'))
        × (load_dir_full env ta s' ≡ (ok (entries, pad_files entries files), s'))
  load_dir_full-store_dir_full ta entries files s id me fi few small =
      let (e, f, blob, stored, reads, opened, keeps) =
        store_dir_full-written ta entries files s id small in
      let s' = after e s.huk f in
      (
        s',
        stored,
        load_dir_full-read ta blob s' (ap (λ r. r.0) reads)
            ∙ ap (λ r. (r, s')) (opened ∙ parse_dir-dir_bytes entries files me fi few),
      )
