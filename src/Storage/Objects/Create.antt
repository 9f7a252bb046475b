-- ===== src/Storage/Objects/Create.antt =====
-- Creating an object (`create` and `store_dir` of crates/rustee-storage/src/lib.rs), in a directory that
-- is not there yet and in one that is.
use rustee.Prelude.{
  ℕ, ◌^◌, ◌<◌, ◌≤◌, ◌≡◌, ◌≢◌, refl, ap, ◌∙◌, sym, List, [], ◌∷◌, ◌++◌, none, true, arith, length,
  get_or, leb, ok, err, le→leb,
}
use rustee.Crypto.Provider.Gcm.{IsGcm}
use rustee.Storage.Env.{StorageError, Env, ReeFs, lift, >>=-ok, >>=-err, else_run}
use rustee.Storage.Format.{
  ObjectMeta, FileRef, dir_path, obj_dir, obj_path, hex32, dir_bytes, parse_dir, position,
  put_extra,
}
use rustee.Storage.Handle.{ObjectHandle, max_object}
use rustee.Storage.Seal.{open_dir, decrypt_object}
use rustee.Storage.Seal.Object.{HandleFits}
use rustee.Storage.Objects.{
  write_object, load_dir, load_dir_full, store_dir, store_dir_full, create,
}
use rustee.Storage.Objects.Steps.{
  IsStore, Refuses, after, store_dir_full-written, write_object-written,
}

-- The paths of a directory and of an object differ behind the TA's name.
prefix_cancel : (xs ys zs : List ℕ) → xs ++ ys ≡ xs ++ zs → ys ≡ zs
prefix_cancel [] ys zs e = e
prefix_cancel (x ∷ xs) ys zs e = prefix_cancel xs ys zs (cc)

pub dir_path_apart : (ta file_id : List ℕ) → dir_path ta ≢ obj_path ta file_id
unfolding dir_path obj_path
dir_path_apart ta file_id e =
    (let tails = prefix_cancel (hex32 ta) _ _ e in
      absurd (omega (arith, ap (λ l. get_or l 1 0) tails)))

-- The handle that `create` returns and the entry that it adds; the file id is what the entropy source
-- gives.
abbrev pub new_handle :
    {E F : Type 0} (env : Env E F) (ta object_id : List ℕ) (flags : ℕ) (bytes : List ℕ)
    (s : ReeFs E F)
    → ObjectHandle
new_handle env ta object_id flags bytes s = record {
  ta = ta;
  file_id = (env.rng.fill s.entropy 16).0;
  object_id = object_id;
  flags = flags;
  contents = bytes;
  obj_version = 1;
}

abbrev pub new_entry : (object_id : List ℕ) (flags : ℕ) (bytes : List ℕ) → ObjectMeta
new_entry object_id flags bytes = record {
  object_id = object_id;
  flags = flags;
  data_size = length bytes;
}

module _ {E F : Type 0} (env : Env E F) (laws : IsGcm env.provider) (store : IsStore env.rpc)
    (ta : List ℕ) where
  pub load_dir-ok :
      (s : ReeFs E F) (d : List ObjectMeta × List FileRef)
      → load_dir_full env ta s ≡ (ok d, s)
      → load_dir env ta s ≡ (ok d.0, s)
  unfolding load_dir
  load_dir-ok s d e = >>=-ok (load_dir_full env ta) (λ x. lift (ok x.0)) s s d e

  pub load_dir-err :
      (s : ReeFs E F) (code : StorageError)
      → load_dir_full env ta s ≡ (err code, s)
      → load_dir env ta s ≡ (err code, s)
  unfolding load_dir
  load_dir-err s code e = >>=-err (load_dir_full env ta) (λ x. lift (ok x.0)) s s code e

  pub store_dir-ok :
      (s : ReeFs E F) (entries : List ObjectMeta) (extra : List FileRef)
      (d : List ObjectMeta × List FileRef)
      → load_dir_full env ta s ≡ (ok d, s)
      → store_dir env ta entries extra s ≡ store_dir_full env ta entries (put_extra d.1 extra 0) s
  unfolding store_dir
  store_dir-ok s entries extra d e = rw (e, store_dir) refl

  pub store_dir-err :
      (s : ReeFs E F) (entries : List ObjectMeta) (extra : List FileRef) (code : StorageError)
      → load_dir_full env ta s ≡ (err code, s)
      → store_dir env ta entries extra s ≡ store_dir_full env ta entries (put_extra [] extra 0) s
  unfolding store_dir
  store_dir-err s entries extra code e = rw (e, store_dir) refl

  -- The steps of `create` from what they come out as.
  module _ (object_id : List ℕ) (flags : ℕ) (bytes : List ℕ) (s : ReeFs E F) where
    abbrev drawn : List ℕ × E
    drawn = env.rng.fill s.entropy 16

    abbrev handle : ObjectHandle
    handle = new_handle env ta object_id flags bytes s

    abbrev entry : ObjectMeta
    entry = new_entry object_id flags bytes

    create-steps :
        (es : List ObjectMeta) (s₂ s' : ReeFs E F)
        → length bytes ≤ max_object
        → else_run (load_dir env ta s) (lift (ok [])) ≡ (ok es, s)
        → position es object_id ≡ none
        → write_object env handle (after drawn.1 s.huk s.fs) ≡ (ok tt, s₂)
        → store_dir env ta (es ++ entry ∷ []) ((drawn.0, 1) ∷ []) s₂ ≡ (ok tt, s')
        → create env ta object_id flags bytes s ≡ (ok handle, s')
    unfolding create
    create-steps es s₂ s' small names fresh wrote stored =
        let g : leb (length bytes) max_object ≡ true = le→leb _ _ small in
        let m = store.mkdirs s.fs (hex32 ta) in
        let m' = store.mkdirs s.fs (obj_dir ta) in
        rw (g, m, m', names, fresh, wrote, stored, create) refl

    -- What `create` leaves, from what it finds.
    pub create-from :
        (es : List ObjectMeta) (files' : List FileRef)
        → HandleFits handle
        → length bytes ≤ max_object
        → else_run (load_dir env ta s) (lift (ok [])) ≡ (ok es, s)
        → ((e : E) (f : F)
            → (env.rpc.read_file f (dir_path ta)).0 ≡ (env.rpc.read_file s.fs (dir_path ta)).0
            → store_dir env ta (es ++ entry ∷ []) ((drawn.0, 1) ∷ []) (after e s.huk f)
              ≡ store_dir_full env ta (es ++ entry ∷ []) files' (after e s.huk f))
        → position es object_id ≡ none
        → length (dir_bytes (es ++ entry ∷ []) files') < 2 ^ 35
        → (s' : ReeFs E F) × (blob : List ℕ) × (dir : List ℕ) × (create env ta object_id flags bytes
              s
            ≡ (ok handle, s'))
          × (s'.huk ≡ s.huk)
          × ((env.rpc.read_file s'.fs (dir_path ta)).0 ≡ ok dir)
          × (open_dir env.provider s.huk ta dir ≡ parse_dir (dir_bytes (es ++ entry ∷ []) files'))
          × ((env.rpc.read_file s'.fs (obj_path ta drawn.0)).0 ≡ ok blob)
          × (decrypt_object env.provider s.huk ta drawn.0 object_id flags 1 blob ≡ ok handle)
          × Refuses env handle s.huk blob
    create-from es files' fits small names later fresh room =
        let (e, f, blob, wrote, read, opens, refuses, keeps) =
          write_object-written env laws store handle (after drawn.1 s.huk s.fs) fits in
        let (e', f', dir, stored, read', opens', keeps') =
          store_dir_full-written env laws store ta (es ++ entry ∷ []) files' (after e s.huk f)
            fits.ta_id room in
        (
          after e' s.huk f',
          blob,
          dir,
          create-steps es (after e s.huk f) (after e' s.huk f') small names fresh wrote
              (later e f (keeps (dir_path ta) (dir_path_apart ta drawn.0)) ∙ stored),
          refl,
          ap (λ r. r.0) read',
          opens',
          keeps' (obj_path ta drawn.0) (λ e. dir_path_apart ta drawn.0 (sym e))
              ∙ ap (λ r. r.0) read,
          opens,
          refuses,
        )
