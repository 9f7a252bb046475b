-- ===== src/Storage/Objects/Opening.antt =====
-- What `open` finds after `create` (crates/rustee-storage/src/lib.rs): the new object in a new directory,
-- and in a directory with objects the new one's file in place of the first one's.
use rustee.Prelude.{
  ℕ, suc, ◌^◌, ◌<◌, ◌≤◌, ◌≡◌, ◌≢◌, refl, ap, ap₂, ◌∙◌, sym, List, [], ◌∷◌, ◌++◌, none, arith,
  length, ok, err, length-append, bytes_eq_refl, lt→ltb,
}
use rustee.Crypto.Provider.Gcm.{IsGcm}
use rustee.Storage.Env.{StorageError, corrupt, not_found, Env, ReeFs, lift, else_run}
use rustee.Storage.Format.{
  ObjectMeta, FileRef, dir_path, obj_path, dir_bytes, dir_entries, position, put_extra,
}
use rustee.Storage.Format.Directory.{
  AllMetaFit, AllRefFit, MetaFits, pad_files, parse_dir-dir_bytes,
}
use rustee.Storage.Handle.{ObjectHandle, max_object}
use rustee.Storage.Seal.{open_dir, decrypt_object}
use rustee.Storage.Seal.Object.{HandleFits}
use rustee.Storage.Objects.{load_dir_full, store_dir_full, create, open_object}
use rustee.Storage.Objects.Steps.{IsStore, after, load_dir_full-read, load_dir_full-missing}
use rustee.Storage.Objects.Create.{
  create-from, new_handle, new_entry, load_dir-ok, load_dir-err, store_dir-ok, store_dir-err,
}

-- One file goes to the first place.
put_extra-first : (f x : FileRef) (fs : List FileRef) → put_extra (f ∷ fs) (x ∷ []) 0 ≡ x ∷ fs
unfolding put_extra
put_extra-first f x fs = rw (lt→ltb 0 (suc (length fs)) (omega arith)) refl

module _ {E F : Type 0} (env : Env E F) (laws : IsGcm env.provider) (store : IsStore env.rpc)
    (ta : List ℕ) where
  -- `open` from a directory, a blob and what the blob is decrypted to.
  open-steps :
      (s : ReeFs E F) (e : ObjectMeta) (entries : List ObjectMeta) (f : FileRef)
      (files : List FileRef) (blob : List ℕ)
      → load_dir_full env ta s ≡ (ok (e ∷ entries, f ∷ files), s)
      → (env.rpc.read_file s.fs (obj_path ta f.0)).0 ≡ ok blob
      → open_object env ta e.object_id s
        ≡ (decrypt_object env.provider s.huk ta f.0 e.object_id e.flags f.1 blob, s)
  unfolding open_object position
  open-steps s e entries f files blob loaded read =
      let p : env.rpc.read_file s.fs (obj_path ta f.0) ≡ (ok blob, s.fs) =
        ap₂ (λ r g. (r, g)) read (store.reads s.fs (obj_path ta f.0)) in
      rw (loaded, bytes_eq_refl e.object_id, p, open_object) refl

  module _ (object_id : List ℕ) (flags : ℕ) (bytes : List ℕ) (s : ReeFs E F) (id : length ta ≡ 16)
      (short : length object_id < 256) (small : length bytes ≤ max_object)
      (word : flags < 2 ^ 32) where
    abbrev handle : ObjectHandle
    handle = new_handle env ta object_id flags bytes s

    abbrev entry : ObjectMeta
    entry = new_entry object_id flags bytes

    fits : HandleFits handle
    fits = record {
      ta_id = id;
      file_name = env.rng.length-fill s.entropy 16;
      short_id = short;
      small = omega (arith, small);
    }

    entry-MetaFits : MetaFits entry
    entry-MetaFits = record {
      short_id = short;
      flags_word = word;
      size_word = omega (arith, small);
    }

    one-room : length (dir_bytes (entry ∷ []) ((handle.file_id, 1) ∷ [])) < 2 ^ 35
    unfolding dir_bytes dir_entries
    one-room = omega (
      arith,
      length-append handle.file_id _,
      length-append object_id _,
      env.rng.length-fill s.entropy 16,
      short,
    )

    -- With primitives that keep their promises and a file system that keeps what is written, an object
    -- that is created in a directory that is not there yet is opened again, as it was created. The TA's id
    -- has sixteen bytes, the object's id fewer than 256, the data at most 1 MiB, the flags 32 bits.
    pub open_object-create :
        (code : StorageError)
        → (env.rpc.read_file s.fs (dir_path ta)).0 ≡ err code
        → (s' : ReeFs E F) × (create env ta object_id flags bytes s
            ≡ (ok (new_handle env ta object_id flags bytes s), s'))
          × (open_object env ta object_id s' ≡ (ok (new_handle env ta object_id flags bytes s), s'))
    unfolding position put_extra
    open_object-create code missing =
        let absent = load_dir_full-missing env laws store ta s code missing in
        let (s', blob, dir, created, key, read, opens, read', decrypts, refuses) =
          create-from env laws store ta object_id flags bytes s [] ((handle.file_id, 1) ∷ []) fits
            small
            (ap (λ r. else_run r (lift (ok [])))
              (load_dir-err env laws store ta s not_found absent))
            (λ e f same.
              store_dir-err env laws store ta (after e s.huk f) _ _ not_found
                (load_dir_full-missing env laws store ta (after e s.huk f) code (same ∙ missing)))
            refl one-room in
        let loaded = load_dir_full-read env laws store ta dir s' read in
        let listed : load_dir_full env ta s' ≡ (ok (entry ∷ [], (handle.file_id, 1) ∷ []), s') =
          loaded
          ∙ ap (λ k. (open_dir env.provider k ta dir, s')) key
          ∙ ap (λ r. (r, s'))
              (opens
                ∙ parse_dir-dir_bytes (entry ∷ []) ((handle.file_id, 1) ∷ []) (entry-MetaFits, tt)
                    ((env.rng.length-fill s.entropy 16, omega arith), tt) (omega arith)) in
        (
          s',
          created,
          open-steps s' entry [] (handle.file_id, 1) [] blob listed read'
              ∙ ap
                  (λ k.
                    (decrypt_object env.provider k ta handle.file_id object_id flags 1 blob, s'))
                  key
              ∙ ap (λ r. (r, s')) decrypts,
        )

    -- Under the same conditions, in a directory with objects whose fields fit their places: once another
    -- object has been created, whose id is new, opening the first object fails with Corrupt.
    pub open_object-create_other :
        (e : ObjectMeta) (es : List ObjectMeta) (f : FileRef) (fs : List FileRef) (old : List ℕ)
        → (env.rpc.read_file s.fs (dir_path ta)).0 ≡ ok old
        → open_dir env.provider s.huk ta old ≡ ok (e ∷ es, f ∷ fs)
        → position (e ∷ es) object_id ≡ none
        → object_id ≢ e.object_id
        → AllMetaFit (e ∷ es ++ entry ∷ [])
        → AllRefFit (f ∷ fs)
        → length (es ++ entry ∷ []) < 2 ^ 31
        → length (dir_bytes (e ∷ es ++ entry ∷ []) ((handle.file_id, 1) ∷ fs)) < 2 ^ 35
        → (s' : ReeFs E F) × (create env ta object_id flags bytes s
            ≡ (ok (new_handle env ta object_id flags bytes s), s'))
          × (open_object env ta e.object_id s' ≡ (err corrupt, s'))
    open_object-create_other e es f fs old present opened fresh apart metas refs few room =
        let before = load_dir_full-read env laws store ta old s present ∙ ap (λ r. (r, s)) opened in
        let (s', blob, dir, created, key, read, opens, read', decrypts, refuses) =
          create-from env laws store ta object_id flags bytes s (e ∷ es) ((handle.file_id, 1) ∷ fs)
            fits small
            (ap (λ r. else_run r (lift (ok [])))
              (load_dir-ok env laws store ta s (e ∷ es, f ∷ fs) before))
            (λ k g same.
              store_dir-ok env laws store ta (after k s.huk g) _ _ (e ∷ es, f ∷ fs)
                (load_dir_full-read env laws store ta old (after k s.huk g) (same ∙ present)
                  ∙ ap (λ r. (r, after k s.huk g)) opened)
              ∙ ap (λ x. store_dir_full env ta (e ∷ es ++ entry ∷ []) x (after k s.huk g))
                  (put_extra-first f (handle.file_id, 1) fs))
            fresh room in
        let loaded = load_dir_full-read env laws store ta dir s' read in
        let listed : load_dir_full env ta s' ≡ (
          ok (e ∷ es ++ entry ∷ [], (handle.file_id, 1) ∷ pad_files (es ++ entry ∷ []) fs),
          s',
        ) =
          loaded
          ∙ ap (λ k. (open_dir env.provider k ta dir, s')) key
          ∙ ap (λ r. (r, s'))
              (opens
                ∙ parse_dir-dir_bytes (e ∷ es ++ entry ∷ []) ((handle.file_id, 1) ∷ fs) metas
                    ((env.rng.length-fill s.entropy 16, omega arith), refs.1)
                    (omega (arith, few))) in
        (
          s',
          created,
          open-steps s' e (es ++ entry ∷ []) (handle.file_id, 1) _ blob listed read'
              ∙ ap
                  (λ k. (
                    decrypt_object env.provider k ta handle.file_id e.object_id e.flags 1 blob,
                    s',
                  ))
                  key
              ∙ ap (λ r. (r, s')) (refuses e.object_id e.flags (λ q. apart (sym q))),
        )
