-- ===== src/Storage/Objects/Writing.antt =====
-- A write through a handle (`write` and `upsert_dir` of crates/rustee-storage/src/lib.rs), and what `open`
-- then finds.
use rustee.Prelude.{
  ℕ, ◌+◌, ◌^◌, ◌<◌, ◌≤◌, ◌≡◌, refl, ap, ap₂, ◌∙◌, sym, max, List, [], some, arith, length,
  get_elem?, set, ok, lt→ltb, length-set,
}
use rustee.Crypto.Provider.Gcm.{IsGcm}
use rustee.Storage.Env.{Env, ReeFs, lift, >>=-ok, or_else-ok, unwrap_or}
use rustee.Storage.Format.{ObjectMeta, FileRef, dir_path, obj_path, position}
use rustee.Storage.Format.Directory.{AllMetaFit, AllRefFit, parse_dir-dir_bytes}
use rustee.Storage.Format.Replacing.{
  get_elem?-set, set-AllMetaFit, set-AllRefFit, length-dir_bytes, position-set,
}
use rustee.Storage.Handle.{ObjectHandle, max_object, write_handle, read}
use rustee.Storage.Handle.Laws.{SamePlace, read-write_handle}
use rustee.Storage.Seal.{open_dir, decrypt_object}
use rustee.Storage.Seal.Object.{HandleFits}
use rustee.Storage.Objects.{
  load_dir_full, store_dir_full, write_object, upsert_dir, upsert_in, write, open_object, entry_of,
  at_index,
}
use rustee.Storage.Objects.Create.{dir_path_apart}
use rustee.Storage.Objects.Removal.{pad_files-same}
use rustee.Storage.Objects.Steps.{
  IsStore, after, store_dir_full-written, write_object-written, load_dir_full-read,
}

module _ {E F : Type 0} (env : Env E F) where
  -- `open` from a directory, a blob and what the blob is decrypted to.
  open-at :
      (store : IsStore env.rpc) (ta object_id : List ℕ) (s : ReeFs E F) (entries : List ObjectMeta)
      (files : List FileRef) (i : ℕ) (e : ObjectMeta) (f : FileRef) (blob : List ℕ)
      → load_dir_full env ta s ≡ (ok (entries, files), s)
      → position entries object_id ≡ some i
      → get_elem? entries i ≡ some e
      → get_elem? files i ≡ some f
      → (env.rpc.read_file s.fs (obj_path ta f.0)).0 ≡ ok blob
      → open_object env ta object_id s
        ≡ (decrypt_object env.provider s.huk ta f.0 object_id e.flags f.1 blob, s)
  unfolding open_object
  open-at store ta object_id s entries files i e f blob loaded found entry file present =
      let p : env.rpc.read_file s.fs (obj_path ta f.0) ≡ (ok blob, s.fs) =
        ap₂ (λ r g. (r, g)) present (store.reads s.fs (obj_path ta f.0)) in
      let at_e : at_index entries i ≡ ok e = rw (entry, at_index) refl in
      let at_f : at_index files i ≡ ok f = rw (file, at_index) refl in
      rw (loaded, found, at_f, p, at_e, open_object) refl

  upsert_dir-found :
      (h : ObjectHandle) (s : ReeFs E F) (entries : List ObjectMeta) (files : List FileRef) (i : ℕ)
      → load_dir_full env h.ta s ≡ (ok (entries, files), s)
      → position entries h.object_id ≡ some i
      → i < length files
      → upsert_dir env h s
        ≡ store_dir_full env h.ta
            (set entries i (entry_of env h h.object_id))
            (set files i (h.file_id, h.obj_version))
            s
  unfolding upsert_dir
  upsert_dir-found h s entries files i loaded found inside =
      >>=-ok (unwrap_or (load_dir_full env h.ta) ([], [])) (upsert_in env h) s s (entries, files)
        (or_else-ok (load_dir_full env h.ta) (lift (ok ([], []))) s s (entries, files) loaded)
      ∙ rw (found, lt→ltb i (length files) inside, upsert_in) refl

  write-steps :
      (h h' : ObjectHandle) (off : ℕ) (buf : List ℕ) (s s₁ s₂ : ReeFs E F)
      → write_handle h off buf ≡ ok h'
      → write_object env h' s ≡ (ok tt, s₁)
      → upsert_dir env h' s₁ ≡ (ok tt, s₂)
      → write env h off buf s ≡ (h', (ok (length buf), s₂))
  unfolding write
  write-steps h h' off buf s s₁ s₂ changed stored listed = rw (changed, stored, listed, write) refl

module _ {E F : Type 0} (env : Env E F) (laws : IsGcm env.provider) (store : IsStore env.rpc)
    (h : ObjectHandle) (s : ReeFs E F) (fits : HandleFits h) (word : h.flags < 2 ^ 32) where
  -- A handle at the same place with other data, stored in the file and in the directory.
  stored-opens :
      (h' : ObjectHandle) (old : List ℕ) (entries : List ObjectMeta) (files : List FileRef) (i : ℕ)
      → SamePlace h h'
      → length h'.contents ≤ max_object
      → (env.rpc.read_file s.fs (dir_path h.ta)).0 ≡ ok old
      → open_dir env.provider s.huk h.ta old ≡ ok (entries, files)
      → length files ≡ length entries
      → position entries h.object_id ≡ some i
      → AllMetaFit entries
      → AllRefFit files
      → length entries < 2 ^ 26
      → (s₁ : ReeFs E F) × (s' : ReeFs E F) × (write_object env h' s ≡ (ok tt, s₁))
        × (upsert_dir env h' s₁ ≡ (ok tt, s'))
        × (open_object env h.ta h.object_id s' ≡ (ok h', s'))
  stored-opens h' old entries files i place small present opened even found metas refs few =
      let ta = h'.ta in
      let (same_ta, same_file, same_id, same_flags, version) = place in
      let ta_id : length ta ≡ 16 = ap length same_ta ∙ fits.ta_id in
      let fits' : HandleFits h' = record {
        ta_id = ta_id;
        file_name = ap length same_file ∙ fits.file_name;
        short_id = omega (arith, ap length same_id, fits.short_id);
        small = omega (arith, small);
      } in
      let e' = entry_of env h' h'.object_id in
      let f' : FileRef = (h'.file_id, h'.obj_version) in
      let es = set entries i e' in
      let fs = set files i f' in
      let metas' = set-AllMetaFit entries i e' metas (record {
        short_id = fits'.short_id;
        flags_word = omega (arith, same_flags, word);
        size_word = omega (arith, small);
      }) in
      let refs' = set-AllRefFit files i f' refs (fits'.file_name, version) in
      let found' : position entries h'.object_id ≡ some i = ap (position entries) same_id ∙ found in
      let (inside, placed) = position-set entries e' i found' in
      let (e₁, f₁, blob, wrote, read₁, opens₁, refuses, keeps₁) =
        write_object-written env laws store h' s fits' in
      let s₁ = after e₁ s.huk f₁ in
      let dir : (env.rpc.read_file f₁ (dir_path ta)).0 ≡ ok old =
        keeps₁ (dir_path ta) (dir_path_apart ta h'.file_id)
        ∙ ap (λ t. (env.rpc.read_file s.fs (dir_path t)).0) same_ta
        ∙ present in
      let loaded : load_dir_full env ta s₁ ≡ (ok (entries, files), s₁) =
        load_dir_full-read env laws store ta old s₁ dir
        ∙ ap (λ r. (r, s₁)) (ap (λ t. open_dir env.provider s.huk t old) same_ta ∙ opened) in
      let (e₂, f₂, blob₂, stored, read₂, opens₂, keeps₂) =
        store_dir_full-written env laws store ta es fs s₁ ta_id
          (length-dir_bytes es fs metas' refs' (omega (arith, length-set entries i e', few))) in
      let s' = after e₂ s.huk f₂ in
      let listed : load_dir_full env ta s' ≡ (ok (es, fs), s') =
        load_dir_full-read env laws store ta blob₂ s' (ap (λ r. r.0) read₂)
        ∙ ap (λ r. (r, s'))
            (opens₂
              ∙ parse_dir-dir_bytes es fs metas' refs' (omega (arith, length-set entries i e', few))
              ∙ ap (λ l. ok (es, l))
                  (pad_files-same es fs
                    (omega (arith, length-set entries i e', length-set files i f', even)))) in
      let in_files : i < length files = omega (arith, inside, even) in
      (
        s₁,
        s',
        wrote,
        upsert_dir-found env h' s₁ entries files i loaded found' in_files ∙ stored,
        ap₂ (λ t n. open_object env t n s') (sym same_ta) (sym same_id)
            ∙ open-at env store ta h'.object_id s' es fs i e' f' blob listed placed
                (get_elem?-set entries i e' inside) (get_elem?-set files i f' in_files)
                (keeps₂ (obj_path ta h'.file_id) (λ e. dir_path_apart ta h'.file_id (sym e))
                  ∙ ap (λ r. r.0) read₁)
            ∙ ap (λ r. (r, s')) opens₁,
      )

  -- With primitives that keep their promises and a file system that keeps what is written: a write
  -- through a handle whose fields fit their places and whose object stands in its directory, which has
  -- fewer than 2 ^ 26 entries whose fields fit and a file for each of them, succeeds if it and the data
  -- end within the limit of an object, and reports the number of bytes. The handle's data are as long as
  -- they were, or up to the end of the write; a read of as many bytes at the same place gives what was
  -- written; and opening the object gives the handle that the write has left.
  pub open_object-write :
      (off : ℕ) (buf into old : List ℕ) (entries : List ObjectMeta) (files : List FileRef) (i : ℕ)
      → length h.contents ≤ max_object
      → off + length buf ≤ max_object
      → length into ≡ length buf
      → (env.rpc.read_file s.fs (dir_path h.ta)).0 ≡ ok old
      → open_dir env.provider s.huk h.ta old ≡ ok (entries, files)
      → length files ≡ length entries
      → position entries h.object_id ≡ some i
      → AllMetaFit entries
      → AllRefFit files
      → length entries < 2 ^ 26
      → (h' : ObjectHandle) × (s' : ReeFs E F) × (write env h off buf s
          ≡ (h', (ok (length buf), s')))
        × (length h'.contents ≡ max (length h.contents) (off + length buf))
        × (read h' off into ≡ (length buf, buf))
        × (open_object env h.ta h.object_id s' ≡ (ok h', s'))
  open_object-write off buf into old entries files i whole limit same present opened even found
        metas refs few =
      let (h', changed, size, reads, place) = read-write_handle h off buf into limit same in
      let (s₁, s', wrote, listed, opens) =
        stored-opens h' old entries files i place (omega (arith, size, whole, limit)) present opened
          even found metas refs few in
      (h', s', write-steps env h h' off buf s s₁ s' changed wrote listed, size, reads, opens)
