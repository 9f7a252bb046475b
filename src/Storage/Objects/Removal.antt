-- ===== src/Storage/Objects/Removal.antt =====
-- Deleting an object (`delete` of crates/rustee-storage/src/lib.rs).
use rustee.Prelude.{
  ℕ, zero, suc, ◌^◌, ◌<◌, ◌≤◌, ◌≡◌, refl, ap, ◌∙◌, List, [], ◌∷◌, none, some, arith, length,
  get_elem?, ok, err,
}
use rustee.Crypto.Provider.Gcm.{IsGcm}
use rustee.Storage.Env.{not_found, Env, ReeFs}
use rustee.Storage.Format.{ObjectMeta, FileRef, dir_path, obj_path, dir_bytes, position, remove}
use rustee.Storage.Format.Directory.{AllMetaFit, AllRefFit, pad_files, parse_dir-dir_bytes}
use rustee.Storage.Seal.{open_dir}
use rustee.Storage.Objects.{load_dir_full, store_dir_full, open_object, delete, at_index}
use rustee.Storage.Objects.Steps.{IsStore, after, store_dir_full-written, load_dir_full-read}

pub pad_files-same :
    (entries : List ObjectMeta) (files : List FileRef)
    → length files ≡ length entries
    → pad_files entries files ≡ files
pad_files-same [] [] h = refl
pad_files-same [] (f ∷ files) h = absurd (omega (arith, h))
pad_files-same (e ∷ entries) [] h = absurd (omega (arith, h))
pad_files-same (e ∷ entries) (f ∷ files) h =
    ap (λ l. f ∷ l) (pad_files-same entries files (omega (arith, h)))

length-remove :
    (entries : List ObjectMeta) (files : List FileRef) (i : ℕ)
    → length files ≡ length entries
    → (length (remove files i) ≡ length (remove entries i))
      × (length (remove entries i) ≤ length entries)
length-remove [] [] i h = (refl, omega arith)
length-remove [] (f ∷ files) i h = absurd (omega (arith, h))
length-remove (e ∷ entries) [] i h = absurd (omega (arith, h))
length-remove (e ∷ entries) (f ∷ files) zero h = (omega (arith, h), omega arith)
length-remove (e ∷ entries) (f ∷ files) (suc i) h =
    let r = length-remove entries files i (omega (arith, h)) in (ap suc r.0, omega (arith, r.1))

remove-AllMetaFit :
    (entries : List ObjectMeta) (i : ℕ) → AllMetaFit entries → AllMetaFit (remove entries i)
remove-AllMetaFit [] i m = tt
remove-AllMetaFit (e ∷ entries) zero m = m.1
remove-AllMetaFit (e ∷ entries) (suc i) m = (m.0, remove-AllMetaFit entries i m.1)

remove-AllRefFit : (files : List FileRef) (i : ℕ) → AllRefFit files → AllRefFit (remove files i)
remove-AllRefFit [] i m = tt
remove-AllRefFit (f ∷ files) zero m = m.1
remove-AllRefFit (f ∷ files) (suc i) m = (m.0, remove-AllRefFit files i m.1)

module _ {E F : Type 0} (env : Env E F) (laws : IsGcm env.provider) (store : IsStore env.rpc)
    (ta object_id : List ℕ) where
  delete-steps :
      (s s' : ReeFs E F) (entries : List ObjectMeta) (files : List FileRef) (i : ℕ) (g : FileRef)
      (f : F)
      → load_dir_full env ta s ≡ (ok (entries, files), s)
      → position entries object_id ≡ some i
      → get_elem? files i ≡ some g
      → env.rpc.delete_file s.fs (obj_path ta g.0) ≡ (ok tt, f)
      → store_dir_full env ta (remove entries i) (remove files i) (after s.entropy s.huk f)
        ≡ (ok tt, s')
      → delete env ta object_id s ≡ (ok tt, s')
  unfolding delete
  delete-steps s s' entries files i g f loaded found file gone stored =
      let at : at_index files i ≡ ok g = rw (file, at_index) refl in
      rw (loaded, found, at, gone, stored, delete) refl

  open-missing :
      (s : ReeFs E F) (entries : List ObjectMeta) (files : List FileRef)
      → load_dir_full env ta s ≡ (ok (entries, files), s)
      → position entries object_id ≡ none
      → open_object env ta object_id s ≡ (err not_found, s)
  unfolding open_object
  open-missing s entries files loaded absent = rw (loaded, absent, open_object) refl

  -- With primitives that keep their promises and a file system that keeps what is written: in a
  -- directory whose fields fit their places, with a file for each entry, an object that stands in it once is deleted; the
  -- directory is then without its entry and its file, and the object is not found.
  pub open_object-delete :
      (s : ReeFs E F) (old : List ℕ) (entries : List ObjectMeta) (files : List FileRef) (i : ℕ)
      (g : FileRef)
      → length ta ≡ 16
      → (env.rpc.read_file s.fs (dir_path ta)).0 ≡ ok old
      → open_dir env.provider s.huk ta old ≡ ok (entries, files)
      → length files ≡ length entries
      → position entries object_id ≡ some i
      → get_elem? files i ≡ some g
      → position (remove entries i) object_id ≡ none
      → AllMetaFit entries
      → AllRefFit files
      → length entries < 2 ^ 32
      → length (dir_bytes (remove entries i) (remove files i)) < 2 ^ 35
      → (s' : ReeFs E F) × (delete env ta object_id s ≡ (ok tt, s'))
        × (load_dir_full env ta s' ≡ (ok (remove entries i, remove files i), s'))
        × (open_object env ta object_id s' ≡ (err not_found, s'))
  open_object-delete s old entries files i g id present opened even found file once metas refs few
        room =
      let loaded = load_dir_full-read env laws store ta old s present ∙ ap (λ r. (r, s)) opened in
      let (f, gone, keeps) = store.deletes s.fs (obj_path ta g.0) in
      let (e', f', dir, stored, read, opens, keeps') =
        store_dir_full-written env laws store ta (remove entries i) (remove files i)
          (after s.entropy s.huk f) id room in
      let s' : ReeFs E F = after e' s.huk f' in
      let rest = length-remove entries files i even in
      let listed : load_dir_full env ta s' ≡ (ok (remove entries i, remove files i), s') =
        load_dir_full-read env laws store ta dir s' (ap (λ r. r.0) read)
        ∙ ap (λ r. (r, s'))
            (opens
              ∙ parse_dir-dir_bytes (remove entries i) (remove files i)
                  (remove-AllMetaFit entries i metas) (remove-AllRefFit files i refs)
                  (omega (arith, rest.1, few))
              ∙ ap (λ l. ok (remove entries i, l))
                  (pad_files-same (remove entries i) (remove files i) rest.0)) in
      (
        s',
        delete-steps s s' entries files i g f loaded found file gone stored,
        listed,
        open-missing s' (remove entries i) (remove files i) listed once,
      )
