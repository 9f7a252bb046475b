-- ===== src/Storage/Memory.antt =====
-- The file system in memory (`MemFs` of crates/rustee-storage/src/lib.rs): a map from paths to bytes.
use rustee.Prelude.{
  ℕ, ◌≡◌, ◌≢◌, refl, ap, ◌∙◌, sym, List, [], ◌∷◌, false, if◌then◌else◌, Res, ok, err, bytes_eq,
  bytes_eq_refl, bytes_eq_sound, Bool-cases, inl, inr,
}
use rustee.Storage.Env.{StorageError, not_found, FsRpc}
use rustee.Storage.Objects.Steps.{IsStore}
use rustee.Storage.Seal.Object.{bytes_eq-apart}

-- The entries of the map; a path stands in one of them at most.
abbrev pub MemFs : Type 0
MemFs = List (List ℕ × List ℕ)

unfoldable pub lookup : MemFs → List ℕ → Res StorageError (List ℕ)
lookup [] path = err not_found
lookup (e ∷ files) path = if bytes_eq e.0 path then ok e.1 else lookup files path

unfoldable pub insert : MemFs → List ℕ → List ℕ → MemFs
insert [] path bytes = (path, bytes) ∷ []
insert (e ∷ files) path bytes =
    if bytes_eq e.0 path then (path, bytes) ∷ files else e ∷ insert files path bytes

unfoldable pub remove_file : MemFs → List ℕ → MemFs
remove_file [] path = []
remove_file (e ∷ files) path = if bytes_eq e.0 path then files else e ∷ remove_file files path

abbrev pub mem_fs : FsRpc MemFs
mem_fs = record {
  create_file = λ f path bytes. (ok tt, insert f path bytes);
  read_file = λ f path. (lookup f path, f);
  write_file = λ f path bytes. (ok tt, insert f path bytes);
  delete_file = λ f path. (ok tt, remove_file f path);
  mkdir = λ f path. (ok tt, f);
}

pub lookup-insert :
    (files : MemFs) (path bytes : List ℕ) → lookup (insert files path bytes) path ≡ ok bytes
unfolding lookup insert
lookup-insert [] path bytes = rw (bytes_eq_refl path) refl
lookup-insert (e ∷ files) path bytes = elim (Bool-cases (bytes_eq e.0 path)) [
  | inl same ↦ rw (same, bytes_eq_refl path) refl
  | inr other ↦ rw (other, other) (lookup-insert files path bytes)
]

lookup-insert_other :
    (files : MemFs) (path bytes other : List ℕ)
    → other ≢ path
    → lookup (insert files path bytes) other ≡ lookup files other
unfolding lookup insert
lookup-insert_other [] path bytes other apart =
    rw (bytes_eq-apart path other (λ e. apart (sym e))) refl
lookup-insert_other (e ∷ files) path bytes other apart = elim (Bool-cases (bytes_eq e.0 path)) [
  | inl same ↦
      let k : bytes_eq e.0 other ≡ false =
        ap (λ x. bytes_eq x other) (bytes_eq_sound e.0 path same)
        ∙ bytes_eq-apart path other (λ e. apart (sym e)) in
      rw (same, bytes_eq-apart path other (λ e. apart (sym e)), k) refl
  | inr differs ↦ rw differs (
      ap (λ r. if bytes_eq e.0 other then ok e.1 else r)
        (lookup-insert_other files path bytes other apart))
]

lookup-remove_file :
    (files : MemFs) (path other : List ℕ)
    → other ≢ path
    → lookup (remove_file files path) other ≡ lookup files other
unfolding lookup remove_file
lookup-remove_file [] path other apart = refl
lookup-remove_file (e ∷ files) path other apart = elim (Bool-cases (bytes_eq e.0 path)) [
  | inl same ↦
      let k : bytes_eq e.0 other ≡ false =
        ap (λ x. bytes_eq x other) (bytes_eq_sound e.0 path same)
        ∙ bytes_eq-apart path other (λ e. apart (sym e)) in
      rw (same, k) refl
  | inr differs ↦ rw differs (
      ap (λ r. if bytes_eq e.0 other then ok e.1 else r)
        (lookup-remove_file files path other apart))
]

-- The file system in memory keeps what is written, file by file.
pub mem_fs-IsStore : IsStore mem_fs
mem_fs-IsStore = record {
  writes = λ f path bytes. (
    insert f path bytes,
    refl,
    ap (λ r. (r, insert f path bytes)) (lookup-insert f path bytes),
    lookup-insert_other f path bytes,
  );
  reads = λ f path. refl;
  deletes = λ f path. (remove_file f path, refl, lookup-remove_file f path);
  mkdirs = λ f path. refl;
}
