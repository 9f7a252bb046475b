-- ===== src/Storage/Format.antt =====
-- The byte formats of crates/rustee-storage/src/lib.rs: paths, the directory and an object's blob. A
-- byte string that the code extends part by part is the list of its parts, joined.
use rustee.Prelude.{
  ℕ, zero, suc, ◌+◌, ◌*◌, ◌/◌, ◌%◌, List, [], ◌∷◌, ◌++◌, Option, none, some, Bool, true, false, not,
  length, get_or, get_elem?, take, drop, replicate, ltb, leb, ◌==◌, if◌then◌else◌, Res, ok, err,
  panic, ◌>>=◌, ◌>>◌, ensure, bytes_eq, set,
}
use rustee.Bytes.{to_le, from_le, bytes_at, read_u32, read_u64, byte_at}
use rustee.Storage.Env.{StorageError, corrupt}
pub mod Parts
pub mod Directory
pub mod Replacing

pub record ObjectMeta : Type 0 where
  pub object_id : List ℕ
  pub flags : ℕ
  pub data_size : ℕ

-- The file id of an object and its version.
abbrev pub FileRef : Type 0
FileRef = List ℕ × ℕ

abbrev pub concat : List (List ℕ) → List ℕ
concat [] = []
concat (p ∷ ps) = p ++ concat ps

abbrev hex_digit : ℕ → ℕ
hex_digit x =
    get_or (48 ∷ 49 ∷ 50 ∷ 51 ∷ 52 ∷ 53 ∷ 54 ∷ 55 ∷ 56 ∷ 57 ∷ 97 ∷ 98 ∷ 99 ∷ 100 ∷ 101 ∷ 102 ∷ []) x
      0

unfoldable pub hex32 : List ℕ → List ℕ
hex32 [] = []
hex32 (x ∷ b) = hex_digit (x / 16) ∷ hex_digit (x % 16) ∷ hex32 b

-- "/dir.v1"
unfoldable pub dir_path : List ℕ → List ℕ
unfolding hex32
dir_path ta = hex32 ta ++ (47 ∷ 100 ∷ 105 ∷ 114 ∷ 46 ∷ 118 ∷ 49 ∷ [])

-- "/obj"
abbrev pub obj_dir : List ℕ → List ℕ
obj_dir ta = hex32 ta ++ (47 ∷ 111 ∷ 98 ∷ 106 ∷ [])

-- "/obj/"
unfoldable pub obj_path : List ℕ → List ℕ → List ℕ
unfolding hex32
obj_path ta file_id = hex32 ta ++ ((47 ∷ 111 ∷ 98 ∷ 106 ∷ 47 ∷ []) ++ hex32 file_id)

-- "RSTD", version 1, padding, and the directory's version; the number of entries follows.
abbrev dir_magic : List ℕ
dir_magic = 82 ∷ 83 ∷ 84 ∷ 68 ∷ []

abbrev pub dir_head : ℕ → List ℕ
dir_head count = concat (dir_magic ∷ (1 ∷ 0 ∷ 0 ∷ 0 ∷ []) ∷ to_le 8 1 ∷ to_le 4 count ∷ [])

-- An entry without a file has the zero id and version 1.
unfoldable pub dir_entries : List ObjectMeta → List FileRef → List ℕ
dir_entries [] files = []
dir_entries (e ∷ entries) [] = concat (
    replicate 16 0
    ∷ (length e.object_id % 256 ∷ [])
    ∷ e.object_id
    ∷ to_le 4 e.flags
    ∷ to_le 8 e.data_size
    ∷ to_le 8 1
    ∷ dir_entries entries []
    ∷ [])
dir_entries (e ∷ entries) (f ∷ files) = concat (
    f.0
    ∷ (length e.object_id % 256 ∷ [])
    ∷ e.object_id
    ∷ to_le 4 e.flags
    ∷ to_le 8 e.data_size
    ∷ to_le 8 f.1
    ∷ dir_entries entries files
    ∷ [])

unfoldable pub dir_bytes : List ObjectMeta → List FileRef → List ℕ
unfolding dir_entries
dir_bytes entries files = dir_head (length entries) ++ dir_entries entries files

unfoldable pub parse_entries : ℕ → List ℕ → ℕ → Res StorageError (List ObjectMeta × List FileRef)
parse_entries zero pt off = ok ([], [])
parse_entries (suc n) pt off =
    let oid_len = byte_at pt (off + 16) in
    let behind = off + 17 + oid_len in
    do
      ensure (leb (off + 17) (length pt)) corrupt
      ensure (leb (behind + 20) (length pt)) corrupt
      more ← parse_entries n pt (behind + 20)
      let e : ObjectMeta = record {
        object_id = bytes_at pt (off + 17) oid_len;
        flags = read_u32 pt behind;
        data_size = read_u64 pt (behind + 4);
      }
      ok (e ∷ more.0, (bytes_at pt off 16, read_u64 pt (behind + 12)) ∷ more.1)

unfoldable pub parse_dir : List ℕ → Res StorageError (List ObjectMeta × List FileRef)
unfolding parse_entries
parse_dir pt = do
  ensure (leb 20 (length pt)) corrupt
  ensure (bytes_eq (bytes_at pt 0 4) dir_magic) corrupt
  parse_entries (read_u32 pt 16) pt 20

-- `entries.iter().position(|e| e.object_id == object_id)`
unfoldable pub position : List ObjectMeta → List ℕ → Option ℕ
position [] object_id = none
position (e ∷ entries) object_id =
    if bytes_eq e.object_id object_id
    then some 0
    else elim (position entries object_id) [ none ↦ none | some i ↦ some (suc i) ]

-- `Vec::remove`
abbrev pub remove {ℓ} : {A : Type ℓ} → List A → ℕ → List A
remove [] i = []
remove (x ∷ xs) zero = xs
remove (x ∷ xs) (suc i) = x ∷ remove xs i

-- The loop of `store_dir` over `extra.iter().enumerate()`.
unfoldable pub put_extra : List FileRef → List FileRef → ℕ → List FileRef
put_extra files [] i = files
put_extra files (e ∷ extra) i =
    put_extra (if ltb i (length files) then set files i e else files ++ e ∷ []) extra (i + 1)
