-- ===== src/Storage/Rpc/FdMem.antt =====
-- The file system in memory behind descriptors (`FdMem` in the tests of crates/rustee-storage/src/lib.rs),
-- a client of `RpcFs`.
pub mod Laws
use rustee.Prelude.{
  ℕ, zero, suc, ◌+◌, ◌-◌, ◌%◌, ◌^◌, ◌<◌, ◌≤◌, ◌≡◌, refl, ap, ap₂, ◌∙◌, sym, min, max, List, [], ◌∷◌,
  ◌++◌, Option, none, some, Bool, arith, length, take, drop, replicate, ltb, leb, ◌==◌,
  if◌then◌else◌, Res, ok, err, panic, length-append, length-take, length-drop, Bool-cases, inl, inr,
  ltb→lt, ltb→le, leb→le, append-nil, length-replicate, bytes_eq, bytes_eq_refl, bytes_eq_sound,
}
use rustee.Bytes.{bytes_at, write_at}
use rustee.Storage.Env.{StorageError, not_found, fs_error}
use rustee.Storage.Handle.{resize}
use rustee.Storage.Memory.{MemFs, lookup, insert, remove_file, lookup-insert}
use rustee.Storage.Rpc.{
  FsClient, op_open, op_create, op_close, op_read, op_write, op_truncate, op_remove,
}
use rustee.Storage.Rpc.Files.{IsFiles, take_whole, short_take}

pub record FdMem : Type 0 where
  pub files : MemFs
  pub fds : ℕ → Option (List ℕ)
  pub next : ℕ

-- A call's reply, and the state behind it.
abbrev Reply : Type 0
Reply = Res StorageError (ℕ × List ℕ) × FdMem

-- `next` is a 32-bit word.
abbrev pub open_fd : FdMem → MemFs → List ℕ → Reply
open_fd m files name = (
  ok (m.next, []),
  record {
    files = files;
    fds = λ i. if i == m.next then some name else m.fds i;
    next = (m.next + 1) % 2 ^ 32;
  },
)

-- `entry(path).or_default()`
abbrev pub or_default : Res StorageError (List ℕ) → List ℕ
or_default (ok file) = file
or_default (err code) = []
or_default panic = []

abbrev pub with_file : FdMem → List ℕ → List ℕ → FdMem
with_file m path file = record m { files = insert m.files path file }

abbrev mem_create : FdMem → List ℕ → Reply
mem_create m name = open_fd m (insert m.files name (or_default (lookup m.files name))) name

abbrev pub mem_open : FdMem → List ℕ → Reply
mem_open m name = elim (lookup m.files name) [
  | ok file ↦ open_fd m m.files name
  | err code ↦ (err not_found, m)
  | panic ↦ (err not_found, m)
]

abbrev pub slice_of : List ℕ → ℕ → List ℕ → ℕ × List ℕ
slice_of file off hint =
    if leb (length file) off
    then (0, [])
    else (let n = min (max (length hint) 1) (length file - off) in (n, bytes_at file off n))

abbrev pub mem_slice : FdMem → ℕ → List ℕ → Res StorageError (List ℕ) → Reply
mem_slice m off hint (ok file) = (ok (slice_of file off hint), m)
mem_slice m off hint (err code) = (err not_found, m)
mem_slice m off hint panic = (err not_found, m)

abbrev pub mem_read : FdMem → Option (List ℕ) → ℕ → List ℕ → Reply
mem_read m none off hint = (err not_found, m)
mem_read m (some path) off hint = mem_slice m off hint (lookup m.files path)

abbrev pub spliced : List ℕ → ℕ → List ℕ → List ℕ
spliced file off bytes =
    let grown =
      if ltb (length file) (off + length bytes) then resize file (off + length bytes) else file in
    write_at grown off bytes

abbrev pub mem_write : FdMem → Option (List ℕ) → ℕ → List ℕ → Reply
mem_write m none off bytes = (err not_found, m)
mem_write m (some path) off bytes =
    (ok (length bytes, []), with_file m path (spliced (or_default (lookup m.files path)) off bytes))

abbrev pub mem_truncate : FdMem → Option (List ℕ) → ℕ → Reply
mem_truncate m none off = (err not_found, m)
mem_truncate m (some path) off =
    (ok (0, []), with_file m path (resize (or_default (lookup m.files path)) off))

-- `impl FsClient for FdMem`
abbrev pub fd_mem : FsClient FdMem
fd_mem = record {
  rpc_fs = λ m op name fd off bytes.
      if op == op_create
      then mem_create m name
      else if op == op_open
      then mem_open m name
      else if op == op_close
      then (ok (0, []), record m { fds = λ i. if i == fd then none else m.fds i })
      else if op == op_read
      then mem_read m (m.fds fd) off bytes
      else if op == op_write
      then mem_write m (m.fds fd) off bytes
      else if op == op_truncate
      then mem_truncate m (m.fds fd) off
      else if op == op_remove
      then (ok (0, []), record m { files = remove_file m.files name })
      else (err fs_error, m);
}

abbrev pub found : Res StorageError (List ℕ) → Option (List ℕ)
found (ok file) = some file
found (err code) = none
found panic = none

abbrev pub named : List ℕ → MemFs → Option (List ℕ) → Option (List ℕ)
named path files none = none
named path files (some name) = if bytes_eq name path then found (lookup files path) else none

-- The bytes of a file, at a descriptor that is open on it.
abbrev pub contents : List ℕ → FdMem → ℕ → Option (List ℕ)
contents path m fd = named path m.files (m.fds fd)
