-- ===== src/Storage/Rpc/Whole.antt =====
-- Whole files (`create` and `read` of `RpcFs` in crates/rustee-storage/src/rpc.rs) over the file system in
-- memory behind descriptors.
use rustee.Prelude.{ℕ, ◌/◌, ◌^◌, ◌<◌, ◌≡◌, refl, ap, List, [], ◌==◌, true, some, length, ok, arith}
use rustee.Storage.Memory.{MemFs, lookup, insert, lookup-insert}
use rustee.Storage.Rpc.{chunk, op_close, put, read_loop, rpc_create, rpc_read}
use rustee.Storage.Rpc.Files.{put-read, read_loop-rest}
use rustee.Storage.Rpc.FdMem.{FdMem, fd_mem, contents, open_fd, or_default, mem_open}
use rustee.Storage.Rpc.FdMem.Laws.{fd_mem-IsFiles, named-open, named-some}

-- The descriptor that is opened is open on the file.
opened-contents :
    (m : FdMem) (files : MemFs) (path file : List ℕ)
    → lookup files path ≡ ok file
    → contents path (open_fd m files path).1 m.next ≡ some file
opened-contents m files path file there =
    let same : (m.next == m.next) ≡ true = ground arith in
    named-open path files _ file (rw same refl) there

-- What stands in a file at an open descriptor stands in it when the descriptor is closed.
closed-lookup :
    (m : FdMem) (fd : ℕ) (path file : List ℕ)
    → contents path m fd ≡ some file
    → lookup (fd_mem.rpc_fs m op_close [] fd 0 []).1.files path ≡ ok file
closed-lookup m fd path file at = (named-some path m.files (m.fds fd) file at).1

rpc_create-written :
    (m m' : FdMem) (path bytes : List ℕ)
    → let files = insert m.files path (or_default (lookup m.files path)) in
      put fd_mem (open_fd m files path).1 m.next bytes ≡ (ok tt, m')
      → rpc_create fd_mem m path bytes ≡ (ok tt, (fd_mem.rpc_fs m' op_close [] m.next 0 []).1)
unfolding rpc_create
rpc_create-written m m' path bytes wrote =
    ap (λ r. (r.0, (fd_mem.rpc_fs r.1 op_close [] m.next 0 []).1)) wrote

rpc_read-given :
    (m m' : FdMem) (path bytes : List ℕ) (steps : ℕ)
    → lookup m.files path ≡ ok bytes
    → read_loop fd_mem steps (open_fd m m.files path).1 m.next [] ≡ (ok bytes, m')
    → rpc_read fd_mem steps m path ≡ (ok bytes, (fd_mem.rpc_fs m' op_close [] m.next 0 []).1)
unfolding rpc_read
rpc_read-given m m' path bytes steps there given =
    let opened : mem_open m path ≡ open_fd m m.files path = rw (there, mem_open) refl in
    rw opened (ap (λ r. (r.0, (fd_mem.rpc_fs r.1 op_close [] m.next 0 []).1)) given)

-- A file below 4 GiB that is created by its name over the file system in memory behind descriptors, in
-- whatever state and whether it was there or not, has just the bytes given; read by its name, with a step
-- for each whole chunk and one more, it gives them back and still has them.
pub rpc_read-rpc_create :
    (m : FdMem) (path bytes : List ℕ) (steps : ℕ)
    → length bytes < 2 ^ 32
    → length bytes / chunk < steps
    → (m₁ : FdMem) × (m₂ : FdMem) × (rpc_create fd_mem m path bytes ≡ (ok tt, m₁))
      × (lookup m₁.files path ≡ ok bytes)
      × (rpc_read fd_mem steps m₁ path ≡ (ok bytes, m₂))
      × (lookup m₂.files path ≡ ok bytes)
rpc_read-rpc_create m path bytes steps word enough =
    let laws = fd_mem-IsFiles path in
    let old = or_default (lookup m.files path) in
    let files = insert m.files path old in
    let (m', m'', wrote, now, given, same) =
      put-read fd_mem (contents path) (open_fd m files path).1 m.next bytes old steps laws
        (opened-contents m files path old (lookup-insert m.files path old)) word enough in
    let m₁ = (fd_mem.rpc_fs m' op_close [] m.next 0 []).1 in
    let there : lookup m₁.files path ≡ ok bytes = closed-lookup m' m.next path bytes now in
    let (r, given', same') =
      read_loop-rest fd_mem (contents path) laws steps (open_fd m₁ m₁.files path).1 m₁.next bytes []
        bytes (opened-contents m₁ m₁.files path bytes there) refl word (omega (arith, enough)) in
    (
      m₁,
      (fd_mem.rpc_fs r op_close [] m₁.next 0 []).1,
      rpc_create-written m m' path bytes wrote,
      there,
      rpc_read-given m₁ r path bytes steps there given',
      closed-lookup r m₁.next path bytes same',
    )
