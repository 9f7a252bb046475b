-- ===== src/Storage/Rpc.antt =====
-- crates/rustee-storage/src/rpc.rs: the file system over the supplicant's calls with descriptors and
-- offsets (`RpcFs`). A descriptor and an offset are 32-bit words.
use rustee.Prelude.{
  ℕ, zero, suc, ◌+◌, ◌-◌, ◌*◌, ◌/◌, ◌%◌, ◌^◌, min, List, [], ◌∷◌, ◌++◌, length, replicate, ltb,
  if◌then◌else◌, Res, ok, err, panic,
}
use rustee.Bytes.{bytes_at}
use rustee.Storage.Env.{StorageError, not_found, FsRpc}
pub mod Files
pub mod FdMem
pub mod Whole

-- One call: the operation, a name, a descriptor, an offset and bytes; a number and bytes come back.
pub record FsClient (C : Type 0) : Type 0 where
  pub rpc_fs : C → ℕ → List ℕ → ℕ → ℕ → List ℕ → Res StorageError (ℕ × List ℕ) × C

abbrev pub chunk : ℕ
chunk = 4096

-- RPC_FS_OPEN, RPC_FS_CREATE, RPC_FS_CLOSE, RPC_FS_READ, RPC_FS_WRITE, RPC_FS_TRUNCATE and RPC_FS_REMOVE
abbrev pub op_open : ℕ
op_open = 0

abbrev pub op_create : ℕ
op_create = 1

abbrev pub op_close : ℕ
op_close = 2

abbrev pub op_read : ℕ
op_read = 3

abbrev pub op_write : ℕ
op_write = 4

abbrev pub op_truncate : ℕ
op_truncate = 5

abbrev pub op_remove : ℕ
op_remove = 6

-- `?`
abbrev then_call :
    {C A B : Type 0}
    → Res StorageError A × C
    → (A → C → Res StorageError B × C)
    → Res StorageError B × C
then_call step next = elim step.0 [
  | ok value ↦ next value step.1
  | err code ↦ (err code, step.1)
  | panic ↦ (panic, step.1)
]

abbrev done : {C A : Type 0} (step : Res StorageError A × C) → Res StorageError (Unit {0}) × C
done step = then_call step (λ value c. (ok tt, c))

module _ {C : Type 0} (client : FsClient C) where
  -- The loops count the steps that they may still take; one that runs out of them ends like a panic.
  unfoldable pub put_loop : ℕ → C → ℕ → List ℕ → ℕ → Res StorageError (Unit {0}) × C
  put_loop zero c fd bytes off = (panic, c)
  put_loop (suc steps) c fd bytes off =
      let end = min (off + chunk) (length bytes) in
      let step = client.rpc_fs c op_write [] fd off (bytes_at bytes off (end - off)) in
      let rest = then_call step (λ value c'. put_loop steps c' fd bytes (end % 2 ^ 32)) in
      if ltb off (length bytes)
      then rest
      else done (client.rpc_fs c op_truncate [] fd (length bytes % 2 ^ 32) [])

  unfoldable pub put : C → ℕ → List ℕ → Res StorageError (Unit {0}) × C
  unfolding put_loop
  put c fd bytes = put_loop (length bytes / chunk + 2) c fd bytes 0

  unfoldable pub read_loop : ℕ → C → ℕ → List ℕ → Res StorageError (List ℕ) × C
  read_loop zero c fd out = (panic, c)
  read_loop (suc steps) c fd out =
      then_call (client.rpc_fs c op_read [] fd (length out % 2 ^ 32) (replicate chunk 0))
        (λ reply c'.
          let rest = read_loop steps c' fd (out ++ reply.1) in
          if ltb reply.0 chunk then (ok (out ++ reply.1), c') else rest)

  -- The descriptor is closed whatever comes of `f`.
  abbrev with_fd :
      {A : Type 0} → C → List ℕ → ℕ → (C → ℕ → Res StorageError A × C) → Res StorageError A × C
  with_fd c path op f =
      then_call (client.rpc_fs c op path 0 0 []) (λ opened c'.
        let r = f c' opened.0 in (r.0, (client.rpc_fs r.1 op_close [] opened.0 0 []).1))

  unfoldable pub rpc_create : C → List ℕ → List ℕ → Res StorageError (Unit {0}) × C
  unfolding put
  rpc_create c path bytes = with_fd c path op_create (λ c' fd. put c' fd bytes)

  -- The loop may take `steps` steps.
  unfoldable pub rpc_read : ℕ → C → List ℕ → Res StorageError (List ℕ) × C
  unfolding read_loop
  rpc_read steps c path = with_fd c path op_open (λ c' fd. read_loop steps c' fd [])

  unfoldable pub rpc_write : C → List ℕ → List ℕ → Res StorageError (Unit {0}) × C
  unfolding put rpc_create
  rpc_write c path bytes =
      let r = with_fd c path op_open (λ c' fd. put c' fd bytes) in
      elim r.0 [
        | ok value ↦ (ok value, r.1)
        | panic ↦ (panic, r.1)
        | err code ↦ elim code [ not_found ↦ rpc_create r.1 path bytes | other ↦ (err other, r.1) ]
      ]

  unfoldable pub rpc_delete : C → List ℕ → Res StorageError (Unit {0}) × C
  rpc_delete c path = done (client.rpc_fs c op_remove path 0 0 [])

  -- `impl FsRpc for RpcFs`
  abbrev pub rpc_fs_of : ℕ → FsRpc C
  rpc_fs_of steps = record {
    create_file = rpc_create;
    read_file = rpc_read steps;
    write_file = rpc_write;
    delete_file = rpc_delete;
    mkdir = λ c path. (ok tt, c);
  }
