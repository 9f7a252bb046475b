-- ===== src/Os/Kernel/Handle.antt =====
-- `rpc_complete` and `handle` of crates/rustee-os/src/lib.rs, and `map_elf` of
-- crates/rustee-os/src/elf.rs.
use rustee.Prelude.{
  ℕ, ◌+◌, ◌-◌, ◌^◌, List, [], ◌∷◌, ◌++◌, Option, none, some, not, if◌then◌else◌, bytes_eq, Res, ok,
  err, panic,
}
use rustee.Os.Abi.{
  KernelCmd, RpcResponse, tee_success, tee_error_cancel, tee_error_bad_parameters,
  tee_error_not_supported, tee_error_security,
}
use rustee.Os.Header.{wrap}
use rustee.Os.Elf.{TaEntryPoints, parse_elf, ta_blob, bind_symbols}
use rustee.Os.Loader.{Crypto, Loaded, load_image}
use rustee.Os.Kernel.Defs.{Hal, Kernel, Reply, fail, is_cancelled, perms_rx, Yielding}
use rustee.Os.Kernel.Open.{open_session, instantiate_and_bind}
use rustee.Os.Kernel.Invoke.{invoke}
use rustee.Os.Kernel.Close.{close}

module _ (H : Hal) where
  open H use {World, AddressSpace}

  abbrev Mapped : Type 0
  Mapped = Option TaEntryPoints × AddressSpace

  -- `map_elf`: the segments are mapped as one blob; an image without segments maps nothing.
  unfoldable pub map_elf : AddressSpace → List ℕ → World → Res ℕ Mapped × World
  map_elf a b w = elim (parse_elf b) [
    | err e ↦ (err e, w)
    | panic ↦ (panic, w)
    | ok img ↦ elim img.segs [
      | [] ↦ (ok (bind_symbols img.symbols 0, a), w)
      | s ∷ ss ↦ elim (ta_blob b s ss) [
        | err e ↦ (err e, w)
        | panic ↦ (panic, w)
        | ok (base, blob) ↦
            let r = H.map_image a base blob perms_rx w in
            elim r.0 [
              | none ↦ (err tee_error_bad_parameters, r.1)
              | some (va, a') ↦ (ok (bind_symbols img.symbols (wrap (va + 2 ^ 64 - base)), a'), r.1)
            ]
      ]
    ]
  ]

module _ (H : Hal) (C : Crypto) where
  open H use {World, AddressSpace}

  -- A loaded image is mapped into a new address space and instantiated.
  unfoldable pub start_loaded : Kernel H → Yielding → List ℕ → Loaded → Option (Reply H)
  start_loaded k y bytes l =
      if not (bytes_eq l.props.uuid y.uuid)
      then some (fail H tee_error_security k)
      else (let n = H.new_address_space k.hal in
          let m = map_elf H n.0 bytes n.1 in
          let k' = record k { hal = m.1 } in
          elim m.0 [
            | panic ↦ none
            | err code ↦ some (fail H code k')
            | ok (entries, a) ↦
                some (instantiate_and_bind H k' l.props y.uuid y.login y.params entries (some a))
          ])

  -- The image of a TA has arrived; `none` is a panic of the kernel.
  unfoldable pub load_ta : Kernel H → Yielding → List ℕ → Option (Reply H)
  load_ta k y bytes =
      if is_cancelled k.cancelled y.cancel_id
      then some (fail H tee_error_cancel k)
      else elim (load_image C bytes) [
        | panic ↦ none
        | err code ↦ some (fail H code k)
        | ok l ↦ start_loaded k y bytes l
      ]

  abbrev pub answer : Kernel H → Yielding → RpcResponse → Option (Reply H)
  answer k y (RpcResponse.load_ta bytes) = load_ta k y bytes
  answer k y (RpcResponse.error code) = some (fail H code k)
  answer k y (RpcResponse.time s ms) = some (fail H tee_error_not_supported k)
  answer k y (RpcResponse.fs r) = some (fail H tee_error_not_supported k)
  answer k y (RpcResponse.shm c) = some (fail H tee_error_not_supported k)

  unfoldable pub rpc_complete : Kernel H → RpcResponse → Option (Reply H)
  unfolding load_ta
  rpc_complete k resp = elim k.yielding [
    | none ↦ some (fail H tee_error_bad_parameters k)
    | some y ↦ answer (record k { yielding = none }) y resp
  ]

  abbrev pub dispatch : Kernel H → KernelCmd → Option (Reply H)
  dispatch k (KernelCmd.open_session uuid login ps cancel_id timeout_ms) =
      some (open_session H k uuid login ps cancel_id timeout_ms)
  dispatch k (KernelCmd.invoke session cmd_id ps cancel_id timeout_ms) =
      some (invoke H k session cmd_id ps cancel_id)
  dispatch k (KernelCmd.close_session session) = some (close H k session)
  dispatch k (KernelCmd.cancel cancel_id) =
      some (fail H tee_success (record k { cancelled = k.cancelled ++ (cancel_id ∷ []) }))
  dispatch k (KernelCmd.rpc_complete resp) = rpc_complete k resp

  -- Every command is refused until the notices about the entropy are out.
  unfoldable pub handle : Kernel H → KernelCmd → Option (Reply H)
  unfolding rpc_complete
  handle k cmd = if k.notices_ok then dispatch k cmd else some (fail H tee_error_security k)
