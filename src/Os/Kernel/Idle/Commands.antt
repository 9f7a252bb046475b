-- ===== src/Os/Kernel/Idle/Commands.antt =====
-- The lock discipline of every command (`handle` of crates/rustee-os/src/lib.rs).
use rustee.Prelude.{
  ℕ, ◌+◌, ◌<◌, ◌^◌, ◌≡◌, refl, List, Option, none, some, Bool, true, false, not, Bool-cases,
  Option-cases, inl, inr, if◌then◌else◌, Res-cases,
}
use rustee.Os.Abi.{KernelCmd, KernelOut, RpcResponse}
use rustee.Os.Loader.{Crypto, Loaded}
use rustee.Os.Kernel.Defs.{Hal, Kernel, Reply, Yielding}
use rustee.Os.Kernel.Handle.{handle, dispatch, rpc_complete, load_ta, start_loaded, map_elf}
use rustee.Os.Kernel.Idle.{Idle, Idle-eq}
use rustee.Prelude.{bytes_eq}
use rustee.Os.Kernel.Handle.{answer}
use rustee.Os.Loader.{load_image}
use rustee.Os.Kernel.Defs.{is_cancelled}
use rustee.Os.Kernel.Idle.Opening.{instantiate_and_bind-Idle, open_session-Idle}
use rustee.Os.Kernel.Idle.Invoking.{invoke-Idle}
use rustee.Os.Kernel.Idle.Closing.{close-Idle}

module _ (H : Hal) (C : Crypto) where
  -- What a command leaves behind, if it does not panic.
  abbrev Leaves : Option (Reply H) → Type 0
  Leaves none = Unit
  Leaves (some (out, k)) = Idle H k

  start_loaded-Leaves :
      (k : Kernel H) (y : Yielding) (b : List ℕ) (l : Loaded)
      → k.instances.next_id + 1 < 2 ^ 32
      → Idle H k
      → Leaves (start_loaded H C k y b l)
  unfolding start_loaded
  start_loaded-Leaves k y b l n c =
      let w = H.new_address_space k.hal in
      let m = map_elf H w.0 b w.1 in
      let k' : Kernel H = record k { hal = m.1 } in
      elim (Bool-cases (not (bytes_eq l.props.uuid y.uuid))) [
        | inl e ↦ rw (e, start_loaded) c
        | inr e ↦ elim (Res-cases m.0) [
          | inl ((o, a), f) ↦
              rw (e, f, start_loaded)
                (instantiate_and_bind-Idle H k' l.props y.uuid y.login y.params o (some a) n
                  (Idle-eq H k k' refl c))
          | inr (inl (code, f)) ↦ rw (e, f, start_loaded) (Idle-eq H k k' refl c)
          | inr (inr f) ↦ rw (e, f, start_loaded) tt
        ]
      ]

  load_ta-Leaves :
      (k : Kernel H) (y : Yielding) (b : List ℕ)
      → k.instances.next_id + 1 < 2 ^ 32
      → Idle H k
      → Leaves (load_ta H C k y b)
  unfolding load_ta
  load_ta-Leaves k y b n c = elim (Bool-cases (is_cancelled k.cancelled y.cancel_id)) [
    | inl e ↦ rw (e, load_ta) c
    | inr e ↦ elim (Res-cases (load_image C b)) [
      | inl (l, f) ↦ rw (e, f, load_ta) (start_loaded-Leaves k y b l n c)
      | inr (inl (code, f)) ↦ rw (e, f, load_ta) c
      | inr (inr f) ↦ rw (e, f, load_ta) tt
    ]
  ]

  answer-Leaves :
      (k : Kernel H) (y : Yielding) (r : RpcResponse)
      → k.instances.next_id + 1 < 2 ^ 32
      → Idle H k
      → Leaves (answer H C k y r)
  answer-Leaves k y (RpcResponse.load_ta b) n c = load_ta-Leaves k y b n c
  answer-Leaves k y (RpcResponse.error code) n c = c
  answer-Leaves k y (RpcResponse.time s ms) n c = c
  answer-Leaves k y (RpcResponse.fs r) n c = c
  answer-Leaves k y (RpcResponse.shm r) n c = c

  rpc_complete-Leaves :
      (k : Kernel H) (r : RpcResponse)
      → k.instances.next_id + 1 < 2 ^ 32
      → Idle H k
      → Leaves (rpc_complete H C k r)
  unfolding rpc_complete
  rpc_complete-Leaves k r n c = elim (Option-cases k.yielding) [
    | inl e ↦ rw (e, rpc_complete) c
    | inr (y, e) ↦ rw (e, rpc_complete) (answer-Leaves _ y r n (Idle-eq H k _ refl c))
  ]

  dispatch-Leaves :
      (k : Kernel H) (cmd : KernelCmd)
      → k.instances.next_id + 1 < 2 ^ 32
      → Idle H k
      → Leaves (dispatch H C k cmd)
  dispatch-Leaves k (KernelCmd.open_session u l ps i t) n c = open_session-Idle H k u l ps i t n c
  dispatch-Leaves k (KernelCmd.invoke j m ps i t) n c = invoke-Idle H k j m ps i c
  dispatch-Leaves k (KernelCmd.close_session j) n c = close-Idle H k j c
  dispatch-Leaves k (KernelCmd.cancel i) n c = Idle-eq H k _ refl c
  dispatch-Leaves k (KernelCmd.rpc_complete r) n c = rpc_complete-Leaves k r n c

  Leaves-if :
      (b : Bool) (x y : Option (Reply H)) → Leaves x → Leaves y → Leaves (if b then x else y)
  Leaves-if true x y f g = f
  Leaves-if false x y f g = g

  handle-Leaves :
      (k : Kernel H) (cmd : KernelCmd)
      → k.instances.next_id + 1 < 2 ^ 32
      → Idle H k
      → Leaves (handle H C k cmd)
  unfolding handle
  handle-Leaves k cmd n c = Leaves-if k.notices_ok _ _ (dispatch-Leaves k cmd n c) c

  -- A command that does not panic, in a state whose instance table is valid with no instance locked by
  -- a call and whose next instance id does not wrap, leaves a valid table with no instance locked.
  pub handle-Idle :
      (k : Kernel H) (cmd : KernelCmd) (out : KernelOut) (k' : Kernel H)
      → k.instances.next_id + 1 < 2 ^ 32
      → Idle H k
      → handle H C k cmd ≡ some (out, k')
      → Idle H k'
  handle-Idle k cmd out k' n c h = rw h at (handle-Leaves k cmd n c)
