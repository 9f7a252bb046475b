-- ===== src/Os/Kernel/Gate.antt =====
-- What a sequence of commands to the kernel (`handle` of crates/rustee-os/src/lib.rs) can and cannot do:
-- the gate of the entropy notices, and cancellation.
use rustee.Prelude.{
  ℕ, ◌≡◌, refl, ◌∙◌, sym, List, [], ◌∷◌, ◌++◌, map, Option, none, some, true, false, arith,
  Bool-cases, Option-cases, inl, inr,
}
use rustee.Os.Abi.{
  Uuid, Login, Param, KernelCmd, KernelOut, RpcResponse, done_err, tee_error_security,
  tee_error_cancel, tee_success,
}
use rustee.Os.Elf.{TaEntryPoints}
use rustee.Os.Header.{TaProperties}
use rustee.Os.Loader.{Crypto, Loaded}
use rustee.Os.Session.{Session}
use rustee.Os.Kernel.Defs.{
  Hal, Kernel, fail, is_cancelled, new, emit_ree_notices, lock_instance, unlock_instance, Yielding,
}
use rustee.Os.Kernel.Shm.{map_params, unmap_params}
use rustee.Os.Kernel.Frame.{map_params-SameBut, unmap_params-SameBut}
use rustee.Os.Kernel.Open.{
  open_session, open_user_ta, instantiate_and_bind, start_instance, bind_session, add_session,
}
use rustee.Os.Kernel.Invoke.{invoke, kill_instance, invoke_ta, invoke_pta, invoke_locked, by_kind}
use rustee.Os.Kernel.Close.{close, close_ta, close_locked}
use rustee.Os.Kernel.Handle.{handle, dispatch, rpc_complete, load_ta, start_loaded}

is_cancelled-append :
    (xs ys : List ℕ) (c : ℕ) → is_cancelled xs c ≡ true → is_cancelled (xs ++ ys) c ≡ true
unfolding is_cancelled
is_cancelled-append [] ys c h = absurd (cc)
is_cancelled-append (x ∷ xs) ys c h = ground (arith, is_cancelled-append xs ys c)

is_cancelled_last : (xs : List ℕ) (c : ℕ) → is_cancelled (xs ++ (c ∷ [])) c ≡ true
unfolding is_cancelled
is_cancelled_last [] c = ground arith
is_cancelled_last (x ∷ xs) c = ground (arith, is_cancelled_last xs c)

module _ (H : Hal) where
  map-cancelled :
      (k : Kernel H) (iid : ℕ) (ps : List Param) → (map_params H k iid ps).1.cancelled ≡ k.cancelled
  map-cancelled k iid ps = (map_params-SameBut H k iid ps).cancelled

  unmap-cancelled :
      (k : Kernel H) (iid : ℕ) (ps : List Param) (vs : List (Option ℕ))
      → (unmap_params H k iid ps vs).cancelled ≡ k.cancelled
  unmap-cancelled k iid ps vs = (unmap_params-SameBut H k iid ps vs).cancelled

  add_session-cancelled :
      (k : Kernel H) (iid : ℕ) (u : Uuid) (l : Login) (ctx : ℕ) (ps : List Param)
      → (add_session H k iid u l ctx ps).1.cancelled ≡ k.cancelled
  unfolding add_session
  add_session-cancelled k iid u l ctx ps = ground arith

  bind_session-cancelled :
      (k : Kernel H) (iid : ℕ) (u : Uuid) (l : Login) (ps : List Param)
      → (bind_session H k iid u l ps).1.cancelled ≡ k.cancelled
  unfolding bind_session
  bind_session-cancelled k iid u l ps =
      grind (arith, map-cancelled, unmap-cancelled, add_session-cancelled)

  start_instance-cancelled :
      (k : Kernel H) (iid : ℕ) (u : Uuid) (l : Login) (ps : List Param) (e : Option TaEntryPoints)
      → (start_instance H k iid u l ps e).1.cancelled ≡ k.cancelled
  unfolding start_instance lock_instance unlock_instance
  start_instance-cancelled k iid u l ps e = grind (arith, bind_session-cancelled)

  instantiate_and_bind-cancelled :
      (k : Kernel H) (p : TaProperties) (u : Uuid) (l : Login) (ps : List Param)
      (e : Option TaEntryPoints) (a : Option H.AddressSpace)
      → (instantiate_and_bind H k p u l ps e a).1.cancelled ≡ k.cancelled
  unfolding instantiate_and_bind
  instantiate_and_bind-cancelled k p u l ps e a = grind (arith, start_instance-cancelled)

  open_user_ta-cancelled :
      (k : Kernel H) (u : Uuid) (l : Login) (ps : List Param) (c t : ℕ)
      → (open_user_ta H k u l ps c t).1.cancelled ≡ k.cancelled
  unfolding open_user_ta lock_instance unlock_instance
  open_user_ta-cancelled k u l ps c t =
      grind (arith, bind_session-cancelled, instantiate_and_bind-cancelled)

  open_session-cancelled :
      (k : Kernel H) (u : Uuid) (l : Login) (ps : List Param) (c t : ℕ)
      → (open_session H k u l ps c t).1.cancelled ≡ k.cancelled
  unfolding open_session
  open_session-cancelled k u l ps c t = grind (arith, open_user_ta-cancelled)

  invoke_locked-cancelled :
      (k : Kernel H) (iid j : ℕ) (s : Session) (cmd : ℕ) (ps : List Param)
      → (invoke_locked H k iid j s cmd ps).1.cancelled ≡ k.cancelled
  unfolding invoke_locked
  invoke_locked-cancelled k iid j s cmd ps = grind (arith, map-cancelled, unmap-cancelled)

  invoke_ta-cancelled :
      (k : Kernel H) (o : Option ℕ) (j : ℕ) (s : Session) (cmd : ℕ) (ps : List Param)
      → (invoke_ta H k o j s cmd ps).1.cancelled ≡ k.cancelled
  unfolding invoke_ta lock_instance unlock_instance
  invoke_ta-cancelled k none j s cmd ps = refl
  invoke_ta-cancelled k (some iid) j s cmd ps = grind (arith, invoke_locked-cancelled)

  invoke-cancelled :
      (k : Kernel H) (j cmd : ℕ) (ps : List Param) (c : ℕ)
      → (invoke H k j cmd ps c).1.cancelled ≡ k.cancelled
  unfolding invoke by_kind invoke_pta
  invoke-cancelled k j cmd ps c = grind (arith, invoke_ta-cancelled)

  close_locked-cancelled :
      (k : Kernel H) (iid ctx : ℕ) → (close_locked H k iid ctx).cancelled ≡ k.cancelled
  unfolding close_locked kill_instance unlock_instance
  close_locked-cancelled k iid ctx = ground arith

  close_ta-cancelled :
      (k : Kernel H) (o : Option ℕ) (ctx : ℕ) → (close_ta H k o ctx).1.cancelled ≡ k.cancelled
  unfolding close_ta lock_instance
  close_ta-cancelled k none ctx = refl
  close_ta-cancelled k (some iid) ctx = grind (arith, close_locked-cancelled)

  close-cancelled : (k : Kernel H) (j : ℕ) → (close H k j).1.cancelled ≡ k.cancelled
  unfolding close
  close-cancelled k j = grind (arith, close_ta-cancelled)

module _ (H : Hal) (C : Crypto) where
  start_loaded-cancelled :
      (k : Kernel H) (y : Yielding) (b : List ℕ) (l : Loaded) (out : KernelOut) (k' : Kernel H)
      → start_loaded H C k y b l ≡ some (out, k')
      → k'.cancelled ≡ k.cancelled
  unfolding start_loaded
  start_loaded-cancelled k y b l out k' h = grind (arith, instantiate_and_bind-cancelled)

  rpc_complete-cancelled :
      (k : Kernel H) (r : RpcResponse) (out : KernelOut) (k' : Kernel H)
      → rpc_complete H C k r ≡ some (out, k')
      → k'.cancelled ≡ k.cancelled
  unfolding rpc_complete load_ta
  rpc_complete-cancelled k r out k' h = grind (arith, start_loaded-cancelled)

  dispatch-cancelled :
      (k : Kernel H) (cmd : KernelCmd) (out : KernelOut) (k' : Kernel H) (c : ℕ)
      → dispatch H C k cmd ≡ some (out, k')
      → is_cancelled k.cancelled c ≡ true
      → is_cancelled k'.cancelled c ≡ true
  dispatch-cancelled k (KernelCmd.open_session u l ps i t) out k' c h is =
      ground (arith, open_session-cancelled H k u l ps i t)
  dispatch-cancelled k (KernelCmd.invoke j n ps i t) out k' c h is =
      ground (arith, invoke-cancelled H k j n ps i)
  dispatch-cancelled k (KernelCmd.close_session j) out k' c h is =
      ground (arith, close-cancelled H k j)
  dispatch-cancelled k (KernelCmd.cancel i) out k' c h is =
      ground (arith, is_cancelled-append k.cancelled (i ∷ []) c)
  dispatch-cancelled k (KernelCmd.rpc_complete r) out k' c h is =
      ground (arith, rpc_complete-cancelled k r out k')

  handle-open :
      (k : Kernel H) (cmd : KernelCmd) → k.notices_ok ≡ true → handle H C k cmd ≡ dispatch H C k cmd
  unfolding handle
  handle-open k cmd e = rw (e, handle)

  handle-shut :
      (k : Kernel H) (cmd : KernelCmd)
      → k.notices_ok ≡ false
      → handle H C k cmd ≡ some (fail H tee_error_security k)
  unfolding handle
  handle-shut k cmd e = simp e

  -- Every command keeps the cancelled ids.
  pub handle-cancelled :
      (k : Kernel H) (cmd : KernelCmd) (out : KernelOut) (k' : Kernel H) (c : ℕ)
      → handle H C k cmd ≡ some (out, k')
      → is_cancelled k.cancelled c ≡ true
      → is_cancelled k'.cancelled c ≡ true
  handle-cancelled k cmd out k' c h is = elim (Bool-cases k.notices_ok) [
    | inl e ↦ dispatch-cancelled k cmd out k' c (sym (handle-open k cmd e) ∙ h) is
    | inr e ↦ ground (arith, handle-shut k cmd e)
  ]

  -- A run of commands, one after the other; `none` if the kernel panics on the way.
  unfoldable pub run : Kernel H → List KernelCmd → Option (List KernelOut × Kernel H)
  run k [] = some ([], k)
  run k (cmd ∷ cmds) = elim (handle H C k cmd) [
    | none ↦ none
    | some (out, k1) ↦ elim (run k1 cmds) [ none ↦ none | some (outs, k2) ↦ some (out ∷ outs, k2) ]
  ]

  run-cancelled :
      (k : Kernel H) (cmds : List KernelCmd) (outs : List KernelOut) (k' : Kernel H) (c : ℕ)
      → run k cmds ≡ some (outs, k')
      → is_cancelled k.cancelled c ≡ true
      → is_cancelled k'.cancelled c ≡ true
  unfolding run
  run-cancelled k [] outs k' c h is = ground arith
  run-cancelled k (cmd ∷ cmds) outs k' c h is = elim (Option-cases (handle H C k cmd)) [
    | inl e ↦ absurd (ground arith)
    | inr ((out, k1), e) ↦ elim (Option-cases (run k1 cmds)) [
      | inl f ↦ absurd (ground arith)
      | inr ((outs', k2), f) ↦
          let step = handle-cancelled k cmd out k1 c e is in
          ground (arith, run-cancelled k1 cmds outs' k2 c f step)
    ]
  ]

  -- Once an id is cancelled, and whatever commands follow, every open and every invocation under this
  -- id is refused as cancelled and changes nothing: the kernel never forgets a cancelled id.
  pub cancel-run :
      (k k1 k2 : Kernel H) (c : ℕ) (out : KernelOut) (cmds : List KernelCmd) (outs : List KernelOut)
      → k.notices_ok ≡ true
      → handle H C k (KernelCmd.cancel c) ≡ some (out, k1)
      → run k1 cmds ≡ some (outs, k2)
      → (out ≡ done_err tee_success)
        × ((u : Uuid) (l : Login) (ps : List Param) (t : ℕ)
            → open_session H k2 u l ps c t ≡ fail H tee_error_cancel k2)
        × ((j cmd : ℕ) (ps : List Param) → invoke H k2 j cmd ps c ≡ fail H tee_error_cancel k2)
  unfolding open_session invoke
  cancel-run k k1 k2 c out cmds outs ready h r =
      let d = sym (handle-open k (KernelCmd.cancel c) ready) ∙ h in
      let is : is_cancelled k1.cancelled c ≡ true =
        ground (arith, d, is_cancelled_last k.cancelled c) in
      let is2 = run-cancelled k1 cmds outs k2 c r is in
      (ground (arith, d), λ u l ps t. rw is2, λ j cmd ps. rw is2)

  run-shut :
      (k : Kernel H) (cmds : List KernelCmd)
      → k.notices_ok ≡ false
      → run k cmds ≡ some (map (λ _. done_err tee_error_security) cmds, k)
  unfolding run
  run-shut k [] e = refl
  run-shut k (cmd ∷ cmds) e = rw (handle-shut k cmd e, run) (rw (run-shut k cmds e) refl)

  -- With the host's entropy and before its notices are out, the kernel refuses every command of every
  -- sequence and stays as it was; it goes on staying so while the notices cannot be written, and
  -- writing them opens it.
  pub run-silent :
      (w : H.World) (cmds : List KernelCmd)
      → let k = new H true w in
        (run k cmds ≡ some (map (λ _. done_err tee_error_security) cmds, k))
        × (emit_ree_notices H false k ≡ (false, k))
        × ((emit_ree_notices H true k).1.notices_ok ≡ true)
  unfolding new emit_ree_notices
  run-silent w cmds = (run-shut (new H true w) cmds refl, refl, refl)
