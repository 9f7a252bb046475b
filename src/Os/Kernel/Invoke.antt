-- ===== src/Os/Kernel/Invoke.antt =====
-- `invoke`, `on_panic` and `on_ta_panic` of crates/rustee-os/src/lib.rs.
use rustee.Prelude.{ℕ, List, Option, none, some, false, ◌==◌, if◌then◌else◌, inl, inr}
use rustee.Os.Abi.{
  Param, ParamRaw, KernelOut, result_ok, result_ta, param_types_of, params_from_raw, tee_success,
  tee_error_cancel, tee_error_bad_parameters, tee_error_item_not_found, tee_error_target_dead,
}
use rustee.Os.Session.{Session, SessionKind, user_ta, pta, is_dead}
use rustee.Os.Session
use rustee.Os.Instance.{Instance, InstanceState}
use rustee.Os.Kernel.Defs.{
  Hal, Kernel, Reply, fail, is_cancelled, find_pta, change, lock_instance, unlock_instance,
  entries_of, aspace_of,
}
use rustee.Os.Kernel.Shm.{map_params, unmap_params}

module _ (H : Hal) where
  open H use {World, AddressSpace}

  abbrev TaReply : Type 0
  TaReply = record { code : ℕ; raw : List ParamRaw; world : World }

  -- The TA's invoke entry point; an instance without entry points succeeds and does nothing.
  unfoldable pub call_ta : Kernel H → ℕ → Session → ℕ → List Param → List ParamRaw → TaReply
  call_ta k iid s cmd ps raw = elim (entries_of H k iid) [
    | none ↦ record { code = tee_success; raw = raw; world = k.hal }
    | some ep ↦ H.ta_invoke ep.invoke s.ta_sess_ctx cmd (param_types_of ps) raw k.hal
  ]

  -- The call of a locked instance: map, call, read the results back, unmap.
  unfoldable pub invoke_locked : Kernel H → ℕ → ℕ → Session → ℕ → List Param → Reply H
  invoke_locked k iid session s cmd ps =
      let m = map_params H k iid ps in
      elim m.0 [
        | inl e ↦ fail H e m.1
        | inr (raw, vas) ↦
            let k1 = m.1 in
            let r = call_ta k1 iid s cmd ps raw in
            let ps' = params_from_raw ps r.raw in
            (
              KernelOut.done (if r.code == tee_success then result_ok else result_ta r.code)
                  (some session) ps',
              unmap_params H (record k1 { hal = r.world }) iid ps' vas,
            )
      ]

  -- The call on a TA's session, whose instance is the second argument.
  unfoldable pub invoke_ta : Kernel H → Option ℕ → ℕ → Session → ℕ → List Param → Reply H
  invoke_ta k none session s cmd ps = fail H tee_error_target_dead k
  invoke_ta k (some iid) session s cmd ps = elim (lock_instance H k iid) [
    | inl e ↦ fail H e k
    | inr k1 ↦
        let r = invoke_locked (record k1 { current_instance = some iid }) iid session s cmd ps in
        (r.0, unlock_instance H (record r.1 { current_instance = none }) iid)
  ]

  unfoldable pub invoke_pta : Kernel H → ℕ → Session → ℕ → List Param → Reply H
  invoke_pta k session s cmd ps = elim (find_pta H k.ptas s.uuid) [
    | none ↦ fail H tee_error_item_not_found k
    | some p ↦
        let r = H.pta_invoke p s.ta_sess_ctx cmd ps k.hal in
        (
          KernelOut.done r.result (some session) r.params,
          record k { current_pta = false; hal = r.world },
        )
  ]

  unfoldable pub by_kind : Kernel H → ℕ → Session → SessionKind → ℕ → List Param → Reply H
  by_kind k session s pta cmd ps = invoke_pta k session s cmd ps
  by_kind k session s user_ta cmd ps = invoke_ta k s.instance_id session s cmd ps

  unfoldable pub invoke : Kernel H → ℕ → ℕ → List Param → ℕ → Reply H
  invoke k session cmd ps cancel_id =
      if is_cancelled k.cancelled cancel_id
      then fail H tee_error_cancel k
      else elim (Session.get k.sessions session) [
        | none ↦ fail H tee_error_bad_parameters k
        | some s ↦
            if is_dead s.state
            then fail H tee_error_target_dead k
            else by_kind k session s s.kind cmd ps
      ]

  abbrev pub bury : Instance AddressSpace → Instance AddressSpace
  bury i = record i { state = InstanceState.dead; aspace = none }

  -- The instance dies with its address space.
  unfoldable pub kill_instance : Kernel H → ℕ → Kernel H
  kill_instance k id =
      let w : World = elim (aspace_of H k id) [ none ↦ k.hal | some a ↦ H.drop_all a k.hal ] in
      record (change H id bury k) { hal = w }

  unfoldable pub on_ta_panic : Kernel H → Reply H
  unfolding kill_instance
  on_ta_panic k = elim k.current_instance [
    | none ↦ fail H tee_error_target_dead k
    | some id ↦
        let k1 = kill_instance (record k { current_instance = none }) id in
        fail H tee_error_target_dead
          (record k1 { sessions = Session.poison_instance k1.sessions id })
  ]

  -- `none` is a halt of the kernel.
  unfoldable pub on_panic : Kernel H → Option (Reply H)
  unfolding on_ta_panic
  on_panic k = if k.current_pta then none else some (on_ta_panic k)
