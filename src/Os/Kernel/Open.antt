-- ===== src/Os/Kernel/Open.antt =====
-- `open`, `open_user_ta`, `instantiate_and_bind` and `bind_session` of crates/rustee-os/src/lib.rs.
use rustee.Prelude.{
  ℕ, ◌+◌, ◌^◌, ◌-◌, List, Option, none, some, Bool, false, not, min, ltb, ◌==◌, ◌&&◌, if◌then◌else◌,
  bytes_eq, inl, inr,
}
use rustee.Os.Abi.{
  Uuid, Login, Param, KernelOut, HalRpc, result_ok, result_ta, param_types_of, params_from_raw,
  tee_success, tee_error_cancel, tee_error_out_of_memory, tee_error_busy, tee_error_security,
}
use rustee.Os.Header.{TaProperties}
use rustee.Os.Elf.{TaEntryPoints}
use rustee.Os.Loader.{get_early}
use rustee.Os.Session.{Session, user_ta, pta, ready}
use rustee.Os.Session
use rustee.Os.Instance.{Instance, live}
use rustee.Os.Instance
use rustee.Os.Kernel.Defs.{
  Hal, Kernel, Reply, fail, is_cancelled, find_pta, change, lock_instance, unlock_instance,
  entries_of,
}
use rustee.Os.Kernel.Shm.{map_params, unmap_params}

module _ (H : Hal) where
  open H use {World, AddressSpace}

  abbrev pub new_session : Uuid → Login → Option ℕ → ℕ → Session
  new_session uuid login iid ctx = record {
    id = 0;
    uuid = uuid;
    kind = elim iid [ none ↦ pta | some _ ↦ user_ta ];
    instance_id = iid;
    ta_sess_ctx = ctx;
    state = ready;
    client = login;
  }

  abbrev pub count_up : Instance AddressSpace → Instance AddressSpace
  count_up i = record i { session_count = min (i.session_count + 1) (2 ^ 16 - 1) }

  -- The session is entered in the table, and counted in its instance.
  unfoldable pub add_session : Kernel H → ℕ → Uuid → Login → ℕ → List Param → Reply H
  add_session k iid uuid login ctx ps =
      let r = Session.alloc k.sessions (new_session uuid login (some iid) ctx) in
      let k' = record k { sessions = r.1 } in
      elim r.0 [
        | none ↦ fail H tee_error_out_of_memory k'
        | some sid ↦ (KernelOut.done result_ok (some sid) ps, change H iid count_up k')
      ]

  -- `bind_session`: the TA's open-session entry point is called, if the instance has entry points.
  unfoldable pub bind_session : Kernel H → ℕ → Uuid → Login → List Param → Reply H
  unfolding add_session
  bind_session k iid uuid login ps = elim (entries_of H k iid) [
    | none ↦ add_session k iid uuid login 0 ps
    | some ep ↦
        let m = map_params H k iid ps in
        elim m.0 [
          | inl e ↦ fail H e m.1
          | inr (raw, vas) ↦
              let k1 = m.1 in
              let r = H.ta_open ep.open_session (param_types_of ps) raw k1.hal in
              let k2 = record k1 { current_instance = none; hal = r.world } in
              let ps' = params_from_raw ps r.raw in
              let k3 = unmap_params H k2 iid ps' vas in
              if not (r.code == tee_success)
              then (KernelOut.done (result_ta r.code) none ps', k3)
              else add_session k3 iid uuid login r.ctx ps'
        ]
  ]

  abbrev pub new_instance :
      Uuid → TaProperties → Option TaEntryPoints → AddressSpace → Instance AddressSpace
  new_instance uuid props entries a = record {
    id = 0;
    uuid = uuid;
    props = props;
    aspace = some a;
    session_count = 0;
    state = live;
    entries = entries;
    busy = false;
  }

  abbrev pub drop_instance : ℕ → Kernel H → Kernel H
  drop_instance iid k = record k { instances = Instance.drop_id k.instances iid }

  -- The instance is created, locked, and its create entry point called; then the session is bound.
  unfoldable pub start_instance :
      Kernel H → ℕ → Uuid → Login → List Param → Option TaEntryPoints → Reply H
  unfolding bind_session
  start_instance k iid uuid login ps entries = elim (lock_instance H k iid) [
    | inl e ↦ fail H e (drop_instance iid k)
    | inr k1 ↦
        let finish : Kernel H → Reply H =
          λ k0. let r = bind_session k0 iid uuid login ps in (r.0, unlock_instance H r.1 iid) in
        elim entries [
          | none ↦ finish k1
          | some ep ↦
              let c = H.ta_create ep.create k1.hal in
              let k2 = record k1 { current_instance = none; hal = c.1 } in
              if not (c.0 == tee_success)
              then (
                KernelOut.done (result_ta c.0) none ps,
                drop_instance iid (unlock_instance H k2 iid),
              )
              else finish k2
        ]
  ]

  unfoldable pub instantiate_and_bind :
      Kernel H
      → TaProperties
      → Uuid
      → Login
      → List Param
      → Option TaEntryPoints
      → Option AddressSpace
      → Reply H
  unfolding start_instance
  instantiate_and_bind k props uuid login ps entries aspace =
      if not (bytes_eq props.uuid uuid)
      then fail H tee_error_security k
      else (let given : AddressSpace × World = elim aspace [
        | none ↦ H.new_address_space k.hal
        | some a ↦ (a, k.hal)
      ] in
          let r = Instance.alloc k.instances (new_instance uuid props entries given.0) in
          let k' = record k { instances = r.1; hal = given.1 } in
          elim r.0 [
            | none ↦ fail H tee_error_out_of_memory k'
            | some iid ↦ start_instance k' iid uuid login ps entries
          ])

  -- `open_user_ta`: a live single instance is used again, an early TA is instantiated, and any other
  -- TA is asked of the REE.
  unfoldable pub open_user_ta : Kernel H → Uuid → Login → List Param → ℕ → ℕ → Reply H
  unfolding bind_session instantiate_and_bind
  open_user_ta k uuid login ps cancel_id timeout_ms =
      if is_cancelled k.cancelled cancel_id
      then fail H tee_error_cancel k
      else elim (Instance.live_single k.instances uuid) [
        | some id ↦
            let refused : Bool = elim (Instance.get k.instances id) [
              | none ↦ false
              | some i ↦ not i.props.multi_session && ltb 0 i.session_count
            ] in
            if refused then fail H tee_error_busy k else elim (lock_instance H k id) [
              | inl e ↦ fail H e k
              | inr k1 ↦ let r = bind_session k1 id uuid login ps in (r.0, unlock_instance H r.1 id)
            ]
        | none ↦ elim (get_early k.early uuid) [
          | some t ↦ instantiate_and_bind k t.props uuid login ps t.entries none
          | none ↦ elim k.yielding [
            | some _ ↦ fail H tee_error_busy k
            | none ↦ (
              KernelOut.rpc (HalRpc.load_ta uuid),
              record k {
                yielding = some (record {
                  uuid = uuid;
                  login = login;
                  params = ps;
                  cancel_id = cancel_id;
                  timeout_ms = timeout_ms;
                });
              },
            )
          ]
        ]
      ]

  unfoldable pub open_session : Kernel H → Uuid → Login → List Param → ℕ → ℕ → Reply H
  unfolding open_user_ta
  open_session k uuid login ps cancel_id timeout_ms =
      if is_cancelled k.cancelled cancel_id
      then fail H tee_error_cancel k
      else elim (find_pta H k.ptas uuid) [
        | none ↦ open_user_ta k uuid login ps cancel_id timeout_ms
        | some p ↦
            let r = H.pta_open p ps k.hal in
            let k1 = record k { hal = r.world } in
            elim r.result [
              | inl e ↦ (KernelOut.done e none r.params, k1)
              | inr ctx ↦
                  let a = Session.alloc k1.sessions (new_session uuid login none ctx) in
                  let k2 = record k1 { sessions = a.1 } in
                  elim a.0 [
                    | none ↦ fail H tee_error_out_of_memory k2
                    | some id ↦ (KernelOut.done result_ok (some id) r.params, k2)
                  ]
            ]
      ]
