-- ===== src/Os/Kernel/Close.antt =====
-- `close` of crates/rustee-os/src/lib.rs.
use rustee.Prelude.{
  ℕ, ◌-◌, Option, none, some, Bool, false, not, ◌==◌, ◌&&◌, if◌then◌else◌, inl, inr,
}
use rustee.Os.Abi.{KernelOut, result_ok, no_params, tee_error_bad_parameters}
use rustee.Os.Session.{Session, SessionKind, user_ta, pta}
use rustee.Os.Session
use rustee.Os.Instance.{Instance, InstanceState}
use rustee.Os.Instance
use rustee.Os.Kernel.Defs.{
  Hal, Kernel, Reply, fail, find_pta, change, lock_instance, unlock_instance, entries_of,
}
use rustee.Os.Kernel.Open.{drop_instance}
use rustee.Os.Kernel.Invoke.{kill_instance}

module _ (H : Hal) where
  open H use {World, AddressSpace}

  abbrev pub count_down : Instance AddressSpace → Instance AddressSpace
  count_down i = record i { session_count = i.session_count - 1 }

  abbrev pub closed : Kernel H → Reply H
  closed k = (KernelOut.done result_ok none no_params, k)

  -- A call of an entry point that returns nothing, if the instance has entry points.
  unfoldable pub call_close : Kernel H → ℕ → ℕ → Kernel H
  call_close k iid ctx = elim (entries_of H k iid) [
    | none ↦ k
    | some ep ↦ record k { current_instance = none; hal = H.ta_close ep.close_session ctx k.hal }
  ]

  unfoldable pub call_destroy : Kernel H → ℕ → Kernel H
  call_destroy k iid = elim (entries_of H k iid) [
    | none ↦ k
    | some ep ↦ record k { current_instance = none; hal = H.ta_destroy ep.destroy k.hal }
  ]

  -- Whether the last session of an instance that is not kept alive has been closed.
  abbrev pub is_last : Kernel H → ℕ → Bool
  is_last k iid = elim (Instance.get k.instances iid) [
    | none ↦ false
    | some i ↦ i.session_count == 0 && not i.props.instance_keep_alive
  ]

  -- The session of a TA, on its locked instance.
  unfoldable pub close_locked : Kernel H → ℕ → ℕ → Kernel H
  unfolding call_close call_destroy
  close_locked k iid ctx =
      let k1 = change H iid count_down (call_close k iid ctx) in
      if is_last k1 iid
      then drop_instance H iid (kill_instance H (call_destroy k1 iid) iid)
      else unlock_instance H k1 iid

  unfoldable pub close_ta : Kernel H → Option ℕ → (ctx : ℕ) → Reply H
  close_ta k none ctx = closed k
  close_ta k (some iid) ctx = elim (lock_instance H k iid) [
    | inl e ↦ fail H e k
    | inr k1 ↦ closed (close_locked k1 iid ctx)
  ]

  unfoldable pub close_kind : Kernel H → Session → SessionKind → Reply H
  unfolding close_ta
  close_kind k s pta = elim (find_pta H k.ptas s.uuid) [
    | none ↦ closed k
    | some p ↦ closed (record k { hal = H.pta_close p s.ta_sess_ctx k.hal })
  ]
  close_kind k s user_ta = close_ta k s.instance_id s.ta_sess_ctx

  -- The session leaves the table before anything else is tried.
  unfoldable pub close : Kernel H → ℕ → Reply H
  unfolding close_kind
  close k session =
      let t = Session.take k.sessions session in
      elim t.0 [
        | none ↦ fail H tee_error_bad_parameters k
        | some s ↦ close_kind (record k { sessions = t.1 }) s s.kind
      ]
