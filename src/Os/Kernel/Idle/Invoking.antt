-- ===== src/Os/Kernel/Idle/Invoking.antt =====
-- An invocation (`invoke` of crates/rustee-os/src/lib.rs) gives back the lock of its instance.
use rustee.Prelude.{
  ℕ, refl, List, Option, none, some, true, Bool-cases, Option-cases, Sum-cases, inl, inr,
}
use rustee.Os.Abi.{Param, params_from_raw}
use rustee.Os.Session.{Session}
use rustee.Os.Session
use rustee.Os.Kernel.Defs.{Hal, Kernel, change, with_busy}
use rustee.Os.Kernel.Shm.{map_params}
use rustee.Os.Kernel.Frame.{map_params-SameBut, unmap_params-SameBut}
use rustee.Os.Kernel.Invoke.{invoke, invoke_locked, invoke_ta, invoke_pta, by_kind}
use rustee.Os.Kernel.Idle.{
  Idle, Idle-eq, Calling, SameBut-Calling, unlock-Idle, lock_cases, locked-Calling, Calling-eq,
}
use rustee.Os.Session.{SessionKind, user_ta, pta, is_dead}
use rustee.Os.Kernel.Invoke.{call_ta}
use rustee.Os.Kernel.Defs.{find_pta, is_cancelled}

module _ (H : Hal) where
  open H use {AddressSpace}

  invoke_locked-Calling :
      (k : Kernel H) (iid j : ℕ) (s : Session) (cmd : ℕ) (ps : List Param)
      → Calling H iid k
      → Calling H iid (invoke_locked H k iid j s cmd ps).1
  unfolding invoke_locked
  invoke_locked-Calling k iid j s cmd ps c =
      let m = map_params H k iid ps in
      let c1 = SameBut-Calling H iid k m.1 (map_params-SameBut H k iid ps) c in
      elim (Sum-cases m.0) [
        | inl (code, e) ↦ rw (e, invoke_locked) c1
        | inr ((raw, vas), e) ↦
            let r = call_ta H m.1 iid s cmd ps raw in
            let k2 : Kernel H = record m.1 { hal = r.world } in
            rw (e, invoke_locked)
              (SameBut-Calling H iid k2 _
                (unmap_params-SameBut H k2 iid (params_from_raw ps r.raw) vas)
                (Calling-eq H iid m.1 k2 refl c1))
      ]

  invoke_ta-Idle :
      (k : Kernel H) (o : Option ℕ) (j : ℕ) (s : Session) (cmd : ℕ) (ps : List Param)
      → Idle H k
      → Idle H (invoke_ta H k o j s cmd ps).1
  unfolding invoke_ta
  invoke_ta-Idle k none j s cmd ps c = c
  invoke_ta-Idle k (some iid) j s cmd ps c =
      let k1 : Kernel H = record (change H iid (with_busy H true) k) {
        current_instance = some iid;
      } in
      let c1 =
        Calling-eq H iid (change H iid (with_busy H true) k) k1 refl (locked-Calling H iid k c) in
      let k2 = (invoke_locked H k1 iid j s cmd ps).1 in
      let c2 = invoke_locked-Calling k1 iid j s cmd ps c1 in
      elim (lock_cases H iid k) [
        | inl (code, e) ↦ rw (e, invoke_ta) c
        | inr e ↦ rw (e, invoke_ta) (unlock-Idle H iid _ (Calling-eq H iid k2 _ refl c2))
      ]

  by_kind-Idle :
      (k : Kernel H) (j : ℕ) (s : Session) (x : SessionKind) (cmd : ℕ) (ps : List Param)
      → Idle H k
      → Idle H (by_kind H k j s x cmd ps).1
  unfolding by_kind invoke_pta
  by_kind-Idle k j s user_ta cmd ps c = invoke_ta-Idle k s.instance_id j s cmd ps c
  by_kind-Idle k j s pta cmd ps c = elim (Option-cases (find_pta H k.ptas s.uuid)) [
    | inl e ↦ rw (e, invoke_pta) c
    | inr (p, e) ↦ rw (e, invoke_pta) (Idle-eq H k _ refl c)
  ]

  pub invoke-Idle :
      (k : Kernel H) (j cmd : ℕ) (ps : List Param) (id : ℕ)
      → Idle H k
      → Idle H (invoke H k j cmd ps id).1
  unfolding invoke
  invoke-Idle k j cmd ps id c = elim (Bool-cases (is_cancelled k.cancelled id)) [
    | inl b ↦ rw (b, invoke) c
    | inr b ↦ elim (Option-cases (Session.get k.sessions j)) [
      | inl e ↦ rw (b, e, invoke) c
      | inr (s, e) ↦ elim (Bool-cases (is_dead s.state)) [
        | inl d ↦ rw (b, e, d, invoke) c
        | inr d ↦ rw (b, e, d, invoke) (by_kind-Idle k j s s.kind cmd ps c)
      ]
    ]
  ]
