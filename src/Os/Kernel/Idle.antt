-- ===== src/Os/Kernel/Idle.antt =====
-- The locks on instances (`lock_instance` and `unlock_instance` of crates/rustee-os/src/lib.rs): which
-- of them are held during a call and after it.
use rustee.Prelude.{
  ℕ, ◌+◌, ◌<◌, ◌^◌, ◌≡◌, ◌≢◌, refl, ap, ◌∙◌, sym, List, [], ◌∷◌, Option, none, some, Bool, true,
  false, not, arith, Bool-cases, Option-cases, Sum-cases, inl, inr, ◌⊎◌, ◌==◌, if◌then◌else◌, Res,
  ok, err, panic, Res-cases,
}
use rustee.Os.Abi.{
  Uuid, Login, Param, KernelCmd, KernelOut, RpcResponse, param_types_of, params_from_raw,
  tee_success,
}
use rustee.Os.Header.{TaProperties}
use rustee.Os.Elf.{TaEntryPoints}
use rustee.Os.Loader.{Crypto, Loaded}
use rustee.Os.Session.{Session}
use rustee.Os.Session
use rustee.Os.Instance.{Instance}
use rustee.Os.Instance
use rustee.Os.Instance.Table
use rustee.Os.Instance.Table.{
  get-update, update-IsValid, get-drop_id, drop_id-IsValid, instance_alloc-refines,
}
use rustee.Os.Kernel.Defs.{
  Hal, Kernel, Reply, Yielding, change, with_busy, lock_instance, unlock_instance, entries_of,
}
use rustee.Os.Kernel.Shm.{map_params, unmap_params}
use rustee.Os.Kernel.Frame.{SameBut, map_params-SameBut, unmap_params-SameBut}
use rustee.Os.Kernel.Open.{
  new_session, add_session, bind_session, start_instance, instantiate_and_bind, open_user_ta,
  open_session, count_up, drop_instance,
}
use rustee.Os.Kernel.Invoke.{
  invoke, invoke_locked, invoke_ta, invoke_pta, by_kind, bury, kill_instance,
}
use rustee.Os.Kernel.Close.{close, close_kind, close_ta, close_locked, count_down}
pub mod Opening
pub mod Invoking
pub mod Closing
pub mod Commands

module _ (H : Hal) where
  open H use {AddressSpace}

  -- The instance table is valid, and no instance is in a call.
  pub record Idle (k : Kernel H) : Type 0 where
    pub valid : Table.IsValid k.instances
    pub free :
        (j : ℕ) (i : Instance AddressSpace) → Instance.get k.instances j ≡ some i → i.busy ≡ false

  -- The instance table is valid, and no instance but this one is in a call.
  pub record Calling (iid : ℕ) (k : Kernel H) : Type 0 where
    pub valid : Table.IsValid k.instances
    pub free :
        (j : ℕ) (i : Instance AddressSpace)
        → j ≢ iid
        → Instance.get k.instances j ≡ some i
        → i.busy ≡ false

  pub Idle-Calling : (iid : ℕ) (k : Kernel H) → Idle k → Calling iid k
  Idle-Calling iid k c = record { valid = c.valid; free = λ j i h e. c.free j i e }

  pub SameBut-Calling :
      (iid : ℕ) (k k' : Kernel H) → SameBut H iid k k' → Calling iid k → Calling iid k'
  SameBut-Calling iid k k' s c = record {
    valid = s.valid c.valid;
    free = λ j i h e. c.free j i h (sym (s.others j h) ∙ e);
  }

  -- A write to the called instance that keeps its id.
  pub change-Calling :
      (iid : ℕ) (f : Instance AddressSpace → Instance AddressSpace)
      → ((i : Instance AddressSpace) → (f i).id ≡ i.id)
      → (k : Kernel H) → Calling iid k
      → Calling iid (change H iid f k)
  change-Calling iid f same k c = record {
    valid = update-IsValid f same k.instances iid c.valid;
    free =
        λ j i h e. c.free j i h (let g = get-update f same k.instances iid j in ground (arith, g));
  }

  pub unlock-Idle : (iid : ℕ) (k : Kernel H) → Calling iid k → Idle (unlock_instance H k iid)
  unfolding unlock_instance
  unlock-Idle iid k c = record {
    valid = update-IsValid (with_busy H false) (λ i. refl) k.instances iid c.valid;
    free = λ j i e.
        let g = get-update (with_busy H false) (λ i. refl) k.instances iid j in
        let f = c.free j i in ground (arith, g, f, e);
  }

  pub drop-Idle : (iid : ℕ) (k : Kernel H) → Calling iid k → Idle (drop_instance H iid k)
  drop-Idle iid k c = record {
    valid = drop_id-IsValid k.instances iid c.valid;
    free = λ j i e.
        let g = get-drop_id k.instances iid j c.valid in
        let f = c.free j i in ground (arith, g, f, e);
  }

  pub lock_cases :
      (iid : ℕ) (k : Kernel H)
      → ((e : ℕ) × (lock_instance H k iid ≡ inl e))
        ⊎ (lock_instance H k iid ≡ inr (change H iid (with_busy H true) k))
  unfolding lock_instance
  lock_cases iid k = elim (Option-cases (Instance.get k.instances iid)) [
    | inl e ↦ rw (e, lock_instance) (inl (_, refl))
    | inr (i, e) ↦ elim (Bool-cases i.busy) [
      | inl b ↦ rw (e, b, lock_instance) (inl (_, refl))
      | inr b ↦ rw (e, b, lock_instance) (inr refl)
    ]
  ]

  pub locked-Calling :
      (iid : ℕ) (k : Kernel H) → Idle k → Calling iid (change H iid (with_busy H true) k)
  locked-Calling iid k c =
      change-Calling iid (with_busy H true) (λ i. refl) k (Idle-Calling iid k c)

  -- A field other than the instance table plays no part.
  pub Calling-eq :
      (iid : ℕ) (k k' : Kernel H) → k'.instances ≡ k.instances → Calling iid k → Calling iid k'
  Calling-eq iid k k' e c = record {
    valid = rw e c.valid;
    free = λ j i h g. c.free j i h (rw (sym e) g);
  }

  add_session-Calling :
      (k : Kernel H) (iid : ℕ) (u : Uuid) (l : Login) (ctx : ℕ) (ps : List Param)
      → Calling iid k
      → Calling iid (add_session H k iid u l ctx ps).1
  unfolding add_session
  add_session-Calling k iid u l ctx ps c =
      let r = Session.alloc k.sessions (new_session H u l (some iid) ctx) in
      let k' : Kernel H = record k { sessions = r.1 } in
      let c' = Calling-eq iid k k' refl c in
      elim (Option-cases r.0) [
        | inl e ↦ rw (e, add_session) c'
        | inr (sid, e) ↦ rw (e, add_session) (change-Calling iid (count_up H) (λ i. refl) k' c')
      ]

  pub bind_session-Calling :
      (k : Kernel H) (iid : ℕ) (u : Uuid) (l : Login) (ps : List Param)
      → Calling iid k
      → Calling iid (bind_session H k iid u l ps).1
  unfolding bind_session
  bind_session-Calling k iid u l ps c =
      let m = map_params H k iid ps in
      let c1 = SameBut-Calling iid k m.1 (map_params-SameBut H k iid ps) c in
      elim (Option-cases (entries_of H k iid)) [
        | inl e ↦ rw (e, bind_session) (add_session-Calling k iid u l 0 ps c)
        | inr (ep, e) ↦ elim (Sum-cases m.0) [
          | inl (code, f) ↦ rw (e, f, bind_session) c1
          | inr ((raw, vas), f) ↦
              let r = H.ta_open ep.open_session (param_types_of ps) raw m.1.hal in
              let k2 : Kernel H = record m.1 { current_instance = none; hal = r.world } in
              let ps' = params_from_raw ps r.raw in
              let k3 = unmap_params H k2 iid ps' vas in
              let c3 =
                SameBut-Calling iid k2 k3 (unmap_params-SameBut H k2 iid ps' vas)
                  (Calling-eq iid m.1 k2 refl c1) in
              elim (Bool-cases (not (r.code == tee_success))) [
                | inl b ↦ rw (e, f, b, bind_session) c3
                | inr b ↦ rw (e, f, b, bind_session) (add_session-Calling k3 iid u l r.ctx ps' c3)
              ]
        ]
      ]

  -- A field other than the instance table plays no part.
  pub Idle-eq : (k k' : Kernel H) → k'.instances ≡ k.instances → Idle k → Idle k'
  Idle-eq k k' e c = record { valid = rw e c.valid; free = λ j i g. c.free j i (rw (sym e) g) }
