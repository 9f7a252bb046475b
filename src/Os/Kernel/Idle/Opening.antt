-- ===== src/Os/Kernel/Idle/Opening.antt =====
-- Opening a session (`open` of crates/rustee-os/src/lib.rs) gives back the lock of its instance.
use rustee.Prelude.{
  ℕ, ◌+◌, ◌<◌, ◌^◌, ◌≡◌, refl, ap, ◌∙◌, sym, List, Option, none, some, Bool, true, false, not,
  arith, Bool-cases, Option-cases, Sum-cases, inl, inr, ◌==◌,
}
use rustee.Os.Abi.{Uuid, Login, Param, tee_success}
use rustee.Os.Header.{TaProperties}
use rustee.Os.Elf.{TaEntryPoints}
use rustee.Os.Session.{Session}
use rustee.Os.Session
use rustee.Os.Instance.{Instance}
use rustee.Os.Instance
use rustee.Os.Instance.Table.{instance_alloc-refines}
use rustee.Os.Kernel.Defs.{Hal, Kernel, change, with_busy, unlock_instance}
use rustee.Os.Kernel.Open.{
  new_session, bind_session, start_instance, instantiate_and_bind, open_user_ta, open_session,
}
use rustee.Os.Kernel.Idle.{
  Idle, Idle-eq, Calling, Idle-Calling, unlock-Idle, drop-Idle, lock_cases, locked-Calling,
  Calling-eq, bind_session-Calling,
}
use rustee.Slots.{find}
use rustee.Prelude.{bytes_eq, ◌&&◌, ltb}
use rustee.Os.Session.{SessionKind, user_ta, pta, is_dead}
use rustee.Os.Kernel.Open.{new_instance}
use rustee.Os.Instance.{instance_key, InstanceTable, live_single}
use rustee.Os.Loader.{get_early}
use rustee.Os.Kernel.Defs.{find_pta, is_cancelled}

module _ (H : Hal) where
  open H use {AddressSpace}

  module _ (iid : ℕ) (u : Uuid) (l : Login) (ps : List Param) where
    bind_unlock-Idle :
        (k : Kernel H)
        → Calling H iid k
        → Idle H (unlock_instance H (bind_session H k iid u l ps).1 iid)
    bind_unlock-Idle k c = unlock-Idle H iid _ (bind_session-Calling H k iid u l ps c)

    start_instance-Idle :
        (k : Kernel H) (o : Option TaEntryPoints)
        → Idle H k
        → Idle H (start_instance H k iid u l ps o).1
    unfolding start_instance
    start_instance-Idle k o c =
        let k1 : Kernel H = change H iid (with_busy H true) k in
        let c1 = locked-Calling H iid k c in
        elim (lock_cases H iid k) [
          | inl (code, e) ↦ rw (e, start_instance) (drop-Idle H iid k (Idle-Calling H iid k c))
          | inr e ↦ elim (Option-cases o) [
            | inl f ↦ rw (e, f, start_instance) (bind_unlock-Idle k1 c1)
            | inr (ep, f) ↦
                let r = H.ta_create ep.create k1.hal in
                let k2 : Kernel H = record k1 { current_instance = none; hal = r.1 } in
                let c2 = Calling-eq H iid k1 k2 refl c1 in
                elim (Bool-cases (not (r.0 == tee_success))) [
                  | inl b ↦
                      rw (e, f, b, start_instance)
                        (drop-Idle H iid _ (Idle-Calling H iid _ (unlock-Idle H iid k2 c2)))
                  | inr b ↦ rw (e, f, b, start_instance) (bind_unlock-Idle k2 c2)
                ]
          ]
        ]

  get_slots :
      (t t' : InstanceTable AddressSpace) (j : ℕ)
      → t'.slots ≡ t.slots
      → Instance.get t' j ≡ Instance.get t j
  unfolding Instance.get
  get_slots t t' j e = ap (λ ss. find instance_key ss j) e

  alloc-Idle :
      (k : Kernel H) (i : Instance AddressSpace) (w : H.World)
      → i.busy ≡ false
      → k.instances.next_id + 1 < 2 ^ 32
      → Idle H k
      → Idle H (record k { instances = (Instance.alloc k.instances i).1; hal = w })
  alloc-Idle k i w b n c =
      let a = instance_alloc-refines k.instances i c.valid n in
      record {
        valid = a.0;
        free = λ j x g. elim a.1 [
          | inl (_, _, e) ↦ c.free j x (sym (get_slots k.instances _ j e) ∙ g)
          | inr (_, _, _, at) ↦ let e = at j in let f = c.free j x in ground (arith, e, f, g, b)
        ];
      }

  pub instantiate_and_bind-Idle :
      (k : Kernel H) (p : TaProperties) (u : Uuid) (l : Login) (ps : List Param)
      (o : Option TaEntryPoints) (a : Option AddressSpace)
      → k.instances.next_id + 1 < 2 ^ 32
      → Idle H k
      → Idle H (instantiate_and_bind H k p u l ps o a).1
  unfolding instantiate_and_bind
  instantiate_and_bind-Idle k p u l ps o a n c =
      let given : AddressSpace × H.World = elim a [
        | none ↦ H.new_address_space k.hal
        | some a' ↦ (a', k.hal)
      ] in
      let i = new_instance H u p o given.0 in
      let k' : Kernel H = record k {
        instances = (Instance.alloc k.instances i).1;
        hal = given.1;
      } in
      let c' = alloc-Idle k i given.1 refl n c in
      elim (Bool-cases (bytes_eq p.uuid u)) [
        | inr b ↦ rw (b, instantiate_and_bind) c
        | inl b ↦ elim (Option-cases (Instance.alloc k.instances i).0) [
          | inl e ↦ rw (b, e, instantiate_and_bind) c'
          | inr (iid, e) ↦ rw (b, e, instantiate_and_bind) (start_instance-Idle iid u l ps k' o c')
        ]
      ]

  open_user_ta-Idle :
      (k : Kernel H) (u : Uuid) (l : Login) (ps : List Param) (id t : ℕ)
      → k.instances.next_id + 1 < 2 ^ 32
      → Idle H k
      → Idle H (open_user_ta H k u l ps id t).1
  unfolding open_user_ta
  open_user_ta-Idle k u l ps id t n c = elim (Bool-cases (is_cancelled k.cancelled id)) [
    | inl b ↦ rw (b, open_user_ta) c
    | inr b ↦ elim (Option-cases (live_single k.instances u)) [
      | inl e ↦ elim (Option-cases (get_early k.early u)) [
        | inl f ↦ elim (Option-cases k.yielding) [
          | inl g ↦ rw (b, e, f, g, open_user_ta) (Idle-eq H k _ refl c)
          | inr (y, g) ↦ rw (b, e, f, g, open_user_ta) c
        ]
        | inr (ta, f) ↦
            rw (b, e, f, open_user_ta)
              (instantiate_and_bind-Idle k ta.props u l ps ta.entries none n c)
      ]
      | inr (iid, e) ↦
          let refused : Bool = elim (Instance.get k.instances iid) [
            | none ↦ false
            | some i ↦ not i.props.multi_session && ltb 0 i.session_count
          ] in
          elim (Bool-cases refused) [
            | inl r ↦ rw (b, e, r, open_user_ta) c
            | inr r ↦ elim (lock_cases H iid k) [
              | inl (code, f) ↦ rw (b, e, r, f, open_user_ta) c
              | inr f ↦
                  rw (b, e, r, f, open_user_ta)
                    (bind_unlock-Idle iid u l ps _ (locked-Calling H iid k c))
            ]
          ]
    ]
  ]

  pub open_session-Idle :
      (k : Kernel H) (u : Uuid) (l : Login) (ps : List Param) (id t : ℕ)
      → k.instances.next_id + 1 < 2 ^ 32
      → Idle H k
      → Idle H (open_session H k u l ps id t).1
  unfolding open_session
  open_session-Idle k u l ps id t n c = elim (Bool-cases (is_cancelled k.cancelled id)) [
    | inl b ↦ rw (b, open_session) c
    | inr b ↦ elim (Option-cases (find_pta H k.ptas u)) [
      | inl e ↦ rw (b, e, open_session) (open_user_ta-Idle k u l ps id t n c)
      | inr (p, e) ↦ elim (Sum-cases (H.pta_open p ps k.hal).result) [
        | inl (code, f) ↦ rw (b, e, f, open_session) (Idle-eq H k _ refl c)
        | inr (ctx, f) ↦
            elim (Option-cases (Session.alloc k.sessions (new_session H u l none ctx)).0) [
              | inl g ↦ rw (b, e, f, g, open_session) (Idle-eq H k _ refl c)
              | inr (sid, g) ↦ rw (b, e, f, g, open_session) (Idle-eq H k _ refl c)
            ]
      ]
    ]
  ]
