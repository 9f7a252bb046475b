-- ===== src/Os/Kernel/Lost.antt =====
-- A call whose buffers cannot be mapped loses the address space of its instance (`map_params` and
-- `invoke` of crates/rustee-os/src/lib.rs).
use rustee.Prelude.{
  ℕ, ◌≡◌, refl, ap, ◌∙◌, sym, List, ◌∷◌, Option, none, some, true, false, inl, inr,
}
use rustee.Os.Abi.{
  Param, done_err, tee_error_target_dead, tee_error_bad_parameters, memref, ree, Dir, dir_in,
  dir_out, dir_inout,
}
use rustee.Os.Session.{Session, SessionTable, of_instance, is_dead, user_ta}
use rustee.Os.Session
use rustee.Os.Instance.{Instance, InstanceTable, InstanceState}
use rustee.Os.Instance
use rustee.Os.Instance.Table.{get-update_self}
use rustee.Os.Kernel.Defs.{
  Hal, Kernel, fail, is_cancelled, lock_instance, unlock_instance, change, with_aspace, with_busy,
  aspace_of,
}
use rustee.Os.Kernel.Invoke.{invoke, by_kind, invoke_ta, invoke_locked}
use rustee.Os.Kernel.Shm.{Mapping, lost, map_loop, map_one, map_params}

map_one-unknown :
    (H : Hal) (cookie offs size : ℕ) (d : Dir) (a : H.AddressSpace) (w : H.World)
    (rest : H.AddressSpace → H.World → Mapping H)
    → H.sync_in cookie w ≡ none
    → H.lookup_shm cookie w ≡ none
    → map_one H cookie offs size d a w rest ≡ lost w
unfolding map_one
map_one-unknown H cookie offs size dir_in a w rest no_sync no_shm = rw no_sync
map_one-unknown H cookie offs size dir_inout a w rest no_sync no_shm = rw no_sync
map_one-unknown H cookie offs size dir_out a w rest no_sync no_shm = rw no_shm

invoke-found :
    (H : Hal) (k : Kernel H) (j : ℕ) (s : Session) (cmd : ℕ) (ps : List Param) (cancel_id : ℕ)
    → Session.get k.sessions j ≡ some s
    → is_dead s.state ≡ false
    → is_cancelled k.cancelled cancel_id ≡ false
    → invoke H k j cmd ps cancel_id ≡ by_kind H k j s s.kind cmd ps
unfolding invoke
invoke-found H k j s cmd ps cancel_id found alive live = rw (live, found, alive)

-- A session of a TA that can be called: open, not dead, its instance there and not busy.
pub record Callable (H : Hal) (k : Kernel H) (j : ℕ) (s : Session) (iid : ℕ)
    (i : Instance H.AddressSpace) : Type 0 where
  pub found : Session.get k.sessions j ≡ some s
  pub alive : is_dead s.state ≡ false
  pub kind : s.kind ≡ user_ta
  pub at : s.instance_id ≡ some iid
  pub have : Instance.get k.instances iid ≡ some i
  pub idle : i.busy ≡ false

map_params-no_aspace :
    (H : Hal) (k : Kernel H) (iid : ℕ) (ps : List Param)
    → aspace_of H k iid ≡ none
    → map_params H k iid ps ≡ (inl tee_error_target_dead, k)
unfolding map_params
map_params-no_aspace H k iid ps e = rw (e, map_params)

map_params-unknown :
    (H : Hal) (k : Kernel H) (iid cookie offs size : ℕ) (d : Dir) (ps : List Param)
    (a : H.AddressSpace)
    → H.sync_in cookie k.hal ≡ none
    → H.lookup_shm cookie k.hal ≡ none
    → aspace_of H k iid ≡ some a
    → map_params H k iid (memref (ree cookie offs) size d ∷ ps)
      ≡ (inl tee_error_bad_parameters, change H iid (with_aspace H none) k)
unfolding map_params map_loop
map_params-unknown H k iid cookie offs size d ps a no_sync no_shm e = rw (
  e,
  map_params,
  map_one-unknown H cookie offs size d a k.hal (λ a' w'. map_loop H ps a' w') no_sync no_shm,
)

invoke_locked-refused :
    (H : Hal) (k : Kernel H) (iid j : ℕ) (s : Session) (cmd : ℕ) (ps : List Param) (e : ℕ)
    (k' : Kernel H)
    → map_params H k iid ps ≡ (inl e, k')
    → invoke_locked H k iid j s cmd ps ≡ fail H e k'
unfolding invoke_locked
invoke_locked-refused H k iid j s cmd ps e k' h = rw (h, invoke_locked) (ap (λ m. fail H e m.1) h)

module _ (H : Hal) (k : Kernel H) (j : ℕ) (s : Session) (iid : ℕ) (i : Instance H.AddressSpace)
    (c : Callable H k j s iid i) where
  -- The kernel as the mapping finds it.
  called : Kernel H
  called = record (change H iid (with_busy H true) k) { current_instance = some iid }

  called-have : Instance.get called.instances iid ≡ some (with_busy H true i)
  unfolding called
  called-have = get-update_self (with_busy H true) (λ i. refl) k.instances iid i c.have

  called-aspace : aspace_of H called iid ≡ i.aspace
  called-aspace = rw (called-have, aspace_of)

  -- Locked and unlocked, an idle instance is as before.
  relock :
      (a : Option H.AddressSpace)
      → some (with_busy H false (with_aspace H a i)) ≡ some (with_aspace H a i)
  relock a = ap (λ b. some (with_busy H b (with_aspace H a i))) (sym c.idle)

  lock-idle : lock_instance H k iid ≡ inr (change H iid (with_busy H true) k)
  unfolding lock_instance
  lock-idle = rw (c.have, lock_instance) (simp c.idle)

  -- A call ends as its part on the locked instance does; the instance is unlocked.
  invoke-called :
      (cmd : ℕ) (ps : List Param) (cancel_id : ℕ)
      → is_cancelled k.cancelled cancel_id ≡ false
      → let r = invoke_locked H called iid j s cmd ps in
        invoke H k j cmd ps cancel_id
        ≡ (r.0, unlock_instance H (record r.1 { current_instance = none }) iid)
  unfolding called by_kind invoke_ta
  invoke-called cmd ps cancel_id live =
      invoke-found H k j s cmd ps cancel_id c.found c.alive live
      ∙ ap (λ t. by_kind H k j s t cmd ps) c.kind
      ∙ ap (λ o. invoke_ta H k o j s cmd ps) c.at
      ∙ rw (lock-idle, invoke_ta) refl

  -- What a call leaves behind if its mapping is refused and has set the address space to `a`.
  Callable-refused :
      (a : Option H.AddressSpace)
      → let k' =
          unlock_instance H
            (record (change H iid (with_aspace H a) called) { current_instance = none })
            iid in
        Callable H k' j s iid (with_aspace H a i)
  unfolding called unlock_instance
  Callable-refused a = record {
    found = c.found;
    alive = c.alive;
    kind = c.kind;
    at = c.at;
    have =
        get-update_self (with_busy H false) (λ i. refl) _ iid _
          (get-update_self (with_aspace H a) (λ i. refl) _ iid _ called-have)
        ∙ relock a;
    idle = c.idle;
  }

  -- The call that loses the address space.
  first_call :
      (cmd cookie offs size : ℕ) (d : Dir) (ps : List Param) (cancel_id : ℕ) (a : H.AddressSpace)
      → is_cancelled k.cancelled cancel_id ≡ false
      → i.aspace ≡ some a
      → H.sync_in cookie k.hal ≡ none
      → H.lookup_shm cookie k.hal ≡ none
      → let (out, k') = invoke H k j cmd (memref (ree cookie offs) size d ∷ ps) cancel_id in
        (out ≡ done_err tee_error_bad_parameters)
        × Callable H k' j s iid (with_aspace H none i)
        × (k'.cancelled ≡ k.cancelled)
  unfolding called unlock_instance
  first_call cmd cookie offs size d ps cancel_id a live space no_sync no_shm =
      let ps' = memref (ree cookie offs) size d ∷ ps in
      let m =
        map_params-unknown H called iid cookie offs size d ps a no_sync no_shm
          (called-aspace ∙ space) in
      rw
        (invoke-called cmd ps' cancel_id live, invoke_locked-refused H called iid j s cmd ps' _ _ m)
        (refl, Callable-refused none, refl)

  -- A call on a callable session, under an id that is not cancelled, whose instance has no address
  -- space is told that the target is dead; the instance still has none, and the session is callable
  -- as before, so the next such call is told the same.
  pub invoke-no_aspace :
      (cmd : ℕ) (ps : List Param) (cancel_id : ℕ)
      → is_cancelled k.cancelled cancel_id ≡ false
      → i.aspace ≡ none
      → let (out, k') = invoke H k j cmd ps cancel_id in
        (out ≡ done_err tee_error_target_dead)
        × Callable H k' j s iid i
        × (k'.cancelled ≡ k.cancelled)
  unfolding called unlock_instance
  invoke-no_aspace cmd ps cancel_id live space =
      let m = map_params-no_aspace H called iid ps (called-aspace ∙ space) in
      rw (invoke-called cmd ps cancel_id live, invoke_locked-refused H called iid j s cmd ps _ _ m)
        (
          refl,
          record {
            found = c.found;
            alive = c.alive;
            kind = c.kind;
            at = c.at;
            have =
                get-update_self (with_busy H false) (λ i. refl) _ iid _ called-have
                ∙ relock i.aspace;
            idle = c.idle;
          },
          refl,
        )

-- A call on a callable session whose instance has an address space, under an id that is not cancelled,
-- with a buffer in its first parameter that the HAL neither copies nor finds: the answer is
-- BAD_PARAMETERS, the instance has lost its address space, and the session is callable as before; a
-- second call, under an id that is not cancelled, whatever its parameters, is answered with TARGET_DEAD.
pub invoke-unknown_cookie :
    (H : Hal) (k : Kernel H) (j : ℕ) (s : Session) (iid : ℕ) (i : Instance H.AddressSpace)
    (cmd cookie offs size : ℕ) (d : Dir) (ps : List Param) (cancel_id : ℕ) (a : H.AddressSpace)
    (cmd2 : ℕ) (ps2 : List Param) (cancel_id2 : ℕ)
    → Callable H k j s iid i
    → is_cancelled k.cancelled cancel_id ≡ false
    → is_cancelled k.cancelled cancel_id2 ≡ false
    → i.aspace ≡ some a
    → H.sync_in cookie k.hal ≡ none
    → H.lookup_shm cookie k.hal ≡ none
    → let (out, k') = invoke H k j cmd (memref (ree cookie offs) size d ∷ ps) cancel_id in
      (out ≡ done_err tee_error_bad_parameters)
      × Callable H k' j s iid (with_aspace H none i)
      × (k'.cancelled ≡ k.cancelled)
      × ((invoke H k' j cmd2 ps2 cancel_id2).0 ≡ done_err tee_error_target_dead)
invoke-unknown_cookie H k j s iid i cmd cookie offs size d ps cancel_id a cmd2 ps2 cancel_id2 c live
      live2 space no_sync no_shm =
    let (answered, callable, same) =
      first_call H k j s iid i c cmd cookie offs size d ps cancel_id a live space no_sync no_shm in
    let k' = (invoke H k j cmd (memref (ree cookie offs) size d ∷ ps) cancel_id).1 in
    let again =
      invoke-no_aspace H k' j s iid (with_aspace H none i) callable cmd2 ps2 cancel_id2
        (ap (λ l. is_cancelled l cancel_id2) same ∙ live2) refl in
    (answered, callable, same, again.0)
