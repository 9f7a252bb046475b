-- ===== src/Os/Kernel/Panic.antt =====
-- A TA panics (`on_panic`, `on_ta_panic` of crates/rustee-os/src/lib.rs).
use rustee.Prelude.{
  ℕ, ◌≡◌, refl, ap, ◌∙◌, List, none, some, true, false, arith, inl, ◌==◌, if◌then◌else◌,
}
use rustee.Os.Abi.{Param, done_err, tee_error_target_dead, tee_error_busy}
use rustee.Os.Session.{Session, SessionTable, of_instance, is_dead, dead, user_ta, session_key}
use rustee.Os.Session
use rustee.Os.Session.Table
use rustee.Os.Session.Table.{
  get-poison_instance, poisoned, take-refines, take-get, poison_instance-IsValid,
}
use rustee.Os.Instance.{Instance, InstanceTable, InstanceState}
use rustee.Os.Instance
use rustee.Os.Instance.Table.{get-update}
use rustee.Os.Kernel.Defs.{Hal, Kernel, fail, is_cancelled, lock_instance}
use rustee.Os.Kernel.Invoke.{invoke, on_ta_panic, bury}
use rustee.Os.Kernel.Close.{close, close_kind, close_ta}

lock-busy :
    (H : Hal) (k : Kernel H) (id : ℕ) (i : Instance H.AddressSpace)
    → Instance.get k.instances id ≡ some i
    → i.busy ≡ true
    → lock_instance H k id ≡ inl tee_error_busy
unfolding lock_instance
lock-busy H k id i have busy = rw (have, lock_instance) (simp busy)

close-found :
    (H : Hal) (k : Kernel H) (j : ℕ) (s : Session)
    → Session.get k.sessions j ≡ some s
    → close H k j ≡ close_kind H (record k { sessions = (Session.take k.sessions j).1 }) s s.kind
unfolding close
close-found H k j s found = rw (take-get k.sessions j ∙ found, close)

close-busy :
    (H : Hal) (k : Kernel H) (j : ℕ) (s : Session) (id : ℕ) (i : Instance H.AddressSpace)
    → Session.get k.sessions j ≡ some s
    → s.kind ≡ user_ta
    → s.instance_id ≡ some id
    → Instance.get k.instances id ≡ some i
    → i.busy ≡ true
    → close H k j ≡ fail H tee_error_busy (record k { sessions = (Session.take k.sessions j).1 })
unfolding close_kind
close-busy H k j s id i found kind at have busy =
    let k' : Kernel H = record k { sessions = (Session.take k.sessions j).1 } in
    let l : lock_instance H k' id ≡ inl tee_error_busy = lock-busy H k' id i have busy in
    close-found H k j s found
    ∙ ap (close_kind H k' s) kind
    ∙ ap (λ o. close_ta H k' o s.ta_sess_ctx) at
    ∙ rw (l, close_ta)

module _ (H : Hal) (k : Kernel H) (id : ℕ) (current : k.current_instance ≡ some id) where
  after : Kernel H
  after = (on_ta_panic H k).1

  -- The instances after the panic: the panicking one is dead and its address space is gone; the others
  -- are as they were.
  instances_after :
      (j : ℕ)
      → Instance.get after.instances j ≡ (
          if id == j
          then elim (Instance.get k.instances id) [ none ↦ none | some i ↦ some (bury H i) ]
          else Instance.get k.instances j)
  unfolding after on_ta_panic
  instances_after j = rw (current, on_ta_panic) (get-update (bury H) (λ i. refl) k.instances id j)

  sessions_after :
      (j : ℕ)
      → Session.get after.sessions j
        ≡ (elim (Session.get k.sessions j) [ none ↦ none | some s ↦ some (poisoned id s) ])
  unfolding after on_ta_panic
  sessions_after j = rw (current, on_ta_panic) (get-poison_instance k.sessions id j)

  cancelled_after : after.cancelled ≡ k.cancelled
  unfolding after on_ta_panic
  cancelled_after = rw (current, on_ta_panic)

  -- A panic of the TA of the current instance stays within it: the kernel answers that the target is
  -- dead and has no current instance any more; the instance, if it is there, is dead and has lost its
  -- address space, each of its sessions is dead, and every other instance, every other session and the
  -- cancelled ids are as before.
  pub on_ta_panic-isolates :
      let (out, k') = on_ta_panic H k in
      (out ≡ done_err tee_error_target_dead)
      × (k'.current_instance ≡ none)
      × (k'.cancelled ≡ k.cancelled)
      × ((j : ℕ)
          → Instance.get k'.instances j ≡ (
              if id == j
              then elim (Instance.get k.instances id) [ none ↦ none | some i ↦ some (bury H i) ]
              else Instance.get k.instances j))
      × ((j : ℕ)
          → Session.get k'.sessions j ≡ (elim (Session.get k.sessions j) [
            | none ↦ none
            | some s ↦ some (if of_instance id s then record s { state = dead } else s)
          ]))
  unfolding after on_ta_panic
  on_ta_panic-isolates = (answer, idle, cancelled_after, instances_after, sessions_after)
    where
      answer : (on_ta_panic H k).0 ≡ done_err tee_error_target_dead
      answer = rw (current, on_ta_panic)

      idle : (on_ta_panic H k).1.current_instance ≡ none
      idle = rw (current, on_ta_panic)

  -- After a panic of the TA of the current instance, an invocation on a session of this instance, under
  -- an id that is not cancelled, is told that the target is dead and changes nothing.
  pub invoke-after_panic :
      (j : ℕ) (s : Session) (cmd : ℕ) (ps : List Param) (cancel_id : ℕ)
      → Session.get k.sessions j ≡ some s
      → of_instance id s ≡ true
      → is_cancelled k.cancelled cancel_id ≡ false
      → let k' = (on_ta_panic H k).1 in
        invoke H k' j cmd ps cancel_id ≡ fail H tee_error_target_dead k'
  unfolding after invoke
  invoke-after_panic j s cmd ps cancel_id found of_it live =
      rw (cancelled_after, live, sessions_after j, found, of_it)

  -- When the TA of the current instance panics in a call, which holds the instance's lock, then closing
  -- one of its sessions, in a valid table, is answered with busy; yet the session is gone from the
  -- table, and the dead instance keeps its slot.
  pub close-after_panic :
      (j : ℕ) (s : Session) (i : Instance H.AddressSpace)
      → Session.Table.IsValid k.sessions
      → Session.get k.sessions j ≡ some s
      → s.kind ≡ user_ta
      → s.instance_id ≡ some id
      → Instance.get k.instances id ≡ some i
      → i.busy ≡ true
      → let (out, k') = close H (on_ta_panic H k).1 j in
        (out ≡ done_err tee_error_busy)
        × (Session.get k'.sessions j ≡ none)
        × (Instance.get k'.instances id ≡ some (bury H i))
  unfolding after on_ta_panic
  close-after_panic j s i v found kind at have busy =
      let k1 = (on_ta_panic H k).1 in
      let found' : Session.get k1.sessions j ≡ some (record s { state = dead }) =
        ground (arith, sessions_after j) in
      let have' : Instance.get k1.instances id ≡ some (bury H i) =
        ground (arith, instances_after id) in
      let c =
        close-busy H k1 j (record s { state = dead }) id (bury H i) found' kind at have' busy in
      let gone = (take-refines k1.sessions j sessions_valid).2 j in
      rw c (refl, ground (arith, gone), have')
    where
      sessions_valid : Session.Table.IsValid (on_ta_panic H k).1.sessions
      sessions_valid = rw (current, on_ta_panic) (poison_instance-IsValid k.sessions id v)
