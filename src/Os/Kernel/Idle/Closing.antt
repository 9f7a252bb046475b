-- ===== src/Os/Kernel/Idle/Closing.antt =====
-- Closing a session (`close` of crates/rustee-os/src/lib.rs) gives back the lock of its instance, or
-- drops the instance.
use rustee.Prelude.{ℕ, ◌≡◌, refl, Option, none, some, arith, Bool-cases, Option-cases, inl, inr}
use rustee.Os.Session.{Session}
use rustee.Os.Session
use rustee.Os.Kernel.Defs.{Hal, Kernel, change}
use rustee.Os.Kernel.Invoke.{bury, kill_instance}
use rustee.Os.Kernel.Close.{close, close_kind, close_ta, close_locked, count_down}
use rustee.Os.Kernel.Idle.{
  Idle, Idle-eq, Calling, change-Calling, unlock-Idle, drop-Idle, lock_cases, locked-Calling,
  Calling-eq,
}
use rustee.Os.Session.{SessionKind, user_ta, pta, is_dead}
use rustee.Os.Kernel.Close.{call_close, call_destroy, is_last}
use rustee.Os.Kernel.Defs.{find_pta}

module _ (H : Hal) where
  open H use {AddressSpace}

  call_close-instances :
      (k : Kernel H) (iid ctx : ℕ) → (call_close H k iid ctx).instances ≡ k.instances
  unfolding call_close
  call_close-instances k iid ctx = ground arith

  call_destroy-instances : (k : Kernel H) (iid : ℕ) → (call_destroy H k iid).instances ≡ k.instances
  unfolding call_destroy
  call_destroy-instances k iid = ground arith

  kill_instance-Calling :
      (k : Kernel H) (iid : ℕ) → Calling H iid k → Calling H iid (kill_instance H k iid)
  unfolding kill_instance
  kill_instance-Calling k iid c =
      Calling-eq H iid (change H iid (bury H) k) _ refl
        (change-Calling H iid (bury H) (λ i. refl) k c)

  close_locked-Idle :
      (k : Kernel H) (iid ctx : ℕ) → Calling H iid k → Idle H (close_locked H k iid ctx)
  unfolding close_locked
  close_locked-Idle k iid ctx c =
      let k1 : Kernel H = change H iid (count_down H) (call_close H k iid ctx) in
      let c1 =
        change-Calling H iid (count_down H) (λ i. refl) (call_close H k iid ctx)
          (Calling-eq H iid k _ (call_close-instances k iid ctx) c) in
      elim (Bool-cases (is_last H k1 iid)) [
        | inl b ↦
            rw (b, close_locked)
              (drop-Idle H iid _ (
                kill_instance-Calling (call_destroy H k1 iid) iid
                  (Calling-eq H iid k1 _ (call_destroy-instances k1 iid) c1)))
        | inr b ↦ rw (b, close_locked) (unlock-Idle H iid k1 c1)
      ]

  close_ta-Idle : (k : Kernel H) (o : Option ℕ) (ctx : ℕ) → Idle H k → Idle H (close_ta H k o ctx).1
  unfolding close_ta
  close_ta-Idle k none ctx c = c
  close_ta-Idle k (some iid) ctx c = elim (lock_cases H iid k) [
    | inl (code, e) ↦ rw (e, close_ta) c
    | inr e ↦ rw (e, close_ta) (close_locked-Idle _ iid ctx (locked-Calling H iid k c))
  ]

  close_kind-Idle :
      (k : Kernel H) (s : Session) (x : SessionKind) → Idle H k → Idle H (close_kind H k s x).1
  unfolding close_kind
  close_kind-Idle k s user_ta c = close_ta-Idle k s.instance_id s.ta_sess_ctx c
  close_kind-Idle k s pta c = elim (Option-cases (find_pta H k.ptas s.uuid)) [
    | inl e ↦ rw (e, close_kind) c
    | inr (p, e) ↦ rw (e, close_kind) (Idle-eq H k _ refl c)
  ]

  pub close-Idle : (k : Kernel H) (j : ℕ) → Idle H k → Idle H (close H k j).1
  unfolding close
  close-Idle k j c = elim (Option-cases (Session.take k.sessions j).0) [
    | inl e ↦ rw (e, close) c
    | inr (s, e) ↦ rw (e, close) (close_kind-Idle _ s s.kind (Idle-eq H k _ refl c))
  ]
