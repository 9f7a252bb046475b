-- ===== src/Os/Kernel/Defs.antt =====
-- crates/rustee-os/src/lib.rs: the kernel over a HAL. What a HAL, the TAs and the pseudo TAs do is a
-- parameter: functions of a world that the kernel threads through. A TA call does not come back into
-- the kernel; a TA that panics is `on_panic` between two calls.
use rustee.Prelude.{
  ℕ, List, [], ◌∷◌, ◌++◌, Option, none, some, Bool, true, false, not, ◌==◌, ◌||◌, if◌then◌else◌,
  bytes_eq, ◌⊎◌, inl, inr,
}
use rustee.Os.Abi.{
  Uuid, Login, Param, ParamRaw, TeeResult, KernelOut, done_err, tee_error_busy,
  tee_error_target_dead,
}
use rustee.Os.Elf.{TaEntryPoints}
use rustee.Os.Loader.{EarlyTa}
use rustee.Os.Session.{Session, SessionTable, SessionKind, SessionState, user_ta, pta, is_dead}
use rustee.Os.Session
use rustee.Os.Instance.{Instance, InstanceTable, InstanceState, live}
use rustee.Os.Instance

pub record Perms : Type 0 where
  pub read : Bool
  pub write : Bool
  pub exec : Bool

abbrev pub perms_rx : Perms
perms_rx = record { read = true; write = false; exec = true }

-- The environment of the kernel. `World` is all that lies outside: the HAL's own state, the memory of
-- the TAs, the state of the pseudo TAs.
pub record Hal : Type 1 where
  pub World : Type 0
  pub AddressSpace : Type 0
  pub Shm : Type 0
  pub Pta : Type 0
  pub new_address_space : World → AddressSpace × World
  pub map_image : AddressSpace → ℕ → List ℕ → Perms → World → Option (ℕ × AddressSpace) × World
  pub drop_all : AddressSpace → World → World
  pub unmap : AddressSpace → ℕ → World → AddressSpace × World
  pub lookup_shm : ℕ → World → Option Shm
  -- `lookup_shm_mut(cookie)`: `none` if there is no such memory, and else whether the copy succeeds.
  pub sync_in : ℕ → World → Option (Bool × World)
  pub sync_out : ℕ → World → Option (Bool × World)
  pub shm_len : Shm → ℕ
  pub map_into : Shm → AddressSpace → Perms → World → Option (ℕ × AddressSpace) × World
  -- The TA entry points at their addresses, and the methods of a pseudo TA.
  pub ta_create : ℕ → World → ℕ × World
  pub ta_destroy : ℕ → World → World
  pub ta_open :
      ℕ
      → (types : ℕ) → List ParamRaw
      → World
      → record { code : ℕ; raw : List ParamRaw; ctx : ℕ; world : World }
  pub ta_close : ℕ → (ctx : ℕ) → World → World
  pub ta_invoke :
      ℕ
      → (ctx cmd types : ℕ) → List ParamRaw
      → World
      → record { code : ℕ; raw : List ParamRaw; world : World }
  pub pta_uuid : Pta → Uuid
  pub pta_open :
      Pta
      → List Param
      → World
      → record { result : TeeResult ⊎ ℕ; params : List Param; world : World }
  pub pta_invoke :
      Pta
      → (ctx cmd : ℕ) → List Param
      → World
      → record { result : TeeResult; params : List Param; world : World }
  pub pta_close : Pta → (ctx : ℕ) → World → World

abbrev pub max_sessions : ℕ
max_sessions = 32

abbrev pub max_instances : ℕ
max_instances = 16

-- The one call that waits for the REE: `Yielding::LoadTa`.
pub record Yielding : Type 0 where
  pub uuid : Uuid
  pub login : Login
  pub params : List Param
  pub cancel_id : ℕ
  pub timeout_ms : ℕ

-- `Kernel::cancelled`
unfoldable pub is_cancelled : List ℕ → ℕ → Bool
is_cancelled [] c = false
is_cancelled (x ∷ xs) c = x == c || is_cancelled xs c

module _ (H : Hal) where
  open H use {World, AddressSpace, Pta}

  pub record Kernel : Type 0 where
    pub sessions : SessionTable
    pub instances : InstanceTable AddressSpace
    pub ptas : List Pta
    pub early : List EarlyTa
    pub yielding : Option Yielding
    pub current_instance : Option ℕ
    pub current_pta : Bool
    pub ree_entropy : Bool
    pub notices_ok : Bool
    pub cancelled : List ℕ
    pub hal : World

  -- `Kernel::new`; `host` says whether the entropy is the host's.
  unfoldable pub new : (host : Bool) → World → Kernel
  new host w = record {
    sessions = Session.new max_sessions;
    instances = Instance.new AddressSpace max_instances;
    ptas = [];
    early = [];
    yielding = none;
    current_instance = none;
    current_pta = false;
    ree_entropy = host;
    notices_ok = not host;
    cancelled = [];
    hal = w;
  }

  -- What a call returns beside the new kernel.
  abbrev pub Reply : Type 0
  Reply = KernelOut × Kernel

  abbrev pub fail : ℕ → Kernel → Reply
  fail code k = (done_err code, k)

  unfoldable pub register_pta : Pta → Kernel → Kernel
  register_pta p k = record k { ptas = k.ptas ++ (p ∷ []) }

  unfoldable pub register_early_ta : EarlyTa → Kernel → Kernel
  register_early_ta t k = record k { early = k.early ++ (t ∷ []) }

  -- `emit_ree_notices`; `written` says whether both lines could be written to the console.
  unfoldable pub emit_ree_notices : (written : Bool) → Kernel → Bool × Kernel
  emit_ree_notices written k =
      if not k.ree_entropy
      then (true, record k { notices_ok = true })
      else if written
      then (true, record k { notices_ok = true })
      else (false, k)

  unfoldable pub find_pta : List Pta → Uuid → Option Pta
  find_pta [] u = none
  find_pta (p ∷ ps) u = if bytes_eq (H.pta_uuid p) u then some p else find_pta ps u

  -- A write to one instance, if it is there.
  abbrev pub change : ℕ → (Instance AddressSpace → Instance AddressSpace) → Kernel → Kernel
  change iid f k = record k { instances = Instance.update k.instances iid f }

  abbrev pub with_aspace : Option AddressSpace → Instance AddressSpace → Instance AddressSpace
  with_aspace a i = record i { aspace = a }

  abbrev pub with_busy : Bool → Instance AddressSpace → Instance AddressSpace
  with_busy b i = record i { busy = b }

  -- An instance serves one call at a time.
  unfoldable pub lock_instance : Kernel → ℕ → ℕ ⊎ Kernel
  lock_instance k iid = elim (Instance.get k.instances iid) [
    | none ↦ inl tee_error_target_dead
    | some i ↦ if i.busy then inl tee_error_busy else inr (change iid (with_busy true) k)
  ]

  unfoldable pub unlock_instance : Kernel → ℕ → Kernel
  unlock_instance k iid = change iid (with_busy false) k

  abbrev pub entries_of : Kernel → ℕ → Option TaEntryPoints
  entries_of k iid = elim (Instance.get k.instances iid) [ none ↦ none | some i ↦ i.entries ]

  abbrev pub aspace_of : Kernel → ℕ → Option AddressSpace
  aspace_of k iid = elim (Instance.get k.instances iid) [ none ↦ none | some i ↦ i.aspace ]
