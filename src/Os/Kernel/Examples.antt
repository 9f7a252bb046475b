-- ===== src/Os/Kernel/Examples.antt =====
-- A small HAL, and the kernel's theorems at concrete states: one instance with one session, in the
-- middle of a call and between two calls.
use rustee.Prelude.{
  ℕ, ◌+◌, ◌≡◌, refl, [], ◌∷◌, none, some, Bool, true, false, arith, inr, replicate, ◌==◌,
  if◌then◌else◌, bytes_eq,
}
use rustee.Slots
use rustee.Slots.Laws.{IsTable}
use rustee.Bytes.{read_u16, read_u32, byte_at}
use rustee.Os.Abi.{
  Uuid, public, memref, ree, dir_in, no_params, KernelCmd, done_err, result_ok, tee_error_busy,
  tee_error_target_dead, tee_error_security, tee_error_cancel, tee_error_bad_parameters,
  tee_success,
}
use rustee.Os.Header.{
  TaProperties, parse_rtsg, find_ta_head, elf64_section, parse_ta_head, head_fields, validate,
}
use rustee.Os.Elf.{TaEntryPoints, parse_elf}
use rustee.Os.Loader.{Crypto, load_image, verify_image}
use rustee.Os.Session.{Session, SessionTable, user_ta, ready, session_key, of_instance}
use rustee.Os.Session
use rustee.Os.Instance.{Instance, InstanceTable, live, instance_key}
use rustee.Os.Instance
use rustee.Os.Kernel.Defs.{Hal, Kernel, Yielding, fail, new, is_cancelled}
use rustee.Os.Kernel.Invoke.{invoke, on_ta_panic}
use rustee.Os.Kernel.Close.{close}
use rustee.Os.Kernel.Handle.{handle, load_ta, start_loaded, map_elf}
use rustee.Os.Tests.{toy_crypto, small_envelope}
use rustee.Os.Kernel.Panic.{on_ta_panic-isolates, invoke-after_panic, close-after_panic}
use rustee.Os.Kernel.Lost.{Callable, invoke-unknown_cookie}
use rustee.Os.Kernel.Loading.{StartsNothing, load_ta-signed}
use rustee.Os.Kernel.Idle.{Idle}
use rustee.Os.Kernel.Idle.Commands.{handle-Idle}
use rustee.Os.Abi.{KernelOut}
use rustee.Os.Kernel.Gate.{run, cancel-run, run-silent}

-- The world counts the calls of TAs; shared memory 1 is there, and no other.
abbrev counting_hal : Hal
counting_hal = record {
  World = ℕ;
  AddressSpace = ℕ;
  Shm = ℕ;
  Pta = ℕ;
  new_address_space = λ w. (0, w);
  map_image = λ a va b p w. (some (va, a), w);
  drop_all = λ a w. w;
  unmap = λ a va w. (a, w);
  lookup_shm = λ c w. if c == 1 then some 64 else none;
  sync_in = λ c w. if c == 1 then some (true, w) else none;
  sync_out = λ c w. if c == 1 then some (true, w) else none;
  shm_len = λ s. s;
  map_into = λ s a p w. (some (4096, a + 1), w);
  ta_create = λ e w. (0, w + 1);
  ta_destroy = λ e w. w + 1;
  ta_open = λ e t raw w. record { code = 0; raw = raw; ctx = 7; world = w + 1 };
  ta_close = λ e c w. w + 1;
  ta_invoke = λ e c m t raw w. record { code = 0; raw = raw; world = w + 1 };
  pta_uuid = λ p. [];
  pta_open = λ p ps w. record { result = inr p; params = ps; world = w };
  pta_invoke = λ p c m ps w. record { result = result_ok; params = ps; world = w };
  pta_close = λ p c w. w;
}

abbrev hello_uuid : Uuid
hello_uuid = replicate 16 9

abbrev hello_props : TaProperties
hello_props = record {
  uuid = hello_uuid;
  stack_size = 4096;
  data_size = 4096;
  single_instance = true;
  multi_session = true;
  instance_keep_alive = false;
  endian = 0;
  ta_version = 1;
}

abbrev hello_entries : TaEntryPoints
hello_entries = record { create = 1; destroy = 2; open_session = 3; close_session = 4; invoke = 5 }

abbrev hello_instance : (busy : Bool) → Instance ℕ
hello_instance b = record {
  id = 1;
  uuid = hello_uuid;
  props = hello_props;
  aspace = some 0;
  session_count = 1;
  state = live;
  entries = some hello_entries;
  busy = b;
}

abbrev hello_session : Session
hello_session = record {
  id = 1;
  uuid = hello_uuid;
  kind = user_ta;
  instance_id = some 1;
  ta_sess_ctx = 7;
  state = ready;
  client = public;
}

-- One session on one instance; the instance is being called if `b`.
abbrev hello_kernel : (b : Bool) → Kernel counting_hal
hello_kernel b = record {
  sessions = record { slots = some hello_session ∷ none ∷ []; next_id = 2 };
  instances = record { slots = some (hello_instance b) ∷ none ∷ []; next_id = 2 };
  ptas = [];
  early = [];
  yielding = none;
  current_instance = if b then some 1 else none;
  current_pta = false;
  ree_entropy = false;
  notices_ok = true;
  cancelled = [];
  hal = 0;
}

abbrev no_crypto : Crypto
no_crypto = record { sha256 = λ b. []; rsa_pkcs1_verify = λ k d s. true; v0_dev_pubkey = [] }

on_ta_panic-isolates_example :
    (on_ta_panic counting_hal (hello_kernel true)).0 ≡ done_err tee_error_target_dead
on_ta_panic-isolates_example = (on_ta_panic-isolates counting_hal (hello_kernel true) 1 refl).0

invoke-after_panic_example :
    let k' = (on_ta_panic counting_hal (hello_kernel true)).1 in
    invoke counting_hal k' 1 0 no_params 5 ≡ fail counting_hal tee_error_target_dead k'
unfolding Session.get Slots.find is_cancelled
invoke-after_panic_example =
    invoke-after_panic counting_hal (hello_kernel true) 1 refl 1 hello_session 0 no_params 5 refl
      refl refl

hello_sessions-IsTable : IsTable session_key (some hello_session ∷ none ∷ []) 2
unfolding Slots.find
hello_sessions-IsTable = record {
  distinct = (refl, tt);
  fresh = (omega arith, tt);
  positive = omega arith;
}

close-after_panic_example :
    (close counting_hal (on_ta_panic counting_hal (hello_kernel true)).1 1).0
    ≡ done_err tee_error_busy
unfolding Session.get Instance.get Slots.find
close-after_panic_example =
    (close-after_panic counting_hal (hello_kernel true) 1 refl 1 hello_session (hello_instance true)
      hello_sessions-IsTable refl refl refl refl refl).0

hello-Callable : Callable counting_hal (hello_kernel false) 1 hello_session 1 (hello_instance false)
unfolding Session.get Instance.get Slots.find
hello-Callable = record {
  found = refl;
  alive = refl;
  kind = refl;
  at = refl;
  have = refl;
  idle = refl;
}

invoke-unknown_cookie_example :
    let (out, k') =
      invoke counting_hal (hello_kernel false) 1 0 (memref (ree 2 0) 8 dir_in ∷ []) 5 in
    (out ≡ done_err tee_error_bad_parameters)
    × ((invoke counting_hal k' 1 3 no_params 6).0 ≡ done_err tee_error_target_dead)
unfolding is_cancelled
invoke-unknown_cookie_example =
    let r =
      invoke-unknown_cookie counting_hal (hello_kernel false) 1 hello_session 1
        (hello_instance false) 0 2 0 8 dir_in [] 5 0 3 no_params 6 hello-Callable refl refl refl
        refl refl in
    (r.0, r.3)

abbrev waiting : Yielding
waiting = record {
  uuid = hello_uuid;
  login = public;
  params = no_params;
  cancel_id = 5;
  timeout_ms = 0;
}

-- The envelope is accepted, and names the TA that is waited for.
signed_accepted :
    load_ta counting_hal toy_crypto (hello_kernel false) waiting small_envelope
    ≡ some (fail counting_hal tee_error_bad_parameters (hello_kernel false))
unfolding load_ta start_loaded load_image verify_image parse_rtsg parse_elf find_ta_head
    elf64_section parse_ta_head head_fields validate read_u32 read_u16 byte_at bytes_eq map_elf
    is_cancelled
signed_accepted = refl

load_ta-signed_example :
    StartsNothing counting_hal toy_crypto
      (hello_kernel false)
      (load_ta counting_hal toy_crypto (hello_kernel false) waiting small_envelope)
unfolding read_u32
load_ta-signed_example =
    load_ta-signed counting_hal toy_crypto (hello_kernel false) waiting small_envelope refl

cancel-run_example :
    invoke counting_hal (record (hello_kernel false) { cancelled = 5 ∷ [] }) 1 0 no_params 5
    ≡ fail counting_hal tee_error_cancel (record (hello_kernel false) { cancelled = 5 ∷ [] })
unfolding handle run
cancel-run_example =
    (cancel-run counting_hal no_crypto (hello_kernel false)
        (record (hello_kernel false) { cancelled = 5 ∷ [] })
        (record (hello_kernel false) { cancelled = 5 ∷ [] }) 5 (done_err tee_success) [] [] refl
        refl refl).2
      1 0 no_params

run-silent_example :
    run counting_hal no_crypto
      (new counting_hal true 0)
      (KernelCmd.close_session 1 ∷ KernelCmd.cancel 3 ∷ [])
    ≡ some (done_err tee_error_security ∷ done_err tee_error_security ∷ [], new counting_hal true 0)
run-silent_example =
    (run-silent counting_hal no_crypto 0 (KernelCmd.close_session 1 ∷ KernelCmd.cancel 3 ∷ [])).0

hello-Idle : Idle counting_hal (hello_kernel false)
unfolding Instance.get Slots.find
hello-Idle = record {
  valid = record { distinct = (refl, tt); fresh = (omega arith, tt); positive = omega arith };
  free = λ j i e. ground (arith, e);
}

hello_call :
    (out : KernelOut) × (k' : Kernel counting_hal) × (handle counting_hal no_crypto
        (hello_kernel false)
        (KernelCmd.close_session 1)
      ≡ some (out, k'))
unfolding handle
hello_call = (_, _, refl)

handle-Idle_example : Idle counting_hal hello_call.1
handle-Idle_example =
    handle-Idle counting_hal no_crypto (hello_kernel false) (KernelCmd.close_session 1) hello_call.0
      hello_call.1 (omega arith) hello-Idle hello_call.2
