-- ===== src/Os/Abi.antt =====
-- crates/rustee-os/src/abi.rs: the kernel's own types, and the marshalling of parameters to the raw
-- words that a TA sees. `usize` has 64 bits.
use rustee.Prelude.{
  ℕ, zero, suc, ◌+◌, ◌*◌, ◌/◌, ◌%◌, ◌^◌, List, [], ◌∷◌, Option, none, some, Bool, true, false,
  replicate, map,
}
pub mod Params

abbrev pub param_count : ℕ
param_count = 4

abbrev pub tee_success : ℕ
tee_success = 0

abbrev pub tee_error_cancel : ℕ
tee_error_cancel = 0xFFFF0002

abbrev pub tee_error_bad_parameters : ℕ
tee_error_bad_parameters = 0xFFFF0006

abbrev pub tee_error_item_not_found : ℕ
tee_error_item_not_found = 0xFFFF0008

abbrev pub tee_error_not_supported : ℕ
tee_error_not_supported = 0xFFFF000A

abbrev pub tee_error_out_of_memory : ℕ
tee_error_out_of_memory = 0xFFFF000C

abbrev pub tee_error_busy : ℕ
tee_error_busy = 0xFFFF000D

abbrev pub tee_error_security : ℕ
tee_error_security = 0xFFFF000F

abbrev pub tee_error_target_dead : ℕ
tee_error_target_dead = 0xFFFF3024

-- A UUID is its sixteen bytes.
abbrev pub Uuid : Type 0
Uuid = List ℕ

pub data Origin : Type 0 where
  tee trusted_app : Origin

pub as_gp : Origin → ℕ
as_gp Origin.tee = 3
as_gp Origin.trusted_app = 4

pub record TeeResult : Type 0 where
  pub code : ℕ
  pub origin : Origin

-- `TeeResult::ok`, `TeeResult::tee` and `TeeResult::ta`.
abbrev pub result_ok : TeeResult
result_ok = record { code = 0; origin = Origin.tee }

abbrev pub result_tee : ℕ → TeeResult
result_tee c = record { code = c; origin = Origin.tee }

abbrev pub result_ta : ℕ → TeeResult
result_ta c = record { code = c; origin = Origin.trusted_app }

pub data Dir : Type 0 where
  dir_in dir_out dir_inout : Dir

pub data Login : Type 0 where
  public user application user_application : Login
  group group_application : ℕ → Login
  trusted_app : Uuid → Login

-- A buffer of the client (a cookie of the bounce pool and an offset), or of the calling TA.
pub data MemrefSrc : Type 0 where
  ree : ℕ → ℕ → MemrefSrc
  ta : ℕ → MemrefSrc

pub data Param : Type 0 where
  empty : Param
  value : ℕ → ℕ → Dir → Param
  memref : MemrefSrc → ℕ → Dir → Param

pub data HalRpc : Type 0 where
  load_ta : Uuid → HalRpc
  get_time fs shm_alloc shm_free : HalRpc

pub data RpcResponse : Type 0 where
  load_ta : List ℕ → RpcResponse
  time : ℕ → ℕ → RpcResponse
  fs : ℕ → RpcResponse
  shm : ℕ → RpcResponse
  error : ℕ → RpcResponse

pub data KernelCmd : Type 0 where
  open_session : Uuid → Login → List Param → (cancel_id : ℕ) → (timeout_ms : ℕ) → KernelCmd
  invoke :
      (session : ℕ) → (cmd_id : ℕ) → List Param → (cancel_id : ℕ) → (timeout_ms : ℕ) → KernelCmd
  close_session : ℕ → KernelCmd
  cancel : ℕ → KernelCmd
  rpc_complete : RpcResponse → KernelCmd

pub data KernelOut : Type 0 where
  done : TeeResult → Option ℕ → List Param → KernelOut
  rpc : HalRpc → KernelOut

abbrev pub no_params : List Param
no_params = replicate param_count empty

abbrev pub done_err : ℕ → KernelOut
done_err c = KernelOut.done (result_tee c) none no_params

-- The union of a memref and two 32-bit values, as the two words that hold it (little-endian): a value
-- pair lies in the first word. The second word of a value is unspecified, and 0 here.
pub record ParamRaw : Type 0 where
  pub word0 : ℕ
  pub word1 : ℕ

abbrev pub raw_memref : ℕ → ℕ → ParamRaw
raw_memref buffer size = record { word0 = buffer; word1 = size }

abbrev pub raw_value : ℕ → ℕ → ParamRaw
raw_value a b = record { word0 = a + b * 2 ^ 32; word1 = 0 }

abbrev pub raw_none : ParamRaw
raw_none = raw_value 0 0

abbrev pub type_of : Param → ℕ
type_of empty = 0
type_of (value a b dir_in) = 1
type_of (value a b dir_out) = 2
type_of (value a b dir_inout) = 3
type_of (memref s n dir_in) = 5
type_of (memref s n dir_out) = 6
type_of (memref s n dir_inout) = 7

-- `t |= n << (4 * i)` from parameter `i` on; the fields are disjoint, so the union is a sum.
pub types_from : ℕ → List Param → ℕ
types_from i [] = 0
types_from i (p ∷ ps) = type_of p * 2 ^ (4 * i) + types_from (suc i) ps

pub param_types_of : List Param → ℕ
unfolding types_from
param_types_of ps = types_from 0 ps

abbrev pub to_raw : Param → ParamRaw
to_raw empty = raw_none
to_raw (value a b d) = raw_value a b
to_raw (memref (ree cookie offs) size d) = raw_memref 0 size
to_raw (memref (ta va) size d) = raw_memref va size

unfoldable pub params_to_raw : List Param → List ParamRaw
params_to_raw ps = map to_raw ps

abbrev pub from_raw : Param → ParamRaw → Param
from_raw empty r = empty
from_raw (value a b dir_in) r = value a b dir_in
from_raw (value a b dir_out) r = value (r.word0 % 2 ^ 32) (r.word0 / 2 ^ 32 % 2 ^ 32) dir_out
from_raw (value a b dir_inout) r = value (r.word0 % 2 ^ 32) (r.word0 / 2 ^ 32 % 2 ^ 32) dir_inout
from_raw (memref s n dir_in) r = memref s n dir_in
from_raw (memref s n dir_out) r = memref s r.word1 dir_out
from_raw (memref s n dir_inout) r = memref s r.word1 dir_inout

unfoldable pub params_from_raw : List Param → List ParamRaw → List Param
params_from_raw [] rs = []
params_from_raw (p ∷ ps) [] = p ∷ ps
params_from_raw (p ∷ ps) (r ∷ rs) = from_raw p r ∷ params_from_raw ps rs
