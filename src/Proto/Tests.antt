-- ===== src/Proto/Tests.antt =====
-- The theorems on the wire at concrete frames and messages.
use rustee.Prelude.{panic, ◌-◌, ℕ, ◌^◌, ◌≡◌, refl, List, [], ◌∷◌, arith, replicate, ok, ◌>>=◌}
use rustee.Proto.{
  CallFrame, PduHeader, MsgArgHdr, MsgParam, write_msg, decode_msg, byte_size, no_param, encode_at,
  encode_hdr, write_params, yielding, smc_call_with_arg,
}
use rustee.Proto.Frames.{Words}
use rustee.Proto.Decoder.{decode_msg_panics}
use rustee.Proto.Messages.{HdrFits, decode_msg-write_msg}

abbrev a_frame : CallFrame
a_frame = record { r = smc_call_with_arg ∷ 1 ∷ 0x23456789 ∷ 0 ∷ 0 ∷ 0 ∷ 0 ∷ 0 ∷ [] }

a_frame-Words : Words a_frame.r
a_frame-Words = (
  omega arith,
  (
    omega arith,
    (omega arith, (omega arith, (omega arith, (omega arith, (omega arith, (omega arith, tt)))))),
  ),
)

abbrev enter_pdu : PduHeader
enter_pdu = yielding 1 7 128

abbrev open_hdr : MsgArgHdr
open_hdr = record {
  cmd = 0;
  func = 0;
  session = 0;
  cancel_id = 3;
  pad = 0;
  ret = 0;
  ret_origin = 0;
  num_params = 1;
}

abbrev open_param : MsgParam
open_param = record { attr = 0x101; a = 17; b = 34; c = 0 }

open_hdr-Fits : HdrFits open_hdr
open_hdr-Fits = record {
  cmd_fits = omega arith;
  func_fits = omega arith;
  session_fits = omega arith;
  cancel_id_fits = omega arith;
  pad_fits = omega arith;
  ret_fits = omega arith;
  ret_origin_fits = omega arith;
  num_params_fits = omega arith;
}

decode_msg-write_msg_example :
    (write_msg (replicate 96 0) 16 open_hdr (open_param ∷ []) >>= (λ w. decode_msg w.1 16))
    ≡ ok (open_hdr, open_param ∷ replicate 5 no_param, byte_size open_hdr)
unfolding byte_size
decode_msg-write_msg_example =
    decode_msg-write_msg (replicate 96 0) 16 open_hdr (open_param ∷ []) refl refl (omega arith)
      open_hdr-Fits ((omega arith, omega arith, omega arith, omega arith), tt) (omega arith)
      (omega arith)

-- The message of no parameters in a pool that it fills.
abbrev bare_hdr : MsgArgHdr
bare_hdr = record open_hdr { num_params = 0 }

bare_pool : (n : ℕ) × (pool' : List ℕ) × (write_msg (replicate 40 0) 8 bare_hdr [] ≡ ok (n, pool'))
unfolding write_msg byte_size encode_at encode_hdr write_params
bare_pool = (32, _, refl)

decode_msg_panics_example : decode_msg (replicate 64 0) (2 ^ 64 - 32) ≡ panic
decode_msg_panics_example =
    (decode_msg_panics (replicate 64 0) (2 ^ 64 - 32) (omega arith) (omega arith) (omega arith)).1
      (refl, omega arith)
