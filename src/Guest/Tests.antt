-- ===== src/Guest/Tests.antt =====
-- An invocation of one value parameter on its way through the pool, and an answer.
use rustee.Prelude.{
  ℕ, zero, suc, ◌≡◌, refl, List, [], ◌∷◌, ◌++◌, map, get_or, replicate, arith, ok, ◌>>=◌,
}
use rustee.Bytes.{IsBytes, read_u32, read_u64}
use rustee.Os.Abi.{Param, empty, value, dir_in, dir_out, KernelCmd}
use rustee.Proto.{
  MsgArgHdr, MsgParam, no_param, write_msg, byte_size, decode_msg, hdr_bytes, param_bytes,
  slice_from, decode_hdr, read_params, decode_param,
}
use rustee.Guest.Rpc.{write_done}
use rustee.Guest.Answers.{SizeFits, kept, decode_msg-write_done}
use rustee.Proto.Messages.{HdrFits}
use rustee.Guest.{decode_cmd, map_err, tee_timeout_infinite}
use rustee.Guest.Commands.{decode_cmd-write_msg}

abbrev invoke_hdr : MsgArgHdr
invoke_hdr = record {
  cmd = 1;
  func = 5;
  session = 7;
  cancel_id = 3;
  pad = 0;
  ret = 0;
  ret_origin = 0;
  num_params = 1;
}

abbrev invoke_param : MsgParam
invoke_param = record { attr = 1; a = 17; b = 34; c = 0 }

invoke_hdr-HdrFits : HdrFits invoke_hdr
invoke_hdr-HdrFits = record {
  cmd_fits = omega arith;
  func_fits = omega arith;
  session_fits = omega arith;
  cancel_id_fits = omega arith;
  pad_fits = omega arith;
  ret_fits = omega arith;
  ret_origin_fits = omega arith;
  num_params_fits = omega arith;
}

decode_cmd-write_msg_example :
    (map_err (λ e. tt) (write_msg (replicate 96 0) 16 invoke_hdr (invoke_param ∷ []))
      >>= (λ w. decode_cmd w.1 16))
    ≡ ok (KernelCmd.invoke 7 5 (value 17 34 dir_in ∷ replicate 3 empty) 3 tee_timeout_infinite)
unfolding byte_size
decode_cmd-write_msg_example =
    decode_cmd-write_msg (replicate 96 0) 16 invoke_hdr (invoke_param ∷ []) refl (refl, tt)
      (omega arith) refl refl (omega arith) invoke_hdr-HdrFits
      ((omega arith, omega arith, omega arith, omega arith), tt) (omega arith)

-- The answer to an invocation with one output value.
abbrev value_hdr : MsgArgHdr
value_hdr = record invoke_hdr { ret = 0 }

abbrev value_param : MsgParam
value_param = record { attr = 2; a = 17; b = 34; c = 0 }

abbrev value_pool : List ℕ
value_pool = hdr_bytes value_hdr ++ param_bytes value_param

value_pool-IsBytes : IsBytes value_pool
value_pool-IsBytes = ground arith

value_read : decode_msg value_pool 0 ≡ ok (value_hdr, value_param ∷ replicate 5 no_param, 64)
unfolding decode_msg slice_from decode_hdr read_params byte_size read_u32 read_u64 decode_param
value_read = refl

abbrev produced : List Param
produced = value 99 98 dir_out ∷ []

produced-SizeFits : (i : ℕ) → SizeFits (get_or produced i empty)
produced-SizeFits zero = tt
produced-SizeFits (suc i) = tt

decode_msg-write_done_example :
    (pool' : List ℕ) × (ps' : List MsgParam) × (write_done value_pool 0 0 4 7 produced ≡ ok pool')
    × (decode_msg pool' 0
        ≡ ok (record value_hdr { ret_origin = 4 }, ps' ++ replicate 5 no_param, 64))
    × (map kept ps' ≡ (2, 17, 0) ∷ [])
decode_msg-write_done_example =
    decode_msg-write_done value_pool 0 value_hdr (value_param ∷ replicate 5 no_param) 64 0 4 7
      produced value_pool-IsBytes (omega arith) (omega arith) value_read (omega arith) (omega arith)
      (omega arith) produced-SizeFits
