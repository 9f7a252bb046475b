-- ===== src/Guest/Rpc.antt =====
-- guest/rustee-guest/src/proto_cmd.rs: the request for a TA's image, its answer, and the answer to a
-- command.
use rustee.Prelude.{
  ℕ, ◌+◌, ◌*◌, ◌%◌, ◌^◌, List, [], ◌∷◌, length, take, get_or, ltb, leb, ◌==◌, ◌||◌, not,
  if◌then◌else◌, Res, ok, err, panic, ensure, ◌>>=◌, ◌>>◌,
}
use rustee.Bytes.{bytes_at, from_be}
use rustee.Os.Abi.{
  Uuid, Param, empty, value, memref, dir_in, dir_out, dir_inout, tee_error_bad_parameters,
  tee_error_item_not_found,
}
use rustee.Proto.{MsgArgHdr, MsgParam, no_param, write_msg, decode_msg}
use rustee.Guest.{is_meta, map_err}

abbrev pub rpc_cookie : ℕ
rpc_cookie = 0x800000

abbrev pub load_ta_cap : ℕ
load_ta_cap = 2 * 1024 * 1024

-- The fields have 32, 16 and 16 bits, so the or is a sum.
unfoldable pub uuid_to_words : Uuid → ℕ × ℕ
uuid_to_words u = (
  from_be 0 (bytes_at u 0 4) * 2 ^ 32
      + (from_be 0 (bytes_at u 4 2) * 2 ^ 16 + from_be 0 (bytes_at u 6 2)),
  from_be 0 (bytes_at u 8 8),
)

abbrev pub load_ta_hdr : MsgArgHdr
load_ta_hdr = record {
  cmd = 0;
  func = 0;
  session = 0;
  cancel_id = 0;
  pad = 0;
  ret = 0;
  ret_origin = 0;
  num_params = 2;
}

abbrev pub load_ta_params : Uuid → List MsgParam
load_ta_params uuid =
    record { attr = 1; a = (uuid_to_words uuid).0; b = (uuid_to_words uuid).1; c = 0 }
    ∷ record { attr = 10; a = rpc_cookie + (32 + 2 * 32); b = load_ta_cap; c = 0 }
    ∷ []

-- The cookie and the length of the window, and the pool with the message.
unfoldable pub pack_load_ta : List ℕ → Uuid → Res (Unit {0}) ((ℕ × ℕ) × List ℕ)
pack_load_ta pool uuid = do
  ensure
      (not (
        not ((rpc_cookie + (32 + 2 * 32)) % 8 == 0) || ltb (rpc_cookie + (32 + 2 * 32)) rpc_cookie))
      tt
  w ← map_err (λ e. tt) (write_msg pool rpc_cookie load_ta_hdr (load_ta_params uuid))
  ok ((rpc_cookie, w.0 % 2 ^ 32), w.1)

-- The bytes of the image that the answer in the pool names.
unfoldable pub take_load_ta : List ℕ → Res ℕ (List ℕ)
take_load_ta pool = do
  m ← map_err (λ e. tee_error_bad_parameters) (decode_msg pool rpc_cookie)
  ensure (m.0.ret == 0) m.0.ret
  ensure (leb 2 m.0.num_params) tee_error_bad_parameters
  let p = get_or m.1 1 no_param
  ensure (ltb (p.a + p.b) (2 ^ 64)) tee_error_bad_parameters
  ensure (not (ltb p.a rpc_cookie || ltb (length pool) (p.a + p.b))) tee_error_item_not_found
  ok (bytes_at pool p.a p.b)

-- A parameter with the size that the TA has produced for a buffer that is not input.
unfoldable pub put_size : Param → MsgParam → MsgParam
put_size (memref src size dir_in) p = p
put_size (memref src size dir_out) p = record p { b = size }
put_size (memref src size dir_inout) p = record p { b = size }
put_size (value a b dir) p = p
put_size empty p = p

-- The loop over the message's parameters, with the number of those that are not meta so far.
unfoldable pub put_sizes : List Param → ℕ → List MsgParam → List MsgParam
unfolding put_size
put_sizes produced ui [] = []
put_sizes produced ui (p ∷ ps) =
    if is_meta p
    then p ∷ put_sizes produced ui ps
    else if ltb ui 4
    then put_size (get_or produced ui empty) p ∷ put_sizes produced (ui + 1) ps
    else p ∷ put_sizes produced ui ps

abbrev pub done_hdr : MsgArgHdr → ℕ → ℕ → ℕ → MsgArgHdr
done_hdr hdr ret origin session = record hdr { ret = ret; ret_origin = origin; session = session }

-- The pool after the answer; it stays as it is when the message cannot be decoded or written.
unfoldable pub write_done : List ℕ → ℕ → ℕ → ℕ → ℕ → List Param → Res ℕ (List ℕ)
unfolding put_sizes
write_done pool c ret origin session produced = elim (decode_msg pool c) [
  | ok (hdr, params, n) ↦
      elim (write_msg pool c (done_hdr hdr ret origin session)
        (put_sizes produced 0 (take hdr.num_params params))) [
          | ok (m, pool') ↦ ok pool'
          | err e ↦ ok pool
          | panic ↦ panic
        ]
  | err e ↦ ok pool
  | panic ↦ panic
]
