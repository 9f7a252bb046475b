-- ===== src/Client/Context.antt =====
-- crates/gp-client/src/lib.rs: the client's UUIDs and its context, a bounce buffer whose parts are given
-- out one behind the other, over any transport.
use rustee.Prelude.{
  ℕ, ◌+◌, ◌-◌, ◌*◌, ◌/◌, ◌%◌, ◌^◌, ◌<◌, List, [], ◌∷◌, ◌++◌, Bool, length, take, drop, get_or,
  replicate, ltb, leb, ◌==◌, min, max, bytes_eq, if◌then◌else◌, Res, ok, err, panic, ensure, ok_or,
  ◌>>=◌, ◌>>◌, Step, ◌>>>◌, pure_step,
}
use rustee.Bytes.{bytes_at, write_at, from_be}
use rustee.Proto.{
  CallFrame, yielding_enter, PduHeader, yielding, MsgArgHdr, MsgParam, no_param, write_msg,
  decode_msg, answer_fast_smccc,
}
use rustee.Client.Codes.{
  teec_success, teec_error_bad_parameters, teec_error_communication, teec_error_out_of_memory,
}
use rustee.Client.Wire.{kind_enter, comm_err}
use rustee.Client.Loopback.{Transport}
pub mod Uuids
pub mod Pool
pub mod Requests
pub mod Sends

pub record Uuid : Type 0 where
  pub time_low : ℕ
  pub time_mid : ℕ
  pub time_hi_and_version : ℕ
  pub clock_seq_and_node : List ℕ

-- The loop of `words`, at byte `i`; the bytes share no bit, so the or is a sum.
unfoldable pub low_word : ℕ → List ℕ → ℕ
low_word i [] = 0
low_word i (b ∷ bs) = b * 2 ^ (56 - i * 8) + low_word (i + 1) bs

-- The fields have 32, 16 and 16 bits, so here, too, the or is a sum.
unfoldable pub words : Uuid → ℕ × ℕ
unfolding low_word
words u = (
  u.time_low * 2 ^ 32 + (u.time_mid * 2 ^ 16 + u.time_hi_and_version),
  low_word 0 u.clock_seq_and_node,
)

unfoldable pub uuid_from_bytes : List ℕ → Uuid
uuid_from_bytes b = record {
  time_low = from_be 0 (bytes_at b 0 4);
  time_mid = from_be 0 (bytes_at b 4 2);
  time_hi_and_version = from_be 0 (bytes_at b 6 2);
  clock_seq_and_node = bytes_at b 8 8;
}

abbrev pub page_size : ℕ
page_size = 4096

abbrev pub sharedmem_max_size : ℕ
sharedmem_max_size = 0x80000

abbrev pub bounce_pool_size : ℕ
bounce_pool_size = 16 * 1024 * 1024

pub record Context (T : Type 0) : Type 0 where
  pub transport : T
  pub bounce : List ℕ
  pub seq : ℕ
  pub bump : ℕ

unfoldable pub new : {T : Type 0} → T → Context T
new transport = record {
  transport = transport;
  bounce = replicate bounce_pool_size 0;
  seq = 1;
  bump = page_size;
}

abbrev pub Ctx : (T A : Type 0) → Type 0
Ctx T A = Step (Context T) ℕ A

-- `MsgArgHdr::default()`
abbrev pub no_hdr : MsgArgHdr
no_hdr = record {
  cmd = 0;
  func = 0;
  session = 0;
  cancel_id = 0;
  pad = 0;
  ret = 0;
  ret_origin = 0;
  num_params = 0;
}

unfoldable pub initialize : Res ℕ (Unit {0})
initialize = do
  uid ← ok_or (answer_fast_smccc 0xBF00FF01) teec_error_communication
  ensure (bytes_eq uid (0x384fb3e0 ∷ 0xe7f811e3 ∷ 0xaf630002 ∷ 0xa5d5c51b ∷ []))
      teec_error_communication
  caps ← ok_or (answer_fast_smccc 0xB2000009) teec_error_communication
  ensure (get_or caps 1 0 == 22) teec_error_communication
  ok tt

module _ {T : Type 0} where
  -- The next multiple of the alignment; the product wraps as in a release build.
  unfoldable pub alloc : ℕ → ℕ → Ctx T ℕ
  alloc len align ctx =
      let a = (ctx.bump + align - 1) / align * align % 2 ^ 64 in
      if ltb (a + len) (2 ^ 64)
      then (if leb (a + len) (length ctx.bounce)
          then (ok a, record ctx { bump = a + len })
          else (err teec_error_out_of_memory, ctx))
      else (err teec_error_out_of_memory, ctx)

  abbrev pub put_written : {E : Type 0} → Res E (ℕ × List ℕ) → Ctx T ℕ
  put_written (ok (n, bounce)) ctx = (ok n, record ctx { bounce = bounce })
  put_written (err e) ctx = (err teec_error_bad_parameters, ctx)
  put_written panic ctx = (panic, ctx)

  -- The message of a call: its size.
  unfoldable pub put_msg : ℕ → MsgArgHdr → List MsgParam → Ctx T ℕ
  put_msg c hdr params ctx = put_written (write_msg ctx.bounce c hdr params) ctx

  unfoldable pub get_msg : ℕ → Ctx T (MsgArgHdr × List MsgParam × ℕ)
  get_msg c ctx = (comm_err (decode_msg ctx.bounce c), ctx)

  -- `bounce[off..off + src.len()].copy_from_slice(src)`
  unfoldable pub put_bytes : ℕ → List ℕ → Ctx T (Unit {0})
  put_bytes off src ctx =
      if leb (off + length src) (length ctx.bounce)
      then (ok tt, record ctx { bounce = write_at ctx.bounce off src })
      else (panic, ctx)

  -- `&bounce[off..off + n]`
  unfoldable pub get_bytes : ℕ → ℕ → Ctx T (List ℕ)
  get_bytes off n ctx =
      (if leb (off + n) (length ctx.bounce) then ok (bytes_at ctx.bounce off n) else panic, ctx)

module _ {T : Type 0} (k : Transport T) where
  -- `transport.enter(CallFrame::yielding_enter(cookie), &mut bounce, len)`
  unfoldable pub call : ℕ → ℕ → Ctx T CallFrame
  call c bounce_len ctx =
      let (answer, bounce, transport) =
        k.enter ctx.transport (yielding_enter c) ctx.bounce (bounce_len % 2 ^ 32) in
      (answer, record ctx { bounce = bounce; transport = transport })

  unfoldable pub open_session : Uuid → ℕ → Ctx T ℕ
  unfolding words alloc put_msg call get_msg
  open_session dest login = alloc 64 8 >>> λ cookie.
      put_msg cookie (record no_hdr { cmd = 0; num_params = 2 })
        (record { attr = 0x101; a = (words dest).0; b = (words dest).1; c = 0 }
          ∷ record { attr = 0x101; a = 0; b = 0; c = login }
          ∷ [])
      >>> λ n. call cookie n >>> λ _. get_msg cookie >>> λ out.
          pure_step (if out.0.ret == teec_success then ok out.0.session else err out.0.ret)

  unfoldable pub invoke : ℕ → ℕ → Ctx T (Unit {0})
  unfolding alloc put_msg call
  invoke session cmd = alloc 32 8 >>> λ cookie.
      put_msg cookie (record no_hdr { cmd = 1; func = cmd; session = session }) [] >>> λ n.
      call cookie n >>> λ _. pure_step (ok tt)

  -- The message of `invoke_shm` and its two buffers.
  unfoldable pub shm_alloc : ℕ → ℕ → Ctx T (ℕ × ℕ × ℕ)
  unfolding alloc
  shm_alloc src_len dst_len = alloc 96 8 >>> λ cookie. alloc (max src_len 1) 8 >>> λ in_off.
      alloc (max dst_len 1) 8 >>> λ out_off. pure_step (ok (cookie, in_off, out_off))

  unfoldable pub shm_send : ℕ → ℕ → List ℕ → ℕ → ℕ × ℕ × ℕ → Ctx T CallFrame
  unfolding put_bytes put_msg call
  shm_send session cmd src dst_len (cookie, in_off, out_off) = put_bytes in_off src >>> λ _.
      put_msg cookie (record no_hdr { cmd = 1; func = cmd; session = session; num_params = 2 })
        (record { attr = 9; a = in_off; b = length src; c = in_off }
          ∷ record { attr = 10; a = out_off; b = dst_len; c = out_off }
          ∷ [])
      >>> λ n. call cookie (max (out_off + dst_len) (cookie + n) - cookie)

  -- The number of bytes copied into `dst`, and `dst` after the call.
  unfoldable pub shm_receive : ℕ → ℕ → List ℕ → Ctx T (ℕ × List ℕ)
  unfolding get_msg get_bytes
  shm_receive cookie out_off dst = get_msg cookie >>> λ out.
      pure_step (ensure (out.0.ret == teec_success) out.0.ret) >>> λ _.
      get_bytes out_off (min (get_or out.1 1 no_param).b (length dst)) >>> λ got.
      pure_step (ok (min (get_or out.1 1 no_param).b (length dst), write_at dst 0 got))

  unfoldable pub invoke_shm : ℕ → ℕ → List ℕ → List ℕ → Ctx T (ℕ × List ℕ)
  unfolding shm_alloc shm_send shm_receive
  invoke_shm session cmd src dst =
      pure_step (
        ensure (leb (length src) sharedmem_max_size) teec_error_bad_parameters
        >> ensure (leb (length dst) sharedmem_max_size) teec_error_bad_parameters)
      >>> λ _. shm_alloc (length src) (length dst) >>> λ offs.
          shm_send session cmd src (length dst) offs >>> λ _. shm_receive offs.0 offs.2 dst

  unfoldable pub close_session : ℕ → Ctx T (Unit {0})
  unfolding alloc put_msg call
  close_session session = alloc 32 8 >>> λ cookie.
      put_msg cookie (record no_hdr { cmd = 2; session = session }) [] >>> λ n.
      call cookie n >>> λ _. pure_step (ok tt)

  unfoldable pub register_shm : ℕ → Ctx T ℕ
  unfolding alloc put_msg call
  register_shm size =
      pure_step (ensure (leb size sharedmem_max_size) teec_error_bad_parameters) >>> λ _.
      alloc (max size page_size) page_size >>> λ cookie.
      put_msg 32 (record no_hdr { cmd = 4; num_params = 1 })
        (record { attr = 9; a = cookie; b = size; c = cookie } ∷ [])
      >>> λ _. call 32 32 >>> λ _. pure_step (ok cookie)

  unfoldable pub unregister_shm : ℕ → Ctx T (Unit {0})
  unfolding put_msg call
  unregister_shm cookie =
      put_msg 32 (record no_hdr { cmd = 5; num_params = 1 })
        (record { attr = 5; a = 0; b = 0; c = cookie } ∷ [])
      >>> λ _. call 32 32 >>> λ _. pure_step (ok tt)

unfoldable pub param_attr : ℕ → ℕ
param_attr t =
    if t == 0
    then 0
    else if t == 1
    then 1
    else if t == 2
    then 2
    else if t == 3
    then 3
    else if t == 5
    then 9
    else if t == 6
    then 10
    else if t == 7
    then 11
    else 0

unfoldable pub pdu_enter : ℕ → ℕ → PduHeader
pdu_enter seq bounce_len = yielding kind_enter seq bounce_len
