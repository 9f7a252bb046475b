-- ===== src/Client/Loopback.antt =====
-- crates/gp-client/src/lib.rs: the interface `Transport`, and `Loopback`, which answers every message
-- itself.
use rustee.Prelude.{
  ℕ, ◌+◌, ◌%◌, ◌^◌, List, Bool, length, take, get_or, set, ltb, leb, ◌==◌, ◌&&◌, not, min,
  if◌then◌else◌, Res, ok, err, panic,
}
use rustee.Bytes.{bytes_at, write_at}
use rustee.Proto.{
  CallFrame, cookie, MsgArgHdr, MsgParam, no_param, write_msg, decode_msg, smc_call_with_arg,
}
use rustee.Client.Codes.{teec_success, teec_error_communication, teec_origin_tee}
use rustee.Client.Wire.{kind_enter}

-- A call with a frame, the bounce buffer and the length of the window: the answer and the buffer.
pub record Transport (T : Type 0) : Type 0 where
  pub enter : T → CallFrame → List ℕ → ℕ → Res ℕ CallFrame × List ℕ × T

pub record Loopback : Type 0 where
  pub last_kind : ℕ
  pub last_cookie : ℕ

unfoldable pub answered_hdr : MsgArgHdr → MsgArgHdr
answered_hdr hdr = record hdr {
  ret = teec_success;
  ret_origin = teec_origin_tee;
  session = if hdr.cmd == 0 then 1 else hdr.session;
}

-- An invocation whose first parameter is an input buffer and whose second is an output buffer.
unfoldable pub is_copy : MsgArgHdr → List MsgParam → Bool
is_copy hdr ps =
    hdr.cmd == 1
    && (leb 2 hdr.num_params
        && ((get_or ps 0 no_param).attr % 256 == 9 && (get_or ps 1 no_param).attr % 256 == 10))

-- The first buffer goes into the second as far as it holds it, when both lie in the pool.
unfoldable pub copy_through : MsgArgHdr → List MsgParam → List ℕ → List MsgParam × List ℕ
unfolding is_copy
copy_through hdr ps bounce =
    let p0 = get_or ps 0 no_param in
    let p1 = get_or ps 1 no_param in
    let copy = min p0.b p1.b in
    if is_copy hdr ps
      && ((ltb (p0.a + copy) (2 ^ 64) && leb (p0.a + copy) (length bounce))
          && (ltb (p1.a + copy) (2 ^ 64) && leb (p1.a + copy) (length bounce)))
    then (set ps 1 (record p1 { b = copy }), write_at bounce p1.a (bytes_at bounce p0.a copy))
    else (ps, bounce)

abbrev written : {A : Type 0} → Res A (ℕ × List ℕ) → CallFrame → List ℕ → Res ℕ CallFrame × List ℕ
written (ok (n, bounce')) frame bounce = (ok frame, bounce')
written (err e) frame bounce = (err teec_error_communication, bounce)
written panic frame bounce = (panic, bounce)

abbrev answer_msg :
    {A : Type 0}
    → Res A (MsgArgHdr × List MsgParam × ℕ)
    → CallFrame
    → List ℕ
    → Res ℕ CallFrame × List ℕ
answer_msg (ok (hdr, params, n)) frame bounce =
    let copied = copy_through hdr (take hdr.num_params params) bounce in
    written (write_msg copied.1 (cookie frame) (answered_hdr hdr) copied.0) frame copied.1
answer_msg (err e) frame bounce = (err teec_error_communication, bounce)
answer_msg panic frame bounce = (panic, bounce)

unfoldable pub loopback_answer : CallFrame → List ℕ → Res ℕ CallFrame × List ℕ
unfolding answered_hdr copy_through
loopback_answer frame bounce =
    if not (get_or frame.r 0 0 % 2 ^ 32 == smc_call_with_arg)
    then (err teec_error_communication, bounce)
    else answer_msg (decode_msg bounce (cookie frame)) frame bounce

abbrev pub loopback : Transport Loopback
unfolding loopback_answer
loopback = record {
  enter = λ t frame bounce bounce_len.
      let answer = loopback_answer frame bounce in
      (answer.0, answer.1, record { last_kind = kind_enter; last_cookie = cookie frame });
}
