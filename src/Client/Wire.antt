-- ===== src/Client/Wire.antt =====
-- crates/gp-client/src/wire.rs: calls over a byte stream. The socket and what the RPC hook reaches
-- outside the transport are one state `S`; `read_exact` and `write_all` of the standard library are
-- the fields of `Socket`.
use rustee.Prelude.{
  ℕ, zero, suc, ◌+◌, ◌%◌, ◌^◌, ◌≡◌, List, Option, none, some, Bool, true, false, length, take,
  replicate, ltb, leb, ◌==◌, ◌&&◌, if◌then◌else◌, Res, ok, err, panic, ensure, Step, ◌>>>◌,
  pure_step,
}
use rustee.Bytes.{bytes_at, write_at}
use rustee.Proto.{
  CallFrame, cookie, return_from_rpc, encode_frame, decode_frame, PduHeader, yielding, encode_pdu,
  decode_pdu, MsgArgHdr, write_msg, decode_msg, call_frame_len, pdu_hdr_len,
}
use rustee.Client.Codes.{teec_error_busy, teec_error_communication}
pub mod Pdus
pub mod Stamp
pub mod Serving
pub mod Ends
pub mod Stuck

abbrev pub kind_enter : ℕ
kind_enter = 1

abbrev pub kind_rpc : ℕ
kind_rpc = 2

abbrev pub kind_complete : ℕ
kind_complete = 3

abbrev pub kind_rpc_reply : ℕ
kind_rpc_reply = 4

-- A read fills a buffer as long as the one it is given, whose contents are anything when it fails.
pub record Socket (S : Type 0) : Type 0 where
  pub recv : S → List ℕ → Bool × List ℕ × S
  pub send : S → List ℕ → Bool × S
  pub length-recv : (s : S) (buf : List ℕ) → length (recv s buf).1 ≡ length buf

-- The stream and the bounce buffer that a PDU is read into and written from.
pub record Wire (S : Type 0) : Type 0 where
  pub sock : S
  pub bounce : List ℕ

abbrev pub Io : (S A : Type 0) → Type 0
Io S A = Step (Wire S) ℕ A

-- `on_rpc`, with what it changes outside.
abbrev pub Hook : Type 0 → Type 0
Hook S = S → List ℕ → ℕ → Res ℕ ℕ × List ℕ × S

pub record StreamTransport (S : Type 0) : Type 0 where
  pub sock : S
  pub seq : ℕ
  pub yielding : Bool
  pub on_rpc : Option (Hook S)

unfoldable pub new : {S : Type 0} → S → StreamTransport S
new sock = record { sock = sock; seq = 1; yielding = false; on_rpc = none }

abbrev io_result : {A : Type 0} → Bool → A → Res ℕ A
io_result done value = if done then ok value else err teec_error_communication

abbrev pub comm_err : {E A : Type 0} → Res E A → Res ℕ A
comm_err (ok value) = ok value
comm_err (err e) = err teec_error_communication
comm_err panic = panic

abbrev pub get_bounce : {S : Type 0} → Io S (List ℕ)
get_bounce w = (ok w.bounce, w)

-- The window of the pool that a PDU carries: from the cookie on, inside the pool.
unfoldable pub in_bounce : ℕ → ℕ → List ℕ → Bool
in_bounce c n bounce = ltb (c + n) (2 ^ 64) && leb (c + n) (length bounce)

module _ {S : Type 0} (k : Socket S) where
  unfoldable pub write_all : List ℕ → Io S (Unit {0})
  write_all buf w =
      let (done, sock) = k.send w.sock buf in
      (io_result done tt, record { sock = sock; bounce = w.bounce })

  -- Into a buffer of the function's own.
  unfoldable pub read_exact : ℕ → Io S (List ℕ)
  read_exact n w =
      let (done, buf, sock) = k.recv w.sock (replicate n 0) in
      (io_result done buf, record { sock = sock; bounce = w.bounce })

  -- Into `bounce[c..c + n]`.
  unfoldable pub read_bounce : ℕ → ℕ → Io S (Unit {0})
  read_bounce c n w =
      let (done, buf, sock) = k.recv w.sock (bytes_at w.bounce c n) in
      (io_result done tt, record { sock = sock; bounce = write_at w.bounce c buf })

  unfoldable pub write_pdu : ℕ → ℕ → CallFrame → ℕ → Io S (Unit {0})
  unfolding write_all in_bounce
  write_pdu kind seq frame bounce_len =
      write_all (encode_pdu (yielding kind seq bounce_len)) >>> λ _.
      write_all (encode_frame frame) >>> λ _. get_bounce >>> λ bounce.
      pure_step (ensure (in_bounce (cookie frame) bounce_len bounce) teec_error_communication)
      >>> λ _. write_all (bytes_at bounce (cookie frame) bounce_len)

  unfoldable pub read_pdu : Io S (PduHeader × CallFrame)
  unfolding read_exact read_bounce in_bounce
  read_pdu = read_exact pdu_hdr_len >>> λ hb. pure_step (comm_err (decode_pdu hb)) >>> λ hdr.
      read_exact call_frame_len >>> λ fb. pure_step (comm_err (decode_frame fb)) >>> λ frame.
      get_bounce >>> λ bounce.
      pure_step (ensure (in_bounce (cookie frame) hdr.bounce_len bounce) teec_error_communication)
      >>> λ _.
          (if ltb 0 hdr.bounce_len
            then read_bounce (cookie frame) hdr.bounce_len
            else pure_step (ok tt))
          >>> λ _. pure_step (ok (hdr, frame))

-- `ret` is never success; when the message cannot be decoded or written, the pool stays as it is.
unfoldable pub stamp_rpc_ret : List ℕ → ℕ → ℕ → Res ℕ (List ℕ)
stamp_rpc_ret bounce c ret =
    let code = if ret == 0 then teec_error_communication else ret in
    elim (decode_msg bounce c) [
      | ok (hdr, params, size) ↦
          elim (write_msg bounce c (record hdr { ret = code }) (take hdr.num_params params)) [
            | ok (n, bounce') ↦ ok bounce'
            | err e ↦ ok bounce
            | panic ↦ panic
          ]
      | err e ↦ ok bounce
      | panic ↦ panic
    ]

module _ {S : Type 0} where
  abbrev pub put_wire : S → Res ℕ (List ℕ) → List ℕ → ℕ → Res ℕ ℕ × Wire S
  put_wire sock (ok bounce) old n = (ok n, record { sock = sock; bounce = bounce })
  put_wire sock (err code) old n = (err code, record { sock = sock; bounce = old })
  put_wire sock panic old n = (panic, record { sock = sock; bounce = old })

  -- What becomes of the hook's answer: the length of the window to send back.
  unfoldable pub after_hook : ℕ → ℕ → Res ℕ ℕ × List ℕ × S → Res ℕ ℕ × Wire S
  unfolding stamp_rpc_ret
  after_hook bounce_len c (ok n, bounce, sock) =
      (ok (if ltb 0 n then n else bounce_len), record { sock = sock; bounce = bounce })
  after_hook bounce_len c (err code, bounce, sock) =
      put_wire sock (stamp_rpc_ret bounce c code) bounce bounce_len
  after_hook bounce_len c (panic, bounce, sock) = (panic, record { sock = sock; bounce = bounce })

  unfoldable pub run_hook : Option (Hook S) → ℕ → ℕ → Io S ℕ
  unfolding after_hook
  run_hook none bounce_len c w = (ok bounce_len, w)
  run_hook (some hook) bounce_len c w = after_hook bounce_len c (hook w.sock w.bounce c)

module _ {S : Type 0} (k : Socket S) (hook : Option (Hook S)) where
  -- The branch of the loop for `KIND_RPC`.
  unfoldable pub answer_rpc : PduHeader → CallFrame → Io S (Unit {0})
  unfolding run_hook write_pdu
  answer_rpc hdr out = run_hook hook hdr.bounce_len (cookie out) >>> λ reply_len.
      write_pdu k kind_rpc_reply hdr.seq (return_from_rpc (cookie out)) reply_len

  abbrev Ended : Type 0
  Ended = Option (Res ℕ CallFrame × Bool × Wire S)

  abbrev pub after_answer : (Wire S → Ended) → Res ℕ (Unit {0}) × Wire S → Ended
  after_answer again (ok done, w) = again w
  after_answer again (err code, w) = some (err code, true, w)
  after_answer again (panic, w) = some (panic, true, w)

  -- The match on the PDU that came in; the second component is the flag `yielding`.
  unfoldable pub after_read : (Wire S → Ended) → Res ℕ (PduHeader × CallFrame) × Wire S → Ended
  unfolding answer_rpc
  after_read again (ok (hdr, out), w) =
      if hdr.kind == kind_complete
      then some (ok out, false, w)
      else if hdr.kind == kind_rpc
      then after_answer again (answer_rpc hdr out w)
      else some (err teec_error_communication, false, w)
  after_read again (err code, w) = some (err code, true, w)
  after_read again (panic, w) = some (panic, true, w)

  -- None when the rounds do not suffice.
  unfoldable pub enter_loop : ℕ → Wire S → Ended
  unfolding read_pdu after_read
  enter_loop zero w = none
  enter_loop (suc rounds) w = after_read (enter_loop rounds) (read_pdu k w)

module _ {S : Type 0} (k : Socket S) where
  -- What the caller sees of a call that has ended: the counter has moved on.
  abbrev pub leave :
      StreamTransport S
      → Res ℕ CallFrame × Bool × Wire S
      → Res ℕ CallFrame × List ℕ × StreamTransport S
  leave t (r, yields, w) = (
    r,
    w.bounce,
    record { sock = w.sock; seq = (t.seq + 1) % 2 ^ 32; yielding = yields; on_rpc = t.on_rpc },
  )

  abbrev pub leave_loop :
      StreamTransport S
      → Option (Res ℕ CallFrame × Bool × Wire S)
      → Option (Res ℕ CallFrame × List ℕ × StreamTransport S)
  leave_loop t none = none
  leave_loop t (some outcome) = some (leave t outcome)

  abbrev pub after_write :
      ℕ
      → StreamTransport S
      → Res ℕ (Unit {0}) × Wire S
      → Option (Res ℕ CallFrame × List ℕ × StreamTransport S)
  after_write rounds t (ok done, w) = leave_loop t (enter_loop k t.on_rpc rounds w)
  after_write rounds t (err code, w) = some (leave t (err code, true, w))
  after_write rounds t (panic, w) = some (leave t (panic, true, w))

  -- A call: its answer, the bounce buffer and the transport after it.
  unfoldable pub enter :
      ℕ
      → StreamTransport S
      → CallFrame
      → List ℕ
      → ℕ
      → Option (Res ℕ CallFrame × List ℕ × StreamTransport S)
  unfolding write_pdu enter_loop
  enter rounds t frame bounce bounce_len =
      if t.yielding
      then some (err teec_error_busy, bounce, t)
      else after_write rounds t (
          write_pdu k kind_enter t.seq frame bounce_len (record { sock = t.sock; bounce = bounce }))
