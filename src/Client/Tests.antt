-- ===== src/Client/Tests.antt =====
-- The theorems on the client at concrete transports, over a pipe with what is sent and what is to come.
use rustee.Prelude.{
  ℕ, zero, suc, ◌+◌, ◌*◌, ◌≤◌, ◌<◌, ◌≡◌, refl, List, [], ◌∷◌, ◌++◌, some, Bool, true, false, length,
  take, drop, replicate, leb, arith, if◌then◌else◌, Res, ok, err, Bool-cases, inl, inr, le→leb,
  lt→leb, leb→le, length-take,
}
use rustee.Bytes.{IsBytes, bytes_at, write_at, read_u32}
use rustee.Proto.{
  CallFrame, cookie, encode_frame, encode_pdu, encode_words, is_kind, yielding, smc_call_with_arg,
  MsgArgHdr, no_param, decode_msg, decode_hdr, slice_from, read_params, byte_size,
}
use rustee.Os.Abi.{KernelCmd, public, no_params}
use rustee.Guest.{uuid_from_words, decode_cmd, tee_timeout_infinite}
use rustee.Client.Codes.{teec_error_busy, teec_error_communication}
use rustee.Client.Wire.{
  Socket, StreamTransport, new, in_bounce, write_all, write_pdu, read_pdu, stamp_rpc_ret, enter,
  kind_enter,
}
use rustee.Client.Wire.Pdus.{Stream, FrameFits, pdu_bytes, read_pdu-write_pdu}
use rustee.Client.Wire.Stamp.{decode_msg-stamp_rpc_ret}
use rustee.Client.Wire.Serving.{Pdu, PduFits, script, enter-completes}
use rustee.Client.Wire.Ends.{enter-returns}
use rustee.Client.Wire.Stuck.{enter-silent, enter-outside}
use rustee.Client.Loopback.{Transport}
use rustee.Client.Context.{Context, Uuid, uuid_from_bytes, words, low_word}
use rustee.Client.Context.Uuids.{uuid_from_words-words}
use rustee.Client.Context.Requests.{
  KeepsLength, Request, invokes, closes, serve_all, serve_all-bounded,
}
use rustee.Client.Context.Sends.{open_session-sends}

record Pipe : Type 0 where
  incoming : List ℕ
  outgoing : List ℕ

abbrev recv : Pipe → List ℕ → Bool × List ℕ × Pipe
recv p buf =
    if leb (length buf) (length p.incoming)
    then (true, take (length buf) p.incoming, record p { incoming = drop (length buf) p.incoming })
    else (false, buf, p)

length-recv : (p : Pipe) (buf : List ℕ) → length (recv p buf).1 ≡ length buf
length-recv p buf = elim (Bool-cases (leb (length buf) (length p.incoming))) [
  | inl g ↦ rw g (omega (arith, length-take (length buf) p.incoming, leb→le _ _ g))
  | inr g ↦ rw g refl
]

abbrev pipe : Socket Pipe
pipe = record {
  recv = recv;
  send = λ p buf. (true, record p { outgoing = p.outgoing ++ buf });
  length-recv = length-recv;
}

recv-ready :
    (p : Pipe) (buf : List ℕ)
    → length buf ≤ length p.incoming
    → let r = recv p buf in
      (r.0 ≡ true)
      × (r.1 ≡ take (length buf) p.incoming)
      × (r.2.incoming ≡ drop (length buf) p.incoming)
      × (r.2.outgoing ≡ p.outgoing)
recv-ready p buf h = rw (le→leb _ _ h) (refl, refl, refl, refl)

recv-dry : (p : Pipe) (buf : List ℕ) → length p.incoming < length buf → (recv p buf).0 ≡ false
recv-dry p buf h = rw (lt→leb _ _ h) refl

abbrev stream : Stream pipe
stream = record {
  sent = λ p. p.outgoing;
  to_come = λ p. p.incoming;
  recv_ready = recv-ready;
  recv_dry = recv-dry;
  send_appends = λ p buf. (refl, refl, refl);
}

-- A frame with the cookie 8, a buffer of sixteen bytes and one of sixteen others.
abbrev a_frame : CallFrame
a_frame = record { r = smc_call_with_arg ∷ 0 ∷ 8 ∷ 0 ∷ 0 ∷ 0 ∷ 0 ∷ 0 ∷ [] }

a_frame-FrameFits : FrameFits a_frame
a_frame-FrameFits = (
  refl,
  (
    omega arith,
    (
      omega arith,
      (omega arith, (omega arith, (omega arith, (omega arith, (omega arith, (omega arith, tt)))))),
    ),
  ),
)

abbrev sevens : List ℕ
sevens = replicate 16 7

abbrev zeros : List ℕ
zeros = replicate 16 0

abbrev a_pipe : List ℕ → Pipe
a_pipe incoming = record { incoming = incoming; outgoing = [] }

abbrev some_bytes : List ℕ
some_bytes = pdu_bytes kind_enter 1 a_frame (bytes_at sevens 8 4)

read_pdu-write_pdu_example :
    (s' : Pipe) × (read_pdu pipe (record { sock = a_pipe some_bytes; bounce = zeros }) ≡ (
      ok (yielding kind_enter 1 4, a_frame),
      record { sock = s'; bounce = write_at zeros 8 (7 ∷ 7 ∷ 7 ∷ 7 ∷ []) },
    ))
    × (s'.incoming ≡ [])
unfolding write_pdu in_bounce cookie is_kind encode_pdu encode_frame encode_words yielding write_all
read_pdu-write_pdu_example =
    let run =
      read_pdu-write_pdu pipe stream (record { sock = a_pipe []; bounce = sevens })
        (record { sock = a_pipe some_bytes; bounce = zeros }) kind_enter 1 4 a_frame some_bytes []
        refl (omega arith) (omega arith) a_frame-FrameFits refl refl refl refl in
    (run.1, run.2, run.3)

abbrev a_transport : List ℕ → StreamTransport Pipe
unfolding new
a_transport incoming = new (a_pipe incoming)

abbrev rpc_pdu : Pdu
rpc_pdu = record { seq = 9; frame = a_frame; body = 1 ∷ 2 ∷ [] }

abbrev last_pdu : Pdu
last_pdu = record { seq = 1; frame = a_frame; body = [] }

rpc_pdu-PduFits : PduFits 16 rpc_pdu
unfolding cookie
rpc_pdu-PduFits = record {
  seq_fits = omega arith;
  body_fits = omega arith;
  frame_fits = a_frame-FrameFits;
  inside = omega arith;
}

last_pdu-PduFits : PduFits 16 last_pdu
unfolding cookie
last_pdu-PduFits = record {
  seq_fits = omega arith;
  body_fits = omega arith;
  frame_fits = a_frame-FrameFits;
  inside = omega arith;
}

abbrev busy_peer : StreamTransport Pipe
busy_peer = a_transport (script (rpc_pdu ∷ []) last_pdu ++ [])

enter-completes_example :
    (o : List ℕ × StreamTransport Pipe) × (enter pipe 2 busy_peer a_frame sevens 4
      ≡ some (ok a_frame, o.0, o.1))
    × (o.1.yielding ≡ false)
unfolding new in_bounce cookie
enter-completes_example =
    let run =
      enter-completes pipe stream 2 busy_peer a_frame sevens 4 (rpc_pdu ∷ []) last_pdu [] refl tt
        (omega arith) refl (rpc_pdu-PduFits, tt) last_pdu-PduFits (omega arith) refl in
    ((run.0, run.1), run.3, run.4)

enter-returns_example :
    (o : Res ℕ CallFrame × List ℕ × StreamTransport Pipe) × (enter pipe 4
        (a_transport (1 ∷ 2 ∷ 3 ∷ []))
        a_frame
        sevens
        4
      ≡ some o)
unfolding new
enter-returns_example =
    enter-returns pipe stream 4 (a_transport (1 ∷ 2 ∷ 3 ∷ [])) a_frame sevens 4 tt (omega arith)

enter-silent_example :
    (t' : StreamTransport Pipe) × (enter pipe 1 (a_transport []) a_frame sevens 4
      ≡ some (err teec_error_communication, sevens, t'))
    × ((rounds' : ℕ) (frame' : CallFrame) (bounce' : List ℕ) (n' : ℕ)
        → enter pipe rounds' t' frame' bounce' n' ≡ some (err teec_error_busy, bounce', t'))
unfolding new in_bounce cookie
enter-silent_example =
    enter-silent pipe stream 0 (a_transport []) a_frame sevens 4 refl refl (omega arith)

enter-outside_example :
    (t' : StreamTransport Pipe) × (enter pipe 1 (a_transport []) a_frame sevens 9
      ≡ some (err teec_error_communication, sevens, t'))
    × (t'.sock.outgoing ≡ encode_pdu (yielding kind_enter 1 9) ++ encode_frame a_frame)
    × ((rounds' : ℕ) (frame' : CallFrame) (bounce' : List ℕ) (n' : ℕ)
        → enter pipe rounds' t' frame' bounce' n' ≡ some (err teec_error_busy, bounce', t'))
unfolding new in_bounce cookie
enter-outside_example = enter-outside pipe stream 1 (a_transport []) a_frame sevens 9 refl refl

-- A message without parameters.
abbrev bare_hdr : MsgArgHdr
bare_hdr = record {
  cmd = 0;
  func = 0;
  session = 0;
  cancel_id = 0;
  pad = 0;
  ret = 0;
  ret_origin = 0;
  num_params = 0;
}

zero-IsBytes : IsBytes (replicate 40 0)
zero-IsBytes = go 40
  where
    go : (n : ℕ) → IsBytes (replicate n 0)
    go zero = tt
    go (suc n) = (omega arith, go n)

abbrev bare_pool : List ℕ
bare_pool = replicate 40 0

bare_read : decode_msg bare_pool 8 ≡ ok (bare_hdr, replicate 6 no_param, 32)
unfolding decode_msg slice_from decode_hdr read_params byte_size read_u32
bare_read = refl

decode_msg-stamp_rpc_ret_example :
    (pool' : List ℕ) × (stamp_rpc_ret bare_pool 8 0 ≡ ok pool')
    × (decode_msg pool' 8
        ≡ ok (record bare_hdr { ret = teec_error_communication }, replicate 6 no_param, 32))
decode_msg-stamp_rpc_ret_example =
    let run =
      decode_msg-stamp_rpc_ret bare_pool 8 0 bare_hdr (replicate 6 no_param) 32 (omega arith)
        (omega arith) bare_read zero-IsBytes (omega arith) in
    (run.0, run.1, run.3)

-- A transport that gives the buffer back as it is.
abbrev echo : Transport (Unit {0})
echo = record { enter = λ t frame bounce n. (ok frame, bounce, t) }

echo-KeepsLength : KeepsLength echo
echo-KeepsLength t frame bounce n h = refl

abbrev a_context : Context (Unit {0})
a_context = record { transport = tt; bounce = replicate 200 0; seq = 1; bump = 0 }

abbrev requests : List Request
requests = invokes 1 2 ∷ closes 1 ∷ []

serve_all-bounded_example : 0 + 32 * (serve_all echo requests a_context).0 ≤ 200
serve_all-bounded_example =
    serve_all-bounded echo echo-KeepsLength requests a_context (omega arith, omega arith)

abbrev hello : Uuid
unfolding uuid_from_bytes
hello = uuid_from_bytes (
    0x8d ∷ 0x82 ∷ 0x5f ∷ 0x6a ∷ 0x1c ∷ 0x4b ∷ 0x4c ∷ 0x9f ∷ 0x9e ∷ 0x3a ∷ 0x2b ∷ 0x7c ∷ 0x6d ∷ 0x5e
    ∷ 0x4f ∷ 0x30 ∷ [])

open_session-sends_example :
    (pool : List ℕ) × (decode_cmd pool 0
      ≡ ok (
          KernelCmd.open_session
            (uuid_from_words 0x8d825f6a1c4b4c9f 0x9e3a2b7c6d5e4f30)
            public
            no_params
            0
            tee_timeout_infinite))
unfolding uuid_from_bytes words low_word
open_session-sends_example =
    let run =
      open_session-sends echo a_context (omega arith, omega arith) hello 4 (omega arith)
        (omega arith) (omega arith) (omega arith) in
    (run.1, run.2)

uuid_from_words-words_example :
    uuid_from_words (words hello).0 (words hello).1
    ≡ 0x8d ∷ 0x82 ∷ 0x5f ∷ 0x6a ∷ 0x1c ∷ 0x4b ∷ 0x4c ∷ 0x9f ∷ 0x9e ∷ 0x3a ∷ 0x2b ∷ 0x7c ∷ 0x6d
      ∷ 0x5e ∷ 0x4f ∷ 0x30 ∷ []
unfolding uuid_from_bytes
uuid_from_words-words_example =
    uuid_from_words-words 0x8d 0x82 0x5f 0x6a 0x1c 0x4b 0x4c 0x9f 0x9e 0x3a 0x2b 0x7c 0x6d 0x5e 0x4f
      0x30
      (
        omega arith,
        (
          omega arith,
          (
            omega arith,
            (
              omega arith,
              (
                omega arith,
                (
                  omega arith,
                  (
                    omega arith,
                    (
                      omega arith,
                      (
                        omega arith,
                        (
                          omega arith,
                          (
                            omega arith,
                            (
                              omega arith,
                              (omega arith, (omega arith, (omega arith, (omega arith, tt)))),
                            ),
                          ),
                        ),
                      ),
                    ),
                  ),
                ),
              ),
            ),
          ),
        ),
      )
