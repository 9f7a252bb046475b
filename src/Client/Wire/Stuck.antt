-- ===== src/Client/Wire/Stuck.antt =====
-- What a call leaves behind that fails on the stream: a transport that is busy for ever.
use rustee.Prelude.{
  ℕ, suc, ◌<◌, ◌≡◌, refl, ap, ◌∙◌, List, ◌++◌, append_assoc, length, some, Bool, true, false, arith,
  replicate, Res, err,
}
use rustee.Proto.{CallFrame, cookie, yielding, encode_pdu, encode_frame}
use rustee.Client.Codes.{teec_error_busy, teec_error_communication}
use rustee.Client.Wire.{
  Socket, Wire, StreamTransport, in_bounce, enter_loop, enter, write_pdu, read_pdu, read_exact,
  kind_enter, leave, after_read,
}
use rustee.Client.Wire.Pdus.{Stream, write_pdu-sends, write_all-ready}
use rustee.Client.Wire.Serving.{enter-busy, enter-idle, enter-written}

module _ {S : Type 0} (k : Socket S) (st : Stream k) where
  read_pdu-dry :
      (w : Wire S)
      → length (st.to_come w.sock) < 16
      → (s' : S) × (read_pdu k w
          ≡ (err teec_error_communication, record { sock = s'; bounce = w.bounce }))
  unfolding read_pdu read_exact
  read_pdu-dry w dry =
      let buf : List ℕ = replicate 16 0 in
      ((k.recv w.sock buf).2, rw (st.recv_dry w.sock buf dry) refl)

  -- A call on a transport without an outstanding one, with its window inside the bounce buffer, to a
  -- peer that sends less than a header, ends in the code for communication errors and leaves the call
  -- outstanding: on the transport that it leaves, every call, with any frame, buffer and window,
  -- answers BUSY and changes nothing.
  pub enter-silent :
      (rounds : ℕ) (t : StreamTransport S) (frame : CallFrame) (bounce : List ℕ) (n : ℕ)
      → t.yielding ≡ false
      → in_bounce (cookie frame) n bounce ≡ true
      → length (st.to_come t.sock) < 16
      → (t' : StreamTransport S) × (enter k (suc rounds) t frame bounce n
          ≡ some (err teec_error_communication, bounce, t'))
        × ((rounds' : ℕ) (frame' : CallFrame) (bounce' : List ℕ) (n' : ℕ)
            → enter k rounds' t' frame' bounce' n' ≡ some (err teec_error_busy, bounce', t'))
  unfolding enter_loop after_read
  enter-silent rounds t frame bounce n idle inside dry =
      let w : Wire S = record { sock = t.sock; bounce = bounce } in
      let (s1, wrote, _, same) = write_pdu-sends k st w kind_enter t.seq frame n inside in
      let w1 : Wire S = record { sock = s1; bounce = bounce } in
      let (s2, read) = read_pdu-dry w1 (omega (arith, dry, ap length same)) in
      let w2 : Wire S = record { sock = s2; bounce = bounce } in
      let outcome : Res ℕ CallFrame × Bool × Wire S = (err teec_error_communication, true, w2) in
      (
        (leave k t outcome).2,
        enter-written k st (suc rounds) t frame bounce n w1 outcome idle wrote
            (ap (after_read k t.on_rpc (enter_loop k t.on_rpc rounds)) read),
        λ rounds' frame' bounce' n'.
            enter-busy k st rounds' (leave k t outcome).2 frame' bounce' n' refl,
      )

  -- A call whose window does not lie in the bounce buffer.
  write_pdu-outside :
      (w : Wire S) (kind seq : ℕ) (frame : CallFrame) (n : ℕ)
      → in_bounce (cookie frame) n w.bounce ≡ false
      → (s' : S) × (write_pdu k kind seq frame n w
          ≡ (err teec_error_communication, record { sock = s'; bounce = w.bounce }))
        × (st.sent s' ≡ st.sent w.sock ++ (encode_pdu (yielding kind seq n) ++ encode_frame frame))
  unfolding write_pdu
  write_pdu-outside w kind seq frame n outside =
      let head = encode_pdu (yielding kind seq n) in
      let (s1, e1, sent1, _) = write_all-ready k st w head in
      let (s2, e2, sent2, _) =
        write_all-ready k st (record { sock = s1; bounce = w.bounce }) (encode_frame frame) in
      (
        s2,
        rw (e1, e2, outside) refl,
        sent2
            ∙ ap (λ l. l ++ encode_frame frame) sent1
            ∙ append_assoc (st.sent w.sock) head (encode_frame frame),
      )

  -- A call whose window does not lie in the bounce buffer ends in the code for communication errors,
  -- but its header and its frame are sent and the call is outstanding: on the transport that it
  -- leaves, every call answers BUSY and changes nothing.
  pub enter-outside :
      (rounds : ℕ) (t : StreamTransport S) (frame : CallFrame) (bounce : List ℕ) (n : ℕ)
      → t.yielding ≡ false
      → in_bounce (cookie frame) n bounce ≡ false
      → (t' : StreamTransport S) × (enter k rounds t frame bounce n
          ≡ some (err teec_error_communication, bounce, t'))
        × (st.sent t'.sock
            ≡ st.sent t.sock ++ (encode_pdu (yielding kind_enter t.seq n) ++ encode_frame frame))
        × ((rounds' : ℕ) (frame' : CallFrame) (bounce' : List ℕ) (n' : ℕ)
            → enter k rounds' t' frame' bounce' n' ≡ some (err teec_error_busy, bounce', t'))
  enter-outside rounds t frame bounce n idle outside =
      let w : Wire S = record { sock = t.sock; bounce = bounce } in
      let (s1, wrote, sent) = write_pdu-outside w kind_enter t.seq frame n outside in
      let w1 : Wire S = record { sock = s1; bounce = bounce } in
      let outcome : Res ℕ CallFrame × Bool × Wire S = (err teec_error_communication, true, w1) in
      (
        (leave k t outcome).2,
        enter-idle k st rounds t frame bounce n (err teec_error_communication, w1) idle wrote,
        sent,
        λ rounds' frame' bounce' n'.
            enter-busy k st rounds' (leave k t outcome).2 frame' bounce' n' refl,
      )
