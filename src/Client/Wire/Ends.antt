-- ===== src/Client/Wire/Ends.antt =====
-- A call ends, since every round of its loop takes a PDU from the stream.
use rustee.Prelude.{
  ℕ, zero, suc, ◌+◌, ◌<◌, ◌≤◌, ◌≡◌, refl, ap, ◌∙◌, List, length, Option, none, some, Bool, true,
  false, ltb, leb, leb→le, arith, replicate, length-drop, length-replicate, Res, ok, err, panic,
  Bool-cases, inl, inr, if◌then◌else◌, ◌==◌, >>>-eq-ok, ◌>>>◌, pure_step, ensure,
}
use rustee.Bytes.{bytes_at, write_at}
use rustee.Proto.{
  CallFrame, cookie, return_from_rpc, PduHeader, yielding, encode_pdu, encode_frame, pdu_hdr_len,
  call_frame_len, decode_pdu, decode_frame,
}
use rustee.Client.Codes.{teec_error_busy, teec_error_communication}
use rustee.Client.Wire.{
  Socket, Wire, Hook, Io, StreamTransport, in_bounce, get_bounce, comm_err, run_hook, put_wire,
  after_hook, stamp_rpc_ret, answer_rpc, enter_loop, enter, write_pdu, read_pdu, read_exact,
  read_bounce, write_all, kind_enter, kind_rpc, kind_complete, kind_rpc_reply, leave, leave_loop,
  after_write, after_read, after_answer,
}
use rustee.Client.Wire.Pdus.{Stream}
use rustee.Client.Wire.Serving.{enter-busy, enter-idle}

io-eq-ok :
    {S A : Type 0} (done : Bool) (a value : A) (s s' : S)
    → ◌≡◌ {A = Res ℕ A × S} (if done then ok a else err teec_error_communication, s) (ok value, s')
    → (done ≡ true) × (s ≡ s')
io-eq-ok true a value s s' e = (refl, ap (λ r. r.1) e)
io-eq-ok false a value s s' e = cc

module _ {S : Type 0} (k : Socket S) (st : Stream k) where
  abbrev left : Wire S → ℕ
  left w = length (st.to_come w.sock)

  -- A step that comes through has taken at least so many bytes.
  abbrev Takes : {A : Type 0} → ℕ → Io S A → Type 0
  Takes n f = (w w' : Wire S) (value : _) → f w ≡ (ok value, w') → left w' + n ≤ left w

  recv-Takes :
      (s : S) (buf : List ℕ)
      → (k.recv s buf).0 ≡ true
      → length (st.to_come (k.recv s buf).2) + length buf ≤ length (st.to_come s)
  recv-Takes s buf e = elim (Bool-cases (leb (length buf) (length (st.to_come s)))) [
    | inl g ↦
        let room = leb→le (length buf) (length (st.to_come s)) g in
        let (_, _, rest, _) = st.recv_ready s buf room in
        omega (arith, room, ap length rest, length-drop (length buf) (st.to_come s))
    | inr g ↦ absurd (let dry = st.recv_dry s buf (ground arith) in cc)
  ]

  read_exact-Takes : (n : ℕ) → Takes n (read_exact k n)
  unfolding read_exact
  read_exact-Takes n w w' value e =
      let buf : List ℕ = replicate n 0 in
      let r = k.recv w.sock buf in
      let (done, next) = io-eq-ok r.0 r.1 value (record { sock = r.2; bounce = w.bounce }) w' e in
      omega (arith, recv-Takes w.sock buf done, length-replicate {A = ℕ} n 0, ap left next)

  pure-Takes : {A : Type 0} (r : Res ℕ A) → Takes 0 (pure_step r)
  pure-Takes r w w' value e = omega (arith, ap (λ o. left o.1) e)

  read_bounce-Takes : (c n : ℕ) → Takes 0 (read_bounce k c n)
  unfolding read_bounce
  read_bounce-Takes c n w w' value e =
      let buf = bytes_at w.bounce c n in
      let r = k.recv w.sock buf in
      let (done, next) =
        io-eq-ok r.0 tt value (record { sock = r.2; bounce = write_at w.bounce c r.1 }) w' e in
      omega (arith, recv-Takes w.sock buf done, ap left next)

  get_bounce-Takes : Takes 0 get_bounce
  get_bounce-Takes w w' value e = omega (arith, ap (λ o. left o.1) e)

  if-Takes :
      {A : Type 0} (test : Bool) (f g : Io S A)
      → Takes 0 f
      → Takes 0 g
      → Takes 0 (if test then f else g)
  if-Takes true f g a b = a
  if-Takes false f g a b = b

  >>>-Takes :
      {A B : Type 0} (m n : ℕ) (before : Io S A) (next : A → Io S B)
      → Takes m before
      → ((a : A) → Takes n (next a))
      → Takes (m + n) (before >>> next)
  >>>-Takes m n before next f g w w' value e =
      let (a, w1, e1, e2) = >>>-eq-ok before next w w' value e in
      omega (arith, f w w1 a e1, g a w1 w' value e2)

  read_pdu-Takes_80 : Takes 80 (read_pdu k)
  unfolding read_pdu
  read_pdu-Takes_80 = >>>-Takes 16 64 _ _ (read_exact-Takes pdu_hdr_len) λ hb.
      >>>-Takes 0 64 _ _ (pure-Takes (comm_err (decode_pdu hb))) λ hdr.
        >>>-Takes 64 0 _ _ (read_exact-Takes call_frame_len) λ fb.
          >>>-Takes 0 0 _ _ (pure-Takes (comm_err (decode_frame fb))) λ frame.
            >>>-Takes 0 0 _ _ get_bounce-Takes λ bounce.
              >>>-Takes 0 0 _ _
                (pure-Takes (
                  ensure (in_bounce (cookie frame) hdr.bounce_len bounce) teec_error_communication))
                λ _.
                  >>>-Takes 0 0 _ _
                    (if-Takes (ltb 0 hdr.bounce_len) _ _
                      (read_bounce-Takes (cookie frame) hdr.bounce_len) (pure-Takes (ok tt)))
                    λ _. pure-Takes (ok (hdr, frame))

  write_all-Takes : (m : List ℕ) → Takes 0 (write_all k m)
  unfolding write_all
  write_all-Takes m w w' value e =
      let r = k.send w.sock m in
      let (_, _, same) = st.send_appends w.sock m in
      let (_, next) = io-eq-ok r.0 tt value (record { sock = r.1; bounce = w.bounce }) w' e in
      omega (arith, ap length same, ap left next)

  write_pdu-Takes :
      (kind seq : ℕ) (frame : CallFrame) (n : ℕ) → Takes 0 (write_pdu k kind seq frame n)
  unfolding write_pdu
  write_pdu-Takes kind seq frame n =
      >>>-Takes 0 0 _ _ (write_all-Takes (encode_pdu (yielding kind seq n))) λ _.
        >>>-Takes 0 0 _ _ (write_all-Takes (encode_frame frame)) λ _.
          >>>-Takes 0 0 _ _ get_bounce-Takes λ bounce.
            >>>-Takes 0 0 _ _
              (pure-Takes (ensure (in_bounce (cookie frame) n bounce) teec_error_communication))
              λ _. write_all-Takes (bytes_at bounce (cookie frame) n)

  -- A hook that gives the stream no bytes to read.
  abbrev pub HookQuiet : Option (Hook S) → Type 0
  HookQuiet none = Unit
  HookQuiet (some hook) =
      (s : S) (b : List ℕ) (c : ℕ) → length (st.to_come (hook s b c).2) ≤ length (st.to_come s)

  put_wire-left :
      (s : S) (r : Res ℕ (List ℕ)) (old : List ℕ) (n : ℕ)
      → left (put_wire s r old n).1 ≡ length (st.to_come s)
  put_wire-left s (ok b) old n = refl
  put_wire-left s (err e) old n = refl
  put_wire-left s panic old n = refl

  after_hook-left :
      (n c : ℕ) (r : Res ℕ ℕ × List ℕ × S) → left (after_hook n c r).1 ≡ length (st.to_come r.2)
  unfolding after_hook
  after_hook-left n c (ok m, b, s) = refl
  after_hook-left n c (err code, b, s) = put_wire-left s (stamp_rpc_ret b c code) b n
  after_hook-left n c (panic, b, s) = refl

  run_hook-Takes : (hook : Option (Hook S)) (n c : ℕ) → HookQuiet hook → Takes 0 (run_hook hook n c)
  unfolding run_hook
  run_hook-Takes none n c q w w' value e = omega (arith, ap (λ o. left o.1) e)
  run_hook-Takes (some hook) n c q w w' value e = omega (
    arith,
    ap (λ o. left o.1) e,
    after_hook-left n c (hook w.sock w.bounce c),
    q w.sock w.bounce c,
  )

  answer_rpc-Takes :
      (hook : Option (Hook S)) (hdr : PduHeader) (out : CallFrame)
      → HookQuiet hook
      → Takes 0 (answer_rpc k hook hdr out)
  unfolding answer_rpc
  answer_rpc-Takes hook hdr out q =
      >>>-Takes 0 0 _ _ (run_hook-Takes hook hdr.bounce_len (cookie out) q)
        λ n. write_pdu-Takes kind_rpc_reply hdr.seq (return_from_rpc (cookie out)) n

  -- The outcome of an answer decides, and only the next round can run out of rounds.
  after_answer-returns :
      (hook : Option (Hook S)) (again : Wire S → Option (Res ℕ CallFrame × Bool × Wire S))
      (answered : Res ℕ (Unit {0}) × Wire S)
      → ((w : Wire S) → answered ≡ (ok tt, w) → (o : _) × (again w ≡ some o))
      → (o : _) × (after_answer k hook again answered ≡ some o)
  after_answer-returns hook again (ok done, w) f = f w refl
  after_answer-returns hook again (err code, w) f = (_, refl)
  after_answer-returns hook again (panic, w) f = (_, refl)

  after_read-returns :
      (hook : Option (Hook S)) (again : Wire S → Option (Res ℕ CallFrame × Bool × Wire S))
      (read : Res ℕ (PduHeader × CallFrame) × Wire S)
      → HookQuiet hook
      → ((w : Wire S)
          → ((value : _) × (w1 : Wire S) × (read ≡ (ok value, w1)) × (left w ≤ left w1))
          → (o : _) × (again w ≡ some o))
      → (o : _) × (after_read k hook again read ≡ some o)
  unfolding after_read
  after_read-returns hook again (err code, w) q f = (_, refl)
  after_read-returns hook again (panic, w) q f = (_, refl)
  after_read-returns hook again (ok (hdr, out), w) q f =
      elim (Bool-cases (hdr.kind == kind_complete)) [
        | inl a ↦ ((ok out, false, w), rw a refl)
        | inr a ↦ elim (Bool-cases (hdr.kind == kind_rpc)) [
          | inr b ↦ ((err teec_error_communication, false, w), rw (a, b) refl)
          | inl b ↦
              let (o, e) = after_answer-returns hook again (answer_rpc k hook hdr out w) (λ w2 g.
                f w2 (
                  (hdr, out),
                  w,
                  refl,
                  let t = answer_rpc-Takes hook hdr out q w w2 tt g in omega arith,
                )) in
              (o, rw (a, b) e)
        ]
      ]

  enter_loop-returns :
      (hook : Option (Hook S)) (rounds : ℕ) (w : Wire S)
      → HookQuiet hook
      → left w < rounds
      → (o : _) × (enter_loop k hook rounds w ≡ some o)
  unfolding enter_loop
  enter_loop-returns hook zero w q enough = absurd (omega arith)
  enter_loop-returns hook (suc rounds) w q enough =
      after_read-returns hook (enter_loop k hook rounds) (read_pdu k w) q
        (λ w2 (value, w1, read, less).
          enter_loop-returns hook rounds w2 q
            (omega (arith, read_pdu-Takes_80 w w1 value read, less, enough)))

  after_write-returns :
      (rounds : ℕ) (t : StreamTransport S) (written : Res ℕ (Unit {0}) × Wire S)
      → HookQuiet t.on_rpc
      → ((w : Wire S) → written ≡ (ok tt, w) → left w < rounds)
      → (o : _) × (after_write k rounds t written ≡ some o)
  after_write-returns rounds t (err code, w) q f = (_, refl)
  after_write-returns rounds t (panic, w) q f = (_, refl)
  after_write-returns rounds t (ok done, w) q f =
      let (o, e) = enter_loop-returns t.on_rpc rounds w q (f w refl) in
      (leave k t o, ap (leave_loop k t) e)

  -- Whatever the peer sends and whatever the window, with a hook that adds nothing to the stream, a call
  -- that has more rounds than there are bytes to come returns.
  pub enter-returns :
      (rounds : ℕ) (t : StreamTransport S) (frame : CallFrame) (bounce : List ℕ) (n : ℕ)
      → HookQuiet t.on_rpc
      → length (st.to_come t.sock) < rounds
      → (o : Res ℕ CallFrame × List ℕ × StreamTransport S) × (enter k rounds t frame bounce n
          ≡ some o)
  enter-returns rounds t frame bounce n q enough = elim (Bool-cases t.yielding) [
    | inl busy ↦ ((err teec_error_busy, bounce, t), enter-busy k st rounds t frame bounce n busy)
    | inr idle ↦
        let w : Wire S = record { sock = t.sock; bounce = bounce } in
        let (o, e) =
          after_write-returns rounds t (write_pdu k kind_enter t.seq frame n w) q
            (λ w1 g. omega (arith, enough, write_pdu-Takes kind_enter t.seq frame n w w1 tt g)) in
        (o, enter-idle k st rounds t frame bounce n _ idle refl ∙ e)
  ]
