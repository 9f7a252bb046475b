-- ===== src/Client/Wire/Serving.antt =====
-- A whole call over a stream: every RPC of the peer is answered, and COMPLETE ends the call.
use rustee.Prelude.{
  ℕ, zero, suc, ◌+◌, ◌^◌, ◌<◌, ◌≤◌, ◌≡◌, ◌≢◌, refl, ap, ◌∙◌, sym, subst, List, [], ◌∷◌, ◌++◌,
  append_assoc, append-nil, length, Option, none, some, Bool, true, false, ltb, arith, Res, ok, err,
  panic, Bool-cases, Res-cases, inl, inr, if◌then◌else◌,
}
use rustee.Bytes.{bytes_at, write_at}
use rustee.Bytes.Writes.{length-write_at}
use rustee.Proto.{CallFrame, cookie, return_from_rpc, set_cookie, yielding, is_kind}
use rustee.Client.Codes.{teec_error_busy}
use rustee.Client.Wire.{
  Socket, Wire, Hook, StreamTransport, in_bounce, run_hook, answer_rpc, enter_loop, enter,
  write_pdu, read_pdu, kind_enter, kind_rpc, kind_complete, kind_rpc_reply, leave, leave_loop,
  after_write, after_read, after_answer,
}
use rustee.Client.Wire.Pdus.{
  Stream, FrameFits, pdu_bytes, write_pdu-sends, read_pdu-pdu_bytes, in_bounce-le,
}
use rustee.Client.Wire.Stamp.{stamp_rpc_ret-length}

-- A PDU of the peer: its sequence number, its frame and the window it carries.
pub record Pdu : Type 0 where
  pub seq : ℕ
  pub frame : CallFrame
  pub body : List ℕ

-- Its fields fit their words, and its window lies in a bounce buffer of this length.
pub record PduFits (size : ℕ) (p : Pdu) : Type 0 where
  pub seq_fits : p.seq < 2 ^ 32
  pub body_fits : length p.body < 2 ^ 32
  pub frame_fits : FrameFits p.frame
  pub inside : cookie p.frame + length p.body ≤ size

abbrev pub AllFit : ℕ → List Pdu → Type 0
AllFit size [] = Unit
AllFit size (p ∷ ps) = PduFits size p × AllFit size ps

-- What a peer sends that asks these RPCs and then completes.
abbrev pub script : List Pdu → Pdu → List ℕ
script [] last = pdu_bytes kind_complete last.seq last.frame last.body
script (p ∷ ps) last = pdu_bytes kind_rpc p.seq p.frame p.body ++ script ps last

-- One reply for each RPC, in order, with the sequence number and the cookie of the RPC.
abbrev pub Replies : List Pdu → List ℕ → Type 0
Replies [] m = m ≡ []
Replies (p ∷ ps) m =
    (body : List ℕ) × (others : List ℕ) × (m
      ≡ pdu_bytes kind_rpc_reply p.seq (return_from_rpc (cookie p.frame)) body ++ others)
    × Replies ps others

cookie-return_from_rpc : (c : ℕ) → c < 2 ^ 64 → cookie (return_from_rpc c) ≡ c
unfolding cookie return_from_rpc set_cookie
cookie-return_from_rpc c h = omega arith

module _ {S : Type 0} (k : Socket S) (st : Stream k) where
  -- A hook that, at a cookie inside a bounce buffer which ends well below the end of the address space,
  -- keeps the length of the buffer, does not use the stream, does not panic, and asks for a window inside
  -- the buffer.
  abbrev pub HookServes : Option (Hook S) → Type 0
  HookServes none = Unit
  HookServes (some hook) =
      (s : S) (b : List ℕ) (c : ℕ)
      → length b + 224 < 2 ^ 64
      → c ≤ length b
      → let r = hook s b c in
        (length r.1 ≡ length b)
        × (st.to_come r.2 ≡ st.to_come s)
        × (st.sent r.2 ≡ st.sent s)
        × (r.0 ≢ panic)
        × ((n : ℕ) → r.0 ≡ ok n → c + n ≤ length b)

  in_bounce-same :
      (c n : ℕ) (a b : List ℕ)
      → length a ≡ length b
      → in_bounce c n b ≡ true
      → in_bounce c n a ≡ true
  unfolding in_bounce
  in_bounce-same c n a b e h = rw e h

  in_bounce-inside :
      (c n : ℕ) (b : List ℕ) → c + n ≤ length b → length b < 2 ^ 64 → in_bounce c n b ≡ true
  unfolding in_bounce
  in_bounce-inside c n b h lim = ground arith

  -- What a hook leaves: a buffer of the same length and the stream as it was, with the length of a
  -- window inside the buffer.
  abbrev Left : Wire S → ℕ → ℕ × Wire S → Type 0
  Left w c (n, w') =
      (length w'.bounce ≡ length w.bounce)
      × (st.to_come w'.sock ≡ st.to_come w.sock)
      × (st.sent w'.sock ≡ st.sent w.sock)
      × (in_bounce c n w'.bounce ≡ true)

  run_hook-serves :
      (hook : Option (Hook S)) (w : Wire S) (n c : ℕ)
      → HookServes hook
      → length w.bounce + 224 < 2 ^ 64
      → in_bounce c n w.bounce ≡ true
      → (r : ℕ × Wire S) × (run_hook hook n c w ≡ (ok r.0, r.1)) × Left w c r
  unfolding run_hook
  run_hook-serves none w n c h lim inside = ((n, w), refl, (refl, refl, refl, inside))
  run_hook-serves (some hook) w n c h lim inside =
      let (len, quiet, silent, calm, window) =
        h w.sock w.bounce c lim (omega (arith, in_bounce-le c n w.bounce inside)) in
      let b = (hook w.sock w.bounce c).1 in
      let s = (hook w.sock w.bounce c).2 in
      elim (Res-cases (hook w.sock w.bounce c).0) [
        | inl (m, e) ↦ elim (Bool-cases (ltb 0 m)) [
          | inl g ↦ (
            (m, record { sock = s; bounce = b }),
            rw (e, g) refl,
            (
              len,
              quiet,
              silent,
              in_bounce-same c m b w.bounce len
                  (in_bounce-inside c m w.bounce (window m e) (omega (arith, lim))),
            ),
          )
          | inr g ↦ (
            (n, record { sock = s; bounce = b }),
            rw (e, g) refl,
            (len, quiet, silent, in_bounce-same c n b w.bounce len inside),
          )
        ]
        | inr (inl (code, e)) ↦
            let (b', stamped, len') =
              stamp_rpc_ret-length b c code (omega (arith, len, lim))
                (omega (arith, lim, in_bounce-le c n w.bounce inside)) in
            (
              (n, record { sock = s; bounce = b' }),
              rw (e, stamped) refl,
              (len' ∙ len, quiet, silent, in_bounce-same c n b' w.bounce (len' ∙ len) inside),
            )
        | inr (inr e) ↦ absurd (calm e)
      ]

  answer_rpc-replies :
      (hook : Option (Hook S)) (w : Wire S) (seq n : ℕ) (out : CallFrame)
      → HookServes hook
      → length w.bounce + 224 < 2 ^ 64
      → in_bounce (cookie out) n w.bounce ≡ true
      → (w' : Wire S) × (body : List ℕ) × (answer_rpc k hook (yielding kind_rpc seq n) out w
          ≡ (ok tt, w'))
        × (length w'.bounce ≡ length w.bounce)
        × (st.to_come w'.sock ≡ st.to_come w.sock)
        × (st.sent w'.sock
            ≡ st.sent w.sock ++ pdu_bytes kind_rpc_reply seq (return_from_rpc (cookie out)) body)
  unfolding answer_rpc yielding
  answer_rpc-replies hook w seq n out h lim inside =
      let c = cookie out in
      let ((m, w1), ran, (len, quiet, silent, inside')) = run_hook-serves hook w n c h lim inside in
      let same = cookie-return_from_rpc c (omega (arith, lim, in_bounce-le c n w.bounce inside)) in
      let (s2, wrote, sent, left) =
        write_pdu-sends k st w1 kind_rpc_reply seq (return_from_rpc c) m
          (ap (λ j. in_bounce j m w1.bounce) same ∙ inside') in
      let body = bytes_at w1.bounce (cookie (return_from_rpc c)) m in
      (
        record { sock = s2; bounce = w1.bounce },
        body,
        rw (ran, wrote) refl,
        len,
        left ∙ quiet,
        sent ∙ ap (λ l. l ++ pdu_bytes kind_rpc_reply seq (return_from_rpc c) body) silent,
      )

  loop_complete :
      (hook : Option (Hook S)) (rounds : ℕ) (w w' : Wire S) (seq n : ℕ) (out : CallFrame)
      → read_pdu k w ≡ (ok (yielding kind_complete seq n, out), w')
      → enter_loop k hook (suc rounds) w ≡ some (ok out, false, w')
  unfolding enter_loop after_read yielding
  loop_complete hook rounds w w' seq n out read =
      ap (after_read k hook (enter_loop k hook rounds)) read

  loop_rpc :
      (hook : Option (Hook S)) (rounds : ℕ) (w w1 w2 : Wire S) (seq n : ℕ) (out : CallFrame)
      → read_pdu k w ≡ (ok (yielding kind_rpc seq n, out), w1)
      → answer_rpc k hook (yielding kind_rpc seq n) out w1 ≡ (ok tt, w2)
      → enter_loop k hook (suc rounds) w ≡ enter_loop k hook rounds w2
  unfolding enter_loop after_read yielding
  loop_rpc hook rounds w w1 w2 seq n out read answered =
      ap (after_read k hook (enter_loop k hook rounds)) read
      ∙ ap (after_answer k hook (enter_loop k hook rounds)) answered

  -- A call with another one outstanding, and one without.
  pub enter-busy :
      (rounds : ℕ) (t : StreamTransport S) (frame : CallFrame) (bounce : List ℕ) (n : ℕ)
      → t.yielding ≡ true
      → enter k rounds t frame bounce n ≡ some (err teec_error_busy, bounce, t)
  unfolding enter
  enter-busy rounds t frame bounce n busy =
      ap
        (λ b.
          if b
          then some (err teec_error_busy, bounce, t)
          else after_write k rounds t
              (write_pdu k kind_enter t.seq frame n (record { sock = t.sock; bounce = bounce })))
        busy

  pub enter-idle :
      (rounds : ℕ) (t : StreamTransport S) (frame : CallFrame) (bounce : List ℕ) (n : ℕ)
      (written : Res ℕ (Unit {0}) × Wire S)
      → t.yielding ≡ false
      → write_pdu k kind_enter t.seq frame n (record { sock = t.sock; bounce = bounce }) ≡ written
      → enter k rounds t frame bounce n ≡ after_write k rounds t written
  unfolding enter
  enter-idle rounds t frame bounce n written idle wrote =
      ap
        (λ b.
          if b
          then some (err teec_error_busy, bounce, t)
          else after_write k rounds t
              (write_pdu k kind_enter t.seq frame n (record { sock = t.sock; bounce = bounce })))
        idle
      ∙ ap (after_write k rounds t) wrote

  pub enter-written :
      (rounds : ℕ) (t : StreamTransport S) (frame : CallFrame) (bounce : List ℕ) (n : ℕ)
      (w : Wire S) (outcome : Res ℕ CallFrame × Bool × Wire S)
      → t.yielding ≡ false
      → write_pdu k kind_enter t.seq frame n (record { sock = t.sock; bounce = bounce })
        ≡ (ok tt, w)
      → enter_loop k t.on_rpc rounds w ≡ some outcome
      → enter k rounds t frame bounce n ≡ some (leave k t outcome)
  enter-written rounds t frame bounce n w outcome idle wrote ran =
      enter-idle rounds t frame bounce n (ok tt, w) idle wrote ∙ ap (leave_loop k t) ran

  -- What the loop has done when the peer's script has run.
  abbrev Served : Wire S → List Pdu → List ℕ → Wire S → List ℕ → Type 0
  Served w ps rest w' m =
      (length w'.bounce ≡ length w.bounce)
      × (st.to_come w'.sock ≡ rest)
      × (st.sent w'.sock ≡ st.sent w.sock ++ m)
      × Replies ps m

  enter_loop-completes :
      (hook : Option (Hook S)) (rounds : ℕ) (w : Wire S) (ps : List Pdu) (last : Pdu)
      (rest : List ℕ)
      → HookServes hook
      → length w.bounce + 224 < 2 ^ 64
      → AllFit (length w.bounce) ps
      → PduFits (length w.bounce) last
      → length ps < rounds
      → st.to_come w.sock ≡ script ps last ++ rest
      → (w' : Wire S) × (m : List ℕ) × (enter_loop k hook rounds w
          ≡ some (ok last.frame, false, w'))
        × Served w ps rest w' m
  unfolding is_kind
  enter_loop-completes hook zero w ps last rest h lim fits fit enough next = absurd (omega arith)
  enter_loop-completes hook (suc rounds) w [] last rest h lim fits fit enough next =
      let inside =
        in_bounce-inside (cookie last.frame) (length last.body) w.bounce fit.inside
          (omega (arith, lim)) in
      let (s', read, left, quiet) =
        read_pdu-pdu_bytes k st w kind_complete last.seq last.frame last.body rest refl fit.seq_fits
          fit.body_fits fit.frame_fits inside next in
      (
        record { sock = s'; bounce = write_at w.bounce (cookie last.frame) last.body },
        [],
        loop_complete hook rounds w _ last.seq (length last.body) last.frame read,
        (
          length-write_at w.bounce (cookie last.frame) last.body fit.inside,
          left,
          quiet ∙ sym (append-nil (st.sent w.sock)),
          refl,
        ),
      )
  enter_loop-completes hook (suc rounds) w (p ∷ ps) last rest h lim fits fit enough next =
      let one = fits.0 in
      let c = cookie p.frame in
      let inside = in_bounce-inside c (length p.body) w.bounce one.inside (omega (arith, lim)) in
      let (s1, read, left, quiet) =
        read_pdu-pdu_bytes k st w kind_rpc p.seq p.frame p.body (script ps last ++ rest) refl
          one.seq_fits one.body_fits one.frame_fits inside
          (next ∙ append_assoc (pdu_bytes kind_rpc p.seq p.frame p.body) (script ps last) rest) in
      let w1 : Wire S = record { sock = s1; bounce = write_at w.bounce c p.body } in
      let len1 = length-write_at w.bounce c p.body one.inside in
      let (w2, body, answered, len2, left2, sent2) =
        answer_rpc-replies hook w1 p.seq (length p.body) p.frame h (omega (arith, len1, lim))
          (in_bounce-same c (length p.body) w1.bounce w.bounce len1 inside) in
      let same : length w2.bounce ≡ length w.bounce = len2 ∙ len1 in
      let (w3, m, ran, (len3, left3, sent3, replies)) =
        enter_loop-completes hook rounds w2 ps last rest h (omega (arith, same, lim))
          (subst (λ j. AllFit j ps) (sym same) fits.1) (subst (λ j. PduFits j last) (sym same) fit)
          (omega (arith, enough)) (left2 ∙ left) in
      let bytes = pdu_bytes kind_rpc_reply p.seq (return_from_rpc c) body in
      (
        w3,
        bytes ++ m,
        loop_rpc hook rounds w w1 w2 p.seq (length p.body) p.frame read answered ∙ ran,
        (
          len3 ∙ same,
          left3,
          sent3
              ∙ ap (λ l. l ++ m) (sent2 ∙ ap (λ l. l ++ bytes) quiet)
              ∙ append_assoc (st.sent w.sock) bytes m,
          (body, m, refl, replies),
        ),
      )

  -- A call on a transport without an outstanding one, with its window inside the bounce buffer, which
  -- ends well below the end of the address space, to a peer that asks any number of RPCs and then
  -- completes, all PDUs with fields that fit their words and windows inside the buffer, with a hook that
  -- serves and with more rounds than RPCs, ends: it returns the frame of the COMPLETE and leaves no call
  -- outstanding, and has sent the ENTER and then one RPC_REPLY for each RPC, in their order, with the
  -- sequence number and the cookie of the RPC.
  pub enter-completes :
      (rounds : ℕ) (t : StreamTransport S) (frame : CallFrame) (bounce : List ℕ) (n : ℕ)
      (ps : List Pdu) (last : Pdu) (rest : List ℕ)
      → t.yielding ≡ false
      → HookServes t.on_rpc
      → length bounce + 224 < 2 ^ 64
      → in_bounce (cookie frame) n bounce ≡ true
      → AllFit (length bounce) ps
      → PduFits (length bounce) last
      → length ps < rounds
      → st.to_come t.sock ≡ script ps last ++ rest
      → (bounce' : List ℕ) × (t' : StreamTransport S) × (m : List ℕ) × (enter k rounds t frame
            bounce n
          ≡ some (ok last.frame, bounce', t'))
        × (t'.yielding ≡ false)
        × (length bounce' ≡ length bounce)
        × (st.to_come t'.sock ≡ rest)
        × (st.sent t'.sock
            ≡ st.sent t.sock
              ++ (pdu_bytes kind_enter t.seq frame (bytes_at bounce (cookie frame) n) ++ m))
        × Replies ps m
  enter-completes rounds t frame bounce n ps last rest idle h lim inside fits fit enough next =
      let w : Wire S = record { sock = t.sock; bounce = bounce } in
      let (s1, wrote, sent1, left1) = write_pdu-sends k st w kind_enter t.seq frame n inside in
      let w1 : Wire S = record { sock = s1; bounce = bounce } in
      let (w2, m, ran, (len, left, sent, replies)) =
        enter_loop-completes t.on_rpc rounds w1 ps last rest h lim fits fit enough (left1 ∙ next) in
      let bytes = pdu_bytes kind_enter t.seq frame (bytes_at bounce (cookie frame) n) in
      (
        w2.bounce,
        (leave k t (ok last.frame, false, w2)).2,
        m,
        enter-written rounds t frame bounce n w1 (ok last.frame, false, w2) idle wrote ran,
        refl,
        len,
        left,
        sent ∙ ap (λ l. l ++ m) sent1 ∙ append_assoc (st.sent t.sock) bytes m,
        replies,
      )
