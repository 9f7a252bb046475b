-- ===== src/Client/Wire/Pdus.antt =====
-- PDUs over a byte stream: what `write_pdu` sends, `read_pdu` takes in.
use rustee.Prelude.{
  ℕ, ◌+◌, ◌^◌, ◌<◌, ◌≤◌, ◌≡◌, refl, ap, ◌∙◌, sym, List, [], ◌∷◌, ◌++◌, append_assoc, length, take,
  drop, replicate, ltb, true, false, arith, length-replicate, length-append, drop-append, ok,
  pure_step, if◌then◌else◌,
}
use rustee.Bytes.{bytes_at, write_at}
use rustee.Bytes.Laws.{length-bytes_at, take-exact, drop-skip}
use rustee.Bytes.Writes.{write_at-nil}
use rustee.Proto.{
  CallFrame, cookie, encode_frame, PduHeader, yielding, encode_pdu, decode_pdu, is_kind,
}
use rustee.Proto.Frames.{Words, decode_frame-encode_frame, decode_pdu-encode_pdu}
use rustee.Client.Wire.{
  Socket, Wire, write_all, read_exact, read_bounce, write_pdu, read_pdu, in_bounce,
}

-- A socket as a byte stream: what has been sent, and what is still to come from a peer whose bytes do
-- not depend on what it is sent. A read takes the next bytes when they are there, and fails otherwise.
pub record Stream {S : Type 0} (k : Socket S) : Type 0 where
  pub sent : S → List ℕ
  pub to_come : S → List ℕ
  pub recv_ready :
      (s : S) (buf : List ℕ)
      → length buf ≤ length (to_come s)
      → let r = k.recv s buf in
        (r.0 ≡ true)
        × (r.1 ≡ take (length buf) (to_come s))
        × (to_come r.2 ≡ drop (length buf) (to_come s))
        × (sent r.2 ≡ sent s)
  pub recv_dry : (s : S) (buf : List ℕ) → length (to_come s) < length buf → (k.recv s buf).0 ≡ false
  pub send_appends :
      (s : S) (buf : List ℕ)
      → let r = k.send s buf in
        (r.0 ≡ true) × (sent r.1 ≡ sent s ++ buf) × (to_come r.1 ≡ to_come s)

-- A frame of eight words of 64 bits.
abbrev pub FrameFits : CallFrame → Type 0
FrameFits f = (length f.r ≡ 8) × Words f.r

-- The bytes of a PDU.
abbrev pub pdu_bytes : ℕ → ℕ → CallFrame → List ℕ → List ℕ
pdu_bytes kind seq frame body =
    encode_pdu (yielding kind seq (length body)) ++ (encode_frame frame ++ body)

append-cancel : (xs ys zs : List ℕ) → xs ++ ys ≡ xs ++ zs → ys ≡ zs
append-cancel xs ys zs e = sym (drop-append xs ys) ∙ ap (drop (length xs)) e ∙ drop-append xs zs

length-encode_pdu : (h : PduHeader) → 16 ≡ length (encode_pdu h)
unfolding encode_pdu
length-encode_pdu h = refl

is_kind-small : (kind : ℕ) → is_kind kind ≡ true → kind < 2 ^ 32
unfolding is_kind
is_kind-small kind h = ground arith

decode_pdu-yielding :
    (kind seq n : ℕ)
    → is_kind kind ≡ true
    → seq < 2 ^ 32
    → n < 2 ^ 32
    → decode_pdu (encode_pdu (yielding kind seq n)) ≡ ok (yielding kind seq n)
unfolding yielding
decode_pdu-yielding kind seq n is sb nb =
    decode_pdu-encode_pdu (yielding kind seq n) (is_kind-small kind is) sb (omega arith) nb
    ∙ rw is refl

pub in_bounce-le : (c n : ℕ) (bounce : List ℕ) → in_bounce c n bounce ≡ true → c + n ≤ length bounce
unfolding in_bounce
in_bounce-le c n bounce h = ground arith

module _ {S : Type 0} (k : Socket S) (st : Stream k) where
  read_exact-ready :
      (w : Wire S) (n : ℕ) (m rest : List ℕ)
      → n ≡ length m
      → st.to_come w.sock ≡ m ++ rest
      → (s' : S) × (read_exact k n w ≡ (ok m, record { sock = s'; bounce = w.bounce }))
        × (st.to_come s' ≡ rest)
        × (st.sent s' ≡ st.sent w.sock)
  unfolding read_exact
  read_exact-ready w n m rest e next =
      let buf : List ℕ = replicate n 0 in
      let len = length-replicate {A = ℕ} n 0 in
      let room : length buf ≤ length (st.to_come w.sock) =
        omega (arith, len, e, ap length next, length-append m rest) in
      let (done, got, left, same) = st.recv_ready w.sock buf room in
      let got' =
        got
        ∙ ap (take (length buf)) next
        ∙ take-exact m rest (length buf) (omega (arith, len, e)) in
      let left' =
        left
        ∙ ap (drop (length buf)) next
        ∙ drop-skip m rest (length buf) 0 (omega (arith, len, e)) in
      ((k.recv w.sock buf).2, rw (done, got') refl, left', same)

  read_bounce-ready :
      (w : Wire S) (c n : ℕ) (m rest : List ℕ)
      → n ≡ length m
      → c + n ≤ length w.bounce
      → st.to_come w.sock ≡ m ++ rest
      → (s' : S) × (read_bounce k c n w
          ≡ (ok tt, record { sock = s'; bounce = write_at w.bounce c m }))
        × (st.to_come s' ≡ rest)
        × (st.sent s' ≡ st.sent w.sock)
  unfolding read_bounce
  read_bounce-ready w c n m rest e inside next =
      let buf = bytes_at w.bounce c n in
      let len = length-bytes_at w.bounce c n inside in
      let room : length buf ≤ length (st.to_come w.sock) =
        omega (arith, len, e, ap length next, length-append m rest) in
      let (done, got, left, same) = st.recv_ready w.sock buf room in
      let got' =
        got
        ∙ ap (take (length buf)) next
        ∙ take-exact m rest (length buf) (omega (arith, len, e)) in
      let left' =
        left
        ∙ ap (drop (length buf)) next
        ∙ drop-skip m rest (length buf) 0 (omega (arith, len, e)) in
      ((k.recv w.sock buf).2, rw (done, got') refl, left', same)

  pub write_all-ready :
      (w : Wire S) (m : List ℕ)
      → (s' : S) × (write_all k m w ≡ (ok tt, record { sock = s'; bounce = w.bounce }))
        × (st.sent s' ≡ st.sent w.sock ++ m)
        × (st.to_come s' ≡ st.to_come w.sock)
  unfolding write_all
  write_all-ready w m =
      let (done, sent, same) = st.send_appends w.sock m in
      ((k.send w.sock m).1, rw done refl, sent, same)

  -- A PDU whose window lies in the bounce buffer is sent, and the buffer stays as it is.
  pub write_pdu-sends :
      (w : Wire S) (kind seq : ℕ) (frame : CallFrame) (n : ℕ)
      → in_bounce (cookie frame) n w.bounce ≡ true
      → (s' : S) × (write_pdu k kind seq frame n w
          ≡ (ok tt, record { sock = s'; bounce = w.bounce }))
        × (st.sent s'
            ≡ st.sent w.sock ++ pdu_bytes kind seq frame (bytes_at w.bounce (cookie frame) n))
        × (st.to_come s' ≡ st.to_come w.sock)
  unfolding write_pdu
  write_pdu-sends w kind seq frame n inside =
      let head = encode_pdu (yielding kind seq n) in
      let body = bytes_at w.bounce (cookie frame) n in
      let (s1, e1, sent1, same1) = write_all-ready w head in
      let (s2, e2, sent2, same2) =
        write_all-ready (record { sock = s1; bounce = w.bounce }) (encode_frame frame) in
      let (s3, e3, sent3, same3) = write_all-ready (record { sock = s2; bounce = w.bounce }) body in
      (
        s3,
        rw (e1, e2, inside, e3) refl,
        sent3
            ∙ ap (λ l. l ++ body) (sent2 ∙ ap (λ l. l ++ encode_frame frame) sent1)
            ∙ append_assoc (st.sent w.sock ++ head) (encode_frame frame) body
            ∙ append_assoc (st.sent w.sock) head (encode_frame frame ++ body)
            ∙ ap
                (λ j.
                  st.sent w.sock
                  ++ (encode_pdu (yielding kind seq j) ++ (encode_frame frame ++ body)))
                (sym (
                  length-bytes_at w.bounce (cookie frame) n
                    (in_bounce-le (cookie frame) n w.bounce inside))),
        same3 ∙ same2 ∙ same1,
      )

  read_body :
      (w : Wire S) (c : ℕ) (m rest : List ℕ)
      → c + length m ≤ length w.bounce
      → st.to_come w.sock ≡ m ++ rest
      → (s' : S) × ((if ltb 0 (length m) then read_bounce k c (length m) else pure_step (ok tt)) w
          ≡ (ok tt, record { sock = s'; bounce = write_at w.bounce c m }))
        × (st.to_come s' ≡ rest)
        × (st.sent s' ≡ st.sent w.sock)
  read_body w c [] rest inside next = (
    w.sock,
    ap (λ b. (ok tt, record { sock = w.sock; bounce = b })) (sym (write_at-nil w.bounce c)),
    next,
    refl,
  )
  read_body w c (x ∷ m) rest inside next =
      let (s', e, left, same) =
        read_bounce-ready w c (length (x ∷ m)) (x ∷ m) rest refl inside next in
      let g : ltb 0 (length (x ∷ m)) ≡ true = ground arith in (s', rw g e, left, same)

  -- A PDU that comes in is taken from the stream, its body put in its place in the bounce buffer.
  pub read_pdu-pdu_bytes :
      (w : Wire S) (kind seq : ℕ) (frame : CallFrame) (body rest : List ℕ)
      → is_kind kind ≡ true
      → seq < 2 ^ 32
      → length body < 2 ^ 32
      → FrameFits frame
      → in_bounce (cookie frame) (length body) w.bounce ≡ true
      → st.to_come w.sock ≡ pdu_bytes kind seq frame body ++ rest
      → (s' : S) × (read_pdu k w ≡ (
        ok (yielding kind seq (length body), frame),
        record { sock = s'; bounce = write_at w.bounce (cookie frame) body },
      ))
        × (st.to_come s' ≡ rest)
        × (st.sent s' ≡ st.sent w.sock)
  unfolding read_pdu yielding
  read_pdu-pdu_bytes w kind seq frame body rest is sb nb fits inside next =
      let hdr = yielding kind seq (length body) in
      let head = encode_pdu hdr in
      let fb = encode_frame frame in
      let (s1, e1, left1, same1) =
        read_exact-ready w 16 head (fb ++ (body ++ rest)) (length-encode_pdu hdr) (
          next
          ∙ append_assoc head (fb ++ body) rest
          ∙ ap (λ l. head ++ l) (append_assoc fb body rest)) in
      let (size, decoded) = decode_frame-encode_frame frame fits.0 fits.1 in
      let (s2, e2, left2, same2) =
        read_exact-ready (record { sock = s1; bounce = w.bounce }) 64 fb (body ++ rest) (sym size)
          left1 in
      let (s3, e3, left3, same3) =
        read_body (record { sock = s2; bounce = w.bounce }) (cookie frame) body rest
          (in_bounce-le (cookie frame) (length body) w.bounce inside) left2 in
      let d = decode_pdu-yielding kind seq (length body) is sb nb in
      (s3, rw (e1, d, e2, decoded, inside, e3) refl, left3, same3 ∙ same2 ∙ same1)

  -- Between two bounce buffers of one length: one side's call that sends a PDU of one of the four
  -- kinds, whose sequence number and length fit their words and whose frame has eight words, with its
  -- window inside the buffer, succeeds. From the bytes that it has sent, when they are what comes in
  -- next, the other side reads the same kind, sequence number, length and frame; it takes no byte
  -- more, and its bounce buffer holds the sender's window at the frame's cookie and is otherwise as
  -- before.
  pub read_pdu-write_pdu :
      (w r : Wire S) (kind seq n : ℕ) (frame : CallFrame) (m rest : List ℕ)
      → is_kind kind ≡ true
      → seq < 2 ^ 32
      → n < 2 ^ 32
      → FrameFits frame
      → length r.bounce ≡ length w.bounce
      → in_bounce (cookie frame) n w.bounce ≡ true
      → st.sent (write_pdu k kind seq frame n w).1.sock ≡ st.sent w.sock ++ m
      → st.to_come r.sock ≡ m ++ rest
      → ((write_pdu k kind seq frame n w).0 ≡ ok tt)
        × (s' : S) × (read_pdu k r ≡ (
          ok (yielding kind seq n, frame),
          record {
            sock = s';
            bounce = write_at r.bounce (cookie frame) (bytes_at w.bounce (cookie frame) n);
          },
        ))
        × (st.to_come s' ≡ rest)
  unfolding in_bounce
  read_pdu-write_pdu w r kind seq n frame m rest is sb nb fits same inside sent next =
      let c = cookie frame in
      let body = bytes_at w.bounce c n in
      let (s1, wrote, sent1, quiet) = write_pdu-sends w kind seq frame n inside in
      let len : length body ≡ n = length-bytes_at w.bounce c n (in_bounce-le c n w.bounce inside) in
      let m_eq : m ≡ pdu_bytes kind seq frame body =
        append-cancel (st.sent w.sock) m (pdu_bytes kind seq frame body)
          (sym sent ∙ ap (λ o. st.sent o.1.sock) wrote ∙ sent1) in
      let fits_there : in_bounce c (length body) r.bounce ≡ true = rw (len, same) inside in
      let (s2, e, left, _) =
        read_pdu-pdu_bytes r kind seq frame body rest is sb (omega (arith, len)) fits fits_there
          (next ∙ ap (λ l. l ++ rest) m_eq) in
      (
        ap (λ o. o.0) wrote,
        s2,
        e
            ∙ ap
                (λ j. (
                  ok (yielding kind seq j, frame),
                  record { sock = s2; bounce = write_at r.bounce c body },
                ))
                len,
        left,
      )
