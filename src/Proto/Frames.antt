-- ===== src/Proto/Frames.antt =====
-- The call frame and the PDU header: what is encoded is decoded again.
use rustee.Prelude.{
  ℕ, ◌+◌, ◌*◌, ◌/◌, ◌%◌, ◌^◌, ◌<◌, ◌≤◌, ◌≡◌, refl, ap, ap₂, ◌∙◌, List, [], ◌∷◌, ◌++◌, some, length,
  get_or, set, leb, true, ◌==◌, if◌then◌else◌, arith, length-append, append_assoc, sym, get_or-set,
  get_or-set_other, length-set, ok, err, Bool-cases, inl, inr,
}
use rustee.Bytes.{to_le, read_u32, read_u64}
use rustee.Bytes.Laws.{from_le-to_le, drop-skip}
use rustee.Proto.{
  CallFrame, cookie, set_cookie, encode_words, encode_frame, decode_words, decode_frame, PduHeader,
  encode_pdu, decode_pdu, is_kind, answer_fast_smccc, truncated, bad_kind, smc_call_with_arg,
  smc_return_from_rpc,
}

-- Every register is a word of 64 bits.
abbrev pub Words : List ℕ → Type 0
Words [] = Unit
Words (w ∷ ws) = (w < 2 ^ 64) × Words ws

length-encode_words : (ws : List ℕ) → length (encode_words ws) ≡ 8 * length ws
unfolding encode_words
length-encode_words [] = refl
length-encode_words (w ∷ ws) = omega (arith, length-encode_words ws)

-- Behind a prefix of `i` registers, the loop reads the registers that follow.
decode_words-encode :
    (before : List ℕ) (i : ℕ) (ws : List ℕ)
    → length before ≡ i * 8
    → Words ws
    → decode_words (before ++ encode_words ws) i (length ws) ≡ ws
unfolding decode_words encode_words read_u64
decode_words-encode before i [] h w = refl
decode_words-encode before i (v ∷ ws) h w =
    let rest =
      decode_words-encode (before ++ to_le 8 v) (i + 1) ws
        (omega (arith, length-append before (to_le 8 v))) w.1 in
    ap₂ ◌∷◌
      (rw (drop-skip before (to_le 8 v ++ encode_words ws) (i * 8) 0 (omega (arith, h)))
        (from_le-to_le 8 v w.0))
      (ap (λ l. decode_words l (i + 1) (length ws))
          (sym (append_assoc before (to_le 8 v) (encode_words ws)))
        ∙ rest)

-- A frame of eight registers has 64 bytes on the wire, and is decoded again.
pub decode_frame-encode_frame :
    (f : CallFrame)
    → length f.r ≡ 8
    → Words f.r
    → (length (encode_frame f) ≡ 64) × (decode_frame (encode_frame f) ≡ ok f)
unfolding encode_frame decode_frame
decode_frame-encode_frame f h w =
    let n = length-encode_words f.r in
    let g : leb 64 (length (encode_words f.r)) ≡ true = ground (arith, n, h) in
    let rest : decode_words (encode_words f.r) 0 8 ≡ f.r =
      ap (λ k. decode_words (encode_words f.r) 0 k) (sym h) ∙ decode_words-encode [] 0 f.r refl w in
    (omega (arith, n, h), rw g (ap (λ ws. ok (record { r = ws })) rest))

-- In a frame of at least three registers, a cookie of 64 bits is read back after it has been set,
-- whatever the frame held: register 1 holds its high half, register 2 its low half, and the other
-- registers stay as they are.
pub cookie-set_cookie :
    (f : CallFrame) (c : ℕ)
    → 3 ≤ length f.r
    → c < 2 ^ 64
    → (cookie (set_cookie f c) ≡ c)
      × ((i : ℕ)
          → get_or (set_cookie f c).r i 0
            ≡ (if i == 1 then c / 2 ^ 32 else if i == 2 then c % 2 ^ 32 else get_or f.r i 0))
unfolding cookie set_cookie
cookie-set_cookie f c h b =
    let hi = get_or-set_other (set f.r 1 (c / 2 ^ 32)) 1 2 (c % 2 ^ 32) 0 (λ e. omega arith) in
    let hi' = get_or-set f.r 1 (c / 2 ^ 32) 0 (omega arith) in
    let lo =
      get_or-set (set f.r 1 (c / 2 ^ 32)) 2 (c % 2 ^ 32) 0
        (omega (arith, length-set f.r 1 (c / 2 ^ 32))) in
    (
      omega (arith, hi, hi', lo),
      λ i. elim (Bool-cases (i == 1)) [
        | inl e ↦ rw (let g : i ≡ 1 = ground (arith, e) in g) (hi ∙ hi')
        | inr e ↦ elim (Bool-cases (i == 2)) [
          | inl g ↦ rw (let g' : i ≡ 2 = ground (arith, g) in g') lo
          | inr g ↦
              rw (e, g)
                (get_or-set_other (set f.r 1 (c / 2 ^ 32)) i 2 (c % 2 ^ 32) 0 (λ x. ground arith)
                  ∙ get_or-set_other f.r i 1 (c / 2 ^ 32) 0 (λ x. ground arith))
        ]
      ],
    )

-- A header that fits its words is accepted again just when its kind is one of the four and its
-- argument has the size of a frame; the error names the first of the two that fails.
pub decode_pdu-encode_pdu :
    (h : PduHeader)
    → h.kind < 2 ^ 32
    → h.seq < 2 ^ 32
    → h.arg_len < 2 ^ 32
    → h.bounce_len < 2 ^ 32
    → decode_pdu (encode_pdu h)
      ≡ (if is_kind h.kind then (if h.arg_len == 64 then ok h else err truncated) else err bad_kind)
unfolding decode_pdu encode_pdu read_u32
decode_pdu-encode_pdu h a b c d =
    rw
      (
        from_le-to_le 4 h.kind a,
        from_le-to_le 4 h.seq b,
        from_le-to_le 4 h.arg_len c,
        from_le-to_le 4 h.bounce_len d,
      )
      (ground arith)

-- Only a number with the fast bit is answered without the kernel, with four words of 32 bits; so a
-- yielding call always reaches the kernel.
pub answer_fast_smccc-fast :
    (a0 : ℕ) (w : List ℕ)
    → answer_fast_smccc a0 ≡ some w
    → (2 ^ 31 ≤ a0) × (length w ≡ 4) × ¬ (a0 ≡ smc_call_with_arg) × ¬ (a0 ≡ smc_return_from_rpc)
unfolding answer_fast_smccc
answer_fast_smccc-fast a0 w h = ground arith
