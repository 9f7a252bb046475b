-- ===== src/Proto/Decoder.antt =====
-- When the decoder of a message panics (`decode_msg` of crates/rustee-proto/src/lib.rs).
use rustee.Prelude.{
  ℕ, zero, suc, ◌+◌, ◌*◌, ◌%◌, ◌^◌, ◌<◌, ◌≤◌, ◌≡◌, ◌≢◌, refl, List, [], ◌∷◌, true, false, leb, ◌==◌,
  length, drop, arith, length-drop, Res, ok, panic, Bool-cases, Res-cases, leb→le, inl, inr, ◌↔◌,
}
use rustee.Proto.{
  MsgArgHdr, MsgParam, decode_hdr, decode_param, read_params, decode_msg, slice_from, byte_size,
  ProtoError,
}

decode_param-total : (b : List ℕ) → 32 ≤ length b → (p : MsgParam) × (decode_param b ≡ ok p)
unfolding decode_param
decode_param-total b h = elim (Res-cases (decode_param b)) [
  | inl r ↦ r
  | inr (inl (e, f)) ↦ absurd (ground arith)
  | inr (inr f) ↦ absurd (ground arith)
]

decode_hdr-total : (b : List ℕ) → 32 ≤ length b → (p : MsgArgHdr) × (decode_hdr b ≡ ok p)
unfolding decode_hdr
decode_hdr-total b h = elim (Res-cases (decode_hdr b)) [
  | inl r ↦ r
  | inr (inl (e, f)) ↦ absurd (ground arith)
  | inr (inr f) ↦ absurd (ground arith)
]

slice_from-ok : (b : List ℕ) (s : ℕ) → s ≤ length b → slice_from b s ≡ ok (drop s b)
unfolding slice_from
slice_from-ok b s h = ground arith

read_params-total :
    (pool : List ℕ) (s n : ℕ)
    → s + 32 * n ≤ length pool
    → (ps : List MsgParam) × (read_params pool s n ≡ ok ps)
unfolding read_params
read_params-total pool s zero h = ([], refl)
read_params-total pool s (suc n) h =
    let p = decode_param-total (drop s pool) (omega (arith, length-drop s pool)) in
    let r = read_params-total pool (s + 32) n (omega arith) in
    (p.0 ∷ r.0, rw (slice_from-ok pool s (omega arith), p.1, r.1) refl)

ok_not_panic {ℓ} : {A : Type ℓ} (a : A) → ◌≢◌ {A = Res ProtoError A} (ok a) panic
ok_not_panic a e = cc

pub decode_msg-inside :
    (pool : List ℕ) (c : ℕ)
    → c + 32 < 2 ^ 64
    → length pool + 224 < 2 ^ 64
    → decode_msg pool c ≢ panic
unfolding decode_msg byte_size
decode_msg-inside pool c h lim = elim (Bool-cases (c % 8 == 0)) [
  | inr a ↦ rw (a, decode_msg) (λ e. cc)
  | inl a ↦ elim (Bool-cases (leb ((c + 32) % 2 ^ 64) (length pool))) [
    | inr b ↦ rw (a, b, decode_msg) (λ e. cc)
    | inl b ↦
        let inside : c + 32 ≤ length pool = ground arith in
        let r = decode_hdr-total (drop c pool) (omega (arith, length-drop c pool)) in
        let n = r.0.num_params in
        let s = slice_from-ok pool c (omega (arith, inside)) in
        elim (Bool-cases (leb n 6)) [
          | inr d ↦ rw (a, b, s, r.1, d, decode_msg) (λ e. cc)
          | inl d ↦ elim (Bool-cases (leb ((c + (32 + 32 * n)) % 2 ^ 64) (length pool))) [
            | inr f ↦ rw (a, b, s, r.1, d, f, decode_msg) (λ e. cc)
            | inl f ↦
                let ps = read_params-total pool (c + 32) n (ground arith) in
                rw (a, b, s, r.1, d, f, ps.1, decode_msg) (ok_not_panic _)
          ]
        ]
  ]
]

decode_msg-wrap :
    (pool : List ℕ) (c : ℕ)
    → c < 2 ^ 64
    → 2 ^ 64 ≤ c + 32
    → c % 8 ≡ 0
    → length pool + 224 < 2 ^ 64
    → 32 ≤ length pool
    → decode_msg pool c ≡ panic
unfolding decode_msg slice_from
decode_msg-wrap pool c h w al lim b =
    let g0 : (c % 8 == 0) ≡ true = ground arith in
    let g1 : leb ((c + 32) % 2 ^ 64) (length pool) ≡ true = ground arith in
    let g2 : leb c (length pool) ≡ false = ground arith in rw (g0, g1, g2)

decode_msg-aligned : (pool : List ℕ) (c : ℕ) → decode_msg pool c ≡ panic → c % 8 ≡ 0
unfolding decode_msg
decode_msg-aligned pool c e = elim (Bool-cases (c % 8 == 0)) [
  | inl a ↦ ground arith
  | inr a ↦ absurd ((let n : decode_msg pool c ≢ panic = rw (a, decode_msg) (λ f. cc) in n) e)
]

-- In a pool that holds a header and ends well below the end of the address space, whatever its bytes,
-- the decoder panics at just the aligned cookies in the last thirty-two bytes of the address space,
-- where the end of the header wraps; at every other cookie it returns a message or an error.
pub decode_msg_panics :
    (pool : List ℕ) (c : ℕ)
    → c < 2 ^ 64
    → 32 ≤ length pool
    → length pool + 224 < 2 ^ 64
    → (decode_msg pool c ≡ panic) ↔ ((c % 8 ≡ 0) × (2 ^ 64 ≤ c + 32))
decode_msg_panics pool c h b lim = (
  λ e. (
    decode_msg-aligned pool c e,
    elim (Bool-cases (leb (2 ^ 64) (c + 32))) [
      | inl w ↦ leb→le _ _ w
      | inr w ↦ absurd (decode_msg-inside pool c (ground arith) lim e)
    ],
  ),
  λ (al, w). decode_msg-wrap pool c h w al lim b,
)
