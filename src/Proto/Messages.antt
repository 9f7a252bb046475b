-- ===== src/Proto/Messages.antt =====
-- The message in the shared pool: what the driver writes is what the kernel reads.
use rustee.Prelude.{
  ℕ, ◌+◌, ◌-◌, ◌*◌, ◌%◌, ◌^◌, ◌<◌, ◌≤◌, ◌≡◌, refl, ap, ap₂, ◌∙◌, sym, List, [], ◌∷◌, ◌++◌, length,
  take, drop, leb, true, ◌==◌, arith, replicate, length-drop, Res, ok, ◌>>=◌,
}
use rustee.Bytes.{bytes_at, read_u32, read_u64, write_at}
use rustee.Bytes.Laws.{from_le-to_le, length-bytes_at, drop-drop}
use rustee.Bytes.Writes.{
  write_at-whole, length-write_at, take-write_at, drop-write_at, drop-write_at_behind,
  write_at-join, write_at-nil,
}
use rustee.Proto.{
  MsgArgHdr, MsgParam, hdr_bytes, param_bytes, encode_hdr, decode_hdr, encode_param, decode_param,
  encode_at, write_params, read_params, write_msg, decode_msg, slice_from, byte_size, no_param,
  ProtoError,
}

pub record HdrFits (h : MsgArgHdr) : Type 0 where
  pub cmd_fits : h.cmd < 2 ^ 32
  pub func_fits : h.func < 2 ^ 32
  pub session_fits : h.session < 2 ^ 32
  pub cancel_id_fits : h.cancel_id < 2 ^ 32
  pub pad_fits : h.pad < 2 ^ 32
  pub ret_fits : h.ret < 2 ^ 32
  pub ret_origin_fits : h.ret_origin < 2 ^ 32
  pub num_params_fits : h.num_params < 2 ^ 32

-- The four words of every parameter are words of 64 bits.
abbrev pub ParamsFit : List MsgParam → Type 0
ParamsFit [] = Unit
ParamsFit (p ∷ ps) =
    ((p.attr < 2 ^ 64) × (p.a < 2 ^ 64) × (p.b < 2 ^ 64) × (p.c < 2 ^ 64)) × ParamsFit ps

abbrev params_bytes : List MsgParam → List ℕ
params_bytes [] = []
params_bytes (p ∷ ps) = param_bytes p ++ params_bytes ps

length-params_bytes : (ps : List MsgParam) → length (params_bytes ps) ≡ 32 * length ps
length-params_bytes [] = refl
length-params_bytes (p ∷ ps) = omega (arith, length-params_bytes ps)

decode_hdr-bytes :
    (h : MsgArgHdr) (rest : List ℕ) → HdrFits h → decode_hdr (hdr_bytes h ++ rest) ≡ ok h
unfolding decode_hdr read_u32
decode_hdr-bytes h rest f =
    rw
      (
        from_le-to_le 4 h.cmd f.cmd_fits,
        from_le-to_le 4 h.func f.func_fits,
        from_le-to_le 4 h.session f.session_fits,
        from_le-to_le 4 h.cancel_id f.cancel_id_fits,
        from_le-to_le 4 h.pad f.pad_fits,
        from_le-to_le 4 h.ret f.ret_fits,
        from_le-to_le 4 h.ret_origin f.ret_origin_fits,
        from_le-to_le 4 h.num_params f.num_params_fits,
      )
      (ground arith)

decode_param-bytes :
    (p : MsgParam) (ps : List MsgParam) (rest : List ℕ)
    → ParamsFit (p ∷ ps)
    → decode_param (param_bytes p ++ rest) ≡ ok p
unfolding decode_param read_u64
decode_param-bytes p ps rest f =
    rw
      (
        from_le-to_le 8 p.attr f.0.0,
        from_le-to_le 8 p.a f.0.1,
        from_le-to_le 8 p.b f.0.2,
        from_le-to_le 8 p.c f.0.3,
      )
      (ground arith)

-- The loop reads the parameters that stand at its offset.
read_params-bytes :
    (pool : List ℕ) (s : ℕ) (ps : List MsgParam) (rest : List ℕ)
    → ParamsFit ps
    → s ≤ length pool
    → drop s pool ≡ params_bytes ps ++ rest
    → read_params pool s (length ps) ≡ ok ps
unfolding read_params slice_from
read_params-bytes pool s [] rest f b e = refl
read_params-bytes pool s (p ∷ ps) rest f b e =
    let g : leb s (length pool) ≡ true = ground arith in
    let one = decode_param-bytes p ps (params_bytes ps ++ rest) f in
    let next : drop (s + 32) pool ≡ params_bytes ps ++ rest =
      sym (drop-drop 32 s pool) ∙ ap (λ l. drop 32 l) e in
    let more =
      read_params-bytes pool (s + 32) ps rest f.1 (omega (arith, length-drop s pool, ap length e))
        next in
    rw (g, e, one, more) refl

encode_at-param :
    (pool : List ℕ) (s : ℕ) (p : MsgParam)
    → s + 32 ≤ length pool
    → encode_at pool s (encode_param p) ≡ ok (write_at pool s (param_bytes p))
unfolding encode_at encode_param
encode_at-param pool s p h =
    let g : leb (s + 32) (length pool) ≡ true = ground arith in
    let n = length-bytes_at pool s 32 h in
    let g' : leb 32 (length (bytes_at pool s 32)) ≡ true = ground (arith, n) in
    rw (g, g')
      (ap (λ v. ok (write_at pool s v)) (write_at-whole (bytes_at pool s 32) (param_bytes p) n))

encode_at-hdr :
    (pool : List ℕ) (s : ℕ) (h : MsgArgHdr)
    → s + 32 ≤ length pool
    → encode_at pool s (encode_hdr h) ≡ ok (write_at pool s (hdr_bytes h))
unfolding encode_at encode_hdr
encode_at-hdr pool s h b =
    let g : leb (s + 32) (length pool) ≡ true = ground arith in
    let n = length-bytes_at pool s 32 b in
    let g' : leb 32 (length (bytes_at pool s 32)) ≡ true = ground (arith, n) in
    rw (g, g')
      (ap (λ v. ok (write_at pool s v)) (write_at-whole (bytes_at pool s 32) (hdr_bytes h) n))

-- The loop writes the parameters one behind the other and nothing else.
write_params-bytes :
    (pool : List ℕ) (s : ℕ) (ps : List MsgParam)
    → s + 32 * length ps ≤ length pool
    → write_params pool s ps ≡ ok (write_at pool s (params_bytes ps))
unfolding write_params
write_params-bytes pool s [] b = ap ok (sym (write_at-nil pool s))
write_params-bytes pool s (p ∷ ps) b =
    let more =
      write_params-bytes (write_at pool s (param_bytes p)) (s + 32) ps
        (omega (arith, length-write_at pool s (param_bytes p) (omega arith))) in
    rw (encode_at-param pool s p (omega arith), more)
      (ap ok (write_at-join pool s (param_bytes p) (omega arith) (params_bytes ps)))

-- All the bytes of a message.
abbrev msg_bytes : MsgArgHdr → List MsgParam → List ℕ
msg_bytes h ps = hdr_bytes h ++ params_bytes ps

write_msg-bytes :
    (pool : List ℕ) (c : ℕ) (h : MsgArgHdr) (ps : List MsgParam)
    → c % 8 ≡ 0
    → length ps ≡ h.num_params
    → c + byte_size h ≤ length pool
    → length pool < 2 ^ 64
    → write_msg pool c h ps ≡ ok (byte_size h, write_at pool c (msg_bytes h ps))
unfolding write_msg byte_size
write_msg-bytes pool c h ps al n b lim =
    let g0 : (c % 8 == 0) ≡ true = ground arith in
    let g1 : (length ps == h.num_params) ≡ true = ground arith in
    let g2 : leb (c + (32 + 32 * h.num_params)) (2 ^ 64 - 1) ≡ true = ground arith in
    let g3 : leb (c + (32 + 32 * h.num_params)) (length pool) ≡ true = ground arith in
    let more =
      write_params-bytes (write_at pool c (hdr_bytes h)) (c + 32) ps
        (omega (arith, length-write_at pool c (hdr_bytes h) (omega arith))) in
    rw (g0, g1, g2, g3, encode_at-hdr pool c h (omega arith), more)
      (ap (λ l. ok (32 + 32 * h.num_params, l))
        (write_at-join pool c (hdr_bytes h) (omega arith) (params_bytes ps)))

pub write_msg-succeeds :
    (pool : List ℕ) (c : ℕ) (h : MsgArgHdr) (ps : List MsgParam)
    → c % 8 ≡ 0
    → length ps ≡ h.num_params
    → c + byte_size h ≤ length pool
    → length pool < 2 ^ 64
    → (pool' : List ℕ) × (write_msg pool c h ps ≡ ok (byte_size h, pool'))
write_msg-succeeds pool c h ps al n b lim = (_, write_msg-bytes pool c h ps al n b lim)

module _ (pool : List ℕ) (c : ℕ) (h : MsgArgHdr) (ps : List MsgParam) (n : length ps ≡ h.num_params)
    (b : c + byte_size h ≤ length pool) where
  msg_room : c + length (msg_bytes h ps) ≤ length pool
  unfolding byte_size
  msg_room = omega (arith, b, n, length-params_bytes ps)

  decode_msg-bytes :
      c % 8 ≡ 0
      → HdrFits h
      → ParamsFit ps
      → length ps ≤ 6
      → length pool < 2 ^ 64
      → decode_msg (write_at pool c (msg_bytes h ps)) c
        ≡ ok (h, ps ++ replicate (6 - length ps) no_param, byte_size h)
  unfolding decode_msg byte_size slice_from
  decode_msg-bytes al hf pf six lim =
      let at_c = drop-write_at pool c (msg_bytes h ps) msg_room in
      let len = length-write_at pool c (msg_bytes h ps) msg_room in
      let rest = drop (c + length (msg_bytes h ps)) pool in
      let pool' = write_at pool c (msg_bytes h ps) in
      let behind : drop (c + 32) pool' ≡ params_bytes ps ++ rest =
        sym (drop-drop 32 c pool') ∙ ap (λ l. drop 32 l) at_c in
      let hdr = decode_hdr-bytes h (params_bytes ps ++ rest) hf in
      let g0 : (c % 8 == 0) ≡ true = ground arith in
      let g1 : leb ((c + 32) % 2 ^ 64) (length pool') ≡ true = ground (arith, len, b) in
      let g2 : leb c (length pool') ≡ true = ground (arith, len, b) in
      let g3 : leb h.num_params 6 ≡ true = ground (arith, n) in
      let g4 : leb ((c + (32 + 32 * h.num_params)) % 2 ^ 64) (length pool') ≡ true =
        ground (arith, len, b) in
      let params =
        ap (λ k. read_params pool' (c + 32) k) (sym n)
        ∙ read_params-bytes pool' (c + 32) ps rest pf (omega (arith, len, b)) behind in
      rw (g0, g1, g2, at_c, hdr, g3, g4, params)
        (ap (λ k. ok (h, ps ++ replicate (6 - k) no_param, 32 + 32 * h.num_params)) (sym n))

-- A message whose header counts its at most six parameters, whose fields fit their words, and that
-- has room at an aligned cookie, is written, and the decoder finds in the pool that header, those
-- parameters and empty ones up to six, and the size that was written.
pub decode_msg-write_msg :
    (pool : List ℕ) (c : ℕ) (h : MsgArgHdr) (ps : List MsgParam)
    → c % 8 ≡ 0
    → length ps ≡ h.num_params
    → c + byte_size h ≤ length pool
    → HdrFits h
    → ParamsFit ps
    → length ps ≤ 6
    → length pool < 2 ^ 64
    → (write_msg pool c h ps >>= (λ w. decode_msg w.1 c))
      ≡ ok (h, ps ++ replicate (6 - length ps) no_param, byte_size h)
decode_msg-write_msg pool c h ps al n b hf pf six lim =
    rw (write_msg-bytes pool c h ps al n b lim) (decode_msg-bytes pool c h ps n b al hf pf six lim)

write_msg-guards :
    (pool : List ℕ) (c : ℕ) (h : MsgArgHdr) (ps : List MsgParam) (w : ℕ × List ℕ)
    → write_msg pool c h ps ≡ ok w
    → (c % 8 ≡ 0) × (length ps ≡ h.num_params) × (c + byte_size h ≤ length pool)
unfolding write_msg byte_size
write_msg-guards pool c h ps w e = ground arith

byte_size_lem : (h : MsgArgHdr) → byte_size h ≡ 32 + 32 * h.num_params
unfolding byte_size
byte_size_lem h = refl

ok-pair :
    {n m : ℕ} {xs ys : List ℕ}
    → ◌≡◌ {A = Res ProtoError (ℕ × List ℕ)} (ok (n, xs)) (ok (m, ys))
    → (m ≡ n) × (ys ≡ xs)
ok-pair e = (cc, cc)

-- When the driver's write succeeds in a pool that fits the address space, the cookie is aligned, the
-- header counts the parameters, the message lies inside the pool, and the pool in front of it and
-- behind it is what it was.
pub write_msg-frame :
    (pool : List ℕ) (c : ℕ) (h : MsgArgHdr) (ps : List MsgParam) (n : ℕ) (pool' : List ℕ)
    → length pool < 2 ^ 64
    → write_msg pool c h ps ≡ ok (n, pool')
    → (c % 8 ≡ 0)
      × (length ps ≡ h.num_params)
      × (n ≡ 32 + 32 * length ps)
      × (c + n ≤ length pool)
      × (length pool' ≡ length pool)
      × (take c pool' ≡ take c pool)
      × (drop (c + n) pool' ≡ drop (c + n) pool)
write_msg-frame pool c h ps n pool' lim e =
    let (al, count, room) = write_msg-guards pool c h ps (n, pool') e in
    let (size, pool_eq) = ok-pair (sym (write_msg-bytes pool c h ps al count room lim) ∙ e) in
    let inside = msg_room pool c h ps count room in
    let bytes = length-params_bytes ps in
    let total = byte_size_lem h in
    let end : c + length (msg_bytes h ps) + 0 ≡ c + n = omega (arith, size, total, count, bytes) in
    let behind = drop-write_at_behind pool c (msg_bytes h ps) inside 0 in
    (
      al,
      count,
      omega (arith, size, total, count),
      omega (arith, size, room),
      ap length pool_eq ∙ length-write_at pool c (msg_bytes h ps) inside,
      ap (take c) pool_eq ∙ take-write_at pool c (msg_bytes h ps) inside,
      ap₂ drop (sym end) pool_eq ∙ behind ∙ ap (λ k. drop k pool) end,
    )
