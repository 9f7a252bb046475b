-- ===== src/Proto.antt =====
-- crates/rustee-proto/src/lib.rs: the wire between the REE driver and the kernel. A call is a PDU of a
-- header of 16 bytes and a frame of eight registers; the message itself lives in a shared pool, at
-- the offset that the registers 1 and 2 carry (the cookie).
use rustee.Prelude.{
  ℕ, zero, suc, ◌+◌, ◌-◌, ◌*◌, ◌/◌, ◌%◌, ◌^◌, List, [], ◌∷◌, ◌++◌, Option, none, some, Bool, true,
  false, not, length, take, drop, get_or, set, replicate, leb, ◌==◌, ◌&&◌, ◌||◌, if◌then◌else◌, Res,
  ok, err, panic, ◌>>=◌, ◌>>◌, ensure,
}
use rustee.Bytes.{to_le, bytes_at, read_u32, read_u64, write_at}
pub mod Frames
pub mod Messages
pub mod Decoder
pub mod Decoded
pub mod Tests

abbrev pub call_frame_len : ℕ
call_frame_len = 64

abbrev pub pdu_hdr_len : ℕ
pdu_hdr_len = 16

abbrev pub smc_call_with_arg : ℕ
smc_call_with_arg = 0x32000004

abbrev pub smc_return_from_rpc : ℕ
smc_return_from_rpc = 0x32000003

pub data ProtoError : Type 0 where
  truncated : ProtoError
  bad_kind : ProtoError
  bad_align : ProtoError
  bad_cmd : ProtoError
  bounce_oob : ProtoError

-- The eight registers, words of 64 bits.
pub record CallFrame : Type 0 where
  pub r : List ℕ

-- `a1 << 32 | a2 & 0xffff_ffff`: the two halves share no bit, so the or is a sum.
unfoldable pub cookie : CallFrame → ℕ
cookie f = get_or f.r 1 0 * 2 ^ 32 % 2 ^ 64 + get_or f.r 2 0 % 2 ^ 32

unfoldable pub set_cookie : CallFrame → ℕ → CallFrame
set_cookie f c = record { r = set (set f.r 1 (c / 2 ^ 32)) 2 (c % 2 ^ 32) }

-- A frame of zeros with the call's number in register 0.
unfoldable pub yielding_enter : ℕ → CallFrame
unfolding set_cookie
yielding_enter c = set_cookie (record { r = set (replicate 8 0) 0 smc_call_with_arg }) c

unfoldable pub return_from_rpc : ℕ → CallFrame
unfolding set_cookie
return_from_rpc c = set_cookie (record { r = set (replicate 8 0) 0 smc_return_from_rpc }) c

-- Each register in turn, eight bytes.
unfoldable pub encode_words : List ℕ → List ℕ
encode_words [] = []
encode_words (w ∷ ws) = to_le 8 w ++ encode_words ws

unfoldable pub encode_frame : CallFrame → List ℕ
unfolding encode_words
encode_frame f = encode_words f.r

-- `for i in 0..8`, from register `i` on with `count` of them left.
unfoldable pub decode_words : List ℕ → ℕ → ℕ → List ℕ
decode_words b i zero = []
decode_words b i (suc count) = read_u64 b (i * 8) ∷ decode_words b (i + 1) count

unfoldable pub decode_frame : List ℕ → Res ProtoError CallFrame
unfolding decode_words
decode_frame b = do
  ensure (leb call_frame_len (length b)) truncated
  ok (record { r = decode_words b 0 8 })

pub record PduHeader : Type 0 where
  pub kind : ℕ
  pub seq : ℕ
  pub arg_len : ℕ
  pub bounce_len : ℕ

unfoldable pub yielding : ℕ → ℕ → ℕ → PduHeader
yielding kind seq bounce_len = record {
  kind = kind;
  seq = seq;
  arg_len = call_frame_len;
  bounce_len = bounce_len;
}

unfoldable pub encode_pdu : PduHeader → List ℕ
encode_pdu h = to_le 4 h.kind ++ (to_le 4 h.seq ++ (to_le 4 h.arg_len ++ to_le 4 h.bounce_len))

-- ENTER, RPC, COMPLETE and RPC_REPLY.
unfoldable pub is_kind : ℕ → Bool
is_kind k = k == 1 || (k == 2 || (k == 3 || k == 4))

unfoldable pub decode_pdu : List ℕ → Res ProtoError PduHeader
decode_pdu b = do
  ensure (leb pdu_hdr_len (length b)) truncated
  ensure (is_kind (read_u32 b 0)) bad_kind
  ensure (read_u32 b 8 == call_frame_len) truncated
  ok (record {
    kind = read_u32 b 0;
    seq = read_u32 b 4;
    arg_len = read_u32 b 8;
    bounce_len = read_u32 b 12;
  })

pub record MsgArgHdr : Type 0 where
  pub cmd : ℕ
  pub func : ℕ
  pub session : ℕ
  pub cancel_id : ℕ
  pub pad : ℕ
  pub ret : ℕ
  pub ret_origin : ℕ
  pub num_params : ℕ

pub record MsgParam : Type 0 where
  pub attr : ℕ
  pub a : ℕ
  pub b : ℕ
  pub c : ℕ

-- The eight words that `encode` writes one behind the other.
abbrev pub hdr_bytes : MsgArgHdr → List ℕ
hdr_bytes h =
    to_le 4 h.cmd
    ++ (to_le 4 h.func
        ++ (to_le 4 h.session
            ++ (to_le 4 h.cancel_id
                ++ (to_le 4 h.pad
                    ++ (to_le 4 h.ret ++ (to_le 4 h.ret_origin ++ to_le 4 h.num_params))))))

unfoldable pub encode_hdr : MsgArgHdr → List ℕ → Res ProtoError (List ℕ)
encode_hdr h out = do ensure (leb 32 (length out)) truncated; ok (write_at out 0 (hdr_bytes h))

unfoldable pub decode_hdr : List ℕ → Res ProtoError MsgArgHdr
decode_hdr b = do
  ensure (leb 32 (length b)) truncated
  ok (record {
    cmd = read_u32 b 0;
    func = read_u32 b 4;
    session = read_u32 b 8;
    cancel_id = read_u32 b 12;
    pad = read_u32 b 16;
    ret = read_u32 b 20;
    ret_origin = read_u32 b 24;
    num_params = read_u32 b 28;
  })

unfoldable pub byte_size : MsgArgHdr → ℕ
byte_size h = 32 + 32 * h.num_params

abbrev pub param_bytes : MsgParam → List ℕ
param_bytes p = to_le 8 p.attr ++ (to_le 8 p.a ++ (to_le 8 p.b ++ to_le 8 p.c))

unfoldable pub encode_param : MsgParam → List ℕ → Res ProtoError (List ℕ)
encode_param p out = do ensure (leb 32 (length out)) truncated; ok (write_at out 0 (param_bytes p))

unfoldable pub decode_param : List ℕ → Res ProtoError MsgParam
decode_param b = do
  ensure (leb 32 (length b)) truncated
  ok (record { attr = read_u64 b 0; a = read_u64 b 8; b = read_u64 b 16; c = read_u64 b 24 })

-- `&mut pool[s..s + 32]` handed to an encoder, and the pool after it; a panic outside the pool.
unfoldable pub encode_at : List ℕ → ℕ → (List ℕ → Res ProtoError (List ℕ)) → Res ProtoError (List ℕ)
encode_at pool s encode = do
  slice ← if leb (s + 32) (length pool) then ok (bytes_at pool s 32) else panic
  written ← encode slice
  ok (write_at pool s written)

-- The loop over the parameters, the next of them at `s`.
unfoldable pub write_params : List ℕ → ℕ → List MsgParam → Res ProtoError (List ℕ)
unfolding encode_at encode_param
write_params pool s [] = ok pool
write_params pool s (p ∷ ps) = do
  pool' ← encode_at pool s (encode_param p)
  write_params pool' (s + 32) ps

-- The size written, and the pool after the call.
unfoldable pub write_msg : List ℕ → ℕ → MsgArgHdr → List MsgParam → Res ProtoError (ℕ × List ℕ)
unfolding byte_size encode_at encode_hdr write_params
write_msg pool c hdr params = do
  ensure (c % 8 == 0) bad_align
  ensure (length params == hdr.num_params) bad_cmd
  ensure (leb (c + byte_size hdr) (2 ^ 64 - 1) && leb (c + byte_size hdr) (length pool)) bounce_oob
  pool' ← encode_at pool c (encode_hdr hdr)
  pool'' ← write_params pool' (c + 32) params
  ok (byte_size hdr, pool'')

-- `&pool[s..]`
unfoldable pub slice_from : List ℕ → ℕ → Res ProtoError (List ℕ)
slice_from pool s = if leb s (length pool) then ok (drop s pool) else panic

-- The loop over the parameters, the next of them at `s`, with `count` left.
unfoldable pub read_params : List ℕ → ℕ → ℕ → Res ProtoError (List MsgParam)
unfolding slice_from decode_param
read_params pool s zero = ok []
read_params pool s (suc count) = do
  b ← slice_from pool s
  p ← decode_param b
  ps ← read_params pool (s + 32) count
  ok (p ∷ ps)

abbrev pub no_param : MsgParam
no_param = record { attr = 0; a = 0; b = 0; c = 0 }

-- The header, the buffer of six parameters and the size. `usize` wraps, as in a release build; behind
-- the second bound no offset does.
unfoldable pub decode_msg : List ℕ → ℕ → Res ProtoError (MsgArgHdr × List MsgParam × ℕ)
unfolding byte_size slice_from decode_hdr read_params
decode_msg pool c = do
  ensure (c % 8 == 0) bad_align
  ensure (leb ((c + 32) % 2 ^ 64) (length pool)) bounce_oob
  b ← slice_from pool c
  hdr ← decode_hdr b
  ensure (leb hdr.num_params 6) bad_cmd
  ensure (leb ((c + byte_size hdr) % 2 ^ 64) (length pool)) bounce_oob
  params ← read_params pool (c + 32) hdr.num_params
  ok (hdr, params ++ replicate (6 - hdr.num_params) no_param, byte_size hdr)

-- The fast calls that are answered without the kernel: four words.
unfoldable pub answer_fast_smccc : ℕ → Option (List ℕ)
answer_fast_smccc a0 =
    if a0 == 0xBF00FF01
    then some (0x384fb3e0 ∷ 0xe7f811e3 ∷ 0xaf630002 ∷ 0xa5d5c51b ∷ [])
    else if a0 == 0xBF00FF03
    then some (2 ∷ 0 ∷ 0 ∷ 0 ∷ [])
    else if a0 == 0xB2000000
    then some (0xe819d7df ∷ 0x5ffe45e6 ∷ 0xa1133233 ∷ 0x49b219aa ∷ [])
    else if a0 == 0xB2000001
    then some (0 ∷ 1 ∷ 0 ∷ 0 ∷ [])
    else if a0 == 0xB2000009
    then some (0 ∷ 22 ∷ 0 ∷ 0 ∷ [])
    else if a0 == 0xB2000007
    then some (7 ∷ 0 ∷ 0 ∷ 0 ∷ [])
    else if a0 == 0xB200000F
    then some (0 ∷ 1 ∷ 0 ∷ 0 ∷ [])
    else none
