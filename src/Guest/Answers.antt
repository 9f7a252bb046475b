-- ===== src/Guest/Answers.antt =====
-- The answer to a command in the message of the pool (`write_done`).
use rustee.Prelude.{
  ℕ, suc, ◌+◌, ◌-◌, ◌^◌, ◌<◌, ◌≡◌, refl, ap, ap₂, List, [], ◌∷◌, ◌++◌, map, length, take, replicate,
  ltb, get_or, arith, length-take, ok, Bool-cases, inl, inr,
}
use rustee.Bytes.{IsBytes}
use rustee.Os.Abi.{Param, empty, value, memref, dir_in, dir_out, dir_inout}
use rustee.Proto.{MsgArgHdr, MsgParam, write_msg, decode_msg, no_param}
use rustee.Proto.Messages.{ParamsFit}
use rustee.Proto.Decoded.{decode_msg-Decoded, decode_msg-rewrite, take-ParamsFit}
use rustee.Guest.{is_meta}
use rustee.Guest.Rpc.{put_size, put_sizes, done_hdr, write_done}

-- All of a parameter but its second word.
abbrev pub kept : MsgParam → ℕ × ℕ × ℕ
kept p = (p.attr, p.a, p.c)

-- Sizes of 64 bits.
abbrev pub SizeFits : Param → Type 0
SizeFits (memref src size dir) = size < 2 ^ 64
SizeFits (value a b dir) = Unit
SizeFits empty = Unit

abbrev Fits : MsgParam → Type 0
Fits p = (p.attr < 2 ^ 64) × (p.a < 2 ^ 64) × (p.b < 2 ^ 64) × (p.c < 2 ^ 64)

put_size-kept : (q : Param) (p : MsgParam) → kept (put_size q p) ≡ kept p
unfolding put_size
put_size-kept (memref src size dir_in) p = refl
put_size-kept (memref src size dir_out) p = refl
put_size-kept (memref src size dir_inout) p = refl
put_size-kept (value a b dir) p = refl
put_size-kept empty p = refl

put_size-Fits : (q : Param) (p : MsgParam) → SizeFits q → Fits p → Fits (put_size q p)
unfolding put_size
put_size-Fits (memref src size dir_in) p h f = f
put_size-Fits (memref src size dir_out) p h f = (f.0, f.1, h, f.3)
put_size-Fits (memref src size dir_inout) p h f = (f.0, f.1, h, f.3)
put_size-Fits (value a b dir) p h f = f
put_size-Fits empty p h f = f

module _ (produced : List Param) (sizes : (i : ℕ) → SizeFits (get_or produced i empty)) where
  -- The loop keeps the number of parameters, all but their second words, and their widths.
  put_sizes-kept :
      (ui : ℕ) (ps : List MsgParam)
      → ParamsFit ps
      → (length (put_sizes produced ui ps) ≡ length ps)
        × (map kept (put_sizes produced ui ps) ≡ map kept ps)
        × ParamsFit (put_sizes produced ui ps)
  unfolding put_sizes
  put_sizes-kept ui [] f = (refl, refl, tt)
  put_sizes-kept ui (p ∷ ps) f = elim (Bool-cases (is_meta p)) [
    | inl m ↦
        let (len, same, fits) = put_sizes-kept ui ps f.1 in
        rw m (ap suc len, ap (λ l. kept p ∷ l) same, (f.0, fits))
    | inr m ↦ elim (Bool-cases (ltb ui 4)) [
      | inl g ↦
          let q = get_or produced ui empty in
          let (len, same, fits) = put_sizes-kept (ui + 1) ps f.1 in
          rw (m, g)
            (ap suc len, ap₂ ◌∷◌ (put_size-kept q p) same, (put_size-Fits q p (sizes ui) f.0, fits))
      | inr g ↦
          let (len, same, fits) = put_sizes-kept ui ps f.1 in
          rw (m, g) (ap suc len, ap (λ l. kept p ∷ l) same, (f.0, fits))
    ]
  ]

write_done-writes :
    (pool : List ℕ) (c : ℕ) (h : MsgArgHdr) (ps : List MsgParam) (n ret origin session : ℕ)
    (produced : List Param) (m : ℕ) (pool' : List ℕ)
    → decode_msg pool c ≡ ok (h, ps, n)
    → write_msg pool c (done_hdr h ret origin session) (put_sizes produced 0 (take h.num_params ps))
      ≡ ok (m, pool')
    → write_done pool c ret origin session produced ≡ ok pool'
unfolding write_done
write_done-writes pool c h ps n ret origin session produced m pool' read wrote =
    rw (read, wrote, write_done) refl

-- A result, an origin and a session of 32 bits and parameters whose sizes have 64 bits, written into a
-- message that is decoded from a pool of bytes which ends well below the end of the address space: the
-- client decodes the same message with that result, origin and session. Of its parameters, every word
-- but the second is as it was: no value that the TA has produced gets into a first word.
pub decode_msg-write_done :
    (pool : List ℕ) (c : ℕ) (h : MsgArgHdr) (ps : List MsgParam) (n ret origin session : ℕ)
    (produced : List Param)
    → IsBytes pool
    → length pool + 224 < 2 ^ 64
    → c + 32 < 2 ^ 64
    → decode_msg pool c ≡ ok (h, ps, n)
    → ret < 2 ^ 32
    → origin < 2 ^ 32
    → session < 2 ^ 32
    → ((i : ℕ) → SizeFits (get_or produced i empty))
    → (pool' : List ℕ) × (ps' : List MsgParam) × (write_done pool c ret origin session produced
        ≡ ok pool')
      × (decode_msg pool' c
          ≡ ok (
            record h { ret = ret; ret_origin = origin; session = session },
            ps' ++ replicate (6 - h.num_params) no_param,
            n,
          ))
      × (map kept ps' ≡ map kept (take h.num_params ps))
decode_msg-write_done pool c h ps n ret origin session produced bytes lim far read rb ob sb sizes =
    let d = decode_msg-Decoded pool c h ps n lim far read in
    let own = take h.num_params ps in
    let count = length-take h.num_params ps in
    let (len, same, fits) =
      put_sizes-kept produced sizes 0 own (take-ParamsFit h.num_params ps (d.params_fit bytes)) in
    let f = d.hdr_fits bytes in
    let (pool', wrote, _, again) =
      decode_msg-rewrite pool c h ps n (done_hdr h ret origin session) (put_sizes produced 0 own)
        lim d refl (omega (arith, len, count, d.count, d.six))
        (record {
          cmd_fits = f.cmd_fits;
          func_fits = f.func_fits;
          session_fits = sb;
          cancel_id_fits = f.cancel_id_fits;
          pad_fits = f.pad_fits;
          ret_fits = rb;
          ret_origin_fits = ob;
          num_params_fits = f.num_params_fits;
        })
        fits in
    (
      pool',
      put_sizes produced 0 own,
      write_done-writes pool c h ps n ret origin session produced n pool' read wrote,
      again,
      same,
    )
