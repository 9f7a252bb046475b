-- ===== src/Client/Wire/Stamp.antt =====
-- The answer to an RPC that the hook refuses (`stamp_rpc_ret`).
use rustee.Prelude.{
  ℕ, ◌+◌, ◌-◌, ◌^◌, ◌<◌, ◌≡◌, ◌≢◌, refl, List, ◌++◌, length, take, replicate, arith, length-take,
  ok, Res-cases, inl, inr, if◌then◌else◌, ◌==◌,
}
use rustee.Bytes.{IsBytes}
use rustee.Proto.{MsgArgHdr, MsgParam, write_msg, decode_msg, byte_size, no_param}
use rustee.Proto.Messages.{HdrFits, write_msg-frame, write_msg-succeeds}
use rustee.Proto.Decoder.{decode_msg-inside}
use rustee.Proto.Decoded.{Decoded, decode_msg-Decoded, decode_msg-rewrite, take-ParamsFit}
use rustee.Client.Codes.{teec_error_communication}
use rustee.Client.Wire.{stamp_rpc_ret}

abbrev stamped : ℕ → ℕ
stamped ret = if ret == 0 then teec_error_communication else ret

stamped-nonzero : (ret : ℕ) → ret < 2 ^ 32 → (stamped ret < 2 ^ 32) × (stamped ret ≢ 0)
stamped-nonzero ret h = ground arith

module _ (pool : List ℕ) (c ret : ℕ) (h : MsgArgHdr) (ps : List MsgParam) (n : ℕ)
    (lim : length pool + 224 < 2 ^ 64) (far : c + 32 < 2 ^ 64)
    (read : decode_msg pool c ≡ ok (h, ps, n)) where
  shape : Decoded pool c h ps n
  shape = decode_msg-Decoded pool c h ps n lim far read

  abbrev own : List MsgParam
  own = take h.num_params ps

  length-own : length own ≡ h.num_params
  length-own = omega (arith, length-take h.num_params ps, shape.count, shape.six)

  abbrev failed : MsgArgHdr
  failed = record h { ret = stamped ret }

  stamped_fits : IsBytes pool → ret < 2 ^ 32 → HdrFits failed
  stamped_fits bytes rb =
      let f = shape.hdr_fits bytes in
      record {
        cmd_fits = f.cmd_fits;
        func_fits = f.func_fits;
        session_fits = f.session_fits;
        cancel_id_fits = f.cancel_id_fits;
        pad_fits = f.pad_fits;
        ret_fits = (stamped-nonzero ret rb).0;
        ret_origin_fits = f.ret_origin_fits;
        num_params_fits = f.num_params_fits;
      }

  stamp-writes :
      (m : ℕ) (pool' : List ℕ)
      → write_msg pool c failed own ≡ ok (m, pool')
      → stamp_rpc_ret pool c ret ≡ ok pool'
  unfolding stamp_rpc_ret
  stamp-writes m pool' wrote = rw (read, wrote, stamp_rpc_ret) refl

  -- When the hook refuses an RPC with a code of 32 bits, in a pool of bytes that ends well below the end
  -- of the address space, and the message at the cookie can be decoded, then the message is written
  -- again: the guest decodes the same header but for a result that is never success, the same
  -- parameters and the same size.
  pub decode_msg-stamp_rpc_ret :
      IsBytes pool
      → ret < 2 ^ 32
      → (pool' : List ℕ) × (stamp_rpc_ret pool c ret ≡ ok pool')
        × (length pool' ≡ length pool)
        × (decode_msg pool' c
            ≡ ok (
              record h { ret = if ret == 0 then teec_error_communication else ret },
              take h.num_params ps ++ replicate (6 - h.num_params) no_param,
              n,
            ))
        × ((if ret == 0 then teec_error_communication else ret) ≢ 0)
  decode_msg-stamp_rpc_ret bytes rb =
      let (pool', wrote, len, again) =
        decode_msg-rewrite pool c h ps n failed own lim shape refl length-own
          (stamped_fits bytes rb) (take-ParamsFit h.num_params ps (shape.params_fit bytes)) in
      (pool', stamp-writes n pool' wrote, len, again, (stamped-nonzero ret rb).1)

-- Whatever stands in the pool, in front of the last bytes of the address space a refusal leaves a pool
-- of the same length.
pub stamp_rpc_ret-length :
    (pool : List ℕ) (c ret : ℕ)
    → length pool + 224 < 2 ^ 64
    → c + 32 < 2 ^ 64
    → (pool' : List ℕ) × (stamp_rpc_ret pool c ret ≡ ok pool') × (length pool' ≡ length pool)
unfolding stamp_rpc_ret byte_size
stamp_rpc_ret-length pool c ret lim far = elim (Res-cases (decode_msg pool c)) [
  | inr (inr f) ↦ absurd (decode_msg-inside pool c far lim f)
  | inr (inl (e, f)) ↦ (pool, rw (f, stamp_rpc_ret) refl, refl)
  | inl ((h, ps, n), f) ↦
      let d = shape pool c ret h ps n lim far f in
      let (pool', wrote) =
        write_msg-succeeds pool c (failed pool c ret h ps n lim far f)
          (own pool c ret h ps n lim far f) d.aligned (length-own pool c ret h ps n lim far f)
          (omega (arith, d.inside, d.size)) (omega (arith, lim)) in
      let keeps =
        write_msg-frame pool c (failed pool c ret h ps n lim far f)
          (own pool c ret h ps n lim far f) _ pool' (omega (arith, lim)) wrote in
      (pool', stamp-writes pool c ret h ps n lim far f _ pool' wrote, keeps.4)
]
