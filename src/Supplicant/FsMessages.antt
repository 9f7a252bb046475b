-- ===== src/Supplicant/FsMessages.antt =====
-- File operations by message (`RPC_CMD_FS` in `handle_msg` of host/rustee-supplicant/src/lib.rs): what the
-- answer tells.
use rustee.Prelude.{
  ℕ, ◌+◌, ◌-◌, ◌%◌, ◌^◌, ◌<◌, ◌≡◌, refl, ap, ap₂, ◌∙◌, sym, List, [], ◌++◌, Bool, true, false,
  length, take, leb, ◌==◌, get_or, set, arith, replicate, Res, ok, err, ensure, ◌>>>◌, >>>-eq-ok,
  pure_step, then_step, length-take, if◌then◌else◌,
}
use rustee.Bytes.{IsBytes}
use rustee.Proto.{MsgArgHdr, MsgParam, no_param, write_msg, decode_msg}
use rustee.Proto.Decoded.{decode_msg-Decoded, decode_msg-rewrite, take-ParamsFit}
use rustee.Supplicant.{Host, SuppError, bad_cmd, is_open, fs}
use rustee.Supplicant.Messages.{
  Desk, DeskIo, handle_msg, answer_msg, msg_fs, msg_params, msg_load_ta, msg_get_time, put_answer,
  put_msg, put_written, with_supp, map_err, name_from_tmem,
}

ok-value : {A : Type 0} {a b : A} → ◌≡◌ {A = Res SuppError A} (ok a) (ok b) → a ≡ b
ok-value e = cc

module _ {W F D : Type 0} (h : Host W F D) where
  handle-answer :
      (c : ℕ) (desk : Desk W F D) (hdr : MsgArgHdr) (ps : List MsgParam) (n : ℕ)
      → decode_msg desk.bounce c ≡ ok (hdr, ps, n)
      → handle_msg h c desk ≡ answer_msg h c hdr ps n desk
  unfolding handle_msg
  handle-answer c desk hdr ps n read =
      ap (λ r. then_step (map_err bad_cmd r, desk) (λ m. answer_msg h c m.0 m.1 m.2)) read

  -- The operations on what is open already leave the message's parameters and the bounce buffer alone.
  msg_fs-same :
      (params ps : List MsgParam) (n : ℕ) (desk desk' : Desk W F D)
      → is_open ((get_or params 0 no_param).a % 2 ^ 32) ≡ false
      → msg_fs h params n desk ≡ (ok ps, desk')
      → (ps ≡ params) × (desk'.bounce ≡ desk.bounce)
  unfolding msg_fs
  msg_fs-same params ps n desk desk' shut e =
      let (out, d1, ran, e1) =
        >>>-eq-ok
          (with_supp h (
            fs h ((get_or params 0 no_param).a % 2 ^ 32)
              (name_from_tmem h.from_utf8_lossy desk.bounce params n)
              ((get_or params 0 no_param).b % 2 ^ 32) ((get_or params 0 no_param).c % 2 ^ 32) []))
          (λ out. pure_step (
            ok (
              if is_open ((get_or params 0 no_param).a % 2 ^ 32)
              then set params 0 (record (get_or params 0 no_param) { b = out.0 })
              else params)))
          desk desk' ps e in
      (
        ok-value (
            sym (ap (λ o. o.0) e1)
            ∙ ap
                (λ b. ok (
                  if b
                  then set params 0 (record (get_or params 0 no_param) { b = out.0 })
                  else params))
                shut),
        ap (λ o. o.1.bounce) (sym e1) ∙ ap (λ o. o.1.bounce) (sym ran),
      )

  put_msg-written :
      (c : ℕ) (hdr : MsgArgHdr) (ps : List MsgParam) (n : ℕ) (pool : List ℕ)
      (desk desk' : Desk W F D)
      → write_msg desk.bounce c hdr ps ≡ ok (n, pool)
      → put_msg h c hdr ps desk ≡ (ok tt, desk')
      → desk'.bounce ≡ pool
  unfolding put_msg
  put_msg-written c hdr ps n pool desk desk' wrote e =
      ap (λ o. o.1.bounce) (sym e ∙ ap (λ r. put_written h r desk) wrote)

  ensure-step :
      {A : Type 0} (test : Bool) (f : DeskIo W F D A) (v : A) (desk d1 : Desk W F D)
      → (pure_step (ensure test bad_cmd) >>> λ _. f) desk ≡ (ok v, d1)
      → f desk ≡ (ok v, d1)
  ensure-step true f v desk d1 e = e
  ensure-step false f v desk d1 e = absurd cc

  msg_params-fs :
      (hdr : MsgArgHdr) (ps ps' : List MsgParam) (desk d1 : Desk W F D)
      → hdr.cmd ≡ 2
      → msg_params h hdr ps desk ≡ (ok ps', d1)
      → msg_fs h ps hdr.num_params desk ≡ (ok ps', d1)
  unfolding msg_params
  msg_params-fs hdr ps ps' desk d1 is e =
      let g0 : (hdr.cmd == 3) ≡ false = ground (arith, is) in
      let g1 : (hdr.cmd == 2) ≡ true = ground (arith, is) in
      let time = pure_step (ensure (leb 1 hdr.num_params) bad_cmd) >>> λ _. msg_get_time h ps in
      let files =
        pure_step (ensure (leb 1 hdr.num_params) bad_cmd) >>> λ _. msg_fs h ps hdr.num_params in
      let same : msg_params h hdr ps desk ≡ files desk =
        ap (λ b. (if b then time else if hdr.cmd == 2 then files else pure_step (err bad_cmd)) desk)
          g0
        ∙ ap (λ b. (if b then files else pure_step (err bad_cmd)) desk) g1 in
      ensure-step (leb 1 hdr.num_params) (msg_fs h ps hdr.num_params) ps' desk d1 (sym same ∙ e)

  answer-fs :
      (c : ℕ) (hdr : MsgArgHdr) (ps : List MsgParam) (n m : ℕ) (desk desk' : Desk W F D)
      → hdr.cmd ≡ 2
      → answer_msg h c hdr ps n desk ≡ (ok m, desk')
      → (ps' : List MsgParam) × (d1 : Desk W F D) × (msg_params h hdr ps desk ≡ (ok ps', d1))
        × (put_answer h c hdr n ps' d1 ≡ (ok m, desk'))
  unfolding answer_msg
  answer-fs c hdr ps n m desk desk' is e =
      let g : (hdr.cmd == 0) ≡ false = ground (arith, is) in
      let same : answer_msg h c hdr ps n desk
          ≡ (msg_params h hdr ps >>> put_answer h c hdr n) desk =
        ap
          (λ b.
            (if b
                then (pure_step (ensure (leb 1 hdr.num_params) bad_cmd) >>> λ _.
                    msg_load_ta h c hdr ps n)
                else (msg_params h hdr ps >>> put_answer h c hdr n))
              desk)
          g in
      >>>-eq-ok (msg_params h hdr ps) (put_answer h c hdr n) desk desk' m (sym same ∙ e)

  -- A file operation by message that does not open a file and comes through, in a bounce buffer of bytes
  -- that ends well below the end of the address space, answers with the request: the kernel decodes the
  -- header and the parameters that it has sent, with neither the number nor the bytes of the operation.
  pub handle_msg-fs :
      (c : ℕ) (desk desk' : Desk W F D) (hdr : MsgArgHdr) (ps : List MsgParam) (n m : ℕ)
      → IsBytes desk.bounce
      → length desk.bounce + 224 < 2 ^ 64
      → c + 32 < 2 ^ 64
      → decode_msg desk.bounce c ≡ ok (hdr, ps, n)
      → hdr.cmd ≡ 2
      → is_open ((get_or ps 0 no_param).a % 2 ^ 32) ≡ false
      → handle_msg h c desk ≡ (ok m, desk')
      → decode_msg desk'.bounce c
        ≡ ok (hdr, take hdr.num_params ps ++ replicate (6 - hdr.num_params) no_param, n)
  unfolding put_answer
  handle_msg-fs c desk desk' hdr ps n m bytes lim far read is shut e =
      let (ps', d1, got, put) =
        answer-fs c hdr ps n m desk desk' is (sym (handle-answer c desk hdr ps n read) ∙ e) in
      let (same, kept) =
        msg_fs-same ps ps' hdr.num_params desk d1 shut (msg_params-fs hdr ps ps' desk d1 is got) in
      let (done, d2, wrote, last) =
        >>>-eq-ok (put_msg h c hdr (take hdr.num_params ps')) (λ _. pure_step (ok (n % 2 ^ 32))) d1
          desk' m put in
      let d = decode_msg-Decoded desk.bounce c hdr ps n lim far read in
      let own = take hdr.num_params ps in
      let count : length own ≡ hdr.num_params =
        omega (arith, length-take hdr.num_params ps, d.six, d.count) in
      let (pool', rewritten, _, again) =
        decode_msg-rewrite desk.bounce c hdr ps n hdr own lim d refl count (d.hdr_fits bytes)
          (take-ParamsFit hdr.num_params ps (d.params_fit bytes)) in
      let there : write_msg d1.bounce c hdr (take hdr.num_params ps') ≡ ok (n, pool') =
        ap₂ (λ b l. write_msg b c hdr (take hdr.num_params l)) kept same ∙ rewritten in
      let final : desk'.bounce ≡ pool' =
        ap (λ o. o.1.bounce) (sym last)
        ∙ put_msg-written c hdr (take hdr.num_params ps') n pool' d1 d2 there wrote in
      ap (λ b. decode_msg b c) final ∙ again
