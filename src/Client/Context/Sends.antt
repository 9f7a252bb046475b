-- ===== src/Client/Context/Sends.antt =====
-- What the client's operations give the transport is what the guest (guest/rustee-guest/src/proto_cmd.rs)
-- makes a command of.
use rustee.Prelude.{
  ℕ, ◌+◌, ◌-◌, ◌*◌, ◌/◌, ◌%◌, ◌^◌, ◌<◌, ◌≤◌, ◌≡◌, refl, ap, ◌∙◌, sym, List, [], ◌∷◌, true, length,
  ltb, leb, arith, take, replicate, if◌then◌else◌, ok, err, ◌>>>◌, pure_step, le→leb, lt→ltb,
  >>=-eq-ok, ◌>>=◌, ◌==◌,
}
use rustee.Bytes.Laws.{take-exact}
use rustee.Os.Abi.{KernelCmd, public, no_params}
use rustee.Proto.{MsgArgHdr, MsgParam, write_msg, decode_msg, byte_size, no_param}
use rustee.Proto.Messages.{HdrFits, ParamsFit, decode_msg-write_msg}
use rustee.Guest.{
  decode_cmd, command_of, map_err, uuid_from_words, open_uuid, fill, tee_timeout_infinite,
}
use rustee.Client.Loopback.{Transport}
use rustee.Client.Context.{
  Context, Uuid, alloc, put_msg, put_written, call, get_msg, words, open_session, invoke, no_hdr,
}
use rustee.Client.Context.Pool.{Fine}

module _ {T : Type 0} where
  abbrev pub aligned : Context T → ℕ
  aligned ctx = (ctx.bump + 7) / 8 * 8

  alloc-room :
      (len : ℕ) (ctx : Context T)
      → Fine ctx
      → ctx.bump + 7 + len ≤ length ctx.bounce
      → alloc len 8 ctx ≡ (ok (aligned ctx), record ctx { bump = aligned ctx + len })
  unfolding alloc
  alloc-room len ctx fine room =
      let wraps : (ctx.bump + 8 - 1) / 8 * 8 % 2 ^ 64 ≡ aligned ctx = omega (arith, room, fine.1) in
      let g : ltb (aligned ctx + len) (2 ^ 64) ≡ true = lt→ltb _ _ (omega (arith, room, fine.1)) in
      let h : leb (aligned ctx + len) (length ctx.bounce) ≡ true =
        le→leb _ _ (omega (arith, room)) in
      rw (wraps, g, h) refl

  -- A message that fits is in the pool that the guest reads.
  put_msg-decode :
      (c : ℕ) (hdr : MsgArgHdr) (ps : List MsgParam) (ctx : Context T)
      → Fine ctx
      → c % 8 ≡ 0
      → length ps ≡ hdr.num_params
      → length ps ≤ 6
      → c + byte_size hdr ≤ length ctx.bounce
      → HdrFits hdr
      → ParamsFit ps
      → (n : ℕ) × (pool : List ℕ) × (put_msg c hdr ps ctx ≡ (ok n, record ctx { bounce = pool }))
        × (decode_cmd pool c ≡ command_of hdr ps)
  unfolding put_msg decode_cmd
  put_msg-decode c hdr ps ctx fine al count six room hf pf =
      let (w, wrote, read) =
        >>=-eq-ok (write_msg ctx.bounce c hdr ps) (λ w. decode_msg w.1 c)
          (decode_msg-write_msg ctx.bounce c hdr ps al count room hf pf six
            (omega (arith, fine.1))) in
      (
        w.0,
        w.1,
        ap (λ r. put_written r ctx) wrote,
        ap (λ r. map_err (λ e. tt) r >>= λ m. command_of m.0 (take m.0.num_params m.1)) read
            ∙ ap (command_of hdr)
                (take-exact ps (replicate (6 - length ps) no_param) hdr.num_params (sym count)),
      )

module _ {T : Type 0} (k : Transport T) (ctx : Context T) (fine : Fine ctx) where
  -- In a context with forty bytes left, an invocation on a session with a command, both of 32 bits, puts
  -- a message into the bounce buffer of which the guest makes the invocation of that session with that
  -- command and four empty parameters, and calls the transport at the message's cookie. When the
  -- transport returns, the operation comes through, whatever the message then says.
  pub invoke-sends :
      (session cmd : ℕ)
      → session < 2 ^ 32
      → cmd < 2 ^ 32
      → ctx.bump + 40 ≤ length ctx.bounce
      → (n : ℕ) × (pool : List ℕ) × (decode_cmd pool (aligned ctx)
          ≡ ok (KernelCmd.invoke session cmd no_params 0 tee_timeout_infinite))
        × (invoke k session cmd ctx
            ≡ (call k (aligned ctx) n >>> λ _. pure_step (ok tt))
                (record ctx { bounce = pool; bump = aligned ctx + 32 }))
  unfolding invoke command_of fill byte_size
  invoke-sends session cmd sb cb room =
      let hdr : MsgArgHdr = record no_hdr { cmd = 1; func = cmd; session = session } in
      let ctx1 : Context T = record ctx { bump = aligned ctx + 32 } in
      let given = alloc-room 32 ctx fine (omega (arith, room)) in
      let (n, pool, put, read) =
        put_msg-decode (aligned ctx) hdr [] ctx1 (omega (arith, room), fine.1) (omega arith) refl
          (omega arith) (omega (arith, room))
          (record {
            cmd_fits = omega arith;
            func_fits = cb;
            session_fits = sb;
            cancel_id_fits = omega arith;
            pad_fits = omega arith;
            ret_fits = omega arith;
            ret_origin_fits = omega arith;
            num_params_fits = omega arith;
          })
          tt in
      (n, pool, read, rw (given, put) refl)

  -- In a context with 104 bytes left, opening a session with a UUID whose words fit and with any login
  -- puts a message into the bounce buffer of which the guest makes the opening of a session with the UUID
  -- of these words, four empty parameters and the public login, and calls the transport at the message's
  -- cookie. The answer is the session or the result that the message holds when the transport returns.
  pub open_session-sends :
      (dest : Uuid) (login : ℕ)
      → (words dest).0 < 2 ^ 64
      → (words dest).1 < 2 ^ 64
      → login < 2 ^ 32
      → ctx.bump + 104 ≤ length ctx.bounce
      → (n : ℕ) × (pool : List ℕ) × (decode_cmd pool (aligned ctx)
          ≡ ok (
              KernelCmd.open_session
                (uuid_from_words (words dest).0 (words dest).1)
                public
                no_params
                0
                tee_timeout_infinite))
        × (open_session k dest login ctx
            ≡ (call k (aligned ctx) n >>> λ _. get_msg (aligned ctx) >>> λ out.
                  pure_step (if out.0.ret == 0 then ok out.0.session else err out.0.ret))
                (record ctx { bounce = pool; bump = aligned ctx + 64 }))
  unfolding open_session command_of fill open_uuid byte_size
  open_session-sends dest login hb lb gb room =
      let hdr : MsgArgHdr = record no_hdr { cmd = 0; num_params = 2 } in
      let ps : List MsgParam =
        record { attr = 0x101; a = (words dest).0; b = (words dest).1; c = 0 }
        ∷ record { attr = 0x101; a = 0; b = 0; c = login }
        ∷ [] in
      let ctx1 : Context T = record ctx { bump = aligned ctx + 64 } in
      let given = alloc-room 64 ctx fine (omega (arith, room)) in
      let (n, pool, put, read) =
        put_msg-decode (aligned ctx) hdr ps ctx1 (omega (arith, room), fine.1) (omega arith) refl
          (omega arith) (omega (arith, room))
          (record {
            cmd_fits = omega arith;
            func_fits = omega arith;
            session_fits = omega arith;
            cancel_id_fits = omega arith;
            pad_fits = omega arith;
            ret_fits = omega arith;
            ret_origin_fits = omega arith;
            num_params_fits = omega arith;
          })
          (
            (omega arith, hb, lb, omega arith),
            ((omega arith, omega arith, omega arith, omega (arith, gb)), tt),
          ) in
      (n, pool, read, rw (given, put) refl)
