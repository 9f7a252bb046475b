-- ===== src/Client/Context/Requests.antt =====
-- Any sequence of the client's operations: what they take of the bounce buffer bounds how many succeed.
use rustee.Prelude.{
  ℕ, ◌+◌, ◌*◌, ◌%◌, ◌^◌, ◌<◌, ◌≤◌, ◌≡◌, refl, List, [], ◌∷◌, length, max, arith, Res, ok, err,
  panic,
}
use rustee.Proto.{CallFrame}
use rustee.Client.Loopback.{Transport}
use rustee.Client.Context.{
  Context, Uuid, alloc, call, open_session, invoke, invoke_shm, shm_alloc, shm_send, shm_receive,
  close_session, register_shm, unregister_shm,
}
use rustee.Client.Context.Pool.{
  Fine, Took, Takes, Outcome, >>>-Takes, pure-Takes, quiet-Takes, alloc_8-Takes, alloc_page-Takes,
  put_msg-Takes, get_msg-Takes, put_bytes-Takes, get_bytes-Takes, less-Takes,
}

-- `enter` is given a slice, so it cannot change the length of the bounce buffer.
abbrev pub KeepsLength : {T : Type 0} → Transport T → Type 0
KeepsLength k =
    (t : _) (f : CallFrame) (b : List ℕ) (n : ℕ)
    → length b < 2 ^ 64
    → length (k.enter t f b n).1 ≡ length b

-- The operations of the context, with their arguments.
pub data Request : Type 0 where
  opens : Uuid → ℕ → Request
  invokes : ℕ → ℕ → Request
  shares : ℕ → ℕ → List ℕ → List ℕ → Request
  closes : ℕ → Request
  registers : ℕ → Request
  unregisters : ℕ → Request

abbrev came_through : {A : Type 0} → Res ℕ A → ℕ
came_through (ok v) = 1
came_through (err e) = 0
came_through panic = 0

module _ {T : Type 0} (k : Transport T) where
  -- Whether the operation came through and took memory, and the context after it.
  unfoldable pub serve : Request → Context T → ℕ × Context T
  unfolding open_session invoke invoke_shm close_session register_shm unregister_shm
  serve (opens dest login) ctx = let r = open_session k dest login ctx in (came_through r.0, r.1)
  serve (invokes session cmd) ctx = let r = invoke k session cmd ctx in (came_through r.0, r.1)
  serve (shares session cmd src dst) ctx =
      let r = invoke_shm k session cmd src dst ctx in (came_through r.0, r.1)
  serve (closes session) ctx = let r = close_session k session ctx in (came_through r.0, r.1)
  serve (registers size) ctx = let r = register_shm k size ctx in (came_through r.0, r.1)
  serve (unregisters cookie) ctx = (0, (unregister_shm k cookie ctx).1)

  -- How many operations of a sequence came through, and the context at the end.
  unfoldable pub serve_all : List Request → Context T → ℕ × Context T
  unfolding serve
  serve_all [] ctx = (0, ctx)
  serve_all (r ∷ rs) ctx =
      let one = serve r ctx in let more = serve_all rs one.1 in (one.0 + more.0, more.1)

module _ {T : Type 0} (k : Transport T) (keeps : KeepsLength k) where
  any_alloc-Takes : (len : ℕ) → Takes 0 (alloc {T = T} len 8)
  any_alloc-Takes len = less-Takes 0 len _ (omega arith) (alloc_8-Takes len)

  call-Takes : (c n : ℕ) → Takes 0 (call k c n)
  unfolding call
  call-Takes c n ctx fine =
      quiet-Takes ctx (call k c n ctx)
        (keeps ctx.transport _ ctx.bounce (n % 2 ^ 32) (omega (arith, fine.1)), omega arith, fine.0)

  invoke-Takes : (session cmd : ℕ) → Takes 32 (invoke k session cmd)
  unfolding invoke
  invoke-Takes session cmd = >>>-Takes 32 0 _ _ (alloc_8-Takes 32) λ c.
      >>>-Takes 0 0 _ _ (put_msg-Takes c _ [])
        λ n. >>>-Takes 0 0 _ _ (call-Takes c n) λ _. pure-Takes (ok tt)

  close_session-Takes : (session : ℕ) → Takes 32 (close_session k session)
  unfolding close_session
  close_session-Takes session = >>>-Takes 32 0 _ _ (alloc_8-Takes 32) λ c.
      >>>-Takes 0 0 _ _ (put_msg-Takes c _ [])
        λ n. >>>-Takes 0 0 _ _ (call-Takes c n) λ _. pure-Takes (ok tt)

  open_session-Takes : (dest : Uuid) (login : ℕ) → Takes 64 (open_session k dest login)
  unfolding open_session
  open_session-Takes dest login = >>>-Takes 64 0 _ _ (alloc_8-Takes 64) λ c.
      >>>-Takes 0 0 _ _ (put_msg-Takes c _ _) λ n.
        >>>-Takes 0 0 _ _ (call-Takes c n)
          λ _. >>>-Takes 0 0 _ _ (get_msg-Takes c) λ out. pure-Takes _

  register_shm-Takes : (size : ℕ) → Takes 4096 (register_shm k size)
  unfolding register_shm
  register_shm-Takes size = >>>-Takes 0 4096 _ _ (pure-Takes _) λ _.
      >>>-Takes 4096 0 _ _
        (less-Takes 4096 (max size 4096) _ (omega arith) (alloc_page-Takes (max size 4096)))
        λ c.
          >>>-Takes 0 0 _ _ (put_msg-Takes 32 _ _)
            λ _. >>>-Takes 0 0 _ _ (call-Takes 32 32) λ _. pure-Takes (ok c)

  unregister_shm-Takes : (cookie : ℕ) → Takes 0 (unregister_shm k cookie)
  unfolding unregister_shm
  unregister_shm-Takes cookie =
      >>>-Takes 0 0 _ _ (put_msg-Takes 32 _ _)
        λ _. >>>-Takes 0 0 _ _ (call-Takes 32 32) λ _. pure-Takes (ok tt)

  shm_alloc-Takes : (m n : ℕ) → Takes 96 (shm_alloc k m n)
  unfolding shm_alloc
  shm_alloc-Takes m n = >>>-Takes 96 0 _ _ (alloc_8-Takes 96) λ c.
      >>>-Takes 0 0 _ _ (any_alloc-Takes (max m 1)) λ in_off.
        >>>-Takes 0 0 _ _ (any_alloc-Takes (max n 1))
          λ out_off. pure-Takes (ok (c, in_off, out_off))

  shm_send-Takes :
      (session cmd : ℕ) (src : List ℕ) (n : ℕ) (offs : ℕ × ℕ × ℕ)
      → Takes 0 (shm_send k session cmd src n offs)
  unfolding shm_send
  shm_send-Takes session cmd src n (c, in_off, out_off) =
      >>>-Takes 0 0 _ _ (put_bytes-Takes in_off src)
        λ _. >>>-Takes 0 0 _ _ (put_msg-Takes c _ _) λ n. call-Takes c _

  shm_receive-Takes : (c out_off : ℕ) (dst : List ℕ) → Takes 0 (shm_receive k c out_off dst)
  unfolding shm_receive
  shm_receive-Takes c out_off dst = >>>-Takes 0 0 _ _ (get_msg-Takes c) λ out.
      >>>-Takes 0 0 _ _ (pure-Takes _)
        λ _. >>>-Takes 0 0 _ _ (get_bytes-Takes out_off _) λ got. pure-Takes _

  invoke_shm-Takes :
      (session cmd : ℕ) (src dst : List ℕ) → Takes 96 (invoke_shm k session cmd src dst)
  unfolding invoke_shm
  invoke_shm-Takes session cmd src dst = >>>-Takes 0 96 _ _ (pure-Takes _) λ _.
      >>>-Takes 96 0 _ _ (shm_alloc-Takes (length src) (length dst)) λ offs.
        >>>-Takes 0 0 _ _ (shm_send-Takes session cmd src (length dst) offs)
          λ _. shm_receive-Takes offs.0 offs.2 dst

  counts :
      {A : Type 0} (n : ℕ) (ctx : Context T) (o : Res ℕ A × Context T)
      → 32 ≤ n
      → Outcome n ctx o
      → Took (32 * came_through o.0) ctx o.1
  counts n ctx (ok v, c) h t = let r = t.1 v c refl in (r.0, omega (arith, r.1, h), r.2)
  counts n ctx (err e, c) h t = t.0
  counts n ctx (panic, c) h t = t.0

  serve-Took :
      (r : Request) (ctx : Context T)
      → Fine ctx
      → Took (32 * (serve k r ctx).0) ctx (serve k r ctx).1
  unfolding serve
  serve-Took (opens dest login) ctx fine =
      counts 64 ctx (open_session k dest login ctx) (omega arith)
        (open_session-Takes dest login ctx fine)
  serve-Took (invokes session cmd) ctx fine =
      counts 32 ctx (invoke k session cmd ctx) (omega arith) (invoke-Takes session cmd ctx fine)
  serve-Took (shares session cmd src dst) ctx fine =
      counts 96 ctx (invoke_shm k session cmd src dst ctx) (omega arith)
        (invoke_shm-Takes session cmd src dst ctx fine)
  serve-Took (closes session) ctx fine =
      counts 32 ctx (close_session k session ctx) (omega arith)
        (close_session-Takes session ctx fine)
  serve-Took (registers size) ctx fine =
      counts 4096 ctx (register_shm k size ctx) (omega arith) (register_shm-Takes size ctx fine)
  serve-Took (unregisters cookie) ctx fine = (unregister_shm-Takes cookie ctx fine).0

  serve_all-Took :
      (rs : List Request) (ctx : Context T)
      → Fine ctx
      → Took (32 * (serve_all k rs ctx).0) ctx (serve_all k rs ctx).1
  unfolding serve_all
  serve_all-Took [] ctx fine = (refl, omega arith, fine.0)
  serve_all-Took (r ∷ rs) ctx fine =
      let (len, one, inside) = serve-Took r ctx fine in
      let (len', more, inside') =
        serve_all-Took rs (serve k r ctx).1
          (omega (arith, len, inside), omega (arith, len, fine.1)) in
      (omega (arith, len, len'), omega (arith, one, more), omega (arith, len, inside'))

  -- In a context whose part in use lies in a bounce buffer that ends well below the end of the address
  -- space, over a transport that keeps the buffer's length, whatever it answers: the operations of any
  -- sequence that open, invoke, share, close or register and that come through take 32 bytes each of
  -- what is left of the buffer, which none gives back. So their number is bounded by the buffer.
  pub serve_all-bounded :
      (rs : List Request) (ctx : Context T)
      → Fine ctx
      → ctx.bump + 32 * (serve_all k rs ctx).0 ≤ length ctx.bounce
  serve_all-bounded rs ctx fine =
      let (len, more, inside) = serve_all-Took rs ctx fine in omega (arith, more, inside)
