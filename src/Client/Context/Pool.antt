-- ===== src/Client/Context/Pool.antt =====
-- The bounce buffer of the client is given out once: what an operation takes is never given back.
use rustee.Prelude.{
  ℕ, ◌+◌, ◌-◌, ◌*◌, ◌/◌, ◌%◌, ◌^◌, ◌<◌, ◌≤◌, ◌≡◌, refl, ap, ◌∙◌, sym, List, length, ltb, leb, arith,
  Bool-cases, inl, inr, if◌then◌else◌, Res, ok, err, panic, ◌>>>◌, pure_step, then_step, leb→le,
}
use rustee.Bytes.{bytes_at, write_at}
use rustee.Bytes.Writes.{length-write_at}
use rustee.Proto.{MsgArgHdr, MsgParam, write_msg, decode_msg, ProtoError}
use rustee.Proto.Messages.{write_msg-frame}
use rustee.Client.Codes.{teec_error_out_of_memory, teec_error_bad_parameters}
use rustee.Client.Wire.{comm_err}
use rustee.Client.Context.{Context, Ctx, alloc, put_written, put_msg, get_msg, put_bytes, get_bytes}

-- The part in use lies in the buffer, which ends well below the end of the address space.
abbrev pub Fine : {T : Type 0} → Context T → Type 0
Fine ctx = (ctx.bump ≤ length ctx.bounce) × (length ctx.bounce + 2 ^ 20 < 2 ^ 64)

-- An operation may only have taken more, at least so many bytes.
abbrev pub Took : {T : Type 0} → ℕ → Context T → Context T → Type 0
Took n ctx ctx' =
    (length ctx'.bounce ≡ length ctx.bounce)
    × (ctx.bump + n ≤ ctx'.bump)
    × (ctx'.bump ≤ length ctx.bounce)

-- However it ends, and when it comes through.
abbrev pub Outcome : {T A : Type 0} → ℕ → Context T → Res ℕ A × Context T → Type 0
Outcome n ctx o = Took 0 ctx o.1 × ((v : _) (c : _) → o ≡ (ok v, c) → Took n ctx c)

abbrev pub Takes : {T A : Type 0} → ℕ → Ctx T A → Type 0
Takes n f = (ctx : _) → Fine ctx → Outcome n ctx (f ctx)

module _ {T : Type 0} where
  Outcome-ok :
      {A : Type 0} (n : ℕ) (ctx c : Context T) (v : A) → Took n ctx c → Outcome n ctx (ok v, c)
  Outcome-ok n ctx c v t = (
    (t.0, omega (arith, t.1), t.2),
    λ v' c' e.
        let here : c ≡ c' = ap (λ o. o.1) e in
        (
          ap (λ d. length d.bounce) (sym here) ∙ t.0,
          omega (arith, ap (λ d. d.bump) here, t.1),
          omega (arith, ap (λ d. d.bump) here, t.2),
        ),
  )

  Outcome-err :
      {A : Type 0} (n : ℕ) (ctx : Context T) (code : ℕ)
      → Fine ctx
      → Outcome {A = A} n ctx (err code, ctx)
  Outcome-err n ctx code fine = ((refl, omega arith, fine.0), λ v c e. absurd cc)

  Outcome-panic :
      {A : Type 0} (n : ℕ) (ctx : Context T) → Fine ctx → Outcome {A = A} n ctx (panic, ctx)
  Outcome-panic n ctx fine = ((refl, omega arith, fine.0), λ v c e. absurd cc)

  Outcome-then :
      {A B : Type 0} (m n : ℕ) (ctx : Context T) (o : Res ℕ A × Context T) (next : A → Ctx T B)
      → Fine ctx
      → Outcome m ctx o
      → ((a : A) → Takes n (next a))
      → Outcome (m + n) ctx (then_step o next)
  Outcome-then m n ctx (err e, c) next fine f g = (f.0, λ v d h. absurd cc)
  Outcome-then m n ctx (panic, c) next fine f g = (f.0, λ v d h. absurd cc)
  Outcome-then m n ctx (ok v, c) next fine f g =
      let (len, more, inside) = f.1 v c refl in
      let (after, last) = g v c (omega (arith, len, inside), omega (arith, len, fine.1)) in
      (
        (omega (arith, len, after.0), omega (arith, more, after.1), omega (arith, len, after.2)),
        λ u d e.
            let r = last u d e in
            (omega (arith, len, r.0), omega (arith, more, r.1), omega (arith, len, r.2)),
      )

  pub >>>-Takes :
      {A B : Type 0} (m n : ℕ) (before : Ctx T A) (next : A → Ctx T B)
      → Takes m before
      → ((a : A) → Takes n (next a))
      → Takes (m + n) (before >>> next)
  >>>-Takes m n before next f g ctx fine =
      Outcome-then m n ctx (before ctx) next fine (f ctx fine) g

  pub pure-Takes : {A : Type 0} (r : Res ℕ A) → Takes {T = T} 0 (pure_step r)
  pure-Takes (ok v) ctx fine = Outcome-ok 0 ctx ctx v (refl, omega arith, fine.0)
  pure-Takes (err e) ctx fine = Outcome-err 0 ctx e fine
  pure-Takes panic ctx fine = Outcome-panic 0 ctx fine

  -- What `alloc` gives out with an alignment whose multiples lie less than a page apart.
  alloc_len-Takes :
      (len align : ℕ)
      → ((b : ℕ)
          → (b ≤ (b + align - 1) / align * align) × ((b + align - 1) / align * align < b + 4096))
      → Takes len (alloc {T = T} len align)
  unfolding alloc
  alloc_len-Takes len align up ctx fine =
      let a = (ctx.bump + align - 1) / align * align % 2 ^ 64 in
      let (above, below) = up ctx.bump in
      let wraps : a ≡ (ctx.bump + align - 1) / align * align =
        omega (arith, below, fine.0, fine.1) in
      elim (Bool-cases (ltb (a + len) (2 ^ 64))) [
        | inr g ↦ rw g (Outcome-err len ctx teec_error_out_of_memory fine)
        | inl g ↦ elim (Bool-cases (leb (a + len) (length ctx.bounce))) [
          | inr h ↦ rw (g, h) (Outcome-err len ctx teec_error_out_of_memory fine)
          | inl h ↦
              let room = leb→le (a + len) (length ctx.bounce) h in
              rw (g, h)
                (Outcome-ok len ctx (record ctx { bump = a + len }) a
                  (refl, omega (arith, wraps, above), room))
        ]
      ]

  pub alloc_8-Takes : (len : ℕ) → Takes len (alloc {T = T} len 8)
  alloc_8-Takes len = alloc_len-Takes len 8 (λ b. (omega arith, omega arith))

  pub alloc_page-Takes : (len : ℕ) → Takes len (alloc {T = T} len 4096)
  alloc_page-Takes len = alloc_len-Takes len 4096 (λ b. (omega arith, omega arith))

  put_written-Takes :
      (ctx : Context T) (r : Res ProtoError (ℕ × List ℕ))
      → Fine ctx
      → ((n : ℕ) (b : List ℕ) → r ≡ ok (n, b) → length b ≡ length ctx.bounce)
      → Outcome 0 ctx (put_written r ctx)
  put_written-Takes ctx (ok (n, b)) fine keeps =
      Outcome-ok 0 ctx (record ctx { bounce = b }) n (keeps n b refl, omega arith, fine.0)
  put_written-Takes ctx (err e) fine keeps = Outcome-err 0 ctx teec_error_bad_parameters fine
  put_written-Takes ctx panic fine keeps = Outcome-panic 0 ctx fine

  pub put_msg-Takes :
      (c : ℕ) (hdr : MsgArgHdr) (ps : List MsgParam) → Takes 0 (put_msg {T = T} c hdr ps)
  unfolding put_msg
  put_msg-Takes c hdr ps ctx fine =
      put_written-Takes ctx (write_msg ctx.bounce c hdr ps) fine
        (λ n b e. (write_msg-frame ctx.bounce c hdr ps n b (omega (arith, fine.1)) e).4)

  pub get_msg-Takes : (c : ℕ) → Takes 0 (get_msg {T = T} c)
  unfolding get_msg
  get_msg-Takes c ctx fine = pure-Takes (comm_err (decode_msg ctx.bounce c)) ctx fine

  pub put_bytes-Takes : (off : ℕ) (src : List ℕ) → Takes 0 (put_bytes {T = T} off src)
  unfolding put_bytes
  put_bytes-Takes off src ctx fine =
      elim (Bool-cases (leb (off + length src) (length ctx.bounce))) [
        | inr g ↦ rw g (Outcome-panic 0 ctx fine)
        | inl g ↦ rw g (
            Outcome-ok 0 ctx (record ctx { bounce = write_at ctx.bounce off src }) tt
              (length-write_at ctx.bounce off src (leb→le _ _ g), omega arith, fine.0))
      ]

  pub get_bytes-Takes : (off n : ℕ) → Takes 0 (get_bytes {T = T} off n)
  unfolding get_bytes
  get_bytes-Takes off n ctx fine =
      pure-Takes
        (if leb (off + n) (length ctx.bounce) then ok (bytes_at ctx.bounce off n) else panic) ctx
        fine

  pub quiet-Takes :
      {A : Type 0} (ctx : Context T) (o : Res ℕ A × Context T) → Took 0 ctx o.1 → Outcome 0 ctx o
  quiet-Takes ctx (ok v, c) t = Outcome-ok 0 ctx c v t
  quiet-Takes ctx (err e, c) t = (t, λ u d h. absurd cc)
  quiet-Takes ctx (panic, c) t = (t, λ u d h. absurd cc)

  pub less-Takes : {A : Type 0} (m n : ℕ) (f : Ctx T A) → m ≤ n → Takes n f → Takes m f
  less-Takes m n f h t ctx fine =
      let (quiet, through) = t ctx fine in
      (quiet, λ v c e. let r = through v c e in (r.0, omega (arith, r.1), r.2))
