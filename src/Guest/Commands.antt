-- ===== src/Guest/Commands.antt =====
-- What a client writes into the pool is the command that the kernel gets.
use rustee.Prelude.{
  ℕ, zero, suc, ◌+◌, ◌-◌, ◌%◌, ◌^◌, ◌<◌, ◌≤◌, ◌≡◌, refl, ap, ◌∙◌, sym, List, [], ◌∷◌, ◌++◌,
  append_assoc, map, true, false, length, set, replicate, ltb, ◌==◌, arith, length-append, ok,
  ◌>>=◌, >>=-eq-ok,
}
use rustee.Bytes.Laws.{take-exact}
use rustee.Os.Abi.{Param, empty, no_params, KernelCmd}
use rustee.Proto.{MsgArgHdr, MsgParam, write_msg, decode_msg, byte_size, no_param}
use rustee.Proto.Messages.{HdrFits, ParamsFit, decode_msg-write_msg}
use rustee.Guest.{
  is_meta, client_param, fill, command_of, decode_cmd, map_err, tee_timeout_infinite,
}

-- No parameter is a meta parameter.
abbrev pub Plain : List MsgParam → Type 0
Plain [] = Unit
Plain (p ∷ ps) = (is_meta p ≡ false) × Plain ps

set-append :
    (xs ys : List Param) (y v : Param) → set (xs ++ (y ∷ ys)) (length xs) v ≡ xs ++ (v ∷ ys)
set-append [] ys y v = refl
set-append (x ∷ xs) ys y v = ap (λ l. x ∷ l) (set-append xs ys y v)

fill-Plain :
    (before : List Param) (n : ℕ) (ps : List MsgParam)
    → Plain ps
    → length before + n ≡ 4
    → length ps ≤ n
    → fill (before ++ replicate n empty) (length before) ps
      ≡ before ++ (map client_param ps ++ replicate (n - length ps) empty)
unfolding fill
fill-Plain before n [] pl e h = ap (λ k. before ++ replicate k empty) (omega arith)
fill-Plain before zero (p ∷ ps) pl e h = absurd (omega arith)
fill-Plain before (suc n) (p ∷ ps) pl e h =
    let g : ltb (length before) 4 ≡ true = ground arith in
    let v = client_param p in
    let at : length before + 1 ≡ length (before ++ (v ∷ [])) =
      omega (arith, length-append before (v ∷ [])) in
    let more = fill-Plain (before ++ (v ∷ [])) n ps pl.1 (omega (arith, at, e)) (omega arith) in
    let put : set (before ++ replicate (suc n) empty) (length before) v
        ≡ (before ++ (v ∷ [])) ++ replicate n empty =
      set-append before (replicate n empty) empty v
      ∙ sym (append_assoc before (v ∷ []) (replicate n empty)) in
    let less : n - length ps ≡ suc n - suc (length ps) = omega arith in
    rw (pl.0, g, put, at, fill)
      (more
        ∙ append_assoc before (v ∷ []) (map client_param ps ++ replicate (n - length ps) empty)
        ∙ ap (λ k. before ++ (v ∷ (map client_param ps ++ replicate k empty))) less)

command_of-invoke :
    (h : MsgArgHdr) (ps : List MsgParam)
    → h.cmd ≡ 1
    → command_of h ps
      ≡ ok
          (KernelCmd.invoke h.session h.func (fill no_params 0 ps) h.cancel_id tee_timeout_infinite)
unfolding command_of
command_of-invoke h ps e =
    let g0 : (h.cmd == 0) ≡ false = ground arith in
    let g1 : (h.cmd == 1) ≡ true = ground arith in rw (g0, g1) refl

-- An invoke message of at most four parameters, none of them meta, whose header counts them, whose
-- fields fit their words and that has room at an aligned cookie, is written by the client, and the
-- guest reads from the pool the invocation of that session with that function number, those parameters
-- in their order with empty ones up to four, that cancellation id and no timeout.
pub decode_cmd-write_msg :
    (pool : List ℕ) (c : ℕ) (h : MsgArgHdr) (ps : List MsgParam)
    → h.cmd ≡ 1
    → Plain ps
    → length ps ≤ 4
    → c % 8 ≡ 0
    → length ps ≡ h.num_params
    → c + byte_size h ≤ length pool
    → HdrFits h
    → ParamsFit ps
    → length pool < 2 ^ 64
    → (map_err (λ e. tt) (write_msg pool c h ps) >>= (λ w. decode_cmd w.1 c))
      ≡ ok (
          KernelCmd.invoke h.session h.func
            (map client_param ps ++ replicate (4 - length ps) empty)
            h.cancel_id
            tee_timeout_infinite)
unfolding decode_cmd
decode_cmd-write_msg pool c h ps is pl four al n b hf pf lim =
    let (w, wrote, read) =
      >>=-eq-ok (write_msg pool c h ps) (λ w. decode_msg w.1 c)
        (decode_msg-write_msg pool c h ps al n b hf pf (omega arith) lim) in
    rw (wrote, read)
      (ap (command_of h) (take-exact ps (replicate (6 - length ps) no_param) h.num_params (sym n))
        ∙ command_of-invoke h ps is
        ∙ ap (λ l. ok (KernelCmd.invoke h.session h.func l h.cancel_id tee_timeout_infinite))
            (fill-Plain [] 4 ps pl refl four))
