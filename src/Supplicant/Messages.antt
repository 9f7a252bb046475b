-- ===== src/Supplicant/Messages.antt =====
-- host/rustee-supplicant/src/lib.rs: the requests of the kernel as messages in the bounce buffer, and the
-- hook of the transport.
use rustee.Prelude.{
  ℕ, ◌+◌, ◌-◌, ◌*◌, ◌/◌, ◌%◌, ◌^◌, List, [], ◌++◌, Option, none, some, not, length, take, get_or,
  set, ltb, leb, ◌==◌, ◌&&◌, ◌||◌, max, if◌then◌else◌, Res, ok, err, panic, ensure, Step, ◌>>>◌,
  pure_step,
}
use rustee.Bytes.{bytes_at, write_at, until_nul}
use rustee.Proto.{MsgArgHdr, MsgParam, no_param, write_msg, decode_msg}
use rustee.Supplicant.{
  SuppError, bad_cmd, io, Host, Supplicant, Io, is_open, is_tmem, hex16, fs, load_ta,
}

-- The supplicant and the bounce buffer that a message is read from and written to.
pub record Desk (W F D : Type 0) : Type 0 where
  pub supp : Supplicant W F D
  pub bounce : List ℕ

abbrev pub DeskIo : (W F D A : Type 0) → Type 0
DeskIo W F D A = Step (Desk W F D) SuppError A

abbrev pub map_err : {E A : Type 0} → SuppError → Res E A → Res SuppError A
map_err code (ok a) = ok a
map_err code (err e) = err code
map_err code panic = panic

-- The file name of an FS message: its second parameter, up to a NUL; empty when there is none.
unfoldable pub name_from_tmem : (List ℕ → List ℕ) → List ℕ → List MsgParam → ℕ → List ℕ
name_from_tmem lossy bounce params n =
    let p = get_or params 1 no_param in
    if ltb n 2
    then []
    else if not (is_tmem p.attr)
    then []
    else if not (ltb (p.a + p.b) (2 ^ 64) && leb (p.a + p.b) (length bounce))
    then []
    else (let name = bytes_at bounce p.a p.b in
        elim (until_nul name) [ none ↦ lossy name | some short ↦ lossy short ])

module _ {W F D : Type 0} (h : Host W F D) where
  -- A step of the supplicant, the bounce buffer as it is.
  abbrev pub with_supp : {A : Type 0} → Io W F D A → DeskIo W F D A
  with_supp f desk = let r = f desk.supp in (r.0, record desk { supp = r.1 })

  abbrev pub get_bounce : DeskIo W F D (List ℕ)
  get_bounce desk = (ok desk.bounce, desk)

  abbrev pub put_written : {E : Type 0} → Res E (ℕ × List ℕ) → DeskIo W F D (Unit {0})
  put_written (ok (n, bounce)) desk = (ok tt, record desk { bounce = bounce })
  put_written (err e) desk = (err io, desk)
  put_written panic desk = (panic, desk)

  -- The message that answers, in the place of the request.
  unfoldable pub put_msg : ℕ → MsgArgHdr → List MsgParam → DeskIo W F D (Unit {0})
  put_msg c hdr params desk = put_written (write_msg desk.bounce c hdr params) desk

  -- Seconds as a word of 32 bits, and nanoseconds, which fit one.
  unfoldable pub get_time : Supplicant W F D → ℕ × ℕ
  get_time s = let now = h.now s.world in (now.0 % 2 ^ 32, now.1 % 2 ^ 32)

  -- `RPC_CMD_GET_TIME`: the parameters with the time in the first one.
  unfoldable pub msg_get_time : List MsgParam → DeskIo W F D (List MsgParam)
  unfolding get_time
  msg_get_time params desk =
      let now = get_time desk.supp in
      (ok (set params 0 (record (get_or params 0 no_param) { a = now.0; b = now.1 })), desk)

  -- Where the image goes: the second parameter's buffer when it lies behind the message, else right
  -- behind the message.
  unfoldable pub load_dest : List MsgParam → ℕ → ℕ → ℕ → Res SuppError ℕ
  load_dest params n after size =
      let p = get_or params 1 no_param in
      if leb 2 n && (is_tmem p.attr && leb after p.a)
      then (if ltb p.b size then err io else ok p.a)
      else ok after

  -- `bounce[dest..end].copy_from_slice(&bytes)` behind its checks; the end.
  unfoldable pub put_image : ℕ → List ℕ → DeskIo W F D ℕ
  put_image dest image desk =
      if ltb (dest + length image) (2 ^ 64) && leb (dest + length image) (length desk.bounce)
      then (ok (dest + length image), record desk { bounce = write_at desk.bounce dest image })
      else (err io, desk)

  -- `RPC_CMD_LOAD_TA`: the length of the window that covers the message and the image.
  unfoldable pub msg_load_ta : ℕ → MsgArgHdr → List MsgParam → ℕ → DeskIo W F D ℕ
  unfolding load_ta hex16 load_dest put_image put_msg
  msg_load_ta c hdr params size =
      with_supp
        (load_ta h (hex16 16 (get_or params 0 no_param).a ++ hex16 16 (get_or params 0 no_param).b))
      >>> λ image.
          pure_step
            (load_dest params hdr.num_params ((c + size + 7) % 2 ^ 64 / 8 * 8) (length image))
          >>> λ dest. put_image dest image >>> λ last.
              put_msg c (record hdr { num_params = max hdr.num_params 2; ret = 0 })
                (take (max hdr.num_params 2)
                  (set params 1 (record { attr = 10; a = dest; b = length image; c = dest })))
              >>> λ _. pure_step (ok ((last - c) % 2 ^ 32))

  -- `RPC_CMD_FS`: the parameters, with the descriptor of a file that has been opened.
  unfoldable pub msg_fs : List MsgParam → ℕ → DeskIo W F D (List MsgParam)
  unfolding fs name_from_tmem
  msg_fs params n =
      let p = get_or params 0 no_param in
      get_bounce >>> λ bounce.
      with_supp (
        fs h (p.a % 2 ^ 32) (name_from_tmem h.from_utf8_lossy bounce params n) (p.b % 2 ^ 32)
          (p.c % 2 ^ 32) [])
      >>> λ out.
          pure_step
            (ok (if is_open (p.a % 2 ^ 32) then set params 0 (record p { b = out.0 }) else params))

  -- The parameters of the answers that keep the size of the message.
  unfoldable pub msg_params : MsgArgHdr → List MsgParam → DeskIo W F D (List MsgParam)
  unfolding msg_get_time msg_fs
  msg_params hdr params =
      if hdr.cmd == 3
      then (pure_step (ensure (leb 1 hdr.num_params) bad_cmd) >>> λ _. msg_get_time params)
      else if hdr.cmd == 2
      then (pure_step (ensure (leb 1 hdr.num_params) bad_cmd) >>> λ _. msg_fs params hdr.num_params)
      else pure_step (err bad_cmd)

  unfoldable pub put_answer : ℕ → MsgArgHdr → ℕ → List MsgParam → DeskIo W F D ℕ
  unfolding put_msg
  put_answer c hdr size params =
      put_msg c hdr (take hdr.num_params params) >>> λ _. pure_step (ok (size % 2 ^ 32))

  -- The answer to a request whose message has been decoded: the length of the window to send back.
  unfoldable pub answer_msg : ℕ → MsgArgHdr → List MsgParam → ℕ → DeskIo W F D ℕ
  unfolding msg_load_ta msg_params put_answer
  answer_msg c hdr params size =
      if hdr.cmd == 0
      then (pure_step (ensure (leb 1 hdr.num_params) bad_cmd) >>> λ _.
          msg_load_ta c hdr params size)
      else (msg_params hdr params >>> put_answer c hdr size)

  unfoldable pub handle_msg : ℕ → DeskIo W F D ℕ
  unfolding answer_msg
  handle_msg c = get_bounce >>> λ bounce.
      pure_step (map_err bad_cmd (decode_msg bounce c)) >>> λ m. answer_msg c m.0 m.1 m.2

  abbrev hook_result : Res SuppError ℕ → Res ℕ ℕ
  hook_result (ok n) = ok n
  hook_result (err e) = err 0xFFFF000E
  hook_result panic = panic

  abbrev hooked : Res SuppError ℕ × Desk W F D → Res ℕ ℕ × List ℕ × Option (Supplicant W F D)
  hooked (r, desk) = (hook_result r, desk.bounce, some desk.supp)

  -- The hook of the transport; the supplicant of the process is there once it is installed.
  unfoldable pub rpc_hook :
      Option (Supplicant W F D) → List ℕ → ℕ → Res ℕ ℕ × List ℕ × Option (Supplicant W F D)
  unfolding handle_msg
  rpc_hook none bounce c = (err 0xFFFF000E, bounce, none)
  rpc_hook (some supp) bounce c = hooked (handle_msg c (record { supp = supp; bounce = bounce }))

unfoldable pub rpc_cmd : ℕ → Res SuppError (Unit {0})
rpc_cmd cmd = if cmd == 0 || (cmd == 3 || cmd == 2) then ok tt else err bad_cmd
