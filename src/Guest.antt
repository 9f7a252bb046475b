-- ===== src/Guest.antt =====
-- guest/rustee-guest/src/proto_cmd.rs: a message of the pool becomes a command of the kernel.
use rustee.Prelude.{
  ℕ, ◌+◌, ◌*◌, ◌/◌, ◌%◌, ◌^◌, List, [], ◌∷◌, ◌++◌, Bool, true, false, not, take, set, replicate,
  ltb, ◌==◌, ◌&&◌, ◌||◌, if◌then◌else◌, Res, ok, err, panic, ◌>>=◌,
}
use rustee.Os.Abi.{
  Uuid, Login, public, Dir, dir_in, dir_out, dir_inout, Param, empty, value, memref, ree, no_params,
  KernelCmd,
}
use rustee.Proto.{MsgArgHdr, MsgParam, decode_msg}
pub mod Commands
pub mod Rpc
pub mod Answers
pub mod Tests

abbrev pub tee_timeout_infinite : ℕ
tee_timeout_infinite = 0xFFFFFFFF

-- The low byte of the attribute, and its bit 8.
abbrev pub ty : MsgParam → ℕ
ty p = p.attr % 256

abbrev pub is_meta : MsgParam → Bool
is_meta p = p.attr / 256 % 2 == 1

abbrev pub dir_of : ℕ → Dir
dir_of t = if t == 9 || t == 1 then dir_in else if t == 10 || t == 2 then dir_out else dir_inout

-- `param`: a value of two 32-bit words, a buffer of the pool, or nothing.
abbrev pub client_param : MsgParam → Param
client_param p =
    if ty p == 1 || (ty p == 2 || ty p == 3)
    then value (p.a % 2 ^ 32) (p.b % 2 ^ 32) (dir_of (ty p))
    else if ty p == 9 || (ty p == 10 || ty p == 11)
    then memref (ree p.a 0) p.b (dir_of (ty p))
    else empty

-- Bytes 0 to 7 are the high word and bytes 8 to 15 the low one, each from its highest byte on.
unfoldable pub uuid_from_words : ℕ → ℕ → Uuid
uuid_from_words hi lo =
    hi / 2 ^ 56 % 256
    ∷ hi / 2 ^ 48 % 256
    ∷ hi / 2 ^ 40 % 256
    ∷ hi / 2 ^ 32 % 256
    ∷ hi / 2 ^ 24 % 256
    ∷ hi / 2 ^ 16 % 256
    ∷ hi / 2 ^ 8 % 256
    ∷ hi % 256
    ∷ lo / 2 ^ 56 % 256
    ∷ lo / 2 ^ 48 % 256
    ∷ lo / 2 ^ 40 % 256
    ∷ lo / 2 ^ 32 % 256
    ∷ lo / 2 ^ 24 % 256
    ∷ lo / 2 ^ 16 % 256
    ∷ lo / 2 ^ 8 % 256
    ∷ lo % 256
    ∷ []

-- The loop that collects the parameters that are not meta, at most four, the next of them at `ui`.
unfoldable pub fill : List Param → ℕ → List MsgParam → List Param
fill user ui [] = user
fill user ui (p ∷ ps) =
    if is_meta p
    then fill user ui ps
    else if ltb ui 4
    then fill (set user ui (client_param p)) (ui + 1) ps
    else fill user ui ps

-- The UUID of an open message is in its parameter 0, if that is a meta input value; the login stays
-- public whatever the other meta parameters say.
unfoldable pub open_uuid : List MsgParam → Uuid
unfolding uuid_from_words
open_uuid [] = replicate 16 0
open_uuid (p ∷ ps) = if is_meta p && ty p == 1 then uuid_from_words p.a p.b else replicate 16 0

-- The match on the message's command.
unfoldable pub command_of : MsgArgHdr → List MsgParam → Res (Unit {0}) KernelCmd
unfolding fill open_uuid
command_of hdr ps =
    if hdr.cmd == 0
    then ok (
        KernelCmd.open_session (open_uuid ps) public (fill no_params 0 ps) hdr.cancel_id
          tee_timeout_infinite)
    else if hdr.cmd == 1
    then ok (
        KernelCmd.invoke hdr.session hdr.func (fill no_params 0 ps) hdr.cancel_id
          tee_timeout_infinite)
    else if hdr.cmd == 2
    then ok (KernelCmd.close_session hdr.session)
    else if hdr.cmd == 3
    then ok (KernelCmd.cancel hdr.cancel_id)
    else err tt

abbrev pub map_err : {E F A : Type 0} → (E → F) → Res E A → Res F A
map_err f (ok a) = ok a
map_err f (err e) = err (f e)
map_err f panic = panic

unfoldable pub decode_cmd : List ℕ → ℕ → Res (Unit {0}) KernelCmd
unfolding command_of
decode_cmd pool c = do
  m ← map_err (λ e. tt) (decode_msg pool c)
  command_of m.0 (take m.0.num_params m.1)
