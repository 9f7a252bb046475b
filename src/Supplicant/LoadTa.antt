-- ===== src/Supplicant/LoadTa.antt =====
-- The image of a TA on its way: the guest's request (`pack_load_ta` of
-- guest/rustee-guest/src/proto_cmd.rs), the supplicant's answer (`handle_msg` of
-- host/rustee-supplicant/src/lib.rs) and the guest's reading of it (`take_load_ta`).
use rustee.Prelude.{
  ℕ, ◌+◌, ◌-◌, ◌*◌, ◌/◌, ◌%◌, ◌^◌, ◌<◌, ◌≤◌, ◌≡◌, refl, ap, ◌∙◌, sym, List, [], ◌∷◌, ◌++◌, some,
  length, drop, arith, replicate, ok, lt→ltb, le→leb, le→ltb, >>=-eq-ok,
}
use rustee.Bytes.{write_at}
use rustee.Bytes.Laws.{take-exact}
use rustee.Bytes.Writes.{length-write_at, drop-write_at}
use rustee.Os.Abi.{Uuid}
use rustee.Proto.{MsgParam, no_param, write_msg, decode_msg, byte_size}
use rustee.Proto.Messages.{HdrFits, ParamsFit, decode_msg-write_msg, write_msg-frame}
use rustee.Guest.Rpc.{
  rpc_cookie, load_ta_cap, load_ta_hdr, load_ta_params, uuid_to_words, pack_load_ta, take_load_ta,
}
use rustee.Supplicant.{Host, Supplicant, SuppError, load_ta, ta_path, hex16, or_err}
use rustee.Supplicant.Messages.{
  handle_msg, answer_msg, msg_load_ta, load_dest, put_image, put_msg, with_supp, put_written,
}

load_ta_hdr-HdrFits : HdrFits load_ta_hdr
load_ta_hdr-HdrFits = record {
  cmd_fits = omega arith;
  func_fits = omega arith;
  session_fits = omega arith;
  cancel_id_fits = omega arith;
  pad_fits = omega arith;
  ret_fits = omega arith;
  ret_origin_fits = omega arith;
  num_params_fits = omega arith;
}

-- Where the image goes: right behind the message of two parameters.
abbrev image_at : ℕ
image_at = rpc_cookie + 96

-- The answer's parameters.
abbrev answer_params : Uuid → ℕ → List MsgParam
answer_params uuid size =
    record { attr = 1; a = (uuid_to_words uuid).0; b = (uuid_to_words uuid).1; c = 0 }
    ∷ record { attr = 10; a = image_at; b = size; c = image_at }
    ∷ []

module _ (pool : List ℕ) (uuid : Uuid) (hi : (uuid_to_words uuid).0 < 2 ^ 64)
    (lo : (uuid_to_words uuid).1 < 2 ^ 64) (room : image_at ≤ length pool)
    (lim : length pool + 224 < 2 ^ 64) where
  request-fits : ParamsFit (load_ta_params uuid)
  request-fits = (
    (omega arith, hi, lo, omega arith),
    ((omega arith, omega arith, omega arith, omega arith), tt),
  )

  packed :
      (pool1 : List ℕ) × (pack_load_ta pool uuid ≡ ok ((rpc_cookie, 96), pool1))
      × (length pool1 ≡ length pool)
      × (decode_msg pool1 rpc_cookie
          ≡ ok (load_ta_hdr, load_ta_params uuid ++ replicate 4 no_param, 96))
  unfolding pack_load_ta byte_size
  packed =
      let (w, wrote, read) =
        >>=-eq-ok (write_msg pool rpc_cookie load_ta_hdr (load_ta_params uuid))
          (λ w. decode_msg w.1 rpc_cookie)
          (decode_msg-write_msg pool rpc_cookie load_ta_hdr (load_ta_params uuid) refl refl
            (omega (arith, room)) load_ta_hdr-HdrFits request-fits (omega arith)
            (omega (arith, lim))) in
      let keeps =
        write_msg-frame pool rpc_cookie load_ta_hdr (load_ta_params uuid) w.0 w.1
          (omega (arith, lim)) wrote in
      let size : w.0 ≡ 96 = keeps.2 in (w.1, rw (wrote, size) refl, keeps.4, read)

-- The supplicant with an image to give out.
module _ {W F D : Type 0} (h : Host W F D) (s : Supplicant W F D) (w' : W) (uuid : Uuid)
    (image : List ℕ)
    (stored : h.read_whole s.world
        (ta_path h s.root (hex16 16 (uuid_to_words uuid).0 ++ hex16 16 (uuid_to_words uuid).1))
      ≡ (some image, w'))
    (small : length image ≤ load_ta_cap) where
  abbrev request : List MsgParam
  request = load_ta_params uuid ++ replicate 4 no_param

  abbrev served : Supplicant W F D
  served = record s { world = w' }

  loaded :
      (bounce : List ℕ)
      → with_supp h
          (load_ta h (hex16 16 (uuid_to_words uuid).0 ++ hex16 16 (uuid_to_words uuid).1))
          (record { supp = s; bounce = bounce })
        ≡ (ok image, record { supp = served; bounce = bounce })
  unfolding load_ta
  loaded bounce =
      ap
        (λ r. (
          or_err SuppError.not_found r.0,
          record { supp = record s { world = r.1 }; bounce = bounce },
        ))
        stored

  dest : load_dest h request 2 ((rpc_cookie + 96 + 7) % 2 ^ 64 / 8 * 8) (length image) ≡ ok image_at
  unfolding load_dest
  dest = rw (le→ltb load_ta_cap (length image) small) refl

  image_put :
      (bounce : List ℕ)
      → image_at + length image ≤ length bounce
      → length bounce + 224 < 2 ^ 64
      → put_image h image_at image (record { supp = served; bounce = bounce }) ≡ (
        ok (image_at + length image),
        record { supp = served; bounce = write_at bounce image_at image },
      )
  unfolding put_image
  image_put bounce inside lim =
      rw
        (
          lt→ltb (image_at + length image) (2 ^ 64) (omega (arith, inside, lim)),
          le→leb (image_at + length image) (length bounce) inside,
        )
        refl

  module _ (pool1 : List ℕ) (hi : (uuid_to_words uuid).0 < 2 ^ 64)
      (lo : (uuid_to_words uuid).1 < 2 ^ 64) (inside : image_at + length image ≤ length pool1)
      (lim : length pool1 + 224 < 2 ^ 64) where
    written :
        (pool3 : List ℕ) × (put_msg h rpc_cookie load_ta_hdr
            (answer_params uuid (length image))
            (record { supp = served; bounce = write_at pool1 image_at image })
          ≡ (ok tt, record { supp = served; bounce = pool3 }))
        × (length pool3 ≡ length pool1)
        × (decode_msg pool3 rpc_cookie
            ≡ ok (load_ta_hdr, answer_params uuid (length image) ++ replicate 4 no_param, 96))
        × (drop image_at pool3 ≡ image ++ drop (image_at + length image) pool1)
    unfolding put_msg byte_size
    written =
        let pool2 = write_at pool1 image_at image in
        let len2 = length-write_at pool1 image_at image inside in
        let ps = answer_params uuid (length image) in
        let (w, wrote, read) =
          >>=-eq-ok (write_msg pool2 rpc_cookie load_ta_hdr ps) (λ w. decode_msg w.1 rpc_cookie)
            (decode_msg-write_msg pool2 rpc_cookie load_ta_hdr ps refl refl
              (omega (arith, len2, inside)) load_ta_hdr-HdrFits
              (
                (omega arith, hi, lo, omega arith),
                ((omega arith, omega arith, omega (arith, small), omega arith), tt),
              )
              (omega arith) (omega (arith, len2, lim))) in
        let keeps =
          write_msg-frame pool2 rpc_cookie load_ta_hdr ps w.0 w.1 (omega (arith, len2, lim))
            wrote in
        let size : rpc_cookie + w.0 ≡ image_at = ap (λ n. rpc_cookie + n) keeps.2 in
        (
          w.1,
          ap (λ r. put_written h r (record { supp = served; bounce = pool2 })) wrote,
          keeps.4 ∙ len2,
          read,
          ap (λ n. drop n w.1) (sym size)
              ∙ keeps.6
              ∙ ap (λ n. drop n pool2) size
              ∙ drop-write_at pool1 image_at image inside,
        )

    answered :
        decode_msg pool1 rpc_cookie ≡ ok (load_ta_hdr, request, 96)
        → handle_msg h rpc_cookie (record { supp = s; bounce = pool1 })
          ≡ (ok (96 + length image), record { supp = served; bounce = written.0 })
    unfolding handle_msg answer_msg msg_load_ta
    answered read =
        rw (read, loaded pool1, dest, image_put pool1 inside lim, written.1)
          (ap (λ n. (ok n, record { supp = served; bounce = written.0 }))
            (let e : (image_at + length image - rpc_cookie) % 2 ^ 32 ≡ 96 + length image =
                omega (arith, small) in
              e))

    taken : take_load_ta written.0 ≡ ok image
    unfolding take_load_ta
    taken =
        let (_, _, len, read, behind) = written in
        rw
          (
            read,
            lt→ltb (image_at + length image) (2 ^ 64) (omega (arith, inside, lim)),
            le→ltb (length written.0) (image_at + length image) (omega (arith, len, inside)),
            behind,
          )
          (ap ok (take-exact image _ (length image) refl))

-- The kernel asks for the image of a TA whose UUID has words of 64 bits, in a pool with room for the
-- message and the image, which has at most 2 MiB and is stored in the host under the hexadecimal digits
-- of these words. The guest's request is written, with a window of 96 bytes; the supplicant answers it,
-- with a window that covers the message and the image; and the guest takes just the image out of the
-- pool.
pub take_load_ta-handle_msg :
    {W F D : Type 0} (h : Host W F D) (s : Supplicant W F D) (w' : W) (uuid : Uuid)
    (image pool : List ℕ)
    → (uuid_to_words uuid).0 < 2 ^ 64
    → (uuid_to_words uuid).1 < 2 ^ 64
    → h.read_whole s.world
        (ta_path h s.root (hex16 16 (uuid_to_words uuid).0 ++ hex16 16 (uuid_to_words uuid).1))
      ≡ (some image, w')
    → length image ≤ load_ta_cap
    → image_at + length image ≤ length pool
    → length pool + 224 < 2 ^ 64
    → (pool1 : List ℕ) × (pool2 : List ℕ) × (pack_load_ta pool uuid ≡ ok ((rpc_cookie, 96), pool1))
      × (handle_msg h rpc_cookie (record { supp = s; bounce = pool1 })
          ≡ (ok (96 + length image), record { supp = record s { world = w' }; bounce = pool2 }))
      × (take_load_ta pool2 ≡ ok image)
take_load_ta-handle_msg h s w' uuid image pool hi lo stored small room lim =
    let (pool1, sent, len, read) = packed pool uuid hi lo (omega (arith, room)) lim in
    let inside : image_at + length image ≤ length pool1 = omega (arith, len, room) in
    let lim1 : length pool1 + 224 < 2 ^ 64 = omega (arith, len, lim) in
    (
      pool1,
      (written h s w' uuid image stored small pool1 hi lo inside lim1).0,
      sent,
      answered h s w' uuid image stored small pool1 hi lo inside lim1 read,
      taken h s w' uuid image stored small pool1 hi lo inside lim1,
    )
