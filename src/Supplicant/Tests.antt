-- ===== src/Supplicant/Tests.antt =====
-- The theorems on the supplicant over a host that stores one image and in which every call succeeds.
use rustee.Prelude.{
  ℕ, ◌≡◌, refl, List, [], ◌∷◌, ◌++◌, none, some, length, replicate, arith, length-replicate, ok,
}
use rustee.Bytes.{IsBytes, read_u32, read_u64}
use rustee.Proto.{
  MsgArgHdr, MsgParam, no_param, hdr_bytes, param_bytes, decode_msg, decode_hdr, decode_param,
  read_params, slice_from, byte_size, write_msg, write_params, encode_at, encode_hdr, encode_param,
}
use rustee.Guest.Rpc.{rpc_cookie, pack_load_ta, take_load_ta, uuid_to_words}
use rustee.Supplicant.{Host, Supplicant, insert, fs, fs_read}
use rustee.Supplicant.Messages.{
  Desk, handle_msg, answer_msg, msg_params, msg_fs, put_answer, put_msg, name_from_tmem,
}
use rustee.Supplicant.LoadTa.{take_load_ta-handle_msg}
use rustee.Supplicant.FsMessages.{handle_msg-fs}

abbrev an_image : List ℕ
an_image = 0x7f ∷ 0x45 ∷ 0x4c ∷ 0x46 ∷ []

abbrev host : Host (Unit {0}) (Unit {0}) (Unit {0})
host = record {
  now = λ w. (1, 2);
  join = λ dir name. dir ++ (47 ∷ name);
  parent = λ path. none;
  from_utf8_lossy = λ name. name;
  create_dir_all = λ w path. (some tt, w);
  open_file = λ w create path. (some tt, w);
  read_whole = λ w path. (some an_image, w);
  seek = λ w f off. (some tt, w);
  read_some = λ w f n. (some (1 ∷ []), w);
  write_all = λ w f bytes. (some tt, w);
  set_len = λ w f n. (some tt, w);
  remove_file = λ w path. (some tt, w);
  read_dir = λ w path. (some tt, w);
  next_entry = λ w d. (none, d, w);
}

abbrev supp : Supplicant (Unit {0}) (Unit {0}) (Unit {0})
supp = record {
  root = [];
  files = insert (λ i. none) 1 tt;
  dirs = λ i. none;
  next_fd = 2;
  world = tt;
}

-- A pool of a little more than 8 MiB.
pool_size : ℕ
pool_size = 8388800

pool_size-eq : pool_size ≡ 8388800
unfolding pool_size
pool_size-eq = refl

pool : List ℕ
pool = replicate pool_size 0

length-pool : length pool ≡ pool_size
unfolding pool
length-pool = length-replicate {A = ℕ} pool_size 0

take_load_ta-handle_msg_example :
    (pool1 : List ℕ) × (pool2 : List ℕ) × (pack_load_ta pool (replicate 16 1)
      ≡ ok ((rpc_cookie, 96), pool1))
    × (handle_msg host rpc_cookie (record { supp = supp; bounce = pool1 })
        ≡ (ok 100, record { supp = supp; bounce = pool2 }))
    × (take_load_ta pool2 ≡ ok an_image)
unfolding uuid_to_words
take_load_ta-handle_msg_example =
    take_load_ta-handle_msg host supp tt (replicate 16 1) an_image pool (omega arith) (omega arith)
      refl (omega arith) (omega (arith, length-pool, pool_size-eq))
      (omega (arith, length-pool, pool_size-eq))

-- A read of the open file.
abbrev fs_hdr : MsgArgHdr
fs_hdr = record {
  cmd = 2;
  func = 0;
  session = 0;
  cancel_id = 0;
  pad = 0;
  ret = 0;
  ret_origin = 0;
  num_params = 1;
}

abbrev fs_param : MsgParam
fs_param = record { attr = 1; a = 3; b = 1; c = 0 }

abbrev fs_desk : Desk (Unit {0}) (Unit {0}) (Unit {0})
fs_desk = record { supp = supp; bounce = hdr_bytes fs_hdr ++ param_bytes fs_param }

fs_pool-IsBytes : IsBytes fs_desk.bounce
fs_pool-IsBytes = ground arith

fs_read_msg : decode_msg fs_desk.bounce 0 ≡ ok (fs_hdr, fs_param ∷ replicate 5 no_param, 64)
unfolding decode_msg slice_from decode_hdr read_params byte_size read_u32 read_u64 decode_param
fs_read_msg = refl

fs_done :
    (desk' : Desk (Unit {0}) (Unit {0}) (Unit {0})) × (handle_msg host 0 fs_desk ≡ (ok 64, desk'))
unfolding handle_msg answer_msg msg_params msg_fs fs fs_read put_answer put_msg name_from_tmem
    decode_msg slice_from decode_hdr read_params byte_size read_u32 read_u64 decode_param write_msg
    write_params encode_at encode_hdr encode_param
fs_done = (_, refl)

handle_msg-fs_example :
    decode_msg fs_done.0.bounce 0 ≡ ok (fs_hdr, fs_param ∷ replicate 5 no_param, 64)
handle_msg-fs_example =
    handle_msg-fs host 0 fs_desk fs_done.0 fs_hdr (fs_param ∷ replicate 5 no_param) 64 64
      fs_pool-IsBytes (omega arith) (omega arith) fs_read_msg refl refl fs_done.1
