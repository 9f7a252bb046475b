-- ===== src/Os/Tests.antt =====
-- The theorems on headers, images, parameters and tables at concrete data.
use rustee.Prelude.{
  ℕ, ◌≡◌, refl, List, [], ◌∷◌, ◌++◌, none, some, true, false, arith, length, replicate, bytes_eq,
  ◌==◌, ok, ◌>>◌, get_or,
}
use rustee.Slots
use rustee.Slots.{used}
use rustee.Bytes.{read_u16, read_u32, byte_at}
use rustee.Os.Abi.{Param, value, memref, ree, dir_out, dir_inout, public}
use rustee.Os.Header.{
  TaProperties, SignedImage, validate, encode_ta_head, parse_ta_head, parse_rtsg, head_fields,
  find_ta_head,
}
use rustee.Os.Header.TaHead.{Fits, parse-encode}
use rustee.Os.Elf.{parse_elf}
use rustee.Os.Loader.{Crypto, Loaded, load_image, verify_image}
use rustee.Os.Loader.Signed.{load_image-authentic}
use rustee.Os.Session.{Session, SessionTable, user_ta, ready}
use rustee.Os.Session
use rustee.Os.Session.Table.{IsValid, new-IsValid, alloc-refines, take-refines}
use rustee.Os.Instance.{Instance, InstanceTable, live}
use rustee.Os.Instance.Table
use rustee.Os.Instance.Table.{instance_alloc-refines}

abbrev small_props : TaProperties
small_props = record {
  uuid = replicate 16 9;
  stack_size = 4096;
  data_size = 8192;
  single_instance = true;
  multi_session = true;
  instance_keep_alive = false;
  endian = 0;
  ta_version = 1;
}

small_props-Fits : Fits small_props
small_props-Fits = record {
  uuid_length = refl;
  stack_fits = omega arith;
  data_fits = omega arith;
  endian_fits = omega arith;
  version_fits = omega arith;
}

parse-encode_example :
    (length (encode_ta_head small_props) ≡ 40)
    × (parse_ta_head (encode_ta_head small_props) ≡ (validate small_props >> ok small_props))
parse-encode_example = parse-encode small_props small_props-Fits

abbrev small_head : List ℕ
small_head =
    0x52
    ∷ 0x54
    ∷ 0x41
    ∷ 0x48
    ∷ 0
    ∷ 0
    ∷ 40
    ∷ 0
    ∷ (replicate 16 9 ++ (0 ∷ 16 ∷ 0 ∷ 0 ∷ 0 ∷ 32 ∷ 0 ∷ 0 ∷ 1 ∷ 1 ∷ 0 ∷ 0 ∷ 1 ∷ 0 ∷ 0 ∷ 0 ∷ []))

small_head-accepted : parse_ta_head small_head ≡ ok small_props
unfolding parse_ta_head head_fields validate read_u32 read_u16 byte_at
small_head-accepted = refl

-- An envelope of a digest of one byte, a signature of two and the header above.
abbrev pub small_envelope : List ℕ
small_envelope =
    0x52
    ∷ 0x54
    ∷ 0x53
    ∷ 0x47
    ∷ 0
    ∷ 0
    ∷ 0
    ∷ 0
    ∷ (replicate 16 9 ++ (1 ∷ 0 ∷ 0 ∷ 0 ∷ 40 ∷ 0 ∷ 0 ∷ 0 ∷ 1 ∷ 0 ∷ 2 ∷ 0 ∷ 77 ∷ 5 ∷ 6 ∷ small_head))

abbrev small_image : SignedImage
small_image = record {
  uuid = replicate 16 9;
  ta_version = 1;
  hash = 77 ∷ [];
  sig = 5 ∷ 6 ∷ [];
  elf = small_head;
}

small_envelope-accepted : parse_rtsg small_envelope ≡ ok small_image
unfolding parse_rtsg read_u32 read_u16
small_envelope-accepted = refl

-- A provider whose digest is one byte and which knows one signature.
abbrev pub toy_crypto : Crypto
toy_crypto = record {
  sha256 = λ b. 77 ∷ [];
  rsa_pkcs1_verify = λ k d s. get_or s 0 0 == 5;
  v0_dev_pubkey = [];
}

abbrev small_loaded : Loaded
small_loaded = record { props = small_props; symbols = none }

small_envelope-loaded : load_image toy_crypto small_envelope ≡ ok small_loaded
unfolding load_image verify_image parse_rtsg parse_elf find_ta_head parse_ta_head head_fields
    validate read_u32 read_u16 byte_at bytes_eq
small_envelope-loaded = refl

load_image-authentic_example : (img : SignedImage) × (parse_rtsg small_envelope ≡ ok img)
unfolding read_u32
load_image-authentic_example =
    let r =
      load_image-authentic toy_crypto small_envelope small_loaded refl small_envelope-loaded in
    (r.0, r.1)

abbrev two_params : List Param
two_params = value 7 8 dir_out ∷ memref (ree 1 0) 64 dir_inout ∷ []

abbrev a_session : Session
a_session = record {
  id = 0;
  uuid = replicate 16 9;
  kind = user_ta;
  instance_id = some 1;
  ta_sess_ctx = 7;
  state = ready;
  client = public;
}

alloc-refines_example : IsValid (Session.alloc (Session.new 2) a_session).1
unfolding Session.new
alloc-refines_example = (alloc-refines (Session.new 2) a_session (new-IsValid 2) (omega arith)).0

abbrev one_session : SessionTable
one_session = record { slots = some (record a_session { id = 1 }) ∷ none ∷ []; next_id = 2 }

one_session-IsValid : IsValid one_session
unfolding Slots.find
one_session-IsValid = record {
  distinct = (refl, tt);
  fresh = (omega arith, tt);
  positive = omega arith;
}

take-refines_example : (Session.take one_session 1).0 ≡ Session.get one_session 1
take-refines_example = (take-refines one_session 1 one_session-IsValid).1

abbrev an_instance : Instance ℕ
an_instance = record {
  id = 0;
  uuid = replicate 16 9;
  props = small_props;
  aspace = some 0;
  session_count = 0;
  state = live;
  entries = none;
  busy = false;
}

abbrev no_instances : InstanceTable ℕ
no_instances = record { slots = none ∷ none ∷ []; next_id = 1 }

no_instances-IsValid : Table.IsValid no_instances
no_instances-IsValid = record { distinct = tt; fresh = tt; positive = omega arith }
