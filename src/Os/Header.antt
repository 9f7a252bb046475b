-- ===== src/Os/Header.antt =====
-- crates/rustee-os/src/header.rs: the TA header `.rustee.ta_head`, the signed envelope RTSG, and the
-- section lookup of a 64-bit little-endian ELF. `usize` has 64 bits and wraps, as in a release build.
use rustee.Prelude.{
  ℕ, zero, suc, ◌+◌, ◌-◌, ◌*◌, ◌/◌, ◌%◌, ◌^◌, List, [], ◌∷◌, ◌++◌, Option, none, some, Bool, true,
  false, not, length, take, drop, ltb, leb, ◌==◌, ◌&&◌, ◌||◌, if◌then◌else◌, bytes_eq, min, Res, ok,
  err, panic, ◌>>=◌, ◌>>◌, ensure, ok_or,
}
use rustee.Bytes.{to_le, from_le, bytes_at, read_u16, read_u32, read_u64, byte_at, get_range, c_str}
use rustee.Os.Abi.{Uuid, tee_error_bad_parameters, tee_error_security}
pub mod TaHead
pub mod Envelope

abbrev pub rtah_magic : ℕ
rtah_magic = 0x48415452

abbrev pub rtah_size : ℕ
rtah_size = 40

abbrev pub rtsg_magic : ℕ
rtsg_magic = 0x47535452

-- `.rustee.ta_head`
abbrev pub section_name : List ℕ
section_name =
    b'.' ∷ b'r' ∷ b'u' ∷ b's' ∷ b't' ∷ b'e' ∷ b'e' ∷ b'.' ∷ b't' ∷ b'a' ∷ b'_' ∷ b'h' ∷ b'e' ∷ b'a'
    ∷ b'd' ∷ []

pub record TaProperties : Type 0 where
  pub uuid : Uuid
  pub stack_size : ℕ
  pub data_size : ℕ
  pub single_instance : Bool
  pub multi_session : Bool
  pub instance_keep_alive : Bool
  pub endian : ℕ
  pub ta_version : ℕ

unfoldable pub validate : TaProperties → Res ℕ (Unit {0})
validate p = do
  ensure (p.endian == 0) tee_error_bad_parameters
  ensure (not (p.stack_size == 0 || p.data_size == 0)) tee_error_bad_parameters
  ensure (not (not p.single_instance && (p.multi_session || p.instance_keep_alive)))
      tee_error_bad_parameters
  ok tt

-- The fields of a header of at least forty bytes.
unfoldable pub head_fields : List ℕ → TaProperties
head_fields b = record {
  uuid = bytes_at b 8 16;
  stack_size = read_u32 b 24;
  data_size = read_u32 b 28;
  single_instance = not (byte_at b 32 == 0);
  multi_session = not (byte_at b 33 == 0);
  instance_keep_alive = not (byte_at b 34 == 0);
  endian = byte_at b 35;
  ta_version = read_u32 b 36;
}

unfoldable pub parse_ta_head : List ℕ → Res ℕ TaProperties
unfolding validate head_fields
parse_ta_head b = do
  ensure (leb rtah_size (length b)) tee_error_bad_parameters
  ensure (read_u32 b 0 == rtah_magic && (read_u16 b 4 == 0 && read_u16 b 6 == rtah_size))
      tee_error_bad_parameters
  validate (head_fields b)
  ok (head_fields b)

abbrev bool_byte : Bool → ℕ
bool_byte b = if b then 1 else 0

unfoldable pub encode_ta_head : TaProperties → List ℕ
encode_ta_head p =
    to_le 4 rtah_magic
    ++ (to_le 2 0
        ++ (to_le 2 rtah_size
            ++ (p.uuid
                ++ (to_le 4 p.stack_size
                    ++ (to_le 4 p.data_size
                        ++ (bool_byte p.single_instance
                            ∷ bool_byte p.multi_session
                            ∷ bool_byte p.instance_keep_alive
                            ∷ p.endian
                            ∷ to_le 4 p.ta_version))))))

pub record SignedImage : Type 0 where
  pub uuid : Uuid
  pub ta_version : ℕ
  pub hash : List ℕ
  pub sig : List ℕ
  pub elf : List ℕ

-- The sizes are 16 and 32-bit words, so their sum does not wrap.
unfoldable pub parse_rtsg : List ℕ → Res ℕ SignedImage
parse_rtsg b = do
  ensure (leb 40 (length b)) tee_error_bad_parameters
  ensure (read_u32 b 0 == rtsg_magic && read_u16 b 4 == 0) tee_error_security
  let img_size = read_u32 b 28
  let hash_size = read_u16 b 32
  let sig_size = read_u16 b 34
  ensure (leb (36 + hash_size + sig_size + img_size) (length b)) tee_error_bad_parameters
  ok (record {
    uuid = bytes_at b 8 16;
    ta_version = read_u32 b 24;
    hash = bytes_at b 36 hash_size;
    sig = bytes_at b (36 + hash_size) sig_size;
    elf = bytes_at b (36 + hash_size + sig_size) img_size;
  })

-- `a + b` and `a * b` on usize in a release build.
abbrev pub wrap : ℕ → ℕ
wrap n = n % 2 ^ 64

-- `image[off..off + n]`, where the end wraps: a panic unless the range lies inside.
unfoldable pub checked_slice : List ℕ → ℕ → ℕ → Res ℕ (List ℕ)
checked_slice b off n =
    let to = wrap (off + n) in
    if leb off to && leb to (length b) then ok (bytes_at b off (to - off)) else panic

abbrev pub elf_magic : List ℕ
elf_magic = 0x7f ∷ b'E' ∷ b'L' ∷ b'F' ∷ []

-- The words of a section header of 64 bytes at `off`.
unfoldable pub word_at : List ℕ → ℕ → ℕ → Res ℕ ℕ
unfolding checked_slice
word_at b off n = do w ← checked_slice b off n; ok (from_le w)

-- `for i in 0..shnum`, from section `i` on with `count` of them left.
unfoldable pub find_section : List ℕ → List ℕ → List ℕ → ℕ → ℕ → ℕ → ℕ → Res ℕ (List ℕ)
unfolding word_at c_str
find_section image name strtab shoff shentsize i zero = err tee_error_bad_parameters
find_section image name strtab shoff shentsize i (suc count) =
    let off = wrap (shoff + wrap (i * shentsize)) in
    let rest = find_section image name strtab shoff shentsize (i + 1) count in
    do
      ensure (leb (wrap (off + 64)) (length image)) tee_error_bad_parameters
      name_off ← word_at image off 4
      sec_off ← word_at image (wrap (off + 24)) 8
      sec_size ← word_at image (wrap (off + 32)) 8
      elim (c_str strtab name_off) [
        | none ↦ rest
        | some s ↦
            if bytes_eq s name
            then ok_or (get_range image sec_off (min (sec_off + sec_size) (2 ^ 64 - 1)))
                tee_error_bad_parameters
            else rest
      ]

unfoldable pub elf64_section : List ℕ → List ℕ → Res ℕ (List ℕ)
unfolding find_section word_at
elf64_section image name = do
  ensure
      (leb 64 (length image)
        && (bytes_eq (bytes_at image 0 4) elf_magic
            && (byte_at image 4 == 2 && byte_at image 5 == 1)))
      tee_error_bad_parameters
  let shoff = read_u64 image 40
  let shentsize = read_u16 image 58
  let shnum = read_u16 image 60
  let shstrndx = read_u16 image 62
  ensure (leb 64 shentsize && not (shoff == 0)) tee_error_bad_parameters
  let shstr = wrap (shoff + wrap (shstrndx * shentsize))
  ensure (leb (wrap (shstr + 64)) (length image)) tee_error_bad_parameters
  str_off ← word_at image (wrap (shstr + 24)) 8
  str_size ← word_at image (wrap (shstr + 32)) 8
  strtab ←
      ok_or (get_range image str_off (min (str_off + str_size) (2 ^ 64 - 1)))
        tee_error_bad_parameters
  find_section image name strtab shoff shentsize 0 shnum

unfoldable pub find_ta_head : List ℕ → Res ℕ (List ℕ)
find_ta_head image =
    if leb 40 (length image) && read_u32 image 0 == rtah_magic
    then ok (take 40 image)
    else elf64_section image section_name
