-- ===== src/Os/Header/TaHead.antt =====
-- The TA header: what the parser accepts, and that it reads back what the encoder wrote.
use rustee.Prelude.{
  not, ◌&&◌, ◌||◌, ℕ, ◌^◌, ◌<◌, ◌≤◌, ◌≡◌, refl, ap, List, false, arith, length, length-append,
  if◌then◌else◌, ◌>>◌, ok,
}
use rustee.Bytes.{bytes_at, read_u16, read_u32, byte_at}
use rustee.Bytes.Laws.{from_le-to_le, drop-skip, take-exact}
use rustee.Os.Header.{
  TaProperties, validate, head_fields, parse_ta_head, encode_ta_head, rtah_size, rtah_magic,
}

-- The fields fit their words.
pub record Fits (p : TaProperties) : Type 0 where
  pub uuid_length : length p.uuid ≡ 16
  pub stack_fits : p.stack_size < 2 ^ 32
  pub data_fits : p.data_size < 2 ^ 32
  pub endian_fits : p.endian < 256
  pub version_fits : p.ta_version < 2 ^ 32

module _ (p : TaProperties) (f : Fits p) where
  read_uuid : bytes_at (encode_ta_head p) 8 16 ≡ p.uuid
  unfolding encode_ta_head
  read_uuid = take-exact p.uuid _ 16 (omega (arith, f.uuid_length))

  read_stack : read_u32 (encode_ta_head p) 24 ≡ p.stack_size
  unfolding encode_ta_head read_u32
  read_stack =
      rw (drop-skip p.uuid _ 16 0 (omega (arith, f.uuid_length))) (from_le-to_le 4 _ f.stack_fits)

  read_data : read_u32 (encode_ta_head p) 28 ≡ p.data_size
  unfolding encode_ta_head read_u32
  read_data =
      rw (drop-skip p.uuid _ 20 4 (omega (arith, f.uuid_length))) (from_le-to_le 4 _ f.data_fits)

  read_single : byte_at (encode_ta_head p) 32 ≡ (if p.single_instance then 1 else 0)
  unfolding encode_ta_head byte_at
  read_single = rw (drop-skip p.uuid _ 24 8 (omega (arith, f.uuid_length))) (omega arith)

  read_multi : byte_at (encode_ta_head p) 33 ≡ (if p.multi_session then 1 else 0)
  unfolding encode_ta_head byte_at
  read_multi = rw (drop-skip p.uuid _ 25 9 (omega (arith, f.uuid_length))) (omega arith)

  read_keep : byte_at (encode_ta_head p) 34 ≡ (if p.instance_keep_alive then 1 else 0)
  unfolding encode_ta_head byte_at
  read_keep = rw (drop-skip p.uuid _ 26 10 (omega (arith, f.uuid_length))) (omega arith)

  read_endian : byte_at (encode_ta_head p) 35 ≡ p.endian
  unfolding encode_ta_head byte_at
  read_endian = rw (drop-skip p.uuid _ 27 11 (omega (arith, f.uuid_length))) (omega arith)

  read_version : read_u32 (encode_ta_head p) 36 ≡ p.ta_version
  unfolding encode_ta_head read_u32
  read_version =
      rw (drop-skip p.uuid _ 28 12 (omega (arith, f.uuid_length)))
        (from_le-to_le 4 _ f.version_fits)

  read_prefix :
      (read_u32 (encode_ta_head p) 0 ≡ rtah_magic)
      × (read_u16 (encode_ta_head p) 4 ≡ 0)
      × (read_u16 (encode_ta_head p) 6 ≡ rtah_size)
  unfolding encode_ta_head read_u32 read_u16
  read_prefix = (refl, refl, refl)

  head_fields-encode_ta_head : head_fields (encode_ta_head p) ≡ p
  unfolding head_fields
  head_fields-encode_ta_head = ground (
    arith, read_uuid, read_stack, read_data, read_single, read_multi, read_keep, read_endian,
    read_version,
  )

  pub length-encode_ta_head : length (encode_ta_head p) ≡ 40
  unfolding encode_ta_head
  length-encode_ta_head = omega (arith, f.uuid_length, length-append {0} p.uuid)

  -- A header that the encoder writes is forty bytes long and starts with the magic number, and the
  -- parser returns its fields if they pass `validate`, and the error of `validate` otherwise.
  pub parse-encode :
      (length (encode_ta_head p) ≡ 40) × (parse_ta_head (encode_ta_head p) ≡ (validate p >> ok p))
  unfolding parse_ta_head
  parse-encode = (
    length-encode_ta_head,
    rw (length-encode_ta_head, read_prefix.0, read_prefix.1, read_prefix.2)
        (ap (λ q. validate q >> ok q) head_fields-encode_ta_head),
  )

-- Whatever bytes arrive, an accepted header has forty bytes and the magic number, and it passes
-- `validate`: it is little-endian, it has a stack and a data segment, and it is not a TA with several
-- instances that has several sessions or is kept alive.
pub parse_ta_head-valid :
    (b : List ℕ) (p : TaProperties)
    → parse_ta_head b ≡ ok p
    → (40 ≤ length b)
      × (read_u32 b 0 ≡ rtah_magic)
      × (p.endian ≡ 0)
      × (0 < p.stack_size)
      × (0 < p.data_size)
      × ((not p.single_instance && (p.multi_session || p.instance_keep_alive)) ≡ false)
unfolding parse_ta_head
parse_ta_head-valid b p h = ground arith
