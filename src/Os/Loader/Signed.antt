-- ===== src/Os/Loader/Signed.antt =====
-- What the loader has checked when it accepts an image.
use rustee.Prelude.{
  ℕ, ◌≡◌, ap, List, true, false, ◌==◌, ◌&&◌, arith, ok, err, Bool-cases, inl, inr, bytes_eq,
  bytes_eq_sound, >>=-eq-ok, leb, length, if◌then◌else◌,
}
use rustee.Bytes.{from_le, bytes_at, read_u32}
use rustee.Os.Abi.{tee_error_bad_parameters}
use rustee.Os.Header.{
  SignedImage, parse_rtsg, rtsg_magic, rtah_magic, elf_magic, find_ta_head, elf64_section,
  section_name,
}
use rustee.Os.Elf.{ElfImage, parse_elf}
use rustee.Os.Loader.{Crypto, Loaded, load_image, verify_image, hashed, is_signed}

signed_magic : (b : List ℕ) → is_signed b ≡ true → read_u32 b 0 ≡ rtsg_magic
signed_magic b h = ground arith

signed-not_elf : (b : List ℕ) → is_signed b ≡ true → bytes_eq (bytes_at b 0 4) elf_magic ≡ false
unfolding read_u32
signed-not_elf b h = elim (Bool-cases (bytes_eq (bytes_at b 0 4) elf_magic)) [
  | inl e ↦ absurd (omega (arith, signed_magic b h, ap from_le (bytes_eq_sound _ _ e)))
  | inr e ↦ e
]

elf64_section-not_elf :
    (b name : List ℕ)
    → bytes_eq (bytes_at b 0 4) elf_magic ≡ false
    → elf64_section b name ≡ err tee_error_bad_parameters
unfolding elf64_section
elf64_section-not_elf b name h = elim (Bool-cases (leb 64 (length b))) [
  | inl e ↦ rw (e, h)
  | inr e ↦ rw e
]

find_ta_head-signed :
    (b : List ℕ) → is_signed b ≡ true → find_ta_head b ≡ err tee_error_bad_parameters
unfolding find_ta_head
find_ta_head-signed b h =
    let other : (leb 40 (length b) && read_u32 b 0 == rtah_magic) ≡ false =
      ground (arith, signed_magic b h) in
    rw other (elf64_section-not_elf b section_name (signed-not_elf b h))

-- A signed envelope is no image itself: read as one, it is refused.
pub parse_elf-signed :
    (b : List ℕ) → is_signed b ≡ true → parse_elf b ≡ err tee_error_bad_parameters
unfolding parse_elf
parse_elf-signed b h = rw (find_ta_head-signed b h)

verify_image-lem :
    (c : Crypto) (b elf : List ℕ)
    → verify_image c b ≡ ok elf
    → (img : SignedImage) × (parse_rtsg b ≡ ok img)
      × (img.hash ≡ c.sha256 (hashed img))
      × (c.rsa_pkcs1_verify c.v0_dev_pubkey img.hash img.sig ≡ true)
      × (img.elf ≡ elf)
unfolding verify_image
verify_image-lem c b elf h =
    let p = >>=-eq-ok (parse_rtsg b) _ h in
    let img = p.0 in
    let t : (bytes_eq img.hash (c.sha256 (hashed img))
          && c.rsa_pkcs1_verify c.v0_dev_pubkey (c.sha256 (hashed img)) img.sig)
        ≡ true =
      ground (arith, p.2) in
    let same : img.hash ≡ c.sha256 (hashed img) = bytes_eq_sound _ _ (ground (arith, t)) in
    (img, p.1, same, rw same (ground (arith, t)), ground (arith, p.2))

-- An accepted signed image carries the digest of its UUID, version and ELF part, the built-in key
-- verifies its signature over that digest, and the properties and symbols are those of the ELF part.
pub load_image-authentic :
    (c : Crypto) (b : List ℕ) (l : Loaded)
    → is_signed b ≡ true
    → load_image c b ≡ ok l
    → (img : SignedImage) × (parse_rtsg b ≡ ok img)
      × (img.hash ≡ c.sha256 (hashed img))
      × (c.rsa_pkcs1_verify c.v0_dev_pubkey img.hash img.sig ≡ true)
      × ((e : ElfImage) × (parse_elf img.elf ≡ ok e)
          × (l.props ≡ e.props)
          × (l.symbols ≡ e.symbols))
unfolding load_image
load_image-authentic c b l s h =
    let p = >>=-eq-ok (if is_signed b then verify_image c b else ok b) _ h in
    let q = >>=-eq-ok (parse_elf p.0) _ p.2 in
    let v = verify_image-lem c b p.0 (rw s at p.1) in
    (v.0, v.1, v.2, v.3, (q.0, rw v.4 q.1, ground (arith, q.2), ground (arith, q.2)))
