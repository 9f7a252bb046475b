-- ===== src/Os/Loader/Refusals.antt =====
-- The codes with which the loader refuses an image (crates/rustee-os/src/header.rs, elf.rs and
-- loader.rs).
use rustee.Prelude.{
  [], zero, suc, ◌+◌, ◌*◌, ℕ, ◌≡◌, List, take, Option, none, some, Bool, true, false, not, ◌==◌,
  ◌||◌, length, ltb, leb, ◌&&◌, if◌then◌else◌, bytes_eq, min, ◌^◌, ◌-◌, Res, ok, err, panic, ◌>>=◌,
  ◌>>◌, ensure, ok_or, arith,
}
use rustee.Bytes.{get_range, c_str, read_u16, read_u32, read_u64, bytes_at, byte_at}
use rustee.Os.Abi.{tee_error_cancel, tee_error_bad_parameters, tee_error_security}
use rustee.Os.Header.{
  TaProperties, wrap, checked_slice, word_at, find_section, elf64_section, find_ta_head, validate,
  head_fields, parse_ta_head, parse_rtsg, section_name, elf_magic, rtah_size, rtah_magic,
  rtsg_magic,
}
use rustee.Os.Elf.{TaEntryPoints, load_segs, pt_load, ta_symbols, parse_elf, ok_of}
use rustee.Os.Loader.{Crypto, hashed, is_signed, verify_image, load_image}

-- BAD_PARAMETERS, SECURITY or CANCEL.
abbrev pub is_refusal : ℕ → Bool
is_refusal code =
    code == tee_error_bad_parameters || (code == tee_error_security || code == tee_error_cancel)

-- An error, if it is one, has such a code.
pub record Refuses {A : Type 0} (r : Res ℕ A) : Type 0 where
  pub code_of : (code : ℕ) → r ≡ err code → is_refusal code ≡ true

ok-Refuses : {A : Type 0} (value : A) → Refuses {A = A} (ok value)
ok-Refuses value = record { code_of = λ code e. cc }

panic-Refuses : {A : Type 0} → Refuses {A = A} panic
panic-Refuses = record { code_of = λ code e. cc }

bad-Refuses : {A : Type 0} → Refuses {A = A} (err tee_error_bad_parameters)
bad-Refuses = record { code_of = λ code e. ground arith }

>>=-Refuses :
    {A B : Type 0} (before : Res ℕ A) (next : A → Res ℕ B)
    → Refuses before
    → ((value : A) → Refuses (next value))
    → Refuses (before >>= next)
>>=-Refuses (ok value) next h rest = rest value
>>=-Refuses panic next h rest = panic-Refuses
>>=-Refuses (err code) next h rest = record { code_of = λ c e. h.code_of c cc }

ok_or-Refuses : {A : Type 0} (found : Option A) → Refuses (ok_or found tee_error_bad_parameters)
ok_or-Refuses none = bad-Refuses
ok_or-Refuses (some value) = ok-Refuses value

if-Refuses :
    {A : Type 0} (test : Bool) (a b : Res ℕ A)
    → Refuses a
    → Refuses b
    → Refuses (if test then a else b)
if-Refuses true a b h g = h
if-Refuses false a b h g = g

-- A check of the arguments, and what follows it.
checks :
    {B : Type 0} (test : Bool) (next : Res ℕ B)
    → Refuses next
    → Refuses (ensure test tee_error_bad_parameters >> next)
checks true next h = h
checks false next h = bad-Refuses

word_at-Refuses : (b : List ℕ) (off n : ℕ) → Refuses (word_at b off n)
unfolding word_at checked_slice
word_at-Refuses b off n =
    >>=-Refuses (checked_slice b off n) _ (if-Refuses _ _ _ (ok-Refuses _) panic-Refuses)
      λ w. ok-Refuses _

-- A word, and what follows it.
words :
    {B : Type 0} (b : List ℕ) (off n : ℕ) (next : ℕ → Res ℕ B)
    → ((w : ℕ) → Refuses (next w))
    → Refuses (word_at b off n >>= next)
words b off n next h = >>=-Refuses (word_at b off n) next (word_at-Refuses b off n) h

named-Refuses :
    {A : Type 0} (found : Option (List ℕ)) (name : List ℕ) (hit rest : Res ℕ A)
    → Refuses hit
    → Refuses rest
    → Refuses (elim found [ none ↦ rest | some s ↦ if bytes_eq s name then hit else rest ])
named-Refuses none name hit rest h r = r
named-Refuses (some s) name hit rest h r = if-Refuses (bytes_eq s name) hit rest h r

find_section-Refuses :
    (image name strtab : List ℕ) (shoff shentsize i count : ℕ)
    → Refuses (find_section image name strtab shoff shentsize i count)
unfolding find_section
find_section-Refuses image name strtab shoff shentsize i zero = bad-Refuses
find_section-Refuses image name strtab shoff shentsize i (suc count) =
    let off = wrap (shoff + wrap (i * shentsize)) in
    let rest = find_section-Refuses image name strtab shoff shentsize (i + 1) count in
    checks (leb (wrap (off + 64)) (length image)) _ (
      words image off 4 _ λ name_off. words image (wrap (off + 24)) 8 _ λ sec_off.
        words image (wrap (off + 32)) 8 _ λ sec_size.
          named-Refuses (c_str strtab name_off) name _ _
            (ok_or-Refuses (get_range image sec_off (min (sec_off + sec_size) (2 ^ 64 - 1)))) rest)

elf64_section-Refuses : (image name : List ℕ) → Refuses (elf64_section image name)
unfolding elf64_section
elf64_section-Refuses image name =
    let shoff = read_u64 image 40 in
    let shentsize = read_u16 image 58 in
    let shstr = wrap (shoff + wrap (read_u16 image 62 * shentsize)) in
    checks
      (leb 64 (length image)
        && (bytes_eq (bytes_at image 0 4) elf_magic
            && (byte_at image 4 == 2 && byte_at image 5 == 1)))
      _
      (checks (leb 64 shentsize && not (shoff == 0)) _ (
        checks (leb (wrap (shstr + 64)) (length image)) _ (
          words image (wrap (shstr + 24)) 8 _ λ off. words image (wrap (shstr + 32)) 8 _ λ size.
            >>=-Refuses
              (ok_or (get_range image off (min (off + size) (2 ^ 64 - 1))) tee_error_bad_parameters)
              _ (ok_or-Refuses _)
              λ strtab.
                find_section-Refuses image name strtab shoff shentsize 0 (read_u16 image 60))))

load_segs-Refuses :
    (b : List ℕ) (phoff phentsize i count : ℕ) → Refuses (load_segs b phoff phentsize i count)
unfolding load_segs
load_segs-Refuses b phoff phentsize i zero = ok-Refuses []
load_segs-Refuses b phoff phentsize i (suc count) =
    let o = wrap (phoff + wrap (i * phentsize)) in
    let rest = load_segs-Refuses b phoff phentsize (i + 1) count in
    checks (leb (wrap (o + 56)) (length b)) _ (
      words b o 4 _ λ p_type. if-Refuses (not (p_type == 1)) _ _ rest (
        words b (wrap (o + 4)) 4 _ λ flags. words b (wrap (o + 8)) 8 _ λ off.
          words b (wrap (o + 16)) 8 _ λ va. words b (wrap (o + 32)) 8 _ λ filesz.
            words b (wrap (o + 40)) 8 _ λ memsz.
              >>=-Refuses (load_segs b phoff phentsize (i + 1) count) _ rest λ segs. ok-Refuses _))

validate-Refuses : (p : TaProperties) → Refuses (validate p)
unfolding validate
validate-Refuses p = checks (p.endian == 0) _ (
    checks (not (p.stack_size == 0 || p.data_size == 0)) _ (
      checks (not (not p.single_instance && (p.multi_session || p.instance_keep_alive))) _
        (ok-Refuses tt)))

parse_ta_head-Refuses : (b : List ℕ) → Refuses (parse_ta_head b)
unfolding parse_ta_head
parse_ta_head-Refuses b = checks (leb rtah_size (length b)) _ (
    checks (read_u32 b 0 == rtah_magic && (read_u16 b 4 == 0 && read_u16 b 6 == rtah_size)) _ (
      >>=-Refuses (validate (head_fields b)) _ (validate-Refuses (head_fields b))
        λ u. ok-Refuses (head_fields b)))

find_ta_head-Refuses : (b : List ℕ) → Refuses (find_ta_head b)
unfolding find_ta_head
find_ta_head-Refuses b =
    if-Refuses (leb 40 (length b) && read_u32 b 0 == rtah_magic) _ _ (ok-Refuses (take 40 b))
      (elf64_section-Refuses b section_name)

symbols-Refuses : (r : Res ℕ TaEntryPoints) → Refuses (ok_of r)
symbols-Refuses (ok s) = ok-Refuses (some s)
symbols-Refuses (err e) = ok-Refuses none
symbols-Refuses panic = panic-Refuses

parse_elf-Refuses : (b : List ℕ) → Refuses (parse_elf b)
unfolding parse_elf pt_load
parse_elf-Refuses b = >>=-Refuses (find_ta_head b) _ (find_ta_head-Refuses b) λ head.
    >>=-Refuses (parse_ta_head head) _ (parse_ta_head-Refuses head) λ props.
      if-Refuses (ltb (length b) 64 || not (bytes_eq (bytes_at b 0 4) elf_magic)) _ _ (ok-Refuses _)
        (>>=-Refuses (pt_load b) _ (load_segs-Refuses b _ _ 0 _) λ segs.
          >>=-Refuses (ok_of (ta_symbols b)) _ (symbols-Refuses (ta_symbols b)) λ s. ok-Refuses _)

-- A check of the origin, and what follows it.
guards :
    {B : Type 0} (test : Bool) (next : Res ℕ B)
    → Refuses next
    → Refuses (ensure test tee_error_security >> next)
guards true next h = h
guards false next h = record { code_of = λ code e. ground arith }

verify_image-Refuses : (c : Crypto) (b : List ℕ) → Refuses (verify_image c b)
unfolding verify_image parse_rtsg
verify_image-Refuses c b =
    >>=-Refuses (parse_rtsg b) _
      (checks (leb 40 (length b)) _ (
        guards (read_u32 b 0 == rtsg_magic && read_u16 b 4 == 0) _ (
          checks (leb (36 + read_u16 b 32 + read_u16 b 34 + read_u32 b 28) (length b)) _
            (ok-Refuses _))))
      λ img.
        guards
          (bytes_eq img.hash (c.sha256 (hashed img))
            && c.rsa_pkcs1_verify c.v0_dev_pubkey (c.sha256 (hashed img)) img.sig)
          _ (ok-Refuses img.elf)

-- An image that is refused is refused with such a code.
pub load_image-Refuses : (c : Crypto) (b : List ℕ) → Refuses (load_image c b)
unfolding load_image
load_image-Refuses c b =
    >>=-Refuses (if is_signed b then verify_image c b else ok b) _
      (if-Refuses (is_signed b) _ _ (verify_image-Refuses c b) (ok-Refuses b))
      λ elf. >>=-Refuses (parse_elf elf) _ (parse_elf-Refuses elf) λ parsed. ok-Refuses _
