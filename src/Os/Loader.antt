-- ===== src/Os/Loader.antt =====
-- crates/rustee-os/src/loader.rs: the verification of a signed image, and its parsing. The
-- cryptography is the provider that the kernel is built with.
use rustee.Prelude.{
  ℕ, List, [], ◌∷◌, ◌++◌, Option, none, some, Bool, true, false, not, length, leb, ◌==◌, ◌&&◌, ◌||◌,
  if◌then◌else◌, bytes_eq, Res, ok, err, panic, ◌>>=◌, ◌>>◌, ensure,
}
use rustee.Bytes.{to_le, read_u32}
use rustee.Os.Abi.{Uuid, tee_error_security}
use rustee.Os.Header.{TaProperties, SignedImage, parse_rtsg, rtsg_magic}
use rustee.Os.Elf.{TaEntryPoints, ElfImage, parse_elf}
pub mod Signed
pub mod Refusals

-- What the kernel calls of its crypto provider, and the public key that is built in.
pub record Crypto : Type 0 where
  pub sha256 : List ℕ → List ℕ
  pub rsa_pkcs1_verify : List ℕ → List ℕ → List ℕ → Bool
  pub v0_dev_pubkey : List ℕ

pub record EarlyTa : Type 0 where
  pub uuid : Uuid
  pub props : TaProperties
  pub image : List ℕ
  pub entries : Option TaEntryPoints

-- `EarlyTas::get`
unfoldable pub get_early : List EarlyTa → Uuid → Option EarlyTa
get_early [] u = none
get_early (t ∷ ts) u = if bytes_eq t.uuid u then some t else get_early ts u

pub record Loaded : Type 0 where
  pub props : TaProperties
  pub symbols : Option TaEntryPoints

-- What the signature covers: the UUID, the version and the image.
abbrev pub hashed : SignedImage → List ℕ
hashed img = img.uuid ++ (to_le 4 img.ta_version ++ img.elf)

abbrev pub is_signed : List ℕ → Bool
is_signed b = leb 4 (length b) && read_u32 b 0 == rtsg_magic

unfoldable pub verify_image : Crypto → List ℕ → Res ℕ (List ℕ)
verify_image c b = do
  img ← parse_rtsg b
  let digest = c.sha256 (hashed img)
  ensure (bytes_eq img.hash digest && c.rsa_pkcs1_verify c.v0_dev_pubkey digest img.sig)
      tee_error_security
  ok img.elf

unfoldable pub load_image : Crypto → List ℕ → Res ℕ Loaded
load_image c b = do
  elf ← if is_signed b then verify_image c b else ok b
  parsed ← parse_elf elf
  ok (record { props = parsed.props; symbols = parsed.symbols })
