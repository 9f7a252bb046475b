-- ===== src/Os/Kernel/Loading.antt =====
-- The load path of a TA that the REE delivers (`rpc_complete` of crates/rustee-os/src/lib.rs).
use rustee.Prelude.{
  ℕ, ◌≡◌, refl, List, Option, none, some, true, Bool-cases, inl, inr, err, bytes_eq, Res-cases,
}
use rustee.Os.Abi.{tee_error_bad_parameters, done_err}
use rustee.Os.Loader.{Crypto, Loaded, load_image, is_signed}
use rustee.Os.Loader.Refusals.{is_refusal, load_image-Refuses}
use rustee.Os.Loader.Signed.{parse_elf-signed}
use rustee.Os.Kernel.Defs.{Hal, Kernel, Reply, is_cancelled, Yielding}
use rustee.Os.Kernel.Handle.{map_elf, start_loaded, load_ta}

module _ (H : Hal) where
  map_elf-signed :
      (a : H.AddressSpace) (b : List ℕ) (w : H.World)
      → is_signed b ≡ true
      → map_elf H a b w ≡ (err tee_error_bad_parameters, w)
  unfolding map_elf
  map_elf-signed a b w h = rw (parse_elf-signed b h, map_elf)

module _ (H : Hal) (C : Crypto) where
  -- What is left of a call that starts nothing: BAD_PARAMETERS, SECURITY or CANCEL, and a kernel whose
  -- tables are as before.
  abbrev pub StartsNothing : Kernel H → Option (Reply H) → Type 0
  StartsNothing k none = Unit
  StartsNothing k (some (out, k')) =
      ((code : ℕ) × (out ≡ done_err code) × (is_refusal code ≡ true))
      × (k'.sessions ≡ k.sessions)
      × (k'.instances ≡ k.instances)

  start_loaded-signed :
      (k : Kernel H) (y : Yielding) (bytes : List ℕ) (l : Loaded)
      → is_signed bytes ≡ true
      → StartsNothing k (start_loaded H C k y bytes l)
  unfolding start_loaded
  start_loaded-signed k y bytes l s = elim (Bool-cases (bytes_eq l.props.uuid y.uuid)) [
    | inl e ↦
        let n = H.new_address_space k.hal in
        rw (e, map_elf-signed H n.0 bytes n.1 s) ((_, refl, refl), refl, refl)
    | inr e ↦ rw e ((_, refl, refl), refl, refl)
  ]

  -- A signed image never starts: whatever the kernel's state and the crypto provider, even if the
  -- signature is good, either the kernel panics or the answer is BAD_PARAMETERS, SECURITY or CANCEL, and
  -- neither a session nor an instance has been entered.
  pub load_ta-signed :
      (k : Kernel H) (y : Yielding) (bytes : List ℕ)
      → is_signed bytes ≡ true
      → StartsNothing k (load_ta H C k y bytes)
  unfolding load_ta
  load_ta-signed k y bytes s = elim (Bool-cases (is_cancelled k.cancelled y.cancel_id)) [
    | inl e ↦ rw e ((_, refl, refl), refl, refl)
    | inr e ↦ elim (Res-cases (load_image C bytes)) [
      | inl (l, f) ↦ rw (e, f) (start_loaded-signed k y bytes l s)
      | inr (inl (code, f)) ↦
          rw (e, f) ((code, refl, (load_image-Refuses C bytes).code_of code f), refl, refl)
      | inr (inr f) ↦ rw (e, f) tt
    ]
  ]
