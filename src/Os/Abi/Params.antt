-- ===== src/Os/Abi/Params.antt =====
-- What the marshalling of parameters (crates/rustee-os/src/abi.rs) promises.
use rustee.Prelude.{◌/◌, ◌%◌, ◌^◌, ◌<◌, ◌≡◌, refl, ap₂, List, [], ◌∷◌, arith}
use rustee.Os.Abi.{
  dir_in, dir_out, dir_inout, ree, ta, Param, empty, value, memref, type_of, param_types_of,
  params_to_raw, params_from_raw,
}

-- The four values of a value parameter are 32-bit words.
abbrev pub Words : List Param → Type 0
Words [] = Unit
Words (empty ∷ ps) = Words ps
Words (value a b d ∷ ps) = (a < 2 ^ 32) × (b < 2 ^ 32) × Words ps
Words (memref s n d ∷ ps) = Words ps

-- Parameters whose values are words of 32 bits are what they were after they have been turned into the
-- argument words of a call and read back from the same words.
pub params_from_raw-params_to_raw :
    (ps : List Param) → Words ps → params_from_raw ps (params_to_raw ps) ≡ ps
unfolding params_from_raw params_to_raw
params_from_raw-params_to_raw [] w = refl
params_from_raw-params_to_raw (empty ∷ ps) w = ap₂ ◌∷◌ refl (params_from_raw-params_to_raw ps w)
params_from_raw-params_to_raw (value a b dir_in ∷ ps) w =
    ap₂ ◌∷◌ refl (params_from_raw-params_to_raw ps w.2)
params_from_raw-params_to_raw (value a b dir_out ∷ ps) w =
    ap₂ ◌∷◌ (ground arith) (params_from_raw-params_to_raw ps w.2)
params_from_raw-params_to_raw (value a b dir_inout ∷ ps) w =
    ap₂ ◌∷◌ (ground arith) (params_from_raw-params_to_raw ps w.2)
params_from_raw-params_to_raw (memref (ree c o) n dir_in ∷ ps) w =
    ap₂ ◌∷◌ refl (params_from_raw-params_to_raw ps w)
params_from_raw-params_to_raw (memref (ree c o) n dir_out ∷ ps) w =
    ap₂ ◌∷◌ refl (params_from_raw-params_to_raw ps w)
params_from_raw-params_to_raw (memref (ree c o) n dir_inout ∷ ps) w =
    ap₂ ◌∷◌ refl (params_from_raw-params_to_raw ps w)
params_from_raw-params_to_raw (memref (ta v) n dir_in ∷ ps) w =
    ap₂ ◌∷◌ refl (params_from_raw-params_to_raw ps w)
params_from_raw-params_to_raw (memref (ta v) n dir_out ∷ ps) w =
    ap₂ ◌∷◌ refl (params_from_raw-params_to_raw ps w)
params_from_raw-params_to_raw (memref (ta v) n dir_inout ∷ ps) w =
    ap₂ ◌∷◌ refl (params_from_raw-params_to_raw ps w)

type_of-lt : (p : Param) → type_of p < 16
type_of-lt p = ground arith

-- The type word of four parameters holds their types, four bits each from the lowest on, and fits 16
-- bits.
pub param_types_of_nibbles :
    (p q r s : Param)
    → let t = param_types_of (p ∷ q ∷ r ∷ s ∷ []) in
      (t % 16 ≡ type_of p)
      × (t / 16 % 16 ≡ type_of q)
      × (t / 256 % 16 ≡ type_of r)
      × (t / 4096 ≡ type_of s)
      × (t < 2 ^ 16)
unfolding param_types_of
param_types_of_nibbles p q r s =
    omega (arith, type_of-lt p, type_of-lt q, type_of-lt r, type_of-lt s)
