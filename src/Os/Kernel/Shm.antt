-- ===== src/Os/Kernel/Shm.antt =====
-- `map_params` and `unmap_params` of crates/rustee-os/src/lib.rs: the client's buffers are copied in
-- and mapped into the TA before a call, and copied out and unmapped after it.
use rustee.Prelude.{
  ℕ, ◌+◌, List, [], ◌∷◌, Option, none, some, Bool, true, false, ltb, if◌then◌else◌, ◌⊎◌, inl, inr,
}
use rustee.Os.Abi.{
  Param, empty, value, memref, ree, ta, Dir, dir_in, dir_out, dir_inout, ParamRaw, raw_memref,
  to_raw, tee_error_bad_parameters, tee_error_target_dead,
}
use rustee.Os.Header.{wrap}
use rustee.Os.Elf.{sat_add}
use rustee.Os.Kernel.Defs.{Hal, Perms, Kernel, change, with_aspace, aspace_of}

abbrev pub dir_perms : Dir → Perms
dir_perms dir_in = record { read = true; write = false; exec = false }
dir_perms dir_out = record { read = false; write = true; exec = false }
dir_perms dir_inout = record { read = true; write = true; exec = false }

abbrev pub reads : Dir → Bool
reads dir_out = false
reads _ = true

abbrev pub writes : Dir → Bool
writes dir_in = false
writes _ = true

module _ (H : Hal) where
  open H use {World, AddressSpace}

  -- How the loop over the parameters ends: all are mapped; or it returns an error with the address
  -- space put back in its instance; or it returns an error and the address space is gone, since it
  -- had been taken out of the instance.
  pub data Mapping : Type 0 where
    mapped : AddressSpace → List ParamRaw → List (Option ℕ) → World → Mapping
    kept : AddressSpace → World → Mapping
    lost : World → Mapping

  abbrev prepend : ParamRaw → Option ℕ → Mapping → Mapping
  prepend r v (mapped a rs vs w) = mapped a (r ∷ rs) (v ∷ vs) w
  prepend r v (kept a w) = kept a w
  prepend r v (lost w) = lost w

  -- The copy before a call, for a buffer that the TA reads.
  abbrev copy_in : Dir → ℕ → World → Option (Bool × World)
  copy_in d cookie w = if reads d then H.sync_in cookie w else some (true, w)

  -- One client buffer; `rest` maps the parameters behind it.
  unfoldable pub map_one :
      ℕ → ℕ → ℕ → Dir → AddressSpace → World → (AddressSpace → World → Mapping) → Mapping
  map_one cookie offs size d a w rest = elim (copy_in d cookie w) [
    | none ↦ lost w
    | some (false, w1) ↦ lost w1
    | some (true, w1) ↦ elim (H.lookup_shm cookie w1) [
      | none ↦ lost w1
      | some shm ↦
          if ltb (H.shm_len shm) (sat_add offs size)
          then kept a w1
          else (let r = H.map_into shm a (dir_perms d) w1 in
              elim r.0 [
                | none ↦ lost r.1
                | some (va, a') ↦
                    prepend (raw_memref (wrap (va + offs)) size) (some va) (rest a' r.1)
              ])
    ]
  ]

  unfoldable pub map_loop : List Param → AddressSpace → World → Mapping
  map_loop [] a w = mapped a [] [] w
  map_loop (memref (ree cookie offs) size d ∷ ps) a w =
      map_one cookie offs size d a w (λ a' w'. map_loop ps a' w')
  map_loop (memref (ta va) size d ∷ ps) a w =
      prepend (to_raw (memref (ta va) size d)) none (map_loop ps a w)
  map_loop (empty ∷ ps) a w = prepend (to_raw empty) none (map_loop ps a w)
  map_loop (value x y d ∷ ps) a w = prepend (to_raw (value x y d)) none (map_loop ps a w)

  unfoldable pub map_params :
      Kernel H → ℕ → List Param → (ℕ ⊎ (List ParamRaw × List (Option ℕ))) × Kernel H
  map_params k iid ps = elim (aspace_of H k iid) [
    | none ↦ (inl tee_error_target_dead, k)
    | some a ↦ elim (map_loop ps a k.hal) [
      | mapped a' raw vas w ↦
          (inr (raw, vas), record (change H iid (with_aspace H (some a')) k) { hal = w })
      | kept a' w ↦ (
        inl tee_error_bad_parameters,
        record (change H iid (with_aspace H (some a')) k) { hal = w },
      )
      | lost w ↦
          (inl tee_error_bad_parameters, record (change H iid (with_aspace H none) k) { hal = w })
    ]
  ]

  -- `let _ = shm.sync_out()` for a buffer that the TA writes.
  abbrev pub copy_out : Dir → ℕ → World → World
  copy_out d cookie w =
      if writes d then elim (H.sync_out cookie w) [ none ↦ w | some (_, w') ↦ w' ] else w

  -- The mapping of one buffer is taken out of the instance's address space, if there still is one.
  abbrev pub unmap_one : Kernel H → ℕ → Option ℕ → Kernel H
  unmap_one k iid none = k
  unmap_one k iid (some va) = elim (aspace_of H k iid) [
    | none ↦ k
    | some a ↦
        let r = H.unmap a va k.hal in
        record (change H iid (with_aspace H (some r.0)) k) { hal = r.1 }
  ]

  unfoldable pub unmap_params : Kernel H → ℕ → List Param → List (Option ℕ) → Kernel H
  unmap_params k iid (memref (ree cookie offs) size d ∷ ps) (v ∷ vs) =
      unmap_params (unmap_one (record k { hal = copy_out d cookie k.hal }) iid v) iid ps vs
  unmap_params k iid (p ∷ ps) (v ∷ vs) = unmap_params k iid ps vs
  unmap_params k iid ps vs = k
