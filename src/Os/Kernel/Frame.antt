-- ===== src/Os/Kernel/Frame.antt =====
-- What the mapping of a call's buffers (`map_params` and `unmap_params` of crates/rustee-os/src/lib.rs)
-- leaves alone.
use rustee.Prelude.{
  ℕ, ◌≡◌, ◌≢◌, refl, ◌∙◌, List, [], ◌∷◌, Option, none, some, arith, Option-cases, inl, inr, ◌⊎◌,
}
use rustee.Os.Abi.{Param, ParamRaw, memref, ree, ta, empty, value}
use rustee.Os.Instance.{Instance, InstanceTable, InstanceState}
use rustee.Os.Instance
use rustee.Os.Instance.Table
use rustee.Os.Instance.Table.{get-update, update-IsValid}
use rustee.Os.Kernel.Defs.{Hal, Kernel, change, with_aspace, aspace_of}
use rustee.Os.Kernel.Shm.{
  Mapping, mapped, kept, lost, map_loop, map_params, unmap_params, unmap_one, copy_out,
}

module _ (H : Hal) where
  open H use {World, AddressSpace}

  -- Two kernels that differ in the HAL's state and the address space of one instance at most.
  pub record SameBut (iid : ℕ) (k k' : Kernel H) : Type 0 where
    pub sessions : k'.sessions ≡ k.sessions
    pub cancelled : k'.cancelled ≡ k.cancelled
    pub yielding : k'.yielding ≡ k.yielding
    pub notices_ok : k'.notices_ok ≡ k.notices_ok
    pub current_instance : k'.current_instance ≡ k.current_instance
    pub next_id : k'.instances.next_id ≡ k.instances.next_id
    pub valid : Table.IsValid k.instances → Table.IsValid k'.instances
    pub others : (j : ℕ) → j ≢ iid → Instance.get k'.instances j ≡ Instance.get k.instances j
    pub absent : Instance.get k.instances iid ≡ none → Instance.get k'.instances iid ≡ none
    pub self :
        (i : Instance AddressSpace)
        → Instance.get k.instances iid ≡ some i
        → (a : Option AddressSpace) × (Instance.get k'.instances iid ≡ some (with_aspace H a i))

  SameBut-refl : (iid : ℕ) (k : Kernel H) → SameBut iid k k
  SameBut-refl iid k = record {
    sessions = refl;
    cancelled = refl;
    yielding = refl;
    notices_ok = refl;
    current_instance = refl;
    next_id = refl;
    valid = λ v. v;
    others = λ j h. refl;
    absent = λ h. h;
    self = λ i h. (i.aspace, h);
  }

  SameBut-trans : (iid : ℕ) (k l m : Kernel H) → SameBut iid k l → SameBut iid l m → SameBut iid k m
  SameBut-trans iid k l m p q = record {
    sessions = q.sessions ∙ p.sessions;
    cancelled = q.cancelled ∙ p.cancelled;
    yielding = q.yielding ∙ p.yielding;
    notices_ok = q.notices_ok ∙ p.notices_ok;
    current_instance = q.current_instance ∙ p.current_instance;
    next_id = q.next_id ∙ p.next_id;
    valid = λ v. q.valid (p.valid v);
    others = λ j h. q.others j h ∙ p.others j h;
    absent = λ h. q.absent (p.absent h);
    self = λ i h. let r = p.self i h in let t = q.self _ r.1 in (t.0, t.1);
  }

  SameBut-aspace :
      (iid : ℕ) (k : Kernel H) (a : Option AddressSpace) (w : World)
      → SameBut iid k (record (change H iid (with_aspace H a) k) { hal = w })
  unfolding Instance.update
  SameBut-aspace iid k a w = record {
    sessions = refl;
    cancelled = refl;
    yielding = refl;
    notices_ok = refl;
    current_instance = refl;
    next_id = refl;
    valid = λ v. update-IsValid (with_aspace H a) (λ i. refl) k.instances iid v;
    others = λ j h. ground (arith, get-update (with_aspace H a) (λ i. refl) k.instances iid j);
    absent = λ h. ground (arith, get-update (with_aspace H a) (λ i. refl) k.instances iid iid);
    self = λ i h. (a, ground (arith, get-update (with_aspace H a) (λ i. refl) k.instances iid iid));
  }

  SameBut-hal : (iid : ℕ) (k : Kernel H) (w : World) → SameBut iid k (record k { hal = w })
  SameBut-hal iid k w = record {
    sessions = refl;
    cancelled = refl;
    yielding = refl;
    notices_ok = refl;
    current_instance = refl;
    next_id = refl;
    valid = λ v. v;
    others = λ j h. refl;
    absent = λ h. h;
    self = λ i h. (i.aspace, h);
  }

  Mapping-cases :
      (m : Mapping H)
      → ((a : AddressSpace) × (rs : List ParamRaw) × (vs : List (Option ℕ)) × (w : World) × (m
            ≡ mapped a rs vs w))
        ⊎ (((a : AddressSpace) × (w : World) × (m ≡ kept a w)) ⊎ ((w : World) × (m ≡ lost w)))
  Mapping-cases (mapped a rs vs w) = inl (a, rs, vs, w, refl)
  Mapping-cases (kept a w) = inr (inl (a, w, refl))
  Mapping-cases (lost w) = inr (inr (w, refl))

  -- Mapping a call's buffers touches nothing but the HAL and the address space of the called instance.
  pub map_params-SameBut :
      (k : Kernel H) (iid : ℕ) (ps : List Param) → SameBut iid k (map_params H k iid ps).1
  unfolding map_params
  map_params-SameBut k iid ps = elim (Option-cases (aspace_of H k iid)) [
    | inl e ↦ rw (e, map_params) (SameBut-refl iid k)
    | inr (a, e) ↦ elim (Mapping-cases (map_loop H ps a k.hal)) [
      | inl (a', rs, vs, w, f) ↦ rw (e, f, map_params) (SameBut-aspace iid k (some a') w)
      | inr (inl (a', w, f)) ↦ rw (e, f, map_params) (SameBut-aspace iid k (some a') w)
      | inr (inr (w, f)) ↦ rw (e, f, map_params) (SameBut-aspace iid k none w)
    ]
  ]

  unmap_one-SameBut : (k : Kernel H) (iid : ℕ) (v : Option ℕ) → SameBut iid k (unmap_one H k iid v)
  unmap_one-SameBut k iid none = SameBut-refl iid k
  unmap_one-SameBut k iid (some va) = elim (Option-cases (aspace_of H k iid)) [
    | inl e ↦ rw (e, unmap_one) (SameBut-refl iid k)
    | inr (a, e) ↦ rw (e, unmap_one) (SameBut-aspace iid k _ _)
  ]

  pub unmap_params-SameBut :
      (k : Kernel H) (iid : ℕ) (ps : List Param) (vs : List (Option ℕ))
      → SameBut iid k (unmap_params H k iid ps vs)
  unfolding unmap_params
  unmap_params-SameBut k iid [] vs = SameBut-refl iid k
  unmap_params-SameBut k iid (memref (ree cookie offs) size d ∷ ps) [] = SameBut-refl iid k
  unmap_params-SameBut k iid (memref (ta va) size d ∷ ps) [] = SameBut-refl iid k
  unmap_params-SameBut k iid (empty ∷ ps) [] = SameBut-refl iid k
  unmap_params-SameBut k iid (value x y d ∷ ps) [] = SameBut-refl iid k
  unmap_params-SameBut k iid (memref (ree cookie offs) size d ∷ ps) (v ∷ vs) =
      let k1 : Kernel H = record k { hal = copy_out H d cookie k.hal } in
      let k2 : Kernel H = unmap_one H k1 iid v in
      SameBut-trans iid k k1 _ (SameBut-hal iid k _)
        (SameBut-trans iid k1 k2 _ (unmap_one-SameBut k1 iid v) (unmap_params-SameBut k2 iid ps vs))
  unmap_params-SameBut k iid (memref (ta va) size d ∷ ps) (v ∷ vs) =
      unmap_params-SameBut k iid ps vs
  unmap_params-SameBut k iid (empty ∷ ps) (v ∷ vs) = unmap_params-SameBut k iid ps vs
  unmap_params-SameBut k iid (value x y d ∷ ps) (v ∷ vs) = unmap_params-SameBut k iid ps vs
