-- ===== src/Os/Instance/Table.antt =====
-- The instance table as a finite map from ids to instances.
use rustee.Prelude.{
  ℕ, ◌+◌, ◌<◌, ◌^◌, ◌≡◌, refl, List, [], ◌∷◌, Option, none, some, true, ◌==◌, ◌&&◌, if◌then◌else◌,
  arith, length, inl, inr, ◌⊎◌, Bool-cases, bytes_eq,
}
use rustee.Slots.{find, used}
use rustee.Slots.Laws.{
  IsTable, next_id-absent, bump-IsTable, place-IsTable, take_slot-IsTable, modify-IsTable,
  find-place, find-take_slot, place_cases, find-modify, Distinct,
}
use rustee.Os.Abi.{Uuid}
use rustee.Os.Instance.{
  Instance, InstanceTable, instance_key, alloc, get, update, drop_id, live_single_slots, is_live,
}

module _ {AddressSpace : Type 0} where
  abbrev pub IsValid : InstanceTable AddressSpace → Type 0
  IsValid t = IsTable instance_key t.slots t.next_id

  -- An instance is entered under an id that was not in use, and nothing else in the table changes; if
  -- the table is full, nothing in it changes. The table stays valid while the ids do not wrap.
  pub instance_alloc-refines :
      (t : InstanceTable AddressSpace) (i : Instance AddressSpace)
      → IsValid t
      → t.next_id + 1 < 2 ^ 32
      → let (r, t') = alloc t i in
        IsValid t'
        × (((r ≡ none) × (used t.slots ≡ length t.slots) × (t'.slots ≡ t.slots))
            ⊎ ((r ≡ some t.next_id)
                × (get t t.next_id ≡ none)
                × (used t'.slots ≡ used t.slots + 1)
                × ((j : ℕ)
                    → get t' j
                      ≡ (if t.next_id == j then some (record i { id = t.next_id }) else get t j))))
  unfolding alloc get
  instance_alloc-refines t i v h = elim (place_cases t.slots (record i { id = t.next_id })) [
    | inl (e, u) ↦
        rw (e, alloc) (bump-IsTable instance_key t.slots t.next_id h v, inl (refl, u, refl))
    | inr (ss', e, l, u, r) ↦
        let absent = next_id-absent instance_key t.slots t.next_id v in
        rw (e, alloc)
          (
            place-IsTable instance_key t.slots (record i { id = t.next_id }) ss' h v e,
            inr (refl, absent, u, λ j. find-place instance_key t.slots _ ss' j absent e),
          )
  ]

  -- A dropped instance is gone, and no other.
  pub get-drop_id :
      (t : InstanceTable AddressSpace) (id j : ℕ)
      → IsValid t
      → get (drop_id t id) j ≡ (if id == j then none else get t j)
  unfolding get drop_id
  get-drop_id t id j v = find-take_slot instance_key t.slots id j v.distinct

  pub drop_id-IsValid :
      (t : InstanceTable AddressSpace) (id : ℕ) → IsValid t → IsValid (drop_id t id)
  unfolding drop_id
  drop_id-IsValid t id v = take_slot-IsTable instance_key t.slots t.next_id id v

  module _ (f : Instance AddressSpace → Instance AddressSpace)
      (same : (i : Instance AddressSpace) → (f i).id ≡ i.id) where
    -- A write reaches the instance of this id, and no other.
    pub get-update :
        (t : InstanceTable AddressSpace) (id j : ℕ)
        → get (update t id f) j
          ≡ (if id == j then elim (get t id) [ none ↦ none | some i ↦ some (f i) ] else get t j)
    unfolding get update
    get-update t id j = find-modify instance_key f t.slots id j same

    pub get-update_self :
        (t : InstanceTable AddressSpace) (id : ℕ) (i : Instance AddressSpace)
        → get t id ≡ some i
        → get (update t id f) id ≡ some (f i)
    get-update_self t id i h = ground (arith, get-update t id id, h)

    pub update-IsValid :
        (t : InstanceTable AddressSpace) (id : ℕ) → IsValid t → IsValid (update t id f)
    unfolding update
    update-IsValid t id v = modify-IsTable instance_key f same t.slots t.next_id id v

  live_single_slots-lem :
      (ss : List (Option (Instance AddressSpace))) (u : Uuid) (id : ℕ)
      → Distinct instance_key ss
      → live_single_slots ss u ≡ some id
      → (i : Instance AddressSpace) × (find instance_key ss id ≡ some i)
        × (bytes_eq i.uuid u ≡ true)
        × (i.props.single_instance ≡ true)
        × (is_live i.state ≡ true)
  unfolding live_single_slots find
  live_single_slots-lem [] u id d h = absurd (cc)
  live_single_slots-lem (none ∷ ss) u id d h = live_single_slots-lem ss u id d h
  live_single_slots-lem (some i ∷ ss) u id d h =
      elim (Bool-cases (bytes_eq i.uuid u && (i.props.single_instance && is_live i.state))) [
        | inl e ↦ (i, ground arith, ground arith, ground arith, ground arith)
        | inr e ↦
            let r = live_single_slots-lem ss u id d.1 (ground arith) in
            (r.0, ground (arith, r.1, d.0), r.2, r.3, r.4)
      ]
