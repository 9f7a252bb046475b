-- ===== src/Os/Instance.antt =====
-- crates/rustee-os/src/instance.rs: the table of TA instances, over the address spaces of a HAL.
use rustee.Prelude.{
  ℕ, zero, suc, List, [], ◌∷◌, Option, none, some, Bool, true, false, ◌&&◌, if◌then◌else◌,
  replicate, bytes_eq,
}
use rustee.Os.Abi.{Uuid}
use rustee.Os.Header.{TaProperties}
use rustee.Os.Elf.{TaEntryPoints}
use rustee.Slots.{bump_id, find, take_slot, place, modify}
pub mod Table

pub data InstanceState : Type 0 where
  creating live dying dead : InstanceState

pub record Instance (AddressSpace : Type 0) : Type 0 where
  pub id : ℕ
  pub uuid : Uuid
  pub props : TaProperties
  pub aspace : Option AddressSpace
  pub session_count : ℕ
  pub state : InstanceState
  pub entries : Option TaEntryPoints
  pub busy : Bool

abbrev pub is_live : InstanceState → Bool
is_live live = true
is_live _ = false

pub record InstanceTable (AddressSpace : Type 0) : Type 0 where
  pub slots : List (Option (Instance AddressSpace))
  pub next_id : ℕ

module _ {AddressSpace : Type 0} where
  abbrev pub instance_key : Instance AddressSpace → ℕ
  instance_key i = i.id

  -- The first live single instance of a TA.
  unfoldable pub live_single_slots : List (Option (Instance AddressSpace)) → Uuid → Option ℕ
  live_single_slots [] u = none
  live_single_slots (none ∷ ss) u = live_single_slots ss u
  live_single_slots (some i ∷ ss) u =
      if bytes_eq i.uuid u && (i.props.single_instance && is_live i.state)
      then some i.id
      else live_single_slots ss u

  unfoldable pub live_single : InstanceTable AddressSpace → Uuid → Option ℕ
  unfolding live_single_slots
  live_single t u = live_single_slots t.slots u

  -- The id is spent also when no slot is free.
  unfoldable pub alloc :
      InstanceTable AddressSpace → Instance AddressSpace → Option ℕ × InstanceTable AddressSpace
  alloc t i =
      let id = t.next_id in
      let t' = record t { next_id = bump_id t.next_id } in
      elim (place t.slots (record i { id = id })) [
        | none ↦ (none, t')
        | some slots' ↦ (some id, record t' { slots = slots' })
      ]

  unfoldable pub get : InstanceTable AddressSpace → ℕ → Option (Instance AddressSpace)
  get t id = find instance_key t.slots id

  -- A write through `get_mut(id)`.
  unfoldable pub update :
      InstanceTable AddressSpace
      → ℕ
      → (Instance AddressSpace → Instance AddressSpace)
      → InstanceTable AddressSpace
  update t id f = record t { slots = modify instance_key t.slots id f }

  unfoldable pub drop_id : InstanceTable AddressSpace → ℕ → InstanceTable AddressSpace
  drop_id t id = record t { slots = take_slot instance_key t.slots id }

unfoldable pub new : (AddressSpace : Type 0) → ℕ → InstanceTable AddressSpace
new AddressSpace cap = record { slots = replicate cap none; next_id = 1 }
