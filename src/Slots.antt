-- ===== src/Slots.antt =====
-- The slot array that the session table and the instance table share
-- (crates/rustee-os/src/session.rs, crates/rustee-os/src/instance.rs): a fixed number of optional
-- entries, each with an id.
use rustee.Prelude.{
  ℕ, suc, ◌+◌, ◌≤◌, ◌≡◌, List, [], ◌∷◌, Option, none, some, Bool, true, false, ◌==◌, max, ◌%◌, ◌^◌,
  if◌then◌else◌,
}
pub mod Laws

-- `self.next_id.wrapping_add(1).max(1)` on u32.
pub bump_id : ℕ → ℕ
bump_id n = max ((n + 1) % 2 ^ 32) 1

module _ {ℓ} {A : Type ℓ} (key : A → ℕ) where
  -- `slots.iter().flatten().find(|s| s.id == id)`
  unfoldable pub find : List (Option A) → ℕ → Option A
  find [] i = none
  find (none ∷ ss) i = find ss i
  find (some a ∷ ss) i = if key a == i then some a else find ss i

  -- The array after the first slot with this id has been taken.
  unfoldable pub take_slot : List (Option A) → ℕ → List (Option A)
  take_slot [] i = []
  take_slot (none ∷ ss) i = none ∷ take_slot ss i
  take_slot (some a ∷ ss) i = if key a == i then none ∷ ss else some a ∷ take_slot ss i

  -- A write through the reference that `get_mut(id)` returns; no slot, no write.
  unfoldable pub modify : List (Option A) → ℕ → (A → A) → List (Option A)
  modify [] i f = []
  modify (none ∷ ss) i f = none ∷ modify ss i f
  modify (some a ∷ ss) i f = if key a == i then some (f a) ∷ ss else some a ∷ modify ss i f

module _ {ℓ} {A : Type ℓ} where
  -- The array with `a` in its first free slot; `none` if every slot is in use.
  unfoldable pub place : List (Option A) → A → Option (List (Option A))
  place [] a = none
  place (none ∷ ss) a = some (some a ∷ ss)
  place (some b ∷ ss) a = elim (place ss a) [ none ↦ none | some ss' ↦ some (some b ∷ ss') ]

  -- The number of slots in use.
  unfoldable pub used : List (Option A) → ℕ
  used [] = 0
  used (none ∷ ss) = used ss
  used (some a ∷ ss) = suc (used ss)
