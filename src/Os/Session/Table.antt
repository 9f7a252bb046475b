-- ===== src/Os/Session/Table.antt =====
-- The session table as a finite map from ids to sessions.
use rustee.Prelude.{
  ℕ, ◌+◌, ◌<◌, ◌^◌, ◌≡◌, refl, List, [], ◌∷◌, Option, none, some, ◌==◌, if◌then◌else◌, arith,
  length, inl, inr, ◌⊎◌, Bool-cases, Option-cases,
}
use rustee.Slots.{find, used}
use rustee.Slots.Laws.{
  IsTable, replicate-IsTable, next_id-absent, bump-IsTable, place-IsTable, take_slot-IsTable,
  find-place, find-take_slot, place_cases, Below, Distinct,
}
use rustee.Os.Session.{
  Session, SessionTable, session_key, new, alloc, get, take, poison_instance, poison_slots,
  of_instance, dead,
}

abbrev pub IsValid : SessionTable → Type 0
IsValid t = IsTable session_key t.slots t.next_id

pub new-IsValid : (cap : ℕ) → IsValid (new cap)
unfolding new
new-IsValid cap = replicate-IsTable session_key cap

-- A session is entered under an id that was not in use, and nothing else in the table changes; if the
-- table is full, nothing in it changes. The table stays valid while the ids do not wrap.
pub alloc-refines :
    (t : SessionTable) (s : Session)
    → IsValid t
    → t.next_id + 1 < 2 ^ 32
    → let (r, t') = alloc t s in
      IsValid t'
      × (((r ≡ none) × (used t.slots ≡ length t.slots) × (t'.slots ≡ t.slots))
          ⊎ ((r ≡ some t.next_id)
              × (get t t.next_id ≡ none)
              × (used t'.slots ≡ used t.slots + 1)
              × ((j : ℕ)
                  → get t' j
                    ≡ (if t.next_id == j then some (record s { id = t.next_id }) else get t j))))
unfolding alloc get
alloc-refines t s v h = elim (place_cases t.slots (record s { id = t.next_id })) [
  | inl (e, u) ↦ rw (e, alloc) (bump-IsTable session_key t.slots t.next_id h v, inl (refl, u, refl))
  | inr (ss', e, l, u, r) ↦
      let absent = next_id-absent session_key t.slots t.next_id v in
      rw (e, alloc)
        (
          place-IsTable session_key t.slots (record s { id = t.next_id }) ss' h v e,
          inr (refl, absent, u, λ j. find-place session_key t.slots _ ss' j absent e),
        )
]

pub take-get : (t : SessionTable) (id : ℕ) → (take t id).0 ≡ get t id
unfolding take get
take-get t id = elim (Option-cases (find session_key t.slots id)) [
  | inl e ↦ rw (e, take)
  | inr (s, e) ↦ rw (e, take)
]

-- Closing returns the session that the id stands for, and takes this id alone out of the table.
pub take-refines :
    (t : SessionTable) (id : ℕ)
    → IsValid t
    → let (r, t') = take t id in
      IsValid t' × (r ≡ get t id) × ((j : ℕ) → get t' j ≡ (if id == j then none else get t j))
unfolding take get
take-refines t id v = elim (Option-cases (find session_key t.slots id)) [
  | inl e ↦ rw (e, take) (v, refl, λ j. ground (arith, e))
  | inr (s, e) ↦
      rw (e, take)
        (
          take_slot-IsTable session_key t.slots t.next_id id v,
          refl,
          λ j. find-take_slot session_key t.slots id j v.distinct,
        )
]

abbrev pub poisoned : ℕ → Session → Session
poisoned inst s = if of_instance inst s then record s { state = dead } else s

find-poison_slots :
    (ss : List (Option Session)) (inst j : ℕ)
    → find session_key (poison_slots ss inst) j
      ≡ (elim (find session_key ss j) [ none ↦ none | some s ↦ some (poisoned inst s) ])
unfolding find poison_slots
find-poison_slots [] inst j = refl
find-poison_slots (none ∷ ss) inst j = find-poison_slots ss inst j
find-poison_slots (some s ∷ ss) inst j = ground (arith, find-poison_slots ss inst j)

-- Poisoning marks every session of the instance dead, and touches no other session.
pub get-poison_instance :
    (t : SessionTable) (inst j : ℕ)
    → get (poison_instance t inst) j
      ≡ (elim (get t j) [ none ↦ none | some s ↦ some (poisoned inst s) ])
unfolding get poison_instance
get-poison_instance t inst j = find-poison_slots t.slots inst j

poison_slots-Below :
    (n : ℕ) (ss : List (Option Session)) (inst : ℕ)
    → Below session_key n ss
    → Below session_key n (poison_slots ss inst)
unfolding poison_slots
poison_slots-Below n [] inst b = tt
poison_slots-Below n (none ∷ ss) inst b = poison_slots-Below n ss inst b
poison_slots-Below n (some s ∷ ss) inst b = elim (Bool-cases (of_instance inst s)) [
  | inl e ↦ rw (e, poison_slots) (b.0, poison_slots-Below n ss inst b.1)
  | inr e ↦ rw (e, poison_slots) (b.0, poison_slots-Below n ss inst b.1)
]

poison_slots-Distinct :
    (ss : List (Option Session)) (inst : ℕ)
    → Distinct session_key ss
    → Distinct session_key (poison_slots ss inst)
unfolding poison_slots
poison_slots-Distinct [] inst d = tt
poison_slots-Distinct (none ∷ ss) inst d = poison_slots-Distinct ss inst d
poison_slots-Distinct (some s ∷ ss) inst d = elim (Bool-cases (of_instance inst s)) [
  | inl e ↦
      rw (e, poison_slots)
        (rw (find-poison_slots ss inst s.id) (rw d.0 refl), poison_slots-Distinct ss inst d.1)
  | inr e ↦
      rw (e, poison_slots)
        (rw (find-poison_slots ss inst s.id) (rw d.0 refl), poison_slots-Distinct ss inst d.1)
]

pub poison_instance-IsValid :
    (t : SessionTable) (inst : ℕ) → IsValid t → IsValid (poison_instance t inst)
unfolding poison_instance
poison_instance-IsValid t inst v = record {
  distinct = poison_slots-Distinct t.slots inst v.distinct;
  fresh = poison_slots-Below t.next_id t.slots inst v.fresh;
  positive = v.positive;
}
