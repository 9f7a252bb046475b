-- ===== src/Os/Session.antt =====
-- crates/rustee-os/src/session.rs: the table of open sessions.
use rustee.Prelude.{
  ℕ, zero, suc, ◌+◌, ◌%◌, ◌^◌, List, [], ◌∷◌, Option, none, some, Bool, true, false, not, ◌==◌,
  ◌&&◌, if◌then◌else◌, replicate,
}
use rustee.Os.Abi.{Uuid, Login}
use rustee.Slots.{bump_id, find, take_slot, place}
pub mod Table

pub data SessionKind : Type 0 where
  user_ta pta : SessionKind

pub data SessionState : Type 0 where
  opening ready busy closing dead : SessionState

pub record Session : Type 0 where
  pub id : ℕ
  pub uuid : Uuid
  pub kind : SessionKind
  pub instance_id : Option ℕ
  pub ta_sess_ctx : ℕ
  pub state : SessionState
  pub client : Login

abbrev pub session_key : Session → ℕ
session_key s = s.id

pub record SessionTable : Type 0 where
  pub slots : List (Option Session)
  pub next_id : ℕ

unfoldable pub new : ℕ → SessionTable
new cap = record { slots = replicate cap none; next_id = 1 }

-- The id is spent also when no slot is free.
unfoldable pub alloc : SessionTable → Session → Option ℕ × SessionTable
alloc t s =
    let id = t.next_id in
    let t' = record t { next_id = bump_id t.next_id } in
    elim (place t.slots (record s { id = id })) [
      | none ↦ (none, t')
      | some slots' ↦ (some id, record t' { slots = slots' })
    ]

unfoldable pub get : SessionTable → ℕ → Option Session
get t id = find session_key t.slots id

unfoldable pub take : SessionTable → ℕ → Option Session × SessionTable
take t id = elim (find session_key t.slots id) [
  | none ↦ (none, t)
  | some s ↦ (some s, record t { slots = take_slot session_key t.slots id })
]

-- `s.instance == Some(inst)`
abbrev pub of_instance : ℕ → Session → Bool
of_instance inst s = elim s.instance_id [ none ↦ false | some i ↦ i == inst ]

abbrev pub is_dead : SessionState → Bool
is_dead dead = true
is_dead _ = false

unfoldable pub poison_slots : List (Option Session) → ℕ → List (Option Session)
poison_slots [] inst = []
poison_slots (none ∷ ss) inst = none ∷ poison_slots ss inst
poison_slots (some s ∷ ss) inst =
    (if of_instance inst s then some (record s { state = dead }) else some s) ∷ poison_slots ss inst

unfoldable pub poison_instance : SessionTable → ℕ → SessionTable
unfolding poison_slots
poison_instance t inst = record t { slots = poison_slots t.slots inst }

unfoldable pub count_slots : List (Option Session) → ℕ → ℕ
count_slots [] inst = 0
count_slots (none ∷ ss) inst = count_slots ss inst
count_slots (some s ∷ ss) inst =
    if of_instance inst s && not (is_dead s.state)
    then suc (count_slots ss inst)
    else count_slots ss inst

-- The count as a 16-bit number.
unfoldable pub count_for_instance : SessionTable → ℕ → ℕ
unfolding count_slots
count_for_instance t inst = count_slots t.slots inst % 2 ^ 16
