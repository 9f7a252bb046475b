-- ===== src/Slots/Laws.antt =====
-- What the slot array promises: an array of distinct ids is a finite map.
use rustee.Prelude.{
  ℕ, suc, ◌+◌, ◌≤◌, ◌<◌, ◌^◌, ◌≡◌, refl, List, [], ◌∷◌, Option, none, some, ◌==◌, arith,
  if◌then◌else◌, length, Bool-cases, inl, inr, ◌⊎◌, ap, subst, replicate, zero, Option-cases,
}
use mathlib.Core.Option.{some-injective}
use rustee.Slots.{bump_id, find, take_slot, modify, place, used}

pub bump_id_range : (n : ℕ) → (1 ≤ bump_id n) × (bump_id n < 2 ^ 32)
unfolding bump_id
bump_id_range n = omega arith

module _ {ℓ} {A : Type ℓ} (key : A → ℕ) where
  -- No two slots in use have the same id.
  abbrev pub Distinct : List (Option A) → Type ℓ
  Distinct [] = Unit
  Distinct (none ∷ ss) = Distinct ss
  Distinct (some a ∷ ss) = (find key ss (key a) ≡ none) × Distinct ss

  -- Every id in use is below the bound.
  abbrev pub Below : ℕ → List (Option A) → Type 0
  Below n [] = Unit
  Below n (none ∷ ss) = Below n ss
  Below n (some a ∷ ss) = (key a < n) × Below n ss

  pub find_above :
      (n : ℕ) (ss : List (Option A)) (i : ℕ) → Below n ss → n ≤ i → find key ss i ≡ none
  unfolding find
  find_above n [] i b h = refl
  find_above n (none ∷ ss) i b h = find_above n ss i b h
  find_above n (some a ∷ ss) i b h = ground (arith, find_above n ss i b.1)

  pub Below-mono : (m n : ℕ) (ss : List (Option A)) → m ≤ n → Below m ss → Below n ss
  Below-mono m n [] h b = tt
  Below-mono m n (none ∷ ss) h b = Below-mono m n ss h b
  Below-mono m n (some a ∷ ss) h b = (omega arith, Below-mono m n ss h b.1)

  pub find-key : (ss : List (Option A)) (i : ℕ) (a : A) → find key ss i ≡ some a → key a ≡ i
  unfolding find
  find-key [] i a h = cc
  find-key (none ∷ ss) i a h = find-key ss i a h
  find-key (some b ∷ ss) i a h = ground (arith, find-key ss i a)

  -- A new entry is found under its id, and no other id is disturbed.
  pub find-place :
      (ss : List (Option A)) (a : A) (ss' : List (Option A)) (j : ℕ)
      → find key ss (key a) ≡ none
      → place ss a ≡ some ss'
      → find key ss' j ≡ (if key a == j then some a else find key ss j)
  unfolding find place
  find-place [] a ss' j f h = cc
  find-place (none ∷ ss) a ss' j f h = ground arith
  find-place (some b ∷ ss) a ss' j f h = elim (Option-cases (place ss a)) [
    | inl e ↦ ground arith
    | inr (t, e) ↦ ground (arith, find-place ss a t j, find-place ss a t (key b))
  ]

  pub place-Distinct :
      (ss : List (Option A)) (a : A) (ss' : List (Option A))
      → find key ss (key a) ≡ none
      → Distinct ss
      → place ss a ≡ some ss'
      → Distinct ss'
  unfolding find place
  place-Distinct [] a ss' f d h = absurd (cc)
  place-Distinct (none ∷ ss) a ss' f d h = subst Distinct (some-injective _ _ h) (f, d)
  place-Distinct (some b ∷ ss) a ss' f d h = elim (Option-cases (place ss a)) [
    | inl e ↦ absurd (ground arith)
    | inr (t, e) ↦
        let eq : some b ∷ t ≡ ss' = ground arith in
        subst Distinct eq (
          let g : find key t (key b) ≡ none = ground (arith, find-place ss a t (key b)) in
          let r : Distinct t = place-Distinct ss a t (ground arith) d.1 e in
          let both : Distinct (some b ∷ t) = (g, r) in both)
  ]

  pub place-Below :
      (n : ℕ) (ss : List (Option A)) (a : A) (ss' : List (Option A))
      → key a < n
      → Below n ss
      → place ss a ≡ some ss'
      → Below n ss'
  unfolding place
  place-Below n [] a ss' k b h = absurd (cc)
  place-Below n (none ∷ ss) a ss' k b h = subst (Below n) (some-injective _ _ h) (k, b)
  place-Below n (some c ∷ ss) a ss' k b h = elim (Option-cases (place ss a)) [
    | inl e ↦ absurd (ground arith)
    | inr (t, e) ↦
        let eq : some c ∷ t ≡ ss' = ground arith in
        subst (Below n) eq (b.0, place-Below n ss a t k b.1 e)
  ]

  pub find-take_slot :
      (ss : List (Option A)) (i j : ℕ)
      → Distinct ss
      → find key (take_slot key ss i) j ≡ (if i == j then none else find key ss j)
  unfolding find take_slot
  find-take_slot [] i j d = ground arith
  find-take_slot (none ∷ ss) i j d = find-take_slot ss i j d
  find-take_slot (some a ∷ ss) i j d = ground (arith, find-take_slot ss i j d.1)

  pub find-modify :
      (f : A → A) (ss : List (Option A)) (i j : ℕ)
      → ((a : A) → key (f a) ≡ key a)
      → find key (modify key ss i f) j ≡ (
          if i == j
          then elim (find key ss i) [ none ↦ none | some a ↦ some (f a) ]
          else find key ss j)
  unfolding find modify
  find-modify f [] i j k = ground arith
  find-modify f (none ∷ ss) i j k = find-modify f ss i j k
  find-modify f (some a ∷ ss) i j k = ground (arith, find-modify f ss i j k, k a)

  pub take_slot-absent :
      (ss : List (Option A)) (i j : ℕ)
      → find key ss j ≡ none
      → find key (take_slot key ss i) j ≡ none
  unfolding find take_slot
  take_slot-absent [] i j f = refl
  take_slot-absent (none ∷ ss) i j f = take_slot-absent ss i j f
  take_slot-absent (some a ∷ ss) i j f = ground (arith, take_slot-absent ss i j)

  pub take_slot-Distinct :
      (ss : List (Option A)) (i : ℕ) → Distinct ss → Distinct (take_slot key ss i)
  unfolding take_slot
  take_slot-Distinct [] i d = tt
  take_slot-Distinct (none ∷ ss) i d = take_slot-Distinct ss i d
  take_slot-Distinct (some a ∷ ss) i d = elim (Bool-cases (key a == i)) [
    | inl e ↦ rw e d.1
    | inr e ↦ rw e (take_slot-absent ss i (key a) d.0, take_slot-Distinct ss i d.1)
  ]

  pub take_slot-Below :
      (n : ℕ) (ss : List (Option A)) (i : ℕ) → Below n ss → Below n (take_slot key ss i)
  unfolding take_slot
  take_slot-Below n [] i b = tt
  take_slot-Below n (none ∷ ss) i b = take_slot-Below n ss i b
  take_slot-Below n (some a ∷ ss) i b = elim (Bool-cases (key a == i)) [
    | inl e ↦ rw e b.1
    | inr e ↦ rw e (b.0, take_slot-Below n ss i b.1)
  ]

  module _ (f : A → A) (same : (a : A) → key (f a) ≡ key a) where
    pub modify-Distinct :
        (ss : List (Option A)) (i : ℕ) → Distinct ss → Distinct (modify key ss i f)
    unfolding modify
    modify-Distinct [] i d = tt
    modify-Distinct (none ∷ ss) i d = modify-Distinct ss i d
    modify-Distinct (some a ∷ ss) i d = elim (Bool-cases (key a == i)) [
      | inl e ↦ rw e (rw (same a) d.0, d.1)
      | inr e ↦ rw e (
        rw (find-modify f ss i (key a) same) (ground (arith, find-key ss i)),
        modify-Distinct ss i d.1,
      )
    ]

    pub modify-Below :
        (n : ℕ) (ss : List (Option A)) (i : ℕ) → Below n ss → Below n (modify key ss i f)
    unfolding modify
    modify-Below n [] i b = tt
    modify-Below n (none ∷ ss) i b = modify-Below n ss i b
    modify-Below n (some a ∷ ss) i b = elim (Bool-cases (key a == i)) [
      | inl e ↦ rw e (rw (same a) b.0, b.1)
      | inr e ↦ rw e (b.0, modify-Below n ss i b.1)
    ]

  pub length-take_slot : (ss : List (Option A)) (i : ℕ) → length (take_slot key ss i) ≡ length ss
  unfolding take_slot
  length-take_slot [] i = refl
  length-take_slot (none ∷ ss) i = ap suc (length-take_slot ss i)
  length-take_slot (some a ∷ ss) i = ground (arith, length-take_slot ss i)

  pub length-modify :
      (ss : List (Option A)) (i : ℕ) (f : A → A) → length (modify key ss i f) ≡ length ss
  unfolding modify
  length-modify [] i f = refl
  length-modify (none ∷ ss) i f = ap suc (length-modify ss i f)
  length-modify (some a ∷ ss) i f = ground (arith, length-modify ss i f)

  pub used-take_slot :
      (ss : List (Option A)) (i : ℕ) (a : A)
      → find key ss i ≡ some a
      → used (take_slot key ss i) + 1 ≡ used ss
  unfolding find take_slot used
  used-take_slot [] i a h = absurd (cc)
  used-take_slot (none ∷ ss) i a h = used-take_slot ss i a h
  used-take_slot (some b ∷ ss) i a h = ground (arith, used-take_slot ss i a)

module _ {ℓ} {A : Type ℓ} where
  pub used-le-length : (ss : List (Option A)) → used ss ≤ length ss
  unfolding used
  used-le-length [] = omega arith
  used-le-length (none ∷ ss) = omega (arith, used-le-length ss)
  used-le-length (some a ∷ ss) = omega (arith, used-le-length ss)

  -- A slot is found exactly while one is free, and it takes one.
  pub place_cases :
      (ss : List (Option A)) (a : A)
      → ((place ss a ≡ none) × (used ss ≡ length ss))
        ⊎ ((ss' : List (Option A)) × (place ss a ≡ some ss')
            × (length ss' ≡ length ss)
            × (used ss' ≡ used ss + 1)
            × (used ss < length ss))
  unfolding place used
  place_cases [] a = inl (refl, refl)
  place_cases (none ∷ ss) a =
      inr (some a ∷ ss, refl, refl, omega arith, omega (arith, used-le-length ss))
  place_cases (some b ∷ ss) a = elim (place_cases ss a) [
    | inl (e, u) ↦ inl (ground arith, ap suc u)
    | inr (t, e, l, u, r) ↦ inr (some b ∷ t, ground arith, ap suc l, omega arith, omega arith)
  ]

pub bump_id-exact : (n : ℕ) → n + 1 < 2 ^ 32 → bump_id n ≡ n + 1
unfolding bump_id
bump_id-exact n h = omega arith

module _ {ℓ} {A : Type ℓ} (key : A → ℕ) where
  -- The ids in use are distinct and below the next one, which is not 0.
  pub record IsTable (ss : List (Option A)) (next_id : ℕ) : Type ℓ where
    pub distinct : Distinct key ss
    pub fresh : Below key next_id ss
    pub positive : 1 ≤ next_id

  pub replicate-IsTable : (n : ℕ) → IsTable (replicate n none) 1
  replicate-IsTable zero = record { distinct = tt; fresh = tt; positive = omega arith }
  replicate-IsTable (suc n) =
      let r = replicate-IsTable n in
      record { distinct = r.distinct; fresh = r.fresh; positive = omega arith }

  -- An id is not in use yet when it is handed out.
  pub next_id-absent : (ss : List (Option A)) (n : ℕ) → IsTable ss n → find key ss n ≡ none
  next_id-absent ss n v = find_above key n ss n v.fresh (omega arith)

  pub bump-IsTable :
      (ss : List (Option A)) (n : ℕ) → n + 1 < 2 ^ 32 → IsTable ss n → IsTable ss (bump_id n)
  bump-IsTable ss n h v = record {
    distinct = v.distinct;
    fresh = Below-mono key n (bump_id n) ss (omega (arith, bump_id-exact n h)) v.fresh;
    positive = (bump_id_range n).0;
  }

  pub place-IsTable :
      (ss : List (Option A)) (a : A) (ss' : List (Option A))
      → key a + 1 < 2 ^ 32
      → IsTable ss (key a)
      → place ss a ≡ some ss'
      → IsTable ss' (bump_id (key a))
  place-IsTable ss a ss' h v e = record {
    distinct = place-Distinct key ss a ss' (next_id-absent ss (key a) v) v.distinct e;
    fresh =
        let up : Below key (bump_id (key a)) ss =
          Below-mono key (key a) (bump_id (key a)) ss (omega (arith, bump_id-exact (key a) h))
            v.fresh in
        place-Below key (bump_id (key a)) ss a ss' (omega (arith, bump_id-exact (key a) h)) up e;
    positive = (bump_id_range (key a)).0;
  }

  pub take_slot-IsTable :
      (ss : List (Option A)) (n i : ℕ) → IsTable ss n → IsTable (take_slot key ss i) n
  take_slot-IsTable ss n i v = record {
    distinct = take_slot-Distinct key ss i v.distinct;
    fresh = take_slot-Below key n ss i v.fresh;
    positive = v.positive;
  }

  pub modify-IsTable :
      (f : A → A) (same : (a : A) → key (f a) ≡ key a) (ss : List (Option A)) (n i : ℕ)
      → IsTable ss n
      → IsTable (modify key ss i f) n
  modify-IsTable f same ss n i v = record {
    distinct = modify-Distinct key f same ss i v.distinct;
    fresh = modify-Below key f same n ss i v.fresh;
    positive = v.positive;
  }
