-- ===== src/Crypto/Arith/Signed.antt =====
-- Signed addition (`add` of crates/rustee-crypto/src/arith.rs) against the integers.
use rustee.Prelude.{
  ℕ, ◌+◌, ◌-◌, ◌<◌, ◌≤◌, ◌≡◌, refl, ap, ap₂, ◌∙◌, sym, max, List, [], ◌∷◌, true, false, length,
  get_or, set, take, drop, ltb, leb, ◌==◌, if◌then◌else◌, ok, err, arith, Bool-cases, inl, inr, ℤ,
  pos, negsuc, ◌+ℤ◌, neg_ℤ,
}
use rustee.Crypto.Arith.{bad_size, add, add_mag, cmp_mag, flag, nlimbs, nlimbs_or_zero, init}
use rustee.Crypto.Arith.Limbs.{value_of}
use rustee.Crypto.Arith.Limbs.Compare.{Trimmed, shorter_lt}
use rustee.Crypto.Arith.Magnitude.{
  IsBigInt, limb_list, magnitude, magnitude-add_mag, magnitude-sub_mag, cmp_mag-order,
  nlimbs-IsBigInt, length-limb_list, limb_list-Words,
}

-- The integer of a sign and a magnitude.
unfoldable pub signed : ℕ → ℕ → ℤ
signed f m = if f == 0 then pos m else neg_ℤ (pos m)

-- The integer that a slice stands for.
abbrev pub int_of : List ℕ → ℤ
int_of op = signed (flag op) (magnitude op)

signed_add : (f m n : ℕ) → signed f m +ℤ signed f n ≡ signed f (m + n)
unfolding signed
signed_add f m n = ground arith

signed_zero : (f : ℕ) → signed f 0 ≡ signed 0 0
unfolding signed
signed_zero f = ground arith

-- Two signs differ: the larger magnitude gives the sign.
signed_sub :
    (f g m n d : ℕ)
    → f < 2
    → g < 2
    → (f == g) ≡ false
    → d + n ≡ m
    → (signed f m +ℤ signed g n ≡ signed f d) × (signed g n +ℤ signed f m ≡ signed f d)
unfolding signed
signed_sub f g m n d hf hg ne e = (ground arith, ground arith)

-- A write of the sign does not touch the limbs.
flag_write :
    (d : List ℕ) (f : ℕ)
    → 2 + get_or d 1 0 ≤ length d
    → f < 2
    → (magnitude (set d 0 f) ≡ magnitude d)
      × (flag (set d 0 f) ≡ f)
      × (2 + get_or (set d 0 f) 1 0 ≤ length (set d 0 f))
flag_write [] f h l = absurd (omega (arith, h))
flag_write (x ∷ []) f h l = absurd (omega (arith, h))
flag_write (x ∷ y ∷ d) f h l = (refl, omega arith, h)

no_limbs :
    (d : List ℕ) → 2 + get_or d 1 0 ≤ length d → (nlimbs_or_zero d == 0) ≡ true → magnitude d ≡ 0
unfolding nlimbs_or_zero
no_limbs d h z =
    let g : ltb (length d) 2 ≡ false = ground (arith, h) in
    let l : leb (2 + get_or d 1 0) (length d) ≡ true = ground (arith, h) in
    let n : nlimbs d ≡ ok (get_or d 1 0) = rw (g, l, nlimbs) refl in
    let e : nlimbs_or_zero d ≡ get_or d 1 0 = rw (n, nlimbs_or_zero) refl in
    let none : get_or d 1 0 ≡ 0 = ground (arith, e, z) in
    ap (λ k. value_of (take k (drop 2 d))) none

module _ (a b : List ℕ) (va : IsBigInt a) (vb : IsBigInt b) where
  add_same :
      (dest : List ℕ)
      → max (get_or a 1 0) (get_or b 1 0) + 3 ≤ length dest
      → (flag a == flag b) ≡ true
      → (d : List ℕ) × (add dest a b ≡ ok d) × (int_of d ≡ int_of a +ℤ int_of b)
  unfolding add
  add_same dest room same =
      let (d, sum, value, inside) = magnitude-add_mag a b va vb dest room in
      let f = flag_write d (flag a) inside (omega arith) in
      let f' = flag_write (set d 0 (flag a)) 0 f.2 (omega arith) in
      let total : signed (flag a) (magnitude d) ≡ int_of a +ℤ int_of b =
        ap (signed (flag a)) value
        ∙ sym (signed_add (flag a) (magnitude a) (magnitude b))
        ∙ ap (λ k. int_of a +ℤ signed k (magnitude b))
            (let e : flag a ≡ flag b = ground arith in e) in
      elim (Bool-cases (nlimbs_or_zero (set d 0 (flag a)) == 0)) [
        | inl z ↦
            let none = no_limbs (set d 0 (flag a)) f.2 z in
            (
              set (set d 0 (flag a)) 0 0,
              rw (same, sum, z, add) refl,
              ap₂ signed f'.1 (f'.0 ∙ none)
                  ∙ sym (signed_zero (flag a))
                  ∙ ap (signed (flag a)) (sym none ∙ f.0)
                  ∙ total,
            )
        | inr z ↦ (set d 0 (flag a), rw (same, sum, z, add) refl, ap₂ signed f.1 f.0 ∙ total)
      ]

fewer_limbs :
    (a b : List ℕ)
    → IsBigInt a
    → IsBigInt b
    → Trimmed (limb_list b)
    → magnitude b ≤ magnitude a
    → get_or b 1 0 ≤ get_or a 1 0
fewer_limbs a b va vb tb le = elim (Bool-cases (ltb (get_or a 1 0) (get_or b 1 0))) [
  | inl l ↦
      let t =
        shorter_lt (limb_list a) (limb_list b) (limb_list-Words a va) tb
          (ground (arith, length-limb_list a va, length-limb_list b vb)) in
      absurd (omega (arith, t, le))
  | inr l ↦ ground arith
]

int_of-init : (dest : List ℕ) → 2 ≤ length dest → int_of (init dest) ≡ signed 0 0
int_of-init [] h = absurd (omega (arith, h))
int_of-init (x ∷ []) h = absurd (omega (arith, h))
int_of-init (x ∷ y ∷ ds) h = refl

-- `add` when the signs differ, by the comparison of the magnitudes.
module _ (a b : List ℕ) (va : IsBigInt a) (vb : IsBigInt b) (ta : Trimmed (limb_list a))
    (tb : Trimmed (limb_list b)) (ne : (flag a == flag b) ≡ false) (dest : List ℕ)
    (room : max (get_or a 1 0) (get_or b 1 0) + 3 ≤ length dest) where
  add_above :
      ltb (magnitude b) (magnitude a) ≡ true
      → (d : List ℕ) × (add dest a b ≡ ok d) × (int_of d ≡ int_of a +ℤ int_of b)
  unfolding add
  add_above g =
      let le : magnitude b ≤ magnitude a = ground arith in
      let (d, diff, value, inside) =
        magnitude-sub_mag a b va vb dest (fewer_limbs a b va vb tb le) le (omega (arith, room)) in
      let f = flag_write d (flag a) inside (omega arith) in
      let c : cmp_mag a b ≡ pos 1 = cmp_mag-order a b va vb ta tb ∙ rw g refl in
      (
        set d 0 (flag a),
        rw (ne, c, diff, add) refl,
        ap₂ signed f.1 f.0
            ∙ sym
                (signed_sub (flag a) (flag b) (magnitude a) (magnitude b) (magnitude d)
                  (omega arith) (omega arith) ne value).0,
      )

  add_below :
      ltb (magnitude b) (magnitude a) ≡ false
      → ltb (magnitude a) (magnitude b) ≡ true
      → (d : List ℕ) × (add dest a b ≡ ok d) × (int_of d ≡ int_of a +ℤ int_of b)
  unfolding add
  add_below g l =
      let le : magnitude a ≤ magnitude b = ground arith in
      let (d, diff, value, inside) =
        magnitude-sub_mag b a vb va dest (fewer_limbs b a vb va ta le) le (omega (arith, room)) in
      let f = flag_write d (flag b) inside (omega arith) in
      let c : cmp_mag a b ≡ negsuc 0 = cmp_mag-order a b va vb ta tb ∙ rw (g, l) refl in
      let ne' : (flag b == flag a) ≡ false = ground (arith, ne) in
      (
        set d 0 (flag b),
        rw (ne, c, diff, add) refl,
        ap₂ signed f.1 f.0
            ∙ sym
                (signed_sub (flag b) (flag a) (magnitude b) (magnitude a) (magnitude d)
                  (omega arith) (omega arith) ne' value).1,
      )

  add_equal :
      ltb (magnitude b) (magnitude a) ≡ false
      → ltb (magnitude a) (magnitude b) ≡ false
      → (d : List ℕ) × (add dest a b ≡ ok d) × (int_of d ≡ int_of a +ℤ int_of b)
  unfolding add
  add_equal g l =
      let c : cmp_mag a b ≡ pos 0 = cmp_mag-order a b va vb ta tb ∙ rw (g, l) refl in
      let same : 0 + magnitude b ≡ magnitude a = ground arith in
      (
        init dest,
        rw (ne, c, add) refl,
        int_of-init dest (omega (arith, room))
            ∙ sym (signed_zero (flag a))
            ∙ sym
                (signed_sub (flag a) (flag b) (magnitude a) (magnitude b) 0 (omega arith)
                  (omega arith) ne same).0,
      )

-- Two big integers without zero limbs at the top, in a destination with a limb more than the longer of
-- them: the sum is written, and it stands for the sum of the two integers.
pub add_lem :
    (a b dest : List ℕ)
    → IsBigInt a
    → IsBigInt b
    → Trimmed (limb_list a)
    → Trimmed (limb_list b)
    → max (get_or a 1 0) (get_or b 1 0) + 3 ≤ length dest
    → (d : List ℕ) × (add dest a b ≡ ok d) × (int_of d ≡ int_of a +ℤ int_of b)
add_lem a b dest va vb ta tb room = elim (Bool-cases (flag a == flag b)) [
  | inl same ↦ add_same a b va vb dest room same
  | inr ne ↦ elim (Bool-cases (ltb (magnitude b) (magnitude a))) [
    | inl g ↦ add_above a b va vb ta tb ne dest room g
    | inr g ↦ elim (Bool-cases (ltb (magnitude a) (magnitude b))) [
      | inl l ↦ add_below a b va vb ta tb ne dest room g l
      | inr l ↦ add_equal a b va vb ta tb ne dest room g l
    ]
  ]
]

add_mag-short :
    (a b dest : List ℕ)
    → IsBigInt a
    → IsBigInt b
    → 2 ≤ length dest
    → length dest < max (get_or a 1 0) (get_or b 1 0) + 3
    → add_mag dest a b ≡ err bad_size
unfolding add_mag
add_mag-short a b dest va vb two short =
    let g : ltb (length dest) 2 ≡ false = ground (arith, two) in
    let h : leb (max (get_or a 1 0) (get_or b 1 0) + 1) (length dest - 2) ≡ false =
      ground (arith, two, short) in
    rw (nlimbs-IsBigInt a va, nlimbs-IsBigInt b vb, g, h) refl

-- Two big integers of one sign, in a destination without a limb more than the
-- longer of them: `add` reports nothing, and the destination keeps the limbs that it held, whatever
-- the sum.
pub add_no_room :
    (a b dest : List ℕ)
    → IsBigInt a
    → IsBigInt b
    → flag a ≡ flag b
    → 2 ≤ length dest
    → 2 + get_or dest 1 0 ≤ length dest
    → length dest < max (get_or a 1 0) (get_or b 1 0) + 3
    → (d : List ℕ) × (add dest a b ≡ ok d) × (magnitude d ≡ magnitude dest)
unfolding add
add_no_room a b dest va vb same two inside short =
    let f = flag_write dest (flag a) inside (omega arith) in
    let f' = flag_write (set dest 0 (flag a)) 0 f.2 (omega arith) in
    let s : (flag a == flag b) ≡ true = ground arith in
    let e = add_mag-short a b dest va vb two short in
    elim (Bool-cases (nlimbs_or_zero (set dest 0 (flag a)) == 0)) [
      | inl z ↦ (set (set dest 0 (flag a)) 0 0, rw (s, e, z, add) refl, f'.0 ∙ f.0)
      | inr z ↦ (set dest 0 (flag a), rw (s, e, z, add) refl, f.0)
    ]
