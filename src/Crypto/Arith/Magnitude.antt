-- ===== src/Crypto/Arith/Magnitude.antt =====
-- What the operations on magnitudes (crates/rustee-crypto/src/arith.rs) compute.
use rustee.Prelude.{
  ℕ, zero, suc, ◌+◌, ◌-◌, ◌*◌, ◌%◌, ◌^◌, ◌<◌, ◌≤◌, ◌≡◌, refl, ap, ap₂, ◌∙◌, subst, max, min, List,
  [], ◌∷◌, ◌++◌, true, false, length, get_or, take, drop, replicate, ltb, leb, ◌==◌, if◌then◌else◌,
  ok, arith, Bool-cases, inl, inr, length-append, length-take, length-drop, length-replicate,
}
use rustee.Bytes.Laws.{take-exact}
use rustee.Crypto.Arith.{nlimbs, nlimbs_or_zero, trim, add_mag, sub_mag, cmp_mag, mul, assign, flag}
use rustee.Crypto.Arith.Limbs.{add_limbs, sub_limbs, mul_rows, trim_count, value_of, Words}
use rustee.Crypto.Arith.Limbs.Sums.{
  value_of-add_limbs, length-add_limbs, value_of-sub_limbs, length-sub_limbs,
}
use rustee.Crypto.Arith.Limbs.Products.{
  value_of-mul_rows, length-mul_rows, Zeros-replicate, Zeros-drop, value_of-Zeros,
}
use rustee.Crypto.Arith.Limbs.Compare.{
  order, cmp_limbs-order, Trimmed, shorter_lt, value_of-trim_count, trim_count_le, value_of-take,
  take_all, top_zero, product_places,
}

-- A slice of 32-bit words with its head, whose limbs lie inside.
pub record IsBigInt (op : List ℕ) : Type 0 where
  pub head : 2 ≤ length op
  pub inside : 2 + get_or op 1 0 ≤ length op
  pub words : Words (drop 2 op)

-- The limbs, and the number that they stand for.
abbrev pub limb_list : List ℕ → List ℕ
limb_list op = take (get_or op 1 0) (drop 2 op)

abbrev pub magnitude : List ℕ → ℕ
magnitude op = value_of (limb_list op)

pub Words-take : (n : ℕ) (xs : List ℕ) → Words xs → Words (take n xs)
Words-take zero xs w = tt
Words-take (suc n) [] w = tt
Words-take (suc n) (x ∷ xs) w = (w.0, Words-take n xs w.1)

pub nlimbs-IsBigInt : (op : List ℕ) → IsBigInt op → nlimbs op ≡ ok (get_or op 1 0)
unfolding nlimbs
nlimbs-IsBigInt op v =
    let g : ltb (length op) 2 ≡ false = ground (arith, v.head) in
    let h : leb (2 + get_or op 1 0) (length op) ≡ true = ground (arith, v.inside) in rw (g, h) refl

pub nlimbs_or_zero-IsBigInt : (op : List ℕ) → IsBigInt op → nlimbs_or_zero op ≡ get_or op 1 0
unfolding nlimbs_or_zero
nlimbs_or_zero-IsBigInt op v = rw (nlimbs-IsBigInt op v, nlimbs_or_zero) refl

pub length-limb_list : (op : List ℕ) → IsBigInt op → length (limb_list op) ≡ get_or op 1 0
length-limb_list op v =
    omega (arith, length-take (get_or op 1 0) (drop 2 op), length-drop 2 op, v.inside)

pub limb_list-Words : (op : List ℕ) → IsBigInt op → Words (limb_list op)
limb_list-Words op v = Words-take (get_or op 1 0) (drop 2 op) v.words

take_prefix : (xs ys : List ℕ) (n : ℕ) → n ≤ length xs → take n (xs ++ ys) ≡ take n xs
take_prefix xs ys zero h = refl
take_prefix [] ys (suc n) h = absurd (omega arith)
take_prefix (x ∷ xs) ys (suc n) h = ap (λ l. x ∷ l) (take_prefix xs ys n (omega arith))

-- The limbs of a sum without its top word, if that is zero.
drop_top :
    (ls rest : List ℕ) (n : ℕ)
    → length ls ≡ n + 1
    → value_of (take (n + (if get_or ls n 0 == 0 then 0 else 1)) (ls ++ rest)) ≡ value_of ls
drop_top ls rest n e = elim (Bool-cases (get_or ls n 0 == 0)) [
  | inl z ↦
      let top : get_or ls n 0 ≡ 0 = ground arith in
      let cut : take (n + 0) (ls ++ rest) ≡ take n ls =
        ap (λ k. take k (ls ++ rest)) (omega arith) ∙ take_prefix ls rest n (omega arith) in
      let last = value_of-take ls n in
      rw z (
        ap value_of cut
        ∙ omega (
          arith,
          last,
          ap value_of (take_all ls (suc n) (omega arith)),
          ap (λ k. 4294967296 ^ n * k) top,
        ))
  | inr z ↦ rw z (ap value_of (take-exact ls rest (n + 1) (omega arith)))
]

-- What `trim` leaves: a new head, and the words as they are.
pub trim_form :
    (f m : ℕ) (ls : List ℕ)
    → trim (f ∷ m ∷ ls) ≡ (if trim_count ls m == 0 then 0 else f) ∷ trim_count ls m ∷ ls
unfolding trim
trim_form f m ls = elim (Bool-cases (trim_count ls m == 0)) [
  | inl z ↦ rw (z, trim) refl
  | inr z ↦ rw (z, trim) refl
]

trim-magnitude : (f m : ℕ) (ls : List ℕ) → magnitude (trim (f ∷ m ∷ ls)) ≡ value_of (take m ls)
trim-magnitude f m ls = ap magnitude (trim_form f m ls) ∙ value_of-trim_count ls m

trim-Inside :
    (f m : ℕ) (ls : List ℕ)
    → m ≤ length ls
    → 2 + get_or (trim (f ∷ m ∷ ls)) 1 0 ≤ length (trim (f ∷ m ∷ ls))
trim-Inside f m ls h = rw (trim_form f m ls) (omega (arith, trim_count_le ls m))

assign-magnitude :
    (dest : List ℕ) (f m : ℕ) (ls : List ℕ)
    → length ls + 2 ≤ length dest
    → m ≤ length ls
    → magnitude (assign dest (f ∷ m ∷ ls)) ≡ value_of (take m ls)
unfolding assign
assign-magnitude dest f m ls room inside =
    let e : min (length dest) (length (f ∷ m ∷ ls)) ≡ suc (suc (length ls)) = omega (arith, room) in
    rw (e, assign)
      (ap value_of (
        take_prefix (take (length ls) ls) (replicate (length dest - suc (suc (length ls))) 0) m
          (omega (arith, length-take (length ls) ls, inside))
        ∙ ap (take m) (take_all ls (length ls) refl)))

module _ (a b : List ℕ) (va : IsBigInt a) (vb : IsBigInt b) where
  -- The sum of two magnitudes, in a destination that has a limb more than the longer of them.
  pub magnitude-add_mag :
      (dest : List ℕ)
      → max (get_or a 1 0) (get_or b 1 0) + 3 ≤ length dest
      → (d : List ℕ) × (add_mag dest a b ≡ ok d)
        × (magnitude d ≡ magnitude a + magnitude b)
        × (2 + get_or d 1 0 ≤ length d)
  unfolding add_mag
  magnitude-add_mag [] room = absurd (omega (arith, room))
  magnitude-add_mag (x ∷ []) room = absurd (omega (arith, room))
  magnitude-add_mag (x ∷ y ∷ ds) room =
      let n = max (get_or a 1 0) (get_or b 1 0) in
      let g : ltb (length (x ∷ y ∷ ds)) 2 ≡ false = ground arith in
      let h : leb (n + 1) (length (x ∷ y ∷ ds) - 2) ≡ true = ground (arith, room) in
      let sum = add_limbs n (limb_list a) (limb_list b) 0 in
      let size = length-add_limbs n (limb_list a) (limb_list b) 0 in
      let value =
        value_of-add_limbs n (limb_list a) (limb_list b) 0 (omega (arith, length-limb_list a va))
          (omega (arith, length-limb_list b vb)) (limb_list-Words a va) (limb_list-Words b vb)
          (omega arith) in
      let top : ℕ = n + (if get_or sum n 0 == 0 then 0 else 1) in
      (
        0 ∷ top ∷ (sum ++ drop (2 + length sum) (x ∷ y ∷ ds)),
        rw (nlimbs-IsBigInt a va, nlimbs-IsBigInt b vb, g, h) refl,
        drop_top sum _ n size ∙ omega (arith, value),
        ground (arith, length-append sum (drop (2 + length sum) (x ∷ y ∷ ds)), size),
      )

  -- The difference of two magnitudes, in a destination as long as the minuend, when the subtrahend is
  -- not the larger and has no more limbs.
  pub magnitude-sub_mag :
      (dest : List ℕ)
      → get_or b 1 0 ≤ get_or a 1 0
      → magnitude b ≤ magnitude a
      → 2 + get_or a 1 0 ≤ length dest
      → (d : List ℕ) × (sub_mag dest a b ≡ ok d)
        × (magnitude d + magnitude b ≡ magnitude a)
        × (2 + get_or d 1 0 ≤ length d)
  unfolding sub_mag
  magnitude-sub_mag [] fewer le room = absurd (omega (arith, room))
  magnitude-sub_mag (x ∷ []) fewer le room = absurd (omega (arith, room))
  magnitude-sub_mag (x ∷ y ∷ ds) fewer le room =
      let la = get_or a 1 0 in
      let g : ltb (length (x ∷ y ∷ ds)) (2 + la) ≡ false = ground (arith, room) in
      let diff = sub_limbs (limb_list a) (limb_list b) 0 in
      let value =
        value_of-sub_limbs (limb_list a) (limb_list b) 0
          (omega (arith, length-limb_list a va, length-limb_list b vb, fewer))
          (limb_list-Words a va) (limb_list-Words b vb) (omega arith) (omega (arith, le)) in
      let exact : la ≡ length diff =
        omega (arith, length-sub_limbs (limb_list a) (limb_list b) 0, length-limb_list a va) in
      (
        trim (0 ∷ la ∷ (diff ++ drop (2 + length diff) (x ∷ y ∷ ds))),
        rw (nlimbs-IsBigInt a va, nlimbs-IsBigInt b vb, g) refl,
        ap (λ k. k + magnitude b)
              (trim-magnitude 0 la (diff ++ drop (2 + length diff) (x ∷ y ∷ ds))
                ∙ ap value_of (take-exact diff _ la exact))
            ∙ omega (arith, value),
        trim-Inside 0 la (diff ++ drop (2 + length diff) (x ∷ y ∷ ds))
            (omega (arith, length-append diff (drop (2 + length diff) (x ∷ y ∷ ds)), exact)),
      )

  -- Magnitudes without zero limbs at the top are compared as numbers.
  pub cmp_mag-order :
      Trimmed (limb_list a)
      → Trimmed (limb_list b)
      → cmp_mag a b ≡ order (magnitude a) (magnitude b)
  unfolding cmp_mag
  cmp_mag-order ta tb =
      let la = get_or a 1 0 in
      let lb = get_or b 1 0 in
      let na = nlimbs_or_zero-IsBigInt a va in
      let nb = nlimbs_or_zero-IsBigInt b vb in
      let ea = length-limb_list a va in
      let eb = length-limb_list b vb in
      elim (Bool-cases (ltb lb la)) [
        | inl g ↦
            let t =
              shorter_lt (limb_list b) (limb_list a) (limb_list-Words b vb) ta
                (ground (arith, ea, eb)) in
            let o : ltb (magnitude b) (magnitude a) ≡ true = ground (arith, t) in
            rw (na, nb, g, o, cmp_mag) refl
        | inr g ↦ elim (Bool-cases (ltb la lb)) [
          | inl l ↦
              let t =
                shorter_lt (limb_list a) (limb_list b) (limb_list-Words a va) tb
                  (ground (arith, ea, eb)) in
              let o : ltb (magnitude b) (magnitude a) ≡ false = ground (arith, t) in
              let o' : ltb (magnitude a) (magnitude b) ≡ true = ground (arith, t) in
              rw (na, nb, g, l, o, o', cmp_mag) refl
          | inr l ↦
              let same : la ≡ lb = ground arith in
              rw (na, nb, g, l, cmp_mag)
                (cmp_limbs-order (drop 2 a) (drop 2 b) la va.words vb.words
                  ∙ ap (λ k. order (magnitude a) (value_of (take k (drop 2 b)))) same)
        ]
      ]

  mul_form :
      (dest : List ℕ)
      → let rows =
          mul_rows (replicate (get_or a 1 0 + get_or b 1 0 + 1) 0) (limb_list a) (limb_list b) in
        mul dest a b
        ≡ assign dest (trim ((flag a + flag b) % 2 ∷ (get_or a 1 0 + get_or b 1 0) ∷ rows))
  unfolding mul
  mul_form dest = rw (nlimbs_or_zero-IsBigInt a va, nlimbs_or_zero-IsBigInt b vb, mul) refl

  -- The product of two big integers, in a destination with room for the limbs of both and one more.
  pub magnitude-mul :
      (dest : List ℕ)
      → get_or a 1 0 + get_or b 1 0 + 3 ≤ length dest
      → magnitude (mul dest a b) ≡ magnitude a * magnitude b
  magnitude-mul dest room =
      let n = get_or a 1 0 + get_or b 1 0 in
      let acc = replicate (n + 1) 0 in
      let rows = mul_rows acc (limb_list a) (limb_list b) in
      let f = (flag a + flag b) % 2 in
      let ea = length-limb_list a va in
      let eb = length-limb_list b vb in
      let filled : length acc ≡ n + 1 = length-replicate (n + 1) 0 in
      let zero_acc = Zeros-replicate (n + 1) in
      let size : length rows ≡ n + 1 = omega (
        arith,
        length-mul_rows acc (limb_list a) (limb_list b) (omega (arith, ea, filled)),
        filled,
      ) in
      let value =
        value_of-mul_rows acc (limb_list a) (limb_list b) (omega (arith, ea, eb, filled))
          (Zeros-drop acc (length (limb_list b)) zero_acc) (value_of-Zeros acc zero_acc).1
          (limb_list-Words a va) (limb_list-Words b vb) in
      let places : magnitude a * magnitude b < 4294967296 ^ n =
        subst (λ k. magnitude a * magnitude b < 4294967296 ^ k) (ap₂ ◌+◌ ea eb)
          (product_places (limb_list a) (limb_list b) (limb_list-Words a va)
            (limb_list-Words b vb)) in
      ap magnitude (mul_form dest ∙ ap (assign dest) (trim_form f n rows))
      ∙ assign-magnitude dest _ (trim_count rows n) rows (omega (arith, size, room))
          (omega (arith, trim_count_le rows n, size))
      ∙ value_of-trim_count rows n
      ∙ top_zero rows n size (omega (arith, value, (value_of-Zeros acc zero_acc).0, places))
      ∙ omega (arith, value, (value_of-Zeros acc zero_acc).0)
