-- ===== src/Bytes/Writes.antt =====
-- A write into a byte string: what it leaves, and adjacent writes.
use rustee.Prelude.{
  ℕ, ◌+◌, ◌≤◌, ◌≡◌, refl, ap, ap₂, ◌∙◌, sym, List, [], ◌∷◌, ◌++◌, append_assoc, append-nil, length,
  take, drop, arith, length-append, length-take, length-drop,
}
use rustee.Bytes.{write_at}
use rustee.Bytes.Laws.{drop-skip, take-exact, drop-drop, take-append-drop}

drop_self : (xs : List ℕ) → drop (length xs) xs ≡ []
drop_self [] = refl
drop_self (x ∷ xs) = drop_self xs

-- A write of the whole slice leaves just what is written.
pub write_at-whole : (xs w : List ℕ) → length xs ≡ length w → write_at xs 0 w ≡ w
write_at-whole xs w e =
    ap (λ l. w ++ l) (ap (λ k. drop k xs) (omega (arith, e)) ∙ drop_self xs) ∙ append-nil w

module _ (pool : List ℕ) (s : ℕ) (w : List ℕ) (b : s + length w ≤ length pool) where
  length-take_s : length (take s pool) ≡ s
  length-take_s = omega (arith, length-take s pool)

  -- A write inside the pool keeps the length, and what stands in front of it and behind it.
  pub length-write_at : length (write_at pool s w) ≡ length pool
  length-write_at = omega (
    arith,
    length-append (take s pool) (w ++ drop (s + length w) pool),
    length-take_s,
    length-append w (drop (s + length w) pool),
    length-drop (s + length w) pool,
  )

  pub take-write_at : take s (write_at pool s w) ≡ take s pool
  take-write_at = take-exact (take s pool) _ s (omega (arith, length-take_s))

  pub drop-write_at : drop s (write_at pool s w) ≡ w ++ drop (s + length w) pool
  drop-write_at = drop-skip (take s pool) _ s 0 (omega (arith, length-take_s))

  pub drop-write_at_behind :
      (k : ℕ) → drop (s + length w + k) (write_at pool s w) ≡ drop (s + length w + k) pool
  drop-write_at_behind k =
      sym (
        drop-drop (length w + k) s (write_at pool s w)
        ∙ ap (λ j. drop j (write_at pool s w)) (omega arith))
      ∙ ap (λ l. drop (length w + k) l) drop-write_at
      ∙ drop-skip w (drop (s + length w) pool) (length w + k) k refl
      ∙ drop-drop k (s + length w) pool

  take-write_at_end : take (s + length w) (write_at pool s w) ≡ take s pool ++ w
  take-write_at_end =
      ap (λ l. take (s + length w) l)
        (sym (append_assoc (take s pool) w (drop (s + length w) pool)))
      ∙ take-exact (take s pool ++ w) _ (s + length w)
          (omega (arith, length-take_s, length-append (take s pool) w))

  -- Two adjacent writes are one.
  pub write_at-join :
      (v : List ℕ) → write_at (write_at pool s w) (s + length w) v ≡ write_at pool s (w ++ v)
  write_at-join v =
      ap₂ (λ l m. l ++ (v ++ m)) take-write_at_end (drop-write_at_behind (length v))
      ∙ append_assoc (take s pool) w (v ++ drop (s + length w + length v) pool)
      ∙ ap (λ l. take s pool ++ l)
          (sym (append_assoc w v (drop (s + length w + length v) pool))
            ∙ ap (λ k. (w ++ v) ++ drop k pool) (omega (arith, length-append w v)))

pub write_at-nil : (pool : List ℕ) (s : ℕ) → write_at pool s [] ≡ pool
write_at-nil pool s =
    ap (λ k. take s pool ++ drop k pool) (let e : s + 0 ≡ s = omega arith in e)
    ∙ take-append-drop s pool
