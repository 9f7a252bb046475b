-- ===== src/Storage/Format/Parts.antt =====
-- A part of a joined byte string is read back at its offset.
use rustee.Prelude.{
  ℕ, zero, suc, ◌+◌, ◌<◌, ◌≡◌, refl, ap, ◌∙◌, List, [], ◌∷◌, ◌++◌, arith, length, get_or, take,
  drop, length-append,
}
use rustee.Bytes.{bytes_at}
use rustee.Bytes.Laws.{drop-skip, take-exact}
use rustee.Storage.Format.{concat}

abbrev pub total : ℕ → List (List ℕ) → ℕ
total zero ps = 0
total (suc i) [] = 0
total (suc i) (p ∷ ps) = length p + total i ps

pub bytes_at-part :
    (ps : List (List ℕ)) (i off n : ℕ)
    → i < length ps
    → off ≡ total i ps
    → n ≡ length (get_or ps i [])
    → bytes_at (concat ps) off n ≡ get_or ps i []
bytes_at-part [] i off n h eo en = absurd (omega (arith, h))
bytes_at-part (p ∷ ps) zero off n h eo en =
    ap (λ k. take n (drop k (p ++ concat ps))) eo ∙ take-exact p (concat ps) n en
bytes_at-part (p ∷ ps) (suc i) off n h eo en =
    ap (take n) (drop-skip p (concat ps) off (total i ps) eo)
    ∙ bytes_at-part ps i (total i ps) n (omega (arith, h)) refl en

pub drop-part :
    (ps : List (List ℕ)) (i off : ℕ)
    → off ≡ total i ps
    → i < length ps
    → drop off (concat ps) ≡ concat (drop i ps)
drop-part ps zero off e h = ap (λ k. drop k (concat ps)) e
drop-part [] (suc i) off e h = absurd (omega (arith, h))
drop-part (p ∷ ps) (suc i) off e h =
    drop-skip p (concat ps) off (total i ps) e ∙ drop-part ps i (total i ps) refl (omega (arith, h))

pub length-concat : (ps : List (List ℕ)) → length (concat ps) ≡ total (length ps) ps
length-concat [] = refl
length-concat (p ∷ ps) = length-append p (concat ps) ∙ ap (λ k. length p + k) (length-concat ps)
