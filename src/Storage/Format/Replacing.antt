-- ===== src/Storage/Format/Replacing.antt =====
-- Directories with one entry replaced: what `position` finds and how many bytes they have
-- (crates/rustee-storage/src/lib.rs).
use rustee.Prelude.{
  ℕ, zero, suc, ◌*◌, ◌^◌, ◌<◌, ◌≤◌, ◌≡◌, refl, ap, ◌∙◌, sym, List, [], ◌∷◌, Option, none, some,
  false, arith, length, get_elem?, set, length-append, bytes_eq, bytes_eq_refl, Bool-cases, inl,
  inr,
}
use rustee.Storage.Format.{ObjectMeta, FileRef, dir_bytes, dir_entries, position}
use rustee.Storage.Format.Directory.{AllMetaFit, AllRefFit, MetaFits, RefFits}

pub get_elem?-set {ℓ} :
    {A : Type ℓ} (xs : List A) (i : ℕ) (x : A) → i < length xs → get_elem? (set xs i x) i ≡ some x
get_elem?-set [] i x h = absurd (omega (arith, h))
get_elem?-set (y ∷ xs) zero x h = refl
get_elem?-set (y ∷ xs) (suc i) x h = get_elem?-set xs i x (omega (arith, h))

pub set-AllMetaFit :
    (entries : List ObjectMeta) (i : ℕ) (e : ObjectMeta)
    → AllMetaFit entries
    → MetaFits e
    → AllMetaFit (set entries i e)
set-AllMetaFit [] i e all one = tt
set-AllMetaFit (x ∷ entries) zero e all one = (one, all.1)
set-AllMetaFit (x ∷ entries) (suc i) e all one = (all.0, set-AllMetaFit entries i e all.1 one)

pub set-AllRefFit :
    (files : List FileRef) (i : ℕ) (f : FileRef)
    → AllRefFit files
    → RefFits f
    → AllRefFit (set files i f)
set-AllRefFit [] i f all one = tt
set-AllRefFit (x ∷ files) zero f all one = (one, all.1)
set-AllRefFit (x ∷ files) (suc i) f all one = (all.0, set-AllRefFit files i f all.1 one)

-- An entry of 292 bytes at most for each object.
length-dir_entries :
    (entries : List ObjectMeta) (files : List FileRef)
    → AllMetaFit entries
    → AllRefFit files
    → length (dir_entries entries files) ≤ 292 * length entries
unfolding dir_entries
length-dir_entries [] files metas refs = omega arith
length-dir_entries (e ∷ entries) [] metas refs = omega (
  arith,
  length-dir_entries entries [] metas.1 refs,
  length-append e.object_id _,
  length-append (dir_entries entries []) [],
  metas.0.short_id,
)
length-dir_entries (e ∷ entries) (f ∷ files) metas refs = omega (
  arith,
  length-dir_entries entries files metas.1 refs.1,
  length-append f.0 _,
  length-append e.object_id _,
  length-append (dir_entries entries files) [],
  refs.0.0,
  metas.0.short_id,
)

pub length-dir_bytes :
    (entries : List ObjectMeta) (files : List FileRef)
    → AllMetaFit entries
    → AllRefFit files
    → length entries < 2 ^ 26
    → length (dir_bytes entries files) < 2 ^ 35
unfolding dir_bytes
length-dir_bytes entries files metas refs few =
    omega (arith, length-dir_entries entries files metas refs, few)

-- Behind the first entry.
position-later :
    (e : ObjectMeta) (entries : List ObjectMeta) (object_id : List ℕ) (i : ℕ)
    → bytes_eq e.object_id object_id ≡ false
    → position entries object_id ≡ some i
    → position (e ∷ entries) object_id ≡ some (suc i)
unfolding position
position-later e entries object_id i other h = rw (other, h) refl

position-suc :
    (e : ObjectMeta) (entries : List ObjectMeta) (object_id : List ℕ) (i : ℕ)
    → bytes_eq e.object_id object_id ≡ false
    → position (e ∷ entries) object_id ≡ some i
    → (j : ℕ) × (i ≡ suc j) × (position entries object_id ≡ some j)
unfolding position
position-suc e entries object_id i other h = go (position entries object_id) (rw other at h)
  where
    go :
        (o : Option ℕ)
        → elim o [ none ↦ none | some i ↦ some (suc i) ] ≡ some i
        → (j : ℕ) × (i ≡ suc j) × (o ≡ some j)
    go none e = cc
    go (some j) e = (j, cc, refl)

-- The entry at the place of an object, replaced by one with the same id, is found there.
pub position-set :
    (entries : List ObjectMeta) (e' : ObjectMeta) (i : ℕ)
    → position entries e'.object_id ≡ some i
    → (i < length entries) × (position (set entries i e') e'.object_id ≡ some i)
unfolding position
position-set [] e' i h = cc
position-set (e ∷ entries) e' i h = elim (Bool-cases (bytes_eq e.object_id e'.object_id)) [
  | inl same ↦
      let first : i ≡ 0 = sym (some_eq (rw same at h)) in
      (
        omega (arith, first),
        ap (λ k. position (set (e ∷ entries) k e') e'.object_id) first
            ∙ rw (bytes_eq_refl e'.object_id) refl
            ∙ ap some (sym first),
      )
  | inr other ↦
      let (j, later, there) = position-suc e entries e'.object_id i other h in
      let (inside, found) = position-set entries e' j there in
      (
        omega (arith, later, inside),
        ap (λ k. position (set (e ∷ entries) k e') e'.object_id) later
            ∙ position-later e (set entries j e') e'.object_id j other found
            ∙ ap some (sym later),
      )
]
  where
    some_eq : {m n : ℕ} → some m ≡ some n → m ≡ n
    some_eq e = cc
