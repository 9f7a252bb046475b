-- ===== src/Storage/Handle/Laws.antt =====
-- A write through a handle is read back (`write` and `read` of crates/rustee-storage/src/lib.rs).
use rustee.Prelude.{
  ℕ, ◌+◌, ◌-◌, ◌%◌, ◌^◌, ◌<◌, ◌≤◌, ◌≡◌, refl, ap, ◌∙◌, min, max, List, ◌++◌, arith, length, take,
  drop, replicate, ltb, if◌then◌else◌, ok, le→ltb, length-append, length-take, length-replicate,
  Bool-cases, inl, inr, ltb→lt, ltb→le,
}
use rustee.Bytes.{write_at}
use rustee.Bytes.Laws.{take-exact}
use rustee.Bytes.Writes.{length-write_at, drop-write_at, write_at-whole}
use rustee.Storage.Handle.{ObjectHandle, max_object, resize, read, write_handle, with_contents}

length-resize : (bytes : List ℕ) (n : ℕ) → length (resize bytes n) ≡ n
length-resize bytes n = omega (
  arith,
  length-append (take n bytes) (replicate (n - length bytes) 0),
  length-take n bytes,
  length-replicate {A = ℕ} (n - length bytes) 0,
)

-- What the handle's data is before the write, at least as long as its end.
abbrev grown : ObjectHandle → ℕ → List ℕ
grown h end = if ltb (length h.contents) end then resize h.contents end else h.contents

length-grown : (h : ObjectHandle) (end : ℕ) → length (grown h end) ≡ max (length h.contents) end
length-grown h end = elim (Bool-cases (ltb (length h.contents) end)) [
  | inl short ↦ rw short (omega (arith, length-resize h.contents end, ltb→lt _ _ short))
  | inr long ↦ rw long (omega (arith, ltb→le _ _ long))
]

-- The place of an object does not change: its TA, its ids and its flags.
abbrev pub SamePlace : ObjectHandle → ObjectHandle → Type 0
SamePlace h h' =
    (h'.ta ≡ h.ta)
    × (h'.file_id ≡ h.file_id)
    × (h'.object_id ≡ h.object_id)
    × (h'.flags ≡ h.flags)
    × (h'.obj_version < 2 ^ 64)

-- In memory, a write that ends within the limit of an object succeeds, at the object's place: the data are as long as they were, or up to
-- the end of the write, and a read of as many bytes at the same place gives what was written.
pub read-write_handle :
    (h : ObjectHandle) (off : ℕ) (buf into : List ℕ)
    → off + length buf ≤ max_object
    → length into ≡ length buf
    → (h' : ObjectHandle) × (write_handle h off buf ≡ ok h')
      × (length h'.contents ≡ max (length h.contents) (off + length buf))
      × (read h' off into ≡ (length buf, buf))
      × SamePlace h h'
unfolding write_handle read
read-write_handle h off buf into limit same =
    let end = off + length buf in
    let wrap : end % 2 ^ 64 ≡ end = omega (arith, limit) in
    let fits = le→ltb max_object end limit in
    let order = le→ltb end off (omega arith) in
    let base = grown h end in
    let inside : off + length buf ≤ length base = omega (arith, length-grown h end) in
    let size = length-write_at base off buf inside ∙ length-grown h end in
    let now : drop off (write_at base off buf) ≡ buf ++ drop (off + length buf) base =
      drop-write_at base off buf inside in
    let n : min (length into) (length (write_at base off buf) - off) ≡ length buf =
      omega (arith, size, same) in
    let reaches = le→ltb (length (write_at base off buf)) off (omega (arith, size)) in
    (
      with_contents h (write_at base off buf),
      rw (wrap, fits, order, write_handle) refl,
      size,
      rw (reaches, n, read)
          (ap (λ x. (length buf, write_at into 0 x))
              (ap (take (length buf)) now ∙ take-exact buf _ (length buf) refl)
            ∙ ap (λ x. (length buf, x)) (write_at-whole into buf same)),
      (refl, refl, refl, refl, omega arith),
    )
