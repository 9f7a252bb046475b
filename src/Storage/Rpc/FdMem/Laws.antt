-- ===== src/Storage/Rpc/FdMem/Laws.antt =====
-- The calls of `FdMem` at open descriptors (crates/rustee-storage/src/lib.rs).
use rustee.Prelude.{
  ℕ, zero, suc, ◌+◌, ◌-◌, ◌<◌, ◌≤◌, ◌≡◌, refl, ap, ap₂, ◌∙◌, sym, min, max, List, [], ◌∷◌, ◌++◌,
  Option, none, some, arith, length, take, drop, replicate, ltb, leb, Res, ok, err, panic,
  length-append, length-take, length-drop, Bool-cases, inl, inr, ltb→lt, ltb→le, leb→le, append-nil,
  length-replicate, bytes_eq, bytes_eq_refl, bytes_eq_sound,
}
use rustee.Bytes.{bytes_at, write_at}
use rustee.Storage.Env.{StorageError}
use rustee.Storage.Handle.{resize}
use rustee.Storage.Memory.{MemFs, lookup, insert, lookup-insert}
use rustee.Storage.Rpc.Files.{IsFiles, take_whole, short_take}
use rustee.Storage.Rpc.FdMem.{
  FdMem, fd_mem, contents, named, found, mem_slice, slice_of, spliced, mem_read, mem_write,
  mem_truncate, with_file, or_default,
}

found-some : (r : Res StorageError (List ℕ)) (old : List ℕ) → found r ≡ some old → r ≡ ok old
found-some (ok file) old h = cc
found-some (err code) old h = cc
found-some panic old h = cc

pub named-some :
    (path : List ℕ) (files : MemFs) (o : Option (List ℕ)) (old : List ℕ)
    → named path files o ≡ some old
    → (o ≡ some path) × (lookup files path ≡ ok old)
named-some path files none old h = cc
named-some path files (some name) old h = elim (Bool-cases (bytes_eq name path)) [
  | inl same ↦
      (ap some (bytes_eq_sound name path same), found-some (lookup files path) old (rw same at h))
  | inr other ↦ let e : none ≡ some old = rw other at h in cc
]

-- Under its name, at a descriptor that is open on it, the file is there.
pub named-open :
    (path : List ℕ) (files : MemFs) (o : Option (List ℕ)) (file : List ℕ)
    → o ≡ some path
    → lookup files path ≡ ok file
    → named path files o ≡ some file
named-open path files o file held there =
    ap (named path files) held ∙ rw (bytes_eq_refl path) (ap found there)

drop_behind : (n : ℕ) (xs : List ℕ) → length xs ≤ n → drop n xs ≡ []
drop_behind zero [] h = refl
drop_behind (suc n) [] h = refl
drop_behind zero (x ∷ xs) h = absurd (omega (arith, h))
drop_behind (suc n) (x ∷ xs) h = drop_behind n xs (omega (arith, h))

take_over : (n : ℕ) (xs ys : List ℕ) → n ≤ length xs → take n (xs ++ ys) ≡ take n xs
take_over zero xs ys h = refl
take_over (suc n) [] ys h = absurd (omega (arith, h))
take_over (suc n) (x ∷ xs) ys h = ap (λ l. x ∷ l) (take_over n xs ys (omega (arith, h)))

take_all : (n : ℕ) (xs : List ℕ) → length xs ≤ n → take n xs ≡ xs
take_all n xs h = elim (Bool-cases (ltb (length xs) n)) [
  | inl short ↦ short_take n xs (ltb→lt _ _ short)
  | inr long ↦
      ap (λ k. take k xs) (let e : n ≡ length xs = omega (arith, h, ltb→le _ _ long) in e)
      ∙ take_whole xs
]

take-min : (n : ℕ) (xs : List ℕ) → take (min n (length xs)) xs ≡ take n xs
take-min n xs = elim (Bool-cases (ltb n (length xs))) [
  | inl short ↦
      let less = ltb→lt _ _ short in
      ap (λ k. take k xs) (let e : min n (length xs) ≡ n = omega (arith, less) in e)
  | inr long ↦
      let all = ltb→le _ _ long in
      ap (λ k. take k xs) (let e : min n (length xs) ≡ length xs = omega (arith, all) in e)
      ∙ take_whole xs
      ∙ sym (take_all n xs all)
]

-- A write behind no gap needs no zeros.
spliced-inside :
    (file : List ℕ) (off : ℕ) (bytes : List ℕ)
    → off ≤ length file
    → spliced file off bytes ≡ write_at file off bytes
spliced-inside file off bytes h = elim (Bool-cases (ltb (length file) (off + length bytes))) [
  | inr inside ↦ rw inside refl
  | inl beyond ↦
      let end = off + length bytes in
      let less = ltb→lt _ _ beyond in
      let whole : take end file ≡ file = take_all end file (omega (arith, less)) in
      let zeros = replicate (end - length file) 0 in
      let grown : resize file end ≡ file ++ zeros = ap (λ l. l ++ zeros) whole in
      let size : length (file ++ zeros) ≡ end =
        omega
          (arith, length-append file zeros, length-replicate {A = ℕ} (end - length file) 0, less) in
      rw beyond (
        ap (λ l. write_at l off bytes) grown
        ∙ ap₂ (λ l m. l ++ (bytes ++ m)) (take_over off file zeros h)
            (drop_behind end (file ++ zeros) (omega (arith, size))
              ∙ sym (drop_behind end file (omega (arith, less)))))
]

resize-inside : (file : List ℕ) (size : ℕ) → size ≤ length file → resize file size ≡ take size file
resize-inside file size h =
    ap (λ n. take size file ++ replicate n 0)
      (let e : size - length file ≡ 0 = omega (arith, h) in e)
    ∙ append-nil (take size file)

slice_of-bytes :
    (file hint : List ℕ) (off : ℕ)
    → 0 < length hint
    → let piece = bytes_at file off (length hint) in slice_of file off hint ≡ (length piece, piece)
slice_of-bytes file hint off some_bytes = elim (Bool-cases (leb (length file) off)) [
  | inl behind ↦
      let none_left : bytes_at file off (length hint) ≡ [] =
        ap (take (length hint)) (drop_behind off file (leb→le _ _ behind))
        ∙ take_all (length hint) [] (omega arith) in
      rw behind (ap (λ l. (length l, l)) (sym none_left))
  | inr inside ↦
      let n = min (max (length hint) 1) (length file - off) in
      let wanted : n ≡ min (length hint) (length (drop off file)) =
        omega (arith, some_bytes, length-drop off file) in
      let piece : bytes_at file off n ≡ bytes_at file off (length hint) =
        ap (λ k. take k (drop off file)) wanted ∙ take-min (length hint) (drop off file) in
      let count : n ≡ length (bytes_at file off (length hint)) =
        omega (arith, wanted, length-take (length hint) (drop off file)) in
      rw inside (ap₂ (λ k l. (k, l)) count piece)
]

-- A descriptor stays open on its file, whose bytes are then those of a call.
reopened :
    (m : FdMem) (fd : ℕ) (path file : List ℕ)
    → m.fds fd ≡ some path
    → contents path (with_file m path file) fd ≡ some file
reopened m fd path file held =
    named-open path (insert m.files path file) (m.fds fd) file held
      (lookup-insert m.files path file)

pub fd_mem-IsFiles : (path : List ℕ) → IsFiles fd_mem (contents path)
fd_mem-IsFiles path = record {
  writes = λ m fd off bytes old at inside few.
      let (held, there) = named-some path m.files (m.fds fd) old at in
      let file = spliced (or_default (lookup m.files path)) off bytes in
      (
        with_file m path file,
        ap (λ o. mem_write m o off bytes) held,
        reopened m fd path file held
            ∙ ap some (
                ap (λ r. spliced (or_default r) off bytes) there
                ∙ spliced-inside old off bytes inside),
      );
  truncates = λ m fd size old at inside.
      let (held, there) = named-some path m.files (m.fds fd) old at in
      let file = resize (or_default (lookup m.files path)) size in
      (
        with_file m path file,
        ap (λ o. mem_truncate m o size) held,
        reopened m fd path file held
            ∙ ap some (ap (λ r. resize (or_default r) size) there ∙ resize-inside old size inside),
      );
  reads = λ m fd off hint old at some_bytes few.
      let (held, there) = named-some path m.files (m.fds fd) old at in
      (
        m,
        ap (λ o. mem_read m o off hint) held
            ∙ ap (mem_slice m off hint) there
            ∙ ap (λ r. (ok r, m)) (slice_of-bytes old hint off some_bytes),
        at,
      );
}
