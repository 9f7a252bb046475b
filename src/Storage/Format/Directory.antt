-- ===== src/Storage/Format/Directory.antt =====
-- The directory's bytes are read back (`store_dir_full` and `parse_dir`).
use rustee.Prelude.{
  ℕ, suc, ◌+◌, ◌%◌, ◌^◌, ◌<◌, ◌≤◌, ◌≡◌, refl, ap, ap₂, ◌∙◌, sym, List, [], ◌∷◌, true, arith, length,
  take, drop, get_or, replicate, leb, Res, ok, length-drop, append-nil, bytes_eq, ◌>>=◌, ◌>>◌,
  ensure,
}
use rustee.Bytes.{to_le, from_le, bytes_at, read_u32, read_u64, byte_at}
use rustee.Bytes.Laws.{from_le-to_le, length-to_le, drop-drop}
use rustee.Storage.Env.{StorageError, corrupt}
use rustee.Storage.Format.{
  ObjectMeta, FileRef, concat, dir_entries, dir_bytes, parse_entries, parse_dir,
}
use rustee.Storage.Format.Parts.{bytes_at-part, drop-part, length-concat, total}

-- The fields of an entry and of its file fit their places.
pub record MetaFits (e : ObjectMeta) : Type 0 where
  pub short_id : length e.object_id < 256
  pub flags_word : e.flags < 2 ^ 32
  pub size_word : e.data_size < 2 ^ 64

abbrev pub RefFits : FileRef → Type 0
RefFits f = (length f.0 ≡ 16) × (f.1 < 2 ^ 64)

abbrev pub AllMetaFit : List ObjectMeta → Type 0
AllMetaFit [] = Unit
AllMetaFit (e ∷ entries) = MetaFits e × AllMetaFit entries

abbrev pub AllRefFit : List FileRef → Type 0
AllRefFit [] = Unit
AllRefFit (f ∷ files) = RefFits f × AllRefFit files

abbrev pub no_file : FileRef
no_file = (replicate 16 0, 1)

-- A file for each entry: the missing ones are the zero id.
abbrev pub pad_files : List ObjectMeta → List FileRef → List FileRef
pad_files [] files = []
pad_files (e ∷ entries) [] = no_file ∷ pad_files entries []
pad_files (e ∷ entries) (f ∷ files) = f ∷ pad_files entries files

-- The bytes at an offset behind `off` are those of what stands at `off`.
at_tail :
    (pt tail : List ℕ) (off k n : ℕ)
    → drop off pt ≡ tail
    → bytes_at pt (off + k) n ≡ bytes_at tail k n
at_tail pt tail off k n e = ap (take n) (sym (drop-drop k off pt) ∙ ap (drop k) e)

abbrev with_entry :
    List ℕ
    → ℕ
    → ℕ
    → List ℕ
    → ℕ
    → List ObjectMeta × List FileRef
    → Res StorageError (List ObjectMeta × List FileRef)
with_entry oid flags size fid ver more =
    ok (record { object_id = oid; flags = flags; data_size = size } ∷ more.0, (fid, ver) ∷ more.1)

-- One entry that stands at an offset, in the parts that the code writes.
module _ (fid lead oid flags size ver rest pt : List ℕ) (off n : ℕ) (l0 : length fid ≡ 16)
    (l1 : length lead ≡ 1) (l2 : length oid ≡ n) (l3 : length flags ≡ 4) (l4 : length size ≡ 8)
    (l5 : length ver ≡ 8) (id_len : from_le lead ≡ n)
    (tail : drop off pt ≡ concat (fid ∷ lead ∷ oid ∷ flags ∷ size ∷ ver ∷ rest ∷ []))
    (inside : off ≤ length pt) where
  abbrev parts : List (List ℕ)
  parts = fid ∷ lead ∷ oid ∷ flags ∷ size ∷ ver ∷ rest ∷ []

  long : off + 37 + n + length rest ≡ length pt
  long = omega (
    arith,
    length-drop off pt,
    ap length tail,
    length-concat parts,
    l0,
    l1,
    l2,
    l3,
    l4,
    l5,
    inside,
  )

  fid_at : bytes_at pt off 16 ≡ fid
  fid_at =
      ap (λ k. bytes_at pt k 16) (let e : off ≡ off + 0 = omega arith in e)
      ∙ at_tail pt _ off 0 16 tail
      ∙ bytes_at-part parts 0 0 16 (omega arith) (omega arith) (sym l0)

  lead_at : byte_at pt (off + 16) ≡ n
  unfolding byte_at
  lead_at =
      ap from_le (
        at_tail pt _ off 16 1 tail
        ∙ bytes_at-part parts 1 16 1 (omega arith) (omega (arith, l0)) (sym l1))
      ∙ id_len

  oid_at : bytes_at pt (off + 17) n ≡ oid
  oid_at =
      at_tail pt _ off 17 n tail
      ∙ bytes_at-part parts 2 17 n (omega arith) (omega (arith, l0, l1)) (sym l2)

  word_at :
      (i k m : ℕ) (at : ℕ)
      → i < 7
      → at ≡ off + k
      → k ≡ total i parts
      → m ≡ length (get_or parts i [])
      → from_le (bytes_at pt at m) ≡ from_le (get_or parts i [])
  word_at i k m at h a e l =
      ap (λ j. from_le (bytes_at pt j m)) a
      ∙ ap from_le (at_tail pt _ off k m tail ∙ bytes_at-part parts i k m h e l)

  abbrev next :
      ℕ → ℕ → List ℕ → ℕ → ℕ → List ℕ → ℕ → Res StorageError (List ObjectMeta × List FileRef)
  next count k o fl sz fi ve = parse_entries count pt k >>= with_entry o fl sz fi ve

  abbrev body : ℕ → ℕ → Res StorageError (List ObjectMeta × List FileRef)
  body count m =
      ensure (leb (off + 17 + m + 20) (length pt)) corrupt
      >> next count (off + 17 + m + 20) (bytes_at pt (off + 17) m) (read_u32 pt (off + 17 + m))
          (read_u64 pt (off + 17 + m + 4)) (bytes_at pt off 16) (read_u64 pt (off + 17 + m + 12))

  entry_parsed :
      (count : ℕ)
      → parse_entries (suc count) pt off ≡ (
          parse_entries count pt (off + 37 + n)
          >>= with_entry oid (from_le flags) (from_le size) fid (from_le ver))
  unfolding parse_entries read_u32 read_u64
  entry_parsed count =
      let g : leb (off + 17) (length pt) ≡ true = ground (arith, long) in
      let h : leb (off + 17 + n + 20) (length pt) ≡ true = ground (arith, long) in
      let start : parse_entries (suc count) pt off ≡ body count (byte_at pt (off + 16)) =
        rw g refl in
      start
      ∙ ap (body count) lead_at
      ∙ (rw h refl)
      ∙ ap₂
          (λ k o.
            next count k o (read_u32 pt (off + 17 + n)) (read_u64 pt (off + 17 + n + 4))
              (bytes_at pt off 16) (read_u64 pt (off + 17 + n + 12)))
          (let e : off + 17 + n + 20 ≡ off + 37 + n = omega arith in e) oid_at
      ∙ ap₂
          (λ fl sz.
            next count (off + 37 + n) oid fl sz (bytes_at pt off 16)
              (read_u64 pt (off + 17 + n + 12)))
          (word_at 3 (17 + n) 4 (off + 17 + n) (omega arith) (omega arith)
            (omega (arith, l0, l1, l2)) (sym l3))
          (word_at 4 (21 + n) 8 (off + 17 + n + 4) (omega arith) (omega arith)
            (omega (arith, l0, l1, l2, l3)) (sym l4))
      ∙ ap₂ (λ fi ve. next count (off + 37 + n) oid (from_le flags) (from_le size) fi ve) fid_at
          (word_at 5 (29 + n) 8 (off + 17 + n + 12) (omega arith) (omega arith)
            (omega (arith, l0, l1, l2, l3, l4)) (sym l5))

  rest_at : drop (off + 37 + n) pt ≡ rest
  rest_at =
      ap (λ k. drop k pt) (let e : off + 37 + n ≡ off + (37 + n) = omega arith in e)
      ∙ sym (drop-drop (37 + n) off pt)
      ∙ ap (drop (37 + n)) tail
      ∙ drop-part parts 6 (37 + n) (omega (arith, l0, l1, l2, l3, l4, l5)) (omega arith)
      ∙ append-nil rest

module _ (e : ObjectMeta) (f : FileRef) (fe : MetaFits e) (ff : RefFits f) (rest pt : List ℕ)
    (off count : ℕ) where
  abbrev entry_bytes : List ℕ
  entry_bytes = concat (
      f.0
      ∷ (length e.object_id % 256 ∷ [])
      ∷ e.object_id
      ∷ to_le 4 e.flags
      ∷ to_le 8 e.data_size
      ∷ to_le 8 f.1
      ∷ rest
      ∷ [])

  parse_one :
      drop off pt ≡ entry_bytes
      → off ≤ length pt
      → (more : List ObjectMeta × List FileRef)
      → parse_entries count pt (off + 37 + length e.object_id) ≡ ok more
      → parse_entries (suc count) pt off ≡ ok (e ∷ more.0, f ∷ more.1)
  parse_one tail inside more later =
      let n = length e.object_id in
      let step =
        entry_parsed f.0 (n % 256 ∷ []) e.object_id (to_le 4 e.flags) (to_le 8 e.data_size)
          (to_le 8 f.1) rest pt off n ff.0 refl refl (length-to_le 4 e.flags)
          (length-to_le 8 e.data_size) (length-to_le 8 f.1) (omega (arith, fe.short_id)) tail inside
          count in
      step
      ∙ ap
          (λ r.
            r
            >>= with_entry e.object_id (from_le (to_le 4 e.flags)) (from_le (to_le 8 e.data_size))
                f.0 (from_le (to_le 8 f.1)))
          later
      ∙ ap₂ (λ fl sz. with_entry e.object_id fl sz f.0 (from_le (to_le 8 f.1)) more)
          (from_le-to_le 4 e.flags (omega (arith, fe.flags_word)))
          (from_le-to_le 8 e.data_size (omega (arith, fe.size_word)))
      ∙ ap (λ ve. with_entry e.object_id e.flags e.data_size f.0 ve more)
          (from_le-to_le 8 f.1 (omega (arith, ff.1)))

  tail_rest :
      drop off pt ≡ entry_bytes
      → off ≤ length pt
      → (drop (off + 37 + length e.object_id) pt ≡ rest)
        × (off + 37 + length e.object_id ≤ length pt)
  tail_rest tail inside =
      let n = length e.object_id in
      let r =
        rest_at f.0 (n % 256 ∷ []) e.object_id (to_le 4 e.flags) (to_le 8 e.data_size) (to_le 8 f.1)
          rest pt off n ff.0 refl refl (length-to_le 4 e.flags) (length-to_le 8 e.data_size)
          (length-to_le 8 f.1) (omega (arith, fe.short_id)) tail inside in
      let l =
        long f.0 (n % 256 ∷ []) e.object_id (to_le 4 e.flags) (to_le 8 e.data_size) (to_le 8 f.1)
          rest pt off n ff.0 refl refl (length-to_le 4 e.flags) (length-to_le 8 e.data_size)
          (length-to_le 8 f.1) (omega (arith, fe.short_id)) tail inside in
      (r, omega (arith, l))

no_file-RefFits : RefFits no_file
no_file-RefFits = (refl, omega arith)

parse_entries-dir_entries :
    (entries : List ObjectMeta) (files : List FileRef) (pt : List ℕ) (off : ℕ)
    → AllMetaFit entries
    → AllRefFit files
    → drop off pt ≡ dir_entries entries files
    → off ≤ length pt
    → parse_entries (length entries) pt off ≡ ok (entries, pad_files entries files)
unfolding parse_entries dir_entries
parse_entries-dir_entries [] files pt off me fi tail inside = refl
parse_entries-dir_entries (e ∷ entries) [] pt off me fi tail inside =
    let r =
      tail_rest e no_file me.0 no_file-RefFits (dir_entries entries []) pt off (length entries) tail
        inside in
    parse_one e no_file me.0 no_file-RefFits (dir_entries entries []) pt off (length entries) tail
      inside (entries, pad_files entries [])
      (parse_entries-dir_entries entries [] pt (off + 37 + length e.object_id) me.1 fi r.0 r.1)
parse_entries-dir_entries (e ∷ entries) (f ∷ files) pt off me fi tail inside =
    let r =
      tail_rest e f me.0 fi.0 (dir_entries entries files) pt off (length entries) tail inside in
    parse_one e f me.0 fi.0 (dir_entries entries files) pt off (length entries) tail inside
      (entries, pad_files entries files)
      (parse_entries-dir_entries entries files pt (off + 37 + length e.object_id) me.1 fi.1 r.0 r.1)

length-pad_files :
    (entries : List ObjectMeta) (files : List FileRef)
    → length (pad_files entries files) ≡ length entries
length-pad_files [] files = refl
length-pad_files (e ∷ entries) [] = ap suc (length-pad_files entries [])
length-pad_files (e ∷ entries) (f ∷ files) = ap suc (length-pad_files entries files)

-- A directory whose fields fit their places is read back from its bytes: the entries, and a file for
-- each of them, the zero id where there were fewer files than entries; surplus files are dropped.
pub parse_dir-dir_bytes :
    (entries : List ObjectMeta) (files : List FileRef)
    → AllMetaFit entries
    → AllRefFit files
    → length entries < 2 ^ 32
    → parse_dir (dir_bytes entries files) ≡ ok (entries, pad_files entries files)
unfolding parse_dir dir_bytes read_u32 bytes_eq
parse_dir-dir_bytes entries files me fi few =
    let pt = dir_bytes entries files in
    let g : leb 20 (length pt) ≡ true = ground arith in
    let c : read_u32 pt 16 ≡ length entries =
      from_le-to_le 4 (length entries) (omega (arith, few)) in
    rw (g, c) (parse_entries-dir_entries entries files pt 20 me fi refl (omega arith))
