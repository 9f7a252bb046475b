-- ===== src/Os/Elf.antt =====
-- crates/rustee-os/src/elf.rs: the loadable segments and the entry symbols of an ELF image, and the
-- mapping of a TA. `usize` has 64 bits and wraps, as in a release build; the target is aarch64, where
-- the symbols are bound to entry points.
use rustee.Prelude.{
  ℕ, zero, suc, ◌+◌, ◌-◌, ◌*◌, ◌/◌, ◌%◌, ◌^◌, List, [], ◌∷◌, Option, none, some, Bool, not, length,
  ltb, leb, ◌==◌, ◌&&◌, ◌||◌, if◌then◌else◌, bytes_eq, min, max, replicate, Res, ok, err, panic,
  ◌>>=◌, ◌>>◌, ensure, ok_or,
}
use rustee.Bytes.{bytes_at, read_u16, read_u64, get_range, c_str, write_at}
use rustee.Os.Abi.{tee_error_bad_parameters}
use rustee.Os.Header.{TaProperties, parse_ta_head, find_ta_head, wrap, word_at, elf_magic}

pub record LoadSeg : Type 0 where
  pub va : ℕ
  pub file_off : ℕ
  pub file_size : ℕ
  pub mem_size : ℕ
  pub exec : Bool

-- The addresses of the five entry points: `TaSymbols`, and `TaEntryPoints` once bound.
pub record TaEntryPoints : Type 0 where
  pub create : ℕ
  pub destroy : ℕ
  pub open_session : ℕ
  pub close_session : ℕ
  pub invoke : ℕ

pub record ElfImage : Type 0 where
  pub props : TaProperties
  pub segs : List LoadSeg
  pub symbols : Option TaEntryPoints

-- `for i in 0..phnum`, from program header `i` on with `count` of them left.
unfoldable pub load_segs : List ℕ → ℕ → ℕ → ℕ → ℕ → Res ℕ (List LoadSeg)
unfolding word_at
load_segs b phoff phentsize i zero = ok []
load_segs b phoff phentsize i (suc count) =
    let o = wrap (phoff + wrap (i * phentsize)) in
    let rest = load_segs b phoff phentsize (i + 1) count in
    do
      ensure (leb (wrap (o + 56)) (length b)) tee_error_bad_parameters
      p_type ← word_at b o 4
      if not (p_type == 1) then rest else do
        flags ← word_at b (wrap (o + 4)) 4
        off ← word_at b (wrap (o + 8)) 8
        va ← word_at b (wrap (o + 16)) 8
        filesz ← word_at b (wrap (o + 32)) 8
        memsz ← word_at b (wrap (o + 40)) 8
        segs ← rest
        ok (
            record {
              va = va;
              file_off = off;
              file_size = filesz;
              mem_size = memsz;
              exec = flags % 2 == 1;
            }
            ∷ segs)

unfoldable pub pt_load : List ℕ → Res ℕ (List LoadSeg)
unfolding load_segs
pt_load b = load_segs b (read_u64 b 32) (read_u16 b 54) 0 (read_u16 b 56)

-- `TA_CreateEntryPoint`
abbrev pub ta_create : List ℕ
ta_create =
    b'T' ∷ b'A' ∷ b'_' ∷ b'C' ∷ b'r' ∷ b'e' ∷ b'a' ∷ b't' ∷ b'e' ∷ b'E' ∷ b'n' ∷ b't' ∷ b'r' ∷ b'y'
    ∷ b'P' ∷ b'o' ∷ b'i' ∷ b'n' ∷ b't' ∷ []

-- `TA_DestroyEntryPoint`
abbrev pub ta_destroy : List ℕ
ta_destroy =
    b'T' ∷ b'A' ∷ b'_' ∷ b'D' ∷ b'e' ∷ b's' ∷ b't' ∷ b'r' ∷ b'o' ∷ b'y' ∷ b'E' ∷ b'n' ∷ b't' ∷ b'r'
    ∷ b'y' ∷ b'P' ∷ b'o' ∷ b'i' ∷ b'n' ∷ b't' ∷ []

-- `TA_OpenSessionEntryPoint`
abbrev pub ta_open : List ℕ
ta_open =
    b'T' ∷ b'A' ∷ b'_' ∷ b'O' ∷ b'p' ∷ b'e' ∷ b'n' ∷ b'S' ∷ b'e' ∷ b's' ∷ b's' ∷ b'i' ∷ b'o' ∷ b'n'
    ∷ b'E' ∷ b'n' ∷ b't' ∷ b'r' ∷ b'y' ∷ b'P' ∷ b'o' ∷ b'i' ∷ b'n' ∷ b't' ∷ []

-- `TA_CloseSessionEntryPoint`
abbrev pub ta_close : List ℕ
ta_close =
    b'T' ∷ b'A' ∷ b'_' ∷ b'C' ∷ b'l' ∷ b'o' ∷ b's' ∷ b'e' ∷ b'S' ∷ b'e' ∷ b's' ∷ b's' ∷ b'i' ∷ b'o'
    ∷ b'n' ∷ b'E' ∷ b'n' ∷ b't' ∷ b'r' ∷ b'y' ∷ b'P' ∷ b'o' ∷ b'i' ∷ b'n' ∷ b't' ∷ []

-- `TA_InvokeCommandEntryPoint`
abbrev pub ta_invoke : List ℕ
ta_invoke =
    b'T' ∷ b'A' ∷ b'_' ∷ b'I' ∷ b'n' ∷ b'v' ∷ b'o' ∷ b'k' ∷ b'e' ∷ b'C' ∷ b'o' ∷ b'm' ∷ b'm' ∷ b'a'
    ∷ b'n' ∷ b'd' ∷ b'E' ∷ b'n' ∷ b't' ∷ b'r' ∷ b'y' ∷ b'P' ∷ b'o' ∷ b'i' ∷ b'n' ∷ b't' ∷ []

-- The slots of `names`, all zero at first.
abbrev no_symbols : TaEntryPoints
no_symbols = record { create = 0; destroy = 0; open_session = 0; close_session = 0; invoke = 0 }

-- A symbol of a wanted name overwrites its slot.
pub note_symbol : TaEntryPoints → List ℕ → ℕ → TaEntryPoints
note_symbol n name v = record {
  create = if bytes_eq name ta_create then v else n.create;
  destroy = if bytes_eq name ta_destroy then v else n.destroy;
  open_session = if bytes_eq name ta_open then v else n.open_session;
  close_session = if bytes_eq name ta_close then v else n.close_session;
  invoke = if bytes_eq name ta_invoke then v else n.invoke;
}

-- `for s in 0..n` over one symbol table, from symbol `s` on; it ends early behind the file's end.
pub scan_symbols : List ℕ → List ℕ → ℕ → ℕ → ℕ → ℕ → TaEntryPoints → Res ℕ TaEntryPoints
unfolding word_at c_str note_symbol
scan_symbols b strtab sym_off ent s zero names = ok names
scan_symbols b strtab sym_off ent s (suc count) names =
    let so = wrap (sym_off + wrap (s * ent)) in
    let rest = λ (ns : TaEntryPoints). scan_symbols b strtab sym_off ent (s + 1) count ns in
    if ltb (length b) (wrap (so + 24)) then ok names else do
      name_off ← word_at b so 4
      value ← word_at b (wrap (so + 8)) 8
      elim (c_str strtab name_off) [
        | none ↦ rest (note_symbol names [] value)
        | some name ↦ rest (note_symbol names name value)
      ]

-- `for i in 0..shnum` over the sections, from section `i` on.
pub scan_sections : List ℕ → ℕ → ℕ → ℕ → ℕ → TaEntryPoints → Res ℕ TaEntryPoints
unfolding word_at scan_symbols
scan_sections b shoff shentsize i zero names = ok names
scan_sections b shoff shentsize i (suc count) names =
    let o = wrap (shoff + wrap (i * shentsize)) in
    let rest = λ (ns : TaEntryPoints). scan_sections b shoff shentsize (i + 1) count ns in
    do
      ensure (leb (wrap (o + 64)) (length b)) tee_error_bad_parameters
      sh_type ← word_at b (wrap (o + 4)) 4
      if not (sh_type == 2) && not (sh_type == 11) then rest names else do
        sh_link ← word_at b (wrap (o + 40)) 4
        sym_off ← word_at b (wrap (o + 24)) 8
        sym_size ← word_at b (wrap (o + 32)) 8
        ent ← word_at b (wrap (o + 56)) 8
        let str_hdr = wrap (shoff + wrap (sh_link * shentsize))
        if ent == 0 || ltb (length b) (wrap (str_hdr + 40)) then rest names else do
          str_off ← word_at b (wrap (str_hdr + 24)) 8
          str_size ← word_at b (wrap (str_hdr + 32)) 8
          strtab ← ok_or (get_range b str_off (wrap (str_off + str_size))) tee_error_bad_parameters
          names' ← scan_symbols b strtab sym_off ent 0 (sym_size / ent) names
          rest names'

unfoldable pub ta_symbols : List ℕ → Res ℕ TaEntryPoints
unfolding scan_sections
ta_symbols b = do
  n ← scan_sections b (read_u64 b 40) (read_u16 b 58) 0 (read_u16 b 60) no_symbols
  ensure
      (not (
        n.create == 0
        || (n.destroy == 0 || (n.open_session == 0 || (n.close_session == 0 || n.invoke == 0)))))
      tee_error_bad_parameters
  ok n

-- `ta_symbols(bytes).ok()`: an error is no symbols, a panic stays a panic.
abbrev pub ok_of : Res ℕ TaEntryPoints → Res ℕ (Option TaEntryPoints)
ok_of (ok s) = ok (some s)
ok_of (err e) = ok none
ok_of panic = panic

unfoldable pub parse_elf : List ℕ → Res ℕ ElfImage
parse_elf b = do
  head ← find_ta_head b
  props ← parse_ta_head head
  if ltb (length b) 64 || not (bytes_eq (bytes_at b 0 4) elf_magic)
      then ok (record { props = props; segs = []; symbols = none })
      else do
        segs ← pt_load b
        symbols ← ok_of (ta_symbols b)
        ok (record { props = props; segs = segs; symbols = symbols })

abbrev pub max_ta_span : ℕ
max_ta_span = 16 * 1024 * 1024

-- Saturating addition on 64 bits.
abbrev pub sat_add : ℕ → ℕ → ℕ
sat_add a b = min (a + b) (2 ^ 64 - 1)

pub min_va : LoadSeg → List LoadSeg → ℕ
min_va s [] = s.va
min_va s (t ∷ ts) = min s.va (min_va t ts)

abbrev seg_end : LoadSeg → ℕ
seg_end s = sat_add s.va (max s.mem_size s.file_size)

pub max_end : LoadSeg → List LoadSeg → ℕ
max_end s [] = seg_end s
max_end s (t ∷ ts) = max (seg_end s) (max_end t ts)

-- The loop that copies the segments' file bytes into the zeroed blob.
pub fill_blob : List ℕ → ℕ → List LoadSeg → List ℕ → Res ℕ (List ℕ)
fill_blob b base [] blob = ok blob
fill_blob b base (s ∷ ss) blob =
    let off = s.va - base in
    let n = min s.file_size s.mem_size in
    let rest = λ (src : List ℕ). fill_blob b base ss (write_at blob off src) in
    do
      src ← ok_or (get_range b s.file_off (sat_add s.file_off n)) tee_error_bad_parameters
      ensure (ltb (off + n) (2 ^ 64)) tee_error_bad_parameters
      ensure (leb (off + n) (length blob)) tee_error_bad_parameters
      rest src

-- The address and the bytes that `map_elf` hands to `map_image`.
unfoldable pub ta_blob : List ℕ → LoadSeg → List LoadSeg → Res ℕ (ℕ × List ℕ)
unfolding min_va max_end fill_blob
ta_blob b s ss =
    let base = min_va s ss in
    let last = max_end s ss in
    let span = last - base in
    do
      ensure (leb base last) tee_error_bad_parameters
      ensure (not (span == 0 || ltb max_ta_span span)) tee_error_bad_parameters
      blob ← fill_blob b base (s ∷ ss) (replicate span 0)
      ok (base, blob)

-- Each entry point moved by the load slide; no symbols, no entry points.
unfoldable pub bind_symbols : Option TaEntryPoints → ℕ → Option TaEntryPoints
bind_symbols none slide = none
bind_symbols (some s) slide = some (record {
  create = wrap (s.create + slide);
  destroy = wrap (s.destroy + slide);
  open_session = wrap (s.open_session + slide);
  close_session = wrap (s.close_session + slide);
  invoke = wrap (s.invoke + slide);
})
