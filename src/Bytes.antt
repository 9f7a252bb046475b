-- ===== src/Bytes.antt =====
-- Byte strings: little-endian words, and the slices that the parsers take. A byte is a number below
-- 256, and a slice `b[i..j]` under a length check is `take (j - i) (drop i b)`.
use rustee.Prelude.{
  ℕ, zero, suc, ◌+◌, ◌-◌, ◌*◌, ◌/◌, ◌%◌, ◌^◌, ◌<◌, ◌≡◌, refl, List, [], ◌∷◌, ◌++◌, Option, none,
  some, Bool, true, false, take, drop, length, leb, ◌&&◌, if◌then◌else◌, ◌==◌,
}
pub mod Laws
pub mod Writes

-- `to_le_bytes` of an unsigned word of `n` bytes.
abbrev pub to_le : ℕ → ℕ → List ℕ
to_le zero v = []
to_le (suc n) v = v % 256 ∷ to_le n (v / 256)

-- `from_le_bytes`
abbrev pub from_le : List ℕ → ℕ
from_le [] = 0
from_le (b ∷ bs) = b + 256 * from_le bs

-- `from_be_bytes`, behind the bytes that make up `high`.
abbrev pub from_be : ℕ → List ℕ → ℕ
from_be high [] = high
from_be high (b ∷ bs) = from_be (high * 256 + b) bs

-- `b[off..off + n]`
abbrev pub bytes_at : List ℕ → ℕ → ℕ → List ℕ
bytes_at b off n = take n (drop off b)

unfoldable pub read_u16 : List ℕ → ℕ → ℕ
read_u16 b off = from_le (bytes_at b off 2)

unfoldable pub read_u32 : List ℕ → ℕ → ℕ
read_u32 b off = from_le (bytes_at b off 4)

unfoldable pub read_u64 : List ℕ → ℕ → ℕ
read_u64 b off = from_le (bytes_at b off 8)

-- `b[off]`
unfoldable pub byte_at : List ℕ → ℕ → ℕ
byte_at b off = from_le (bytes_at b off 1)

-- `out[off..off + v.len()].copy_from_slice(v)`
abbrev pub write_at : List ℕ → ℕ → List ℕ → List ℕ
write_at out off v = take off out ++ (v ++ drop (off + length v) out)

-- `b.get(from..to)`
abbrev pub get_range : List ℕ → ℕ → ℕ → Option (List ℕ)
get_range b from to =
    if leb from to && leb to (length b) then some (bytes_at b from (to - from)) else none

-- Every element is a byte.
abbrev pub IsBytes : List ℕ → Type 0
IsBytes [] = Unit
IsBytes (b ∷ bs) = (b < 256) × IsBytes bs

-- The bytes before the first NUL; none if there is no NUL.
unfoldable pub until_nul : List ℕ → Option (List ℕ)
until_nul [] = none
until_nul (b ∷ bs) =
    if b == 0 then some [] else elim (until_nul bs) [ none ↦ none | some s ↦ some (b ∷ s) ]

-- `section_name` and `str_name`: the NUL-terminated string at an offset of a string table.
unfoldable pub c_str : List ℕ → ℕ → Option (List ℕ)
unfolding until_nul
c_str tab off = if leb off (length tab) then until_nul (drop off tab) else none
