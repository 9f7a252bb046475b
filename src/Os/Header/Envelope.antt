-- ===== src/Os/Header/Envelope.antt =====
-- The signed envelope: where the parts of an accepted image lie.
use rustee.Prelude.{ℕ, ◌+◌, ◌≤◌, ◌≡◌, ◌∙◌, ap, List, ◌++◌, arith, length, drop, ok}
use rustee.Bytes.{bytes_at, read_u16, read_u32}
use rustee.Bytes.Laws.{bytes_at-split, length-bytes_at}
use rustee.Os.Header.{SignedImage, parse_rtsg, rtsg_magic}

parse_rtsg_fields :
    (b : List ℕ) (img : SignedImage)
    → parse_rtsg b ≡ ok img
    → (read_u32 b 0 ≡ rtsg_magic)
      × (36 + read_u16 b 32 + read_u16 b 34 + read_u32 b 28 ≤ length b)
      × (img.hash ≡ bytes_at b 36 (read_u16 b 32))
      × (img.sig ≡ bytes_at b (36 + read_u16 b 32) (read_u16 b 34))
      × (img.elf ≡ bytes_at b (36 + read_u16 b 32 + read_u16 b 34) (read_u32 b 28))
unfolding parse_rtsg
parse_rtsg_fields b img h = ground arith

-- An accepted envelope has the magic number, and behind its thirty-six bytes of header lie the hash,
-- the signature and the image, each of the size that the header gives, in this order and with no gap.
pub parse_rtsg_partition :
    (b : List ℕ) (img : SignedImage)
    → parse_rtsg b ≡ ok img
    → (read_u32 b 0 ≡ rtsg_magic)
      × (length img.hash ≡ read_u16 b 32)
      × (length img.sig ≡ read_u16 b 34)
      × (length img.elf ≡ read_u32 b 28)
      × ((rest : List ℕ) × (drop 36 b ≡ img.hash ++ (img.sig ++ (img.elf ++ rest))))
parse_rtsg_partition b img h =
    let f = parse_rtsg_fields b img h in
    (
      f.0,
      rw f.2 (length-bytes_at b 36 (read_u16 b 32) (omega (arith, f.1))),
      rw f.3 (length-bytes_at b (36 + read_u16 b 32) (read_u16 b 34) (omega (arith, f.1))),
      rw f.4 (
          length-bytes_at b (36 + read_u16 b 32 + read_u16 b 34) (read_u32 b 28)
            (omega (arith, f.1))),
      (
        drop (36 + read_u16 b 32 + read_u16 b 34 + read_u32 b 28) b,
        rw (f.2, f.3, f.4)
            (bytes_at-split b 36 (read_u16 b 32)
              ∙ ap (λ l. bytes_at b 36 (read_u16 b 32) ++ l)
                  (bytes_at-split b (36 + read_u16 b 32) (read_u16 b 34)
                    ∙ ap (λ l. bytes_at b (36 + read_u16 b 32) (read_u16 b 34) ++ l)
                        (bytes_at-split b (36 + read_u16 b 32 + read_u16 b 34) (read_u32 b 28)))),
      ),
    )
