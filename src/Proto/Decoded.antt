-- ===== src/Proto/Decoded.antt =====
-- What a message is that `decode_msg` of crates/rustee-proto/src/lib.rs returns.
use rustee.Prelude.{
  ℕ, zero, suc, ◌+◌, ◌-◌, ◌*◌, ◌%◌, ◌^◌, ◌<◌, ◌≤◌, ◌≡◌, refl, ap, ap₂, subst, ◌∙◌, sym, List, [],
  ◌∷◌, ◌++◌, length, take, drop, leb, ◌==◌, arith, replicate, length-append, length-replicate, Res,
  ok, >>=-eq-ok, ensure-eq-ok, leb→le, ==_iff, Bool-cases, inl, inr,
}
use rustee.Bytes.{IsBytes, from_le, read_u32, read_u64}
use rustee.Proto.{
  MsgArgHdr, MsgParam, decode_hdr, decode_param, read_params, decode_msg, write_msg, slice_from,
  byte_size, no_param, ProtoError, bad_align, bad_cmd, bounce_oob, truncated,
}
use rustee.Proto.Messages.{HdrFits, ParamsFit, decode_msg-write_msg, write_msg-frame}
use native.Mathlib.Nat.{pow-suc}

from_le-take : (n : ℕ) (xs : List ℕ) → IsBytes xs → from_le (take n xs) < 256 ^ n
from_le-take zero xs h = omega arith
from_le-take (suc n) [] h = omega (arith, pow-suc 256 n, from_le-take n [] tt)
from_le-take (suc n) (x ∷ xs) h = omega (arith, pow-suc 256 n, h.0, from_le-take n xs h.1)

pub drop-IsBytes : (n : ℕ) (xs : List ℕ) → IsBytes xs → IsBytes (drop n xs)
drop-IsBytes zero xs h = h
drop-IsBytes (suc n) [] h = tt
drop-IsBytes (suc n) (x ∷ xs) h = drop-IsBytes n xs h.1

read_u32-lt : (b : List ℕ) (off : ℕ) → IsBytes b → read_u32 b off < 2 ^ 32
unfolding read_u32
read_u32-lt b off h = omega (arith, from_le-take 4 (drop off b) (drop-IsBytes off b h))

read_u64-lt : (b : List ℕ) (off : ℕ) → IsBytes b → read_u64 b off < 2 ^ 64
unfolding read_u64
read_u64-lt b off h = omega (arith, from_le-take 8 (drop off b) (drop-IsBytes off b h))

ok_inj : {A : Type 0} {a b : A} → ◌≡◌ {A = Res ProtoError A} (ok a) (ok b) → a ≡ b
ok_inj e = cc

decode_hdr-HdrFits : (b : List ℕ) (h : MsgArgHdr) → IsBytes b → decode_hdr b ≡ ok h → HdrFits h
unfolding decode_hdr
decode_hdr-HdrFits b h bytes e =
    let (_, same) = ensure-eq-ok (leb 32 (length b)) truncated _ e in
    subst HdrFits (ok_inj same) (record {
      cmd_fits = read_u32-lt b 0 bytes;
      func_fits = read_u32-lt b 4 bytes;
      session_fits = read_u32-lt b 8 bytes;
      cancel_id_fits = read_u32-lt b 12 bytes;
      pad_fits = read_u32-lt b 16 bytes;
      ret_fits = read_u32-lt b 20 bytes;
      ret_origin_fits = read_u32-lt b 24 bytes;
      num_params_fits = read_u32-lt b 28 bytes;
    })

abbrev Fits : MsgParam → Type 0
Fits p = (p.attr < 2 ^ 64) × (p.a < 2 ^ 64) × (p.b < 2 ^ 64) × (p.c < 2 ^ 64)

decode_param-Fits : (b : List ℕ) (p : MsgParam) → IsBytes b → decode_param b ≡ ok p → Fits p
unfolding decode_param
decode_param-Fits b p bytes e =
    let (_, same) = ensure-eq-ok (leb 32 (length b)) truncated _ e in
    subst Fits (ok_inj same)
      (read_u64-lt b 0 bytes, read_u64-lt b 8 bytes, read_u64-lt b 16 bytes, read_u64-lt b 24 bytes)

slice_from-eq : (b : List ℕ) (s : ℕ) (r : List ℕ) → slice_from b s ≡ ok r → drop s b ≡ r
unfolding slice_from
slice_from-eq b s r e = elim (Bool-cases (leb s (length b))) [
  | inl g ↦ ok_inj (sym (let h : slice_from b s ≡ ok (drop s b) = rw g refl in h) ∙ e)
  | inr g ↦ absurd (ground arith)
]

read_params-ParamsFit :
    (pool : List ℕ) (s n : ℕ) (ps : List MsgParam)
    → read_params pool s n ≡ ok ps
    → (length ps ≡ n) × (IsBytes pool → ParamsFit ps)
unfolding read_params
read_params-ParamsFit pool s zero ps e =
    subst (λ l. (length l ≡ 0) × (IsBytes pool → ParamsFit l)) (ok_inj e) (refl, λ _. tt)
read_params-ParamsFit pool s (suc n) ps e =
    let (b, at, e1) = >>=-eq-ok (slice_from pool s) _ e in
    let (p, one, e2) = >>=-eq-ok (decode_param b) _ e1 in
    let (rest, more, e3) = >>=-eq-ok (read_params pool (s + 32) n) _ e2 in
    let (len, fits) = read_params-ParamsFit pool (s + 32) n rest more in
    let here : IsBytes pool → Fits p = λ bytes.
      decode_param-Fits b p (subst IsBytes (slice_from-eq pool s b at) (drop-IsBytes s pool bytes))
        one in
    subst (λ l. (length l ≡ suc n) × (IsBytes pool → ParamsFit l)) (ok_inj e3)
      (ap suc len, λ bytes. (here bytes, fits bytes))

empty-ParamsFit : (n : ℕ) → ParamsFit (replicate n no_param)
empty-ParamsFit zero = tt
empty-ParamsFit (suc n) = ((omega arith, omega arith, omega arith, omega arith), empty-ParamsFit n)

append-ParamsFit : (xs ys : List MsgParam) → ParamsFit xs → ParamsFit ys → ParamsFit (xs ++ ys)
append-ParamsFit [] ys f g = g
append-ParamsFit (x ∷ xs) ys f g = (f.0, append-ParamsFit xs ys f.1 g)

pub take-ParamsFit : (n : ℕ) (ps : List MsgParam) → ParamsFit ps → ParamsFit (take n ps)
take-ParamsFit zero ps f = tt
take-ParamsFit (suc n) [] f = tt
take-ParamsFit (suc n) (p ∷ ps) f = (f.0, take-ParamsFit n ps f.1)

-- A message that is decoded from a pool that ends well below the end of the address space, at
-- a cookie whose header does not wrap; in a pool of bytes its fields fit their words.
pub record Decoded (pool : List ℕ) (c : ℕ) (h : MsgArgHdr) (ps : List MsgParam) (n : ℕ)
    : Type 0 where
  pub aligned : c % 8 ≡ 0
  pub count : h.num_params ≤ 6
  pub six : length ps ≡ 6
  pub size : n ≡ 32 + 32 * h.num_params
  pub inside : c + n ≤ length pool
  pub hdr_fits : IsBytes pool → HdrFits h
  pub params_fit : IsBytes pool → ParamsFit ps

pub decode_msg-Decoded :
    (pool : List ℕ) (c : ℕ) (h : MsgArgHdr) (ps : List MsgParam) (n : ℕ)
    → length pool + 224 < 2 ^ 64
    → c + 32 < 2 ^ 64
    → decode_msg pool c ≡ ok (h, ps, n)
    → Decoded pool c h ps n
unfolding decode_msg byte_size
decode_msg-Decoded pool c h ps n lim far e =
    let (al, e1) = ensure-eq-ok (c % 8 == 0) bad_align _ e in
    let (g1, e2) = ensure-eq-ok (leb ((c + 32) % 2 ^ 64) (length pool)) bounce_oob _ e1 in
    let (b, at, e3) = >>=-eq-ok (slice_from pool c) _ e2 in
    let (hdr, one, e4) = >>=-eq-ok (decode_hdr b) _ e3 in
    let (g2, e5) = ensure-eq-ok (leb hdr.num_params 6) bad_cmd _ e4 in
    let (g3, e6) =
      ensure-eq-ok (leb ((c + (32 + 32 * hdr.num_params)) % 2 ^ 64) (length pool)) bounce_oob _
        e5 in
    let (params, got, e7) = >>=-eq-ok (read_params pool (c + 32) hdr.num_params) _ e6 in
    let (len, fits) = read_params-ParamsFit pool (c + 32) hdr.num_params params got in
    let empties = replicate (6 - hdr.num_params) no_param in
    let hf : IsBytes pool → HdrFits hdr = λ bytes.
      decode_hdr-HdrFits b hdr
        (subst IsBytes (slice_from-eq pool c b at) (drop-IsBytes c pool bytes)) one in
    let six6 = leb→le hdr.num_params 6 g2 in
    let near : c + 32 ≤ length pool = omega (arith, leb→le ((c + 32) % 2 ^ 64) (length pool) g1) in
    subst (λ r. Decoded pool c r.0 r.1 r.2) (ok_inj e7)
      (record {
        aligned = (==_iff (c % 8) 0).0 al;
        count = six6;
        six = omega (
          arith,
          length-append params empties,
          len,
          six6,
          length-replicate (6 - hdr.num_params) no_param,
        );
        size = refl;
        inside = omega (
          arith,
          near,
          six6,
          leb→le ((c + (32 + 32 * hdr.num_params)) % 2 ^ 64) (length pool) g3,
        );
        hdr_fits = hf;
        params_fit = λ bytes.
            append-ParamsFit params empties (fits bytes) (empty-ParamsFit (6 - hdr.num_params));
      })

-- Over a decoded message another one of as many parameters can be written, and is decoded.
pub decode_msg-rewrite :
    (pool : List ℕ) (c : ℕ) (h : MsgArgHdr) (ps : List MsgParam) (n : ℕ) (h' : MsgArgHdr)
    (ps' : List MsgParam)
    → length pool + 224 < 2 ^ 64
    → Decoded pool c h ps n
    → h'.num_params ≡ h.num_params
    → length ps' ≡ h.num_params
    → HdrFits h'
    → ParamsFit ps'
    → (pool' : List ℕ) × (write_msg pool c h' ps' ≡ ok (n, pool'))
      × (length pool' ≡ length pool)
      × (decode_msg pool' c ≡ ok (h', ps' ++ replicate (6 - h.num_params) no_param, n))
unfolding byte_size
decode_msg-rewrite pool c h ps n h' ps' lim d same count hf pf =
    let (w, wrote, again) =
      >>=-eq-ok (write_msg pool c h' ps') (λ w. decode_msg w.1 c)
        (decode_msg-write_msg pool c h' ps' d.aligned (omega (arith, same, count))
          (omega (arith, d.inside, d.size, same)) hf pf (omega (arith, count, d.count))
          (omega (arith, lim))) in
    let keeps = write_msg-frame pool c h' ps' w.0 w.1 (omega (arith, lim)) wrote in
    let size : w.0 ≡ n = omega (arith, keeps.2, d.size, count) in
    (
      w.1,
      wrote ∙ ap (λ j. ok (j, w.1)) size,
      keeps.4,
      again
          ∙ ap₂ (λ j m. ok (h', ps' ++ replicate (6 - j) no_param, m)) count
              (omega (arith, d.size, same)),
    )
