-- ===== src/Storage/Rpc/Files.antt =====
-- The loops of `RpcFs` (crates/rustee-storage/src/rpc.rs) against the contents of the open file.
use rustee.Prelude.{
  ℕ, zero, suc, ◌+◌, ◌-◌, ◌*◌, ◌/◌, ◌%◌, ◌^◌, ◌<◌, ◌≤◌, ◌≡◌, refl, ap, ap₂, ◌∙◌, sym, min, List, [],
  Option, some, ◌∷◌, ◌++◌, arith, length, take, drop, replicate, ltb, ok, lt→ltb, le→ltb,
  length-append, length-take, length-drop, length-replicate, append_assoc, Bool-cases, inl, inr,
  ltb→lt, ltb→le, take-append,
}
use rustee.Bytes.{bytes_at, write_at}
use rustee.Bytes.Laws.{take-append-drop, take-exact, drop-skip}
use rustee.Storage.Rpc.{FsClient, chunk, op_read, op_write, op_truncate, put_loop, put, read_loop}

-- What a client's calls do at an open descriptor, with `contents` the bytes of the file that is open at a
-- descriptor, if one is: a write of a chunk or less behind no gap replaces and extends, a truncation
-- cuts, and a read under a hint of a chunk or less, but not of nothing, gives what there is up to the
-- hint's length.
pub record IsFiles {C : Type 0} (client : FsClient C) (contents : C → ℕ → Option (List ℕ))
    : Type 0 where
  pub writes :
      (c : C) (fd off : ℕ) (bytes old : List ℕ)
      → contents c fd ≡ some old
      → off ≤ length old
      → length bytes ≤ chunk
      → (c' : C) × (client.rpc_fs c op_write [] fd off bytes ≡ (ok (length bytes, []), c'))
        × (contents c' fd ≡ some (write_at old off bytes))
  pub truncates :
      (c : C) (fd size : ℕ) (old : List ℕ)
      → contents c fd ≡ some old
      → size ≤ length old
      → (c' : C) × (client.rpc_fs c op_truncate [] fd size [] ≡ (ok (0, []), c'))
        × (contents c' fd ≡ some (take size old))
  pub reads :
      (c : C) (fd off : ℕ) (hint old : List ℕ)
      → contents c fd ≡ some old
      → 0 < length hint
      → length hint ≤ chunk
      → let found = bytes_at old off (length hint) in
        (c' : C) × (client.rpc_fs c op_read [] fd off hint ≡ (ok (length found, found), c'))
        × (contents c' fd ≡ some old)

take_nil : (n : ℕ) → take {A = ℕ} n [] ≡ []
take_nil zero = refl
take_nil (suc n) = refl

take_join : (m n : ℕ) (xs : List ℕ) → take m xs ++ take n (drop m xs) ≡ take (m + n) xs
take_join zero n xs = ap (λ k. take k xs) (omega arith)
take_join (suc m) n [] = take_nil n ∙ sym (take_nil (suc m + n))
take_join (suc m) n (x ∷ xs) =
    ap (λ l. x ∷ l) (take_join m n xs)
    ∙ ap (λ k. take k (x ∷ xs)) (let e : suc (m + n) ≡ suc m + n = omega arith in e)

pub take_whole : (xs : List ℕ) → take (length xs) xs ≡ xs
take_whole [] = refl
take_whole (x ∷ xs) = ap (λ l. x ∷ l) (take_whole xs)

pub short_take : (n : ℕ) (xs : List ℕ) → length xs < n → take n xs ≡ xs
short_take zero xs h = absurd (omega (arith, h))
short_take (suc n) [] h = refl
short_take (suc n) (x ∷ xs) h = ap (λ l. x ∷ l) (short_take n xs (omega (arith, h)))

module _ {C : Type 0} (client : FsClient C) (contents : C → ℕ → Option (List ℕ))
    (files : IsFiles client contents) where
  reply_at :
      (c : C) (fd : ℕ) (whole out rest : List ℕ)
      → contents c fd ≡ some whole
      → whole ≡ out ++ rest
      → length whole < 2 ^ 32
      → (c' : C) × (client.rpc_fs c op_read [] fd (length out % 2 ^ 32) (replicate chunk 0)
          ≡ (ok (length (take chunk rest), take chunk rest), c'))
        × (contents c' fd ≡ some whole)
  reply_at c fd whole out rest at split word =
      let size : length whole ≡ length out + length rest =
        ap length split ∙ length-append out rest in
      let off : length out % 2 ^ 32 ≡ length out = omega (arith, size, word) in
      let hint = length-replicate {A = ℕ} chunk 0 in
      let found : bytes_at whole (length out % 2 ^ 32) (length {A = ℕ} (replicate chunk 0))
          ≡ take chunk rest =
        ap₂ take hint (ap₂ drop off split ∙ drop-skip out rest (length out) 0 (omega arith)) in
      let (c', reply, same) =
        files.reads c fd (length out % 2 ^ 32) (replicate chunk 0) whole at (omega (arith, hint))
          (omega (arith, hint)) in
      (c', reply ∙ ap (λ x. (ok (length x, x), c')) found, same)

  pub read_loop-rest :
      (steps : ℕ) (c : C) (fd : ℕ) (whole out rest : List ℕ)
      → contents c fd ≡ some whole
      → whole ≡ out ++ rest
      → length whole < 2 ^ 32
      → length rest < steps * chunk
      → (c' : C) × (read_loop client steps c fd out ≡ (ok whole, c'))
        × (contents c' fd ≡ some whole)
  unfolding read_loop
  read_loop-rest zero c fd whole out rest at split word enough = absurd (omega (arith, enough))
  read_loop-rest (suc steps) c fd whole out rest at split word enough =
      let (c', reply, same) = reply_at c fd whole out rest at split word in
      let n = length-take chunk rest in
      elim (Bool-cases (ltb (length (take chunk rest)) chunk)) [
        | inl short ↦
            let few = ltb→lt _ _ short in
            let all : out ++ take chunk rest ≡ whole =
              ap (λ l. out ++ l) (short_take chunk rest (omega (arith, n, few))) ∙ sym split in
            (c', rw (reply, short, read_loop) (ap (λ x. (ok x, c')) all), same)
        | inr full ↦
            let behind : whole ≡ (out ++ take chunk rest) ++ drop chunk rest =
              split
              ∙ ap (λ l. out ++ l) (sym (take-append-drop chunk rest))
              ∙ sym (append_assoc out (take chunk rest) (drop chunk rest)) in
            let (c'', tail, still) =
              read_loop-rest steps c' fd whole (out ++ take chunk rest) (drop chunk rest) same
                behind word (omega (arith, length-drop chunk rest, enough, n, ltb→le _ _ full)) in
            (c'', rw (reply, full, read_loop) tail, still)
      ]

  -- One step of the writing loop, and the last one.
  put_loop-chunk :
      (steps : ℕ) (c : C) (fd off : ℕ) (bytes old : List ℕ)
      → contents c fd ≡ some (take off bytes ++ old)
      → off < length bytes
      → length bytes < 2 ^ 32
      → (c' : C) × (behind : List ℕ) × (put_loop client (suc steps) c fd bytes off
          ≡ put_loop client steps c' fd bytes (min (off + chunk) (length bytes)))
        × (contents c' fd ≡ some (take (min (off + chunk) (length bytes)) bytes ++ behind))
  unfolding put_loop
  put_loop-chunk steps c fd off bytes old at more word =
      let whole = take off bytes ++ old in
      let end = min (off + chunk) (length bytes) in
      let piece = bytes_at bytes off (end - off) in
      let front : length (take off bytes) ≡ off = omega (arith, length-take off bytes, more) in
      let size : length whole ≡ off + length old =
        omega (arith, length-append (take off bytes) old, front) in
      let (c', wrote, now) =
        files.writes c fd off piece whole at (omega (arith, size))
          (omega (arith, length-take (end - off) (drop off bytes))) in
      let g = lt→ltb off (length bytes) more in
      let wrap : end % 2 ^ 32 ≡ end = omega (arith, word) in
      let behind = drop (off + length piece) whole in
      (
        c',
        behind,
        rw (g, wrote, wrap, put_loop) refl,
        now
            ∙ ap some (
                ap (λ l. l ++ (piece ++ behind)) (take-exact (take off bytes) old off (sym front))
                ∙ sym (append_assoc (take off bytes) piece behind)
                ∙ ap (λ l. l ++ behind)
                    (take_join off (end - off) bytes
                      ∙ ap (λ k. take k bytes)
                          (let e : off + (end - off) ≡ end = omega (arith, more) in e))),
      )

  put_loop-last :
      (steps : ℕ) (c : C) (fd : ℕ) (bytes old : List ℕ)
      → contents c fd ≡ some (bytes ++ old)
      → length bytes < 2 ^ 32
      → (c' : C) × (put_loop client (suc steps) c fd bytes (length bytes) ≡ (ok tt, c'))
        × (contents c' fd ≡ some bytes)
  unfolding put_loop
  put_loop-last steps c fd bytes old at word =
      let n = length bytes in
      let (c', cut, now) =
        files.truncates c fd n (bytes ++ old) at (omega (arith, length-append bytes old)) in
      let wrap : n % 2 ^ 32 ≡ n = omega (arith, word) in
      (
        c',
        rw (le→ltb n n (omega arith), wrap, cut, put_loop) refl,
        now ∙ ap some (take-append bytes old),
      )

  put_loop-end :
      (steps : ℕ) (c : C) (fd off : ℕ) (bytes old : List ℕ)
      → contents c fd ≡ some (take off bytes ++ old)
      → off ≡ length bytes
      → length bytes < 2 ^ 32
      → (c' : C) × (put_loop client (suc steps) c fd bytes off ≡ (ok tt, c'))
        × (contents c' fd ≡ some bytes)
  put_loop-end steps c fd off bytes old at here word =
      let whole : take off bytes ≡ bytes = ap (λ k. take k bytes) here ∙ take_whole bytes in
      let (c', end, now) =
        put_loop-last steps c fd bytes old (at ∙ ap (λ l. some (l ++ old)) whole) word in
      (c', ap (put_loop client (suc steps) c fd bytes) here ∙ end, now)

  -- The bytes are written chunk by chunk: behind the chunks in front of `off`, the loop writes the rest.
  put_loop-rest :
      (steps : ℕ) (c : C) (fd off : ℕ) (bytes old : List ℕ)
      → contents c fd ≡ some (take off bytes ++ old)
      → off ≤ length bytes
      → length bytes < 2 ^ 32
      → length bytes ≤ off + steps * chunk
      → (c' : C) × (put_loop client (suc steps) c fd bytes off ≡ (ok tt, c'))
        × (contents c' fd ≡ some bytes)
  put_loop-rest zero c fd off bytes old at inside word enough =
      put_loop-end zero c fd off bytes old at (omega (arith, inside, enough)) word
  put_loop-rest (suc steps) c fd off bytes old at inside word enough =
      elim (Bool-cases (ltb off (length bytes))) [
        | inl more ↦
            let lt = ltb→lt _ _ more in
            let (c', behind, step, now) =
              put_loop-chunk (suc steps) c fd off bytes old at lt word in
            let (c'', rest, last) =
              put_loop-rest steps c' fd (min (off + chunk) (length bytes)) bytes behind now
                (omega arith) word (omega (arith, lt, enough)) in
            (c'', step ∙ rest, last)
        | inr over ↦
            put_loop-end (suc steps) c fd off bytes old at (omega (arith, inside, ltb→le _ _ over))
              word
      ]

-- On files below 4 GiB, over a client whose calls act at open descriptors on the contents of their
-- files, at an open descriptor: `put` ends, and leaves the bytes as the contents of its file, whatever
-- these were; reading, with a step for each whole chunk and one more, then ends, gives them back and
-- leaves them.
pub put-read :
    {C : Type 0} (client : FsClient C) (contents : C → ℕ → Option (List ℕ)) (c : C) (fd : ℕ)
    (bytes old : List ℕ) (steps : ℕ)
    → IsFiles client contents
    → contents c fd ≡ some old
    → length bytes < 2 ^ 32
    → length bytes / chunk < steps
    → (c' : C) × (c'' : C) × (put client c fd bytes ≡ (ok tt, c'))
      × (contents c' fd ≡ some bytes)
      × (read_loop client steps c' fd [] ≡ (ok bytes, c''))
      × (contents c'' fd ≡ some bytes)
unfolding put
put-read client contents c fd bytes old steps files at word enough =
    let (c', written, now) =
      put_loop-rest client contents files (length bytes / chunk + 1) c fd 0 bytes old at
        (omega arith) word (omega arith) in
    let (c'', given, same) =
      read_loop-rest client contents files steps c' fd bytes [] bytes now refl word
        (omega (arith, enough)) in
    (
      c',
      c'',
      ap (λ k. put_loop client k c fd bytes 0)
            (let e : length bytes / chunk + 2 ≡ suc (length bytes / chunk + 1) = omega arith in e)
          ∙ written,
      now,
      given,
      same,
    )
