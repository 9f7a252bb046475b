-- ===== src/Storage/Handle.antt =====
-- The handle of an open object (`ObjectHandle` of crates/rustee-storage/src/lib.rs), and what reads,
-- writes and truncations do with its data. `usize` has 64 bits.
pub mod Laws
use rustee.Prelude.{
  ℕ, zero, suc, ◌+◌, ◌-◌, ◌*◌, ◌%◌, ◌^◌, min, List, [], ◌∷◌, ◌++◌, length, take, drop, replicate,
  ltb, if◌then◌else◌, Res, ok, err, panic,
}
use rustee.Bytes.{bytes_at, write_at}
use rustee.Storage.Env.{StorageError, too_big}

abbrev pub max_object : ℕ
max_object = 1024 * 1024

pub record ObjectHandle : Type 0 where
  pub ta : List ℕ
  pub file_id : List ℕ
  pub object_id : List ℕ
  pub flags : ℕ
  pub contents : List ℕ
  pub obj_version : ℕ

-- `Vec::resize(n, 0)`
abbrev pub resize : List ℕ → ℕ → List ℕ
resize bytes n = take n bytes ++ replicate (n - length bytes) 0

-- The number of bytes, and the buffer.
unfoldable pub read : ObjectHandle → ℕ → List ℕ → ℕ × List ℕ
read h off buf =
    if ltb (length h.contents) off
    then (0, buf)
    else let n = min (length buf) (length h.contents - off) in
      (n, write_at buf 0 (bytes_at h.contents off n))

-- `obj_version.wrapping_add(1)`
abbrev pub with_contents : ObjectHandle → List ℕ → ObjectHandle
with_contents h bytes = record {
  ta = h.ta;
  file_id = h.file_id;
  object_id = h.object_id;
  flags = h.flags;
  contents = bytes;
  obj_version = (h.obj_version + 1) % 2 ^ 64;
}

-- What `write` and `truncate` make of the handle; behind an end that wraps the slice panics.
unfoldable pub write_handle : ObjectHandle → ℕ → List ℕ → Res StorageError ObjectHandle
write_handle h off buf =
    let end = (off + length buf) % 2 ^ 64 in
    if ltb max_object end
    then err too_big
    else if ltb end off
    then panic
    else let grown = if ltb (length h.contents) end then resize h.contents end else h.contents in
      ok (with_contents h (write_at grown off buf))

unfoldable pub truncate_handle : ObjectHandle → ℕ → Res StorageError ObjectHandle
truncate_handle h size =
    if ltb max_object size then err too_big else ok (with_contents h (resize h.contents size))
