-- ===== src/Supplicant.antt =====
-- host/rustee-supplicant/src/lib.rs: the process of the host that answers the kernel's requests for
-- the time, for the image of a TA and for files. The operating system below it is the record `Host`.
use rustee.Prelude.{
  ℕ, zero, suc, ◌+◌, ◌-◌, ◌*◌, ◌/◌, ◌%◌, ◌^◌, List, [], ◌∷◌, ◌++◌, Option, none, some, Bool, true,
  false, not, length, take, drop, get_or, set, replicate, ltb, leb, ◌==◌, ◌&&◌, ◌||◌, max,
  if◌then◌else◌, Res, ok, err, panic, ensure, Step, ◌>>>◌, pure_step,
}
use rustee.Bytes.{bytes_at, write_at, until_nul}
use rustee.Proto.{MsgArgHdr, MsgParam, no_param, write_msg, decode_msg}
use rustee.Storage.Rpc.{op_open, op_create, op_close, op_read, op_write, op_truncate, op_remove}
pub mod Messages
pub mod LoadTa
pub mod FsMessages
pub mod Tests

pub data SuppError : Type 0 where
  bad_cmd io not_found : SuppError

-- The clock, the paths, the strings and the file system of the host; `F` is an open file and `D` an open
-- directory. A failure has no details, since the supplicant drops them.
pub record Host (W F D : Type 0) : Type 0 where
  pub now : W → ℕ × ℕ
  pub join : List ℕ → List ℕ → List ℕ
  pub parent : List ℕ → Option (List ℕ)
  pub from_utf8_lossy : List ℕ → List ℕ
  pub create_dir_all : W → List ℕ → Option (Unit {0}) × W
  pub open_file : W → Bool → List ℕ → Option F × W
  pub read_whole : W → List ℕ → Option (List ℕ) × W
  pub seek : W → F → ℕ → Option (Unit {0}) × W
  pub read_some : W → F → ℕ → Option (List ℕ) × W
  pub write_all : W → F → List ℕ → Option (Unit {0}) × W
  pub set_len : W → F → ℕ → Option (Unit {0}) × W
  pub remove_file : W → List ℕ → Option (Unit {0}) × W
  pub read_dir : W → List ℕ → Option D × W
  pub next_entry : W → D → Option (List ℕ) × D × W

-- The maps from descriptors to what is open, and the host.
pub record Supplicant (W F D : Type 0) : Type 0 where
  pub root : List ℕ
  pub files : ℕ → Option F
  pub dirs : ℕ → Option D
  pub next_fd : ℕ
  pub world : W

abbrev pub insert : {A : Type 0} → (ℕ → Option A) → ℕ → A → ℕ → Option A
insert m fd a = λ i. if i == fd then some a else m i

abbrev pub remove : {A : Type 0} → (ℕ → Option A) → ℕ → ℕ → Option A
remove m fd = λ i. if i == fd then none else m i

abbrev pub Io : (W F D A : Type 0) → Type 0
Io W F D A = Step (Supplicant W F D) SuppError A

-- `.ok_or(code)` and `.map_err(|_| code)`
abbrev pub or_err : {A : Type 0} → SuppError → Option A → Res SuppError A
or_err code none = err code
or_err code (some a) = ok a

-- Two dots in a row.
unfoldable pub has_dots : List ℕ → Bool
has_dots [] = false
has_dots (x ∷ []) = false
has_dots (x ∷ (y ∷ name)) = (x == 46 && y == 46) || has_dots (y ∷ name)

abbrev pub is_absolute : List ℕ → Bool
is_absolute [] = false
is_absolute (x ∷ name) = x == 47

abbrev pub is_open : ℕ → Bool
is_open op = op == op_open || op == op_create

-- Lowercase hex digits of a word of 64 bits.
abbrev hex_digit : ℕ → ℕ
hex_digit x = if ltb x 10 then 48 + x else 87 + x

unfoldable pub hex16 : ℕ → ℕ → List ℕ
hex16 zero w = []
hex16 (suc n) w = hex_digit (w / 16 ^ n % 16) ∷ hex16 n w

-- `attr & ATTR_TYPE_MASK`, one of the three kinds of temporary buffers.
abbrev pub is_tmem : ℕ → Bool
is_tmem attr = attr % 256 == 9 || (attr % 256 == 10 || attr % 256 == 11)

module _ {W F D : Type 0} (h : Host W F D) where
  -- A call of the host; what it returns is an option.
  abbrev pub ask : {A : Type 0} → SuppError → (W → Option A × W) → Io W F D A
  ask code f s = let r = f s.world in (or_err code r.0, record s { world = r.1 })

  -- None when the root cannot be made.
  unfoldable pub new : W → List ℕ → Option (Supplicant W F D) × W
  new w root =
      let made = h.create_dir_all w root in
      (
        elim made.0 [
          | none ↦ none
          | some done ↦ some (record {
            root = root;
            files = λ i. none;
            dirs = λ i. none;
            next_fd = 1;
            world = made.1;
          })
        ],
        made.1,
      )

  unfoldable pub safe : List ℕ → List ℕ → Res SuppError (List ℕ)
  unfolding has_dots
  safe root name = if has_dots name || is_absolute name then err bad_cmd else ok (h.join root name)

  unfoldable pub fd : Io W F D ℕ
  fd s = (ok s.next_fd, record s { next_fd = (s.next_fd + 1) % 2 ^ 32 })

  abbrev pub path_of : List ℕ → Io W F D (List ℕ)
  unfolding safe
  path_of name s = (safe s.root name, s)

  abbrev pub file_of : ℕ → Io W F D F
  file_of n s = (or_err not_found (s.files n), s)

  abbrev make_parent : ℕ → Option (List ℕ) → Io W F D (Unit {0})
  make_parent op none = pure_step (ok tt)
  make_parent op (some dir) =
      if op == op_create then ask io (λ w. h.create_dir_all w dir) else pure_step (ok tt)

  unfoldable pub fs_open : ℕ → List ℕ → Io W F D (ℕ × List ℕ)
  unfolding fd
  fs_open op name = path_of name >>> λ p. make_parent op (h.parent p) >>> λ _.
      ask io (λ w. h.open_file w (op == op_create) p) >>> λ f.
      fd >>> λ id s. (ok (id, []), record s { files = insert s.files id f })

  unfoldable pub fs_read : ℕ → ℕ → List ℕ → Io W F D (ℕ × List ℕ)
  fs_read n off bytes = file_of n >>> λ f. ask io (λ w. h.seek w f off) >>> λ _.
      ask io (λ w. h.read_some w f (max (length bytes) 1)) >>> λ buf.
      pure_step (ok (length buf % 2 ^ 32, buf))

  unfoldable pub fs_write : ℕ → ℕ → List ℕ → Io W F D (ℕ × List ℕ)
  fs_write n off bytes = file_of n >>> λ f. ask io (λ w. h.seek w f off) >>> λ _.
      ask io (λ w. h.write_all w f bytes) >>> λ _. pure_step (ok (length bytes % 2 ^ 32, []))

  unfoldable pub fs_truncate : ℕ → ℕ → Io W F D (ℕ × List ℕ)
  fs_truncate n off =
      file_of n >>> λ f. ask io (λ w. h.set_len w f off) >>> λ _. pure_step (ok (0, []))

  unfoldable pub fs_remove : List ℕ → Io W F D (ℕ × List ℕ)
  fs_remove name =
      path_of name >>> λ p s. (ok (0, []), record s { world = (h.remove_file s.world p).1 })

  unfoldable pub fs_opendir : List ℕ → Io W F D (ℕ × List ℕ)
  unfolding fd
  fs_opendir name = path_of name >>> λ p. ask io (λ w. h.read_dir w p) >>> λ d.
      fd >>> λ id s. (ok (id, []), record s { dirs = insert s.dirs id d })

  abbrev entry_name : Option (List ℕ) → List ℕ
  entry_name none = []
  entry_name (some name) = h.from_utf8_lossy name

  -- The end of the directory and an error while reading it look the same.
  unfoldable pub fs_readdir : ℕ → Io W F D (ℕ × List ℕ)
  fs_readdir n = (λ s. (or_err not_found (s.dirs n), s)) >>> λ d s.
      let (entry, d', w) = h.next_entry s.world d in
      (ok (0, entry_name entry), record s { dirs = insert s.dirs n d'; world = w })

  -- The operation, a name, a descriptor, an offset and bytes; a number and bytes come back.
  unfoldable pub fs : ℕ → List ℕ → ℕ → ℕ → List ℕ → Io W F D (ℕ × List ℕ)
  unfolding fs_open fs_read fs_write fs_truncate fs_remove fs_opendir fs_readdir
  fs op name n off bytes =
      if is_open op
      then fs_open op name
      else if op == op_close
      then (λ s. (ok (0, []), record s { files = remove s.files n }))
      else if op == op_read
      then fs_read n off bytes
      else if op == op_write
      then fs_write n off bytes
      else if op == op_truncate
      then fs_truncate n off
      else if op == op_remove
      then fs_remove name
      else if op == 8
      then fs_opendir name
      else if op == 9
      then (λ s. (ok (0, []), record s { dirs = remove s.dirs n }))
      else if op == 10
      then fs_readdir n
      else pure_step (err bad_cmd)

  -- `root/ta/{uuid}.ta`
  abbrev pub ta_path : List ℕ → List ℕ → List ℕ
  ta_path root uuid_hex = h.join (h.join root (116 ∷ 97 ∷ [])) (uuid_hex ++ (46 ∷ 116 ∷ 97 ∷ []))

  unfoldable pub load_ta : List ℕ → Io W F D (List ℕ)
  load_ta uuid_hex s = ask not_found (λ w. h.read_whole w (ta_path s.root uuid_hex)) s
