-- ===== src/Storage/Env.antt =====
-- What the storage (crates/rustee-storage/src/lib.rs) is built over: the file system behind `FsRpc`,
-- the entropy source and the crypto provider, with the state that runs through its operations.
use rustee.Prelude.{ℕ, List, Res, ok, err, panic, ◌≡◌, ap, length}
use rustee.Crypto.Provider.{Primitives}

pub data StorageError : Type 0 where
  corrupt not_found too_big crypto_error fs_error : StorageError

-- `impl From<CryptoError>` behind `?`, and `.map_err(|_| Corrupt)`
abbrev pub map_err {ℓ} :
    {E : Type 0} {A : Type ℓ} (r : Res E A) → (code : StorageError) → Res StorageError A
map_err (ok value) code = ok value
map_err (err e) code = err code
map_err panic code = panic

-- An operation leaves its state on an error, too.
pub record FsRpc (F : Type 0) : Type 0 where
  pub create_file : F → List ℕ → List ℕ → Res StorageError (Unit {0}) × F
  pub read_file : F → List ℕ → Res StorageError (List ℕ) × F
  pub write_file : F → List ℕ → List ℕ → Res StorageError (Unit {0}) × F
  pub delete_file : F → List ℕ → Res StorageError (Unit {0}) × F
  pub mkdir : F → List ℕ → Res StorageError (Unit {0}) × F

pub record Entropy (E : Type 0) : Type 0 where
  pub fill : E → ℕ → List ℕ × E
  pub length-fill : (e : E) (n : ℕ) → length (fill e n).0 ≡ n

pub record Env (E F : Type 0) : Type 0 where
  pub provider : Primitives
  pub rng : Entropy E
  pub rpc : FsRpc F

pub record ReeFs (E F : Type 0) : Type 0 where
  pub entropy : E
  pub huk : List ℕ
  pub fs : F

abbrev pub Io : (E F A : Type 0) → Type 0
Io E F A = ReeFs E F → Res StorageError A × ReeFs E F

-- What follows a step that has come out.
abbrev pub then_run :
    {E F A B : Type 0} (step : Res StorageError A × ReeFs E F) (next : A → Io E F B)
    → Res StorageError B × ReeFs E F
then_run step next = elim step.0 [
  | ok value ↦ next value step.1
  | err code ↦ (err code, step.1)
  | panic ↦ (panic, step.1)
]

abbrev pub else_run :
    {E F A : Type 0} (step : Res StorageError A × ReeFs E F) (next : Io E F A)
    → Res StorageError A × ReeFs E F
else_run step next = elim step.0 [
  | ok value ↦ (ok value, step.1)
  | err code ↦ next step.1
  | panic ↦ (panic, step.1)
]

infixl 5 ◌>>=◌ ◌>>◌
-- `?`
abbrev pub ◌>>=◌ : {E F A B : Type 0} (before : Io E F A) (next : A → Io E F B) → Io E F B
before >>= next = λ s. then_run (before s) next

pub >>=-ok :
    {E F A B : Type 0} (before : Io E F A) (next : A → Io E F B) (s s' : ReeFs E F) (value : A)
    → before s ≡ (ok value, s')
    → (before >>= next) s ≡ next value s'
>>=-ok before next s s' value e = ap (λ r. then_run r next) e

pub >>=-err :
    {E F A B : Type 0} (before : Io E F A) (next : A → Io E F B) (s s' : ReeFs E F)
    (code : StorageError)
    → before s ≡ (err code, s')
    → (before >>= next) s ≡ (err code, s')
>>=-err before next s s' code e = ap (λ r. then_run r next) e

abbrev pub ◌>>◌ : {E F B : Type 0} (before : Io E F (Unit {0})) (next : Io E F B) → Io E F B
before >> next = before >>= (λ done. next)

abbrev pub lift : {E F A : Type 0} (r : Res StorageError A) → Io E F A
lift r = λ s. (r, s)

-- `or_else`, `unwrap_or_default` and `let _ =`
abbrev pub or_else : {E F A : Type 0} (before next : Io E F A) → Io E F A
or_else before next = λ s. else_run (before s) next

abbrev pub unwrap_or : {E F A : Type 0} (before : Io E F A) (default : A) → Io E F A
unwrap_or before default = or_else before (lift (ok default))

abbrev pub ignore : {E F : Type 0} (before : Io E F (Unit {0})) → Io E F (Unit {0})
ignore before = unwrap_or before tt

abbrev pub map_code : {E F A : Type 0} (before : Io E F A) (code : StorageError) → Io E F A
map_code before code = λ s. (map_err (before s).0 code, (before s).1)

pub or_else-ok :
    {E F A : Type 0} (before next : Io E F A) (s s' : ReeFs E F) (value : A)
    → before s ≡ (ok value, s')
    → or_else before next s ≡ (ok value, s')
or_else-ok before next s s' value e = ap (λ r. else_run r next) e

pub or_else-err :
    {E F A : Type 0} (before next : Io E F A) (s s' : ReeFs E F) (code : StorageError)
    → before s ≡ (err code, s')
    → or_else before next s ≡ next s'
or_else-err before next s s' code e = ap (λ r. else_run r next) e

module _ {E F : Type 0} (env : Env E F) where
  abbrev pub fill_random : ℕ → Io E F (List ℕ)
  fill_random n = λ s.
      let (bytes, e) = env.rng.fill s.entropy n in
      (ok bytes, record { entropy = e; huk = s.huk; fs = s.fs })

  abbrev pub fs_read : List ℕ → Io E F (List ℕ)
  fs_read path = λ s.
      let (r, f) = env.rpc.read_file s.fs path in
      (r, record { entropy = s.entropy; huk = s.huk; fs = f })

  abbrev pub fs_delete : List ℕ → Io E F (Unit {0})
  fs_delete path = λ s.
      let (r, f) = env.rpc.delete_file s.fs path in
      (r, record { entropy = s.entropy; huk = s.huk; fs = f })

  abbrev pub fs_mkdir : List ℕ → Io E F (Unit {0})
  fs_mkdir path = λ s.
      let (r, f) = env.rpc.mkdir s.fs path in
      (r, record { entropy = s.entropy; huk = s.huk; fs = f })

  abbrev pub fs_write : List ℕ → List ℕ → Io E F (Unit {0})
  fs_write path bytes = λ s.
      let (r, f) = env.rpc.write_file s.fs path bytes in
      (r, record { entropy = s.entropy; huk = s.huk; fs = f })

  abbrev pub fs_create : List ℕ → List ℕ → Io E F (Unit {0})
  fs_create path bytes = λ s.
      let (r, f) = env.rpc.create_file s.fs path bytes in
      (r, record { entropy = s.entropy; huk = s.huk; fs = f })
