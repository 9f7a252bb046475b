-- ===== src/Prelude/Results.antt =====
-- The outcome of a Rust function that returns `Result` and may panic.
use mathlib.Core.Path.{◌≡◌, refl}
use mathlib.Core.Logic.{◌⊎◌, inl, inr}
use mathlib.Core.Bool.{Bool, true, false}
use mathlib.Core.Option.{Option, none, some}

pub data Res {ℓ} (E : Type 0) (A : Type ℓ) : Type ℓ where
  ok : (value : A) → Res E A
  err : (code : E) → Res E A
  panic : Res E A

module _ {E : Type 0} where
  -- An early `return Err(code)` unless the test holds.
  abbrev pub ensure : (test : Bool) → (code : E) → Res E (Unit {0})
  ensure false code = err code
  ensure true code = ok tt

  -- `found.ok_or(code)?`
  abbrev pub ok_or {ℓ} : {A : Type ℓ} (found : Option A) → (code : E) → Res E A
  ok_or none code = err code
  ok_or (some value) code = ok value

infixl 5 ◌>>=◌ ◌>>◌
-- `?`: an error and a panic end the function.
abbrev pub ◌>>=◌ {ℓ κ} :
    {E : Type 0} {A : Type ℓ} {B : Type κ} (before : Res E A) (next : A → Res E B) → Res E B
panic >>= next = panic
err code >>= next = err code
ok value >>= next = next value

abbrev pub ◌>>◌ {κ} :
    {E : Type 0} {B : Type κ} (before : Res E (Unit {0})) (next : Res E B) → Res E B
before >> next = before >>= (λ done. next)

-- What a run tells that came through its first step.
pub >>=-eq-ok {ℓ κ} :
    {E : Type 0} {A : Type ℓ} {B : Type κ} (before : Res E A) (next : A → Res E B) {last : B}
    → (before >>= next) ≡ ok last
    → (value : A) × (before ≡ ok value) × (next value ≡ ok last)
>>=-eq-ok panic next through = cc
>>=-eq-ok (err code) next through = cc
>>=-eq-ok (ok value) next through = (value, refl, through)

pub ensure-eq-ok {ℓ} :
    {E : Type 0} {A : Type ℓ} (test : Bool) (code : E) (next : Res E A) {last : A}
    → (ensure test code >> next) ≡ ok last
    → (test ≡ true) × (next ≡ ok last)
ensure-eq-ok false code next through = cc
ensure-eq-ok true code next through = (refl, through)

pub Res-cases {ℓ} :
    {E : Type 0} {A : Type ℓ} (outcome : Res E A)
    → ((value : A) × (outcome ≡ ok value))
      ⊎ (((code : E) × (outcome ≡ err code)) ⊎ (outcome ≡ panic))
Res-cases (ok value) = inl (value, refl)
Res-cases (err code) = inr (inl (code, refl))
Res-cases panic = inr (inr refl)
