-- ===== src/Prelude/Steps.antt =====
-- A Rust function that takes `&mut` state and returns `Result`: the state comes back after an error,
-- too.
use mathlib.Core.Path.{◌≡◌, refl, ap}
use rustee.Prelude.Results.{Res, ok, err, panic}

abbrev pub Step : (S E A : Type 0) → Type 0
Step S E A = S → Res E A × S

-- What follows a step that has come out.
abbrev pub then_step :
    {S E A B : Type 0} (outcome : Res E A × S) (next : A → Step S E B) → Res E B × S
then_step outcome next = elim outcome.0 [
  | ok value ↦ next value outcome.1
  | err code ↦ (err code, outcome.1)
  | panic ↦ (panic, outcome.1)
]

infixl 5 ◌>>>◌
-- `?` behind a step.
abbrev pub ◌>>>◌ : {S E A B : Type 0} (before : Step S E A) (next : A → Step S E B) → Step S E B
before >>> next = λ s. then_step (before s) next

abbrev pub pure_step : {S E A : Type 0} (r : Res E A) → Step S E A
pure_step r = λ s. (r, s)

pub >>>-ok :
    {S E A B : Type 0} (before : Step S E A) (next : A → Step S E B) (s s' : S) (value : A)
    → before s ≡ (ok value, s')
    → (before >>> next) s ≡ next value s'
>>>-ok before next s s' value e = ap (λ r. then_step r next) e

pub >>>-err :
    {S E A B : Type 0} (before : Step S E A) (next : A → Step S E B) (s s' : S) (code : E)
    → before s ≡ (err code, s')
    → (before >>> next) s ≡ (err code, s')
>>>-err before next s s' code e = ap (λ r. then_step r next) e

then_step-eq-ok :
    {S E A B : Type 0} (outcome : Res E A × S) (next : A → Step S E B) (s' : S) (last : B)
    → then_step outcome next ≡ (ok last, s')
    → (value : A) × (between : S) × (outcome ≡ (ok value, between))
      × (next value between ≡ (ok last, s'))
then_step-eq-ok (ok value, between) next s' last through = (value, between, refl, through)
then_step-eq-ok (err code, between) next s' last through = cc
then_step-eq-ok (panic, between) next s' last through = cc

-- What a run tells that came through its first step.
pub >>>-eq-ok :
    {S E A B : Type 0} (before : Step S E A) (next : A → Step S E B) (s s' : S) (last : B)
    → (before >>> next) s ≡ (ok last, s')
    → (value : A) × (between : S) × (before s ≡ (ok value, between))
      × (next value between ≡ (ok last, s'))
>>>-eq-ok before next s s' last through = then_step-eq-ok (before s) next s' last through
