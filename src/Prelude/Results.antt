-- ===== src/Prelude/Results.antt =====
-- What a Go function ends in: a value, an error value, or a panic. A loop that is modelled on fuel is
-- `unfinished` when the fuel runs out.
use mathlib.Core.Path.{◌≡◌, refl}
use mathlib.Core.Logic.{◌↔◌}
use mathlib.Core.Option.{Option, none, some}
use native.Mathlib.Omega.{arith}
use naglfar.Prelude.Text.{Str}

-- `not_found` and `already_exists` are the errors that the code tells apart by a predicate.
pub data Error : Type 0 where
  not_found already_exists : Error
  failure : Str → Error

pub data Outcome {ℓ} (A : Type ℓ) : Type ℓ where
  ok : A → Outcome A
  err : Error → Outcome A
  panic : Outcome A
  unfinished : Outcome A

infixl 5 ◌>>=◌
abbrev pub ◌>>=◌ {ℓ κ} : {A : Type ℓ} {B : Type κ} → Outcome A → (A → Outcome B) → Outcome B
ok a >>= f = f a
err e >>= f = err e
panic >>= f = panic
unfinished >>= f = unfinished

-- A nil pointer that is dereferenced.
abbrev pub deref {ℓ} : {A : Type ℓ} → Option A → Outcome A
deref none = panic
deref (some a) = ok a

-- A check that comes before others.
pub check_iff :
    (first rest : Outcome (Unit {0}))
    → ((first >>= λ _. rest) ≡ ok tt) ↔ ((first ≡ ok tt) × (rest ≡ ok tt))
check_iff (ok a) rest = ground arith
check_iff unfinished rest = ground arith
check_iff panic rest = ground arith
check_iff (err e) rest = ground arith

-- A chain that ends in a value had one after its first step.
pub >>=-eq-ok {ℓ κ} :
    {A : Type ℓ} {B : Type κ} (first : Outcome A) (next : A → Outcome B) {last : B}
    → (first >>= next) ≡ ok last
    → (mid : A) × (first ≡ ok mid) × (next mid ≡ ok last)
>>=-eq-ok (ok mid) next h = (mid, refl, h)
>>=-eq-ok unfinished next h = cc
>>=-eq-ok panic next h = cc
>>=-eq-ok (err e) next h = cc

pub ok-injective {ℓ} : {A : Type ℓ} {a b : A} → ok a ≡ ok b → a ≡ b
ok-injective h = cc
