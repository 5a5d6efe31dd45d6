-- ===== src/Control/Effects.antt =====
-- A handler talks to the Kubernetes API and to Docker, which are not part of this repository. Each
-- call is an event, with its arguments, in a log (the newest first). An environment gives the reply
-- to a call as a function of the log before it, so that it may answer the same call differently each
-- time. A statement for all environments holds whatever the replies are, errors included.
pub mod Emits
pub mod Ensures
pub mod Inversion
use naglfar.Prelude.{
  ℕ, Bool, true, false, List, [], ◌∷◌, ◌++◌, Option, none, some, Str, codes, Outcome, ok, err,
  panic, unfinished, Error, not_found, ◌≡◌, refl, All, arith,
}

abbrev pub Eff : Type 0 → Type 0 → Type 0 → Type 0
Eff Env Event A = Env → List Event → Outcome A × List Event

abbrev pub settle : {A Event : Type 0} → Outcome A × List Event → Outcome (Outcome A) × List Event
settle (ok a, log) = (ok (ok a), log)
settle (err e, log) = (ok (err e), log)
settle (panic, log) = (panic, log)
settle (unfinished, log) = (unfinished, log)

module _ {Env Event : Type 0} where
  abbrev pub resume :
      {A B : Type 0} → Env → (A → Eff Env Event B) → Outcome A × List Event → Outcome B × List Event
  resume env f (ok a, log) = f a env log
  resume env f (err e, log) = (err e, log)
  resume env f (panic, log) = (panic, log)
  resume env f (unfinished, log) = (unfinished, log)

  infixl 5 ◌>>=◌ ◌>>◌
  abbrev pub ◌>>=◌ : {A B : Type 0} → Eff Env Event A → (A → Eff Env Event B) → Eff Env Event B
  ◌>>=◌ m f env log = resume env f (m env log)

  abbrev pub ◌>>◌ : {B : Type 0} → Eff Env Event (Unit {0}) → Eff Env Event B → Eff Env Event B
  m >> k = m >>= λ _. k

  abbrev pub pure : {A : Type 0} → A → Eff Env Event A
  pure a env log = (ok a, log)

  -- A value, an error or a panic that the code computes itself.
  abbrev pub lift : {A : Type 0} → Outcome A → Eff Env Event A
  lift o env log = (o, log)

  -- A call of the API or of Docker.
  abbrev pub call : {A : Type 0} → Event → (Env → List Event → Outcome A) → Eff Env Event A
  call event reply env log = (reply env log, event ∷ log)

  -- The error of a call as a value, for the code that looks at it.
  abbrev pub try : {A : Type 0} → Eff Env Event A → Eff Env Event (Outcome A)
  try m env log = settle (m env log)

-- ctrl.Result; the delay is in seconds.
pub record Result : Type 0 where
  pub requeue : Bool
  pub requeue_after : ℕ

abbrev pub done : Result
done = record { requeue = false; requeue_after = 0 }

abbrev pub again : Result
again = record { requeue = true; requeue_after = 0 }

abbrev pub after : ℕ → Result
after seconds = record { requeue = false; requeue_after = seconds }

-- client.IgnoreNotFound, as the end of a handler
abbrev pub ignore_not_found : Error → Outcome Result
ignore_not_found not_found = ok done
ignore_not_found e = err e
