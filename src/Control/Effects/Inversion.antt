-- ===== src/Control/Effects/Inversion.antt =====
-- A program that succeeds, taken apart.
use naglfar.Prelude.{List, Outcome, ok, err, panic, unfinished, ◌≡◌, refl, arith}
use naglfar.Control.Effects.{Eff, ◌>>=◌, resume}

module _ {Env Event : Type 0} where
  resume-eq-ok :
      {A B : Type 0} (env : Env) (f : A → Eff Env Event B) (r : Outcome A × List Event) (b : B)
      (last : List Event)
      → resume env f r ≡ (ok b, last)
      → (a : A) × (mid : List Event) × (r ≡ (ok a, mid)) × (f a env mid ≡ (ok b, last))
  resume-eq-ok env f (ok a, mid) b last h = (a, mid, refl, h)
  resume-eq-ok env f (err e, mid) b last h = absurd (ground arith)
  resume-eq-ok env f (panic, mid) b last h = absurd (ground arith)
  resume-eq-ok env f (unfinished, mid) b last h = absurd (ground arith)

  pub bind-eq-ok :
      {A B : Type 0} (m : Eff Env Event A) (f : A → Eff Env Event B) (env : Env) (log : List Event)
      (b : B) (last : List Event)
      → (m >>= f) env log ≡ (ok b, last)
      → (a : A) × (mid : List Event) × (m env log ≡ (ok a, mid)) × (f a env mid ≡ (ok b, last))
  bind-eq-ok m f env log b last = resume-eq-ok env f (m env log) b last
