-- ===== src/Control/Effects/Ensures.antt =====
-- Programs whose calls have a property in a given environment, and whose result has another.
use naglfar.Prelude.{
  Bool, true, false, List, Outcome, ok, err, panic, unfinished, All, if◌then◌else◌, ◌≡◌, refl,
}
use naglfar.Control.Effects.{Eff, ◌>>=◌, lift, call, try}
use naglfar.Control.Effects.Emits.{Emits}

-- `Q` holds of a result that is a value.
abbrev pub OfOk : {A : Type 0} → (A → Type 0) → Outcome A → Type 0
OfOk Q (ok a) = Q a
OfOk Q (err e) = Unit
OfOk Q panic = Unit
OfOk Q unfinished = Unit

-- Nothing is said about the result.
abbrev pub Any : {A : Type 0} → A → Type 0
Any a = Unit

module _ {Env Event : Type 0} where
  pub record Ensures {A : Type 0} (env : Env) (P : Event → Type 0) (Q : A → Type 0)
      (m : Eff Env Event A) : Type 0 where
    pub at : (log : List Event) → All P log → All P (m env log).1 × OfOk Q (m env log).0

  module _ (env : Env) (P : Event → Type 0) where
    of_any : {A : Type 0} (o : Outcome A) → OfOk (Any) o
    of_any (ok a) = tt
    of_any (err e) = tt
    of_any panic = tt
    of_any unfinished = tt

    pub Ensures-Emits : {A : Type 0} (m : Eff Env Event A) → Emits P m → Ensures env P (Any) m
    Ensures-Emits m e = record { at = λ log h. (e.at env log h, of_any (m env log).0) }

    pub Ensures-lift :
        {A : Type 0} (Q : A → Type 0) (o : Outcome A)
        → OfOk Q o
        → Ensures env P Q (lift {Env = Env} {Event = Event} o)
    Ensures-lift Q o q = record { at = λ log h. (h, q) }

    of_itself : {A : Type 0} (o : Outcome A) → OfOk (λ a. o ≡ ok a) o
    of_itself (ok a) = refl
    of_itself (err e) = tt
    of_itself panic = tt
    of_itself unfinished = tt

    -- The result is the value that was computed.
    pub lift-Ensures :
        {A : Type 0} (o : Outcome A)
        → Ensures env P (λ a. o ≡ ok a) (lift {Env = Env} {Event = Event} o)
    lift-Ensures o = Ensures-lift (λ a. o ≡ ok a) o (of_itself o)

    pub Ensures-call :
        {A : Type 0} (Q : A → Type 0) (event : Event) (reply : Env → List Event → Outcome A)
        → P event
        → ((log : List Event) → OfOk Q (reply env log))
        → Ensures env P Q (call event reply)
    Ensures-call Q event reply p q = record { at = λ log h. ((p, h), q log) }

    resume_ensures :
        {A B : Type 0} (Q : A → Type 0) (R : B → Type 0) (f : A → Eff Env Event B) (o : Outcome A)
        (log : List Event)
        → ((a : A) → Q a → Ensures env P R (f a))
        → All P log
        → OfOk Q o
        → (let r = ◌>>=◌ {Env = Env} {Event = Event} (λ _ _. (o, log)) f env log in
            All P r.1 × OfOk R r.0)
    resume_ensures Q R f (ok a) log k h q = (k a q).at log h
    resume_ensures Q R f (err e) log k h q = (h, tt)
    resume_ensures Q R f panic log k h q = (h, tt)
    resume_ensures Q R f unfinished log k h q = (h, tt)

    pub Ensures-bind :
        {A B : Type 0} (Q : A → Type 0) (R : B → Type 0) (m : Eff Env Event A)
        (f : A → Eff Env Event B)
        → Ensures env P Q m
        → ((a : A) → Q a → Ensures env P R (f a))
        → Ensures env P R (m >>= f)
    Ensures-bind Q R m f e k = record {
      at = λ log h.
          let done = e.at log h in resume_ensures Q R f (m env log).0 (m env log).1 k done.0 done.1;
    }

    settle_ensures :
        {A : Type 0} (Q : A → Type 0) (o : Outcome A) (log : List Event)
        → All P log
        → OfOk Q o
        → (let r = try {Env = Env} {Event = Event} (λ _ _. (o, log)) env log in
            All P r.1 × OfOk (OfOk Q) r.0)
    settle_ensures Q (ok a) log h q = (h, q)
    settle_ensures Q (err e) log h q = (h, tt)
    settle_ensures Q panic log h q = (h, tt)
    settle_ensures Q unfinished log h q = (h, tt)

    pub Ensures-try :
        {A : Type 0} (Q : A → Type 0) (m : Eff Env Event A)
        → Ensures env P Q m
        → Ensures env P (OfOk Q) (try m)
    Ensures-try Q m e = record {
      at = λ log h.
          let done = e.at log h in settle_ensures Q (m env log).0 (m env log).1 done.0 done.1;
    }

    pub Ensures-if :
        {A : Type 0} (Q : A → Type 0) (b : Bool) (m n : Eff Env Event A)
        → Ensures env P Q m
        → Ensures env P Q n
        → Ensures env P Q (if b then m else n)
    Ensures-if Q true m n h k = h
    Ensures-if Q false m n h k = k
