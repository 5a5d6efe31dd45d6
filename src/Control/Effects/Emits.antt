-- ===== src/Control/Effects/Emits.antt =====
-- Programs all of whose calls have a property, whatever the replies.
use naglfar.Prelude.{
  Bool, true, false, List, Outcome, ok, err, panic, unfinished, All, if◌then◌else◌, ◌≡◌, refl,
}
use naglfar.Control.Effects.{Eff, ◌>>=◌, pure, lift, call, try}

module _ {Env Event : Type 0} where
  -- If all calls of the log have the property, then so have those that the program adds.
  pub record Emits {A : Type 0} (P : Event → Type 0) (m : Eff Env Event A) : Type 0 where
    pub at : (env : Env) (log : List Event) → All P log → All P (m env log).1

  module _ (P : Event → Type 0) where
    pub Emits-lift : {A : Type 0} (o : Outcome A) → Emits P (lift {Env = Env} {Event = Event} o)
    Emits-lift o = record { at = λ env log h. h }

    pub Emits-pure : {A : Type 0} (a : A) → Emits P (pure {Env = Env} {Event = Event} a)
    Emits-pure a = record { at = λ env log h. h }

    pub Emits-ask :
        {A : Type 0} (f : Env → A) → Emits P (λ (env : Env) (log : List Event). (ok (f env), log))
    Emits-ask f = record { at = λ env log h. h }

    pub Emits-call :
        {A : Type 0} (event : Event) (reply : Env → List Event → Outcome A)
        → P event
        → Emits P (call event reply)
    Emits-call event reply p = record { at = λ env log h. (p, h) }

    resume_All :
        {A B : Type 0} (env : Env) (f : A → Eff Env Event B) (o : Outcome A) (log : List Event)
        → ((a : A) → Emits P (f a))
        → All P log
        → All P (◌>>=◌ {Env = Env} {Event = Event} (λ _ _. (o, log)) f env log).1
    resume_All env f (ok a) log k h = (k a).at env log h
    resume_All env f (err e) log k h = h
    resume_All env f panic log k h = h
    resume_All env f unfinished log k h = h

    pub Emits-bind :
        {A B : Type 0} (m : Eff Env Event A) (f : A → Eff Env Event B)
        → Emits P m
        → ((a : A) → Emits P (f a))
        → Emits P (m >>= f)
    Emits-bind m f e k = record {
      at = λ env log h. resume_All env f (m env log).0 (m env log).1 k (e.at env log h);
    }

    settle_All :
        {A : Type 0} (env : Env) (o : Outcome A) (log : List Event)
        → All P log
        → All P (try {Env = Env} {Event = Event} (λ _ _. (o, log)) env log).1
    settle_All env (ok a) log h = h
    settle_All env (err e) log h = h
    settle_All env panic log h = h
    settle_All env unfinished log h = h

    pub Emits-try : {A : Type 0} (m : Eff Env Event A) → Emits P m → Emits P (try m)
    Emits-try m e = record {
      at = λ env log h. settle_All env (m env log).0 (m env log).1 (e.at env log h);
    }

    pub Emits-if :
        {A : Type 0} (b : Bool) (m n : Eff Env Event A)
        → Emits P m
        → Emits P n
        → Emits P (if b then m else n)
    Emits-if true m n h k = h
    Emits-if false m n h k = k

    -- With the outcome of the test.
    pub Emits-when :
        {A : Type 0} (b : Bool) (m n : Eff Env Event A)
        → (b ≡ true → Emits P m)
        → (b ≡ false → Emits P n)
        → Emits P (if b then m else n)
    Emits-when true m n h k = h refl
    Emits-when false m n h k = k refl

pub ruleset emits_rules =
    (Emits-lift, Emits-pure, Emits-ask, Emits-call, Emits-bind, Emits-try, Emits-if)
