-- ===== src/Control/Calls/Commits.antt =====
-- The writes of Control/Calls as calls of a program.
use naglfar.Control.Calls.{Event, commit}
use naglfar.Control.Effects.Emits.{Emits, Emits-call}

pub commit-Emits : (P : Event → Type 0) (event : Event) → P event → Emits P (commit event)
commit-Emits P event p = Emits-call P event (λ env log. env.write log event) p
