-- ===== src/Control/Relationship/Exclusive.antt =====
-- The write of controllers/relationship_controller.go, and who has which core.
use naglfar.Prelude.{[], none, some, Str, Outcome, ok, err, panic, unfinished, lookup, ◌≡◌, refl}
use naglfar.Control.Calls.{Env, get_relationship_status}
use naglfar.Control.Effects.{try}
use naglfar.Control.Effects.Emits.{Emits, emits_rules}
use naglfar.Control.Effects.Ensures.{Ensures, Any, OfOk, Ensures-bind, Ensures-Emits}
use naglfar.Control.Exclusive.{WritesExclusive, ReadsExclusive, status-Ensures}
use naglfar.Control.Relationship.{
  initialize, or_make, write_quietly, initialize_missing, reconcile_found, reconcile,
}
use naglfar.Relationship.{RelationshipStatus, ResourceRefList, Nillable, resources_of, entries}
use naglfar.Scheduler.TryRequest.Cores.{CoresAreExclusive}

lookup-or_make :
    (k : Str) (m : Nillable ResourceRefList)
    → lookup k (entries (or_make [] m)) ≡ lookup k (entries m)
unfolding or_make entries lookup
lookup-or_make k none = refl
lookup-or_make k (some m) = refl

initialize-CoresAreExclusive :
    (rel : RelationshipStatus) → CoresAreExclusive rel → CoresAreExclusive (initialize rel)
unfolding resources_of initialize
initialize-CoresAreExclusive rel h k = rw (lookup-or_make k rel.machine_to_resources) (h k)

initialize_missing-Emits :
    (rel : RelationshipStatus)
    → CoresAreExclusive rel
    → Emits WritesExclusive (initialize_missing rel)
unfolding initialize_missing write_quietly
initialize_missing-Emits rel h =
    let h' = initialize-CoresAreExclusive rel h in search (emits_rules, h') depth 8

reconcile_found-Emits :
    (o : Outcome RelationshipStatus)
    → OfOk CoresAreExclusive o
    → Emits WritesExclusive (reconcile_found o)
unfolding reconcile_found
reconcile_found-Emits (ok rel) h = initialize_missing-Emits rel h
reconcile_found-Emits (err e) h = search emits_rules
reconcile_found-Emits panic h = search emits_rules
reconcile_found-Emits unfinished h = search emits_rules

pub reconcile-Ensures : (env : Env) → ReadsExclusive env → Ensures env WritesExclusive Any reconcile
unfolding reconcile
reconcile-Ensures env reads =
    Ensures-bind env WritesExclusive _ _ (try get_relationship_status) reconcile_found
      (status-Ensures env reads)
      (λ o h. Ensures-Emits env WritesExclusive (reconcile_found o) (reconcile_found-Emits o h))
