-- ===== src/Control/Exclusive.antt =====
-- What is written to the relationship, given what is read from it: no core with two resources.
use naglfar.Prelude.{
  [], Str, str_eq, Outcome, ok, err, not_found, lookup, ◌≡◌, sym, subst, arith, Bool-cases, inl,
  inr,
}
use naglfar.Control.Calls.{
  Env, Log, Event, write_relationship, get_relationship_status, read_relationship,
}
use naglfar.Control.Docker.Quiet.{AllowsDocker}
use naglfar.Control.Effects.{try}
use naglfar.Control.Effects.Ensures.{
  Ensures, OfOk, Ensures-call, Ensures-try, Ensures-bind, Ensures-lift,
}
use naglfar.Control.Relationship.{get_relationship, or_no_relationship, no_relationship}
use naglfar.Relationship.{
  RelationshipStatus, ResourceRefList, resources_of, assign, discard, entries,
}
use naglfar.Relationship.Lookups.{resources_of-assign, lookup-discard}
use naglfar.Scheduler.Bind.Cores.{owners, IsExclusive}
use naglfar.Scheduler.TryRequest.Cores.{CoresAreExclusive}

-- Each relationship that is written leaves a core with one resource at most.
abbrev pub WritesExclusive : Event → Type 0
WritesExclusive (write_relationship written) = CoresAreExclusive written
WritesExclusive _ = Unit

-- Each relationship that the API returns does.
abbrev pub ReadsExclusive : Env → Type 0
ReadsExclusive env = (log : Log) → OfOk CoresAreExclusive (env.relationship log)

pub WritesExclusive-AllowsDocker : AllowsDocker WritesExclusive
WritesExclusive-AllowsDocker = record {
  connects = λ _. tt;
  image_inspects = λ _. tt;
  image_pulls = λ _. tt;
  inspects = λ _. tt;
  starts = λ _. tt;
  waits = λ _. tt;
  reads_logs = λ _. tt;
  removes = λ _. tt;
  creates = λ _ _ _. tt;
  joins = λ _ _. tt;
}

pub nil-IsExclusive : IsExclusive []
unfolding owners
nil-IsExclusive x = omega arith

pub no_relationship-CoresAreExclusive : CoresAreExclusive no_relationship
unfolding resources_of entries lookup
no_relationship-CoresAreExclusive machine = nil-IsExclusive

-- The list of one machine is written.
pub assign-CoresAreExclusive :
    (k : Str) (resources : ResourceRefList) (rel rel' : RelationshipStatus)
    → assign k resources rel.machine_to_resources ≡ ok rel'.machine_to_resources
    → IsExclusive resources
    → CoresAreExclusive rel
    → CoresAreExclusive rel'
assign-CoresAreExclusive k resources rel rel' w new old j =
    let value = resources_of-assign k j resources rel rel' w in
    elim (Bool-cases (str_eq k j)) [
      | inl same ↦
          let e : resources_of rel' j ≡ resources = ground arith in subst IsExclusive (sym e) new
      | inr differ ↦
          let e : resources_of rel' j ≡ resources_of rel j = ground arith in
          subst IsExclusive (sym e) (old j)
    ]

-- The list of one machine is dropped.
pub discard-CoresAreExclusive :
    (k : Str) (rel : RelationshipStatus)
    → CoresAreExclusive rel
    → CoresAreExclusive (record rel { machine_to_resources = discard k rel.machine_to_resources })
unfolding resources_of
discard-CoresAreExclusive k rel old j = elim (Bool-cases (str_eq k j)) [
  | inl same ↦ rw (lookup-discard k j rel.machine_to_resources, same) nil-IsExclusive
  | inr differ ↦ rw (lookup-discard k j rel.machine_to_resources, differ) (old j)
]

module _ (env : Env) (reads : ReadsExclusive env) where
  or_no_relationship-Ensures :
      (o : Outcome RelationshipStatus)
      → OfOk CoresAreExclusive o
      → Ensures env WritesExclusive CoresAreExclusive (or_no_relationship o)
  unfolding or_no_relationship
  or_no_relationship-Ensures (err not_found) h =
      Ensures-lift env WritesExclusive _ (ok no_relationship) no_relationship-CoresAreExclusive
  or_no_relationship-Ensures o h = Ensures-lift env WritesExclusive _ o h

  pub status-Ensures :
      Ensures env WritesExclusive (OfOk CoresAreExclusive) (try get_relationship_status)
  status-Ensures =
      Ensures-try env WritesExclusive _ get_relationship_status
        (Ensures-call env WritesExclusive CoresAreExclusive read_relationship _ tt reads)

  pub get_relationship-Ensures : Ensures env WritesExclusive CoresAreExclusive get_relationship
  unfolding get_relationship
  get_relationship-Ensures =
      Ensures-bind env WritesExclusive _ _ (try get_relationship_status) or_no_relationship
        status-Ensures or_no_relationship-Ensures
