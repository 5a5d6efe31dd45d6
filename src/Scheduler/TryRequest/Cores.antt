-- ===== src/Scheduler/TryRequest/Cores.antt =====
-- tryRequest and the cores of the machines.
use naglfar.Prelude.{
  List, Option, some, Str, str_eq, Map, ok, ◌≡◌, sym, subst, arith, Bool-cases, inl, inr,
}
use naglfar.Machine.{Machine}
use naglfar.Relationship.{RelationshipStatus, resources_of}
use naglfar.Relationship.Lookups.{resources_of-assign}
use naglfar.Request.{TestResourceRequest}
use naglfar.Resource.{TestResource}
use naglfar.Scheduler.Bind.{key_of}
use naglfar.Scheduler.Bind.Cores.{IsExclusive, bind_items-IsExclusive}
use naglfar.Scheduler.Bind.Written.{Bound}
use naglfar.Scheduler.Select.{Choices}
use naglfar.Scheduler.TryRequest.{try_request}
use naglfar.Scheduler.TryRequest.Loop.{bind_groups-keeps, try_request-Accepted}
use naglfar.Util.Bytes.{Units}

-- On no machine two resources share a core.
abbrev pub CoresAreExclusive : RelationshipStatus → Type 0
CoresAreExclusive rel = (machine : Str) → IsExclusive (resources_of rel machine)

module _ (units : Units) where
  Bound-CoresAreExclusive :
      (rel : RelationshipStatus) (items : List (Option TestResource)) (rel' : RelationshipStatus)
      (machine : Machine)
      → Bound units rel items rel' machine
      → CoresAreExclusive rel
      → CoresAreExclusive rel'
  Bound-CoresAreExclusive rel items rel' machine bound h k =
      let here = key_of machine.meta in
      let value = resources_of-assign here k bound.placed.0 rel rel' bound.written in
      elim (Bool-cases (str_eq here k)) [
        | inl same ↦
            let e : resources_of rel' k ≡ bound.placed.0 = ground arith in
            subst IsExclusive (sym e)
              (bind_items-IsExclusive units machine items _ _ bound.placed bound.placed_eq (h here))
        | inr differ ↦
            let e : resources_of rel' k ≡ resources_of rel k = ground arith in
            subst IsExclusive (sym e) (h k)
      ]

  -- A request that is accepted leaves every core of every machine with at most one resource, if that
  -- was so before, whatever the order of the groups and of the machines.
  pub try_request-CoresAreExclusive :
      (choices : Choices) (rel : RelationshipStatus) (request : TestResourceRequest)
      (resources : Map TestResource) (machines : Map Machine) (written : RelationshipStatus)
      → try_request units choices rel request resources machines ≡ ok (some written)
      → CoresAreExclusive rel
      → CoresAreExclusive written
  unfolding resources_of
  try_request-CoresAreExclusive choices rel request resources machines written h k =
      let accepted = try_request-Accepted units choices rel request resources machines written h in
      let kept : CoresAreExclusive accepted.state.0 =
        bind_groups-keeps units _ _ _ (λ r to_lock. CoresAreExclusive r)
          (λ group r r' machine exclusive to_lock round.
            Bound-CoresAreExclusive r group.items r' machine round.bound)
          _ rel _ accepted.state accepted.bound k in
      subst CoresAreExclusive (sym accepted.written_eq) kept
