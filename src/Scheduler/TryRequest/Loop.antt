-- ===== src/Scheduler/TryRequest/Loop.antt =====
-- Induction over the groups of a request, and the parts of a request that was accepted.
use naglfar.Prelude.{
  Bool, List, [], ◌∷◌, ◌++◌, Option, none, some, Str, Map, Outcome, ok, ◌>>=◌, >>=-eq-ok, ◌≡◌,
  subst, arith, In, if◌then◌else◌,
}
use naglfar.Machine.{Machine}
use naglfar.Ref.{Ref, create_ref}
use naglfar.Relationship.{RelationshipStatus, Nillable, accepted}
use naglfar.Request.{TestResourceRequest, MachineRequest}
use naglfar.Resource.{TestResource}
use naglfar.Scheduler.Bind.{try_bind_resource}
use naglfar.Scheduler.Bind.Written.{Bound, try_bind_resource-Answer}
use naglfar.Scheduler.Select.{
  ItemGroup, Choices, group_co_located_items, sort_machines, select_non_lock_machines,
}
use naglfar.Scheduler.TryRequest.{
  explicit_machines, requests_map, group_candidates, bind_groups, lock_all, accept, try_request,
}
use naglfar.Util.Bytes.{Units}

module _ (units : Units) (requests : Map MachineRequest) (candidates : Map Machine)
    (sorted : List Machine) where
  -- One group that was bound.
  pub record Round (group : ItemGroup) (rel rel' : RelationshipStatus) (machine : Machine)
      (exclusive : Bool) : Type 0 where
    pub machines : List Machine
    pub machines_eq :
        group_candidates rel requests candidates sorted group ≡ ok (some (machines, exclusive))
    pub chosen : In machine machines
    pub bound : Bound units rel group.items rel' machine

  abbrev pub locks_after : Bool → Machine → List Str → List Str
  locks_after exclusive machine to_lock =
      if exclusive then to_lock ++ (machine.meta.name ∷ []) else to_lock

  abbrev Next :
      ItemGroup
      → List ItemGroup
      → RelationshipStatus
      → List Str
      → RelationshipStatus × List Str
      → Type 0
  Next group groups rel to_lock result =
      (rel' : RelationshipStatus) × (machine : Machine) × (exclusive : Bool) × Round group rel rel'
        machine exclusive
      × (bind_groups units requests candidates sorted groups rel'
            (locks_after exclusive machine to_lock)
          ≡ ok (some result))

  -- The loop after the answer of `tryBindResource`.
  abbrev go_on :
      List ItemGroup
      → List Str
      → Bool
      → RelationshipStatus × Option Machine
      → Outcome (Option (RelationshipStatus × List Str))
  go_on groups to_lock exclusive (rel', none) = ok none
  go_on groups to_lock exclusive (rel', some machine) =
      bind_groups units requests candidates sorted groups rel'
        (locks_after exclusive machine to_lock)

  Next-of :
      (group : ItemGroup) (groups : List ItemGroup) (rel : RelationshipStatus) (to_lock : List Str)
      (result : RelationshipStatus × List Str) (machines : List Machine) (exclusive : Bool)
      (answer : RelationshipStatus × Option Machine)
      → group_candidates rel requests candidates sorted group ≡ ok (some (machines, exclusive))
      → try_bind_resource units rel machines group.items ≡ ok answer
      → go_on groups to_lock exclusive answer ≡ ok (some result)
      → Next group groups rel to_lock result
  Next-of group groups rel to_lock result machines exclusive (rel', none) e f h = absurd (cc)
  Next-of group groups rel to_lock result machines exclusive (rel', some machine) e f h =
      let (there, bound) = try_bind_resource-Answer units rel machines group.items _ f in
      (
        rel',
        machine,
        exclusive,
        record { machines = machines; machines_eq = e; chosen = there; bound = bound },
        h,
      )

  Next-found :
      (group : ItemGroup) (groups : List ItemGroup) (rel : RelationshipStatus) (to_lock : List Str)
      (result : RelationshipStatus × List Str) (found : Option (List Machine × Bool))
      → group_candidates rel requests candidates sorted group ≡ ok found
      → (elim found [
        | none ↦ ok none
        | some (machines, exclusive) ↦
            try_bind_resource units rel machines group.items >>= go_on groups to_lock exclusive
      ])
        ≡ ok (some result)
      → Next group groups rel to_lock result
  Next-found group groups rel to_lock result none e h = absurd (cc)
  Next-found group groups rel to_lock result (some (machines, exclusive)) e h =
      let (answer, f, h1) = >>=-eq-ok (try_bind_resource units rel machines group.items) _ h in
      Next-of group groups rel to_lock result machines exclusive answer e f h1

  -- The first group of a request that is accepted, and the rest.
  bind_groups-cons :
      (group : ItemGroup) (groups : List ItemGroup) (rel : RelationshipStatus) (to_lock : List Str)
      (result : RelationshipStatus × List Str)
      → bind_groups units requests candidates sorted (group ∷ groups) rel to_lock ≡ ok (some result)
      → Next group groups rel to_lock result
  unfolding bind_groups
  bind_groups-cons group groups rel to_lock result h =
      let (found, e, h1) = >>=-eq-ok (group_candidates rel requests candidates sorted group) _ h in
      Next-found group groups rel to_lock result found e h1

  pub bind_groups-keeps :
      (P : RelationshipStatus → List Str → Type 0)
      → ((group : ItemGroup) (rel rel' : RelationshipStatus) (machine : Machine) (exclusive : Bool)
            (to_lock : List Str)
          → Round group rel rel' machine exclusive
          → P rel to_lock
          → P rel' (locks_after exclusive machine to_lock))
      → (groups : List ItemGroup) (rel : RelationshipStatus) (to_lock : List Str)
        (result : RelationshipStatus × List Str)
      → bind_groups units requests candidates sorted groups rel to_lock ≡ ok (some result)
      → P rel to_lock
      → P result.0 result.1
  unfolding bind_groups
  bind_groups-keeps P step [] rel to_lock (rel', to_lock') h k =
      let same : rel ≡ rel' = ground arith in
      let same' : to_lock ≡ to_lock' = ground arith in
      subst (λ r. P r to_lock') same (subst (P rel) same' k)
  bind_groups-keeps P step (group ∷ groups) rel to_lock result h k =
      let (rel', machine, exclusive, round, more) =
        bind_groups-cons group groups rel to_lock result h in
      bind_groups-keeps P step groups rel' _ result more
        (step group rel rel' machine exclusive to_lock round k)

module _ (units : Units) (choices : Choices) (rel : RelationshipStatus)
    (request : TestResourceRequest) (resources : Map TestResource) (machines : Map Machine) where
  abbrev candidates_of : Map Machine
  candidates_of = select_non_lock_machines machines rel

  -- What an accepted request went through.
  pub record Accepted (written : RelationshipStatus) : Type 0 where
    pub explicit : Map Machine
    pub state : RelationshipStatus × List Str
    pub locks : Nillable Ref
    pub bound :
        bind_groups units
          (requests_map request.spec.machines [])
          candidates_of
          (sort_machines choices candidates_of explicit rel)
          (group_co_located_items choices request.spec.items resources)
          rel
          []
        ≡ ok (some state)
    pub locked : lock_all units state.1 (create_ref request.meta) state.0.machine_locks ≡ ok locks
    pub written_eq : written ≡ record state.0 {
      machine_locks = locks;
      accepted_requests = some (accepted state.0 ++ (create_ref request.meta ∷ []));
    }

  Accepted-of :
      (written : RelationshipStatus) (explicit : Map Machine)
      (bound : Option (RelationshipStatus × List Str))
      → bind_groups units
          (requests_map request.spec.machines [])
          candidates_of
          (sort_machines choices candidates_of explicit rel)
          (group_co_located_items choices request.spec.items resources)
          rel
          []
        ≡ ok bound
      → (elim bound [
        | none ↦ ok none
        | some state ↦ accept units request state >>= λ w. ok (some w)
      ])
        ≡ ok (some written)
      → Accepted written
  unfolding accept
  Accepted-of written explicit none e h = absurd (cc)
  Accepted-of written explicit (some state) e h =
      let (w, f, h1) = >>=-eq-ok (accept units request state) _ h in
      let (locks, g, h2) =
        >>=-eq-ok (lock_all units state.1 (create_ref request.meta) state.0.machine_locks) _ f in
      record {
        explicit = explicit;
        state = state;
        locks = locks;
        bound = e;
        locked = g;
        written_eq = ground arith;
      }

  pub try_request-Accepted :
      (written : RelationshipStatus)
      → try_request units choices rel request resources machines ≡ ok (some written)
      → Accepted written
  unfolding try_request
  try_request-Accepted written h =
      let (explicit, _, h1) = >>=-eq-ok (explicit_machines request.spec.machines machines []) _ h in
      let (bound, e, h2) =
        >>=-eq-ok
          (bind_groups units (requests_map request.spec.machines []) candidates_of
            (sort_machines choices candidates_of explicit rel)
            (group_co_located_items choices request.spec.items resources) rel [])
          _ h1 in
      Accepted-of written explicit bound e h2
