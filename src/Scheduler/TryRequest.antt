-- ===== src/Scheduler/TryRequest.antt =====
-- tryRequest of controllers/testresourcerequest_controller.go, up to the update of the relationship.
pub mod Loop
pub mod Cores
pub mod Locks
use naglfar.Prelude.{
  Bool, true, false, List, [], ◌∷◌, ◌++◌, Option, none, some, Str, codes, Map, Outcome, ok, err,
  failure, ◌>>=◌, deref, lookup, insert, length, ◌==◌, if◌then◌else◌,
}
use naglfar.Machine.{Machine}
use naglfar.Ref.{Ref, create_ref}
use naglfar.Relationship.{RelationshipStatus, Nillable, resources_of, accepted, assign}
use naglfar.Request.{TestResourceRequest, MachineRequest}
use naglfar.Resource.{TestResource}
use naglfar.Scheduler.Bind.{key_of, try_bind_resource}
use naglfar.Scheduler.Select.{
  ItemGroup, Choices, group_co_located_items, sort_machines, select_non_lock_machines,
  filter_machines,
}
use naglfar.Util.Bytes.{Units}

-- The loop over the machine requests: the machines that they name must be ready.
explicit_machines : List MachineRequest → Map Machine → Map Machine → Outcome (Map Machine)
explicit_machines [] machines explicit = ok explicit
explicit_machines (request ∷ requests) machines explicit = elim request.test_machine_resource [
  | [] ↦ explicit_machines requests machines explicit
  | c ∷ s ↦ elim (lookup request.test_machine_resource machines) [
    | none ↦ err (failure (codes "no ready ExplicitMachine"))
    | some machine ↦
        explicit_machines requests machines (insert request.test_machine_resource machine explicit)
  ]
]

-- machineRequestsMap: the last request of a name counts.
pub requests_map : List MachineRequest → Map MachineRequest → Map MachineRequest
requests_map [] m = m
requests_map (request ∷ requests) m = requests_map requests (insert request.name request m)

-- The machine has no resource yet.
is_free : RelationshipStatus → Machine → Bool
is_free rel m = length (resources_of rel (key_of m.meta)) == 0

-- An exclusive group is only for machines that are free.
restrict : RelationshipStatus → MachineRequest → List Machine → List Machine
unfolding is_free
restrict rel request machines =
    if request.exclusive then filter_machines machines (is_free rel) else machines

-- The machine that the request names, or all; `none` where it is not a candidate.
named_machine : Str → Map Machine → List Machine → Option (List Machine)
named_machine [] candidates sorted = some sorted
named_machine (c ∷ s) candidates sorted = elim (lookup (c ∷ s) candidates) [
  | none ↦ none
  | some machine ↦ some (machine ∷ [])
]

-- The candidates for a machine request, and whether the machine is to be locked.
named_candidates :
    RelationshipStatus → MachineRequest → Map Machine → List Machine → Option (List Machine × Bool)
unfolding restrict named_machine
named_candidates rel request candidates sorted =
    elim (named_machine request.test_machine_resource candidates sorted) [
      | none ↦ none
      | some machines ↦ some (restrict rel request machines, request.exclusive)
    ]

candidates_at :
    Str
    → RelationshipStatus
    → Map MachineRequest
    → Map Machine
    → List Machine
    → Outcome (Option (List Machine × Bool))
unfolding named_candidates
candidates_at [] rel requests candidates sorted = ok (some (sorted, false))
candidates_at (c ∷ s) rel requests candidates sorted = do
  request ← deref (lookup (c ∷ s) requests)
  ok (named_candidates rel request candidates sorted)

-- The candidates of a group. A group of a machine that the request does not list panics.
pub group_candidates :
    RelationshipStatus
    → Map MachineRequest
    → Map Machine
    → List Machine
    → ItemGroup
    → Outcome (Option (List Machine × Bool))
unfolding candidates_at
group_candidates rel requests candidates sorted group =
    candidates_at group.explicit_machine rel requests candidates sorted

module _ (units : Units) where
  -- The loop over the groups; `none` is the early return that asks for another try.
  pub bind_groups :
      Map MachineRequest
      → Map Machine
      → List Machine
      → List ItemGroup
      → RelationshipStatus
      → List Str
      → Outcome (Option (RelationshipStatus × List Str))
  unfolding group_candidates
  bind_groups requests candidates sorted [] rel to_lock = ok (some (rel, to_lock))
  bind_groups requests candidates sorted (group ∷ groups) rel to_lock =
      group_candidates rel requests candidates sorted group >>= elim [
        | none ↦ ok none
        | some (machines, exclusive) ↦ try_bind_resource units rel machines group.items >>= λ bound.
            elim bound.1 [
              | none ↦ ok none
              | some machine ↦
                  bind_groups requests candidates sorted groups bound.0
                    (if exclusive then to_lock ++ (machine.meta.name ∷ []) else to_lock)
            ]
      ]

  -- rel.Status.MachineLocks[machine] = ref, for each machine
  pub lock_all : List Str → Ref → Nillable Ref → Outcome (Nillable Ref)
  lock_all [] self locks = ok locks
  lock_all (machine ∷ machines) self locks = assign machine self locks >>= lock_all machines self

  accept : TestResourceRequest → RelationshipStatus × List Str → Outcome RelationshipStatus
  unfolding lock_all
  accept request (rel, to_lock) = do
    locks ← lock_all to_lock (create_ref request.meta) rel.machine_locks
    ok (record rel {
      machine_locks = locks;
      accepted_requests = some (accepted rel ++ (create_ref request.meta ∷ []));
    })

  -- The relationship to write, or `none` for another try in ten seconds.
  unfoldable pub try_request :
      Choices
      → RelationshipStatus
      → TestResourceRequest
      → Map TestResource
      → Map Machine
      → Outcome (Option RelationshipStatus)
  unfolding explicit_machines requests_map bind_groups accept
  try_request choices rel request resources machines = do
    explicit ← explicit_machines request.spec.machines machines []
    let candidates = select_non_lock_machines machines rel
    let groups = group_co_located_items choices request.spec.items resources
    let sorted = sort_machines choices candidates explicit rel
    bound ← bind_groups (requests_map request.spec.machines []) candidates sorted groups rel []
    elim bound [
      | none ↦ ok none
      | some state ↦ do written ← accept request state; ok (some written)
    ]
