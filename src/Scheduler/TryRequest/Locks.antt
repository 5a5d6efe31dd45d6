-- ===== src/Scheduler/TryRequest/Locks.antt =====
-- tryRequest and the machines that are locked.
use naglfar.Prelude.{
  Bool, false, List, [], ◌∷◌, Option, some, Str, str_eq, str_eq_iff, Map, ok, has_key, lookup, ◌≡◌,
  ◌⊎◌, refl, sym, subst, ◌∙◌, arith, All, Bool-cases, Option-cases, inl, inr,
}
use naglfar.Machine.{Machine}
use naglfar.Relationship.{RelationshipStatus, resources_of, entries}
use naglfar.Relationship.Lookups.{resources_of-assign}
use naglfar.Request.{TestResourceRequest, MachineRequest}
use naglfar.Resource.{TestResource}
use naglfar.Scheduler.Bind.{key_of}
use naglfar.Scheduler.Bind.Written.{Bound}
use naglfar.Scheduler.Select.{ItemGroup, Choices, select_non_lock_machines, sort_machines}
use naglfar.Scheduler.Select.Members.{lookup-All, filter-All, sort_machines-All, All-In, MovesOnly}
use naglfar.Scheduler.TryRequest.{
  try_request, requests_map, group_candidates, candidates_at, named_candidates, named_machine,
  restrict,
}
use naglfar.Scheduler.TryRequest.Loop.{bind_groups-keeps, try_request-Accepted}
use naglfar.Util.Bytes.{Units}

-- The machines that no request has locked.
abbrev pub IsUnlocked : RelationshipStatus → Machine → Type 0
IsUnlocked rel machine = has_key machine.meta.name (entries rel.machine_locks) ≡ false

-- Each machine stands under its own name, as getMachines builds the map.
abbrev pub IsNamed : Map Machine → Type 0
IsNamed = All (λ e. e.0 ≡ e.1.meta.name)

select-IsUnlocked :
    (machines : Map Machine) (rel : RelationshipStatus)
    → IsNamed machines
    → All (λ e. IsUnlocked rel e.1) (select_non_lock_machines machines rel)
unfolding select_non_lock_machines
select-IsUnlocked [] rel h = tt
select-IsUnlocked ((name, machine) ∷ machines) rel (e, h) =
    ground (arith, select-IsUnlocked machines rel h)

module _ (P : Machine → Type 0) (rel : RelationshipStatus) (candidates : Map Machine)
    (sorted : List Machine) (c : All (λ e. P e.1) candidates) (s : All P sorted) where
  restrict-All :
      (request : MachineRequest) (machines : List Machine)
      → All P machines
      → All P (restrict rel request machines)
  unfolding restrict
  restrict-All request machines h = elim (Bool-cases request.exclusive) [
    | inl exclusive ↦ rw exclusive (filter-All P machines _ h)
    | inr shared ↦ rw shared h
  ]

  named_machine-All :
      (name : Str) (machines : List Machine)
      → named_machine name candidates sorted ≡ some machines
      → All P machines
  unfolding named_machine
  named_machine-All [] machines h =
      let same : sorted ≡ machines = ground arith in subst (All P) same s
  named_machine-All (b ∷ name) machines h = elim (Option-cases (lookup (b ∷ name) candidates)) [
    | inl missing ↦ absurd (ground arith)
    | inr (machine, there) ↦
        let same : machine ∷ [] ≡ machines = ground arith in
        subst (All P) same (lookup-All P (b ∷ name) candidates machine there c, tt)
  ]

  named_candidates-All :
      (request : MachineRequest) (machines : List Machine) (exclusive : Bool)
      → named_candidates rel request candidates sorted ≡ some (machines, exclusive)
      → All P machines
  unfolding named_candidates
  named_candidates-All request machines exclusive h =
      elim (Option-cases (named_machine request.test_machine_resource candidates sorted)) [
        | inl missing ↦ absurd (ground arith)
        | inr (found, there) ↦
            let same : restrict rel request found ≡ machines = ground arith in
            subst (All P) same (
              restrict-All request found
                (named_machine-All request.test_machine_resource found there))
      ]

  candidates_at-All :
      (name : Str) (requests : Map MachineRequest) (machines : List Machine) (exclusive : Bool)
      → candidates_at name rel requests candidates sorted ≡ ok (some (machines, exclusive))
      → All P machines
  unfolding candidates_at
  candidates_at-All [] requests machines exclusive h =
      let same : sorted ≡ machines = ground arith in subst (All P) same s
  candidates_at-All (b ∷ name) requests machines exclusive h =
      elim (Option-cases (lookup (b ∷ name) requests)) [
        | inl missing ↦ absurd (ground arith)
        | inr (request, there) ↦ named_candidates-All request machines exclusive (ground arith)
      ]

  group_candidates-All :
      (requests : Map MachineRequest) (group : ItemGroup) (machines : List Machine)
      (exclusive : Bool)
      → group_candidates rel requests candidates sorted group ≡ ok (some (machines, exclusive))
      → All P machines
  unfolding group_candidates
  group_candidates-All requests group = candidates_at-All group.explicit_machine requests

module _ (units : Units) (choices : Choices) (moves : MovesOnly choices) (rel : RelationshipStatus)
    (request : TestResourceRequest) (resources : Map TestResource) (machines : Map Machine)
    (named : IsNamed machines) where
  -- A machine's list is as it was, or the machine is not locked.
  abbrev IsSpared : RelationshipStatus → Str → Type 0
  IsSpared after k =
      (resources_of after k ≡ resources_of rel k)
      ⊎ ((machine : Machine) × (key_of machine.meta ≡ k) × IsUnlocked rel machine)

  Bound-IsSpared :
      (k : Str) (before : RelationshipStatus) (items : List (Option TestResource))
      (after : RelationshipStatus) (machine : Machine)
      → Bound units before items after machine
      → IsUnlocked rel machine
      → IsSpared before k
      → IsSpared after k
  Bound-IsSpared k before items after machine bound free h =
      let here = key_of machine.meta in
      let value = resources_of-assign here k bound.placed.0 before after bound.written in
      elim (Bool-cases (str_eq here k)) [
        | inl same ↦ inr (machine, (str_eq_iff here k).0 same, free)
        | inr differ ↦
            let e : resources_of after k ≡ resources_of before k = ground arith in
            elim h [ inl kept ↦ inl (e ∙ kept) | inr taken ↦ inr taken ]
      ]

  -- A request that is accepted changes the list of resources of a machine only if no request had
  -- locked that machine. The machines stand under their names and the shuffle only moves them.
  pub try_request_spares_locked :
      (written : RelationshipStatus) (k : Str)
      → try_request units choices rel request resources machines ≡ ok (some written)
      → (resources_of written k ≡ resources_of rel k)
        ⊎ ((machine : Machine) × (key_of machine.meta ≡ k) × IsUnlocked rel machine)
  unfolding resources_of
  try_request_spares_locked written k h =
      let accepted = try_request-Accepted units choices rel request resources machines written h in
      let candidates = select_non_lock_machines machines rel in
      let requests = requests_map request.spec.machines [] in
      let free = select-IsUnlocked machines rel named in
      let spared : IsSpared accepted.state.0 k =
        bind_groups-keeps units requests candidates
          (sort_machines choices candidates accepted.explicit rel) (λ r to_lock. IsSpared r k)
          (λ group r r' machine exclusive to_lock round.
            Bound-IsSpared k r group.items r' machine round.bound (
              All-In (IsUnlocked rel) machine round.machines round.chosen (
                group_candidates-All (IsUnlocked rel) r candidates _ free
                  (sort_machines-All (IsUnlocked rel) accepted.explicit rel choices candidates moves
                    free)
                  requests group round.machines exclusive round.machines_eq)))
          _ rel _ accepted.state accepted.bound (inl refl) in
      subst (λ w. IsSpared w k) (sym accepted.written_eq) spared
