-- ===== src/Scheduler/Select.antt =====
-- groupCoLocatedItems, sortMachines, selectNonLockMachines and filterMachines of
-- controllers/testresourcerequest_controller.go.
pub mod Members
pub mod Order
use naglfar.Prelude.{
  ℕ, Bool, true, false, List, [], ◌∷◌, ◌++◌, map, Option, none, some, Str, Map, has_key, lookup,
  insert, length, ltb, if◌then◌else◌,
}
use naglfar.Machine.{Machine}
use naglfar.Relationship.{RelationshipStatus, resources_of, entries}
use naglfar.Request.{ResourceRequestItem}
use naglfar.Resource.{TestResource}
use naglfar.Scheduler.Bind.{key_of}

-- A nil pointer stands for an item that the map of resources misses.
pub record ItemGroup : Type 0 where
  pub explicit_machine : Str
  pub items : List (Option TestResource)

-- What Go leaves open: the order in which `range` visits the map of named groups, and rand.Shuffle.
pub record Choices : Type 0 where
  pub range_groups : List ItemGroup → List ItemGroup
  pub shuffle : List Machine → List Machine

-- m[k] = append(m[k], item)
append_at :
    Str → Option TestResource → Map (List (Option TestResource)) → Map (List (Option TestResource))
append_at k item m = elim (lookup k m) [
  | none ↦ insert k (item ∷ []) m
  | some items ↦ insert k (items ++ (item ∷ [])) m
]

-- The loop over the items.
collect :
    List ResourceRequestItem
    → Map TestResource
    → Map (List (Option TestResource))
    → List ItemGroup
    → Map (List (Option TestResource)) × List ItemGroup
unfolding append_at
collect [] resources named alone = (named, alone)
collect (item ∷ items) resources named alone = elim item.spec.machine [
  | [] ↦
      collect items resources named
        (alone ++ (record { explicit_machine = []; items = lookup item.name resources ∷ [] } ∷ []))
  | c ∷ s ↦
      collect items resources (append_at item.spec.machine (lookup item.name resources) named) alone
]

group_of : Str × List (Option TestResource) → ItemGroup
group_of (machine, items) = record { explicit_machine = machine; items = items }

unfoldable pub group_co_located_items :
    Choices → List ResourceRequestItem → Map TestResource → List ItemGroup
unfolding collect group_of
group_co_located_items choices items resources =
    let (named, alone) = collect items resources [] [] in
    choices.range_groups (map group_of named) ++ alone

-- The values of a map, in the order of `range`.
abbrev pub values : Map Machine → List Machine
values [] = []
values ((name, machine) ∷ machines) = machine ∷ values machines

module _ (explicit : Map Machine) (rel : RelationshipStatus) where
  abbrev pub load : Machine → ℕ
  load m = length (resources_of rel (key_of m.meta))

  -- The comparison: machines that the request names first, then those with more resources.
  pub less : Machine → Machine → Bool
  less m1 m2 =
      let m1ok = has_key m1.meta.name explicit in
      let m2ok = has_key m2.meta.name explicit in
      if m1ok
      then (if m2ok then ltb (load m2) (load m1) else true)
      else (if m2ok then false else ltb (load m2) (load m1))

  pub insert_machine : Machine → List Machine → List Machine
  unfolding less
  insert_machine m [] = m ∷ []
  insert_machine m (n ∷ machines) =
      let rest = insert_machine m machines in if less n m then n ∷ rest else m ∷ n ∷ machines

  -- sort.Slice is not stable. After an arbitrary shuffle a stable sort gives every order that it
  -- can give.
  pub sort_slice : List Machine → List Machine
  unfolding insert_machine
  sort_slice [] = []
  sort_slice (m ∷ machines) = insert_machine m (sort_slice machines)

unfoldable pub sort_machines :
    Choices → Map Machine → Map Machine → RelationshipStatus → List Machine
unfolding sort_slice
sort_machines choices all_machines explicit rel =
    sort_slice explicit rel (choices.shuffle (values all_machines))

unfoldable pub select_non_lock_machines : Map Machine → RelationshipStatus → Map Machine
select_non_lock_machines [] rel = []
select_non_lock_machines ((name, machine) ∷ machines) rel =
    let rest = select_non_lock_machines machines rel in
    if has_key name (entries rel.machine_locks) then rest else (name, machine) ∷ rest

unfoldable pub filter_machines : List Machine → (Machine → Bool) → List Machine
filter_machines [] pred = []
filter_machines (machine ∷ machines) pred =
    let rest = filter_machines machines pred in if pred machine then machine ∷ rest else rest
