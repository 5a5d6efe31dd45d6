-- ===== src/Scheduler/Bind.antt =====
-- tryBindResource of controllers/testresourcerequest_controller.go: the first machine that takes all
-- resources of a group, and the entries that are then written.
pub mod Steps
pub mod Cores
pub mod Written
use naglfar.Prelude.{
  List, [], ◌∷◌, ◌++◌, Option, none, some, Str, Map, Outcome, ok, ◌>>=◌, deref, lookup, insert,
}
use naglfar.Machine.{Machine}
use naglfar.Machine.Rest.{rest}
use naglfar.Ref.{create_ref, key, ObjectMeta}
use naglfar.Relationship.{
  RelationshipStatus, ResourceRefList, ResourceBinding, Nillable, MachineRef, clone, resources_of,
  assign,
}
use naglfar.Resource.{TestResource}
use naglfar.Scheduler.Overflow.{resource_overflow}
use naglfar.Util.Bytes.{Units}

-- The key under which an object stands in the relationship.
abbrev pub key_of : ObjectMeta → Str
key_of meta = key (create_ref meta)

-- The second loop over the items, which writes ResourceToMachine. A nil item panics.
pub record_items :
    Machine
    → Map ResourceBinding
    → List (Option TestResource)
    → Nillable MachineRef
    → Outcome (Nillable MachineRef)
record_items machine bindings [] m = ok m
record_items machine bindings (pointer ∷ items) m = do
  item ← deref pointer
  binding ← deref (lookup item.meta.name bindings)
  m' ← assign (key_of item.meta) (record { ref = create_ref machine.meta; binding = binding }) m
  record_items machine bindings items m'

module _ (units : Units) where
  -- The first loop over the items: `none` is `continue FindMachines`.
  pub bind_items :
      Machine
      → List (Option TestResource)
      → ResourceRefList
      → Map ResourceBinding
      → Outcome (Option (ResourceRefList × Map ResourceBinding))
  bind_items machine [] allocated bindings = ok (some (allocated, bindings))
  bind_items machine (pointer ∷ items) allocated bindings = do
    left ← rest units machine allocated
    item ← deref pointer
    fitted ← resource_overflow units left item.spec
    elim fitted [
      | none ↦ ok none
      | some binding ↦
          bind_items machine items
            (allocated ++ (record { ref = create_ref item.meta; binding = binding } ∷ []))
            (insert item.meta.name binding bindings)
    ]

  -- The entries of a group that was bound to a machine.
  pub record_group :
      Machine
      → List (Option TestResource)
      → ResourceRefList
      → Map ResourceBinding
      → RelationshipStatus
      → Outcome RelationshipStatus
  unfolding record_items
  record_group machine items allocated bindings rel = do
    machines ← assign (key_of machine.meta) allocated rel.machine_to_resources
    resources ← record_items machine bindings items rel.resource_to_machine
    ok (record rel { machine_to_resources = machines; resource_to_machine = resources })

  -- The machine is nil if none takes the group; then nothing is written.
  unfoldable pub try_bind_resource :
      RelationshipStatus
      → List Machine
      → List (Option TestResource)
      → Outcome (RelationshipStatus × Option Machine)
  unfolding bind_items record_group
  try_bind_resource rel [] items = ok (rel, none)
  try_bind_resource rel (machine ∷ candidates) items =
      bind_items machine items (clone (resources_of rel (key_of machine.meta))) [] >>= elim [
        | none ↦ try_bind_resource rel candidates items
        | some (allocated, bindings) ↦ do
          bound ← record_group machine items allocated bindings rel
          ok (bound, some machine)
      ]
