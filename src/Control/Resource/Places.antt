-- ===== src/Control/Resource/Places.antt =====
-- How a resource leaves its place: refsRemove, and the entries of the relationship.
use naglfar.Prelude.{[], ◌∷◌, Outcome, ok, panic, ◌>>=◌, if◌then◌else◌}
use naglfar.Machine.{Machine}
use naglfar.Ref.{Ref, create_ref, ref_eq, key}
use naglfar.Relationship.{RelationshipStatus, ResourceRefList, assign, discard, resources_of}
use naglfar.Resource.{TestResource}

-- The elements with another ref.
unfoldable pub others : ResourceRefList → Ref → ResourceRefList
others [] resource = []
others (elem ∷ list) resource =
    let rest = others list resource in if ref_eq elem.ref resource then rest else elem ∷ rest

-- `make(ResourceRefList, 0, len(list)-1)` panics on the empty list.
unfoldable pub refs_remove : ResourceRefList → Ref → Outcome ResourceRefList
unfolding others
refs_remove [] resource = panic
refs_remove (elem ∷ list) resource = ok (others (elem ∷ list) resource)

-- The resource leaves the lists of both directions.
unfoldable pub unbind : TestResource → Machine → RelationshipStatus → Outcome RelationshipStatus
unfolding refs_remove
unbind resource machine relation = do
  let machine_key = key (create_ref machine.meta)
  left ← refs_remove (resources_of relation machine_key) (create_ref resource.meta)
  machines ← assign machine_key left relation.machine_to_resources
  ok (record relation {
    machine_to_resources = machines;
    resource_to_machine = discard (key (create_ref resource.meta)) relation.resource_to_machine;
  })
