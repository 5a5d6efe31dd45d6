-- ===== src/Relationship/Lookups.antt =====
-- What the maps of a relationship hold after an assignment.
use naglfar.Prelude.{
  none, some, [], ◌∷◌, Str, str_eq, ok, lookup, lookup-insert, lookup-delete, ◌≡◌, refl, arith,
  if◌then◌else◌,
}
use naglfar.Relationship.{
  Nillable, entries, assign, discard, clone, ResourceRefList, RelationshipStatus, resources_of,
}

pub clone_lem : (r : ResourceRefList) → clone r ≡ r
unfolding clone
clone_lem [] = refl
clone_lem (ref ∷ r) = rw (clone_lem r)

module _ {V : Type 0} where
  pub lookup-assign :
      (k j : Str) (v : V) (m m' : Nillable V)
      → assign k v m ≡ ok m'
      → lookup j (entries m') ≡ (if str_eq k j then some v else lookup j (entries m))
  unfolding assign entries
  lookup-assign k j v none m' h = absurd (cc)
  lookup-assign k j v (some m) m' h = ground (arith, lookup-insert k j v m)

  pub lookup-discard :
      (k j : Str) (m : Nillable V)
      → lookup j (entries (discard k m)) ≡ (if str_eq k j then none else lookup j (entries m))
  unfolding discard entries lookup
  lookup-discard k j none = ground arith
  lookup-discard k j (some m) = unfold entries in lookup-delete k j m

pub resources_of-assign :
    (k j : Str) (resources : ResourceRefList) (rel rel' : RelationshipStatus)
    → assign k resources rel.machine_to_resources ≡ ok rel'.machine_to_resources
    → resources_of rel' j ≡ (if str_eq k j then resources else resources_of rel j)
unfolding resources_of
resources_of-assign k j resources rel rel' h =
    ground (arith, lookup-assign k j resources rel.machine_to_resources rel'.machine_to_resources h)
