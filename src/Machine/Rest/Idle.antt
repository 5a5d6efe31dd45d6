-- ===== src/Machine/Rest/Idle.antt =====
-- What a machine has left beside a list of bound resources: cores and disks.
use naglfar.Prelude.{
  ℕ, Bool, false, not, ◌&&◌, ◌||◌, [], ◌∷◌, Option, none, some, Str, str_eq, Map, ok, >>=-eq-ok,
  lookup, delete, lookup-delete, ◌≡◌, refl, ap, ◌∙◌, arith, if◌then◌else◌,
}
use naglfar.Machine.{Machine, DiskResource, AvailableResource}
use naglfar.Machine.Cores.{contains}
use naglfar.Machine.Cores.Laws.{contains-delete_cpu_set}
use naglfar.Machine.Rest.{take_disks, take_binding, rest_from, rest, available}
use naglfar.Relationship.{ResourceRefList, ResourceBinding, DiskBinding}
use naglfar.Util.Bytes.{Units}

-- A core is in one of the bindings.
unfoldable pub uses_core : ℕ → ResourceRefList → Bool
uses_core x [] = false
uses_core x (refer ∷ resources) = contains x refer.binding.cpu_set || uses_core x resources

-- A device is in one of the disk bindings.
unfoldable pub binds_device : Str → Map DiskBinding → Bool
binds_device d [] = false
binds_device d ((name, binding) ∷ bindings) = str_eq binding.device d || binds_device d bindings

unfoldable pub uses_device : Str → ResourceRefList → Bool
uses_device d [] = false
uses_device d (refer ∷ resources) = binds_device d refer.binding.disks || uses_device d resources

take_disks-lookup :
    (d : Str) (bindings : Map DiskBinding) (disks left : Map DiskResource)
    → take_disks bindings disks ≡ some left
    → lookup d left ≡ (if binds_device d bindings then none else lookup d disks)
unfolding take_disks binds_device
take_disks-lookup d [] disks left h = ground arith
take_disks-lookup d ((name, binding) ∷ bindings) disks left h = ground (
  arith,
  take_disks-lookup d bindings (delete binding.device disks) left,
  lookup-delete binding.device d disks,
)

module _ (units : Units) (x : ℕ) (d : Str) where
  -- `b` is `a` without the cores and the devices of the resources.
  abbrev pub LeftBy : ResourceRefList → AvailableResource → AvailableResource → Type 0
  LeftBy resources a b =
      (contains x b.idle_cpu_set ≡ (not (uses_core x resources) && contains x a.idle_cpu_set))
      × (lookup d b.disks ≡ (if uses_device d resources then none else lookup d a.disks))

  take_binding-LeftBy :
      (binding : ResourceBinding) (a b : AvailableResource)
      → take_binding units binding a ≡ ok (some b)
      → (contains x b.idle_cpu_set
          ≡ (not (contains x binding.cpu_set) && contains x a.idle_cpu_set))
        × (lookup d b.disks ≡ (if binds_device d binding.disks then none else lookup d a.disks))
  unfolding take_binding
  take_binding-LeftBy binding a b h = ground (
    arith,
    take_disks-lookup d binding.disks a.disks b.disks,
    contains-delete_cpu_set x a.idle_cpu_set binding.cpu_set,
  )

  rest_from-LeftBy :
      (resources : ResourceRefList) (a : Option AvailableResource) (b : AvailableResource)
      → rest_from units resources a ≡ ok (some b)
      → (c : AvailableResource) × (a ≡ some c) × LeftBy resources c b
  unfolding rest_from uses_core uses_device
  rest_from-LeftBy [] none b h = absurd (cc)
  rest_from-LeftBy [] (some a) b h = (a, refl, (ground arith, ground arith))
  rest_from-LeftBy (refer ∷ resources) none b h = absurd (cc)
  rest_from-LeftBy (refer ∷ resources) (some a) b h =
      let (o, taken, more) =
        >>=-eq-ok (take_binding units refer.binding a) (rest_from units resources) h in
      let (c, e, left) = rest_from-LeftBy resources o b more in
      let (taken_cores, taken_devices) = take_binding-LeftBy refer.binding a c (taken ∙ ap ok e) in
      (a, refl, (ground arith, ground arith))

  -- What `Rest` leaves to a machine: a core is idle exactly when the machine offers it and no
  -- resource has it, and a disk is free exactly when the machine offers it and no resource has
  -- its device; its size, its kind and its path are those that the machine offers.
  pub rest-LeftBy :
      (r : Machine) (resources : ResourceRefList) (b : AvailableResource)
      → rest units r resources ≡ ok (some b)
      → (a : AvailableResource) × (available units r ≡ ok (some a)) × LeftBy resources a b
  unfolding rest
  rest-LeftBy r resources b h =
      let (o, offered, more) = >>=-eq-ok (available units r) (rest_from units resources) h in
      let (a, e, left) = rest_from-LeftBy resources o b more in (a, offered ∙ ap ok e, left)
