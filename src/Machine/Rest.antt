-- ===== src/Machine/Rest.antt =====
-- Available and Rest of api/v1/machine_types.go: what a machine offers, and what is left of it
-- once resources are bound.
pub mod Idle
use mathlib.Core.List.{reverse}
use naglfar.Prelude.{
  ℕ, Bool, true, false, List, [], ◌∷◌, Option, none, some, Str, str_eq, codes, Map, Outcome, ok,
  panic, ◌>>=◌, deref, has_key, insert, delete, ◌==◌, if◌then◌else◌,
}
use naglfar.Machine.{
  Machine, StorageDevice, DiskResource, DiskKind, AvailableResource, ReserveResources, MachineInfo,
}
use naglfar.Machine.Cores.{make_cpu_set, delete_cpu_set}
use naglfar.Relationship.{ResourceRef, ResourceRefList, ResourceBinding, DiskBinding}
use naglfar.Util.{strings_contains}
use naglfar.Util.Bytes.{Units, BytesSize, sub}

drop_slashes : Str → Str
drop_slashes [] = []
drop_slashes (c ∷ s) = let rest = drop_slashes s in if c == b'/' then rest else c ∷ s

-- The bytes in front of the first slash.
before_slash : Str → Str
before_slash [] = []
before_slash (c ∷ s) = let rest = before_slash s in if c == b'/' then [] else c ∷ rest

or_slash : Str → Str
or_slash [] = codes "/"
or_slash (c ∷ s) = c ∷ s

-- path.Base: the last element, without trailing slashes.
unfoldable pub base : Str → Str
unfolding drop_slashes before_slash or_slash
base [] = codes "."
base (c ∷ s) = or_slash (reverse (before_slash (drop_slashes (reverse (c ∷ s)))))

-- strings.HasPrefix
unfoldable pub has_prefix : Str → Str → Bool
has_prefix s [] = true
has_prefix [] (c ∷ prefix) = false
has_prefix (a ∷ s) (c ∷ prefix) = let rest = has_prefix s prefix in if a == c then rest else false

unfoldable pub kind_of_device : Str → DiskKind
kind_of_device device =
    if has_prefix (base device) (codes "nvme") then DiskKind.nvme else DiskKind.other

-- The disks of one binding leave the free ones; `none` if one of them is not free.
take_disks : Map DiskBinding → Map DiskResource → Option (Map DiskResource)
take_disks [] disks = some disks
take_disks ((name, binding) ∷ bindings) disks =
    let rest = take_disks bindings (delete binding.device disks) in
    if has_key binding.device disks then rest else none

with_disks : Option (Map DiskResource) → AvailableResource → Option AvailableResource
with_disks none rest = none
with_disks (some disks) rest = some (record rest { disks = disks })

module _ (units : Units) where
  -- The loop over the storage devices, which keeps the exclusive ones.
  available_disks : List Str → Map StorageDevice → Map DiskResource → Outcome (Map DiskResource)
  available_disks exclusive [] disks = ok disks
  available_disks exclusive ((device, disk) ∷ devices) disks =
      let skip = available_disks exclusive devices disks in
      let keep = λ (size : BytesSize). available_disks exclusive devices (
        insert device
          (record { size = size; kind = kind_of_device device; mount_path = disk.mount_point })
          disks) in
      if strings_contains exclusive device then sub units disk.total disk.used >>= keep else skip

  available_of : Machine → MachineInfo → Outcome (Option AvailableResource)
  unfolding available_disks
  available_of r info = do
    reserve ← deref r.spec.reserve
    memory ← sub units info.memory reserve.memory
    disks ← available_disks r.spec.exclusive_disks info.storage_devices []
    ok (
        some (record {
          memory = memory;
          idle_cpu_set = delete_cpu_set (make_cpu_set info.threads) (make_cpu_set reserve.cores);
          disks = disks;
        }))

  -- `none` is the nil that the code returns before the machine has reported.
  unfoldable pub available : Machine → Outcome (Option AvailableResource)
  unfolding available_of
  available r = elim r.status.info [ none ↦ ok none | some info ↦ available_of r info ]

  -- One round of the loop of `Rest`.
  take_binding : ResourceBinding → AvailableResource → Outcome (Option AvailableResource)
  unfolding take_disks with_disks
  take_binding binding rest = do
    memory ← sub units rest.memory binding.memory
    ok (
        with_disks (take_disks binding.disks rest.disks) (record rest {
          idle_cpu_set = delete_cpu_set rest.idle_cpu_set binding.cpu_set;
          memory = memory;
        }))

  rest_from : ResourceRefList → Option AvailableResource → Outcome (Option AvailableResource)
  unfolding take_binding
  rest_from resources none = ok none
  rest_from [] (some rest) = ok (some rest)
  rest_from (refer ∷ resources) (some rest) =
      take_binding refer.binding rest >>= rest_from resources

  unfoldable pub rest : Machine → ResourceRefList → Outcome (Option AvailableResource)
  unfolding rest_from
  rest r resources = available r >>= rest_from resources
