-- ===== src/Scheduler/Overflow.antt =====
-- resourceOverflow of controllers/testresourcerequest_controller.go: does a resource fit into what
-- is left of a machine, and which cores and disks does it get?
pub mod Laws
pub mod Disks
use naglfar.Prelude.{
  ℕ, Bool, true, false, List, [], ◌∷◌, Option, none, some, Str, Map, Outcome, ok, ◌>>=◌, insert,
  delete, length, ltb, if◌then◌else◌,
}
use mathlib.Core.Bool.{decide}
use naglfar.Prelude.Int.{ℤ, pos, ltℤ, leℤ}
use naglfar.Machine.{DiskKind, DiskResource, AvailableResource, DiskKind-discrete}
use naglfar.Machine.Cores.{pick_cpu_set}
use naglfar.Relationship.{DiskBinding, ResourceBinding}
use naglfar.Resource.{DiskSpec, TestResourceSpec}
use naglfar.Util.Bytes.{Units, unwrap}

unfoldable pub same_kind : DiskKind → DiskKind → Bool
same_kind DiskKind.unset DiskKind.unset = true
same_kind DiskKind.nvme DiskKind.nvme = true
same_kind DiskKind.other DiskKind.other = true
same_kind _ _ = false

abbrev pub disk_binding : DiskSpec → Str → DiskResource → DiskBinding
disk_binding disk device resource = record {
  kind = disk.kind;
  size = resource.size;
  device = device;
  origin_path = resource.mount_path;
  mount_path = disk.mount_path;
}

module _ (units : Units) where
  size_fits : DiskSpec → DiskResource → Outcome Bool
  size_fits disk resource = do
    wanted ← unwrap units disk.size
    offered ← unwrap units resource.size
    ok (leℤ wanted offered)

  -- disk.Kind == diskResource.Kind && disk.Size.Unwrap() <= diskResource.Size.Unwrap()
  unfoldable pub disk_fits : DiskSpec → DiskResource → Outcome Bool
  unfolding same_kind size_fits
  disk_fits disk resource =
      if same_kind disk.kind resource.kind then size_fits disk resource else ok false

  -- The inner loop, up to its `break`: the first device that fits.
  find_disk : DiskSpec → Map DiskResource → Outcome (Option (Str × DiskResource))
  unfolding disk_fits
  find_disk disk [] = ok none
  find_disk disk ((device, resource) ∷ disks) =
      let rest = find_disk disk disks in
      disk_fits disk resource >>= λ fits. if fits then ok (some (device, resource)) else rest

  -- The outer loop. It deletes the entry under the name of the disk that is asked for, from a map
  -- whose keys are devices.
  pub bind_disks : Map DiskSpec → Map DiskResource → Map DiskBinding → Outcome (Map DiskBinding)
  unfolding find_disk
  bind_disks [] disks bindings = ok bindings
  bind_disks ((name, disk) ∷ wanted) disks bindings = find_disk disk disks >>= elim [
    | none ↦ bind_disks wanted disks bindings
    | some (device, resource) ↦
        bind_disks wanted (delete name disks)
          (insert name (disk_binding disk device resource) bindings)
  ]

  memory_or_cores_overflow : AvailableResource → TestResourceSpec → ResourceBinding → Outcome Bool
  memory_or_cores_overflow rest new_resource binding = do
    left ← unwrap units rest.memory
    wanted ← unwrap units new_resource.memory
    ok (if ltℤ left wanted then true else ltℤ (pos (length binding.cpu_set)) new_resource.cores)

  -- The three tests of `overflow`, from left to right.
  overflows : AvailableResource → TestResourceSpec → ResourceBinding → Outcome Bool
  unfolding memory_or_cores_overflow
  overflows rest new_resource binding =
      if ltb (length binding.disks) (length new_resource.disks)
      then ok true
      else memory_or_cores_overflow rest new_resource binding

  fit : AvailableResource → TestResourceSpec → Outcome (Option ResourceBinding)
  unfolding bind_disks overflows
  fit rest new_resource = do
    disks ← bind_disks new_resource.disks rest.disks []
    let binding : ResourceBinding = record {
      memory = new_resource.memory;
      cpu_set = pick_cpu_set rest.idle_cpu_set new_resource.cores;
      disks = disks;
    }
    overflow ← overflows rest new_resource binding
    ok (if overflow then none else some binding)

  -- `none` is the overflow; a nil `rest` overflows.
  unfoldable pub resource_overflow :
      Option AvailableResource → TestResourceSpec → Outcome (Option ResourceBinding)
  unfolding fit
  resource_overflow none new_resource = ok none
  resource_overflow (some rest) new_resource = fit rest new_resource
