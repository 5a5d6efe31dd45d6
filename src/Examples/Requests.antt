-- ===== src/Examples/Requests.antt =====
-- Requests on the concrete machine.
use naglfar.Prelude.{
  [], ◌∷◌, some, codes, ok, ◌≡◌, ◌⊎◌, refl, arith, lookup, insert, delete, str_eq,
}
use mathlib.Core.List.{Perm}
use naglfar.Prelude.Int.{int64}
use naglfar.Machine.{Machine, DiskResource, AvailableResource, DiskKind}
use naglfar.Machine.Rest.{rest, available, kind_of_device, base, has_prefix}
use naglfar.Machine.Cores.{print_nat, delete_cpu_set, make_cpu_set, pick_cpu_set}
use naglfar.Util.{strings_contains}
use naglfar.Util.Atoi.{atoi}
use naglfar.Util.Bytes.{sub, unwrap}
use naglfar.Ref.{create_ref, key}
use naglfar.Relationship.{
  RelationshipStatus, ResourceBinding, resources_of, clone, entries, assign, accepted,
}
use naglfar.Scheduler.Bind.{key_of, try_bind_resource}
use naglfar.Scheduler.Bind.Cores.{owners}
use naglfar.Scheduler.Overflow.{same_kind, resource_overflow}
use naglfar.Scheduler.Select.{
  sort_slice, group_co_located_items, sort_machines, select_non_lock_machines, filter_machines,
}
use naglfar.Scheduler.Select.Members.{MovesOnly}
use naglfar.Scheduler.Select.Order.{IsRanked, sort_slice-IsRanked}
use naglfar.Scheduler.TryRequest.{try_request}
use naglfar.Scheduler.TryRequest.Cores.{CoresAreExclusive, try_request-CoresAreExclusive}
use naglfar.Scheduler.TryRequest.Locks.{IsUnlocked, try_request_spares_locked}
use naglfar.Examples.Data.{
  decimal, node, machines, db, request, resources, empty_relationship, in_order,
}

abbrev offered : AvailableResource
offered = record {
  memory = codes "8";
  idle_cpu_set = 1 ∷ 2 ∷ 3 ∷ [];
  disks =
      (
        codes "/dev/nvme0n1",
        record { size = codes "8"; kind = DiskKind.nvme; mount_path = codes "/data" },
      )
      ∷ [];
}

abbrev small_binding : ResourceBinding
small_binding = record {
  memory = codes "2";
  cpu_set = 1 ∷ 2 ∷ [];
  disks =
      (
        codes "disk1",
        record {
          kind = DiskKind.nvme;
          size = codes "8";
          device = codes "/dev/nvme0n1";
          origin_path = codes "/data";
          mount_path = codes "/var";
        },
      )
      ∷ [];
}

offered_run : rest decimal node [] ≡ ok (some offered)
unfolding rest available sub unwrap strings_contains str_eq print_nat delete_cpu_set insert int64
    make_cpu_set kind_of_device atoi has_prefix base
offered_run = refl

abbrev placed : RelationshipStatus
placed = record empty_relationship {
  machine_to_resources = some (
      (codes "default/n1/u1", record { ref = create_ref db.meta; binding = small_binding } ∷ [])
      ∷ []);
  resource_to_machine = some (
      (codes "default/db/r1", record { ref = create_ref node.meta; binding = small_binding }) ∷ []);
}

abbrev pub placed_and_locked : RelationshipStatus
placed_and_locked = record placed {
  machine_locks = some ((codes "n1", create_ref request.meta) ∷ []);
  accepted_requests = some (create_ref request.meta ∷ []);
}

request_run :
    try_request decimal in_order empty_relationship request resources machines
    ≡ ok (some placed_and_locked)
unfolding rest available sub unwrap strings_contains str_eq print_nat delete_cpu_set insert int64
    make_cpu_set kind_of_device atoi has_prefix base resource_overflow pick_cpu_set same_kind clone
    resources_of lookup entries delete key create_ref assign try_bind_resource try_request
    group_co_located_items sort_machines select_non_lock_machines filter_machines accepted
request_run = refl

pub empty-CoresAreExclusive : CoresAreExclusive empty_relationship
unfolding owners resources_of lookup entries
empty-CoresAreExclusive machine x = omega arith

try_request-CoresAreExclusive_example : CoresAreExclusive placed_and_locked
try_request-CoresAreExclusive_example =
    try_request-CoresAreExclusive decimal in_order empty_relationship request resources machines
      placed_and_locked request_run empty-CoresAreExclusive

in_order-MovesOnly : MovesOnly in_order
in_order-MovesOnly ms m i = i

try_request_spares_locked_example :
    (resources_of placed_and_locked (codes "default/n1/u1")
      ≡ resources_of empty_relationship (codes "default/n1/u1"))
    ⊎ ((machine : Machine) × (key_of machine.meta ≡ codes "default/n1/u1")
        × IsUnlocked empty_relationship machine)
try_request_spares_locked_example =
    try_request_spares_locked decimal in_order in_order-MovesOnly empty_relationship request
      resources machines (refl, tt) placed_and_locked (codes "default/n1/u1") request_run

sort_slice-IsRanked_example :
    Perm (sort_slice machines empty_relationship (node ∷ [])) (node ∷ [])
    × IsRanked machines empty_relationship (sort_slice machines empty_relationship (node ∷ []))
sort_slice-IsRanked_example = sort_slice-IsRanked machines empty_relationship (node ∷ [])

abbrev device : DiskResource
device = record { size = codes "8"; kind = DiskKind.nvme; mount_path = codes "/data" }
