-- ===== src/Examples/Machines.antt =====
-- Cores, keys and what a machine has left, on concrete values.
use naglfar.Prelude.{
  not, ◌&&◌, [], ◌∷◌, some, codes, ok, lookup, insert, delete, str_eq, ◌≡◌, refl, arith,
}
use naglfar.Prelude.Int.{int64}
use naglfar.Machine.{AvailableResource, DiskKind}
use naglfar.Machine.Cores.{print_nat, contains, make_cpu_set, delete_cpu_set}
use naglfar.Machine.Cores.Laws.{contains-delete_cpu_set}
use naglfar.Machine.Cores.Sorted.{IsIncreasing, delete_cpu_set-IsIncreasing}
use naglfar.Machine.Rest.{available, rest}
use naglfar.Machine.Rest.Idle.{LeftBy, rest-LeftBy}
use naglfar.Util.{strings_contains}
use naglfar.Util.Atoi.{atoi}
use naglfar.Util.Bytes.{sub, unwrap}
use naglfar.Ref.{Ref, key, parse_key, create_ref}
use naglfar.Ref.Keys.{IsPlain, parse_key-key, key-injective}
use naglfar.Relationship.{ResourceRefList}
use naglfar.Examples.Data.{node, db, decimal}

contains-delete_cpu_set_example :
    contains 2 (delete_cpu_set (0 ∷ 1 ∷ 2 ∷ []) (0 ∷ []))
    ≡ (not (contains 2 (0 ∷ [])) && contains 2 (0 ∷ 1 ∷ 2 ∷ []))
contains-delete_cpu_set_example = contains-delete_cpu_set 2 (0 ∷ 1 ∷ 2 ∷ []) (0 ∷ [])

delete_cpu_set-IsIncreasing_example : IsIncreasing (delete_cpu_set (3 ∷ 1 ∷ 2 ∷ []) (1 ∷ []))
delete_cpu_set-IsIncreasing_example = delete_cpu_set-IsIncreasing (3 ∷ 1 ∷ 2 ∷ []) (1 ∷ [])

abbrev db_ref : Ref
db_ref = record { namespace = codes "default"; name = codes "db"; uid = codes "r1" }

db_ref-IsPlain : IsPlain db_ref
db_ref-IsPlain = (ground arith, ground arith, ground arith)

parse_key-key_example : parse_key (key db_ref) ≡ ok db_ref
parse_key-key_example = parse_key-key db_ref db_ref-IsPlain

key-injective_example : db_ref ≡ create_ref db.meta
key-injective_example =
    key-injective db_ref (create_ref db.meta) db_ref-IsPlain (unfold create_ref in db_ref-IsPlain)
      (unfold create_ref in refl)

-- One resource, on core 1 and the only disk.
abbrev bound : ResourceRefList
bound =
    record {
      ref = db_ref;
      binding = record {
        memory = codes "2";
        cpu_set = 1 ∷ [];
        disks =
            (
              codes "disk1",
              record {
                kind = DiskKind.nvme;
                size = codes "8";
                device = codes "/dev/nvme0n1";
                origin_path = codes "/data";
                mount_path = codes "/var";
              },
            )
            ∷ [];
      };
    }
    ∷ []

abbrev left : AvailableResource
left = record { memory = codes "6"; idle_cpu_set = 2 ∷ 3 ∷ []; disks = [] }

rest_run : rest decimal node bound ≡ ok (some left)
unfolding rest available sub unwrap strings_contains str_eq lookup insert print_nat delete_cpu_set
    delete int64 make_cpu_set atoi
rest_run = refl

rest-LeftBy_example :
    (a : AvailableResource) × (available decimal node ≡ ok (some a))
    × LeftBy decimal 1 (codes "/dev/nvme0n1") bound a left
rest-LeftBy_example = rest-LeftBy decimal 1 (codes "/dev/nvme0n1") node bound left rest_run
