-- ===== src/Examples/Data.antt =====
-- A machine with four threads and one disk, and a request for one resource on it.
use naglfar.Prelude.{true, false, [], ◌∷◌, none, some, Str, codes, Map}
use naglfar.Prelude.Int.{pos, pos_part}
use naglfar.Machine.{Machine, MachineInfo, MachineState, DiskKind}
use naglfar.Machine.Cores.{print_nat}
use naglfar.Ref.{ObjectMeta}
use naglfar.Relationship.{RelationshipStatus}
use naglfar.Request.{TestResourceRequest, RequestState, no_status}
use naglfar.Resource.{TestResource, TestResourceSpec, DiskSpec}
use naglfar.Scheduler.Select.{Choices}
use naglfar.Util.Atoi.{atoi}
use naglfar.Util.Bytes.{Units}

-- Sizes in plain digits.
abbrev pub decimal : Units
decimal = record {
  ram_in_bytes = λ s. some (atoi s).0;
  bytes_size = λ size. print_nat (pos_part size);
}

abbrev pub meta_named : Str → Str → ObjectMeta
meta_named name uid = record {
  namespace = codes "default";
  name = name;
  uid = uid;
  finalizers = [];
  deleting = false;
  controller = none;
}

abbrev pub info_4 : MachineInfo
info_4 = record {
  architecture = codes "x86_64";
  threads = pos 4;
  memory = codes "9";
  storage_devices =
      (
        codes "/dev/nvme0n1",
        record {
          filesystem = codes "ext4";
          total = codes "8";
          used = codes "0";
          mount_point = codes "/data";
        },
      )
      ∷ [];
}

abbrev pub node : Machine
node = record {
  meta = meta_named (codes "n1") (codes "u1");
  spec = record {
    host = codes "10.0.0.1";
    docker_port = pos 2376;
    docker_version = [];
    docker_tls = false;
    reserve = some (record { cores = pos 1; memory = codes "1" });
    exclusive_disks = codes "/dev/nvme0n1" ∷ [];
  };
  status = record {
    state = MachineState.ready;
    chaos_port = pos 0;
    info = some info_4;
    upload_port = pos 0;
  };
}

abbrev pub machines : Map Machine
machines = (codes "n1", node) ∷ []

abbrev pub data_disk : DiskSpec
data_disk = record { mount_path = codes "/var"; kind = DiskKind.nvme; size = codes "5" }

abbrev pub small : TestResourceSpec
small = record {
  memory = codes "2";
  cores = pos 2;
  machine_selector = [];
  disks = (codes "disk1", data_disk) ∷ [];
  machine = codes "m1";
}

abbrev pub db : TestResource
db = record { meta = meta_named (codes "db") (codes "r1"); spec = small; status = no_status }

-- An exclusive request for one machine, whatever machine that is, with one resource.
abbrev pub request : TestResourceRequest
request = record {
  meta = meta_named (codes "q") (codes "q1");
  spec = record {
    machines = record { name = codes "m1"; test_machine_resource = []; exclusive = true } ∷ [];
    items = record { name = codes "db"; spec = small } ∷ [];
  };
  state = RequestState.pending;
}

abbrev pub resources : Map TestResource
resources = (codes "db", db) ∷ []

-- Every map made, nothing bound.
abbrev pub empty_relationship : RelationshipStatus
empty_relationship = record {
  machine_to_resources = some [];
  resource_to_machine = some [];
  accepted_requests = some [];
  machine_locks = some [];
}

-- The lists in their own order.
abbrev pub in_order : Choices
in_order = record { range_groups = λ groups. groups; shuffle = λ ms. ms }
