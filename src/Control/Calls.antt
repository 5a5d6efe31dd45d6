-- ===== src/Control/Calls.antt =====
-- The calls that the handlers make: of the Kubernetes API (reads, creations, updates, deletions) and
-- of Docker. `Env` has a reply for each, which may depend on all calls before.
pub mod Commits
use naglfar.Prelude.{Bool, List, Option, Str, Outcome, ok}
use naglfar.Prelude.Int.{ℤ}
use naglfar.Container.{Config, HostConfig, Container}
use naglfar.Control.Effects.{Eff, call}
use naglfar.Machine.{Machine, MachineInfo}
use naglfar.Relationship.{RelationshipStatus}
use naglfar.Request.{TestResourceRequest}
use naglfar.Resource.{TestResource}
use naglfar.Topology.{TestClusterTopology}
use naglfar.Workload.{TestWorkload}

-- types.NamespacedName
pub record NamespacedName : Type 0 where
  pub namespace : Str
  pub name : Str

-- What a remote command prints, and whether it failed.
pub record CommandResult : Type 0 where
  pub stdout : Str
  pub stderr : Str
  pub failed : Bool

pub data Event : Type 0 where
  read_relationship : Event
  read_machine read_resource read_request : NamespacedName → Event
  list_machines : Event
  list_resources : Str → Event
  list_owned_resources : Str → Str → Event
  set_controller : TestResourceRequest → TestResource → Event
  write_relationship : RelationshipStatus → Event
  write_machine write_machine_status : Machine → Event
  write_resource write_resource_status : TestResource → Event
  create_resource delete_resource : TestResource → Event
  write_request write_request_status : TestResourceRequest → Event
  connect : Machine → Event
  read_topology read_workload : NamespacedName → Event
  write_topology write_topology_status : TestClusterTopology → Event
  write_workload write_workload_status : TestWorkload → Event
  ssh_connect : Str → ℤ → Event
  run_command : Str → Event
  copy_file upload_config : Str → Str → Str → Event
  delete_config : Str → Str → Event
  image_inspect image_pull : Str → Event
  container_inspect container_start container_wait container_logs container_remove : Str → Event
  container_create : Str → Config → HostConfig → Event
  network_connect : Str → Str → Event

-- The history of calls, the newest first.
abbrev pub Log : Type 0
Log = List Event

-- A file is copied to a host (address, path, content); the configuration of a proxy is posted to the
-- daemon of a machine (address, file name, content), or taken from it. These replies are `post`.
-- An error of a call is `err not_found` where the code would recognise it as such. `read_info` is
-- json.Unmarshal of the output of the stat container (`none` is a nil pointer), whose error the code
-- only logs; `connect` is docker.NewClient.
pub record Env : Type 0 where
  pub relationship : Log → Outcome RelationshipStatus
  pub machine : Log → NamespacedName → Outcome Machine
  pub resource : Log → NamespacedName → Outcome TestResource
  pub request : Log → NamespacedName → Outcome TestResourceRequest
  pub machines : Log → Outcome (List Machine)
  pub resources : Log → Str → Outcome (List TestResource)
  pub owned_resources : Log → Str → Str → Outcome (List TestResource)
  pub controller : Log → TestResourceRequest → TestResource → Outcome TestResource
  pub topology : Log → NamespacedName → Outcome TestClusterTopology
  pub workload : Log → NamespacedName → Outcome TestWorkload
  pub ssh : Log → Str → ℤ → Outcome (Unit {0})
  pub command : Log → Str → Outcome CommandResult
  pub post : Log → Event → Outcome (Unit {0})
  pub write : Log → Event → Outcome (Unit {0})
  pub new_client : Log → Machine → Outcome (Unit {0})
  pub image : Log → Str → Outcome (Unit {0})
  pub pull : Log → Str → Outcome (Unit {0})
  pub container : Log → Str → Outcome Container
  pub create_container : Log → Str → Config → HostConfig → Outcome (Unit {0})
  pub start_container : Log → Str → Outcome (Unit {0})
  pub wait_container : Log → Str → Outcome ℤ
  pub logs : Log → Str → Outcome Str
  pub remove_container : Log → Str → Outcome (Unit {0})
  pub connect_network : Log → Str → Str → Outcome (Unit {0})
  pub read_info : Str → Option MachineInfo
  pub os_stat_script : Str

abbrev pub Prog : Type 0 → Type 0
Prog = Eff Env Event

-- What is fixed for a run.
abbrev pub ask : {A : Type 0} → (Env → A) → Prog A
ask f env log = (ok (f env), log)

abbrev pub get_relationship_status : Prog RelationshipStatus
get_relationship_status = call read_relationship (λ env. env.relationship)

abbrev pub get_machine : NamespacedName → Prog Machine
get_machine name = call (read_machine name) (λ env log. env.machine log name)

abbrev pub get_resource : NamespacedName → Prog TestResource
get_resource name = call (read_resource name) (λ env log. env.resource log name)

abbrev pub get_request : NamespacedName → Prog TestResourceRequest
get_request name = call (read_request name) (λ env log. env.request log name)

abbrev pub get_topology : NamespacedName → Prog TestClusterTopology
get_topology name = call (read_topology name) (λ env log. env.topology log name)

abbrev pub get_workload : NamespacedName → Prog TestWorkload
get_workload name = call (read_workload name) (λ env log. env.workload log name)

abbrev pub get_machine_list : Prog (List Machine)
get_machine_list = call list_machines (λ env. env.machines)

-- All resources of a namespace, and those that the named request owns.
abbrev pub get_resource_list : Str → Prog (List TestResource)
get_resource_list namespace =
    call (list_resources namespace) (λ env log. env.resources log namespace)

abbrev pub get_owned_list : Str → Str → Prog (List TestResource)
get_owned_list namespace name =
    call (list_owned_resources namespace name) (λ env log. env.owned_resources log namespace name)

-- A write of the API: the event says what is written.
abbrev pub commit : Event → Prog (Unit {0})
commit event = call event (λ env log. env.write log event)

-- pkg/ssh: the connection, and one command on it.
abbrev pub connect_ssh : Str → ℤ → Prog (Unit {0})
connect_ssh ip port = call (ssh_connect ip port) (λ env log. env.ssh log ip port)

abbrev pub remote : Str → Prog CommandResult
remote cmd = call (run_command cmd) (λ env log. env.command log cmd)

abbrev pub send : Event → Prog (Unit {0})
send event = call event (λ env log. env.post log event)

abbrev pub inspect : Str → Prog Container
inspect name = call (container_inspect name) (λ env log. env.container log name)

abbrev pub remove : Str → Prog (Unit {0})
remove name = call (container_remove name) (λ env log. env.remove_container log name)

abbrev pub create : Str → Config × HostConfig → Prog (Unit {0})
create name (config, host_config) =
    call (container_create name config host_config)
      (λ env log. env.create_container log name config host_config)

abbrev pub start : Str → Prog (Unit {0})
start name = call (container_start name) (λ env log. env.start_container log name)

abbrev pub wait : Str → Prog ℤ
wait name = call (container_wait name) (λ env log. env.wait_container log name)
