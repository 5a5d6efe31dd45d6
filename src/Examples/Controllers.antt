-- ===== src/Examples/Controllers.antt =====
-- Runs of the controllers on concrete replies.
use naglfar.Prelude.{
  Str, true, false, [], ◌∷◌, some, codes, ok, All, ◌≡◌, ◌⊎◌, if◌then◌else◌, refl, lookup, str_eq,
}
use naglfar.Prelude.Int.{pos}
use naglfar.Container.{Container, locker_label}
use naglfar.Control.Calls.{Env, Log}
use naglfar.Control.Docker.{make_client}
use naglfar.Control.Effects.{done}
use naglfar.Util.{strings_remove}
use naglfar.Ref.{Ref, ref_eq, key, create_ref}
use naglfar.Control.Machine.{
  machine_finalizer, reconcile_starting, reconcile_machine, reconcile_shutdown,
}
use naglfar.Control.Machine.Shutdown.{LetGo, Waits, reconcile_shutdown-cases}
use naglfar.Control.Machine.Transitions.{Follows, reconcile_machine-Follows}
use naglfar.Control.Relationship.{get_relationship}
use naglfar.Examples.Clusters.{topology, workload}
use naglfar.Examples.Data.{in_order, decimal, node, info_4, request, db, empty_relationship}
use naglfar.Machine.{Machine, MachineState}
use naglfar.Relationship.{RelationshipStatus, accepted, if_exist, entries, resources_of, discard}
use naglfar.Control.Exclusive.{WritesExclusive, ReadsExclusive}
use naglfar.Control.Request.{request_finalizer, forget_request, ready_machines}
use naglfar.Control.Request.Locks.{HasDistinctKeys, unless_owned, forget_request_lem}
use naglfar.Control.Request.Machines.{IsReadyEntry, ready_machines-IsReadyEntry}
use naglfar.Control.Resource.{resource_finalizer, reconcile_resource}
use naglfar.Control.Resource.Transitions.{Steps, reconcile_resource-Steps}
use naglfar.Control.System.{Item, handle, handle-WritesExclusive}
use naglfar.Examples.Requests.{placed_and_locked, empty-CoresAreExclusive}
use naglfar.Resource.{TestResource, ResourceState, ResourcePhase, no_container}

-- A container that runs, with the label of the machine.
abbrev pub running_container : Container
running_container = record {
  id = codes "c1";
  name = codes "c1";
  started_at = codes "2021-01-01T00:00:00Z";
  finished_at = codes "0001-01-01T00:00:00Z";
  restarting = false;
  running = true;
  exit_code = pos 0;
  labels = some (some ((locker_label, codes "u1") ∷ []));
  has_host_config = true;
  networks = [];
  ports = [];
}

-- Every call succeeds.
abbrev pub friendly : Env
friendly = record {
  relationship = λ log. ok empty_relationship;
  machine = λ log name. ok node;
  resource = λ log name. ok db;
  request = λ log name. ok request;
  machines = λ log. ok (node ∷ []);
  resources = λ log namespace. ok (db ∷ []);
  owned_resources = λ log namespace uid. ok (db ∷ []);
  controller = λ log owner resource. ok resource;
  topology = λ log name. ok topology;
  workload = λ log name. ok workload;
  ssh = λ log ip port. ok tt;
  command = λ log cmd. ok (record { stdout = []; stderr = []; failed = false });
  post = λ log event. ok tt;
  write = λ log event. ok tt;
  new_client = λ log machine. ok tt;
  image = λ log image. ok tt;
  pull = λ log image. ok tt;
  container = λ log name. ok running_container;
  create_container = λ log name config host_config. ok tt;
  start_container = λ log name. ok tt;
  wait_container = λ log name. ok (pos 0);
  logs = λ log name. ok [];
  remove_container = λ log name. ok tt;
  connect_network = λ log network name. ok tt;
  read_info = λ stdout. some info_4;
  os_stat_script = [];
}

abbrev starting_node : Machine
starting_node = record node { status = record node.status { state = MachineState.starting } }

reconcile_machine-Follows_example :
    All (Follows starting_node) (reconcile_machine decimal 3 starting_node friendly []).1
reconcile_machine-Follows_example = reconcile_machine-Follows decimal 3 starting_node friendly

abbrev last : Log
last = (reconcile_starting decimal 3 starting_node friendly []).1

abbrev leaving_node : Machine
leaving_node = record node {
  meta = record node.meta { deleting = true; finalizers = machine_finalizer ∷ [] };
  status = record node.status { state = MachineState.shutdown };
}

abbrev last_shutdown : Log
last_shutdown = (reconcile_shutdown leaving_node friendly []).1

shutdown_run : reconcile_shutdown leaving_node friendly [] ≡ (ok done, last_shutdown)
unfolding reconcile_shutdown make_client lookup str_eq resources_of entries get_relationship
    strings_remove discard key create_ref
shutdown_run = refl

reconcile_shutdown-cases_example :
    (relation : RelationshipStatus) × (read : Log) × (get_relationship friendly []
      ≡ (ok relation, read))
    × (Waits leaving_node relation done read last_shutdown
        ⊎ LetGo leaving_node relation last_shutdown)
reconcile_shutdown-cases_example =
    reconcile_shutdown-cases leaving_node friendly [] done last_shutdown shutdown_run

-- The request has its resource, which waits for a place.
abbrev owned_db : TestResource
owned_db = record db { meta = record db.meta { controller = some (codes "q1") } }

abbrev busy : Env
busy = record friendly {
  request = λ log name.
      ok (record request { meta = record request.meta { finalizers = request_finalizer ∷ [] } });
  resources = λ log namespace. ok (owned_db ∷ []);
}

busy-ReadsExclusive : ReadsExclusive busy
busy-ReadsExclusive log = empty-CoresAreExclusive

abbrev q : Item
q = Item.request (record { namespace = codes "default"; name = codes "q" })

handle-WritesExclusive_example : All WritesExclusive (handle decimal 3 in_order q busy []).1
handle-WritesExclusive_example =
    handle-WritesExclusive decimal 3 in_order q busy busy-ReadsExclusive

-- A resource whose container runs.
abbrev placed_db : TestResource
placed_db = record db {
  meta = record db.meta { finalizers = resource_finalizer ∷ [] };
  status = record db.status {
    state = ResourceState.uninitialized;
    phase = ResourcePhase.running;
    container = record no_container { image = codes "mysql" };
  };
}

reconcile_resource-Steps_example :
    All (Steps placed_db) (reconcile_resource decimal placed_db friendly []).1
reconcile_resource-Steps_example = reconcile_resource-Steps decimal placed_db friendly

abbrev self : Ref
self = record { namespace = codes "default"; name = codes "q"; uid = codes "q1" }

locks-HasDistinctKeys : HasDistinctKeys (entries placed_and_locked.machine_locks)
unfolding entries lookup
locks-HasDistinctKeys = (refl, tt)

forget_request_lem_example :
    ((machine : Str)
      → lookup machine (entries (forget_request self placed_and_locked).machine_locks)
        ≡ unless_owned self (lookup machine (entries placed_and_locked.machine_locks)))
    × ((r : Ref)
        → if_exist (accepted (forget_request self placed_and_locked)) r
          ≡ (if ref_eq r self then false else if_exist (accepted placed_and_locked) r))
forget_request_lem_example = forget_request_lem self placed_and_locked locks-HasDistinctKeys

ready_machines-IsReadyEntry_example :
    All IsReadyEntry (ready_machines (node ∷ starting_node ∷ []) [])
ready_machines-IsReadyEntry_example = ready_machines-IsReadyEntry (node ∷ starting_node ∷ []) [] tt
