-- ===== src/Control/Topology/Nodes.antt =====
-- controllers/testclustertopology_controller.go: the nodes of a cluster get their containers.
use naglfar.Prelude.{
  zero, Bool, true, false, ◌||◌, List, [], ◌∷◌, ◌++◌, Option, none, some, Str, codes, str_eq, Map,
  lookup, insert, Outcome, ok, err, panic, unfinished, Error, not_found, failure, if◌then◌else◌,
}
use naglfar.Prelude.Int.{ℤ, pos}
use naglfar.Control.Calls.{
  Prog, get_relationship_status, get_machine, commit, send, write_resource_status, upload_config,
}
use naglfar.Control.Effects.{◌>>=◌, ◌>>◌, pure, lift, try}
use naglfar.Control.Resource.Cleaning.{host_of}
use naglfar.Control.Topology.Ports.{Ports, set_of, index_resource_exposed_ports}
use naglfar.Control.Topology.Proxy.{generate_haproxy_config, generate_file_prefix}
use naglfar.Machine.{Machine}
use naglfar.Ref.{create_ref, key}
use naglfar.Relationship.{RelationshipStatus, MachineRef, entries}
use naglfar.Resource.{TestResource, ResourceState, ResourceContainerSpec}
use naglfar.Tiup.Specification.{SpecLib}
use naglfar.Topology.Components.{HaProxy, elems}
use naglfar.Topology.{TestClusterTopology, TiDbCluster, FlinkCluster, TaskManagerSpec}
use naglfar.Util.Decimal.{print_int}

-- What initResource answers: requeue, no requeue, or an error with or without requeue.
pub data Readiness : Type 0 where
  waits ready : Readiness
  waits_with refused : Error → Readiness

unfoldable pub as_readiness : Outcome Bool → Prog Readiness
as_readiness (ok true) = pure waits
as_readiness (ok false) = pure ready
as_readiness (err e) = pure (refused e)
as_readiness panic = lift panic
as_readiness unfinished = lift unfinished

in_finish : Str → Error
in_finish name = failure (codes "resource node " ++ (name ++ codes " is in the `finish` state"))

wrong_image : Str → Str → Error
wrong_image name image =
    failure (codes "resource node " ++ (name ++ (codes " uses an incorrect image: " ++ image)))

module _ (image : Str) (prepared : TestResource → TestResource) where
  -- An uninitialized node without an image gets its container; the update's error ends the loop.
  unfoldable pub init_uninitialized : TestResource → Prog Bool
  init_uninitialized resource =
      if str_eq resource.status.container.image []
      then (do commit (write_resource_status (prepared resource)); pure true)
      else pure true

  unfoldable pub init_ready : TestResource → Prog Bool
  unfolding wrong_image
  init_ready resource =
      if str_eq resource.status.container.image image
      then pure false
      else lift (err (wrong_image resource.meta.name resource.status.container.image))

  unfoldable pub init_in : ResourceState → TestResource → Prog Bool
  unfolding init_uninitialized init_ready in_finish
  init_in ResourceState.uninitialized resource = init_uninitialized resource
  init_in ResourceState.ready resource = init_ready resource
  init_in ResourceState.pending resource = lift (err (in_finish resource.meta.name))
  init_in ResourceState.finish resource = lift (err (in_finish resource.meta.name))
  init_in ResourceState.destroy resource = lift (err (in_finish resource.meta.name))
  init_in _ resource = pure false

  -- Whether some node was uninitialized.
  unfoldable pub init_each : List TestResource → Prog Bool
  unfolding init_in
  init_each [] = pure false
  init_each (resource ∷ resources) = do
    first ← init_in resource.status.state resource
    rest ← init_each resources
    pure (first || rest)

abbrev with_container : TestResource → ResourceContainerSpec → TestResource
with_container resource container = record resource {
  status = record resource.status { container = container };
}

abbrev base_image : Str
base_image = codes "docker.io/pingcapqe/base-image:latest"

unfoldable pub for_tiup : List Str → Ports → TestResource → TestResource
unfolding set_of
for_tiup caps ports resource = with_container resource (record resource.status.container {
  image = base_image;
  cap_add = caps;
  binds = resource.status.container.binds ++ (codes "/sys/fs/cgroup:/sys/fs/cgroup:ro" ∷ []);
  exposed_ports = set_of (lookup resource.meta.name ports);
})

wrapped : Outcome Ports → Outcome Ports
wrapped (err e) = err (failure (codes "index exposed ports failed"))
wrapped o = o

-- The address of the resource's machine. A machine that cannot be read for another reason than that
-- it is missing is the zero value, whose address is empty; the relationship is zero in every case of
-- an error.
unfoldable pub read_relation : Outcome RelationshipStatus → Prog (Option RelationshipStatus)
read_relation (ok rel) = pure (some rel)
read_relation (err e) = pure none
read_relation panic = lift panic
read_relation unfinished = lift unfinished

machine_of : Str → Option RelationshipStatus → Option MachineRef
machine_of k none = none
machine_of k (some rel) = lookup k (entries rel.resource_to_machine)

unfoldable pub host_of_machine : Outcome Machine → Prog Str
host_of_machine (ok machine) = pure machine.spec.host
host_of_machine (err not_found) = lift (err not_found)
host_of_machine (err e) = pure []
host_of_machine panic = lift panic
host_of_machine unfinished = lift unfinished

unfoldable pub get_resource_machine : TestResource → Prog Str
unfolding read_relation machine_of host_of_machine
get_resource_machine resource = do
  found ← try get_relationship_status
  relation ← read_relation found
  machine ← try (get_machine (host_of (machine_of (key (create_ref resource.meta)) relation)))
  host_of_machine machine

unfoldable pub named : Bool → Str → List TestResource → List TestResource
named wanted host [] = []
named wanted host (r ∷ rs) =
    let rest = named wanted host rs in
    if str_eq r.meta.name host
    then (if wanted then r ∷ rest else rest)
    else (if wanted then rest else r ∷ rest)

-- The addresses of the nodes, if all are ready.
with_address : TestResource → Option (Map Str) → Option (Map Str)
with_address r none = none
with_address r (some ips) = some (insert r.meta.name r.status.container.cluster_ip ips)

ready_addresses : List TestResource → Option (Map Str)
unfolding with_address
ready_addresses [] = some []
ready_addresses (r ∷ rs) =
    let rest = with_address r (ready_addresses rs) in
    elim r.status.state [ ResourceState.ready ↦ rest | _ ↦ none ]

module _ (ct : TestClusterTopology) (proxy : HaProxy) where
  abbrev file_name : Str
  file_name = generate_file_prefix ct ++ codes "haproxy.cfg"

  unfoldable pub for_proxy : TestResource → TestResource
  for_proxy resource = with_container resource (record resource.status.container {
    image = codes "hub.pingcap.net/qa/haproxy:" ++ proxy.version;
    exposed_ports = (print_int proxy.port ++ codes "/tcp") ∷ [];
    binds =
        (codes "/var/naglfar/lib/"
          ++ (file_name ++ (codes ":/usr/local/etc/haproxy/" ++ file_name)))
        ∷ [];
    mounts = [];
    command =
        codes "haproxy"
        ∷ codes "-W"
        ∷ codes "-db"
        ∷ codes "-f"
        ∷ (codes "/usr/local/etc/haproxy/" ++ file_name)
        ∷ [];
  })

  -- The inner `requeue` is another variable than the outer one, which is answered.
  unfoldable pub proxy_started : Bool → Outcome Bool → Prog Readiness
  unfolding as_readiness
  proxy_started requeue (ok inner) = as_readiness (ok requeue)
  proxy_started requeue o = as_readiness o

  unfoldable pub proxy_written : Bool → List TestResource → Outcome (Unit {0}) → Prog Readiness
  unfolding for_proxy proxy_started init_each
  proxy_written requeue proxies (err e) = pure (waits_with e)
  proxy_written requeue proxies (ok _) = do
    o ← try (init_each (codes "hub.pingcap.net/qa/haproxy:") for_proxy proxies)
    proxy_started requeue o
  proxy_written requeue proxies panic = lift panic
  proxy_written requeue proxies unfinished = lift unfinished

  unfoldable pub configured : Bool → List TestResource → Str → Option Str → Prog Readiness
  unfolding proxy_written
  configured requeue proxies machine none = pure waits
  configured requeue proxies machine (some config) = do
    o ← try (send (upload_config machine file_name config))
    proxy_written requeue proxies o

  unfoldable pub addressed :
      Bool → List TestResource → TiDbCluster → Str → Option (Map Str) → Prog Readiness
  unfolding configured
  addressed requeue proxies tidb machine none = pure waits
  addressed requeue proxies tidb machine (some ips) =
      configured requeue proxies machine (generate_haproxy_config proxy (elems tidb.tidb) ips)

  -- Any error of the machine is a requeue without it.
  unfoldable pub on_machine :
      Bool → List TestResource → List TestResource → TiDbCluster → Outcome Str → Prog Readiness
  unfolding addressed ready_addresses
  on_machine requeue proxies others tidb (ok machine) =
      addressed requeue proxies tidb machine (ready_addresses others)
  on_machine requeue proxies others tidb (err e) = pure waits
  on_machine requeue proxies others tidb panic = lift panic
  on_machine requeue proxies others tidb unfinished = lift unfinished

  -- haProxyResources[0] panics when no resource has the host of the proxy.
  unfoldable pub init_proxy :
      TiDbCluster → List TestResource → List TestResource → Bool → Prog Readiness
  unfolding on_machine get_resource_machine
  init_proxy tidb [] others requeue = lift panic
  init_proxy tidb (first ∷ proxies) others requeue = do
    machine ← try (get_resource_machine first)
    on_machine requeue (first ∷ proxies) others tidb machine

unfoldable pub unless_refused : (Bool → Prog Readiness) → Outcome Bool → Prog Readiness
unfolding as_readiness
unless_refused next (ok requeue) = next requeue
unless_refused next o = as_readiness o

module _ (lib : SpecLib) (ct : TestClusterTopology) (resources : List TestResource) where
  unfoldable pub tidb_caps : List Str
  tidb_caps = codes "SYS_ADMIN" ∷ codes "SYS_PTRACE" ∷ codes "NET_ADMIN" ∷ []

  unfoldable pub init_tiup : List Str → List TestResource → Prog Bool
  unfolding init_each for_tiup wrapped
  init_tiup caps nodes = do
    ports ← lift (wrapped (index_resource_exposed_ports lib ct.spec resources))
    init_each base_image (for_tiup caps ports) nodes

  unfoldable pub init_tidb_resources : TiDbCluster → Prog Readiness
  unfolding init_tiup tidb_caps named unless_refused init_proxy
  init_tidb_resources tidb = elim tidb.ha_proxy [
    | none ↦ do o ← try (init_tiup tidb_caps resources); as_readiness o
    | some proxy ↦ do
      o ← try (init_tiup tidb_caps (named false proxy.host resources))
      unless_refused
          (init_proxy ct proxy tidb (named true proxy.host resources)
            (named false proxy.host resources))
          o
  ]

  unfoldable pub init_dm_resources : Prog Readiness
  unfolding init_tiup
  init_dm_resources = do o ← try (init_tiup (codes "SYS_ADMIN" ∷ []) resources); as_readiness o

  web_port_line : ℤ → Str
  web_port_line (pos zero) = []
  web_port_line port = (10 ∷ codes "jobmanager.web.port: ") ++ print_int port

  flink_properties : Str → Str
  flink_properties config =
      codes "FLINK_PROPERTIES=" ++ (codes "jobmanager.rpc.address: jobmanager" ++ (10 ∷ config))

  -- The first task manager of that host.
  task_envs : Str → List TaskManagerSpec → List Str → List Str
  unfolding flink_properties
  task_envs host [] old = old
  task_envs host (t ∷ ts) old =
      let rest = task_envs host ts old in
      if str_eq host t.host then flink_properties t.config ∷ [] else rest

  unfoldable pub for_flink : FlinkCluster → Str → Ports → TestResource → TestResource
  unfolding flink_properties web_port_line task_envs set_of
  for_flink flink image ports resource =
      if str_eq resource.meta.name flink.job_manager.host
      then record resource {
        status = record resource.status {
          host_name = codes "jobmanager";
          container = record resource.status.container {
            image = image;
            command = codes "jobmanager" ∷ [];
            envs =
                flink_properties
                  (flink.job_manager.config ++ web_port_line flink.job_manager.web_port)
                ∷ [];
            exposed_ports = set_of (lookup resource.meta.name ports);
          };
        };
      }
      else with_container resource (record resource.status.container {
        image = image;
        command = codes "taskmanager" ∷ [];
        envs =
            task_envs resource.meta.name (elems flink.task_manager) resource.status.container.envs;
        exposed_ports = set_of (lookup resource.meta.name ports);
      })

  unfoldable pub init_flink : FlinkCluster → Prog Bool
  unfolding wrapped init_each for_flink
  init_flink flink = do
    ports ← lift (wrapped (index_resource_exposed_ports lib ct.spec resources))
    init_each (codes "docker.io/library/flink:" ++ flink.version)
        (for_flink flink (codes "docker.io/library/flink:" ++ flink.version) ports) resources

  unfoldable pub init_flink_resources : FlinkCluster → Prog Readiness
  unfolding init_flink
  init_flink_resources flink = do o ← try (init_flink flink); as_readiness o
