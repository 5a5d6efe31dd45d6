-- ===== src/Tiup/Build.antt =====
-- pkg/tiup/cluster/deploy.go: BuildSpecification.
use naglfar.Prelude.{
  ℕ, zero, suc, Bool, true, false, ◌&&◌, List, [], ◌∷◌, ◌++◌, Option, none, some, Str, codes, Map,
  lookup, insert, Outcome, ok, err, panic, failure, ◌>>=◌, ◌==◌, if◌then◌else◌,
}
use naglfar.Prelude.Int.{pos}
use naglfar.Resource.{TestResource, TestResourceStatus}
use naglfar.Tiup.Specification.{
  Config, GlobalOptions, TiDbServer, TiKvServer, PdServer, PumpServer, Drainer, Prometheus, Grafana,
  Alertmanager, CdcServer, TiFlashServer, Specification, SpecLib,
}
use naglfar.Topology.Components.{
  TiDbSpec, TiKvSpec, PdSpec, PumpSpec, DrainerSpec, PrometheusSpec, GrafanaSpec, AlertManagerSpec,
  CdcSpec, TiFlashSpec, elems,
}
use naglfar.Topology.{Global, ServerConfigs, TiDbCluster}

has_prefix : Str → Str → Bool
has_prefix [] s = true
has_prefix (a ∷ p) [] = false
has_prefix (a ∷ p) (b ∷ s) = a == b && has_prefix p s

drop : ℕ → Str → Str
drop zero s = s
drop (suc n) [] = []
drop (suc n) (c ∷ s) = drop n s

-- The text behind the first "://", if there is one, and the text before it.
after_scheme : Str → Option Str
unfolding has_prefix drop
after_scheme [] = none
after_scheme (c ∷ s) =
    let rest = after_scheme s in if has_prefix (codes "://") (c ∷ s) then some (drop 2 s) else rest

before_scheme : Str → Str
unfolding has_prefix
before_scheme [] = []
before_scheme (c ∷ s) =
    let rest = before_scheme s in if has_prefix (codes "://") (c ∷ s) then [] else c ∷ rest

-- strings.Split(to, "://")[1], which panics without the separator.
split_host : Option Str → Outcome Str
unfolding before_scheme
split_host none = panic
split_host (some rest) = ok (before_scheme rest)

-- The type assertion panics where the key is missing or holds no string.
host_of_url : Option Str → Outcome Str
unfolding split_host after_scheme
host_of_url none = panic
host_of_url (some to) = split_host (after_scheme to)

with_ip : Str → Option Str → Outcome Config
with_ip text none = err (failure (codes "set DrainerConfigs failed: syncer.to.host is not existed"))
with_ip text (some []) =
    err (failure (codes "set DrainerConfigs failed: syncer.to.host is not existed"))
with_ip text (some (c ∷ ip)) = ok (record { text = text; to_host = some (c ∷ ip) })

-- The last resource of a name wins.
unfoldable pub resource_maps_from :
    Map TestResourceStatus → List TestResource → Map TestResourceStatus
resource_maps_from maps [] = maps
resource_maps_from maps (resource ∷ trs) =
    resource_maps_from (insert resource.meta.name resource.status maps) trs

unfoldable pub resource_maps : List TestResource → Map TestResourceStatus
unfolding resource_maps_from
resource_maps trs = resource_maps_from [] trs

unfoldable pub found_node : Str → Str → Option TestResourceStatus → Outcome TestResourceStatus
found_node kind host none =
    err (failure (kind ++ (codes " node not found: `" ++ (host ++ codes "`"))))
found_node kind host (some node) = ok node

unfoldable pub find_node : Map TestResourceStatus → Str → Str → Outcome TestResourceStatus
unfolding found_node
find_node maps kind host = found_node kind host (lookup host maps)

-- One loop: the node of each item, then what is made of the item.
unfoldable pub build_each :
    {A B : Type 0}
    → Map TestResourceStatus
    → Str
    → (A → Str)
    → (A → TestResourceStatus → Outcome B)
    → List A
    → Outcome (List B)
build_each maps kind host make [] = ok []
build_each maps kind host make (item ∷ items) = do
  node ← find_node maps kind (host item)
  server ← make item node
  servers ← build_each maps kind host make items
  ok (server ∷ servers)

unfoldable pub global_options : Option Global → GlobalOptions
global_options none = record {
  user = codes "root";
  ssh_port = pos 22;
  data_dir = [];
  deploy_dir = [];
}
global_options (some global) = record {
  user = codes "root";
  ssh_port = pos 22;
  data_dir = global.data_dir;
  deploy_dir = global.deploy_dir;
}

module _ (lib : SpecLib) where
  parsed : Str → Str → Option Str → Outcome Config
  parsed prefix text none = ok (record { text = text; to_host = none })
  parsed prefix text (some e) = err (failure (prefix ++ e))

  unfoldable pub generate_config : Str → Str → Outcome Config
  unfolding parsed
  generate_config prefix text = parsed prefix text (lib.yaml_error text)

  unfoldable pub set_server_configs : ServerConfigs → Outcome (Unit {0})
  unfolding generate_config
  set_server_configs configs = do
    _ ← generate_config (codes "set serverConfigs failed: ") configs.tidb
    _ ← generate_config (codes "set serverConfigs failed: ") configs.tikv
    _ ← generate_config (codes "set serverConfigs failed: ") configs.pd
    ok tt

  -- Without a map of addresses the text stays.
  transferred : Option (Map Str) → Config → Outcome Config
  unfolding host_of_url with_ip
  transferred none config = ok config
  transferred (some ips) config = do
    host ← host_of_url (lib.syncer_to_host config.text)
    with_ip config.text (lookup host ips)

  set_drainer_config : Option (Map Str) → Str → Outcome Config
  unfolding generate_config transferred
  set_drainer_config ips text = do
    config ← generate_config (codes "set DrainerConfigs failed: ") text
    transferred ips config

  unfoldable pub defaulted : Option Specification → Outcome Specification
  defaulted none = panic
  defaulted (some spec) = ok spec

  module _ (dry_run : Bool) where
    unfoldable pub node_host : Str → TestResourceStatus → Str
    node_host name node = if dry_run then name else node.container.cluster_ip

    unfoldable pub tidb_server : TiDbSpec → TestResourceStatus → Outcome TiDbServer
    unfolding generate_config node_host
    tidb_server item node = do
      config ← generate_config (codes "set TiDbConfigs failed: ") item.config
      ok (record {
        host = node_host item.host node;
        ssh_port = pos 22;
        port = item.port;
        status_port = item.status_port;
        deploy_dir = item.deploy_dir;
        log_dir = item.log_dir;
        config = config;
      })

    unfoldable pub tikv_server : TiKvSpec → TestResourceStatus → Outcome TiKvServer
    unfolding generate_config node_host
    tikv_server item node = do
      config ← generate_config (codes "set TiKVConfigs failed: ") item.config
      ok (record {
        host = node_host item.host node;
        ssh_port = pos 22;
        port = item.port;
        status_port = item.status_port;
        deploy_dir = item.deploy_dir;
        data_dir = item.data_dir;
        log_dir = item.log_dir;
        config = config;
      })

    unfoldable pub pd_server : PdSpec → TestResourceStatus → Outcome PdServer
    unfolding generate_config node_host
    pd_server item node = do
      config ← generate_config (codes "set PDConfigs failed: ") item.config
      ok (record {
        host = node_host item.host node;
        ssh_port = pos 22;
        client_port = item.client_port;
        peer_port = item.peer_port;
        deploy_dir = item.deploy_dir;
        data_dir = item.data_dir;
        log_dir = item.log_dir;
        config = config;
      })

    unfoldable pub pump_server : PumpSpec → TestResourceStatus → Outcome PumpServer
    unfolding generate_config node_host
    pump_server item node = do
      config ← generate_config (codes "set PumpConfigs failed: ") item.config
      ok (record {
        host = node_host item.host node;
        port = item.port;
        ssh_port = item.ssh_port;
        deploy_dir = item.deploy_dir;
        data_dir = item.data_dir;
        config = config;
      })

    unfoldable pub drainer : Option (Map Str) → DrainerSpec → TestResourceStatus → Outcome Drainer
    unfolding set_drainer_config node_host
    drainer ips item node = do
      config ← set_drainer_config ips item.config
      ok (record {
        host = node_host item.host node;
        port = item.port;
        ssh_port = item.ssh_port;
        commit_ts = item.commit_ts;
        deploy_dir = item.deploy_dir;
        data_dir = item.data_dir;
        config = config;
      })

    unfoldable pub prometheus : PrometheusSpec → TestResourceStatus → Outcome Prometheus
    unfolding node_host
    prometheus item node = ok (record {
      host = node_host item.host node;
      ssh_port = pos 22;
      port = item.port;
      deploy_dir = item.deploy_dir;
      data_dir = item.data_dir;
      log_dir = item.log_dir;
    })

    unfoldable pub grafana : GrafanaSpec → TestResourceStatus → Outcome Grafana
    unfolding node_host
    grafana item node = ok (record {
      host = node_host item.host node;
      ssh_port = pos 22;
      port = item.port;
      deploy_dir = item.deploy_dir;
    })

    unfoldable pub alertmanager : AlertManagerSpec → TestResourceStatus → Outcome Alertmanager
    unfolding node_host
    alertmanager item node = ok (record {
      host = node_host item.host node;
      ssh_port = pos 22;
      web_port = item.web_port;
      cluster_port = item.cluster_port;
      deploy_dir = item.deploy_dir;
    })

    unfoldable pub cdc_server : CdcSpec → TestResourceStatus → Outcome CdcServer
    unfolding node_host
    cdc_server item node = ok (record {
      host = node_host item.host node;
      ssh_port = pos 22;
      port = item.port;
      deploy_dir = item.deploy_dir;
      log_dir = item.log_dir;
    })

    unfoldable pub tiflash_server : TiFlashSpec → TestResourceStatus → Outcome TiFlashServer
    unfolding generate_config node_host
    tiflash_server item node = do
      config ← generate_config (codes "set TiFlashConfigs failed: ") item.config
      learner ← generate_config (codes "set TiFlashLearnerConfigs failed: ") item.learner_config
      ok (record {
        host = node_host item.host node;
        ssh_port = pos 22;
        tcp_port = item.tcp_port;
        http_port = item.http_port;
        flash_service_port = item.service_port;
        flash_proxy_port = item.proxy_port;
        flash_proxy_status_port = item.proxy_status_port;
        status_port = item.metrics_port;
        deploy_dir = item.deploy_dir;
        data_dir = item.data_dir;
        log_dir = item.log_dir;
        config = config;
        learner_config = learner;
      })

    unfoldable pub servers_of :
        Map TestResourceStatus → Option (Map Str) → TiDbCluster → Outcome Specification
    unfolding build_each tidb_server tikv_server pd_server pump_server drainer prometheus grafana
        alertmanager cdc_server tiflash_server global_options
    servers_of maps ips c = do
      tidb ← build_each maps (codes "tidb") (λ t. t.host) tidb_server (elems c.tidb)
      tikv ← build_each maps (codes "tikv") (λ t. t.host) tikv_server (elems c.tikv)
      pd ← build_each maps (codes "pd") (λ t. t.host) pd_server (elems c.pd)
      pump ← build_each maps (codes "pump") (λ t. t.host) pump_server (elems c.pump)
      drainers ← build_each maps (codes "drainer") (λ t. t.host) (drainer ips) (elems c.drainer)
      monitors ← build_each maps (codes "monitor") (λ t. t.host) prometheus (elems c.monitor)
      grafanas ← build_each maps (codes "grafana") (λ t. t.host) grafana (elems c.grafana)
      alerts ←
          build_each maps (codes "alert_manager") (λ t. t.host) alertmanager (elems c.alert_manager)
      cdc ← build_each maps (codes "cdc") (λ t. t.host) cdc_server (elems c.cdc)
      tiflash ← build_each maps (codes "tiflash") (λ t. t.host) tiflash_server (elems c.tiflash)
      ok (record {
        global_options = global_options c.global;
        server_configs = c.server_configs;
        tidb_servers = tidb;
        tikv_servers = tikv;
        pd_servers = pd;
        pump_servers = pump;
        drainers = drainers;
        monitors = monitors;
        grafanas = grafanas;
        alertmanagers = alerts;
        cdc_servers = cdc;
        tiflash_servers = tiflash;
      })

    unfoldable pub control_of : Str → Option TestResourceStatus → Outcome TestResourceStatus
    control_of host none = err (failure (codes "control node not found: `" ++ (host ++ codes "`")))
    control_of host (some node) = ok node

    -- The specification and the status of the control node.
    unfoldable pub build_specification :
        Option TiDbCluster
        → List TestResource
        → Option (Map Str)
        → Outcome (Specification × TestResourceStatus)
    unfolding set_server_configs servers_of control_of defaulted resource_maps
    build_specification none trs ips = panic
    build_specification (some c) trs ips = do
      _ ← set_server_configs c.server_configs
      control ← control_of c.control (lookup c.control (resource_maps trs))
      spec ← servers_of (resource_maps trs) ips c
      final ← defaulted (lib.set_defaults spec)
      ok (final, control)
