-- ===== src/Tiup/Dm.antt =====
-- pkg/tiup/dm/deploy.go: BuildSpecification.
use naglfar.Prelude.{Bool, List, Option, none, some, codes, Map, lookup, Outcome, ok, panic, ◌>>=◌}
use naglfar.Prelude.Int.{pos}
use naglfar.Resource.{TestResource, TestResourceStatus}
use naglfar.Tiup.Build.{
  resource_maps, build_each, global_options, generate_config, node_host, prometheus, grafana,
  control_of,
}
use naglfar.Tiup.Specification.{DmMaster, DmWorker, DmAlertmanager, DmSpecification, SpecLib}
use naglfar.Topology.Components.{AlertManagerSpec, elems}
use naglfar.Topology.{DmCluster, DmServerConfigs, MasterSpec, WorkerSpec}

module _ (lib : SpecLib) where
  set_dm_server_configs : DmServerConfigs → Outcome (Unit {0})
  set_dm_server_configs configs = do
    _ ← generate_config lib (codes "set serverConfigs failed: ") configs.master
    _ ← generate_config lib (codes "set serverConfigs failed: ") configs.worker
    ok tt

  module _ (dry_run : Bool) where
    dm_master : MasterSpec → TestResourceStatus → Outcome DmMaster
    dm_master item node = do
      config ← generate_config lib (codes "set MasterConfigs failed: ") item.config
      ok (record {
        host = node_host lib dry_run item.host node;
        ssh_port = pos 22;
        peer_port = item.peer_port;
        port = item.port;
        data_dir = item.data_dir;
        deploy_dir = item.deploy_dir;
        log_dir = item.log_dir;
        config = config;
      })

    dm_worker : WorkerSpec → TestResourceStatus → Outcome DmWorker
    dm_worker item node = do
      config ← generate_config lib (codes "set WorkerConfigs failed: ") item.config
      ok (record {
        host = node_host lib dry_run item.host node;
        ssh_port = pos 22;
        port = item.port;
        deploy_dir = item.deploy_dir;
        log_dir = item.log_dir;
        config = config;
      })

    dm_alertmanager : AlertManagerSpec → TestResourceStatus → Outcome DmAlertmanager
    dm_alertmanager item node = ok (record {
      host = node_host lib dry_run item.host node;
      ssh_port = pos 22;
      cluster_port = item.cluster_port;
      web_port = item.web_port;
      deploy_dir = item.deploy_dir;
      data_dir = item.data_dir;
      log_dir = item.log_dir;
    })

    dm_servers_of : Map TestResourceStatus → DmCluster → Outcome DmSpecification
    unfolding dm_master dm_worker dm_alertmanager
    dm_servers_of maps c = do
      masters ← build_each maps (codes "master") (λ t. t.host) dm_master (elems c.master)
      workers ← build_each maps (codes "worker") (λ t. t.host) dm_worker (elems c.worker)
      monitors ←
          build_each maps (codes "monitor") (λ t. t.host) (prometheus lib dry_run) (elems c.monitor)
      grafanas ←
          build_each maps (codes "grafana") (λ t. t.host) (grafana lib dry_run) (elems c.grafana)
      alerts ←
          build_each maps (codes "alertManager") (λ t. t.host) dm_alertmanager
            (elems c.alert_manager)
      ok (record {
        global_options = global_options c.global;
        server_configs = c.server_configs;
        masters = masters;
        workers = workers;
        monitors = monitors;
        grafanas = grafanas;
        alertmanagers = alerts;
      })

    unfoldable pub build_dm_specification :
        Option DmCluster → List TestResource → Outcome (DmSpecification × TestResourceStatus)
    unfolding set_dm_server_configs dm_servers_of
    build_dm_specification none trs = panic
    build_dm_specification (some c) trs = do
      _ ← set_dm_server_configs c.server_configs
      control ← control_of lib dry_run c.control (lookup c.control (resource_maps trs))
      spec ← dm_servers_of (resource_maps trs) c
      ok (lib.set_dm_defaults spec, control)
