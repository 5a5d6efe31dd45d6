-- ===== src/Topology/Hosts.antt =====
-- api/v1/testclustertopology_types.go: AllHosts of each kind of cluster. The map to struct{} is a set
-- of names; the fields are visited in the order of the struct.
use naglfar.Prelude.{List, [], ◌∷◌, ◌++◌, Option, none, some, Str, Map, map, insert}
use naglfar.Topology.Components.{Slice, elems, HaProxy}
use naglfar.Topology.{TiDbCluster, FlinkCluster, DmCluster}

abbrev pub HostSet : Type 0
HostSet = Map (Unit {0})

unfoldable pub add_hosts : List Str → HostSet → HostSet
add_hosts [] result = result
add_hosts (host ∷ hosts) result = add_hosts hosts (insert host tt result)

-- The hosts of one field.
abbrev pub hosts_of : {A : Type 0} → (A → Str) → Slice A → List Str
hosts_of host field = map host (elems field)

haproxy_host : Option HaProxy → List Str
haproxy_host none = []
haproxy_host (some proxy) = proxy.host ∷ []

unfoldable pub tidb_hosts : TiDbCluster → HostSet
unfolding add_hosts haproxy_host
tidb_hosts c =
    add_hosts
      (hosts_of (λ t. t.host) c.tidb
        ++ (hosts_of (λ t. t.host) c.tikv
            ++ (hosts_of (λ t. t.host) c.pd
                ++ (hosts_of (λ t. t.host) c.monitor
                    ++ (hosts_of (λ t. t.host) c.grafana
                        ++ (hosts_of (λ t. t.host) c.cdc ++ hosts_of (λ t. t.host) c.tiflash))))))
      (add_hosts (haproxy_host c.ha_proxy) ((c.control, tt) ∷ []))

unfoldable pub flink_hosts : FlinkCluster → HostSet
unfolding add_hosts
flink_hosts c = add_hosts (hosts_of (λ t. t.host) c.task_manager) ((c.job_manager.host, tt) ∷ [])

unfoldable pub dm_hosts : DmCluster → HostSet
unfolding add_hosts
dm_hosts c =
    add_hosts
      (hosts_of (λ t. t.host) c.master
        ++ (hosts_of (λ t. t.host) c.worker
            ++ (hosts_of (λ t. t.host) c.alert_manager
                ++ (hosts_of (λ t. t.host) c.monitor ++ hosts_of (λ t. t.host) c.grafana))))
      ((c.control, tt) ∷ [])
