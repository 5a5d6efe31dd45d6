-- ===== src/Control/Topology/Envs.antt =====
-- controllers/testclustertopology_controller.go: what others learn of a cluster from its resources.
use naglfar.Prelude.{
  ℕ, suc, false, List, [], ◌∷◌, ◌++◌, Option, none, some, Str, codes, str_eq, Map, insert, has_key,
  Outcome, ok, ◌>>=◌, if◌then◌else◌,
}
use naglfar.Prelude.Int.{ℤ}
use naglfar.Machine.Cores.{print_nat}
use naglfar.Resource.{TestResource}
use naglfar.Tiup.Build.{build_specification}
use naglfar.Tiup.Specification.{SpecLib}
use naglfar.Topology.Components.{HaProxy}
use naglfar.Topology.Hosts.{HostSet, tidb_hosts, flink_hosts, dm_hosts}
use naglfar.Topology.{TestClusterTopology, TestClusterTopologySpec}
use naglfar.Util.Decimal.{print_int}

cluster_ips_from : Map Str → List TestResource → Map Str
cluster_ips_from result [] = result
cluster_ips_from result (item ∷ items) =
    cluster_ips_from (insert item.meta.name item.status.container.cluster_ip result) items

unfoldable pub hostname2cluster_ip : List TestResource → Map Str
unfolding cluster_ips_from
hostname2cluster_ip items = cluster_ips_from [] items

-- The first kind of cluster that is there counts; without any the map is nil.
unfoldable pub all_hosts : TestClusterTopologySpec → HostSet
all_hosts spec = elim spec.tidb_cluster [
  | some tidb ↦ tidb_hosts tidb
  | none ↦ elim spec.flink_cluster [
    | some flink ↦ flink_hosts flink
    | none ↦ elim spec.dm_cluster [ some dm ↦ dm_hosts dm | none ↦ [] ]
  ]
]

unfoldable pub resources_among : HostSet → List TestResource → List TestResource
resources_among hosts [] = []
resources_among hosts (item ∷ items) =
    let rest = resources_among hosts items in
    if has_key item.meta.name hosts then item ∷ rest else rest

unfoldable pub filter_cluster_resources :
    TestClusterTopology → List TestResource → List TestResource
unfolding all_hosts resources_among
filter_cluster_resources ct items = resources_among (all_hosts ct.spec) items

-- prefix, number, "=", host, ":", port
numbered : {A : Type 0} → Str → (A → Str) → (A → ℤ) → ℕ → List A → List Str
numbered prefix host port idx [] = []
numbered prefix host port idx (item ∷ items) =
    (prefix ++ (print_nat idx ++ (b'=' ∷ (host item ++ (b':' ∷ print_int (port item))))))
    ∷ numbered prefix host port (suc idx) items

proxy_envs : HaProxy → List TestResource → List Str
proxy_envs proxy [] = []
proxy_envs proxy (item ∷ items) =
    let rest = proxy_envs proxy items in
    if str_eq item.meta.name proxy.host
    then (codes "tidb=" ++ (item.status.container.cluster_ip ++ (b':' ∷ print_int proxy.port)))
      ∷ rest
    else rest

haproxy_envs : Option HaProxy → List TestResource → List Str
unfolding proxy_envs
haproxy_envs none resources = []
haproxy_envs (some proxy) resources = proxy_envs proxy resources

unfoldable pub build_inject_envs :
    SpecLib → TestClusterTopology → List TestResource → Outcome (List Str)
unfolding numbered haproxy_envs
build_inject_envs lib t resources = elim t.spec.tidb_cluster [
  | none ↦ ok []
  | some tidb ↦ do
    (spec, control) ← build_specification lib false (some tidb) resources none
    ok (
        numbered (codes "tidb") (λ s. s.host) (λ s. s.port) 0 spec.tidb_servers
        ++ (numbered (codes "pd") (λ s. s.host) (λ s. s.client_port) 0 spec.pd_servers
            ++ (numbered (codes "prometheus") (λ s. s.host) (λ s. s.port) 0 spec.monitors
                ++ haproxy_envs tidb.ha_proxy resources)))
]
