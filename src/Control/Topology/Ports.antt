-- ===== src/Control/Topology/Ports.antt =====
-- controllers/testclustertopology_controller.go: the ports that the containers of a cluster expose.
pub mod Loops
pub mod Exposed
use naglfar.Prelude.{
  true, List, [], ◌∷◌, ◌++◌, Option, none, some, Str, codes, Map, lookup, insert, map, Outcome, ok,
  ◌>>=◌, if◌then◌else◌,
}
use naglfar.Prelude.Int.{ℤ}
use naglfar.Resource.{TestResource}
use naglfar.Tiup.Build.{build_specification}
use naglfar.Tiup.Dm.{build_dm_specification}
use naglfar.Tiup.Flink.{build_flink_specification}
use naglfar.Tiup.Specification.{SpecLib, Specification, DmSpecification, TiFlashServer}
use naglfar.Topology.{TestClusterTopologySpec, FlinkCluster, TiDbCluster}
use naglfar.Util.Decimal.{print_int}
use naglfar.Util.{strings_contains}

-- strSet
unfoldable pub add : List Str → Str → List Str
add s elem = if strings_contains s elem then s else s ++ (elem ∷ [])

abbrev pub Ports : Type 0
Ports = Map (List Str)

-- A missing key is an empty set.
unfoldable pub set_of : Option (List Str) → List Str
set_of none = []
set_of (some s) = s

add_port : Ports → Str → Str → Ports
unfolding add set_of
add_port indexes host port = insert host (add (set_of (lookup host indexes)) port) indexes

unfoldable pub tcp : ℤ → Str
tcp port = print_int port ++ codes "/tcp"

-- One loop over servers.
unfoldable pub add_servers : {A : Type 0} → (A → Str) → (A → ℤ) → List A → Ports → Ports
unfolding add_port tcp
add_servers host port [] indexes = indexes
add_servers host port (item ∷ items) indexes =
    add_servers host port items (add_port indexes (host item) (tcp (port item)))

unfoldable pub add_all_ports : Str → List ℤ → Ports → Ports
unfolding add_port tcp
add_all_ports host [] indexes = indexes
add_all_ports host (port ∷ ports) indexes =
    add_all_ports host ports (add_port indexes host (tcp port))

unfoldable pub add_tiflash : List TiFlashServer → Ports → Ports
unfolding add_all_ports
add_tiflash [] indexes = indexes
add_tiflash (item ∷ items) indexes = add_tiflash items (
    add_all_ports item.host
      (item.tcp_port ∷ item.http_port ∷ item.status_port ∷ item.flash_service_port
        ∷ item.flash_proxy_port ∷ item.flash_proxy_status_port ∷ [])
      indexes)

unfoldable pub no_ports : List TestResource → Ports → Ports
no_ports [] indexes = indexes
no_ports (item ∷ items) indexes = no_ports items (insert item.meta.name [] indexes)

unfoldable pub with_ssh : Ports → Ports
unfolding add
with_ssh indexes = map (λ entry. (entry.0, add entry.1 (codes "22/tcp"))) indexes

tidb_ports : List TestResource → Specification → Ports
unfolding add_servers add_tiflash no_ports with_ssh
tidb_ports trs spec = with_ssh (
    add_tiflash spec.tiflash_servers (
      add_servers (λ s. s.host) (λ s. s.port) spec.cdc_servers
        (add_servers (λ s. s.host) (λ s. s.port) spec.monitors
          (add_servers (λ s. s.host) (λ s. s.port) spec.grafanas
            (add_servers (λ s. s.host) (λ s. s.client_port) spec.pd_servers
              (add_servers (λ s. s.host) (λ s. s.port) spec.tidb_servers (no_ports trs [])))))))

dm_ports : List TestResource → DmSpecification → Ports
unfolding add_servers no_ports with_ssh
dm_ports trs spec = with_ssh (
    add_servers (λ s. s.host) (λ s. s.port) spec.monitors
      (add_servers (λ s. s.host) (λ s. s.web_port) spec.alertmanagers
        (add_servers (λ s. s.host) (λ s. s.port) spec.grafanas
          (add_servers (λ s. s.host) (λ s. s.port) spec.workers
            (add_servers (λ s. s.host) (λ s. s.port) spec.masters (no_ports trs []))))))

flink_ports : FlinkCluster → Ports
unfolding add_port tcp
flink_ports spec = add_port [] spec.job_manager.host (tcp spec.job_manager.web_port)

module _ (lib : SpecLib) where
  dm_or_none : TestClusterTopologySpec → List TestResource → Outcome Ports
  unfolding dm_ports
  dm_or_none ctf trs = elim ctf.dm_cluster [
    | none ↦ ok []
    | some dm ↦ do
      (spec, control) ← build_dm_specification lib true (some dm) trs
      ok (dm_ports trs spec)
  ]

  flink_or_dm : TestClusterTopologySpec → List TestResource → Outcome Ports
  unfolding dm_or_none flink_ports
  flink_or_dm ctf trs = elim ctf.flink_cluster [
    | none ↦ dm_or_none ctf trs
    | some flink ↦ do
      spec ← build_flink_specification lib true (some flink) trs
      ok (flink_ports spec)
  ]

  index_of_tidb : TiDbCluster → List TestResource → Outcome Ports
  unfolding tidb_ports
  index_of_tidb tidb trs = do
    (spec, control) ← build_specification lib true (some tidb) trs none
    ok (tidb_ports trs spec)

  unfoldable pub index_resource_exposed_ports :
      TestClusterTopologySpec → List TestResource → Outcome Ports
  unfolding flink_or_dm index_of_tidb
  index_resource_exposed_ports ctf trs = elim ctf.tidb_cluster [
    | none ↦ flink_or_dm ctf trs
    | some tidb ↦ index_of_tidb tidb trs
  ]
