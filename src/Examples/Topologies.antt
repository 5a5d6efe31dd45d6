-- ===== src/Examples/Topologies.antt =====
-- Updates of concrete clusters.
use naglfar.Prelude.{
  List, Str, ◌+◌, ◌≤◌, true, false, [], ◌∷◌, none, some, codes, ok, has_key, lookup, insert, str_eq,
  ◌≡◌, inl, inr, refl, arith,
}
use naglfar.Control.Calls.{Env, Log}
use naglfar.Control.Topology.Absent.{build_specification-misses}
use naglfar.Control.Topology.Envs.{filter_cluster_resources}
use naglfar.Control.Topology.OneStep.{HasOnePerHost, update_steps-bound}
use naglfar.Control.Topology.Ports.Exposed.{IsExposed, index_resource_exposed_ports-IsExposed}
use naglfar.Control.Topology.Ports.{Ports, index_resource_exposed_ports}
use naglfar.Control.Topology.{reconcile_updating}
use naglfar.Examples.Clusters.{
  plain_lib, topology, node_named, two_stores, one_store, alerting, upgrading, nodes,
}
use naglfar.Examples.Controllers.{friendly}
use naglfar.Resource.{TestResource, ResourceState, TestResourceStatus}
use naglfar.Tiup.Build.{build_specification}
use naglfar.Tiup.Changes.{is_upgraded, is_config_modified, shrinks, grows}
use naglfar.Tiup.Specification.{Specification}
use naglfar.Topology.Components.{tidb_entry_id, pd_entry_id, tikv_entry_id}
use naglfar.Topology.Hosts.{tidb_hosts, add_hosts}
use naglfar.Topology.{TestClusterTopology}
use naglfar.Webhook.Topology.Accepted.{IsAllowed, OneKind, SameUrls, IsSettled}
use naglfar.Webhook.Topology.Fields.Laws.{SameUnsupported, KeepsAllEntries}
use naglfar.Webhook.Topology.Fields.Tips.{NamesDirectories}
use naglfar.Webhook.Topology.Scaling.Laws.{SameSizes, Grows}
use naglfar.Webhook.Topology.{one_if}

shrinking-IsAllowed : IsAllowed topology.status two_stores one_store
unfolding SameUnsupported OneKind SameUrls IsSettled KeepsAllEntries NamesDirectories SameSizes
    Grows tidb_entry_id pd_entry_id tikv_entry_id
shrinking-IsAllowed = record {
  unsupported = (refl, refl, refl, refl, refl, refl);
  one_kind = inr (inr (refl, refl));
  policy = inr refl;
  entries = (
    ((λ _. refl, tt), tt),
    ((λ _. refl, tt), tt),
    ((λ _. refl, tt), ((λ e. absurd (ground arith), tt), tt)),
  );
  urls = (refl, refl, refl);
  one_direction = λ both. let other = both.1 in absurd (ground arith);
  hosts = λ same. let third = same.2 in absurd (omega arith);
  directories = inr (
    (λ e. absurd (ground arith), tt),
    ((λ e. absurd (ground arith), λ e. absurd (ground arith)), tt),
    ((λ e. absurd (ground arith), λ e. absurd (ground arith)), tt),
  );
  settled = λ _. (refl, refl);
}

shrinking-HasOnePerHost : HasOnePerHost two_stores one_store
shrinking-HasOnePerHost = record {
  of_tidb = ((λ _. refl, tt), tt);
  of_pd = ((λ _. refl, tt), tt);
  of_tikv = ((λ _. refl, tt), ((λ e. absurd (ground arith), tt), tt));
}

update_steps-bound_example :
    one_if (is_upgraded two_stores one_store)
      + one_if (is_config_modified two_stores one_store)
      + one_if (shrinks two_stores one_store)
      + one_if (grows two_stores one_store)
    ≤ 1
update_steps-bound_example =
    update_steps-bound topology.status two_stores one_store shrinking-IsAllowed
      shrinking-HasOnePerHost

abbrev with_alerts : TestClusterTopology
with_alerts = record topology { spec = record topology.spec { tidb_cluster = some alerting } }

n9_is_left_out : has_key (codes "n9") (tidb_hosts alerting) ≡ false
unfolding tidb_hosts add_hosts insert lookup str_eq
n9_is_left_out = refl

build_specification-misses_example : ¬ (
    (answer : Specification × TestResourceStatus) × (build_specification plain_lib false
        (some alerting)
        (filter_cluster_resources with_alerts nodes)
        none
      ≡ ok answer))
build_specification-misses_example =
    build_specification-misses plain_lib false with_alerts alerting (codes "n9") nodes none refl
      n9_is_left_out (inr (inr (inl refl)))

abbrev owning : Env
owning = record friendly { owned_resources = λ log namespace name. ok nodes }

abbrev last : Log
last = (reconcile_updating plain_lib upgrading owning []).1

abbrev open_ports : Ports
open_ports =
    (codes "n0", codes "22/tcp" ∷ [])
    ∷ (codes "n1", codes "4000/tcp" ∷ codes "0/tcp" ∷ codes "22/tcp" ∷ [])
    ∷ (codes "n2", codes "22/tcp" ∷ [])
    ∷ []

finds_open_ports : index_resource_exposed_ports plain_lib topology.spec nodes ≡ ok open_ports
unfolding index_resource_exposed_ports build_specification lookup insert str_eq
    naglfar.Tiup.Build.find_node naglfar.Util.strings_contains naglfar.Util.Decimal.print_int
    naglfar.Machine.Cores.print_nat
finds_open_ports = refl

index_resource_exposed_ports-IsExposed_example :
    (spec : Specification) × (control : TestResourceStatus) × (build_specification plain_lib true
        (some two_stores)
        nodes
        none
      ≡ ok (spec, control))
    × IsExposed nodes spec open_ports
index_resource_exposed_ports-IsExposed_example =
    index_resource_exposed_ports-IsExposed plain_lib topology.spec two_stores nodes open_ports refl
      finds_open_ports

-- The nodes before their containers are there.
abbrev bare_node : Str → TestResource
bare_node name = record (node_named name) {
  status = record (node_named name).status { state = ResourceState.uninitialized };
}

abbrev bare_nodes : List TestResource
bare_nodes = bare_node (codes "n0") ∷ bare_node (codes "n1") ∷ bare_node (codes "n2") ∷ []
