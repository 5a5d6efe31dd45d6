-- ===== src/Control/Workload/Envs.antt =====
-- controllers/testworkload_controller.go: the environment of a workload's container.
use naglfar.Prelude.{
  List, [], ◌∷◌, ◌++◌, Str, codes, str_eq, Outcome, ok, ◌>>=◌, map, if◌then◌else◌,
}
use naglfar.Control.Topology.Envs.{build_inject_envs}
use naglfar.Resource.{TestResource}
use naglfar.Tiup.Specification.{SpecLib}
use naglfar.Topology.{TestClusterTopology}
use naglfar.Workload.{ClusterTopologyRef, ContainerSpec, TestWorkload}

abbrev pub assigned : Str → Str → Str
assigned name value = name ++ (b'=' ∷ value)

alias_envs : List ClusterTopologyRef → List Str
alias_envs [] = []
alias_envs (item ∷ items) = assigned item.alias_name item.name ∷ alias_envs items

own_envs : TestWorkload → Str → ContainerSpec → List Str
unfolding alias_envs
own_envs workload item_name container =
    assigned (codes "NAGLFAR_CLUSTER_NS") workload.meta.namespace
    ∷ assigned (codes "NAGLFAR_TEST_RESOURCE_REQUEST_NAME") container.resource_request.name
    ∷ assigned (codes "NAGLFAR_TESTWORKLOAD_NAME") workload.meta.name
    ∷ assigned (codes "NAGLFAR_TESTWORKLOAD_WORKLOAD_ITEM") item_name
    ∷ alias_envs workload.spec.cluster_topologies_refs

unfoldable pub set_container_spec : TestResource → TestWorkload → Str → ContainerSpec → TestResource
unfolding own_envs
set_container_spec node workload item_name container = record node {
  status = record node.status {
    container = record node.status.container {
      image = container.image;
      image_pull_policy = container.image_pull_policy;
      command = container.command;
      envs = own_envs workload item_name container;
    };
  };
}

prefix_of : ClusterTopologyRef → Str
prefix_of refer = elim refer.alias_name [ [] ↦ refer.name | c ∷ cs ↦ c ∷ cs ]

-- The envs of the first topology of that name.
envs_of_ref :
    SpecLib → ClusterTopologyRef → List TestClusterTopology → List TestResource → Outcome (List Str)
unfolding prefix_of
envs_of_ref lib refer [] resources = ok []
envs_of_ref lib refer (topo ∷ topologies) resources =
    let rest = envs_of_ref lib refer topologies resources in
    if str_eq topo.meta.name refer.name
    then (do
      envs ← build_inject_envs lib topo resources
      ok (map (λ env. prefix_of refer ++ (b'_' ∷ env)) envs))
    else rest

unfoldable pub build_topology_envs :
    SpecLib
    → List ClusterTopologyRef
    → List TestClusterTopology
    → List TestResource
    → Outcome (List Str)
unfolding envs_of_ref
build_topology_envs lib [] topologies resources = ok []
build_topology_envs lib (refer ∷ refs) topologies resources = do
  envs ← envs_of_ref lib refer topologies resources
  rest ← build_topology_envs lib refs topologies resources
  ok (envs ++ rest)
