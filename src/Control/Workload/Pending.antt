-- ===== src/Control/Workload/Pending.antt =====
-- controllers/testworkload_controller.go: a workload waits for its clusters and takes its nodes.
use naglfar.Prelude.{
  ℕ, suc, Bool, true, false, not, ◌&&◌, ◌||◌, List, [], ◌∷◌, ◌++◌, Option, none, some, Str, codes,
  str_eq, length, err, panic, failure, ◌==◌, if◌then◌else◌,
}
use naglfar.Control.Calls.{
  Prog, NamespacedName, get_topology, get_resource_list, commit, write_workload_status,
  write_resource_status,
}
use naglfar.Control.Effects.{◌>>=◌, ◌>>◌, pure, lift, Result, done, after}
use naglfar.Control.Workload.Envs.{set_container_spec, build_topology_envs}
use naglfar.Control.Workload.Running.{get_workload_request_node}
use naglfar.Ref.{Ref, create_ref, ref_eq}
use naglfar.Resource.{TestResource, ResourceState}
use naglfar.Tiup.Specification.{SpecLib}
use naglfar.Topology.{TestClusterTopology, ClusterTopologyState}
use naglfar.Workload.{
  ClusterTopologyRef, ContainerSpec, TestWorkload, TestWorkloadItemSpec, TestWorkloadState,
}

unfoldable pub is_ready : ClusterTopologyState → Bool
is_ready ClusterTopologyState.ready = true
is_ready _ = false

same_name : NamespacedName → NamespacedName → Bool
same_name a b = str_eq a.namespace b.namespace && str_eq a.name b.name

has_name : NamespacedName → List NamespacedName → Bool
unfolding same_name
has_name name [] = false
has_name name (other ∷ names) = same_name other name || has_name name names

-- The keys of the map that is made of the references, each once.
topology_keys : Str → List ClusterTopologyRef → List NamespacedName → List NamespacedName
unfolding has_name
topology_keys ns [] keys = keys
topology_keys ns (refer ∷ refs) keys =
    let key : NamespacedName = record { namespace = ns; name = refer.name } in
    topology_keys ns refs (if has_name key keys then keys else keys ++ (key ∷ []))

-- `none` when some topology is not ready; the others are not asked for then.
unfoldable pub check_rest :
    TestClusterTopology → Option (List TestClusterTopology) → Option (List TestClusterTopology)
check_rest topology none = none
check_rest topology (some topologies) = some (topology ∷ topologies)

unfoldable pub check_topologies_ready :
    List NamespacedName → Prog (Option (List TestClusterTopology))
unfolding is_ready check_rest
check_topologies_ready [] = pure (some [])
check_topologies_ready (key ∷ keys) = do
  topology ← get_topology key
  (if is_ready topology.status.state
      then (do rest ← check_topologies_ready keys; pure (check_rest topology rest))
      else pure none)

-- A node that is claimed by another workload.
unfoldable pub is_occupied : Ref → Option Ref → Bool
is_occupied self none = false
is_occupied self (some claim) = not (ref_eq claim self)

unfoldable pub is_own : Ref → Option Ref → Bool
is_own self none = false
is_own self (some claim) = ref_eq claim self

-- The loop over the items goes on with a count of the installed ones, or the handler returns.
pub data Progress : Type 0 where
  stop : Result → Progress
  installed : ℕ → Progress

module _ (lib : SpecLib) (workload : TestWorkload) (topologies : List TestClusterTopology)
    (resources : List TestResource) where
  -- The claim, the container and the environment are written in one update.
  unfoldable pub occupied : TestResource → Str → ContainerSpec → List Str → TestResource
  occupied node item_name spec envs =
      let set =
        set_container_spec
          (record node {
            status = record node.status { claim_ref = some (create_ref workload.meta) };
          })
          workload item_name spec in
      record set {
        status = record set.status {
          container = record set.status.container { envs = set.status.container.envs ++ envs };
        };
      }

  unfoldable pub occupy : TestResource → Str → ContainerSpec → Prog (Unit {0})
  unfolding occupied
  occupy node item_name spec = do
    envs ← lift (build_topology_envs lib workload.spec.cluster_topologies_refs topologies resources)
    commit (write_resource_status (occupied node item_name spec envs))

  unfoldable pub install_uninitialized : TestResource → Str → ContainerSpec → ℕ → Prog Progress
  unfolding occupy
  install_uninitialized node item_name spec count =
      if str_eq node.status.container.image []
      then (do occupy node item_name spec; pure (installed count))
      else (if str_eq node.status.container.image spec.image
          then pure (installed count)
          else lift (
              err (
                failure (
                  codes "resource "
                  ++ (node.meta.name ++ codes " has installed a conflict image")))))

  unfoldable pub install_present : TestResource → ℕ → Prog Progress
  unfolding is_own
  install_present node count =
      if is_own (create_ref workload.meta) node.status.claim_ref
      then pure (installed (suc count))
      else lift (
          err (
            failure
              (codes "resource " ++ (node.meta.name ++ codes " is used by others now, wait"))))

  unfoldable pub install_on : ResourceState → TestResource → Str → ContainerSpec → ℕ → Prog Progress
  unfolding install_uninitialized install_present
  install_on ResourceState.destroy node item_name spec count = pure (stop (after 1))
  install_on ResourceState.uninitialized node item_name spec count =
      install_uninitialized node item_name spec count
  install_on ResourceState.ready node item_name spec count = install_present node count
  install_on ResourceState.finish node item_name spec count = install_present node count
  install_on _ node item_name spec count = lift panic

  unfoldable pub install_item : TestWorkloadItemSpec → ℕ → Prog Progress
  unfolding is_occupied install_on
  install_item item count = elim item.docker_container [
    | none ↦ lift panic
    | some spec ↦ do
      node ← get_workload_request_node workload.meta.namespace spec
      (if is_occupied (create_ref workload.meta) node.status.claim_ref
          then pure (stop (after 5))
          else install_on node.status.state node item.name spec count)
  ]

  unfoldable pub go_on : (ℕ → Prog Progress) → Progress → Prog Progress
  go_on rest (stop result) = pure (stop result)
  go_on rest (installed count) = rest count

  unfoldable pub install_items : List TestWorkloadItemSpec → ℕ → Prog Progress
  unfolding install_item go_on
  install_items [] count = pure (installed count)
  install_items (item ∷ items) count = do
    progress ← install_item item count
    go_on (λ n. install_items items n) progress

unfoldable pub after_install : TestWorkload → Progress → Prog Result
after_install workload (stop result) = pure result
after_install workload (installed count) =
    if count == length workload.spec.workloads
    then (do
      commit (
          write_workload_status (record workload {
            status = record workload.status { state = TestWorkloadState.running };
          }))
      pure done)
    else pure (after 5)

module _ (lib : SpecLib) (visit : List NamespacedName → List NamespacedName) where
  unfoldable pub install_ready : TestWorkload → Option (List TestClusterTopology) → Prog Result
  unfolding install_items after_install
  install_ready workload none = pure (after 5)
  install_ready workload (some topologies) = do
    resources ← get_resource_list workload.meta.namespace
    progress ← install_items lib workload topologies resources workload.spec.workloads 0
    after_install workload progress

  unfoldable pub reconcile_pending : TestWorkload → Prog Result
  unfolding topology_keys check_topologies_ready install_ready
  reconcile_pending workload = do
    ready ←
        check_topologies_ready
          (visit (topology_keys workload.meta.namespace workload.spec.cluster_topologies_refs []))
    install_ready workload ready
