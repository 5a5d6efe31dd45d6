-- ===== src/Control/Topology.antt =====
-- controllers/testclustertopology_controller.go.
pub mod Envs
pub mod Ports
pub mod Proxy
pub mod Nodes
pub mod Clusters
pub mod Removal
pub mod OneStep
pub mod Updating
pub mod Absent
pub mod Prepared
use naglfar.Prelude.{
  Bool, true, false, ◌||◌, not, List, [], ◌∷◌, ◌++◌, Option, none, some, Str, codes, str_eq,
  Outcome, ok, err, panic, unfinished, not_found, if◌then◌else◌,
}
use naglfar.Control.Calls.{
  Prog, NamespacedName, get_topology, get_request, commit, write_topology, write_topology_status,
}
use naglfar.Control.Effects.{◌>>=◌, ◌>>◌, pure, lift, try, Result, done, after, ignore_not_found}
use naglfar.Control.Topology.Clusters.{
  install_tidb_cluster, install_flink_cluster, install_dm_cluster, update_tidb_cluster,
  check_tikv_finished_scale_in, prune_tidb_cluster,
}
use naglfar.Control.Topology.Removal.{delete_topology}
use naglfar.Request.{TestResourceRequest, RequestState}
use naglfar.Tiup.Changes.{is_cluster_config_modified, shrinks}
use naglfar.Tiup.Specification.{SpecLib}
use naglfar.Topology.Components.{Slice}
use naglfar.Topology.{TestClusterTopology, ClusterTopologyState, TiDbCluster, TiDbClusterInfo}
use naglfar.Util.{strings_contains, strings_remove}

abbrev pub in_state : TestClusterTopology → ClusterTopologyState → TestClusterTopology
in_state ct state = record ct { status = record ct.status { state = state } }

abbrev pub with_info : TestClusterTopology → TiDbClusterInfo → TestClusterTopology
with_info ct info = record ct { status = record ct.status { tidb_cluster_info = info } }

unfoldable pub write_status : TestClusterTopology → Prog Result
write_status ct = do commit (write_topology_status ct); pure done

abbrev request_of : TestClusterTopology → NamespacedName
request_of ct = record { namespace = ct.meta.namespace; name = ct.spec.resource_request }

-- A slice that was appended to.
unfoldable pub grown : List Str → Slice Str
grown [] = none
grown (x ∷ xs) = some (x ∷ xs)

is_none : List Str → Bool
is_none [] = true
is_none (x ∷ xs) = false

request_ready : RequestState → Bool
request_ready RequestState.ready = true
request_ready _ = false

module _ (lib : SpecLib) where
  unfoldable pub become_installed : TestClusterTopology → Bool → Prog Result
  unfolding write_status
  become_installed ct true = pure (after 10)
  become_installed ct false = write_status (in_state ct ClusterTopologyState.ready)

  -- A topology without any cluster is installed at once.
  install : TestClusterTopology → TestResourceRequest → Prog Bool
  install ct rr = elim ct.spec.tidb_cluster [
    | some tidb ↦ install_tidb_cluster lib ct rr tidb
    | none ↦ elim ct.spec.flink_cluster [
      | some flink ↦ install_flink_cluster lib ct rr
      | none ↦ elim ct.spec.dm_cluster [
        | some dm ↦ install_dm_cluster lib ct rr dm
        | none ↦ pure false
      ]
    ]
  ]

  install_on : TestClusterTopology → TestResourceRequest → Prog Result
  unfolding install become_installed request_ready
  install_on ct rr =
      if request_ready rr.state
      then (do requeue ← install ct rr; become_installed ct requeue)
      else pure (after 5)

  unfoldable pub reconcile_pending : TestClusterTopology → Prog Result
  unfolding install_on
  reconcile_pending ct =
      if str_eq ct.spec.resource_request []
      then pure done
      else (do rr ← get_request (request_of ct); install_on ct rr)

  -- The status with the stores on their way out is written first.
  observed : TestClusterTopology → List Str → List Str → TestClusterTopology
  unfolding grown
  observed ct pending offline = with_info ct (record ct.status.tidb_cluster_info {
    pending_offline_list = grown pending;
    offline_list = grown offline;
  })

  scaled : TestClusterTopology → TestClusterTopology
  scaled ct = with_info ct (record ct.status.tidb_cluster_info { is_scaling = false })

  prune_when_left : TestClusterTopology → TestResourceRequest → List Str × List Str → Prog Result
  unfolding observed scaled write_status is_none
  prune_when_left ct rr (pending, offline) = do
    commit (write_topology_status (observed ct pending offline))
    (if is_none pending
        then (if is_none offline
            then (do
              prune_tidb_cluster lib (observed ct pending offline) rr
              write_status (scaled (observed ct pending offline)))
            else pure (after 10))
        else pure (after 10))

  check_scaling : TestClusterTopology → Prog Result
  unfolding prune_when_left
  check_scaling ct =
      if ct.status.tidb_cluster_info.is_scaling
      then (do
        rr ← get_request (request_of ct)
        lists ← check_tikv_finished_scale_in lib ct rr
        prune_when_left ct rr lists)
      else pure done

  remember : TestClusterTopology → TiDbCluster → TestClusterTopology
  remember ct tidb = record ct { status = record ct.status { pre_tidb_cluster = some tidb } }

  compare_with : TestClusterTopology → TiDbCluster → Option TiDbCluster → Prog Result
  unfolding check_scaling remember write_status
  compare_with ct cur none = write_status (remember ct cur)
  compare_with ct cur (some pre) =
      if is_cluster_config_modified pre cur
      then write_status (in_state ct ClusterTopologyState.updating)
      else check_scaling ct

  unfoldable pub reconcile_ready : TestClusterTopology → Prog Result
  unfolding compare_with
  reconcile_ready ct = elim ct.spec.tidb_cluster [
    | none ↦ pure done
    | some cur ↦ compare_with ct cur ct.status.pre_tidb_cluster
  ]

  scaling_if : TestClusterTopology → Bool → TestClusterTopology
  scaling_if ct true = with_info ct (record ct.status.tidb_cluster_info { is_scaling = true })
  scaling_if ct false = ct

  unfoldable pub become_updated : TestClusterTopology → TiDbCluster → Bool → Prog Result
  unfolding write_status remember
  become_updated ct cur true = pure (after 10)
  become_updated ct cur false = write_status (in_state (remember ct cur) ClusterTopologyState.ready)

  update_between :
      TestClusterTopology
      → TestResourceRequest
      → Option TiDbCluster
      → Option TiDbCluster
      → Prog Result
  unfolding scaling_if become_updated
  update_between ct rr none cur = lift panic
  update_between ct rr (some pre) none = lift panic
  update_between ct rr (some pre) (some cur) = do
    requeue ← update_tidb_cluster lib (scaling_if ct (shrinks pre cur)) rr pre cur
    become_updated (scaling_if ct (shrinks pre cur)) cur requeue

  unfoldable pub reconcile_updating : TestClusterTopology → Prog Result
  unfolding update_between
  reconcile_updating ct = do
    rr ← get_request (request_of ct)
    update_between ct rr ct.status.pre_tidb_cluster ct.spec.tidb_cluster

  unfoldable pub dispatch : ClusterTopologyState → TestClusterTopology → Prog Result
  unfolding write_status
  dispatch ClusterTopologyState.unset ct = write_status (in_state ct ClusterTopologyState.pending)
  dispatch ClusterTopologyState.pending ct = reconcile_pending ct
  dispatch ClusterTopologyState.ready ct = reconcile_ready ct
  dispatch ClusterTopologyState.updating ct = reconcile_updating ct

  abbrev pub set_finalizers : TestClusterTopology → List Str → TestClusterTopology
  set_finalizers ct finalizers = record ct { meta = record ct.meta { finalizers = finalizers } }

  remove_topology : TestClusterTopology → Prog Result
  remove_topology ct = do
    (if strings_contains ct.meta.finalizers ct.meta.name then delete_topology lib ct else pure tt)
    finalizers ← lift (strings_remove ct.meta.finalizers ct.meta.name)
    commit (write_topology (set_finalizers ct finalizers))
    pure done

  -- The finalizer has the name of the topology.
  abbrev pub marked : TestClusterTopology → TestClusterTopology
  marked ct = set_finalizers ct (ct.meta.finalizers ++ (ct.meta.name ∷ []))

  unfoldable pub reconcile_topology : TestClusterTopology → Prog Result
  unfolding remove_topology
  reconcile_topology ct =
      if ct.meta.deleting
      then remove_topology ct
      else (if strings_contains ct.meta.finalizers ct.meta.name
          then dispatch ct.status.state ct
          else (do commit (write_topology (marked ct)); dispatch ct.status.state (marked ct)))

  reconcile_found : Outcome TestClusterTopology → Prog Result
  reconcile_found (ok ct) = reconcile_topology ct
  reconcile_found (err e) = lift (ignore_not_found e)
  reconcile_found panic = lift panic
  reconcile_found unfinished = lift unfinished

  unfoldable pub reconcile : NamespacedName → Prog Result
  unfolding reconcile_found
  reconcile name = do found ← try (get_topology name); reconcile_found found
