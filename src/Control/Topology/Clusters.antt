-- ===== src/Control/Topology/Clusters.antt =====
-- controllers/testclustertopology_controller.go: installing a cluster and changing it.
use naglfar.Prelude.{
  Bool, true, false, List, [], ◌∷◌, none, some, Str, codes, Outcome, ok, err, panic, unfinished,
  if◌then◌else◌,
}
use naglfar.Control.Calls.{Prog, get_owned_list}
use naglfar.Control.Effects.{◌>>=◌, ◌>>◌, pure, lift, try}
use naglfar.Control.Tiup.Cluster.{
  make_cluster_manager, install_cluster, upgrade_cluster, update_cluster, scale_in_cluster,
  scale_out_cluster, prune_cluster, get_node_status_list,
}
use naglfar.Control.Tiup.Dm.{make_dm_manager, install_dm}
use naglfar.Control.Topology.Envs.{filter_cluster_resources, hostname2cluster_ip}
use naglfar.Control.Topology.Nodes.{
  Readiness, waits, ready, waits_with, refused, init_tidb_resources, init_dm_resources,
  init_flink_resources,
}
use naglfar.Request.{TestResourceRequest}
use naglfar.Resource.{TestResource, TestResourceStatus}
use naglfar.Tiup.Changes.{is_upgraded, is_config_modified, shrinks, grows}
use naglfar.Tiup.Nodes.{scaled_in}
use naglfar.Tiup.Specification.{SpecLib, DmSpecification}
use naglfar.Topology.{TestClusterTopology, TiDbCluster, DmCluster}
use naglfar.Util.{strings_contains}

-- The error of the list is only logged.
or_nothing : Outcome (List TestResource) → Prog (List TestResource)
or_nothing (ok items) = pure items
or_nothing (err e) = pure []
or_nothing panic = lift panic
or_nothing unfinished = lift unfinished

unfoldable pub child_resources : TestResourceRequest → Prog (List TestResource)
unfolding or_nothing
child_resources rr = do
  found ← try (get_owned_list rr.meta.namespace rr.meta.name)
  or_nothing found

-- Only with requeue is the answer final: an error without it is dropped.
unfoldable pub unless_waiting : Readiness → Prog Bool → Prog Bool
unless_waiting waits next = pure true
unless_waiting (waits_with e) next = lift (err e)
unless_waiting ready next = next
unless_waiting (refused e) next = next

module _ (lib : SpecLib) (ct : TestClusterTopology) (rr : TestResourceRequest) where
  -- The switch takes DM before Flink.
  unfoldable pub flink_resource : List TestResource → Prog Readiness
  flink_resource resources = elim ct.spec.flink_cluster [
    | none ↦ pure ready
    | some flink ↦ init_flink_resources lib ct resources flink
  ]

  unfoldable pub dm_resource : List TestResource → Prog Readiness
  unfolding flink_resource
  dm_resource resources = elim ct.spec.dm_cluster [
    | none ↦ flink_resource resources
    | some dm ↦ init_dm_resources lib ct resources
  ]

  unfoldable pub init_resource : List TestResource → Prog Readiness
  unfolding dm_resource
  init_resource resources = elim ct.spec.tidb_cluster [
    | none ↦ dm_resource resources
    | some tidb ↦ init_tidb_resources lib ct resources tidb
  ]

  -- Each answers whether to come again.
  unfoldable pub install_tidb_cluster : TiDbCluster → Prog Bool
  unfolding child_resources init_resource unless_waiting
  install_tidb_cluster tidb = do
    items ← child_resources rr
    readiness ← init_resource (filter_cluster_resources ct items)
    unless_waiting readiness (do
      c ←
          make_cluster_manager lib ct.spec (filter_cluster_resources ct items)
            (some (hostname2cluster_ip items))
      install_cluster lib c ct.meta.name tidb.version tidb.tiup_mirror
      pure false)

  unfoldable pub install_flink_cluster : Prog Bool
  unfolding child_resources init_resource unless_waiting
  install_flink_cluster = do
    items ← child_resources rr
    readiness ← init_resource (filter_cluster_resources ct items)
    unless_waiting readiness (pure false)

  installed_dm : DmCluster → DmSpecification × TestResourceStatus → Prog Bool
  installed_dm dm (spec, control) = do
    install_dm lib spec control ct.meta.name dm.version
    pure false

  unfoldable pub install_dm_cluster : DmCluster → Prog Bool
  unfolding child_resources init_resource unless_waiting installed_dm
  install_dm_cluster dm = do
    items ← child_resources rr
    readiness ← init_resource (filter_cluster_resources ct items)
    unless_waiting readiness
        (do c ← make_dm_manager lib ct.spec (filter_cluster_resources ct items); installed_dm dm c)

  -- This one reports the error of the list.
  unfoldable pub upgrade_tidb_cluster : TiDbCluster → Prog (Unit {0})
  upgrade_tidb_cluster cur = do
    items ← get_owned_list rr.meta.namespace rr.meta.name
    c ← make_cluster_manager lib ct.spec (filter_cluster_resources ct items) none
    upgrade_cluster lib c ct.meta.name cur

  unfoldable pub update_cluster_config : TiDbCluster → TiDbCluster → Prog (Unit {0})
  unfolding child_resources
  update_cluster_config pre cur = do
    items ← child_resources rr
    c ← make_cluster_manager lib ct.spec (filter_cluster_resources ct items) none
    update_cluster lib c ct.meta.name pre cur

  -- The cluster before comes back with the ports that were written into it.
  unfoldable pub scale_in_tidb_cluster : TiDbCluster → TiDbCluster → Prog TiDbCluster
  unfolding child_resources
  scale_in_tidb_cluster pre cur = do
    items ← child_resources rr
    c ← make_cluster_manager lib ct.spec (filter_cluster_resources ct items) none
    scale_in_cluster lib c ct.meta.name (hostname2cluster_ip items) pre cur
    pure (scaled_in (hostname2cluster_ip items) pre cur)

  unfoldable pub scale_out_tidb_cluster : TiDbCluster → TiDbCluster → Prog Bool
  unfolding child_resources init_resource unless_waiting
  scale_out_tidb_cluster pre cur = do
    items ← child_resources rr
    readiness ← init_resource (filter_cluster_resources ct items)
    unless_waiting readiness (do
      c ←
          make_cluster_manager lib ct.spec (filter_cluster_resources ct items)
            (some (hostname2cluster_ip items))
      scale_out_cluster lib c ct.meta.name (hostname2cluster_ip items) pre cur
      pure false)

  -- Whether to come again; the steps are those that the difference of the clusters asks for.
  unfoldable pub update_tidb_cluster : TiDbCluster → TiDbCluster → Prog Bool
  unfolding upgrade_tidb_cluster update_cluster_config scale_in_tidb_cluster scale_out_tidb_cluster
  update_tidb_cluster pre cur = do
    (if is_upgraded pre cur then upgrade_tidb_cluster cur else pure tt)
    (if is_config_modified pre cur then update_cluster_config pre cur else pure tt)
    left ← (if shrinks pre cur then scale_in_tidb_cluster pre cur else pure pre)
    (if grows left cur then scale_out_tidb_cluster left cur else pure false)

  without_pending : List Str → List Str → List Str
  without_pending pending [] = []
  without_pending pending (node ∷ nodes) =
      let rest = without_pending pending nodes in
      if strings_contains pending node then rest else node ∷ rest

  -- The stores that are on their way out: pending, and offline without those.
  unfoldable pub check_tikv_finished_scale_in : Prog (List Str × List Str)
  unfolding child_resources without_pending
  check_tikv_finished_scale_in = do
    items ← child_resources rr
    c ← make_cluster_manager lib ct.spec (filter_cluster_resources ct items) none
    pending ← get_node_status_list lib c ct.meta.name (codes "Pending")
    offline ← get_node_status_list lib c ct.meta.name (codes "Offline")
    pure (pending, without_pending pending offline)

  unfoldable pub prune_tidb_cluster : Prog (Unit {0})
  unfolding child_resources
  prune_tidb_cluster = do
    items ← child_resources rr
    c ← make_cluster_manager lib ct.spec (filter_cluster_resources ct items) none
    prune_cluster lib c ct.meta.name
