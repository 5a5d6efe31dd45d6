-- ===== src/Control/Topology/Removal.antt =====
-- controllers/testclustertopology_controller.go: deleteTopology.
use naglfar.Prelude.{
  List, [], ◌∷◌, ◌++◌, none, some, Str, codes, str_eq, Outcome, ok, err, panic, unfinished,
  not_found, if◌then◌else◌,
}
use naglfar.Control.Calls.{Prog, get_request, send, delete_config}
use naglfar.Control.Effects.{◌>>=◌, ◌>>◌, pure, lift, try}
use naglfar.Control.Tiup.Cluster.{make_cluster_manager, uninstall_cluster}
use naglfar.Control.Tiup.Dm.{make_dm_manager, uninstall_dm}
use naglfar.Control.Topology.Clusters.{child_resources}
use naglfar.Control.Topology.Nodes.{get_resource_machine}
use naglfar.Control.Topology.Proxy.{generate_file_prefix}
use naglfar.Request.{TestResourceRequest, RequestState}
use naglfar.Resource.{TestResource, TestResourceStatus}
use naglfar.Tiup.Specification.{SpecLib, DmSpecification}
use naglfar.Topology.{TestClusterTopology, TiDbCluster}

module _ (lib : SpecLib) (ct : TestClusterTopology) where
  delete_configs : Str → List TestResource → Prog (Unit {0})
  delete_configs host [] = pure tt
  delete_configs host (resource ∷ resources) = do
    (if str_eq resource.meta.name host
        then (do
          machine ← get_resource_machine resource
          send (delete_config machine (generate_file_prefix ct ++ codes "haproxy.cfg")))
        else pure tt)
    delete_configs host resources

  -- A cluster that does not exist is no error.
  uninstall_tidb : TiDbCluster → List TestResource → Prog (Unit {0})
  unfolding delete_configs
  uninstall_tidb tidb resources = do
    elim tidb.ha_proxy [ none ↦ pure tt | some proxy ↦ delete_configs proxy.host resources ]
    c ← make_cluster_manager lib ct.spec resources none
    _ ← uninstall_cluster lib c ct.meta.name
    pure tt

  uninstalled_dm : DmSpecification × TestResourceStatus → Prog (Unit {0})
  uninstalled_dm (spec, control) = do _ ← uninstall_dm lib spec control ct.meta.name; pure tt

  uninstall : List TestResource → Prog (Unit {0})
  unfolding uninstall_tidb uninstalled_dm
  uninstall resources = elim ct.spec.tidb_cluster [
    | some tidb ↦ uninstall_tidb tidb resources
    | none ↦ elim ct.spec.flink_cluster [
      | some flink ↦ pure tt
      | none ↦ elim ct.spec.dm_cluster [
        | none ↦ pure tt
        | some dm ↦ do c ← make_dm_manager lib ct.spec resources; uninstalled_dm c
      ]
    ]
  ]

  uninstall_from : RequestState → TestResourceRequest → Prog (Unit {0})
  unfolding uninstall
  uninstall_from RequestState.ready rr = do resources ← child_resources rr; uninstall resources
  uninstall_from _ rr = pure tt

  uninstall_found : Outcome TestResourceRequest → Prog (Unit {0})
  unfolding uninstall_from
  uninstall_found (ok rr) = uninstall_from rr.state rr
  uninstall_found (err not_found) = pure tt
  uninstall_found (err e) = lift (err e)
  uninstall_found panic = lift panic
  uninstall_found unfinished = lift unfinished

  unfoldable pub delete_topology : Prog (Unit {0})
  unfolding uninstall_found
  delete_topology = if str_eq ct.spec.resource_request [] then pure tt else (do
    found ←
        try
          (get_request (record { namespace = ct.meta.namespace; name = ct.spec.resource_request }))
    uninstall_found found)
