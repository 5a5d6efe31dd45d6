-- ===== src/Control/Topology/Updating.antt =====
-- How an update and an installation of a cluster end.
use naglfar.Prelude.{Bool, true, false, ◌∷◌, some, ok, ◌≡◌, ◌⊎◌}
use naglfar.Control.Calls.{Env, Log, write_topology_status}
use naglfar.Control.Effects.{Result, after}
use naglfar.Control.Topology.Clusters.{update_tidb_cluster}
use naglfar.Request.{TestResourceRequest}
use naglfar.Tiup.Changes.{shrinks}
use naglfar.Tiup.Specification.{SpecLib}
use naglfar.Topology.{TestClusterTopology, ClusterTopologyState, TiDbCluster}

module _ (lib : SpecLib) (ct : TestClusterTopology) (env : Env) where
  -- The cluster was updated from the one that the status remembered to the one that is asked for, with the
  -- scaling noted where it shrank. Either the update is to be continued and nothing more was called, or the last call
  -- writes the status ready that remembers the new cluster.
  pub record Updated (r : Result) (last : Log) : Type 0 where
    pub rr : TestResourceRequest
    pub pre : TiDbCluster
    pub cur : TiDbCluster
    pub acting : TestClusterTopology
    pub requeue : Bool
    pub log : Log
    pub mid : Log
    pub was : ct.status.pre_tidb_cluster ≡ some pre
    pub wanted : ct.spec.tidb_cluster ≡ some cur
    pub same_spec : acting.spec ≡ ct.spec
    pub noted : shrinks pre cur ≡ true → acting.status.tidb_cluster_info.is_scaling ≡ true
    pub ran : update_tidb_cluster lib acting rr pre cur env log ≡ (ok requeue, mid)
    pub ended :
        ((requeue ≡ true) × (r ≡ after 10) × (last ≡ mid))
        ⊎ ((requeue ≡ false)
            × (written : TestClusterTopology) × (last ≡ write_topology_status written ∷ mid)
            × (written.status.state ≡ ClusterTopologyState.ready)
            × (written.status.pre_tidb_cluster ≡ ct.spec.tidb_cluster)
            × (written.spec ≡ ct.spec))
