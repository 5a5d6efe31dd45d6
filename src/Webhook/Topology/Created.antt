-- ===== src/Webhook/Topology/Created.antt =====
-- What ValidateCreate of api/v1/testclustertopology_webhook.go accepts, described without the code.
use naglfar.Prelude.{false, Option, none, some, ok, ltb, ◌≡◌, ◌≢◌, ◌↔◌, ◌⊎◌, arith}
use naglfar.Topology.{TiDbCluster, TestClusterTopology}
use naglfar.Webhook.Topology.{Choices, is_set, count_cluster_num, create_tidb, validate_create}
use naglfar.Webhook.Topology.Accepted.{must_be_empty_iff}
use naglfar.Webhook.Topology.Fields.{get_empty_required_fields}
use naglfar.Webhook.Topology.Fields.Tips.{
  IsComplete, NamesDirectories, get_empty_required_fields_iff,
}

-- Two of the three kinds are absent.
unfoldable pub OneCluster : TestClusterTopology → Type 0
OneCluster r =
    ((r.spec.tidb_cluster ≡ none) × (r.spec.flink_cluster ≡ none))
    ⊎ ((r.spec.tidb_cluster ≡ none) × (r.spec.dm_cluster ≡ none))
    ⊎ ((r.spec.flink_cluster ≡ none) × (r.spec.dm_cluster ≡ none))

is_set_iff : {A : Type 0} (o : Option A) → (is_set o ≡ false) ↔ (o ≡ none)
is_set_iff none = ground arith
is_set_iff (some a) = ground arith

count_iff : (r : TestClusterTopology) → (ltb 1 (count_cluster_num r) ≡ false) ↔ OneCluster r
unfolding count_cluster_num OneCluster
count_iff r = ground (
  arith,
  is_set_iff r.spec.tidb_cluster,
  is_set_iff r.spec.flink_cluster,
  is_set_iff r.spec.dm_cluster,
)

-- The directories of the components are known.
unfoldable pub HasDirectories : Option TiDbCluster → Type 0
HasDirectories none = Unit
HasDirectories (some cluster) = (cluster.global ≢ none) ⊎ NamesDirectories cluster

module _ (choices : Choices) (complete : IsComplete choices.order) where
  create_tidb_iff :
      (cluster : Option TiDbCluster)
      → (create_tidb choices cluster ≡ ok tt) ↔ HasDirectories cluster
  unfolding create_tidb HasDirectories
  create_tidb_iff none = ground arith
  create_tidb_iff (some cluster) = ground (
    arith,
    must_be_empty_iff (get_empty_required_fields choices.order cluster),
    get_empty_required_fields_iff choices.order complete cluster,
  )

  -- ValidateCreate accepts a topology exactly when it names at most one kind of cluster and a TiDB
  -- cluster without a global section names the directories of its components, whatever the order in
  -- which the map of the required fields is visited.
  pub validate_create_iff :
      (r : TestClusterTopology)
      → (validate_create choices r ≡ ok tt) ↔ (OneCluster r × HasDirectories r.spec.tidb_cluster)
  unfolding validate_create
  validate_create_iff r = ground (arith, count_iff r, create_tidb_iff r.spec.tidb_cluster)
