-- ===== src/Workload.antt =====
-- api/v1/testworkload_types.go: workloads, the containers that a test runs on its resources.
use naglfar.Prelude.{List, Option, Str}
use naglfar.Ref.{ObjectMeta}
use naglfar.Relationship.{Nillable}
use naglfar.Resource.{ResourcePhase, PullImagePolicy}

-- `unset` is "", the state of a new object.
pub data TestWorkloadState : Type 0 where
  unset pending running succeeded failed : TestWorkloadState

pub record ClusterTopologyRef : Type 0 where
  pub name : Str
  pub alias_name : Str

pub record ResourceRequestRef : Type 0 where
  pub name : Str
  pub node : Str

pub record ContainerSpec : Type 0 where
  pub resource_request : ResourceRequestRef
  pub image : Str
  pub image_pull_policy : PullImagePolicy
  pub command : List Str

pub record TestWorkloadItemSpec : Type 0 where
  pub name : Str
  pub docker_container : Option ContainerSpec

pub record TestWorkloadSpec : Type 0 where
  pub cluster_topologies_refs : List ClusterTopologyRef
  pub workloads : List TestWorkloadItemSpec
  pub teardown_test_cluster_topology : List Str

-- The results are plain texts.
pub record TestWorkloadStatus : Type 0 where
  pub state : TestWorkloadState
  pub workload_status : Nillable ResourcePhase
  pub results : Nillable Str

pub record TestWorkload : Type 0 where
  pub meta : ObjectMeta
  pub spec : TestWorkloadSpec
  pub status : TestWorkloadStatus
