-- ===== src/Topology.antt =====
-- api/v1/testclustertopology_types.go: the topology of a cluster that is under test.
pub mod Components
pub mod Hosts
use native.Mathlib.Decide.{ℕ_discrete}
use naglfar.Prelude.{Bool, Option, Str}
use naglfar.Prelude.Int.{ℤ}
use naglfar.Ref.{ObjectMeta}
use naglfar.Topology.Components.{
  Slice, TiDbSpec, PdSpec, TiKvSpec, PumpSpec, DrainerSpec, PrometheusSpec, TiFlashSpec,
  GrafanaSpec, CdcSpec, AlertManagerSpec, HaProxy,
}

-- The enumeration of the type PatchPolicy is not checked: any string may stand here.
pub record TiDbClusterVersion : Type 0 where
  pub version : Str
  pub tidb_download_url : Str
  pub tikv_download_url : Str
  pub pd_download_url : Str
  pub patch_policy : Str

pub record ServerConfigs : Type 0 where
  pub tidb : Str
  pub tikv : Str
  pub pd : Str

pub record Global : Type 0 where
  pub deploy_dir : Str
  pub data_dir : Str

pub record TiDbCluster : Type 0 where
  pub tiup_mirror : Str
  pub upgrade_policy : Str
  pub version : TiDbClusterVersion
  pub global : Option Global
  pub server_configs : ServerConfigs
  pub control : Str
  pub ha_proxy : Option HaProxy
  pub tidb : Slice TiDbSpec
  pub tikv : Slice TiKvSpec
  pub pd : Slice PdSpec
  pub pump : Slice PumpSpec
  pub drainer : Slice DrainerSpec
  pub monitor : Slice PrometheusSpec
  pub grafana : Slice GrafanaSpec
  pub alert_manager : Slice AlertManagerSpec
  pub cdc : Slice CdcSpec
  pub tiflash : Slice TiFlashSpec

pub record JobManagerSpec : Type 0 where
  pub host : Str
  pub web_port : ℤ
  pub config : Str

pub record TaskManagerSpec : Type 0 where
  pub host : Str
  pub config : Str

pub record FlinkCluster : Type 0 where
  pub version : Str
  pub job_manager : JobManagerSpec
  pub task_manager : Slice TaskManagerSpec

pub record DmServerConfigs : Type 0 where
  pub master : Str
  pub worker : Str

pub record MasterSpec : Type 0 where
  pub host : Str
  pub port : ℤ
  pub peer_port : ℤ
  pub deploy_dir : Str
  pub data_dir : Str
  pub config : Str
  pub log_dir : Str

pub record WorkerSpec : Type 0 where
  pub host : Str
  pub port : ℤ
  pub deploy_dir : Str
  pub data_dir : Str
  pub log_dir : Str
  pub config : Str

pub record DmCluster : Type 0 where
  pub version : Str
  pub global : Option Global
  pub server_configs : DmServerConfigs
  pub control : Str
  pub master : Slice MasterSpec
  pub worker : Slice WorkerSpec
  pub alert_manager : Slice AlertManagerSpec
  pub monitor : Slice PrometheusSpec
  pub grafana : Slice GrafanaSpec

pub record TestClusterTopologySpec : Type 0 where
  pub resource_request : Str
  pub tidb_cluster : Option TiDbCluster
  pub flink_cluster : Option FlinkCluster
  pub dm_cluster : Option DmCluster

pub record TiDbClusterInfo : Type 0 where
  pub is_scaling : Bool
  pub pending_offline_list : Slice Str
  pub offline_list : Slice Str

-- `unset` is "", the state of a new object.
pub data ClusterTopologyState : Type 0 where
  unset pending ready updating : ClusterTopologyState

pub record TestClusterTopologyStatus : Type 0 where
  pub pre_tidb_cluster : Option TiDbCluster
  pub tidb_cluster_info : TiDbClusterInfo
  pub state : ClusterTopologyState

pub record TestClusterTopology : Type 0 where
  pub meta : ObjectMeta
  pub spec : TestClusterTopologySpec
  pub status : TestClusterTopologyStatus

unfoldable pub ServerConfigs-discrete : Discrete ServerConfigs
ServerConfigs-discrete = hlevel ℕ_discrete

pub Global-discrete : Discrete Global
Global-discrete = hlevel ℕ_discrete

pub TiDbCluster-discrete : Discrete TiDbCluster
TiDbCluster-discrete = hlevel ℕ_discrete
