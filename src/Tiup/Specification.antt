-- ===== src/Tiup/Specification.antt =====
-- The fields that pkg/tiup/cluster/deploy.go sets of github.com/pingcap/tiup/pkg/cluster/spec.
use naglfar.Prelude.{List, Option, Str, Outcome}
use naglfar.Prelude.Int.{ℤ}
use naglfar.Topology.Components.{TiDbSpec, PdSpec, TiKvSpec}
use naglfar.Topology.{ServerConfigs, DmServerConfigs, FlinkCluster}

-- A configuration that was parsed is written as its text, with the value that replaces that of
-- syncer.to.host where there is one.
pub record Config : Type 0 where
  pub text : Str
  pub to_host : Option Str

pub record GlobalOptions : Type 0 where
  pub user : Str
  pub ssh_port : ℤ
  pub data_dir : Str
  pub deploy_dir : Str

pub record TiDbServer : Type 0 where
  pub host : Str
  pub ssh_port : ℤ
  pub port : ℤ
  pub status_port : ℤ
  pub deploy_dir : Str
  pub log_dir : Str
  pub config : Config

pub record TiKvServer : Type 0 where
  pub host : Str
  pub ssh_port : ℤ
  pub port : ℤ
  pub status_port : ℤ
  pub deploy_dir : Str
  pub data_dir : Str
  pub log_dir : Str
  pub config : Config

pub record PdServer : Type 0 where
  pub host : Str
  pub ssh_port : ℤ
  pub client_port : ℤ
  pub peer_port : ℤ
  pub deploy_dir : Str
  pub data_dir : Str
  pub log_dir : Str
  pub config : Config

pub record PumpServer : Type 0 where
  pub host : Str
  pub port : ℤ
  pub ssh_port : ℤ
  pub deploy_dir : Str
  pub data_dir : Str
  pub config : Config

pub record Drainer : Type 0 where
  pub host : Str
  pub port : ℤ
  pub ssh_port : ℤ
  pub commit_ts : ℤ
  pub deploy_dir : Str
  pub data_dir : Str
  pub config : Config

pub record Prometheus : Type 0 where
  pub host : Str
  pub ssh_port : ℤ
  pub port : ℤ
  pub deploy_dir : Str
  pub data_dir : Str
  pub log_dir : Str

pub record Grafana : Type 0 where
  pub host : Str
  pub ssh_port : ℤ
  pub port : ℤ
  pub deploy_dir : Str

pub record Alertmanager : Type 0 where
  pub host : Str
  pub ssh_port : ℤ
  pub web_port : ℤ
  pub cluster_port : ℤ
  pub deploy_dir : Str

pub record CdcServer : Type 0 where
  pub host : Str
  pub ssh_port : ℤ
  pub port : ℤ
  pub deploy_dir : Str
  pub log_dir : Str

pub record TiFlashServer : Type 0 where
  pub host : Str
  pub ssh_port : ℤ
  pub tcp_port : ℤ
  pub http_port : ℤ
  pub flash_service_port : ℤ
  pub flash_proxy_port : ℤ
  pub flash_proxy_status_port : ℤ
  pub status_port : ℤ
  pub deploy_dir : Str
  pub data_dir : Str
  pub log_dir : Str
  pub config : Config
  pub learner_config : Config

pub record Specification : Type 0 where
  pub global_options : GlobalOptions
  pub server_configs : ServerConfigs
  pub tidb_servers : List TiDbServer
  pub tikv_servers : List TiKvServer
  pub pd_servers : List PdServer
  pub pump_servers : List PumpServer
  pub drainers : List Drainer
  pub monitors : List Prometheus
  pub grafanas : List Grafana
  pub alertmanagers : List Alertmanager
  pub cdc_servers : List CdcServer
  pub tiflash_servers : List TiFlashServer

-- The fields that pkg/tiup/dm/deploy.go sets of its specification.
pub record DmMaster : Type 0 where
  pub host : Str
  pub ssh_port : ℤ
  pub peer_port : ℤ
  pub port : ℤ
  pub data_dir : Str
  pub deploy_dir : Str
  pub log_dir : Str
  pub config : Config

pub record DmWorker : Type 0 where
  pub host : Str
  pub ssh_port : ℤ
  pub port : ℤ
  pub deploy_dir : Str
  pub log_dir : Str
  pub config : Config

pub record DmAlertmanager : Type 0 where
  pub host : Str
  pub ssh_port : ℤ
  pub cluster_port : ℤ
  pub web_port : ℤ
  pub deploy_dir : Str
  pub data_dir : Str
  pub log_dir : Str

pub record DmSpecification : Type 0 where
  pub global_options : GlobalOptions
  pub server_configs : DmServerConfigs
  pub masters : List DmMaster
  pub workers : List DmWorker
  pub monitors : List Prometheus
  pub grafanas : List Grafana
  pub alertmanagers : List DmAlertmanager

-- What the code takes from libraries: yaml.Unmarshal (the text of its error, if it has one), the
-- string that a parsed text has under syncer.to.host, defaults.Set (`none` is an error), yaml.Marshal
-- of what is sent to tiup, strings.TrimSpace, and path.Base of the path of a parsed URL (`none` is an
-- error). For DM and Flink the error of defaults.Set is dropped, so only the result is given.
pub record SpecLib : Type 0 where
  pub yaml_error : Str → Option Str
  pub syncer_to_host : Str → Option Str
  pub set_defaults : Specification → Option Specification
  pub set_dm_defaults : DmSpecification → DmSpecification
  pub set_flink_defaults : FlinkCluster → FlinkCluster
  pub marshal_spec : Specification → Outcome Str
  pub marshal_meta : Str → Specification → Outcome Str
  pub marshal_scale_out : List TiDbSpec × List PdSpec × List TiKvSpec → Outcome Str
  pub marshal_dm : DmSpecification → Outcome Str
  pub trim_space : Str → Str
  pub url_base : Str → Option Str
