-- ===== src/Examples/Clusters.antt =====
-- A TiDB cluster before and after a store leaves it, and a workload on it.
use naglfar.Prelude.{List, Str, ok, [], ◌∷◌, none, some, codes, false}
use naglfar.Prelude.Int.{pos}
use naglfar.Examples.Data.{meta_named, db}
use naglfar.Resource.{TestResource, PullImagePolicy}
use naglfar.Tiup.Specification.{SpecLib}
use naglfar.Topology.Components.{TiDbSpec, PdSpec, TiKvSpec}
use naglfar.Topology.{TiDbCluster, TestClusterTopology, ClusterTopologyState}
use naglfar.Workload.{TestWorkload, TestWorkloadState}

-- Every text parses, no drainer has a target and nothing is set by default.
abbrev pub plain_lib : SpecLib
plain_lib = record {
  yaml_error = λ text. none;
  syncer_to_host = λ text. none;
  set_defaults = λ spec. some spec;
  set_dm_defaults = λ spec. spec;
  set_flink_defaults = λ spec. spec;
  marshal_spec = λ spec. ok [];
  marshal_meta = λ version spec. ok [];
  marshal_scale_out = λ roles. ok [];
  marshal_dm = λ spec. ok [];
  trim_space = λ text. text;
  url_base = λ url. none;
}

abbrev pub tidb_on : Str → TiDbSpec
tidb_on host = record {
  host = host;
  port = pos 4000;
  config = [];
  status_port = pos 0;
  deploy_dir = codes "/d";
  log_dir = [];
}

abbrev pub pd_on : Str → PdSpec
pd_on host = record {
  host = host;
  client_port = pos 0;
  peer_port = pos 0;
  config = [];
  deploy_dir = codes "/d";
  data_dir = codes "/v";
  log_dir = [];
}

abbrev pub tikv_on : Str → TiKvSpec
tikv_on host = record {
  host = host;
  port = pos 0;
  status_port = pos 0;
  config = [];
  deploy_dir = codes "/d";
  data_dir = codes "/v";
  log_dir = [];
}

abbrev pub three_stores : TiDbCluster
three_stores = record {
  tiup_mirror = [];
  upgrade_policy = [];
  version = record {
    version = codes "v5.0.0";
    tidb_download_url = [];
    tikv_download_url = [];
    pd_download_url = [];
    patch_policy = [];
  };
  global = none;
  server_configs = record { tidb = []; tikv = []; pd = [] };
  control = codes "n0";
  ha_proxy = none;
  tidb = some (tidb_on (codes "n1") ∷ []);
  tikv = some (tikv_on (codes "n1") ∷ tikv_on (codes "n2") ∷ tikv_on (codes "n3") ∷ []);
  pd = some (pd_on (codes "n1") ∷ []);
  pump = none;
  drainer = none;
  monitor = none;
  grafana = none;
  alert_manager = none;
  cdc = none;
  tiflash = none;
}

abbrev pub two_stores : TiDbCluster
two_stores = record three_stores { tikv = some (tikv_on (codes "n1") ∷ tikv_on (codes "n2") ∷ []) }

abbrev pub topology : TestClusterTopology
topology = record {
  meta = meta_named (codes "c") (codes "c1");
  spec = record {
    resource_request = codes "q";
    tidb_cluster = some two_stores;
    flink_cluster = none;
    dm_cluster = none;
  };
  status = record {
    pre_tidb_cluster = some three_stores;
    tidb_cluster_info = record {
      is_scaling = false;
      pending_offline_list = none;
      offline_list = none;
    };
    state = ClusterTopologyState.ready;
  };
}

-- One container, on the node db.
abbrev pub workload : TestWorkload
workload = record {
  meta = meta_named (codes "w") (codes "w1");
  spec = record {
    cluster_topologies_refs = [];
    workloads =
        record {
          name = codes "bench";
          docker_container = some (record {
            resource_request = record { name = codes "q"; node = codes "db" };
            image = codes "bench:1";
            image_pull_policy = PullImagePolicy.unset;
            command = [];
          });
        }
        ∷ [];
    teardown_test_cluster_topology = [];
  };
  status = record { state = TestWorkloadState.running; workload_status = some []; results = none };
}

abbrev pub one_store : TiDbCluster
one_store = record three_stores { tikv = some (tikv_on (codes "n1") ∷ []) }

-- An alert manager on a node of its own.
abbrev pub alerting : TiDbCluster
alerting = record two_stores {
  alert_manager = some (
      record {
        host = codes "n9";
        web_port = pos 0;
        cluster_port = pos 0;
        deploy_dir = codes "/d";
        data_dir = [];
        log_dir = [];
      }
      ∷ []);
}

abbrev pub newer : TiDbCluster
newer = record two_stores { version = record two_stores.version { version = codes "v6.0.0" } }

-- From two_stores to its newer version.
abbrev pub upgrading : TestClusterTopology
upgrading = record topology {
  spec = record topology.spec { tidb_cluster = some newer };
  status = record topology.status {
    pre_tidb_cluster = some two_stores;
    state = ClusterTopologyState.updating;
  };
}

abbrev pub node_named : Str → TestResource
node_named name = record db { meta = meta_named name name }

abbrev pub nodes : List TestResource
nodes = node_named (codes "n0") ∷ node_named (codes "n1") ∷ node_named (codes "n2") ∷ []
