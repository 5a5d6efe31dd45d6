-- ===== src/Topology/Components.antt =====
-- api/v1/testclustertopology_types.go: the components of a cluster. A slice that is nil is `none`,
-- which reflect.DeepEqual tells apart from an empty one.
use native.Mathlib.Decide.{ℕ_discrete}
use naglfar.Prelude.{
  Bool, true, false, List, [], ◌∷◌, ◌++◌, Option, none, some, Str, ◌≡◌, ◌↔◌, arith,
}
use naglfar.Prelude.Int.{ℤ}
use naglfar.Util.Decimal.{print_int}

abbrev pub Slice : Type 0 → Type 0
Slice A = Option (List A)

-- What `range` and len see of a slice.
abbrev pub elems : {A : Type 0} → Slice A → List A
elems none = []
elems (some xs) = xs

-- reflect.DeepEqual
abbrev pub deep_equal : {A : Type 0} → Discrete A → A → A → Bool
deep_equal same a b = elim (same a b) [ yes h ↦ true | no h ↦ false ]

pub deep_equal_iff :
    {A : Type 0} (same : Discrete A) (a b : A) → (deep_equal same a b ≡ true) ↔ (a ≡ b)
deep_equal_iff same a b = ground (arith, same a b)

pub record TiDbSpec : Type 0 where
  pub host : Str
  pub port : ℤ
  pub config : Str
  pub status_port : ℤ
  pub deploy_dir : Str
  pub log_dir : Str

pub record PdSpec : Type 0 where
  pub host : Str
  pub client_port : ℤ
  pub peer_port : ℤ
  pub config : Str
  pub deploy_dir : Str
  pub data_dir : Str
  pub log_dir : Str

pub record TiKvSpec : Type 0 where
  pub host : Str
  pub port : ℤ
  pub status_port : ℤ
  pub config : Str
  pub deploy_dir : Str
  pub data_dir : Str
  pub log_dir : Str

pub record PumpSpec : Type 0 where
  pub host : Str
  pub ssh_port : ℤ
  pub port : ℤ
  pub deploy_dir : Str
  pub data_dir : Str
  pub config : Str

pub record DrainerSpec : Type 0 where
  pub host : Str
  pub config : Str
  pub ssh_port : ℤ
  pub port : ℤ
  pub commit_ts : ℤ
  pub deploy_dir : Str
  pub data_dir : Str

pub record PrometheusSpec : Type 0 where
  pub host : Str
  pub port : ℤ
  pub deploy_dir : Str
  pub data_dir : Str
  pub log_dir : Str

pub record TiFlashSpec : Type 0 where
  pub host : Str
  pub tcp_port : ℤ
  pub http_port : ℤ
  pub service_port : ℤ
  pub proxy_port : ℤ
  pub proxy_status_port : ℤ
  pub metrics_port : ℤ
  pub deploy_dir : Str
  pub data_dir : Str
  pub config : Str
  pub learner_config : Str
  pub log_dir : Str

pub record GrafanaSpec : Type 0 where
  pub host : Str
  pub port : ℤ
  pub deploy_dir : Str

pub record CdcSpec : Type 0 where
  pub host : Str
  pub port : ℤ
  pub deploy_dir : Str
  pub log_dir : Str

pub record AlertManagerSpec : Type 0 where
  pub host : Str
  pub web_port : ℤ
  pub cluster_port : ℤ
  pub deploy_dir : Str
  pub data_dir : Str
  pub log_dir : Str

pub record HaProxy : Type 0 where
  pub host : Str
  pub port : ℤ
  pub version : Str
  pub config : Str

-- The key under which tiup knows a component.
unfoldable pub tidb_entry_id : TiDbSpec → Str
tidb_entry_id t = t.host ++ (b':' ∷ print_int t.port)

unfoldable pub pd_entry_id : PdSpec → Str
pd_entry_id t = t.host ++ (b'-' ∷ print_int t.client_port)

unfoldable pub tikv_entry_id : TiKvSpec → Str
tikv_entry_id t = t.host ++ (b'-' ∷ print_int t.port)

pub TiDbSpec-discrete : Discrete TiDbSpec
TiDbSpec-discrete = hlevel ℕ_discrete

pub PdSpec-discrete : Discrete PdSpec
PdSpec-discrete = hlevel ℕ_discrete

pub TiKvSpec-discrete : Discrete TiKvSpec
TiKvSpec-discrete = hlevel ℕ_discrete

pub PumpSpec-discrete : Discrete PumpSpec
PumpSpec-discrete = hlevel ℕ_discrete

pub DrainerSpec-discrete : Discrete DrainerSpec
DrainerSpec-discrete = hlevel ℕ_discrete

pub PrometheusSpec-discrete : Discrete PrometheusSpec
PrometheusSpec-discrete = hlevel ℕ_discrete

pub TiFlashSpec-discrete : Discrete TiFlashSpec
TiFlashSpec-discrete = hlevel ℕ_discrete

pub GrafanaSpec-discrete : Discrete GrafanaSpec
GrafanaSpec-discrete = hlevel ℕ_discrete

pub CdcSpec-discrete : Discrete CdcSpec
CdcSpec-discrete = hlevel ℕ_discrete

pub AlertManagerSpec-discrete : Discrete AlertManagerSpec
AlertManagerSpec-discrete = hlevel ℕ_discrete

pub HaProxy-discrete : Discrete HaProxy
HaProxy-discrete = hlevel ℕ_discrete
