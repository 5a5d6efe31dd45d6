-- ===== src/Resource.antt =====
-- api/v1/testresource_types.go: the resources that a test asks for, and the containers made of them.
pub mod Configs
use naglfar.Prelude.{Bool, true, false, List, [], ◌∷◌, ◌++◌, Option, Str, codes, Map}
use naglfar.Prelude.Int.{ℤ}
use naglfar.Machine.{DiskKind}
use naglfar.Ref.{Ref, ObjectMeta}
use naglfar.Util.Bytes.{BytesSize}

-- `fail` is in the enumeration of the CRD and has no constant in the code; `unset` is "".
pub data ResourceState : Type 0 where
  unset pending fail uninitialized ready finish destroy : ResourceState

pub ResourceState-discrete : Discrete ResourceState
ResourceState-discrete = hlevel

pub data ResourcePhase : Type 0 where
  unset pending running failed succeeded : ResourcePhase

unfoldable pub ResourcePhase-discrete : Discrete ResourcePhase
ResourcePhase-discrete = hlevel

unfoldable pub is_required : ResourceState → Bool
is_required ResourceState.unset = false
is_required ResourceState.pending = false
is_required _ = true

unfoldable pub could_uninstall : ResourceState → Bool
could_uninstall ResourceState.uninitialized = true
could_uninstall ResourceState.ready = true
could_uninstall ResourceState.finish = true
could_uninstall _ = false

pub record DiskSpec : Type 0 where
  pub mount_path : Str
  pub kind : DiskKind
  pub size : BytesSize

pub record TestResourceSpec : Type 0 where
  pub memory : BytesSize
  pub cores : ℤ
  pub machine_selector : Str
  pub disks : Map DiskSpec
  pub machine : Str

pub record TestResourceMount : Type 0 where
  pub mount_type : Str
  pub source : Str
  pub target : Str
  pub read_only : Bool

pub data PullImagePolicy : Type 0 where
  unset always if_not_present : PullImagePolicy

pub record ResourceContainerSpec : Type 0 where
  pub privilege : Bool
  pub cap_add : List Str
  pub mounts : List TestResourceMount
  pub binds : List Str
  pub image : Str
  pub image_pull_policy : PullImagePolicy
  pub command : List Str
  pub envs : List Str
  pub exposed_ports : List Str
  pub port_bindings : Str
  pub cluster_ip : Str

-- The zero value of the struct.
abbrev pub no_container : ResourceContainerSpec
no_container = record {
  privilege = false;
  cap_add = [];
  mounts = [];
  binds = [];
  image = [];
  image_pull_policy = PullImagePolicy.unset;
  command = [];
  envs = [];
  exposed_ports = [];
  port_bindings = [];
  cluster_ip = [];
}

-- The outer `PortBindings` hides that of the container's part.
pub record TestResourceStatus : Type 0 where
  pub state : ResourceState
  pub phase : ResourcePhase
  pub exit_code : ℤ
  pub container : ResourceContainerSpec
  pub host_ip : Str
  pub host_name : Str
  pub password : Str
  pub ssh_port : ℤ
  pub port_bindings : Str
  pub claim_ref : Option Ref

pub record TestResource : Type 0 where
  pub meta : ObjectMeta
  pub spec : TestResourceSpec
  pub status : TestResourceStatus

unfoldable pub container_name : TestResource → Str
container_name r = r.meta.namespace ++ (b'.' ∷ r.meta.name)

unfoldable pub container_cleaner_name : TestResource → Str
container_cleaner_name r = r.meta.namespace ++ (b'.' ∷ (r.meta.name ++ codes "-cleaner"))
