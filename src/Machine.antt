-- ===== src/Machine.antt =====
-- api/v1/machine_types.go: machines, and the CPU cores, memory and disks that they offer.
pub mod Cores
pub mod Rest
use naglfar.Prelude.{ℕ, Bool, List, Option, Str, Map}
use naglfar.Prelude.Int.{ℤ}
use naglfar.Ref.{ObjectMeta}
use naglfar.Util.Bytes.{BytesSize}

-- `unset` is the empty string.
pub data DiskKind : Type 0 where
  unset nvme other : DiskKind

pub DiskKind-discrete : Discrete DiskKind
DiskKind-discrete = hlevel

pub data MachineState : Type 0 where
  unset shutdown starting ready : MachineState

pub record ReserveResources : Type 0 where
  pub cores : ℤ
  pub memory : BytesSize

pub record StorageDevice : Type 0 where
  pub filesystem : Str
  pub total : BytesSize
  pub used : BytesSize
  pub mount_point : Str

pub record MachineInfo : Type 0 where
  pub architecture : Str
  pub threads : ℤ
  pub memory : BytesSize
  pub storage_devices : Map StorageDevice

pub record DiskResource : Type 0 where
  pub size : BytesSize
  pub kind : DiskKind
  pub mount_path : Str

pub record AvailableResource : Type 0 where
  pub memory : BytesSize
  pub idle_cpu_set : List ℕ
  pub disks : Map DiskResource

pub record MachineSpec : Type 0 where
  pub host : Str
  pub docker_port : ℤ
  pub docker_version : Str
  pub docker_tls : Bool
  pub reserve : Option ReserveResources
  pub exclusive_disks : List Str

pub record MachineStatus : Type 0 where
  pub state : MachineState
  pub chaos_port : ℤ
  pub info : Option MachineInfo
  pub upload_port : ℤ

pub record Machine : Type 0 where
  pub meta : ObjectMeta
  pub spec : MachineSpec
  pub status : MachineStatus
