-- ===== src/Container.antt =====
-- What the code asks Docker for and reads from its replies (github.com/docker/docker), the
-- configurations of pkg/container, and time stamps.
use naglfar.Prelude.{
  Bool, true, false, List, [], ◌∷◌, Option, none, some, Str, str_eq, codes, Map, ◌==◌,
  if◌then◌else◌,
}
use naglfar.Prelude.Int.{ℤ, pos}
use naglfar.Relationship.{Nillable}

pub record Mount : Type 0 where
  pub mount_type : Str
  pub source : Str
  pub target : Str
  pub read_only : Bool

-- container.Config
pub record Config : Type 0 where
  pub hostname : Str
  pub image : Str
  pub entrypoint : List Str
  pub cmd : List Str
  pub env : List Str
  pub exposed_ports : List Str
  pub labels : Map Str

-- container.HostConfig
pub record HostConfig : Type 0 where
  pub binds : List Str
  pub mounts : List Mount
  pub publish_all_ports : Bool
  pub port_bindings : Map Str
  pub memory : ℤ
  pub cpuset_cpus : Str
  pub cap_add : List Str
  pub privileged : Bool
  pub pid_mode : Str
  pub restart_policy : Str

abbrev pub no_config : Config
no_config = record {
  hostname = [];
  image = [];
  entrypoint = [];
  cmd = [];
  env = [];
  exposed_ports = [];
  labels = [];
}

abbrev pub no_host_config : HostConfig
no_host_config = record {
  binds = [];
  mounts = [];
  publish_all_ports = false;
  port_bindings = [];
  memory = pos 0;
  cpuset_cpus = [];
  cap_add = [];
  privileged = false;
  pid_mode = [];
  restart_policy = [];
}

-- types.ContainerJSON, as far as it is read. `labels` is stat.Config, which may be nil, with its
-- Labels, which may be nil; `ports` maps a port to the host ports that it is bound to.
pub record Container : Type 0 where
  pub id : Str
  pub name : Str
  pub started_at : Str
  pub finished_at : Str
  pub restarting : Bool
  pub running : Bool
  pub exit_code : ℤ
  pub labels : Option (Nillable Str)
  pub has_host_config : Bool
  pub networks : Map Str
  pub ports : Map (List Str)

-- What is left of `s` behind `prefix`.
strip : Str → Str → Option Str
strip [] s = some s
strip (p ∷ prefix) [] = none
strip (p ∷ prefix) (c ∷ s) = let rest = strip prefix s in if p == c then rest else none

-- Zeros, then a zone without an offset.
zero_fraction : Str → Bool
zero_fraction [] = false
zero_fraction (c ∷ s) =
    let rest = zero_fraction s in if c == b'0' then rest else str_eq (c ∷ s) (codes "Z")

-- At least one digit follows the point.
zero_digits : Str → Bool
unfolding zero_fraction
zero_digits [] = false
zero_digits (c ∷ s) = if c == b'0' then zero_fraction s else false

zero_rest : Str → Bool
unfolding zero_digits
zero_rest [] = false
zero_rest (c ∷ s) = if c == b'.' then zero_digits s else str_eq (c ∷ s) (codes "Z")

-- timeIsZero, TimeIsZero: an RFC 3339 time that is the zero time of Go, with or without a fraction.
-- Docker reports times in UTC, so that zones with an offset are left out.
unfoldable pub time_is_zero : Str → Bool
unfolding strip zero_rest
time_is_zero time = elim (strip (codes "0001-01-01T00:00:00") time) [
  | none ↦ false
  | some rest ↦ zero_rest rest
]

abbrev pub chaos_daemon : Str
chaos_daemon = codes "chaos-daemon"

abbrev pub chaos_daemon_port : Str
chaos_daemon_port = codes "31767/tcp"

abbrev pub chaos_daemon_image : Str
chaos_daemon_image = codes "docker.io/pingcap/chaos-daemon:v1.0.2"

abbrev pub locker_label : Str
locker_label = codes "locker"

bind_mount : Str → Mount
bind_mount m = record { mount_type = codes "bind"; source = m; target = m; read_only = false }

unfoldable pub chaos_daemon_cfg : Str → Config × HostConfig
unfolding bind_mount
chaos_daemon_cfg locker = (
  record no_config {
    image = chaos_daemon_image;
    cmd = codes "/usr/local/bin/chaos-daemon" ∷ codes "--runtime" ∷ codes "docker" ∷ [];
    labels = (locker_label, locker) ∷ [];
    exposed_ports = chaos_daemon_port ∷ [];
  },
  record no_host_config {
    mounts = bind_mount (codes "/var/run/docker.sock") ∷ bind_mount (codes "/sys") ∷ [];
    publish_all_ports = true;
    cap_add =
        codes "SYS_PTRACE"
        ∷ codes "NET_ADMIN"
        ∷ codes "MKNOD"
        ∷ codes "SYS_CHROOT"
        ∷ codes "SYS_ADMIN"
        ∷ codes "KILL"
        ∷ codes "IPC_LOCK"
        ∷ [];
  },
)

abbrev pub machine_stat : Str
machine_stat = codes "naglfar-machine-stat"

abbrev pub machine_stat_image : Str
machine_stat_image = codes "docker.io/alexeiled/nsenter"

-- The script comes from the box that the build packs; a missing script panics before this point.
unfoldable pub machine_stat_cfg : Str → Config × HostConfig
machine_stat_cfg os_stat_script = (
  record no_config {
    image = machine_stat_image;
    cmd =
        codes "-m"
        ∷ codes "--target"
        ∷ codes "1"
        ∷ codes "--"
        ∷ codes "sh"
        ∷ codes "-c"
        ∷ os_stat_script
        ∷ [];
  },
  record no_host_config { privileged = true; pid_mode = codes "host" },
)

abbrev pub upload_daemon : Str
upload_daemon = codes "upload-daemon"

abbrev pub upload_daemon_image : Str
upload_daemon_image = codes "docker.io/pingcapqe/upload-daemon:latest"

abbrev pub upload_port : Str
upload_port = codes "6666/tcp"

unfoldable pub upload_daemon_cfg : Config × HostConfig
upload_daemon_cfg = (
  record no_config { image = upload_daemon_image },
  record no_host_config {
    port_bindings = (upload_port, codes "31234") ∷ [];
    binds = codes "/var/naglfar/lib:/var/naglfar/lib" ∷ [];
    publish_all_ports = true;
    restart_policy = codes "always";
  },
)
