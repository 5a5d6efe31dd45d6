-- ===== src/Resource/Configs.antt =====
-- ContainerConfig and ContainerCleanerConfig of api/v1/testresource_types.go.
use mathlib.Core.List.{reverse}
use naglfar.Prelude.{
  Bool, true, false, List, [], ◌∷◌, ◌++◌, Str, str_eq, codes, Map, Outcome, ok, ◌>>=◌, ◌==◌,
  if◌then◌else◌,
}
use naglfar.Container.{Mount, Config, HostConfig, no_config, no_host_config}
use naglfar.Machine.Cores.{cpu_set_str}
use naglfar.Ref.{split}
use naglfar.Relationship.{DiskBinding, ResourceBinding}
use naglfar.Resource.{TestResource, TestResourceMount}
use naglfar.Util.{strings_contains}
use naglfar.Util.Bytes.{Units, unwrap}

-- The loop over the disks.
unfoldable pub disk_mounts : Map DiskBinding → List Mount
disk_mounts [] = []
disk_mounts ((name, disk) ∷ disks) =
    record {
      mount_type = codes "bind";
      source = disk.origin_path;
      target = disk.mount_path;
      read_only = false;
    }
    ∷ disk_mounts disks

-- The loop over the mounts of the status.
own_mounts : List TestResourceMount → List Mount
own_mounts [] = []
own_mounts (m ∷ mounts) =
    record {
      mount_type = m.mount_type;
      source = m.source;
      target = m.target;
      read_only = m.read_only;
    }
    ∷ own_mounts mounts

-- A nat.PortSet as the list of its keys.
port_set : List Str → List Str → List Str
port_set [] ports = ports
port_set (item ∷ items) ports =
    port_set items (if strings_contains ports item then ports else ports ++ (item ∷ []))

-- Command[:1] and Command[1:], and nothing for an empty command
entrypoint : List Str → List Str
entrypoint [] = []
entrypoint (c ∷ command) = c ∷ []

arguments : List Str → List Str
arguments [] = []
arguments (c ∷ command) = command

module _ (units : Units) where
  unfoldable pub container_config : TestResource → ResourceBinding → Outcome (Config × HostConfig)
  unfolding disk_mounts own_mounts port_set entrypoint arguments
  container_config r binding = do
    memory ← unwrap units binding.memory
    ok (
      record no_config {
        hostname = r.status.host_name;
        image = r.status.container.image;
        entrypoint = entrypoint r.status.container.command;
        cmd = arguments r.status.container.command;
        env = r.status.container.envs;
        exposed_ports = port_set r.status.container.exposed_ports [];
      },
      record no_host_config {
        binds = r.status.container.binds;
        mounts = disk_mounts binding.disks ++ own_mounts r.status.container.mounts;
        publish_all_ports = true;
        memory = memory;
        cpuset_cpus = cpu_set_str binding.cpu_set;
        cap_add = r.status.container.cap_add;
        privileged = r.status.container.privilege;
      },
    )

-- path.Clean on the elements of a path: `out` holds those that are kept, the last one first.
up : Bool → List Str → List Str
up rooted [] = if rooted then [] else codes ".." ∷ []
up rooted (last ∷ out) = if str_eq last (codes "..") then codes ".." ∷ last ∷ out else out

clean_elements : Bool → List Str → List Str → List Str
unfolding up
clean_elements rooted out [] = reverse out
clean_elements rooted out (e ∷ elements) =
    clean_elements rooted
      (if str_eq e []
        then out
        else (if str_eq e (codes ".")
            then out
            else (if str_eq e (codes "..") then up rooted out else e ∷ out)))
      elements

join_with : Str → List Str → Str
join_with sep [] = []
join_with sep (e ∷ []) = e
join_with sep (e ∷ f ∷ elements) = e ++ sep ++ join_with sep (f ∷ elements)

is_rooted : Str → Bool
is_rooted [] = false
is_rooted (c ∷ s) = c == b'/'

-- path.Join(target, "*"); the empty target is left out.
join_star : Str → Str
unfolding clean_elements join_with is_rooted
join_star [] = codes "*"
join_star (c ∷ target) =
    let rooted = is_rooted (c ∷ target) in
    let path =
      join_with (codes "/") (clean_elements rooted [] (split ((c ∷ target) ++ codes "/*"))) in
    if rooted then codes "/" ++ path else path

rm_commands : List Mount → List Str
unfolding join_star
rm_commands [] = []
rm_commands (mnt ∷ mounts) = (codes "rm -rf " ++ join_star mnt.target) ∷ rm_commands mounts

cleaner_cmd : List Mount → List Str
unfolding rm_commands join_with
cleaner_cmd [] = []
cleaner_cmd (mnt ∷ mounts) =
    codes "sh" ∷ codes "-c" ∷ join_with (codes ";") (rm_commands (mnt ∷ mounts)) ∷ []

abbrev pub cleaner_image : Str
cleaner_image = codes "hub.pingcap.net/mahjonp/alpine:latest"

unfoldable pub container_cleaner_config : ResourceBinding → Config × HostConfig
unfolding disk_mounts cleaner_cmd
container_cleaner_config binding = (
  record no_config { image = cleaner_image; cmd = cleaner_cmd (disk_mounts binding.disks) },
  record no_host_config { mounts = disk_mounts binding.disks },
)
