-- ===== src/Control/Tiup/Patch.antt =====
-- pkg/tiup/cluster/deploy.go: patch and replace, which put binaries of the user's into a cluster.
use naglfar.Prelude.{
  Bool, not, ◌||◌, List, [], ◌∷◌, ◌++◌, Option, none, some, Str, codes, str_eq, map, err, failure,
  if◌then◌else◌,
}
use naglfar.Control.Calls.{Prog, connect_ssh, remote}
use naglfar.Control.Effects.{◌>>=◌, ◌>>◌, pure, lift}
use naglfar.Control.Tiup.Words.{ends, join, concat}
use naglfar.Control.Tiup.{checked}
use naglfar.Resource.{TestResourceStatus}
use naglfar.Tiup.Specification.{SpecLib, Specification}
use naglfar.Topology.{TiDbClusterVersion}

unfoldable pub should_patch : TiDbClusterVersion → Bool
should_patch version =
    not (str_eq version.tidb_download_url [])
    || (not (str_eq version.pd_download_url []) || not (str_eq version.tikv_download_url []))

unfoldable pub gen_unzip_command : Str → Str → Str
unfolding ends
gen_unzip_command file dest =
    if ends (codes ".zip") file
    then codes "unzip -d " ++ (dest ++ (codes " " ++ file))
    else (if ends (codes ".tar.gz") file
        then codes "tar -zxf " ++ (file ++ (codes " -C " ++ dest))
        else codes "tar -xf " ++ (file ++ (codes " -C " ++ dest)))

-- A binary, by the name without "-server", and where it comes from.
one_component : Str → Str → List (Str × Str)
one_component name url = if str_eq url [] then [] else (name, url) ∷ []

unfoldable pub patch_components : TiDbClusterVersion → List (Str × Str)
unfolding one_component
patch_components version =
    one_component (codes "tidb") version.tidb_download_url
    ++ (one_component (codes "tikv") version.tikv_download_url
        ++ one_component (codes "pd") version.pd_download_url)

server : Str → Str
server name = name ++ codes "-server"

module _ (lib : SpecLib) (control : TestResourceStatus) where
  download_from : Str → Str → Option Str → Prog (List Str)
  unfolding gen_unzip_command server
  download_from name url none = lift (err (failure (codes "parse")))
  download_from name url (some base) = pure (
      (codes "curl -O " ++ url)
      ∷ gen_unzip_command base (codes "components")
      ∷ (codes "rm -rf components/" ++ server name)
      ∷ concat (codes "mv components/bin/" ∷ server name ∷ codes " components/" ∷ server name ∷ [])
      ∷ [])

  download : Str × Str → Prog (List Str)
  unfolding download_from
  download (name, url) = download_from name url (lib.url_base url)

  downloads : List (Str × Str) → Prog (List Str)
  unfolding download
  downloads [] = pure []
  downloads (component ∷ components) = do
    commands ← download component
    rest ← downloads components
    pure (commands ++ rest)

  abbrev locked : List Str → Str
  locked commands =
      codes "flock -n /tmp/naglfar.tiup.lock -c \"" ++ (join (codes "\n") commands ++ codes "\"")

  abbrev opening : List Str
  opening = codes "set -ex" ∷ codes "rm -rf components && mkdir components" ∷ []

  -- The connection comes before the commands are put together.
  run_script : Str → List Str → Prog (Unit {0})
  unfolding checked join
  run_script message commands = do
    result ← remote (locked commands)
    _ ← checked message result
    pure tt

  patch_command : Str → Str × Str → Str
  patch_command cluster (name, url) = concat (
      codes "/root/.tiup/bin/tiup cluster patch " ∷ cluster ∷ codes " patch.tar.gz -R " ∷ name ∷ [])

  unfoldable pub patch : Str → TiDbClusterVersion → Prog (Unit {0})
  unfolding downloads run_script patch_command patch_components server
  patch cluster version = do
    connect_ssh control.host_ip control.ssh_port
    commands ← downloads (patch_components version)
    run_script (codes "patch cluster failed: ") (
        opening
        ++ (commands
            ++ ((codes "cd components && tar zcf patch.tar.gz "
                  ++ join (codes " ") (map (λ c. server c.0) (patch_components version)))
                ∷ map (patch_command cluster) (patch_components version))))

  -- scp of a binary to each server: the directory of a TiDB server has a bin/, and the command for a
  -- TiKV server ends in a space.
  copy_binary : Str → Str → Str → Str → Prog (Unit {0})
  unfolding server checked
  copy_binary name ending host dir = do
    result ← remote (
        concat (
          codes
            "scp -o StrictHostKeyChecking=no -o UserKnownHostsFile=/dev/null -i /root/insecure_key components/"
          ∷ server name
          ∷ codes " root@"
          ∷ host
          ∷ codes ":"
          ∷ dir
          ∷ codes "/"
          ∷ server name
          ∷ ending
          ∷ []))
    _ ← checked (codes "patch cluster failed: ") result
    pure tt

  copy_binaries : {A : Type 0} → Str → Str → (A → Str) → (A → Str) → List A → Prog (Unit {0})
  unfolding copy_binary
  copy_binaries name ending host dir [] = pure tt
  copy_binaries name ending host dir (s ∷ servers) = do
    copy_binary name ending (host s) (dir s)
    copy_binaries name ending host dir servers

  copy_component : Specification → Str → Prog (Unit {0})
  unfolding copy_binaries
  copy_component spec name =
      if str_eq name (codes "tidb")
      then copy_binaries name [] (λ s. s.host) (λ s. s.deploy_dir ++ codes "/bin") spec.tidb_servers
      else (if str_eq name (codes "tikv")
          then copy_binaries name (codes " ") (λ s. s.host) (λ s. s.deploy_dir) spec.tikv_servers
          else copy_binaries name [] (λ s. s.host) (λ s. s.deploy_dir) spec.pd_servers)

  copy_components : Specification → List (Str × Str) → Prog (Unit {0})
  unfolding copy_component
  copy_components spec [] = pure tt
  copy_components spec ((name, url) ∷ components) = do
    copy_component spec name
    copy_components spec components

  unfoldable pub replace : Specification → TiDbClusterVersion → Prog (Unit {0})
  unfolding downloads run_script patch_components copy_components
  replace spec version = do
    connect_ssh control.host_ip control.ssh_port
    commands ← downloads (patch_components version)
    run_script (codes "patch cluster failed: ") (opening ++ commands)
    copy_components spec (patch_components version)
