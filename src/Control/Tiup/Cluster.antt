-- ===== src/Control/Tiup/Cluster.antt =====
-- pkg/tiup/cluster/deploy.go: the cluster manager of a TiDB cluster.
use naglfar.Prelude.{
  Bool, false, ◌&&◌, ◌||◌, List, [], ◌∷◌, ◌++◌, Option, Str, codes, str_eq, Map, Outcome, ok,
  if◌then◌else◌,
}
use naglfar.Control.Calls.{Prog}
use naglfar.Control.Effects.{◌>>=◌, ◌>>◌, pure, lift}
use naglfar.Control.Tiup.Patch.{should_patch, patch, replace}
use naglfar.Control.Tiup.Words.{contains, split_at, concat}
use naglfar.Control.Tiup.{run_on, run_checked, copy_to, Outcomes, unless_said}
use naglfar.Resource.{TestResource, TestResourceStatus}
use naglfar.Tiup.Build.{build_specification}
use naglfar.Tiup.Changes.{diff_tidb_cluster_config}
use naglfar.Tiup.Nodes.{get_scale_in_node, get_scale_out_roles}
use naglfar.Tiup.Specification.{SpecLib, Specification}
use naglfar.Topology.{TestClusterTopologySpec, TiDbCluster, TiDbClusterVersion}

pub record ClusterManager : Type 0 where
  pub spec : Specification
  pub control : TestResourceStatus

abbrev tiup : Str
tiup = codes "/root/.tiup/bin/tiup cluster "

module _ (lib : SpecLib) where
  managed : Specification × TestResourceStatus → Prog ClusterManager
  managed (spec, control) = pure (record { spec = spec; control = control })

  unfoldable pub make_cluster_manager :
      TestClusterTopologySpec → List TestResource → Option (Map Str) → Prog ClusterManager
  unfolding managed
  make_cluster_manager spec trs ips = do
    built ← lift (build_specification lib false spec.tidb_cluster trs ips)
    managed built

  module _ (c : ClusterManager) (name : Str) where
    -- IgnoreClusterDuplicated is applied to the outcome.
    deploy_cluster : Str → Prog Outcomes
    unfolding run_on unless_said
    deploy_cluster version = do
      result ← run_on c.control (
          concat (
            tiup
            ∷ codes "deploy -y "
            ∷ name
            ∷ codes " "
            ∷ version
            ∷ codes " /root/topology.yaml -i /root/insecure_key"
            ∷ []))
      unless_said (codes "specify another cluster name") (codes "deploy cluster failed: ") result

    start_cluster : Prog (Unit {0})
    unfolding run_checked
    start_cluster = do
      _ ←
          run_checked c.control (codes "start cluster failed: ")
            (concat (tiup ∷ codes "start " ∷ name ∷ []))
      pure tt

    set_tiup_mirror : Str → Prog (Unit {0})
    unfolding run_checked
    set_tiup_mirror mirror = do
      _ ←
          run_checked c.control (codes "deploy cluster failed: ")
            (codes "/root/.tiup/bin/tiup mirror set " ++ mirror)
      pure tt

    replaces : TiDbClusterVersion → Bool
    unfolding should_patch
    replaces version = should_patch version && str_eq version.patch_policy (codes "Replace")

    patches : TiDbClusterVersion → Bool
    unfolding should_patch
    patches version =
        should_patch version
        && (str_eq version.patch_policy (codes "Patch") || str_eq version.patch_policy [])

    unfoldable pub install_cluster : TiDbClusterVersion → Str → Prog (Unit {0})
    unfolding copy_to set_tiup_mirror deploy_cluster start_cluster replaces patches replace patch
    install_cluster version mirror = do
      out ← lift (lib.marshal_spec c.spec)
      copy_to c.control (codes "/root/topology.yaml") out
      (if str_eq (lib.trim_space mirror) [] then pure tt else set_tiup_mirror mirror)
      _ ← deploy_cluster version.version
      (if replaces version then replace lib c.control c.spec version else pure tt)
      start_cluster
      (if patches version then patch lib c.control name version else pure tt)

    role_flags : List Str → Str
    role_flags [] = []
    role_flags (role ∷ roles) = codes " -R " ++ (role ++ role_flags roles)

    reload_cluster : List Str → Prog (Unit {0})
    unfolding run_checked role_flags
    reload_cluster roles = do
      _ ← run_checked c.control (codes "cannot run remote command") (
          concat (
            codes
              "flock -n /tmp/naglfar.tiup.lock -c \"mv /tmp/meta.yaml /root/.tiup/storage/cluster/clusters/"
            ∷ name
            ∷ codes "/meta.yaml;"
            ∷ tiup
            ∷ codes "reload -y "
            ∷ name
            ∷ codes " "
            ∷ role_flags roles
            ∷ codes " --ignore-config-check\""
            ∷ []))
      pure tt

    update_roles : TiDbCluster → List Str → Prog (Unit {0})
    unfolding reload_cluster copy_to
    update_roles cur [] = pure tt
    update_roles cur (role ∷ roles) = do
      out ← lift (lib.marshal_meta cur.version.version c.spec)
      copy_to c.control (codes "/tmp/meta.yaml") out
      reload_cluster (role ∷ roles)

    unfoldable pub update_cluster : TiDbCluster → TiDbCluster → Prog (Unit {0})
    unfolding update_roles
    update_cluster pre cur = update_roles cur (diff_tidb_cluster_config pre cur)

    get_cluster_version : Prog Str
    unfolding run_checked
    get_cluster_version = do
      out ← run_checked c.control (codes "get cluster version failed: ") (
          concat (
            tiup
            ∷ codes "display "
            ∷ name
            ∷ codes " | grep 'Cluster version' | awk -F ':' '{print $2}'"
            ∷ []))
      pure (lib.trim_space out)

    force_flag : Str → Str
    force_flag policy = if str_eq policy (codes "force") then codes "--force" else []

    unfoldable pub upgrade_cluster : TiDbCluster → Prog (Unit {0})
    unfolding get_cluster_version run_checked force_flag
    upgrade_cluster cur = do
      current ← get_cluster_version
      (if str_eq current cur.version.version then pure tt else (do
        _ ← run_checked c.control (codes "upgrade cluster failed: ") (
            concat (
              tiup
              ∷ codes "upgrade "
              ∷ name
              ∷ codes " "
              ∷ cur.version.version
              ∷ codes " "
              ∷ force_flag cur.upgrade_policy
              ∷ codes " -y"
              ∷ []))
        pure tt))

    node_flags : List Str → Str
    node_flags [] = []
    node_flags (node ∷ nodes) = codes " --node " ++ (node ++ node_flags nodes)

    unfoldable pub scale_in_cluster : Map Str → TiDbCluster → TiDbCluster → Prog (Unit {0})
    unfolding run_checked node_flags
    scale_in_cluster ips pre cur = do
      _ ← run_checked c.control (codes "scale-in cluster failed: ") (
          concat (
            tiup
            ∷ codes "scale-in "
            ∷ name
            ∷ codes " "
            ∷ node_flags (get_scale_in_node ips pre cur)
            ∷ codes " -y"
            ∷ []))
      pure tt

    -- What yaml.Marshal returned is written before its error is looked at.
    written : Outcome Str → Str
    written (ok out) = out
    written _ = []

    unfoldable pub scale_out_cluster : Map Str → TiDbCluster → TiDbCluster → Prog (Unit {0})
    unfolding copy_to run_checked written
    scale_out_cluster ips pre cur = do
      copy_to c.control (codes "/root/scale-out.yaml")
          (written (lib.marshal_scale_out (get_scale_out_roles ips pre cur)))
      _ ← lift (lib.marshal_scale_out (get_scale_out_roles ips pre cur))
      _ ← run_checked c.control (codes "scale-out cluster failed: ") (
          concat (
            tiup
            ∷ codes "scale-out "
            ∷ name
            ∷ codes " /root/scale-out.yaml -i /root/insecure_key -y"
            ∷ []))
      pure tt

    unfoldable pub prune_cluster : Prog (Unit {0})
    unfolding run_checked
    prune_cluster = do
      _ ←
          run_checked c.control (codes "prune cluster failed: ")
            (concat (tiup ∷ codes "prune " ∷ name ∷ codes " -y" ∷ []))
      pure tt

    first_word : Str → Str
    unfolding split_at
    first_word line = elim (split_at b' ' line) [ [] ↦ [] | w ∷ ws ↦ w ]

    lines_with : Str → List Str → List Str
    unfolding first_word contains
    lines_with status [] = []
    lines_with status (line ∷ lines) =
        let rest = lines_with status lines in
        if contains status line then first_word line ∷ rest else rest

    unfoldable pub get_node_status_list : Str → Prog (List Str)
    unfolding run_checked lines_with split_at
    get_node_status_list status = do
      out ←
          run_checked c.control (codes "scale-in cluster failed: ")
            (concat (tiup ∷ codes "display " ∷ name ∷ []))
      pure (lines_with status (split_at 10 out))

    unfoldable pub uninstall_cluster : Prog Outcomes
    unfolding run_on unless_said
    uninstall_cluster = do
      result ← run_on c.control (concat (tiup ∷ codes "destroy -y " ∷ name ∷ []))
      unless_said (codes "not exists") (codes "cannot run remote command") result
