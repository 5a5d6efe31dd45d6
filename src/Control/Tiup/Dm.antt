-- ===== src/Control/Tiup/Dm.antt =====
-- pkg/tiup/dm/deploy.go: the cluster manager of a DM cluster.
use naglfar.Prelude.{false, List, [], ◌∷◌, Str, codes}
use naglfar.Control.Calls.{Prog}
use naglfar.Control.Effects.{◌>>=◌, ◌>>◌, pure, lift}
use naglfar.Control.Tiup.Words.{concat}
use naglfar.Control.Tiup.{run_on, run_checked, copy_to, Outcomes, unless_said}
use naglfar.Resource.{TestResource, TestResourceStatus}
use naglfar.Tiup.Dm.{build_dm_specification}
use naglfar.Tiup.Specification.{SpecLib, DmSpecification}
use naglfar.Topology.{TestClusterTopologySpec}

abbrev tiup_dm : Str
tiup_dm = codes "/root/.tiup/bin/tiup dm "

module _ (lib : SpecLib) where
  unfoldable pub make_dm_manager :
      TestClusterTopologySpec → List TestResource → Prog (DmSpecification × TestResourceStatus)
  make_dm_manager spec trs = lift (build_dm_specification lib false spec.dm_cluster trs)

  module _ (spec : DmSpecification) (control : TestResourceStatus) (name : Str) where
    unfoldable pub install_dm : Str → Prog (Unit {0})
    unfolding copy_to run_on unless_said run_checked
    install_dm version = do
      out ← lift (lib.marshal_dm spec)
      copy_to control (codes "/root/topology.yaml") out
      result ← run_on control (
          concat (
            tiup_dm
            ∷ codes "deploy -y "
            ∷ name
            ∷ codes " "
            ∷ version
            ∷ codes " /root/topology.yaml -i /root/insecure_key"
            ∷ []))
      _ ←
          unless_said (codes "specify another cluster name") (codes "deploy cluster failed: ")
            result
      _ ←
          run_checked control (codes "start cluster failed: ")
            (concat (tiup_dm ∷ codes "start " ∷ name ∷ []))
      pure tt

    unfoldable pub uninstall_dm : Prog Outcomes
    unfolding run_on unless_said
    uninstall_dm = do
      result ← run_on control (concat (tiup_dm ∷ codes "destroy -y " ∷ name ∷ []))
      unless_said (codes "not exists") (codes "cannot run remote command") result
