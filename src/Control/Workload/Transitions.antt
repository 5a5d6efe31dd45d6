-- ===== src/Control/Workload/Transitions.antt =====
-- The runs of the workload controller, call by call.
use naglfar.Prelude.{
  ℕ, ◌+◌, Bool-cases, false, List, [], ◌∷◌, Option, none, some, Str, str_eq, str_eq_iff, length,
  ◌==◌, ◌≡◌, ◌⊎◌, inl, inr, refl, ap, arith,
}
use naglfar.Control.Calls.{
  Prog, NamespacedName, get_topology, commit, write_workload_status, write_resource_status,
}
use naglfar.Control.Calls.Commits.{commit-Emits}
use naglfar.Control.Effects.{pure, lift, done}
use naglfar.Control.Effects.Emits.{Emits, emits_rules, Emits-bind, Emits-if, Emits-when}
use naglfar.Control.Workload.Pending.{
  check_topologies_ready, check_rest, is_ready, is_occupied, install_uninitialized, install_present,
  install_on, install_item, go_on, install_items, after_install, occupy, occupied, Progress, stop,
  installed,
}
use naglfar.Control.Workload.Envs.{set_container_spec, build_topology_envs}
use naglfar.Control.Workload.Running.{
  get_workload_request_node, node_of_item, tally_items, Tally, state_after, after_tally,
  write_tally, no_change, reconcile_running,
}
use naglfar.Control.Workload.Steps.{IsStep, installs, continues, succeeds, fails, Keeps, Obeys}
use naglfar.Ref.Keys.{ref_eq_iff}
use naglfar.Ref.{Ref, create_ref}
use naglfar.Resource.{TestResource, ResourceState}
use naglfar.Tiup.Specification.{SpecLib}
use naglfar.Topology.{TestClusterTopology}
use naglfar.Workload.{ContainerSpec, TestWorkload, TestWorkloadItemSpec, TestWorkloadState}

is_occupied-false :
    (self : Ref) (claim : Option Ref)
    → is_occupied self claim ≡ false
    → (claim ≡ none) ⊎ (claim ≡ some self)
unfolding is_occupied
is_occupied-false self none h = inl refl
is_occupied-false self (some claim) h = inr (ap some ((ref_eq_iff claim self).0 (ground arith)))

module _ (w : TestWorkload) where
  get_node-Emits :
      (ns : Str) (spec : ContainerSpec) → Emits (Obeys w) (get_workload_request_node ns spec)
  unfolding get_workload_request_node Obeys
  get_node-Emits ns spec = search emits_rules depth 8

  pub node_of-Emits :
      (ns : Str) (container : Option ContainerSpec) (item : TestWorkloadItemSpec)
      → item.docker_container ≡ container
      → Emits (Obeys w) (node_of_item ns item)
  unfolding node_of_item
  node_of-Emits ns none item e = rw e (search emits_rules)
  node_of-Emits ns (some spec) item e = rw e (get_node-Emits ns spec)

  tally_items-Emits :
      (ns : Str) (items : List TestWorkloadItemSpec) (tally : Tally)
      → Emits (Obeys w) (tally_items ns items tally)
  unfolding tally_items
  tally_items-Emits ns [] tally = search emits_rules
  tally_items-Emits ns (item ∷ items) tally =
      Emits-bind (Obeys w) _ _ (node_of-Emits ns item.docker_container item refl) (λ node.
        Emits-bind (Obeys w) _ _ (search emits_rules) (λ next. tally_items-Emits ns items next))

  pub check_topologies-Emits :
      (keys : List NamespacedName) → Emits (Obeys w) (check_topologies_ready keys)
  unfolding check_topologies_ready Obeys
  check_topologies-Emits [] = search emits_rules
  check_topologies-Emits (key ∷ keys) =
      Emits-bind (Obeys w) (get_topology key) _ (search emits_rules) (λ topology.
        Emits-when (Obeys w) (is_ready topology.status.state) _ (pure none)
          (λ _.
            Emits-bind (Obeys w) _ (λ rest. pure (check_rest topology rest))
              (check_topologies-Emits keys) (λ rest. search emits_rules))
          (λ _. search emits_rules))

  state_after-IsStep :
      (total : ℕ) (tally : Tally)
      → IsStep TestWorkloadState.running (state_after total tally TestWorkloadState.running)
  unfolding state_after
  state_after-IsStep total tally = elim (Bool-cases (tally.succeeded == total)) [
    | inl e ↦ rw e succeeds
    | inr e ↦ elim (Bool-cases (tally.succeeded + tally.failed == total)) [
      | inl f ↦ rw e (rw f fails)
      | inr f ↦ rw e (rw f continues)
    ]
  ]

  pub running-Emits :
      w.status.state ≡ TestWorkloadState.running → Emits (Obeys w) (reconcile_running w)
  unfolding reconcile_running write_tally after_tally Obeys Keeps
  running-Emits e =
      Emits-bind (Obeys w) _ (write_tally w)
        (tally_items-Emits w.meta.namespace w.spec.workloads (no_change w.status.workload_status))
        (λ tally.
          let step = state_after-IsStep (length w.spec.workloads) tally in
          Emits-when (Obeys w) (tally.changed == 0) _ _ (λ _. search emits_rules)
            (λ _.
              Emits-bind (Obeys w) (commit (write_workload_status (after_tally w tally))) _
                (commit-Emits (Obeys w) _ ((refl, refl), rw e step)) (λ _. search emits_rules)))

  module _ (lib : SpecLib) (topologies : List TestClusterTopology) (resources : List TestResource)
      (lives : w.meta.deleting ≡ false) where
    occupy-Emits :
        (node : TestResource) (name : Str) (spec : ContainerSpec)
        → node.status.state ≡ ResourceState.uninitialized
        → node.status.container.image ≡ []
        → is_occupied (create_ref w.meta) node.status.claim_ref ≡ false
        → Emits (Obeys w) (occupy lib w topologies resources node name spec)
    unfolding occupy occupied set_container_spec Obeys
    occupy-Emits node name spec fresh bare free =
        Emits-bind (Obeys w)
          (lift (build_topology_envs lib w.spec.cluster_topologies_refs topologies resources)) _
          (search emits_rules)
          (λ envs.
            commit-Emits (Obeys w)
              (write_resource_status (occupied lib w topologies resources node name spec envs))
              (
                node,
                inl (record {
                  lives = lives;
                  fresh = fresh;
                  bare = bare;
                  free = is_occupied-false (create_ref w.meta) node.status.claim_ref free;
                  claimed = refl;
                  same_state = fresh;
                  same_meta = refl;
                  same_spec = refl;
                }),
              ))

    install_on-Emits :
        (state : ResourceState) (node : TestResource) (name : Str) (spec : ContainerSpec)
        (count : ℕ)
        → node.status.state ≡ state
        → is_occupied (create_ref w.meta) node.status.claim_ref ≡ false
        → Emits (Obeys w) (install_on lib w topologies resources state node name spec count)
    unfolding install_on install_uninitialized install_present
    install_on-Emits ResourceState.uninitialized node name spec count e free =
        Emits-when (Obeys w) (str_eq node.status.container.image []) _ _
          (λ bare.
            Emits-bind (Obeys w) _ _
              (occupy-Emits node name spec e ((str_eq_iff node.status.container.image []).0 bare)
                free)
              (λ _. search emits_rules))
          (λ _. search emits_rules depth 8)
    install_on-Emits _ node name spec count e free = search emits_rules depth 8

    install_item-Emits :
        (container : Option ContainerSpec) (item : TestWorkloadItemSpec) (count : ℕ)
        → item.docker_container ≡ container
        → Emits (Obeys w) (install_item lib w topologies resources item count)
    unfolding install_item
    install_item-Emits none item count e = rw e (search emits_rules)
    install_item-Emits (some spec) item count e = rw e (
        Emits-bind (Obeys w) _ _ (get_node-Emits w.meta.namespace spec) (λ node.
          Emits-when (Obeys w) (is_occupied (create_ref w.meta) node.status.claim_ref) _ _
            (λ _. search emits_rules)
            (install_on-Emits node.status.state node item.name spec count refl)))

    go_on-Emits :
        (next : ℕ → Prog Progress)
        → ((n : ℕ) → Emits (Obeys w) (next n))
        → (progress : Progress) → Emits (Obeys w) (go_on lib w topologies resources next progress)
    unfolding go_on
    go_on-Emits next h (stop result) = search emits_rules
    go_on-Emits next h (installed n) = h n

    pub install_items-Emits :
        (items : List TestWorkloadItemSpec) (count : ℕ)
        → Emits (Obeys w) (install_items lib w topologies resources items count)
    unfolding install_items
    install_items-Emits [] count = search emits_rules
    install_items-Emits (item ∷ items) count =
        Emits-bind (Obeys w) _ _ (install_item-Emits item.docker_container item count refl) (
          go_on-Emits (λ n. install_items lib w topologies resources items n)
            (install_items-Emits items))

  pub after_install-Emits :
      (progress : Progress)
      → w.status.state ≡ TestWorkloadState.pending
      → Emits (Obeys w) (after_install w progress)
  unfolding after_install Obeys Keeps
  after_install-Emits (stop result) e = search emits_rules
  after_install-Emits (installed count) e =
      Emits-if (Obeys w) (count == length w.spec.workloads) _ _
        (Emits-bind (Obeys w)
          (commit (
            write_workload_status
              (record w { status = record w.status { state = TestWorkloadState.running } })))
          (λ _. pure done) (commit-Emits (Obeys w) _ ((refl, refl), rw e installs))
          (λ _. search emits_rules))
        (search emits_rules)
