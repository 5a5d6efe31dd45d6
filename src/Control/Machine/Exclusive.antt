-- ===== src/Control/Machine/Exclusive.antt =====
-- The writes of the relationship in controllers/machine_controller.go, and who has which core.
use naglfar.Prelude.{
  ℕ, [], ◌∷◌, Option, none, some, Outcome, ok, err, panic, unfinished, not_found, ◌≡◌,
}
use naglfar.Container.{Container}
use naglfar.Control.Calls.{Env, Event, NamespacedName, get_machine}
use naglfar.Control.Docker.{make_client}
use naglfar.Control.Docker.Quiet.{make_client-Emits, run-Emits, just_exec-Emits}
use naglfar.Control.Effects.{try, pure, lift}
use naglfar.Control.Effects.Emits.{Emits, emits_rules, Emits-bind}
use naglfar.Control.Effects.Ensures.{
  Ensures, Any, Ensures-bind, Ensures-Emits, Ensures-if, lift-Ensures,
}
use naglfar.Control.Exclusive.{
  WritesExclusive, WritesExclusive-AllowsDocker, ReadsExclusive, get_relationship-Ensures,
  nil-IsExclusive, assign-CoresAreExclusive, discard-CoresAreExclusive,
}
use naglfar.Control.Machine.{
  machine_key, try_lock, create_upload_daemon, fetch_machine_info, become_ready, reconcile_starting,
  start_upload, register, register_as, reconcile_running, unlock_found, unlock, delete_found,
  delete_upload_daemon, write_finalizers, forget, release, shutdown_as, shutdown_with,
  reconcile_shutdown, set_state, add_finalizer, dispatch, reconcile_machine, reconcile_found,
  reconcile_with, reconcile,
}
use naglfar.Control.Relationship.{get_relationship}
use naglfar.Machine.{Machine, MachineState}
use naglfar.Relationship.{RelationshipStatus, ResourceRefList, assign}
use naglfar.Scheduler.TryRequest.Cores.{CoresAreExclusive}
use naglfar.Util.Bytes.{Units}

abbrev Fine : Event → Type 0
Fine = WritesExclusive

module _ (units : Units) (fuel : ℕ) (env : Env) (reads : ReadsExclusive env) where
  module _ (machine : Machine) where
    client : Emits Fine (make_client machine)
    client = make_client-Emits Fine WritesExclusive-AllowsDocker machine

    lock : Emits Fine (try_lock units fuel machine)
    unfolding try_lock
    lock =
        Emits-bind Fine _ _ (run-Emits Fine WritesExclusive-AllowsDocker fuel _ _ _ _)
          (λ stat. search emits_rules)

    upload : Emits Fine (create_upload_daemon units fuel)
    unfolding create_upload_daemon
    upload =
        Emits-bind Fine _ _ (run-Emits Fine WritesExclusive-AllowsDocker fuel _ _ _ _)
          (λ stat. search emits_rules)

    info : Emits Fine (fetch_machine_info units fuel)
    unfolding fetch_machine_info
    info = search (emits_rules, just_exec-Emits Fine WritesExclusive-AllowsDocker)

    starting : Emits Fine (reconcile_starting units fuel machine)
    unfolding reconcile_starting become_ready
    starting = search (emits_rules, client, lock, info) depth 8

    start_upload-Emits : Emits Fine (start_upload units fuel machine)
    unfolding start_upload
    start_upload-Emits = search (emits_rules, client, upload) depth 8

    unlock_found-Emits : (o : Outcome Container) → Emits Fine (unlock_found machine o)
    unfolding unlock_found
    unlock_found-Emits (ok stat) = search emits_rules
    unlock_found-Emits (err not_found) = search emits_rules
    unlock_found-Emits o = search emits_rules

    delete_found-Emits : (o : Outcome Container) → Emits Fine (delete_found o)
    unfolding delete_found
    delete_found-Emits (ok stat) = search emits_rules
    delete_found-Emits (err not_found) = search emits_rules
    delete_found-Emits o = search emits_rules

    unlock-Emits : Emits Fine (unlock machine)
    unfolding unlock
    unlock-Emits = search (emits_rules, unlock_found-Emits)

    delete_upload-Emits : Emits Fine delete_upload_daemon
    unfolding delete_upload_daemon
    delete_upload-Emits = search (emits_rules, delete_found-Emits)

    register_as-Ensures :
        (relation : RelationshipStatus) (o : Option ResourceRefList)
        → CoresAreExclusive relation
        → Ensures env Fine Any (register_as machine relation o)
    unfolding register_as
    register_as-Ensures relation (some resources) h = Ensures-Emits env Fine _ (search emits_rules)
    register_as-Ensures relation none h =
        let wanted = assign (machine_key machine) [] relation.machine_to_resources in
        Ensures-bind env Fine (λ m. wanted ≡ ok m) _ (lift wanted) _ (lift-Ensures env Fine wanted)
          (λ m e.
            let kept =
              assign-CoresAreExclusive (machine_key machine) [] relation
                (record relation { machine_to_resources = m }) e nil-IsExclusive h in
            Ensures-Emits env Fine _ (search (emits_rules, kept)))

    running : Ensures env Fine Any (reconcile_running units fuel machine)
    unfolding reconcile_running register
    running =
        Ensures-if env Fine _ _ (start_upload units fuel machine) _
          (Ensures-Emits env Fine _ start_upload-Emits)
          (Ensures-bind env Fine _ _ get_relationship (register machine)
            (get_relationship-Ensures env reads) (λ relation h. register_as-Ensures relation _ h))

    forget-Emits :
        (relation : RelationshipStatus)
        → CoresAreExclusive relation
        → Emits Fine (forget machine relation)
    unfolding forget write_finalizers
    forget-Emits relation h =
        let kept = discard-CoresAreExclusive (machine_key machine) relation h in
        search (emits_rules, kept) depth 8

    shutdown_as-Emits :
        (relation : RelationshipStatus) (resources : ResourceRefList)
        → CoresAreExclusive relation
        → Emits Fine (shutdown_as machine relation resources)
    unfolding shutdown_as release
    shutdown_as-Emits relation [] h = Emits-bind Fine (make_client machine) _ client (λ _.
        Emits-bind Fine (unlock machine) _ unlock-Emits (λ _.
          Emits-bind Fine delete_upload_daemon (λ _. forget machine relation) delete_upload-Emits
            (λ _. forget-Emits relation h)))
    shutdown_as-Emits relation (refer ∷ resources) h = search emits_rules

    shutting : Ensures env Fine Any (reconcile_shutdown machine)
    unfolding reconcile_shutdown shutdown_with
    shutting =
        Ensures-bind env Fine _ _ get_relationship (shutdown_with machine)
          (get_relationship-Ensures env reads)
          (λ relation h. Ensures-Emits env Fine _ (shutdown_as-Emits relation _ h))

    set_state-Ensures : (s : MachineState) → Ensures env Fine Any (set_state machine s)
    unfolding set_state
    set_state-Ensures s = Ensures-Emits env Fine _ (search emits_rules)

    dispatch-Ensures : (s : MachineState) → Ensures env Fine Any (dispatch units fuel s machine)
    unfolding dispatch
    dispatch-Ensures MachineState.starting = Ensures-Emits env Fine _ starting
    dispatch-Ensures MachineState.ready = running
    dispatch-Ensures MachineState.shutdown = shutting
    dispatch-Ensures MachineState.unset = set_state-Ensures MachineState.starting

    reconcile_machine-Ensures : Ensures env Fine Any (reconcile_machine units fuel machine)
    unfolding reconcile_machine add_finalizer
    reconcile_machine-Ensures =
        Ensures-if env Fine _ _ (add_finalizer machine) _
          (Ensures-Emits env Fine _ (search emits_rules))
          (Ensures-if env Fine _ _ (set_state machine MachineState.shutdown) _
            (set_state-Ensures MachineState.shutdown) (dispatch-Ensures machine.status.state))

  reconcile_found-Ensures :
      (o : Outcome Machine) → Ensures env Fine Any (reconcile_found units fuel o)
  unfolding reconcile_found
  reconcile_found-Ensures (ok machine) = reconcile_machine-Ensures machine
  reconcile_found-Ensures (err e) = Ensures-Emits env Fine _ (search emits_rules)
  reconcile_found-Ensures panic = Ensures-Emits env Fine _ (search emits_rules)
  reconcile_found-Ensures unfinished = Ensures-Emits env Fine _ (search emits_rules)

  pub reconcile-Ensures : (name : NamespacedName) → Ensures env Fine Any (reconcile units fuel name)
  unfolding reconcile reconcile_with
  reconcile-Ensures name =
      Ensures-bind env Fine _ _ get_relationship (reconcile_with units fuel name)
        (get_relationship-Ensures env reads)
        (λ relation h.
          Ensures-if env Fine _ _ (pure _) _ (Ensures-Emits env Fine _ (search emits_rules)) (
            Ensures-bind env Fine Any _ (try (get_machine name)) (reconcile_found units fuel)
              (Ensures-Emits env Fine _ (search emits_rules)) (λ o _. reconcile_found-Ensures o)))
