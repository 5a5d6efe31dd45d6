-- ===== src/Control/Machine/Transitions.antt =====
-- Which states the controller of machines writes.
use naglfar.Prelude.{
  ℕ, true, [], ◌∷◌, Option, none, some, Outcome, ok, err, not_found, ◌≡◌, refl, All, if◌then◌else◌,
  Bool-cases, inl, inr, arith,
}
use naglfar.Container.{Container}
use naglfar.Control.Calls.{Event, write_machine_status, Env}
use naglfar.Control.Docker.Quiet.{AllowsDocker, make_client-Emits, run-Emits, just_exec-Emits}
use naglfar.Control.Effects.Emits.{Emits, emits_rules, Emits-bind, Emits-if}
use naglfar.Control.Machine.{
  try_lock, create_upload_daemon, fetch_machine_info, reconcile_starting, start_upload, register,
  register_as, reconcile_running, unlock_found, unlock, delete_found, delete_upload_daemon, forget,
  release, shutdown_as, shutdown_with, reconcile_shutdown, set_state, add_finalizer, must_stop,
  dispatch, reconcile_machine,
}
use naglfar.Control.Relationship.{get_relationship}
use naglfar.Control.Relationship.Quiet.{get_relationship-Emits}
use naglfar.Machine.{Machine, MachineState}
use naglfar.Ref.{ObjectMeta}
use naglfar.Relationship.{RelationshipStatus, ResourceRefList}
use naglfar.Util.Bytes.{Units}

-- The life of a machine. Only a machine that is being deleted is shut down.
pub data Transition (meta : ObjectMeta) : MachineState → MachineState → Type 0 where
  first : Transition meta MachineState.unset MachineState.starting
  locked : Transition meta MachineState.starting MachineState.ready
  uploads : Transition meta MachineState.ready MachineState.ready
  stop : (s : MachineState) → meta.deleting ≡ true → Transition meta s MachineState.shutdown

-- A status that is written for the machine follows the diagram and keeps the rest of the machine.
abbrev pub Follows : Machine → Event → Type 0
Follows machine (write_machine_status written) =
    Transition machine.meta machine.status.state written.status.state
    × (written.meta ≡ machine.meta)
    × (written.spec ≡ machine.spec)
Follows machine _ = Unit {0}

Follows-AllowsDocker : (machine : Machine) → AllowsDocker (Follows machine)
Follows-AllowsDocker machine = record {
  connects = λ _. tt;
  image_inspects = λ _. tt;
  image_pulls = λ _. tt;
  inspects = λ _. tt;
  starts = λ _. tt;
  waits = λ _. tt;
  reads_logs = λ _. tt;
  removes = λ _. tt;
  creates = λ _ _ _. tt;
  joins = λ _ _. tt;
}

module _ (units : Units) (fuel : ℕ) (machine : Machine) where
  abbrev Fine : Event → Type 0
  Fine = Follows machine

  abbrev quiet : AllowsDocker Fine
  quiet = Follows-AllowsDocker machine

  client : Emits Fine (naglfar.Control.Docker.make_client machine)
  client = make_client-Emits Fine quiet machine

  lock : Emits Fine (try_lock units fuel machine)
  unfolding try_lock
  lock = Emits-bind Fine _ _ (run-Emits Fine quiet fuel _ _ _ _) (λ stat. search emits_rules)

  upload : Emits Fine (create_upload_daemon units fuel)
  unfolding create_upload_daemon
  upload = Emits-bind Fine _ _ (run-Emits Fine quiet fuel _ _ _ _) (λ stat. search emits_rules)

  info : Emits Fine (fetch_machine_info units fuel)
  unfolding fetch_machine_info
  info = search (emits_rules, just_exec-Emits Fine quiet)

  relationship : Emits Fine get_relationship
  relationship = get_relationship-Emits Fine tt

  starting :
      machine.status.state ≡ MachineState.starting
      → Emits Fine (reconcile_starting units fuel machine)
  unfolding reconcile_starting
  starting e =
      let step : Transition machine.meta machine.status.state MachineState.ready = rw e locked in
      search (emits_rules, client, lock, info, step) depth 8

  start_upload-Emits :
      machine.status.state ≡ MachineState.ready → Emits Fine (start_upload units fuel machine)
  unfolding start_upload
  start_upload-Emits e =
      let step : Transition machine.meta machine.status.state machine.status.state = rw e uploads in
      search (emits_rules, client, upload, step) depth 8

  register_as-Emits :
      (relation : RelationshipStatus) (o : Option ResourceRefList)
      → Emits Fine (register_as machine relation o)
  unfolding register_as
  register_as-Emits relation (some resources) = search emits_rules
  register_as-Emits relation none = search emits_rules

  register-Emits : (relation : RelationshipStatus) → Emits Fine (register machine relation)
  unfolding register
  register-Emits relation = register_as-Emits relation _

  running :
      machine.status.state ≡ MachineState.ready → Emits Fine (reconcile_running units fuel machine)
  unfolding reconcile_running
  running e =
      Emits-if Fine _ (start_upload units fuel machine) _ (start_upload-Emits e)
        (Emits-bind Fine get_relationship (register machine) relationship register-Emits)

  unlock_found-Emits : (o : Outcome Container) → Emits Fine (unlock_found machine o)
  unfolding unlock_found
  unlock_found-Emits (ok stat) = search emits_rules
  unlock_found-Emits (err not_found) = search emits_rules
  unlock_found-Emits o = search emits_rules

  delete_found-Emits : (o : Outcome Container) → Emits Fine (delete_found o)
  unfolding delete_found
  delete_found-Emits (ok stat) = search emits_rules
  delete_found-Emits (err not_found) = search emits_rules
  delete_found-Emits o = search emits_rules

  unlock-Emits : Emits Fine (unlock machine)
  unfolding unlock
  unlock-Emits = search (emits_rules, unlock_found-Emits)

  delete_upload-Emits : Emits Fine delete_upload_daemon
  unfolding delete_upload_daemon
  delete_upload-Emits = search (emits_rules, delete_found-Emits)

  forget-Emits : (relation : RelationshipStatus) → Emits Fine (forget machine relation)
  unfolding forget
  forget-Emits relation = search emits_rules depth 8

  shutdown_as-Emits :
      (relation : RelationshipStatus) (resources : ResourceRefList)
      → Emits Fine (shutdown_as machine relation resources)
  unfolding shutdown_as release
  shutdown_as-Emits relation [] =
      search (emits_rules, client, unlock-Emits, delete_upload-Emits, forget-Emits) depth 8
  shutdown_as-Emits relation (refer ∷ resources) = search emits_rules

  shutting : Emits Fine (reconcile_shutdown machine)
  unfolding reconcile_shutdown shutdown_with
  shutting = search (emits_rules, relationship, shutdown_as-Emits)

  set_state-Emits :
      (s : MachineState)
      → Transition machine.meta machine.status.state s
      → Emits Fine (set_state machine s)
  unfolding set_state
  set_state-Emits s t = search emits_rules

  dispatch-Emits :
      (s : MachineState) → machine.status.state ≡ s → Emits Fine (dispatch units fuel s machine)
  unfolding dispatch
  dispatch-Emits MachineState.starting e = starting e
  dispatch-Emits MachineState.ready e = running e
  dispatch-Emits MachineState.shutdown e = shutting
  dispatch-Emits MachineState.unset e = set_state-Emits MachineState.starting (rw e first)

  stop_or_dispatch-Emits : Emits Fine (
      if must_stop machine
      then set_state machine MachineState.shutdown
      else dispatch units fuel machine.status.state machine)
  stop_or_dispatch-Emits = elim (Bool-cases (must_stop machine)) [
    | inl stopping ↦
        let deleted : machine.meta.deleting ≡ true = unfold must_stop in ground arith in
        rw stopping (set_state-Emits MachineState.shutdown (stop _ deleted))
    | inr going ↦ rw going (dispatch-Emits machine.status.state refl)
  ]

  add_finalizer-Emits : Emits Fine (add_finalizer machine)
  unfolding add_finalizer
  add_finalizer-Emits = search emits_rules

  reconcile_machine-Emits : Emits Fine (reconcile_machine units fuel machine)
  unfolding reconcile_machine
  reconcile_machine-Emits = search (emits_rules, add_finalizer-Emits, stop_or_dispatch-Emits)

-- Whatever the API and Docker reply, each status that one run of the controller writes for a machine
-- follows the life of a machine: from no state to starting, from starting to ready, from ready to
-- ready with the port for uploads, and to shutdown only when the machine is being deleted. The
-- metadata and the specification are written back unchanged.
pub reconcile_machine-Follows :
    (units : Units) (fuel : ℕ) (machine : Machine) (env : Env)
    → All (Follows machine) (reconcile_machine units fuel machine env []).1
reconcile_machine-Follows units fuel machine env =
    (reconcile_machine-Emits units fuel machine).at env [] tt
