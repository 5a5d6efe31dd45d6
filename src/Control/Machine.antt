-- ===== src/Control/Machine.antt =====
-- controllers/machine_controller.go. A machine is started by taking its lock, a labelled container,
-- and is shut down once no resource is bound to it.
pub mod Exclusive
pub mod Daemons
pub mod Info
pub mod Transitions
pub mod Lock
pub mod Shutdown
use naglfar.Prelude.{
  ℕ, Bool, true, false, not, ◌&&◌, ◌||◌, List, [], ◌∷◌, ◌++◌, Option, none, some, Str, str_eq,
  codes, Map, Outcome, ok, err, panic, unfinished, Error, not_found, already_exists, failure,
  lookup, has_key, deref, ◌==◌, length, if◌then◌else◌,
}
use naglfar.Prelude.Int.{ℤ, pos}
use naglfar.Container.{
  Container, locker_label, chaos_daemon, chaos_daemon_port, chaos_daemon_image, chaos_daemon_cfg,
  upload_daemon, upload_daemon_image, upload_port, upload_daemon_cfg, machine_stat,
  machine_stat_image, machine_stat_cfg,
}
use naglfar.Control.Calls.{
  Prog, NamespacedName, Event, ask, get_machine, commit, inspect, remove, write_machine,
  write_machine_status, write_relationship,
}
use naglfar.Control.Docker.{make_client, run, just_exec}
use naglfar.Control.Effects.{
  ◌>>=◌, ◌>>◌, pure, lift, try, Result, done, again, after, ignore_not_found,
}
use naglfar.Control.Relationship.{get_relationship, is_nil}
use naglfar.Machine.{Machine, MachineInfo, MachineState, StorageDevice}
use naglfar.Ref.{create_ref, key}
use naglfar.Relationship.{
  RelationshipStatus, ResourceRefList, Nillable, entries, assign, discard, resources_of,
}
use naglfar.Resource.{PullImagePolicy}
unfoldable pub use Daemons.{
  label_of, first_port, chaos_port_of, is_zero, check_lock, check_upload, is_own_lock, unlock_found,
  unlock, delete_found, delete_upload_daemon,
}
use Info.{make_machine_info}
use naglfar.Util.{strings_contains, strings_remove}
use naglfar.Util.Atoi.{atoi}
use naglfar.Util.Bytes.{Units, BytesSize}

abbrev pub machine_finalizer : Str
machine_finalizer = codes "machine.naglfar.pingcap.com"

abbrev pub machine_key : Machine → Str
machine_key machine = key (create_ref machine.meta)

become_ready : Machine → ℤ → MachineInfo → Prog Result
become_ready machine port info = do
  commit (
      write_machine_status (record machine {
        status = record machine.status {
          chaos_port = port;
          info = some info;
          state = MachineState.ready;
        };
      }))
  pure done

-- A machine that the relationship does not know gets an empty list.
register_as : Machine → RelationshipStatus → Option ResourceRefList → Prog Result
register_as machine relation (some resources) = pure done
register_as machine relation none = do
  machines ← lift (assign (machine_key machine) [] relation.machine_to_resources)
  commit (write_relationship (record relation { machine_to_resources = machines }))
  pure done

register : Machine → RelationshipStatus → Prog Result
unfolding register_as
register machine relation =
    register_as machine relation
      (lookup (machine_key machine) (entries relation.machine_to_resources))

module _ (units : Units) (fuel : ℕ) where
  try_lock : Machine → Prog ℤ
  unfolding check_lock
  try_lock machine = do
    stat ←
        run fuel chaos_daemon chaos_daemon_image PullImagePolicy.unset
          (chaos_daemon_cfg machine.meta.uid)
    lift (check_lock machine stat)

  create_upload_daemon : Prog ℤ
  unfolding check_upload
  create_upload_daemon = do
    stat ← run fuel upload_daemon upload_daemon_image PullImagePolicy.unset upload_daemon_cfg
    lift (check_upload stat)

  fetch_machine_info : Prog MachineInfo
  fetch_machine_info = do
    script ← ask (λ env. env.os_stat_script)
    stdout ←
        just_exec fuel machine_stat machine_stat_image PullImagePolicy.unset
          (machine_stat_cfg script)
    raw_info ← ask (λ env. env.read_info stdout)
    lift (make_machine_info units raw_info)

  unfoldable pub reconcile_starting : Machine → Prog Result
  unfolding try_lock fetch_machine_info become_ready
  reconcile_starting machine = do
    make_client machine
    port ← try_lock machine
    info ← fetch_machine_info
    become_ready machine port info

  -- The first visit starts the daemon for uploads.
  start_upload : Machine → Prog Result
  unfolding create_upload_daemon
  start_upload machine = do
    make_client machine
    port ← create_upload_daemon
    commit (
        write_machine_status
          (record machine { status = record machine.status { upload_port = port } }))
    pure again

  unfoldable pub reconcile_running : Machine → Prog Result
  unfolding start_upload register is_zero
  reconcile_running machine =
      if is_zero machine.status.upload_port
      then start_upload machine
      else (get_relationship >>= register machine)

write_finalizers : Machine → List Str → Prog Result
write_finalizers machine finalizers = do
  commit (write_machine (record machine { meta = record machine.meta { finalizers = finalizers } }))
  pure done

-- The machine leaves the relationship, then its finalizer goes.
forget : Machine → RelationshipStatus → Prog Result
unfolding write_finalizers
forget machine relation = do
  commit (
      write_relationship (record relation {
        machine_to_resources = discard (machine_key machine) relation.machine_to_resources;
      }))
  finalizers ← lift (strings_remove machine.meta.finalizers machine_finalizer)
  write_finalizers machine finalizers

release : Machine → RelationshipStatus → Prog Result
unfolding unlock delete_upload_daemon forget
release machine relation = do
  make_client machine
  unlock machine
  delete_upload_daemon
  forget machine relation

-- A machine with resources is looked at again in ten seconds.
shutdown_as : Machine → RelationshipStatus → ResourceRefList → Prog Result
unfolding release
shutdown_as machine relation [] = release machine relation
shutdown_as machine relation (refer ∷ resources) =
    pure (record { requeue = true; requeue_after = 10 })

shutdown_with : Machine → RelationshipStatus → Prog Result
unfolding shutdown_as
shutdown_with machine relation =
    shutdown_as machine relation (resources_of relation (machine_key machine))

unfoldable pub reconcile_shutdown : Machine → Prog Result
unfolding shutdown_with
reconcile_shutdown machine = get_relationship >>= shutdown_with machine

set_state : Machine → MachineState → Prog Result
set_state machine state = do
  commit
      (write_machine_status (record machine { status = record machine.status { state = state } }))
  pure done

add_finalizer : Machine → Prog Result
add_finalizer machine = do
  commit (
      write_machine (record machine {
        meta = record machine.meta {
          finalizers = machine.meta.finalizers ++ (machine_finalizer ∷ []);
        };
      }))
  pure done

is_shutdown : MachineState → Bool
is_shutdown MachineState.shutdown = true
is_shutdown _ = false

-- A machine that is deleted and not yet shut down is shut down first.
must_stop : Machine → Bool
unfolding is_shutdown
must_stop machine =
    machine.meta.deleting
    && (strings_contains machine.meta.finalizers machine_finalizer
        && not (is_shutdown machine.status.state))

module _ (units : Units) (fuel : ℕ) where
  -- The `switch` on the state; a state that the code does not know starts the machine.
  dispatch : MachineState → Machine → Prog Result
  unfolding set_state
  dispatch MachineState.starting machine = reconcile_starting units fuel machine
  dispatch MachineState.ready machine = reconcile_running units fuel machine
  dispatch MachineState.shutdown machine = reconcile_shutdown machine
  dispatch MachineState.unset machine = set_state machine MachineState.starting

  unfoldable pub reconcile_machine : Machine → Prog Result
  unfolding add_finalizer must_stop set_state dispatch
  reconcile_machine machine =
      if not machine.meta.deleting
        && not (strings_contains machine.meta.finalizers machine_finalizer)
      then add_finalizer machine
      else (if must_stop machine
          then set_state machine MachineState.shutdown
          else dispatch machine.status.state machine)

  reconcile_found : Outcome Machine → Prog Result
  unfolding reconcile_machine
  reconcile_found (ok machine) = reconcile_machine machine
  reconcile_found (err e) = lift (ignore_not_found e)
  reconcile_found panic = lift panic
  reconcile_found unfinished = lift unfinished

  reconcile_with : NamespacedName → RelationshipStatus → Prog Result
  unfolding reconcile_found
  reconcile_with name relation =
      if is_nil relation.machine_to_resources
      then pure (record { requeue = true; requeue_after = 1 })
      else (try (get_machine name) >>= reconcile_found)

  unfoldable pub reconcile : NamespacedName → Prog Result
  unfolding reconcile_with
  reconcile name = get_relationship >>= reconcile_with name
