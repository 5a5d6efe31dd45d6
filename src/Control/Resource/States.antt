-- ===== src/Control/Resource/States.antt =====
-- The states of a resource: reconcileStatePending, reconcileStateUninitialized, reconcileStateReady
-- and reconcileStateDestroy.
pub mod Writes
use naglfar.Prelude.{
  ℕ, zero, suc, Bool, true, false, List, [], ◌∷◌, ◌++◌, Option, none, some, Str, codes, Map,
  Outcome, ok, err, panic, unfinished, not_found, lookup, if◌then◌else◌,
}
use naglfar.Prelude.Int.{ℤ, pos, negsuc}
use naglfar.Container.{Container, time_is_zero}
use naglfar.Control.Calls.{
  Prog, Event, get_machine, inspect, start, commit, write_resource_status, network_connect,
}
use naglfar.Control.Docker.{make_client}
use naglfar.Control.Effects.{◌>>=◌, ◌>>◌, pure, lift, call, try, Result, done, again, after}
use naglfar.Control.Relationship.{get_relationship}
use naglfar.Control.Resource.Status.{cluster_network, finished, connected}
use naglfar.Control.Resource.Cleaning.{
  resource_key, namespaced, get_host_machine, create_container, finalize,
}
use naglfar.Relationship.{MachineRef, entries}
use naglfar.Resource.{TestResource, ResourceState, ResourcePhase, container_name, no_container}
use naglfar.Util.Atoi.{atoi}
use naglfar.Util.Bytes.{Units}

-- The address of the machine; empty while the resource has no place.
host_ip_of : Option MachineRef → Prog Str
host_ip_of none = pure []
host_ip_of (some machine) = do m ← get_machine (namespaced machine.ref); pure m.spec.host

request_resource : TestResource → Prog Str
unfolding host_ip_of
request_resource resource = do
  relation ← get_relationship
  host_ip_of (lookup (resource_key resource) (entries relation.resource_to_machine))

update_status : TestResource → Prog Result
update_status resource = do commit (write_resource_status resource); pure done

with_state : TestResource → ResourceState → TestResource
with_state resource state = record resource { status = record resource.status { state = state } }

with_phase : TestResource → ResourcePhase → TestResource
with_phase resource phase = record resource { status = record resource.status { phase = phase } }

placed_at : TestResource → Str → Prog Result
unfolding update_status
placed_at resource [] = pure (after 1)
placed_at resource (c ∷ ip) = update_status (record resource {
  status = record resource.status { host_ip = c ∷ ip; state = ResourceState.uninitialized };
})

unfoldable pub reconcile_state_pending : TestResource → Prog Result
unfolding request_resource placed_at
reconcile_state_pending resource = request_resource resource >>= placed_at resource

is_running_phase : ResourcePhase → Bool
is_running_phase ResourcePhase.running = true
is_running_phase _ = false

-- The end of `reconcileStateUninitialized`.
settle : Container → TestResource → Prog Result
unfolding update_status finished
settle stats resource = update_status (finished resource stats)

running : TestResource → Container → Prog Result
unfolding update_status with_phase is_running_phase connected settle
running resource stats =
    if is_running_phase resource.status.phase
    then (lift (connected resource stats (lookup cluster_network stats.networks)) >>= settle stats)
    else update_status (with_phase resource ResourcePhase.running)

connect_and_start : TestResource → Option Str → Prog Result
connect_and_start resource none = do
  call (network_connect cluster_network (container_name resource))
      (λ env log. env.connect_network log cluster_network (container_name resource))
  pure again
connect_and_start resource (some ip) = do start (container_name resource); pure again

module _ (units : Units) where
  look_at : TestResource → Outcome Container → Prog Result
  unfolding connect_and_start running settle
  look_at resource (ok stats) =
      if time_is_zero stats.started_at
      then connect_and_start resource (lookup cluster_network stats.networks)
      else (if stats.restarting
          then pure (record { requeue = true; requeue_after = 1 })
          else (if stats.running then running resource stats else settle stats resource))
  look_at resource (err not_found) = create_container units resource >> pure again
  look_at resource (err e) = lift (err e)
  look_at resource panic = lift panic
  look_at resource unfinished = lift unfinished

  visit : TestResource → Prog Result
  unfolding look_at
  visit resource = do
    machine ← get_host_machine resource
    make_client machine
    found ← try (inspect (container_name resource))
    look_at resource found

  visit_image : Str → TestResource → Prog Result
  unfolding visit
  visit_image [] resource = pure done
  visit_image (c ∷ image) resource = visit resource

  start_phase : ResourcePhase → TestResource → Prog Result
  unfolding update_status with_phase visit_image
  start_phase ResourcePhase.unset resource =
      update_status (with_phase resource ResourcePhase.pending)
  start_phase _ resource = visit_image resource.status.container.image resource

  unfoldable pub reconcile_state_uninitialized : TestResource → Prog Result
  unfolding start_phase
  reconcile_state_uninitialized resource = start_phase resource.status.phase resource

is_ready : ResourceState → Bool
is_ready ResourceState.ready = true
is_ready _ = false

restarted : TestResource → Container → TestResource
unfolding with_state
restarted resource stats =
    if stats.restarting then with_state resource ResourceState.uninitialized else resource

ready_as : TestResource → Prog Result
unfolding update_status is_ready
ready_as resource =
    if is_ready resource.status.state
    then pure (record { requeue = true; requeue_after = 1 })
    else update_status resource

ready_found : TestResource → Outcome Container → Prog Result
unfolding update_status with_state restarted finished ready_as
ready_found resource (ok stats) = ready_as (finished (restarted resource stats) stats)
ready_found resource (err not_found) =
    update_status (with_state resource ResourceState.uninitialized)
ready_found resource (err e) = lift (err e)
ready_found resource panic = lift panic
ready_found resource unfinished = lift unfinished

unfoldable pub reconcile_state_ready : TestResource → Prog Result
unfolding ready_found
reconcile_state_ready resource = do
  machine ← get_host_machine resource
  make_client machine
  found ← try (inspect (container_name resource))
  ready_found resource found

-- The specification of the container is cleared.
uninstalled : TestResource → TestResource
uninstalled resource = record resource {
  status = record resource.status { container = no_container; state = ResourceState.uninitialized };
}

destroy_as : TestResource → Bool → Prog Result
unfolding update_status uninstalled
destroy_as resource true = pure (after 1)
destroy_as resource false = update_status (uninstalled resource)

unfoldable pub reconcile_state_destroy : TestResource → Prog Result
unfolding destroy_as
reconcile_state_destroy resource = do
  machine ← get_host_machine resource
  requeue ← finalize resource machine
  destroy_as resource requeue
