-- ===== src/Control/Resource.antt =====
-- controllers/testresource_controller.go. A resource waits for its place, runs its container there,
-- and leaves the place when it is deleted, after its container and its disks were cleaned.
pub mod Cleaning
pub mod Exclusive
pub mod Places
pub mod Quiet
pub mod States
pub mod Status
pub mod Transitions
use naglfar.Prelude.{
  Bool, true, false, not, ◌&&◌, List, [], ◌∷◌, ◌++◌, Option, none, some, Str, codes, Outcome, ok,
  err, panic, unfinished, lookup, if◌then◌else◌,
}
use naglfar.Control.Calls.{
  Prog, NamespacedName, get_resource, get_machine, commit, write_resource, write_resource_status,
  write_relationship,
}
use naglfar.Control.Effects.{◌>>=◌, ◌>>◌, pure, lift, try, Result, done, after, ignore_not_found}
use naglfar.Control.Relationship.{get_relationship}
use Cleaning.{resource_key, namespaced, finalize}
use Places.{unbind}
use States.{
  reconcile_state_pending, reconcile_state_uninitialized, reconcile_state_ready,
  reconcile_state_destroy,
}
use naglfar.Machine.{Machine}
use naglfar.Relationship.{RelationshipStatus, MachineRef, entries}
use naglfar.Resource.{TestResource, ResourceState}
use naglfar.Util.{strings_contains, strings_remove}
use naglfar.Util.Bytes.{Units}

abbrev pub resource_finalizer : Str
resource_finalizer = codes "testresource.naglfar.pingcap.com"

drop_finalizer : TestResource → Prog Result
drop_finalizer resource = do
  finalizers ← lift (strings_remove resource.meta.finalizers resource_finalizer)
  commit
      (write_resource (record resource { meta = record resource.meta { finalizers = finalizers } }))
  pure done

leave : TestResource → Machine → RelationshipStatus → Prog Result
unfolding unbind drop_finalizer
leave resource machine relation = do
  written ← lift (unbind resource machine relation)
  commit (write_relationship written)
  drop_finalizer resource

-- The cleaning may take several visits.
leave_after : TestResource → Machine → RelationshipStatus → Bool → Prog Result
unfolding leave
leave_after resource machine relation true = pure (after 1)
leave_after resource machine relation false = leave resource machine relation

delete_from : TestResource → RelationshipStatus → Option MachineRef → Prog Result
unfolding leave_after drop_finalizer
delete_from resource relation none = drop_finalizer resource
delete_from resource relation (some machine_ref) = do
  machine ← get_machine (namespaced machine_ref.ref)
  requeue ← finalize resource machine
  leave_after resource machine relation requeue

delete_with : TestResource → RelationshipStatus → Prog Result
unfolding delete_from
delete_with resource relation =
    delete_from resource relation
      (lookup (resource_key resource) (entries relation.resource_to_machine))

unfoldable pub reconcile_deletion : TestResource → Prog Result
unfolding delete_with
reconcile_deletion resource = get_relationship >>= delete_with resource

add_finalizer : TestResource → Prog Result
add_finalizer resource = do
  commit (
      write_resource (record resource {
        meta = record resource.meta {
          finalizers = resource.meta.finalizers ++ (resource_finalizer ∷ []);
        };
      }))
  pure done

start_pending : TestResource → Prog Result
start_pending resource = do
  commit (
      write_resource_status
        (record resource { status = record resource.status { state = ResourceState.pending } }))
  pure done

module _ (units : Units) where
  dispatch : ResourceState → TestResource → Prog Result
  unfolding start_pending
  dispatch ResourceState.unset resource = start_pending resource
  dispatch ResourceState.pending resource = reconcile_state_pending resource
  dispatch ResourceState.uninitialized resource = reconcile_state_uninitialized units resource
  dispatch ResourceState.ready resource = reconcile_state_ready resource
  dispatch ResourceState.finish resource = pure done
  dispatch ResourceState.destroy resource = reconcile_state_destroy resource
  dispatch ResourceState.fail resource = pure done

  unfoldable pub reconcile_resource : TestResource → Prog Result
  unfolding add_finalizer dispatch
  reconcile_resource resource =
      if not resource.meta.deleting
        && not (strings_contains resource.meta.finalizers resource_finalizer)
      then add_finalizer resource
      else (if resource.meta.deleting
            && strings_contains resource.meta.finalizers resource_finalizer
          then reconcile_deletion resource
          else dispatch resource.status.state resource)

  reconcile_found : Outcome TestResource → Prog Result
  unfolding reconcile_resource
  reconcile_found (ok resource) = reconcile_resource resource
  reconcile_found (err e) = lift (ignore_not_found e)
  reconcile_found panic = lift panic
  reconcile_found unfinished = lift unfinished

  unfoldable pub reconcile : NamespacedName → Prog Result
  unfolding reconcile_found
  reconcile name = do found ← try (get_resource name); reconcile_found found
