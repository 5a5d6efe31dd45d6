-- ===== src/Control/Workload.antt =====
-- controllers/testworkload_controller.go.
pub mod Envs
pub mod Running
pub mod Pending
pub mod Steps
pub mod Transitions
pub mod Life
use naglfar.Prelude.{
  Bool, true, false, List, [], ◌∷◌, ◌++◌, some, none, Str, codes, str_eq, Outcome, ok, err, panic,
  unfinished, not_found, if◌then◌else◌,
}
use naglfar.Control.Calls.{
  Prog, Event, NamespacedName, get_workload, commit, write_workload, write_workload_status,
  write_resource_status,
}
use naglfar.Control.Effects.{◌>>=◌, ◌>>◌, pure, lift, try, Result, done, ignore_not_found}
use naglfar.Control.Workload.Pending.{reconcile_pending}
use naglfar.Control.Workload.Running.{node_of_item, reconcile_running}
use naglfar.Resource.{TestResource, ResourceState, could_uninstall}
use naglfar.Tiup.Specification.{SpecLib}
use naglfar.Util.{strings_contains, strings_remove}
use naglfar.Workload.{TestWorkload, TestWorkloadItemSpec, TestWorkloadState}

abbrev pub workload_finalizer : Str
workload_finalizer = codes "testworkload.naglfar.pingcap.com"

abbrev pub in_state : TestWorkload → TestWorkloadState → TestWorkload
in_state workload state = record workload { status = record workload.status { state = state } }

start_pending : TestWorkload → Prog Result
start_pending workload = do
  commit (
      write_workload_status (record workload {
        status = record workload.status {
          state = TestWorkloadState.pending;
          workload_status = some [];
        };
      }))
  pure done

-- The node goes to destroy and its claim is released, whoever holds it; the error of the update is
-- dropped.
unfoldable pub released : TestResource → TestResource
released node = record node {
  status = record node.status { state = ResourceState.destroy; claim_ref = none };
}

uninstall_node : TestResource → Prog (Unit {0})
unfolding released
uninstall_node node =
    if could_uninstall node.status.state
    then (do _ ← try (commit (write_resource_status (released node))); pure tt)
    else pure tt

-- A request or a node that is not found is passed over.
uninstall_found : Outcome TestResource → Prog (Unit {0})
unfolding uninstall_node
uninstall_found (ok node) = uninstall_node node
uninstall_found (err not_found) = pure tt
uninstall_found (err e) = lift (err e)
uninstall_found panic = lift panic
uninstall_found unfinished = lift unfinished

uninstall_items : Str → List TestWorkloadItemSpec → Prog (Unit {0})
unfolding uninstall_found
uninstall_items namespace [] = pure tt
uninstall_items namespace (item ∷ items) = do
  found ← try (node_of_item namespace item)
  uninstall_found found
  uninstall_items namespace items

unfoldable pub uninstall_workload : TestWorkload → Prog (Unit {0})
unfolding uninstall_items
uninstall_workload workload = uninstall_items workload.meta.namespace workload.spec.workloads

write_finalizers : TestWorkload → List Str → Prog (Unit {0})
write_finalizers workload finalizers =
    commit
      (write_workload (record workload { meta = record workload.meta { finalizers = finalizers } }))

delete_workload : TestWorkload → Prog Result
unfolding uninstall_workload write_finalizers
delete_workload workload = do
  (if strings_contains workload.meta.finalizers workload_finalizer
      then uninstall_workload workload
      else pure tt)
  finalizers ← lift (strings_remove workload.meta.finalizers workload_finalizer)
  write_finalizers workload finalizers
  pure done

abbrev pub with_finalizer : TestWorkload → TestWorkload
with_finalizer workload = record workload {
  meta = record workload.meta {
    finalizers = workload.meta.finalizers ++ (workload_finalizer ∷ []);
  };
}

module _ (lib : SpecLib) (visit : List NamespacedName → List NamespacedName) where
  unfoldable pub dispatch : TestWorkloadState → TestWorkload → Prog Result
  unfolding start_pending
  dispatch TestWorkloadState.unset workload = start_pending workload
  dispatch TestWorkloadState.pending workload = reconcile_pending lib visit workload
  dispatch TestWorkloadState.running workload = reconcile_running workload
  dispatch TestWorkloadState.succeeded workload = pure done
  dispatch TestWorkloadState.failed workload = pure done

  unfoldable pub reconcile_workload : TestWorkload → Prog Result
  unfolding delete_workload
  reconcile_workload workload =
      if workload.meta.deleting
      then delete_workload workload
      else (if strings_contains workload.meta.finalizers workload_finalizer
          then dispatch workload.status.state workload
          else (do
            commit (write_workload (with_finalizer workload))
            dispatch workload.status.state (with_finalizer workload)))

  reconcile_found : Outcome TestWorkload → Prog Result
  reconcile_found (ok workload) = reconcile_workload workload
  reconcile_found (err e) = lift (ignore_not_found e)
  reconcile_found panic = lift panic
  reconcile_found unfinished = lift unfinished

  unfoldable pub reconcile : NamespacedName → Prog Result
  unfolding reconcile_found
  reconcile name = do found ← try (get_workload name); reconcile_found found
