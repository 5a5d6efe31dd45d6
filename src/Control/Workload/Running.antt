-- ===== src/Control/Workload/Running.antt =====
-- controllers/testworkload_controller.go: the nodes of a workload, and what is done while it runs.
pub mod Verdict
use naglfar.Prelude.{
  ℕ, suc, ◌+◌, Bool, true, false, not, ◌&&◌, List, [], ◌∷◌, Option, none, some, Str, str_eq, Map,
  lookup, insert, has_key, length, Outcome, ok, panic, ◌==◌, if◌then◌else◌,
}
use naglfar.Control.Calls.{
  Prog, NamespacedName, get_request, get_resource, commit, write_workload_status,
}
use naglfar.Control.Effects.{◌>>=◌, ◌>>◌, pure, lift, Result, after}
use naglfar.Relationship.{Nillable, entries}
use naglfar.Resource.{TestResource, ResourceState, ResourcePhase, ResourcePhase-discrete}
use naglfar.Topology.Components.{deep_equal}
use naglfar.Workload.{ContainerSpec, TestWorkload, TestWorkloadItemSpec, TestWorkloadState}

unfoldable pub get_workload_request_node : Str → ContainerSpec → Prog TestResource
get_workload_request_node ns spec = do
  _ ← get_request (record { namespace = ns; name = spec.resource_request.name })
  get_resource (record { namespace = ns; name = spec.resource_request.node })

-- An item without a container is a nil pointer.
unfoldable pub node_of_item : Str → TestWorkloadItemSpec → Prog TestResource
unfolding get_workload_request_node
node_of_item ns item = elim item.docker_container [
  | none ↦ lift panic
  | some spec ↦ get_workload_request_node ns spec
]

-- What the loop has seen so far.
pub record Tally : Type 0 where
  pub phases : Nillable ResourcePhase
  pub changed : ℕ
  pub succeeded : ℕ
  pub failed : ℕ

unfoldable pub no_change : Nillable ResourcePhase → Tally
no_change phases = record { phases = phases; changed = 0; succeeded = 0; failed = 0 }

one_more : Bool → ℕ
one_more true = 1
one_more false = 0

is_phase : Option ResourcePhase → ResourcePhase → Bool
is_phase none phase = false
is_phase (some old) phase = deep_equal ResourcePhase-discrete old phase

-- An item that is new counts as a change, and so does one whose phase differs from that of the node;
-- a new item is pending before its phase is compared.
unfoldable pub observe : Str → ResourcePhase → Tally → Tally
unfolding one_more is_phase
observe name phase tally =
    let known = has_key name (entries tally.phases) in
    let before =
      if known
      then entries tally.phases
      else insert name ResourcePhase.pending (entries tally.phases) in
    let same = is_phase (lookup name before) phase in
    record {
      phases = some (if same then before else insert name phase before);
      changed = tally.changed + one_more (not known) + one_more (not same);
      succeeded =
          tally.succeeded
          + one_more (deep_equal ResourcePhase-discrete phase ResourcePhase.succeeded);
      failed =
          tally.failed + one_more (deep_equal ResourcePhase-discrete phase ResourcePhase.failed);
    }

unfoldable pub tally_node : ResourceState → Str → ResourcePhase → Tally → Outcome Tally
unfolding observe
tally_node ResourceState.uninitialized name phase tally = ok (observe name phase tally)
tally_node ResourceState.ready name phase tally = ok (observe name phase tally)
tally_node ResourceState.finish name phase tally = ok (observe name phase tally)
tally_node _ name phase tally = panic

unfoldable pub tally_items : Str → List TestWorkloadItemSpec → Tally → Prog Tally
unfolding tally_node
tally_items ns [] tally = pure tally
tally_items ns (item ∷ items) tally = do
  node ← node_of_item ns item
  next ← lift (tally_node node.status.state item.name node.status.phase tally)
  tally_items ns items next

unfoldable pub state_after : ℕ → Tally → TestWorkloadState → TestWorkloadState
state_after total tally old =
    if tally.succeeded == total
    then TestWorkloadState.succeeded
    else (if tally.succeeded + tally.failed == total then TestWorkloadState.failed else old)

unfoldable pub after_tally : TestWorkload → Tally → TestWorkload
unfolding state_after
after_tally workload tally = record workload {
  status = record workload.status {
    state = state_after (length workload.spec.workloads) tally workload.status.state;
    workload_status = tally.phases;
  };
}

unfoldable pub write_tally : TestWorkload → Tally → Prog Result
unfolding after_tally
write_tally workload tally =
    if tally.changed == 0
    then pure (after 5)
    else (do commit (write_workload_status (after_tally workload tally)); pure (after 5))

unfoldable pub reconcile_running : TestWorkload → Prog Result
unfolding no_change tally_items write_tally
reconcile_running workload = do
  tally ←
      tally_items workload.meta.namespace workload.spec.workloads
        (no_change workload.status.workload_status)
  write_tally workload tally
