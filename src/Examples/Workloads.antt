-- ===== src/Examples/Workloads.antt =====
-- Runs of the workload controller on concrete replies.
use naglfar.Prelude.{[], ok, ◌≡◌, refl, List, lookup, insert, str_eq}
use naglfar.Control.Calls.{Env, Log}
use naglfar.Control.Effects.{after}
use naglfar.Control.Workload.Running.Verdict.{Reads, Reported, reconcile_running-Reported}
use naglfar.Control.Workload.Running.{reconcile_running, node_of_item}
use naglfar.Examples.Clusters.{workload}
use naglfar.Examples.Controllers.{friendly}
use naglfar.Examples.Data.{db}
use naglfar.Resource.{TestResource, ResourceState, ResourcePhase, ResourcePhase-discrete}
use naglfar.Relationship.{entries}

-- The container of the workload has ended well.
abbrev ended_db : TestResource
ended_db = record db {
  status = record db.status { state = ResourceState.finish; phase = ResourcePhase.succeeded };
}

abbrev ended : Env
ended = record friendly { resource = λ log name. ok ended_db }

abbrev last : Log
last = (reconcile_running workload ended []).1

running_run : reconcile_running workload ended [] ≡ (ok (after 5), last)
unfolding reconcile_running node_of_item lookup entries insert str_eq ResourcePhase-discrete
running_run = refl

reconcile_running-Reported_example :
    (phases : List ResourcePhase) × (mid : Log) × Reads ended workload.meta.namespace
      workload.spec.workloads [] phases mid
    × Reported phases mid last
reconcile_running-Reported_example =
    reconcile_running-Reported workload ended [] (after 5) last refl running_run
