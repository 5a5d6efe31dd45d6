-- ===== src/Control/Resource/Transitions.antt =====
-- The life of a resource in controllers/testresource_controller.go.
use naglfar.Prelude.{Bool, true, false, [], Option, none, some, ◌≡◌, refl, subst, sym, All}
use naglfar.Control.Calls.{Env, Event, write_resource_status}
use naglfar.Control.Docker.Quiet.{AllowsDocker}
use naglfar.Control.Effects.Emits.{Emits, emits_rules, Emits-if}
use naglfar.Control.Resource.{
  drop_finalizer, leave, leave_after, delete_from, delete_with, reconcile_deletion, add_finalizer,
  start_pending, dispatch, reconcile_resource,
}
use naglfar.Control.Resource.Quiet.{relationship-Emits, finalize-Emits}
use naglfar.Control.Resource.States.Writes.{
  Transition, IsStep, pending-Emits, uninitialized-Emits, ready-Emits, destroy-Emits,
}
use naglfar.Machine.{Machine}
use naglfar.Relationship.{RelationshipStatus, MachineRef}
use naglfar.Resource.{TestResource, ResourceState}
use naglfar.Util.Bytes.{Units}

-- A status that is written for the resource is the next step of its life.
abbrev pub Steps : TestResource → Event → Type 0
Steps resource (write_resource_status written) = IsStep resource written
Steps resource _ = Unit

Steps-AllowsDocker : (resource : TestResource) → AllowsDocker (Steps resource)
Steps-AllowsDocker resource = record {
  connects = λ _. tt;
  image_inspects = λ _. tt;
  image_pulls = λ _. tt;
  inspects = λ _. tt;
  starts = λ _. tt;
  waits = λ _. tt;
  reads_logs = λ _. tt;
  removes = λ _. tt;
  creates = λ _ _ _. tt;
  joins = λ _ _. tt;
}

module _ (units : Units) (resource : TestResource) where
  abbrev Fine : Event → Type 0
  Fine = Steps resource

  abbrev quiet : AllowsDocker Fine
  quiet = Steps-AllowsDocker resource

  drop-Emits : Emits Fine (drop_finalizer resource)
  unfolding drop_finalizer
  drop-Emits = search emits_rules depth 8

  leave_after-Emits :
      (machine : Machine) (rel : RelationshipStatus) (requeue : Bool)
      → Emits Fine (leave_after resource machine rel requeue)
  unfolding leave_after leave
  leave_after-Emits machine rel true = search emits_rules
  leave_after-Emits machine rel false = search (emits_rules, drop-Emits) depth 8

  delete_from-Emits :
      (rel : RelationshipStatus) (o : Option MachineRef) → Emits Fine (delete_from resource rel o)
  unfolding delete_from
  delete_from-Emits rel none = drop-Emits
  delete_from-Emits rel (some machine_ref) =
      search (emits_rules, finalize-Emits Fine quiet tt (λ _. tt), leave_after-Emits) depth 8

  deletion-Emits : Emits Fine (reconcile_deletion resource)
  unfolding reconcile_deletion delete_with
  deletion-Emits =
      search (emits_rules, relationship-Emits Fine quiet tt (λ _. tt), delete_from-Emits)

  start-Emits : resource.status.state ≡ ResourceState.unset → Emits Fine (start_pending resource)
  unfolding start_pending
  start-Emits e =
      let step : Transition resource.status.state ResourceState.pending =
        subst (λ s. Transition s ResourceState.pending) (sym e) Transition.first in
      search (emits_rules, step) depth 8

  dispatch-Emits :
      (s : ResourceState) → resource.status.state ≡ s → Emits Fine (dispatch units s resource)
  unfolding dispatch
  dispatch-Emits ResourceState.unset e = start-Emits e
  dispatch-Emits ResourceState.pending e =
      pending-Emits Fine quiet tt (λ _. tt) resource (λ _ step. step) e
  dispatch-Emits ResourceState.uninitialized e =
      uninitialized-Emits Fine quiet tt (λ _. tt) resource (λ _ step. step) units e
  dispatch-Emits ResourceState.ready e =
      ready-Emits Fine quiet tt (λ _. tt) resource (λ _ step. step) e
  dispatch-Emits ResourceState.finish e = search emits_rules
  dispatch-Emits ResourceState.destroy e =
      destroy-Emits Fine quiet tt (λ _. tt) resource (λ _ step. step) e
  dispatch-Emits ResourceState.fail e = search emits_rules

  reconcile_resource-Emits : Emits Fine (reconcile_resource units resource)
  unfolding reconcile_resource add_finalizer
  reconcile_resource-Emits = Emits-if Fine _ (add_finalizer resource) _ (search emits_rules) (
      Emits-if Fine _ (reconcile_deletion resource) _ deletion-Emits
        (dispatch-Emits resource.status.state refl))

-- Whatever the API and Docker reply, each status that one run of the controller writes for a resource
-- is a step of its life, and its metadata and its specification are written back unchanged: pending
-- first; uninitialized once it has a place; ready or finished only from there; back to uninitialized
-- from ready, or from the request to destroy it. A resource that is finished is left alone.
pub reconcile_resource-Steps :
    (units : Units) (resource : TestResource) (env : Env)
    → All (Steps resource) (reconcile_resource units resource env []).1
reconcile_resource-Steps units resource env = (reconcile_resource-Emits units resource).at env [] tt
