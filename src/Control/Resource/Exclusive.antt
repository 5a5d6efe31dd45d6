-- ===== src/Control/Resource/Exclusive.antt =====
-- The writes of the relationship in controllers/testresource_controller.go, and who has which core.
use naglfar.Prelude.{
  ℕ, ◌≤◌, Bool, true, false, [], ◌∷◌, Option, none, some, Outcome, ok, err, panic, unfinished, ◌≡◌,
  refl, arith, >>=-eq-ok,
}
use naglfar.Control.Calls.{Env, Event, NamespacedName, get_machine, get_resource}
use naglfar.Control.Effects.{try, lift}
use naglfar.Control.Effects.Emits.{Emits, emits_rules}
use naglfar.Control.Effects.Ensures.{
  Ensures, Any, Ensures-bind, Ensures-Emits, Ensures-if, lift-Ensures,
}
use naglfar.Control.Exclusive.{
  WritesExclusive, WritesExclusive-AllowsDocker, ReadsExclusive, get_relationship-Ensures,
  assign-CoresAreExclusive,
}
use naglfar.Control.Relationship.{get_relationship}
use naglfar.Control.Resource.{
  drop_finalizer, leave, leave_after, delete_from, delete_with, reconcile_deletion, add_finalizer,
  start_pending, dispatch, reconcile_resource, reconcile_found, reconcile,
}
use naglfar.Control.Resource.Cleaning.{namespaced, finalize}
use naglfar.Control.Resource.Places.{others, refs_remove, unbind}
use naglfar.Control.Resource.Quiet.{finalize-Emits}
use naglfar.Control.Resource.States.Writes.{
  pending-Emits, uninitialized-Emits, ready-Emits, destroy-Emits,
}
use naglfar.Machine.{Machine}
use naglfar.Ref.{Ref, create_ref, key}
use naglfar.Relationship.{RelationshipStatus, ResourceRefList, MachineRef, resources_of, assign}
use naglfar.Resource.{TestResource, ResourceState}
use naglfar.Scheduler.Bind.Cores.{owners, IsExclusive}
use naglfar.Scheduler.TryRequest.Cores.{CoresAreExclusive}
use naglfar.Util.Bytes.{Units}

abbrev Fine : Event → Type 0
Fine = WritesExclusive

owners-others :
    (x : ℕ) (list : ResourceRefList) (resource : Ref)
    → owners x (others list resource) ≤ owners x list
unfolding owners others
owners-others x [] resource = omega arith
owners-others x (elem ∷ list) resource = ground (arith, owners-others x list resource)

refs_remove-IsExclusive :
    (list : ResourceRefList) (resource : Ref) (left : ResourceRefList)
    → refs_remove list resource ≡ ok left
    → IsExclusive list
    → IsExclusive left
unfolding refs_remove
refs_remove-IsExclusive [] resource left e h x = absurd (cc)
refs_remove-IsExclusive (elem ∷ list) resource left e h x =
    let same : others (elem ∷ list) resource ≡ left = ground arith in
    let bound = h x in
    let fewer = owners-others x (elem ∷ list) resource in rw (← same) (omega (arith, bound, fewer))

-- A resource that leaves its place.
pub unbind-CoresAreExclusive :
    (resource : TestResource) (machine : Machine) (rel rel' : RelationshipStatus)
    → unbind resource machine rel ≡ ok rel'
    → CoresAreExclusive rel
    → CoresAreExclusive rel'
unfolding unbind
unbind-CoresAreExclusive resource machine rel rel' e h =
    let machine_key = key (create_ref machine.meta) in
    let removal = refs_remove (resources_of rel machine_key) (create_ref resource.meta) in
    let (left, r, e1) = >>=-eq-ok removal _ e in
    let (machines, w, e2) = >>=-eq-ok (assign machine_key left rel.machine_to_resources) _ e1 in
    let w' : assign machine_key left rel.machine_to_resources ≡ ok rel'.machine_to_resources =
      ground arith in
    assign-CoresAreExclusive machine_key left rel rel' w'
      (refs_remove-IsExclusive (resources_of rel machine_key) (create_ref resource.meta) left r
        (h machine_key))
      h

module _ (env : Env) (reads : ReadsExclusive env) (resource : TestResource) where
  drop-Emits : Emits Fine (drop_finalizer resource)
  unfolding drop_finalizer
  drop-Emits = search emits_rules depth 8

  leave-Ensures :
      (machine : Machine) (rel : RelationshipStatus)
      → CoresAreExclusive rel
      → Ensures env Fine Any (leave resource machine rel)
  unfolding leave
  leave-Ensures machine rel h =
      let wanted = unbind resource machine rel in
      Ensures-bind env Fine (λ w. wanted ≡ ok w) _ (lift wanted) _ (lift-Ensures env Fine wanted)
        (λ w e.
          let kept : CoresAreExclusive w = unbind-CoresAreExclusive resource machine rel w e h in
          Ensures-Emits env Fine _ (search (emits_rules, kept, drop-Emits) depth 8))

  leave_after-Ensures :
      (machine : Machine) (rel : RelationshipStatus) (requeue : Bool)
      → CoresAreExclusive rel
      → Ensures env Fine Any (leave_after resource machine rel requeue)
  unfolding leave_after
  leave_after-Ensures machine rel true h = Ensures-Emits env Fine _ (search emits_rules)
  leave_after-Ensures machine rel false h = leave-Ensures machine rel h

  delete_from-Ensures :
      (rel : RelationshipStatus) (o : Option MachineRef)
      → CoresAreExclusive rel
      → Ensures env Fine Any (delete_from resource rel o)
  unfolding delete_from
  delete_from-Ensures rel none h = Ensures-Emits env Fine _ drop-Emits
  delete_from-Ensures rel (some machine_ref) h =
      Ensures-bind env Fine Any _ (get_machine (namespaced machine_ref.ref)) _
        (Ensures-Emits env Fine _ (search emits_rules))
        (λ machine _.
          Ensures-bind env Fine Any _ (finalize resource machine) (leave_after resource machine rel)
            (Ensures-Emits env Fine _
              (finalize-Emits Fine WritesExclusive-AllowsDocker tt (λ _. tt) resource machine))
            (λ requeue _. leave_after-Ensures machine rel requeue h))

  deletion-Ensures : Ensures env Fine Any (reconcile_deletion resource)
  unfolding reconcile_deletion delete_with
  deletion-Ensures =
      Ensures-bind env Fine _ _ get_relationship (delete_with resource)
        (get_relationship-Ensures env reads) (λ rel h. delete_from-Ensures rel _ h)

  quietly :
      (s : ResourceState) (units : Units)
      → resource.status.state ≡ s
      → Emits Fine (dispatch units s resource)
  unfolding dispatch start_pending
  quietly ResourceState.unset units e = search emits_rules
  quietly ResourceState.pending units e =
      pending-Emits Fine WritesExclusive-AllowsDocker tt (λ _. tt) resource (λ _ _. tt) e
  quietly ResourceState.uninitialized units e =
      uninitialized-Emits Fine WritesExclusive-AllowsDocker tt (λ _. tt) resource (λ _ _. tt) units
        e
  quietly ResourceState.ready units e =
      ready-Emits Fine WritesExclusive-AllowsDocker tt (λ _. tt) resource (λ _ _. tt) e
  quietly ResourceState.finish units e = search emits_rules
  quietly ResourceState.destroy units e =
      destroy-Emits Fine WritesExclusive-AllowsDocker tt (λ _. tt) resource (λ _ _. tt) e
  quietly ResourceState.fail units e = search emits_rules

  reconcile_resource-Ensures :
      (units : Units) → Ensures env Fine Any (reconcile_resource units resource)
  unfolding reconcile_resource add_finalizer
  reconcile_resource-Ensures units =
      Ensures-if env Fine _ _ (add_finalizer resource) _
        (Ensures-Emits env Fine _ (search emits_rules))
        (Ensures-if env Fine _ _ (reconcile_deletion resource) _ deletion-Ensures
          (Ensures-Emits env Fine _ (quietly resource.status.state units refl)))

module _ (env : Env) (reads : ReadsExclusive env) (units : Units) where
  reconcile_found-Ensures :
      (o : Outcome TestResource) → Ensures env Fine Any (reconcile_found units o)
  unfolding reconcile_found
  reconcile_found-Ensures (ok resource) = reconcile_resource-Ensures env reads resource units
  reconcile_found-Ensures (err e) = Ensures-Emits env Fine _ (search emits_rules)
  reconcile_found-Ensures panic = Ensures-Emits env Fine _ (search emits_rules)
  reconcile_found-Ensures unfinished = Ensures-Emits env Fine _ (search emits_rules)

  pub reconcile-Ensures : (name : NamespacedName) → Ensures env Fine Any (reconcile units name)
  unfolding reconcile
  reconcile-Ensures name =
      Ensures-bind env Fine Any _ (try (get_resource name)) (reconcile_found units)
        (Ensures-Emits env Fine _ (search emits_rules)) (λ o _. reconcile_found-Ensures o)
