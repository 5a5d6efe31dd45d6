-- ===== src/Control/Request/Exclusive.antt =====
-- The writes of the relationship in controllers/testresourcerequest_controller.go, and who has which
-- core.
use naglfar.Prelude.{
  ℕ, suc, List, [], ◌∷◌, Option, none, some, Map, Outcome, ok, err, panic, unfinished, not_found,
  already_exists, ◌≡◌,
}
use naglfar.Control.Calls.{
  Env, Event, NamespacedName, Prog, get_request, get_resource_list, get_owned_list,
}
use naglfar.Control.Effects.{try, pure, lift, Result}
use naglfar.Control.Effects.Emits.{Emits, emits_rules}
use naglfar.Control.Effects.Ensures.{
  Ensures, Any, Ensures-bind, Ensures-Emits, Ensures-if, lift-Ensures,
}
use naglfar.Control.Exclusive.{WritesExclusive, ReadsExclusive, get_relationship-Ensures}
use naglfar.Control.Relationship.{get_relationship}
use naglfar.Control.Request.{
  get_machines, own_resources, created, create_owned, create_one, create_missing, become_ready,
  write_accepted, submit, submit_once, pending_with, reconcile_pending, removed,
  remove_all_resources, forget_request, let_go, delete_as, reconcile_deletion, add_finalizer,
  start_pending, dispatch, reconcile_request, reconcile_found, reconcile,
}
use naglfar.Machine.{Machine}
use naglfar.Relationship.{RelationshipStatus, resources_of}
use naglfar.Request.{TestResourceRequest, ResourceRequestItem, RequestState}
use naglfar.Resource.{TestResource}
use naglfar.Scheduler.Select.{Choices}
use naglfar.Scheduler.TryRequest.{try_request}
use naglfar.Scheduler.TryRequest.Cores.{CoresAreExclusive, try_request-CoresAreExclusive}
use naglfar.Util.Bytes.{Units}

abbrev Fine : Event → Type 0
Fine = WritesExclusive

created-Emits :
    (o : Outcome (Unit {0})) (rest : Prog Result) → Emits Fine rest → Emits Fine (created o rest)
unfolding created
created-Emits (ok _) rest h = h
created-Emits (err already_exists) rest h = h
created-Emits (err e) rest h = search emits_rules
created-Emits panic rest h = search emits_rules
created-Emits unfinished rest h = search emits_rules

create_owned-Emits :
    (o : Outcome TestResource) (rest : Prog Result)
    → Emits Fine rest
    → Emits Fine (create_owned o rest)
unfolding create_owned
create_owned-Emits (ok tr) rest h = search (emits_rules, created-Emits)
create_owned-Emits (err e) rest h = search emits_rules
create_owned-Emits panic rest h = search emits_rules
create_owned-Emits unfinished rest h = search emits_rules

create_one-Emits :
    (request : TestResourceRequest) (idx : ℕ) (rest : Prog Result)
    → Emits Fine rest
    → Emits Fine (create_one request idx rest)
unfolding create_one
create_one-Emits request idx rest h = search (emits_rules, create_owned-Emits)

create_missing-Emits :
    (request : TestResourceRequest) (resources : Map TestResource) (idx : ℕ)
    (items : List ResourceRequestItem)
    → Emits Fine (create_missing request resources idx items)
unfolding create_missing
create_missing-Emits request resources idx [] = search emits_rules
create_missing-Emits request resources idx (item ∷ items) =
    let h = create_missing-Emits request resources (suc idx) items in
    search (emits_rules, create_one-Emits)

removed-Emits :
    (o : Outcome (Unit {0})) (rest : Prog (Unit {0}))
    → Emits Fine rest
    → Emits Fine (removed o rest)
unfolding removed
removed-Emits (ok _) rest h = h
removed-Emits (err not_found) rest h = h
removed-Emits (err e) rest h = search emits_rules
removed-Emits panic rest h = search emits_rules
removed-Emits unfinished rest h = search emits_rules

remove_all-Emits : (items : List TestResource) → Emits Fine (remove_all_resources items)
unfolding remove_all_resources
remove_all-Emits [] = search emits_rules
remove_all-Emits (item ∷ items) =
    let h = remove_all-Emits items in search (emits_rules, removed-Emits)

let_go-Emits :
    (request : TestResourceRequest) (rel : RelationshipStatus)
    → CoresAreExclusive rel
    → Emits Fine (let_go request rel)
unfolding let_go forget_request resources_of
let_go-Emits request rel h = search (emits_rules, h) depth 8

module _ (env : Env) (reads : ReadsExclusive env) where
  delete_as-Ensures :
      (request : TestResourceRequest) (items : List TestResource)
      → Ensures env Fine Any (delete_as request items)
  unfolding delete_as
  delete_as-Ensures request [] =
      Ensures-bind env Fine _ _ get_relationship (let_go request)
        (get_relationship-Ensures env reads)
        (λ rel h. Ensures-Emits env Fine _ (let_go-Emits request rel h))
  delete_as-Ensures request (item ∷ items) = Ensures-Emits env Fine _ (search emits_rules)

  deletion-Ensures :
      (request : TestResourceRequest) → Ensures env Fine Any (reconcile_deletion request)
  unfolding reconcile_deletion
  deletion-Ensures request =
      Ensures-bind env Fine Any _ (get_owned_list request.meta.namespace request.meta.name) _
        (Ensures-Emits env Fine _ (search emits_rules))
        (λ items _.
          Ensures-bind env Fine Any _ (remove_all_resources items) _
            (Ensures-Emits env Fine _ (remove_all-Emits items))
            (λ _ _. delete_as-Ensures request items))

  module _ (units : Units) (choices : Choices) (request : TestResourceRequest) where
    write_accepted-Ensures :
        (resources : Map TestResource) (rel : RelationshipStatus) (machines : Map Machine)
        (answer : Option RelationshipStatus)
        → try_request units choices rel request resources machines ≡ ok answer
        → CoresAreExclusive rel
        → Ensures env Fine Any (write_accepted answer)
    unfolding write_accepted
    write_accepted-Ensures resources rel machines none e h =
        Ensures-Emits env Fine _ (search emits_rules)
    write_accepted-Ensures resources rel machines (some written) e h =
        let kept : CoresAreExclusive written =
          try_request-CoresAreExclusive units choices rel request resources machines written e h in
        Ensures-Emits env Fine _ (search (emits_rules, kept))

    submit-Ensures :
        (resources : Map TestResource) (rel : RelationshipStatus)
        → CoresAreExclusive rel
        → Ensures env Fine Any (submit units choices request resources rel)
    unfolding submit
    submit-Ensures resources rel h =
        Ensures-bind env Fine Any _ get_machines _
          (unfold get_machines in Ensures-Emits env Fine _ (search emits_rules))
          (λ machines _.
            let answer = try_request units choices rel request resources machines in
            Ensures-bind env Fine (λ a. answer ≡ ok a) _ (lift answer) write_accepted
              (lift-Ensures env Fine answer)
              (λ a e. write_accepted-Ensures resources rel machines a e h))

    submit_once-Ensures :
        (resources : Map TestResource) (rel : RelationshipStatus)
        → CoresAreExclusive rel
        → Ensures env Fine Any (submit_once units choices request resources rel)
    unfolding submit_once
    submit_once-Ensures resources rel h =
        Ensures-if env Fine _ _ (pure _) _ (Ensures-Emits env Fine _ (search emits_rules))
          (submit-Ensures resources rel h)

    pending_with-Ensures :
        (o : Option (Map TestResource × ℕ))
        → Ensures env Fine Any (pending_with units choices request o)
    unfolding pending_with become_ready
    pending_with-Ensures none = Ensures-Emits env Fine _ (search emits_rules)
    pending_with-Ensures (some (resources, required)) =
        Ensures-bind env Fine Any _ (get_owned_list request.meta.namespace request.meta.name) _
          (Ensures-Emits env Fine _ (search emits_rules))
          (λ _ _.
            Ensures-if env Fine _ _ (create_missing request resources 0 request.spec.items) _
              (Ensures-Emits env Fine _
                (create_missing-Emits request resources 0 request.spec.items))
              (Ensures-if env Fine _ _ (become_ready request) _
                (Ensures-Emits env Fine _ (search emits_rules))
                (Ensures-bind env Fine _ _ get_relationship
                  (submit_once units choices request resources) (get_relationship-Ensures env reads)
                  (λ rel h. submit_once-Ensures resources rel h))))

    pending-Ensures : Ensures env Fine Any (reconcile_pending units choices request)
    unfolding reconcile_pending
    pending-Ensures =
        Ensures-bind env Fine Any _ (get_resource_list request.meta.namespace) _
          (Ensures-Emits env Fine _ (search emits_rules))
          (λ items _. pending_with-Ensures (own_resources request items [] 0))

    dispatch-Ensures : (s : RequestState) → Ensures env Fine Any (dispatch units choices s request)
    unfolding dispatch start_pending
    dispatch-Ensures RequestState.unset = Ensures-Emits env Fine _ (search emits_rules)
    dispatch-Ensures RequestState.pending = pending-Ensures
    dispatch-Ensures RequestState.ready = Ensures-Emits env Fine _ (search emits_rules)

    reconcile_request-Ensures : Ensures env Fine Any (reconcile_request units choices request)
    unfolding reconcile_request add_finalizer
    reconcile_request-Ensures =
        Ensures-if env Fine _ _ (add_finalizer request) _
          (Ensures-Emits env Fine _ (search emits_rules))
          (Ensures-if env Fine _ _ (reconcile_deletion request) _ (deletion-Ensures request)
            (dispatch-Ensures request.state))

  reconcile_found-Ensures :
      (units : Units) (choices : Choices) (o : Outcome TestResourceRequest)
      → Ensures env Fine Any (reconcile_found units choices o)
  unfolding reconcile_found
  reconcile_found-Ensures units choices (ok request) =
      reconcile_request-Ensures units choices request
  reconcile_found-Ensures units choices (err e) = Ensures-Emits env Fine _ (search emits_rules)
  reconcile_found-Ensures units choices panic = Ensures-Emits env Fine _ (search emits_rules)
  reconcile_found-Ensures units choices unfinished = Ensures-Emits env Fine _ (search emits_rules)

  pub reconcile-Ensures :
      (units : Units) (choices : Choices) (name : NamespacedName)
      → Ensures env Fine Any (reconcile units choices name)
  unfolding reconcile
  reconcile-Ensures units choices name =
      Ensures-bind env Fine Any _ (try (get_request name)) (reconcile_found units choices)
        (Ensures-Emits env Fine _ (search emits_rules))
        (λ o _. reconcile_found-Ensures units choices o)
