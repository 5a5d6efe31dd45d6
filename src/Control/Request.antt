-- ===== src/Control/Request.antt =====
-- controllers/testresourcerequest_controller.go. A request creates its resources, waits for a place
-- for all of them, and gives its locks back when it is deleted.
pub mod Exclusive
pub mod Locks
pub mod Machines
use naglfar.Prelude.{
  ℕ, suc, Bool, true, false, not, ◌&&◌, List, [], ◌∷◌, ◌++◌, Option, none, some, Str, str_eq, codes,
  Map, Outcome, ok, err, panic, unfinished, not_found, already_exists, insert, has_key, length,
  ◌==◌, if◌then◌else◌,
}
use naglfar.Control.Calls.{
  Prog, NamespacedName, Event, get_request, commit, set_controller, create_resource,
  delete_resource, get_machine_list, get_resource_list, get_owned_list, write_request,
  write_request_status, write_relationship,
}
use naglfar.Control.Effects.{
  ◌>>=◌, ◌>>◌, pure, lift, call, try, Result, done, again, after, ignore_not_found,
}
use naglfar.Control.Relationship.{get_relationship}
use naglfar.Machine.{Machine, MachineState}
use naglfar.Ref.{Ref, create_ref, ref_eq}
use naglfar.Relationship.{
  RelationshipStatus, Nillable, entries, discard, accepted, if_exist, remove,
}
use naglfar.Request.{
  TestResourceRequest, ResourceRequestItem, RequestState, construct_test_resource,
}
use naglfar.Resource.{TestResource, is_required}
use naglfar.Scheduler.Select.{Choices}
use naglfar.Scheduler.TryRequest.{try_request}
use naglfar.Util.{strings_contains, strings_remove}
use naglfar.Util.Bytes.{Units}

abbrev pub request_finalizer : Str
request_finalizer = codes "testresourcerequest.naglfar.pingcap.com"

-- getMachines, after the list was read: the machines that are ready, under their names.
is_ready : MachineState → Bool
is_ready MachineState.ready = true
is_ready _ = false

unfoldable pub ready_machines : List Machine → Map Machine → Map Machine
unfolding is_ready
ready_machines [] book = book
ready_machines (machine ∷ items) book =
    ready_machines items
      (if is_ready machine.status.state then insert machine.meta.name machine book else book)

pub get_machines : Prog (Map Machine)
unfolding ready_machines
get_machines = do items ← get_machine_list; pure (ready_machines items [])

-- The first loop of `reconcilePending`: the resources by name, and how many of them have their
-- place. `none` is the early return at a resource that is not the request's.
is_owned : TestResourceRequest → TestResource → Bool
is_owned request item = elim item.meta.controller [
  | none ↦ false
  | some uid ↦ str_eq uid request.meta.uid
]

own_resources :
    TestResourceRequest → List TestResource → Map TestResource → ℕ → Option (Map TestResource × ℕ)
unfolding is_owned
own_resources request [] resources required = some (resources, required)
own_resources request (item ∷ items) resources required =
    let rest =
      own_resources request items (insert item.meta.name item resources)
        (if is_required item.status.state then suc required else required) in
    if is_owned request item then rest else none

-- A resource that exists already is no error.
created : Outcome (Unit {0}) → Prog Result → Prog Result
created (ok _) rest = rest
created (err already_exists) rest = rest
created (err e) rest = lift (err e)
created panic rest = lift panic
created unfinished rest = lift unfinished

create_owned : Outcome TestResource → Prog Result → Prog Result
unfolding created
create_owned (ok tr) rest = do result ← try (commit (create_resource tr)); created result rest
create_owned (err e) rest = pure (after 10)
create_owned panic rest = lift panic
create_owned unfinished rest = lift unfinished

create_one : TestResourceRequest → ℕ → Prog Result → Prog Result
unfolding create_owned
create_one request idx rest = do
  tr ← lift (construct_test_resource request idx)
  owned ← try (call (set_controller request tr) (λ env log. env.controller log request tr))
  create_owned owned rest

-- The loop over the items, from the index `idx` on.
create_missing : TestResourceRequest → Map TestResource → ℕ → List ResourceRequestItem → Prog Result
unfolding create_one
create_missing request resources idx [] = pure (after 1)
create_missing request resources idx (item ∷ items) =
    let rest = create_missing request resources (suc idx) items in
    if has_key item.name resources then rest else create_one request idx rest

-- The error of the update is dropped.
pub become_ready : TestResourceRequest → Prog Result
become_ready request = do
  _ ← try (commit (write_request_status (record request { state = RequestState.ready })))
  pure done

pub write_accepted : Option RelationshipStatus → Prog Result
write_accepted none = pure (after 10)
write_accepted (some rel) = do commit (write_relationship rel); pure done

module _ (units : Units) (choices : Choices) where
  -- `tryRequest`, with its reads and its write.
  pub submit : TestResourceRequest → Map TestResource → RelationshipStatus → Prog Result
  unfolding get_machines write_accepted
  submit request resources rel = do
    machines ← get_machines
    written ← lift (try_request units choices rel request resources machines)
    write_accepted written

  pub submit_once : TestResourceRequest → Map TestResource → RelationshipStatus → Prog Result
  unfolding submit
  submit_once request resources rel =
      if if_exist (accepted rel) (create_ref request.meta)
      then pure (after 1)
      else submit request resources rel

  pending_with : TestResourceRequest → Option (Map TestResource × ℕ) → Prog Result
  unfolding create_missing become_ready submit_once
  pending_with request none = pure (after 10)
  pending_with request (some (resources, required)) = do
    _ ← get_owned_list request.meta.namespace request.meta.name
    let count = length request.spec.items
    if not (length resources == count)
        then create_missing request resources 0 request.spec.items
        else (if required == count
            then become_ready request
            else (get_relationship >>= submit_once request resources))

  pub reconcile_pending : TestResourceRequest → Prog Result
  unfolding own_resources pending_with
  reconcile_pending request = do
    items ← get_resource_list request.meta.namespace
    pending_with request (own_resources request items [] 0)

-- removeAllResources: a resource that is gone is no error.
removed : Outcome (Unit {0}) → Prog (Unit {0}) → Prog (Unit {0})
removed (ok _) rest = rest
removed (err not_found) rest = rest
removed (err e) rest = lift (err e)
removed panic rest = lift panic
removed unfinished rest = lift unfinished

remove_all_resources : List TestResource → Prog (Unit {0})
unfolding removed
remove_all_resources [] = pure tt
remove_all_resources (item ∷ items) =
    let rest = remove_all_resources items in
    try (commit (delete_resource item)) >>= λ found. removed found rest

-- The machines that the request has locked.
pub locked_by : Ref → Map Ref → List Str
locked_by self [] = []
locked_by self ((machine, owner) ∷ locks) =
    let rest = locked_by self locks in if ref_eq owner self then machine ∷ rest else rest

pub unlock_all : List Str → Nillable Ref → Nillable Ref
unlock_all [] locks = locks
unlock_all (machine ∷ machines) locks = unlock_all machines (discard machine locks)

-- The relationship without the request.
unfoldable pub forget_request : Ref → RelationshipStatus → RelationshipStatus
unfolding locked_by unlock_all
forget_request self rel = record rel {
  accepted_requests = some (remove (accepted rel) self);
  machine_locks = unlock_all (locked_by self (entries rel.machine_locks)) rel.machine_locks;
}

let_go : TestResourceRequest → RelationshipStatus → Prog Result
unfolding forget_request
let_go request rel = do
  commit (write_relationship (forget_request (create_ref request.meta) rel))
  finalizers ← lift (strings_remove request.meta.finalizers request_finalizer)
  commit (write_request (record request { meta = record request.meta { finalizers = finalizers } }))
  pure done

-- While there are resources, the request waits.
delete_as : TestResourceRequest → List TestResource → Prog Result
unfolding let_go
delete_as request [] = get_relationship >>= let_go request
delete_as request (item ∷ items) = pure (after 1)

unfoldable pub reconcile_deletion : TestResourceRequest → Prog Result
unfolding remove_all_resources delete_as
reconcile_deletion request = do
  items ← get_owned_list request.meta.namespace request.meta.name
  remove_all_resources items
  delete_as request items

add_finalizer : TestResourceRequest → Prog Result
add_finalizer request = do
  commit (
      write_request (record request {
        meta = record request.meta {
          finalizers = request.meta.finalizers ++ (request_finalizer ∷ []);
        };
      }))
  pure done

start_pending : TestResourceRequest → Prog Result
start_pending request = do
  commit (write_request_status (record request { state = RequestState.pending }))
  pure again

module _ (units : Units) (choices : Choices) where
  dispatch : RequestState → TestResourceRequest → Prog Result
  unfolding start_pending
  dispatch RequestState.unset request = start_pending request
  dispatch RequestState.pending request = reconcile_pending units choices request
  dispatch RequestState.ready request = pure done

  unfoldable pub reconcile_request : TestResourceRequest → Prog Result
  unfolding add_finalizer dispatch
  reconcile_request request =
      if not request.meta.deleting
        && not (strings_contains request.meta.finalizers request_finalizer)
      then add_finalizer request
      else (if request.meta.deleting && strings_contains request.meta.finalizers request_finalizer
          then reconcile_deletion request
          else dispatch request.state request)

  reconcile_found : Outcome TestResourceRequest → Prog Result
  unfolding reconcile_request
  reconcile_found (ok request) = reconcile_request request
  reconcile_found (err e) = lift (ignore_not_found e)
  reconcile_found panic = lift panic
  reconcile_found unfinished = lift unfinished

  unfoldable pub reconcile : NamespacedName → Prog Result
  unfolding reconcile_found
  reconcile name = do found ← try (get_request name); reconcile_found found
