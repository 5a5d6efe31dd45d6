-- ===== src/Control/Relationship.antt =====
-- controllers/relationship_controller.go, and getRelationship of the other controllers.
pub mod Exclusive
pub mod Quiet
use naglfar.Prelude.{
  Bool, true, false, ◌||◌, [], Option, none, some, Outcome, ok, err, panic, unfinished, Error,
  not_found, already_exists, failure, if◌then◌else◌,
}
use naglfar.Control.Calls.{Prog, Event, get_relationship_status, commit, write_relationship}
use naglfar.Control.Effects.{◌>>=◌, ◌>>◌, pure, lift, try, Result, done, ignore_not_found}
use naglfar.Relationship.{RelationshipStatus, Nillable}

-- The relationship that was not found: all its maps are nil.
abbrev pub no_relationship : RelationshipStatus
no_relationship = record {
  machine_to_resources = none;
  resource_to_machine = none;
  accepted_requests = none;
  machine_locks = none;
}

unfoldable pub or_no_relationship : Outcome RelationshipStatus → Prog RelationshipStatus
or_no_relationship (err not_found) = pure no_relationship
or_no_relationship o = lift o

unfoldable pub get_relationship : Prog RelationshipStatus
unfolding or_no_relationship
get_relationship = do found ← try get_relationship_status; or_no_relationship found

abbrev pub is_nil {ℓ} : {A : Type ℓ} → Option A → Bool
is_nil none = true
is_nil (some a) = false

or_make {ℓ} : {A : Type ℓ} → A → Option A → Option A
or_make a none = some a
or_make a (some b) = some b

-- Each map that is nil is made.
unfoldable pub initialize : RelationshipStatus → RelationshipStatus
unfolding or_make
initialize rel = record {
  machine_to_resources = or_make [] rel.machine_to_resources;
  resource_to_machine = or_make [] rel.resource_to_machine;
  accepted_requests = or_make [] rel.accepted_requests;
  machine_locks = or_make [] rel.machine_locks;
}

-- The error of the update is dropped.
write_quietly : RelationshipStatus → Prog Result
write_quietly rel = do _ ← try (commit (write_relationship rel)); pure done

initialize_missing : RelationshipStatus → Prog Result
unfolding initialize write_quietly
initialize_missing rel =
    if is_nil rel.machine_to_resources
      || (is_nil rel.resource_to_machine
          || (is_nil rel.accepted_requests || is_nil rel.machine_locks))
    then write_quietly (initialize rel)
    else pure done

reconcile_found : Outcome RelationshipStatus → Prog Result
unfolding initialize_missing
reconcile_found (ok rel) = initialize_missing rel
reconcile_found (err e) = lift (ignore_not_found e)
reconcile_found panic = lift panic
reconcile_found unfinished = lift unfinished

unfoldable pub reconcile : Prog Result
unfolding reconcile_found
reconcile = do found ← try get_relationship_status; reconcile_found found
