-- ===== src/Control/Request/Locks.antt =====
-- What a request that is deleted leaves in the relationship: locks and accepted requests.
use naglfar.Prelude.{
  false, List, [], ◌∷◌, Option, none, some, Str, str_eq_iff, Map, has_key, lookup, ◌≡◌, refl, arith,
  if◌then◌else◌, ◌∙◌,
}
use naglfar.Control.Request.{locked_by, unlock_all, forget_request}
use naglfar.Ref.{Ref, ref_eq}
use naglfar.Ref.Keys.{ref_eq_iff}
use naglfar.Relationship.{
  RelationshipStatus, AcceptResources, Nillable, entries, discard, if_exist, remove, accepted,
}
use naglfar.Relationship.Lookups.{lookup-discard}
use naglfar.Util.{strings_contains}

-- Each key once, as in a map of Go.
abbrev pub HasDistinctKeys : Map Ref → Type 0
HasDistinctKeys [] = Unit
HasDistinctKeys ((k, v) ∷ m) = (has_key k m ≡ false) × HasDistinctKeys m

-- A lock without those of one owner.
abbrev pub unless_owned : Ref → Option Ref → Option Ref
unless_owned self none = none
unless_owned self (some owner) = if ref_eq owner self then none else some owner

lookup-unlock_all :
    (k : Str) (machines : List Str) (locks : Nillable Ref)
    → lookup k (entries (unlock_all machines locks))
      ≡ (if strings_contains machines k then none else lookup k (entries locks))
unfolding unlock_all strings_contains
lookup-unlock_all k [] locks = refl
lookup-unlock_all k (machine ∷ machines) locks =
    ground
      (arith, lookup-unlock_all k machines (discard machine locks), lookup-discard machine k locks)

locked_by_missing :
    (k : Str) (self : Ref) (locks : Map Ref)
    → lookup k locks ≡ none
    → strings_contains (locked_by self locks) k ≡ false
unfolding locked_by strings_contains lookup
locked_by_missing k self [] h = refl
locked_by_missing k self ((machine, owner) ∷ locks) h =
    ground (arith, locked_by_missing k self locks)

lookup-locked_by :
    (k : Str) (self : Ref) (locks : Map Ref)
    → HasDistinctKeys locks
    → (if strings_contains (locked_by self locks) k then none else lookup k locks)
      ≡ unless_owned self (lookup k locks)
unfolding locked_by strings_contains lookup
lookup-locked_by k self [] h = refl
lookup-locked_by k self ((machine, owner) ∷ locks) h =
    ground
      (arith, lookup-locked_by k self locks, str_eq_iff machine k, locked_by_missing k self locks)

if_exist-remove :
    (r self : Ref) (a : AcceptResources)
    → if_exist (remove a self) r ≡ (if ref_eq r self then false else if_exist a r)
unfolding if_exist remove
if_exist-remove r self [] = ground arith
if_exist-remove r self (item ∷ a) =
    ground
      (arith, if_exist-remove r self a, ref_eq_iff item r, ref_eq_iff item self, ref_eq_iff r self)

-- A request that is deleted takes its own locks and its own entry among the accepted requests with
-- it: afterwards a machine is locked exactly if another request had locked it, and a request is
-- accepted exactly if it is another one that was. The map of locks has each machine once.
pub forget_request_lem :
    (self : Ref) (rel : RelationshipStatus)
    → HasDistinctKeys (entries rel.machine_locks)
    → ((machine : Str)
        → lookup machine (entries (forget_request self rel).machine_locks)
          ≡ unless_owned self (lookup machine (entries rel.machine_locks)))
      × ((r : Ref)
          → if_exist (accepted (forget_request self rel)) r
            ≡ (if ref_eq r self then false else if_exist (accepted rel) r))
unfolding forget_request accepted
forget_request_lem self rel h = (
  λ machine.
      lookup-unlock_all machine (locked_by self (entries rel.machine_locks)) rel.machine_locks
      ∙ lookup-locked_by machine self (entries rel.machine_locks) h,
  λ r. if_exist-remove r self (accepted rel),
)
