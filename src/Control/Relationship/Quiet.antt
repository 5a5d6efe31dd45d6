-- ===== src/Control/Relationship/Quiet.antt =====
-- The calls of getRelationship.
use naglfar.Prelude.{Outcome, err, not_found}
use naglfar.Control.Calls.{Event, read_relationship}
use naglfar.Control.Effects.Emits.{Emits, emits_rules}
use naglfar.Control.Relationship.{get_relationship, or_no_relationship}
use naglfar.Relationship.{RelationshipStatus}

module _ (P : Event → Type 0) (reads : P read_relationship) where
  or_no_relationship-Emits : (o : Outcome RelationshipStatus) → Emits P (or_no_relationship o)
  unfolding or_no_relationship
  or_no_relationship-Emits (err not_found) = search emits_rules
  or_no_relationship-Emits o = search emits_rules

  pub get_relationship-Emits : Emits P get_relationship
  unfolding get_relationship
  get_relationship-Emits = search (emits_rules, or_no_relationship-Emits)
