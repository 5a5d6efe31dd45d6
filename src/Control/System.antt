-- ===== src/Control/System.antt =====
-- The controllers of machines, requests, resources and the relationship side by side: one object, the
-- relationship, is shared by all of them.
use naglfar.Prelude.{ℕ, [], All}
use naglfar.Control.Calls.{Env, NamespacedName, Prog}
use naglfar.Control.Effects.{Result}
use naglfar.Control.Exclusive.{WritesExclusive, ReadsExclusive}
use naglfar.Control.Machine.Exclusive as MachineWrites
use naglfar.Control.Relationship.Exclusive as RelationshipWrites
use naglfar.Control.Request.Exclusive as RequestWrites
use naglfar.Control.Resource.Exclusive as ResourceWrites
use naglfar.Scheduler.Select.{Choices}
use naglfar.Util.Bytes.{Units}

-- An object that is to be looked at; its kind says by which controller.
pub data Item : Type 0 where
  relationship : Item
  machine resource request : NamespacedName → Item

module _ (units : Units) (fuel : ℕ) (choices : Choices) where
  unfoldable pub handle : Item → Prog Result
  handle relationship = naglfar.Control.Relationship.reconcile
  handle (machine name) = naglfar.Control.Machine.reconcile units fuel name
  handle (resource name) = naglfar.Control.Resource.reconcile units name
  handle (request name) = naglfar.Control.Request.reconcile units choices name

  -- No controller gives a core to two resources: if each relationship that the API returns in a run
  -- has every core of every machine with at most one resource, then so has each relationship that the
  -- run writes, whatever else the API and Docker reply.
  pub handle-WritesExclusive :
      (item : Item) (env : Env) → ReadsExclusive env → All WritesExclusive (handle item env []).1
  unfolding handle
  handle-WritesExclusive relationship env reads =
      ((RelationshipWrites.reconcile-Ensures env reads).at [] tt).0
  handle-WritesExclusive (machine name) env reads =
      ((MachineWrites.reconcile-Ensures units fuel env reads name).at [] tt).0
  handle-WritesExclusive (resource name) env reads =
      ((ResourceWrites.reconcile-Ensures env reads units name).at [] tt).0
  handle-WritesExclusive (request name) env reads =
      ((RequestWrites.reconcile-Ensures env reads units choices name).at [] tt).0
