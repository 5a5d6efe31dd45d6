-- ===== src/Control/Topology/Prepared.antt =====
-- controllers/testclustertopology_controller.go: how the nodes of a cluster may be prepared.
pub mod Proxy
pub mod Resources
use naglfar.Prelude.{
  Bool, true, false, ◌||◌, not, List, [], ◌∷◌, Option, none, some, Str, str_eq, str_eq_iff, Map,
  Outcome, ok, err, panic, unfinished, not_found, ◌≡◌, refl, All, if-intro, if◌then◌else◌,
}
use naglfar.Control.Calls.{
  Prog, Env, Event, read_relationship, read_machine, upload_config, write_resource_status, commit,
  send, get_machine, get_relationship_status,
}
use naglfar.Control.Calls.Commits.{commit-Emits}
use naglfar.Control.Effects.{◌>>=◌, ◌>>◌, pure, lift, try}
use naglfar.Control.Effects.Emits.{
  Emits, emits_rules, Emits-bind, Emits-try, Emits-if, Emits-when, Emits-call,
}
use naglfar.Control.Topology.Clusters.{init_resource, dm_resource, flink_resource}
use naglfar.Control.Topology.Nodes.{
  Readiness, ready, named, tidb_caps, as_readiness, init_uninitialized, init_ready, init_in,
  init_each, for_tiup, get_resource_machine, read_relation, host_of_machine, for_proxy,
  proxy_started, proxy_written, configured, addressed, on_machine, init_proxy, unless_refused,
  init_tiup, init_tidb_resources, init_dm_resources, for_flink, init_flink, init_flink_resources,
}
use naglfar.Control.Topology.Ports.{Ports}
use naglfar.Request.{TestResourceRequest}
use naglfar.Resource.{TestResource, ResourceState}
use naglfar.Relationship.{RelationshipStatus}
use naglfar.Machine.{Machine}
use naglfar.Tiup.Specification.{SpecLib}
use naglfar.Topology.Components.{HaProxy}
use naglfar.Topology.{TestClusterTopology, TiDbCluster, FlinkCluster, DmCluster}

-- A node that was uninitialized and had no image gets a container and stays what it was.
pub record IsPrepared (node written : TestResource) : Type 0 where
  pub fresh : node.status.state ≡ ResourceState.uninitialized
  pub bare : node.status.container.image ≡ []
  pub same_state : written.status.state ≡ ResourceState.uninitialized
  pub same_meta : written.meta ≡ node.meta
  pub same_spec : written.spec ≡ node.spec

unfoldable pub Prepares : Event → Type 0
Prepares read_relationship = Unit
Prepares (read_machine name) = Unit
Prepares (upload_config machine name config) = Unit
Prepares (write_resource_status written) = (node : TestResource) × IsPrepared node written
Prepares _ = ⊥

-- The function only changes what a container is to be.
pub record Kept (node written : TestResource) : Type 0 where
  pub state : written.status.state ≡ node.status.state
  pub meta : written.meta ≡ node.meta
  pub spec : written.spec ≡ node.spec

pub as_readiness-Emits : (o : Outcome Bool) → Emits Prepares (as_readiness o)
unfolding as_readiness
as_readiness-Emits (ok true) = search emits_rules
as_readiness-Emits (ok false) = search emits_rules
as_readiness-Emits (err e) = search emits_rules
as_readiness-Emits panic = search emits_rules
as_readiness-Emits unfinished = search emits_rules

module _ (image : Str) (prepared : TestResource → TestResource)
    (keeps : (node : TestResource) → Kept node (prepared node)) where
  uninitialized-Emits :
      (node : TestResource)
      → node.status.state ≡ ResourceState.uninitialized
      → Emits Prepares (init_uninitialized image prepared node)
  unfolding init_uninitialized Prepares
  uninitialized-Emits node fresh =
      Emits-when Prepares (str_eq node.status.container.image []) _ _
        (λ bare.
          Emits-bind Prepares (commit (write_resource_status (prepared node))) (λ _. pure true)
            (commit-Emits Prepares (write_resource_status (prepared node)) (
              node,
              record {
                fresh = fresh;
                bare = (str_eq_iff node.status.container.image []).0 bare;
                same_state = rw (keeps node).state fresh;
                same_meta = (keeps node).meta;
                same_spec = (keeps node).spec;
              },
            ))
            (λ _. search emits_rules))
        (λ _. search emits_rules)

  init_in-Emits :
      (state : ResourceState) (node : TestResource)
      → node.status.state ≡ state
      → Emits Prepares (init_in image prepared state node)
  unfolding init_in init_ready
  init_in-Emits ResourceState.uninitialized node e = uninitialized-Emits node e
  init_in-Emits _ node e = search emits_rules

  pub init_each-Emits :
      (nodes : List TestResource) → Emits Prepares (init_each image prepared nodes)
  unfolding init_each
  init_each-Emits [] = search emits_rules
  init_each-Emits (node ∷ nodes) =
      Emits-bind Prepares (init_in image prepared node.status.state node) _
        (init_in-Emits node.status.state node refl)
        (λ first.
          Emits-bind Prepares (init_each image prepared nodes) (λ rest. pure (first || rest))
            (init_each-Emits nodes) (λ rest. search emits_rules))

read_relation-Emits : (o : Outcome RelationshipStatus) → Emits Prepares (read_relation o)
unfolding read_relation
read_relation-Emits (ok rel) = search emits_rules
read_relation-Emits _ = search emits_rules

host_of_machine-Emits : (o : Outcome Machine) → Emits Prepares (host_of_machine o)
unfolding host_of_machine
host_of_machine-Emits (ok machine) = search emits_rules
host_of_machine-Emits (err not_found) = search emits_rules
host_of_machine-Emits _ = search emits_rules

pub get_machine-Emits : (node : TestResource) → Emits Prepares (get_resource_machine node)
unfolding get_resource_machine Prepares
get_machine-Emits node = search (emits_rules, read_relation-Emits, host_of_machine-Emits) depth 10

pub unless_refused-Emits :
    (next : Bool → Prog Readiness) (o : Outcome Bool)
    → ((requeue : Bool) → Emits Prepares (next requeue))
    → Emits Prepares (unless_refused next o)
unfolding unless_refused
unless_refused-Emits next (ok requeue) e = e requeue
unless_refused-Emits next (err x) e = as_readiness-Emits (err x)
unless_refused-Emits next panic e = as_readiness-Emits panic
unless_refused-Emits next unfinished e = as_readiness-Emits unfinished
