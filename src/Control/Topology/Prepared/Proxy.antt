-- ===== src/Control/Topology/Prepared/Proxy.antt =====
-- controllers/testclustertopology_controller.go: the node of the proxy.
use naglfar.Control.Topology.Prepared.{
  Prepares, Kept, as_readiness-Emits, init_each-Emits, get_machine-Emits,
}
use naglfar.Prelude.{
  Bool, List, [], ◌∷◌, Option, none, some, Str, Map, Outcome, ok, err, panic, unfinished, refl,
}
use naglfar.Control.Effects.Emits.{Emits, emits_rules, Emits-bind, Emits-try}
use naglfar.Control.Topology.Nodes.{
  for_proxy, proxy_started, proxy_written, configured, addressed, on_machine, init_proxy,
}
use naglfar.Resource.{TestResource}
use naglfar.Topology.Components.{HaProxy}
use naglfar.Topology.{TestClusterTopology, TiDbCluster}

module _ (ct : TestClusterTopology) (proxy : HaProxy) where
  for_proxy-Kept : (node : TestResource) → Kept node (for_proxy ct proxy node)
  unfolding for_proxy
  for_proxy-Kept node = record { state = refl; meta = refl; spec = refl }

  proxy_started-Emits :
      (requeue : Bool) (o : Outcome Bool) → Emits Prepares (proxy_started ct proxy requeue o)
  unfolding proxy_started
  proxy_started-Emits requeue (ok inner) = as_readiness-Emits (ok requeue)
  proxy_started-Emits requeue (err e) = as_readiness-Emits (err e)
  proxy_started-Emits requeue panic = as_readiness-Emits panic
  proxy_started-Emits requeue unfinished = as_readiness-Emits unfinished

  proxy_written-Emits :
      (requeue : Bool) (proxies : List TestResource) (o : Outcome (Unit {0}))
      → Emits Prepares (proxy_written ct proxy requeue proxies o)
  unfolding proxy_written
  proxy_written-Emits requeue proxies (ok u) =
      Emits-bind Prepares _ (proxy_started ct proxy requeue)
        (Emits-try Prepares _ (init_each-Emits _ (for_proxy ct proxy) for_proxy-Kept proxies))
        (proxy_started-Emits requeue)
  proxy_written-Emits requeue proxies _ = search emits_rules

  configured-Emits :
      (requeue : Bool) (proxies : List TestResource) (machine : Str) (config : Option Str)
      → Emits Prepares (configured ct proxy requeue proxies machine config)
  unfolding configured Prepares
  configured-Emits requeue proxies machine none = search emits_rules
  configured-Emits requeue proxies machine (some config) =
      search (emits_rules, proxy_written-Emits) depth 8

  addressed-Emits :
      (requeue : Bool) (proxies : List TestResource) (tidb : TiDbCluster) (machine : Str)
      (ips : Option (Map Str))
      → Emits Prepares (addressed ct proxy requeue proxies tidb machine ips)
  unfolding addressed
  addressed-Emits requeue proxies tidb machine none = search emits_rules
  addressed-Emits requeue proxies tidb machine (some ips) =
      configured-Emits requeue proxies machine _

  on_machine-Emits :
      (requeue : Bool) (proxies others : List TestResource) (tidb : TiDbCluster) (o : Outcome Str)
      → Emits Prepares (on_machine ct proxy requeue proxies others tidb o)
  unfolding on_machine
  on_machine-Emits requeue proxies others tidb (ok machine) =
      addressed-Emits requeue proxies tidb machine _
  on_machine-Emits requeue proxies others tidb _ = search emits_rules

  pub init_proxy-Emits :
      (tidb : TiDbCluster) (proxies others : List TestResource) (requeue : Bool)
      → Emits Prepares (init_proxy ct proxy tidb proxies others requeue)
  unfolding init_proxy
  init_proxy-Emits tidb [] others requeue = search emits_rules
  init_proxy-Emits tidb (first ∷ proxies) others requeue =
      search (emits_rules, get_machine-Emits, on_machine-Emits) depth 8
