-- ===== src/Control/Topology/Absent.antt =====
-- Hosts that AllHosts of api/v1/testclustertopology_types.go leaves out, and BuildSpecification.
use naglfar.Prelude.{
  Bool, true, false, List, [], ◌∷◌, Option, none, some, Str, str_eq, str_eq_iff, Map, lookup,
  insert, lookup-insert, has_key, map, In, All, codes, Outcome, ok, >>=-eq-ok, ◌≡◌, ◌≢◌, ◌⊎◌, inl,
  inr, refl, sym, ap, subst, Bool-cases, Option-cases, if-intro, arith,
}
use naglfar.Control.Topology.Envs.{all_hosts, resources_among, filter_cluster_resources}
use naglfar.Resource.{TestResource, TestResourceStatus}
use naglfar.Tiup.Build.{
  resource_maps, resource_maps_from, find_node, found_node, build_each, servers_of,
  build_specification, set_server_configs, control_of, tidb_server, tikv_server, pd_server,
  pump_server, drainer, prometheus, grafana, alertmanager,
}
use naglfar.Tiup.Specification.{SpecLib, Specification}
use naglfar.Topology.Components.{elems}
use naglfar.Topology.Hosts.{HostSet, tidb_hosts, hosts_of}
use naglfar.Topology.{TestClusterTopology, TiDbCluster}

found_node-eq-ok :
    (kind host : Str) (o : Option TestResourceStatus) (node : TestResourceStatus)
    → found_node kind host o ≡ ok node
    → o ≢ none
unfolding found_node
found_node-eq-ok kind host none node h e = absurd (ground arith)
found_node-eq-ok kind host (some status) node h e = absurd (ground arith)

find_node-eq-ok :
    (maps : Map TestResourceStatus) (kind host : Str) (node : TestResourceStatus)
    → find_node maps kind host ≡ ok node
    → lookup host maps ≢ none
unfolding find_node
find_node-eq-ok maps kind host node h = found_node-eq-ok kind host (lookup host maps) node h

-- A loop that ends well found a node for each of its items.
build_each-eq-ok :
    {A B : Type 0} (maps : Map TestResourceStatus) (kind : Str) (host : A → Str)
    (make : A → TestResourceStatus → Outcome B) (items : List A) (servers : List B)
    → build_each maps kind host make items ≡ ok servers
    → All (λ item. lookup (host item) maps ≢ none) items
unfolding build_each
build_each-eq-ok maps kind host make [] servers h = tt
build_each-eq-ok maps kind host make (item ∷ items) servers h =
    let (node, found, rest) = >>=-eq-ok (find_node maps kind (host item)) _ h in
    let (server, made, rest') = >>=-eq-ok (make item node) _ rest in
    let (others, looped, end) = >>=-eq-ok (build_each maps kind host make items) _ rest' in
    (
      find_node-eq-ok maps kind (host item) node found,
      build_each-eq-ok maps kind host make items others looped,
    )

named_is_found :
    {A : Type 0} (maps : Map TestResourceStatus) (host : A → Str) (items : List A) (name : Str)
    → All (λ item. lookup (host item) maps ≢ none) items
    → In name (map host items)
    → lookup name maps ≢ none
named_is_found maps host [] name all m = absurd m
named_is_found maps host (item ∷ items) name all (inl e) =
    subst (λ x. lookup x maps ≢ none) (sym e) all.0
named_is_found maps host (item ∷ items) name all (inr m) =
    named_is_found maps host items name all.1 m

has_key-false : (k : Str) (m : HostSet) → has_key k m ≡ false → lookup k m ≡ none
has_key-false k m h = elim (Option-cases (lookup k m)) [
  | inl e ↦ e
  | inr (v, e) ↦ absurd (ground arith)
]

other_name :
    (hosts : HostSet) (name : Str) (item : TestResource) (maps : Map TestResourceStatus)
    → has_key item.meta.name hosts ≡ true
    → has_key name hosts ≡ false
    → lookup name maps ≡ none
    → lookup name (insert item.meta.name item.status maps) ≡ none
other_name hosts name item maps k h e = elim (Bool-cases (str_eq item.meta.name name)) [
  | inl same ↦
      let there = ap (λ x. has_key x hosts) ((str_eq_iff item.meta.name name).0 same) in
      absurd (ground arith)
  | inr differ ↦ rw (lookup-insert item.meta.name name item.status maps, differ) e
]

-- The resources that are left have names of the set.
lookup-resources_among :
    (hosts : HostSet) (name : Str) (items : List TestResource) (maps : Map TestResourceStatus)
    → has_key name hosts ≡ false
    → lookup name maps ≡ none
    → lookup name (resource_maps_from maps (resources_among hosts items)) ≡ none
unfolding resource_maps_from resources_among
lookup-resources_among hosts name [] maps h e = e
lookup-resources_among hosts name (item ∷ items) maps h e =
    let kept = insert item.meta.name item.status maps in
    if-intro (λ trs. lookup name (resource_maps_from maps trs) ≡ none)
      (has_key item.meta.name hosts)
      (λ k. lookup-resources_among hosts name items kept h (other_name hosts name item maps k h e))
      (λ _. lookup-resources_among hosts name items maps h e)

-- Each host of pumps, drainers and alert managers has a resource.
record HasNodes (maps : Map TestResourceStatus) (c : TiDbCluster) : Type 0 where
  of_pump : All (λ t. lookup t.host maps ≢ none) (elems c.pump)
  of_drainer : All (λ t. lookup t.host maps ≢ none) (elems c.drainer)
  of_alert : All (λ t. lookup t.host maps ≢ none) (elems c.alert_manager)

module _ (lib : SpecLib) (dry_run : Bool) where
  servers_of-HasNodes :
      (maps : Map TestResourceStatus) (ips : Option (Map Str)) (c : TiDbCluster)
      (spec : Specification)
      → servers_of lib dry_run maps ips c ≡ ok spec
      → HasNodes maps c
  unfolding servers_of
  servers_of-HasNodes maps ips c spec h =
      let (a, _, h1) =
        >>=-eq-ok
          (build_each maps (codes "tidb") (λ t. t.host) (tidb_server lib dry_run) (elems c.tidb)) _
          h in
      let (b, _, h2) =
        >>=-eq-ok
          (build_each maps (codes "tikv") (λ t. t.host) (tikv_server lib dry_run) (elems c.tikv)) _
          h1 in
      let (d, _, h3) =
        >>=-eq-ok (build_each maps (codes "pd") (λ t. t.host) (pd_server lib dry_run) (elems c.pd))
          _ h2 in
      let (e, pump, h4) =
        >>=-eq-ok
          (build_each maps (codes "pump") (λ t. t.host) (pump_server lib dry_run) (elems c.pump)) _
          h3 in
      let (f, drainers, h5) =
        >>=-eq-ok
          (build_each maps (codes "drainer") (λ t. t.host) (drainer lib dry_run ips)
            (elems c.drainer))
          _ h4 in
      let (g, _, h6) =
        >>=-eq-ok
          (build_each maps (codes "monitor") (λ t. t.host) (prometheus lib dry_run)
            (elems c.monitor))
          _ h5 in
      let (i, _, h7) =
        >>=-eq-ok
          (build_each maps (codes "grafana") (λ t. t.host) (grafana lib dry_run) (elems c.grafana))
          _ h6 in
      let (j, alerts, h8) =
        >>=-eq-ok
          (build_each maps (codes "alert_manager") (λ t. t.host) (alertmanager lib dry_run)
            (elems c.alert_manager))
          _ h7 in
      record {
        of_pump =
            build_each-eq-ok maps (codes "pump") (λ t. t.host) (pump_server lib dry_run)
              (elems c.pump) e pump;
        of_drainer =
            build_each-eq-ok maps (codes "drainer") (λ t. t.host) (drainer lib dry_run ips)
              (elems c.drainer) f drainers;
        of_alert =
            build_each-eq-ok maps (codes "alert_manager") (λ t. t.host) (alertmanager lib dry_run)
              (elems c.alert_manager) j alerts;
      }

  -- The host is one of a pump, of a drainer or of an alert manager.
  abbrev pub IsSideHost : Str → TiDbCluster → Type 0
  IsSideHost host c =
      In host (hosts_of (λ t. t.host) c.pump)
      ⊎ In host (hosts_of (λ t. t.host) c.drainer)
      ⊎ In host (hosts_of (λ t. t.host) c.alert_manager)

  side_is_found :
      (maps : Map TestResourceStatus) (c : TiDbCluster) (host : Str)
      → HasNodes maps c
      → IsSideHost host c
      → lookup host maps ≢ none
  side_is_found maps c host found (inl m) =
      named_is_found maps (λ t. t.host) (elems c.pump) host found.of_pump m
  side_is_found maps c host found (inr (inl m)) =
      named_is_found maps (λ t. t.host) (elems c.drainer) host found.of_drainer m
  side_is_found maps c host found (inr (inr m)) =
      named_is_found maps (λ t. t.host) (elems c.alert_manager) host found.of_alert m

  without_node :
      (c : TiDbCluster) (host : Str) (trs : List TestResource) (ips : Option (Map Str))
      (answer : Specification × TestResourceStatus)
      → lookup host (resource_maps trs) ≡ none
      → IsSideHost host c
      → build_specification lib dry_run (some c) trs ips ≢ ok answer
  unfolding build_specification
  without_node c host trs ips answer absent side h =
      let (_, _, h1) = >>=-eq-ok (set_server_configs lib c.server_configs) _ h in
      let (_, _, h2) =
        >>=-eq-ok (control_of lib dry_run c.control (lookup c.control (resource_maps trs))) _ h1 in
      let (spec, built, _) = >>=-eq-ok (servers_of lib dry_run (resource_maps trs) ips c) _ h2 in
      side_is_found (resource_maps trs) c host
        (servers_of-HasNodes (resource_maps trs) ips c spec built) side absent

  all_hosts_lem :
      (ct : TestClusterTopology) (c : TiDbCluster)
      → ct.spec.tidb_cluster ≡ some c
      → all_hosts ct.spec ≡ tidb_hosts c
  unfolding all_hosts
  all_hosts_lem ct c has = rw has refl

  -- A TiDB cluster with a pump, a drainer or an alert manager on a host that AllHosts does not have is
  -- never described to tiup: from the resources that filterClusterResources leaves,
  -- BuildSpecification does not end well, whatever the resources are.
  pub build_specification-misses :
      (ct : TestClusterTopology) (c : TiDbCluster) (host : Str) (items : List TestResource)
      (ips : Option (Map Str))
      → ct.spec.tidb_cluster ≡ some c
      → has_key host (tidb_hosts c) ≡ false
      → IsSideHost host c
      → ¬ (
          (answer : Specification × TestResourceStatus) × (build_specification lib dry_run
              (some c)
              (filter_cluster_resources ct items)
              ips
            ≡ ok answer))
  unfolding filter_cluster_resources resource_maps lookup
  build_specification-misses ct c host items ips has absent side (answer, h) =
      without_node c host (filter_cluster_resources ct items) ips answer
        (lookup-resources_among (all_hosts ct.spec) host items []
          (rw (all_hosts_lem ct c has) absent) refl)
        side h
