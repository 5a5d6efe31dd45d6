-- ===== src/Control/Topology/Ports/Exposed.antt =====
-- Which ports indexResourceExposedPorts of controllers/testclustertopology_controller.go finds.
use naglfar.Control.Topology.Ports.Loops.{
  Exposes, Extends, tiflash_ports, ssh, Extends-trans, add_servers-Extends, add_servers-Exposes,
  add_tiflash-Extends, add_tiflash-Exposes, no_ports-knows, with_ssh-Exposes, with_ssh-keeps,
}
use naglfar.Prelude.{
  true, List, [], none, some, Str, All, All-map, ok, >>=-eq-ok, ok-injective, ◌≡◌, subst,
}
use naglfar.Prelude.Int.{ℤ}
use naglfar.Control.Topology.Ports.{
  Ports, tcp, add_servers, add_tiflash, no_ports, with_ssh, tidb_ports, flink_or_dm, index_of_tidb,
  index_resource_exposed_ports,
}
use naglfar.Resource.{TestResource, TestResourceStatus}
use naglfar.Tiup.Build.{build_specification}
use naglfar.Tiup.Specification.{SpecLib, Specification}
use naglfar.Topology.{TestClusterTopologySpec, TiDbCluster}

-- Each server has its port, a TiFlash server all six of its ports, and each resource that of SSH.
pub record IsExposed (trs : List TestResource) (spec : Specification) (ports : Ports) : Type 0 where
  pub of_tidb : All (λ s. Exposes ports s.host (tcp s.port)) spec.tidb_servers
  pub of_pd : All (λ s. Exposes ports s.host (tcp s.client_port)) spec.pd_servers
  pub of_grafana : All (λ s. Exposes ports s.host (tcp s.port)) spec.grafanas
  pub of_monitor : All (λ s. Exposes ports s.host (tcp s.port)) spec.monitors
  pub of_cdc : All (λ s. Exposes ports s.host (tcp s.port)) spec.cdc_servers
  pub of_tiflash :
      All
        (λ s. All (λ port. Exposes ports s.host (tcp port)) (tiflash_ports s))
        spec.tiflash_servers
  pub of_ssh : All (λ tr. Exposes ports tr.meta.name ssh) trs

module _ {A : Type 0} (host : A → Str) (port : A → ℤ) where
  -- What a loop exposed is still there after later ones and after SSH was added.
  kept :
      (items : List A) (mid last : Ports)
      → Extends (add_servers host port items mid) last
      → All (λ s. Exposes (with_ssh last) (host s) (tcp (port s))) items
  kept items mid last later =
      All-map items
        (λ s h.
          with_ssh-keeps last (host s) (tcp (port s)) (later.exposes (host s) (tcp (port s)) h))
        (add_servers-Exposes host port items mid)

tidb_ports-IsExposed :
    (trs : List TestResource) (spec : Specification) → IsExposed trs spec (tidb_ports trs spec)
unfolding tidb_ports
tidb_ports-IsExposed trs spec =
    let m0 = no_ports trs [] in
    let m1 = add_servers (λ s. s.host) (λ s. s.port) spec.tidb_servers m0 in
    let m2 = add_servers (λ s. s.host) (λ s. s.client_port) spec.pd_servers m1 in
    let m3 = add_servers (λ s. s.host) (λ s. s.port) spec.grafanas m2 in
    let m4 = add_servers (λ s. s.host) (λ s. s.port) spec.monitors m3 in
    let m5 = add_servers (λ s. s.host) (λ s. s.port) spec.cdc_servers m4 in
    let m6 = add_tiflash spec.tiflash_servers m5 in
    let e5 = add_tiflash-Extends spec.tiflash_servers m5 in
    let e4 =
      Extends-trans m4 m5 m6 (add_servers-Extends (λ s. s.host) (λ s. s.port) spec.cdc_servers m4)
        e5 in
    let e3 =
      Extends-trans m3 m4 m6 (add_servers-Extends (λ s. s.host) (λ s. s.port) spec.monitors m3)
        e4 in
    let e2 =
      Extends-trans m2 m3 m6 (add_servers-Extends (λ s. s.host) (λ s. s.port) spec.grafanas m2)
        e3 in
    let e1 =
      Extends-trans m1 m2 m6
        (add_servers-Extends (λ s. s.host) (λ s. s.client_port) spec.pd_servers m1) e2 in
    let e0 =
      Extends-trans m0 m1 m6 (add_servers-Extends (λ s. s.host) (λ s. s.port) spec.tidb_servers m0)
        e1 in
    record {
      of_tidb = kept (λ s. s.host) (λ s. s.port) spec.tidb_servers m0 m6 e1;
      of_pd = kept (λ s. s.host) (λ s. s.client_port) spec.pd_servers m1 m6 e2;
      of_grafana = kept (λ s. s.host) (λ s. s.port) spec.grafanas m2 m6 e3;
      of_monitor = kept (λ s. s.host) (λ s. s.port) spec.monitors m3 m6 e4;
      of_cdc = kept (λ s. s.host) (λ s. s.port) spec.cdc_servers m4 m6 e5;
      of_tiflash =
          All-map spec.tiflash_servers
            (λ s h. All-map (tiflash_ports s) (λ port g. with_ssh-keeps m6 s.host (tcp port) g) h)
            (add_tiflash-Exposes spec.tiflash_servers m5);
      of_ssh =
          All-map trs (λ tr h. with_ssh-Exposes m6 tr.meta.name (e0.knows tr.meta.name h))
            (no_ports-knows trs []);
    }

module _ (lib : SpecLib) (ctf : TestClusterTopologySpec) (c : TiDbCluster)
    (trs : List TestResource) where
  built_ports-IsExposed :
      (ports : Ports)
      → index_of_tidb lib c trs ≡ ok ports
      → (spec : Specification) × (control : TestResourceStatus) × (build_specification lib true
            (some c)
            trs
            none
          ≡ ok (spec, control))
        × IsExposed trs spec ports
  unfolding index_of_tidb
  built_ports-IsExposed ports h =
      let ((spec, control), built, same) =
        >>=-eq-ok (build_specification lib true (some c) trs none) _ h in
      (
        spec,
        control,
        built,
        subst (λ p. IsExposed trs spec p) (ok-injective same) (tidb_ports-IsExposed trs spec),
      )

  -- The ports that indexResourceExposedPorts finds for a TiDB cluster have, on the hosts of the
  -- description that a dry run of BuildSpecification gives, the port of each TiDB, PD, Grafana,
  -- Prometheus and CDC server and all six ports of each TiFlash server; every resource has the port of
  -- SSH.
  pub index_resource_exposed_ports-IsExposed :
      (ports : Ports)
      → ctf.tidb_cluster ≡ some c
      → index_resource_exposed_ports lib ctf trs ≡ ok ports
      → (spec : Specification) × (control : TestResourceStatus) × (build_specification lib true
            (some c)
            trs
            none
          ≡ ok (spec, control))
        × IsExposed trs spec ports
  unfolding index_resource_exposed_ports
  index_resource_exposed_ports-IsExposed ports has h = built_ports-IsExposed ports (
      subst
        (λ o.
          elim o [ none ↦ flink_or_dm lib ctf trs | some tidb ↦ index_of_tidb lib tidb trs ]
          ≡ ok ports)
        has h)
