-- ===== src/Tiup/Nodes/Scaling.antt =====
-- How many nodes getScaleInNode of pkg/tiup/cluster/deploy.go names.
use naglfar.Prelude.{
  ℕ, suc, ◌+◌, ◌≤◌, true, List, [], ◌∷◌, ◌++◌, length, length-append, Str, Map, ◌≡◌, ◌≢◌, ap, refl,
  arith,
}
use naglfar.Prelude.Int.{ℤ}
use naglfar.Tiup.Changes.{shrinks}
use naglfar.Tiup.Nodes.{
  missing, tidb_with_port, pd_with_port, tikv_with_port, node_addresses, get_scale_in_node,
}
use naglfar.Tiup.Nodes.Missing.{IsDistinct, length-missing}
use naglfar.Topology.Components.{elems, TiDbSpec-discrete, PdSpec-discrete, TiKvSpec-discrete}
use naglfar.Topology.{TiDbCluster}

-- No instance is listed twice.
pub record HasDistinctEntries (c : TiDbCluster) : Type 0 where
  pub of_tidb : IsDistinct TiDbSpec-discrete (elems c.tidb)
  pub of_pd : IsDistinct PdSpec-discrete (elems c.pd)
  pub of_tikv : IsDistinct TiKvSpec-discrete (elems c.tikv)

length-node_addresses :
    {A : Type 0} (ips : Map Str) (host : A → Str) (port : A → ℤ) (xs : List A)
    → length (node_addresses ips host port xs) ≡ length xs
unfolding node_addresses
length-node_addresses ips host port [] = refl
length-node_addresses ips host port (a ∷ xs) = ap suc (length-node_addresses ips host port xs)

names_enough :
    {A : Type 0} (same : Discrete A) (place : A → A) (ips : Map Str) (host : A → Str) (port : A → ℤ)
    (xs others : List A)
    → IsDistinct same xs
    → length xs
      ≤ length (node_addresses ips host port (missing same place xs others)) + length others
names_enough same place ips host port xs others distinct = omega (
  arith,
  length-node_addresses ips host port (missing same place xs others),
  length-missing same place xs others distinct,
)

module _ (ips : Map Str) (pre cur : TiDbCluster) (distinct : HasDistinctEntries pre) where
  each_kind :
      (tidb pd tikv : ℕ) × (length (get_scale_in_node ips pre cur) ≡ tidb + (pd + tikv))
      × (length (elems pre.tidb) ≤ tidb + length (elems cur.tidb))
      × (length (elems pre.pd) ≤ pd + length (elems cur.pd))
      × (length (elems pre.tikv) ≤ tikv + length (elems cur.tikv))
  unfolding get_scale_in_node
  each_kind =
      let tidb =
        node_addresses ips (λ t. t.host) (λ t. t.port)
          (missing TiDbSpec-discrete tidb_with_port (elems pre.tidb) (elems cur.tidb)) in
      let pd =
        node_addresses ips (λ t. t.host) (λ t. t.client_port)
          (missing PdSpec-discrete pd_with_port (elems pre.pd) (elems cur.pd)) in
      let tikv =
        node_addresses ips (λ t. t.host) (λ t. t.port)
          (missing TiKvSpec-discrete tikv_with_port (elems pre.tikv) (elems cur.tikv)) in
      (
        length tidb,
        length pd,
        length tikv,
        omega (arith, length-append tidb (pd ++ tikv), length-append pd tikv),
        names_enough TiDbSpec-discrete tidb_with_port ips (λ t. t.host) (λ t. t.port)
            (elems pre.tidb) (elems cur.tidb) distinct.of_tidb,
        names_enough PdSpec-discrete pd_with_port ips (λ t. t.host) (λ t. t.client_port)
            (elems pre.pd) (elems cur.pd) distinct.of_pd,
        names_enough TiKvSpec-discrete tikv_with_port ips (λ t. t.host) (λ t. t.port)
            (elems pre.tikv) (elems cur.tikv) distinct.of_tikv,
      )

  -- getScaleInNode names at least as many nodes as the cluster has instances less than before, and
  -- some node whenever a kind shrinks, if no instance was listed twice.
  pub get_scale_in_node-bound :
      (length (elems pre.tidb) + length (elems pre.pd) + length (elems pre.tikv)
        ≤ length (get_scale_in_node ips pre cur)
          + (length (elems cur.tidb) + length (elems cur.pd) + length (elems cur.tikv)))
      × (shrinks pre cur ≡ true → get_scale_in_node ips pre cur ≢ [])
  unfolding shrinks
  get_scale_in_node-bound =
      let (tidb, pd, tikv, total, of_tidb, of_pd, of_tikv) = each_kind in
      (omega arith, λ h e. let none_left = ap length e in ground arith)
