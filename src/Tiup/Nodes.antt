-- ===== src/Tiup/Nodes.antt =====
-- pkg/tiup/cluster/deploy.go: the nodes that a scale-in removes and those that a scale-out adds.
pub mod Missing
pub mod Scaling
use naglfar.Prelude.{
  ℕ, zero, Bool, true, false, ◌||◌, List, [], ◌∷◌, ◌++◌, Option, none, some, Str, Map, lookup,
  if◌then◌else◌,
}
use naglfar.Prelude.Int.{ℤ, pos}
use naglfar.Topology.Components.{
  TiDbSpec, PdSpec, TiKvSpec, Slice, elems, deep_equal, TiDbSpec-discrete, PdSpec-discrete,
  TiKvSpec-discrete,
}
use naglfar.Topology.{TiDbCluster}
use naglfar.Util.Decimal.{print_int}

-- A port that is not given.
unfoldable pub or_default : ℕ → ℤ → ℤ
or_default port (pos zero) = pos port
or_default port given = given

-- clusterIPMaps[host]: "" for a host that is not there.
or_empty : Option Str → Str
or_empty none = []
or_empty (some ip) = ip

unfoldable pub ip_of : Map Str → Str → Str
unfolding or_empty
ip_of ips host = or_empty (lookup host ips)

module _ {A : Type 0} (same : Discrete A) where
  -- The loop does not end at a hit.
  unfoldable pub is_existed : A → List A → Bool
  is_existed a [] = false
  is_existed a (b ∷ bs) = deep_equal same a b || is_existed a bs

  -- The components of the first list that the second does not have, changed by `place`.
  unfoldable pub missing : (A → A) → List A → List A → List A
  unfolding is_existed
  missing place [] others = []
  missing place (a ∷ xs) others =
      let rest = missing place xs others in if is_existed a others then rest else place a ∷ rest

  -- The slice is shared: the default port is written back into the cluster before.
  unfoldable pub written_back : (A → A) → List A → List A → List A
  unfolding is_existed
  written_back place [] others = []
  written_back place (a ∷ xs) others =
      let rest = written_back place xs others in (if is_existed a others then a else place a) ∷ rest

unfoldable pub tidb_with_port : TiDbSpec → TiDbSpec
tidb_with_port t = record t { port = or_default 4000 t.port }

unfoldable pub pd_with_port : PdSpec → PdSpec
pd_with_port t = record t { client_port = or_default 2379 t.client_port }

unfoldable pub tikv_with_port : TiKvSpec → TiKvSpec
tikv_with_port t = record t { port = or_default 20160 t.port }

abbrev pub map_slice : {A : Type 0} → (List A → List A) → Slice A → Slice A
map_slice f none = none
map_slice f (some xs) = some (f xs)

module _ (ips : Map Str) where
  unfoldable pub node_address : Str → ℤ → Str
  node_address host port = ip_of ips host ++ (b':' ∷ print_int port)

  node_addresses : {A : Type 0} → (A → Str) → (A → ℤ) → List A → List Str
  unfolding node_address
  node_addresses host port [] = []
  node_addresses host port (a ∷ xs) = node_address (host a) (port a) ∷ node_addresses host port xs

  unfoldable pub get_scale_in_node : TiDbCluster → TiDbCluster → List Str
  unfolding node_addresses
  get_scale_in_node pre cur =
      node_addresses (λ t. t.host) (λ t. t.port)
        (missing TiDbSpec-discrete tidb_with_port (elems pre.tidb) (elems cur.tidb))
      ++ (node_addresses (λ t. t.host) (λ t. t.client_port)
            (missing PdSpec-discrete pd_with_port (elems pre.pd) (elems cur.pd))
          ++ node_addresses (λ t. t.host) (λ t. t.port)
              (missing TiKvSpec-discrete tikv_with_port (elems pre.tikv) (elems cur.tikv)))

  -- The cluster before, after its ports were written.
  unfoldable pub scaled_in : TiDbCluster → TiDbCluster → TiDbCluster
  scaled_in pre cur = record pre {
    tidb =
        map_slice (λ xs. written_back TiDbSpec-discrete tidb_with_port xs (elems cur.tidb))
          pre.tidb;
    pd = map_slice (λ xs. written_back PdSpec-discrete pd_with_port xs (elems cur.pd)) pre.pd;
    tikv =
        map_slice (λ xs. written_back TiKvSpec-discrete tikv_with_port xs (elems cur.tikv))
          pre.tikv;
  }

  unfoldable pub placed_tidb : TiDbSpec → TiDbSpec
  placed_tidb t = record t {
    host = ip_of ips t.host;
    port = or_default 4000 t.port;
    status_port = or_default 10080 t.status_port;
  }

  unfoldable pub placed_pd : PdSpec → PdSpec
  placed_pd t = record t {
    host = ip_of ips t.host;
    client_port = or_default 2379 t.client_port;
    peer_port = or_default 2380 t.peer_port;
  }

  unfoldable pub placed_tikv : TiKvSpec → TiKvSpec
  placed_tikv t = record t {
    host = ip_of ips t.host;
    port = or_default 20160 t.port;
    status_port = or_default 20180 t.status_port;
  }

  unfoldable pub get_scale_out_roles :
      TiDbCluster → TiDbCluster → List TiDbSpec × List PdSpec × List TiKvSpec
  get_scale_out_roles pre cur = (
    missing TiDbSpec-discrete placed_tidb (elems cur.tidb) (elems pre.tidb),
    missing PdSpec-discrete placed_pd (elems cur.pd) (elems pre.pd),
    missing TiKvSpec-discrete placed_tikv (elems cur.tikv) (elems pre.tikv),
  )
