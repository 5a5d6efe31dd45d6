-- ===== src/Control/Topology/Proxy.antt =====
-- pkg/haproxy/deploy.go: the configuration of the proxy in front of the TiDB servers.
use naglfar.Prelude.{
  ℕ, suc, List, [], ◌∷◌, ◌++◌, Option, none, some, Str, codes, str_eq, Map, if◌then◌else◌,
}
use naglfar.Prelude.Int.{ℤ}
use naglfar.Machine.Cores.{print_nat}
use naglfar.Tiup.Nodes.{or_default, ip_of}
use naglfar.Topology.Components.{TiDbSpec, HaProxy}
use naglfar.Topology.{TestClusterTopology}
use naglfar.Util.Decimal.{print_int}

unfoldable pub generate_frontend : ℤ → Str
generate_frontend port =
    (10 ∷ codes "frontend haproxy")
    ++ (10 ∷ 9 ∷ codes "bind *:")
    ++ print_int port
    ++ (10 ∷ 9 ∷ codes "default_backend tidbs")
    ++ (10 ∷ [])

backend_lines : ℕ → List Str → Str
backend_lines i [] = []
backend_lines i (tidb ∷ tidbs) =
    (9 ∷ codes "server tidb")
    ++ print_nat i
    ++ codes " "
    ++ tidb
    ++ codes " maxconn 1000"
    ++ (10 ∷ backend_lines (suc i) tidbs)

unfoldable pub generate_backend : List Str → Str
unfolding backend_lines
generate_backend tidbs = (10 ∷ codes "backend tidbs") ++ (10 ∷ backend_lines 0 tidbs)

prepend : Str → Option (List Str) → Option (List Str)
prepend address none = none
prepend address (some rest) = some (address ∷ rest)

-- `none` as soon as a server has no address yet.
addresses : Map Str → List TiDbSpec → Option (List Str)
unfolding prepend
addresses ips [] = some []
addresses ips (t ∷ ts) =
    let rest = addresses ips ts in
    if str_eq (ip_of ips t.host) []
    then none
    else prepend (ip_of ips t.host ++ (b':' ∷ print_int (or_default 4000 t.port))) rest

config_with : HaProxy → Option (List Str) → Option Str
config_with proxy none = none
config_with proxy (some tidbs) =
    some (proxy.config ++ (10 ∷ (generate_frontend proxy.port ++ generate_backend tidbs)))

-- `none` stands for requeue.
unfoldable pub generate_haproxy_config : HaProxy → List TiDbSpec → Map Str → Option Str
unfolding addresses config_with
generate_haproxy_config proxy tidb ips = config_with proxy (addresses ips tidb)

unfoldable pub generate_file_prefix : TestClusterTopology → Str
generate_file_prefix ct = ct.meta.namespace ++ (b'_' ∷ (ct.spec.resource_request ++ (b'_' ∷ [])))
