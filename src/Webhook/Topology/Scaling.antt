-- ===== src/Webhook/Topology/Scaling.antt =====
-- api/v1/testclustertopology_webhook.go: whether an update changes the number of components.
pub mod Laws
use naglfar.Prelude.{
  Bool, true, false, not, ◌&&◌, ◌||◌, List, [], ◌∷◌, none, Str, codes, str_eq, map, length, Outcome,
  ok, err, failure, ◌>>=◌, ltb, ◌==◌, if◌then◌else◌,
}
use naglfar.Topology.Components.{Slice, elems}
use naglfar.Topology.{TiDbCluster}

unfoldable pub is_scale : TiDbCluster → TiDbCluster → Bool
is_scale pre cur =
    not (length (elems pre.tidb) == length (elems cur.tidb))
    || (not (length (elems pre.pd) == length (elems cur.pd))
        || not (length (elems pre.tikv) == length (elems cur.tikv)))

unfoldable pub is_scale_in : TiDbCluster → TiDbCluster → Bool
is_scale_in pre cur =
    ltb (length (elems cur.tidb)) (length (elems pre.tidb))
    || (ltb (length (elems cur.pd)) (length (elems pre.pd))
        || ltb (length (elems cur.tikv)) (length (elems pre.tikv)))

unfoldable pub is_scale_out : TiDbCluster → TiDbCluster → Bool
is_scale_out pre cur =
    ltb (length (elems pre.tidb)) (length (elems cur.tidb))
    || (ltb (length (elems pre.pd)) (length (elems cur.pd))
        || ltb (length (elems pre.tikv)) (length (elems cur.tikv)))

-- The inner loop ends at the first hit.
unfoldable pub is_host_in : Str → List Str → Bool
is_host_in host [] = false
is_host_in host (other ∷ hosts) = if str_eq host other then true else is_host_in host hosts

unfoldable pub shares_host : List Str → List Str → Bool
unfolding is_host_in
shares_host [] cur = false
shares_host (host ∷ pre) cur = is_host_in host cur || shares_host pre cur

module _ {A : Type 0} (host : A → Str) where
  -- A field that is nil before and after is passed over.
  unfoldable pub check_host_stays : Slice A → Slice A → Outcome (Unit {0})
  check_host_stays none none = ok tt
  check_host_stays pre cur =
      if shares_host (map host (elems pre)) (map host (elems cur))
      then ok tt
      else err (failure (codes "cluster can't scale-in/out at the same time"))

unfoldable pub check_hosts_stay : TiDbCluster → TiDbCluster → Outcome (Unit {0})
check_hosts_stay pre cur = do
  _ ← check_host_stays (λ t. t.host) pre.tidb cur.tidb
  _ ← check_host_stays (λ t. t.host) pre.pd cur.pd
  check_host_stays (λ t. t.host) pre.tikv cur.tikv

unfoldable pub check_simultaneous_scale_out_and_scale_in :
    TiDbCluster → TiDbCluster → Outcome (Unit {0})
unfolding is_scale_in is_scale_out check_hosts_stay
check_simultaneous_scale_out_and_scale_in pre cur =
    let scale_in = is_scale_in pre cur in
    let scale_out = is_scale_out pre cur in
    if scale_in && scale_out
    then err (failure (codes "cluster can't scale-in/out at the same time"))
    else (if not scale_in && not scale_out then check_hosts_stay pre cur else ok tt)
