-- ===== src/Webhook/Topology/Scaling/Laws.antt =====
-- What the tests of scaling in api/v1/testclustertopology_webhook.go say of the lengths and the hosts.
use naglfar.Prelude.{
  ◌<◌, true, false, List, [], ◌∷◌, none, some, Str, str_eq_iff, map, length, In, ok, check_iff,
  ◌>>=◌, ◌≡◌, ◌↔◌, ◌⊎◌, inl, inr, refl, subst, arith,
}
use naglfar.Topology.Components.{Slice, elems}
use naglfar.Topology.{TiDbCluster}
use naglfar.Webhook.Topology.Scaling.{
  is_scale, is_scale_in, is_scale_out, is_host_in, shares_host, check_host_stays, check_hosts_stay,
  check_simultaneous_scale_out_and_scale_in,
}

unfoldable pub SameSizes : TiDbCluster → TiDbCluster → Type 0
SameSizes pre cur =
    (length (elems pre.tidb) ≡ length (elems cur.tidb))
    × (length (elems pre.pd) ≡ length (elems cur.pd))
    × (length (elems pre.tikv) ≡ length (elems cur.tikv))

-- Some kind of component has more instances in the second cluster.
unfoldable pub Grows : TiDbCluster → TiDbCluster → Type 0
Grows small large =
    (length (elems small.tidb) < length (elems large.tidb))
    ⊎ (length (elems small.pd) < length (elems large.pd))
    ⊎ (length (elems small.tikv) < length (elems large.tikv))

abbrev pub Shares : List Str → List Str → Type 0
Shares pre cur = (host : Str) × In host pre × In host cur

-- The field is nil before and after, or a host stays.
unfoldable pub Stays : {A : Type 0} → (A → Str) → Slice A → Slice A → Type 0
Stays host pre cur =
    ((pre ≡ none) × (cur ≡ none)) ⊎ Shares (map host (elems pre)) (map host (elems cur))

unfoldable pub HostsStay : TiDbCluster → TiDbCluster → Type 0
HostsStay pre cur =
    Stays (λ t. t.host) pre.tidb cur.tidb
    × Stays (λ t. t.host) pre.pd cur.pd
    × Stays (λ t. t.host) pre.tikv cur.tikv

pub is_scale_iff : (pre cur : TiDbCluster) → (is_scale pre cur ≡ false) ↔ SameSizes pre cur
unfolding is_scale SameSizes
is_scale_iff pre cur = ground arith

pub is_scale_in_iff : (pre cur : TiDbCluster) → (is_scale_in pre cur ≡ true) ↔ Grows cur pre
unfolding is_scale_in Grows
is_scale_in_iff pre cur = ground arith

is_scale_out_iff : (pre cur : TiDbCluster) → (is_scale_out pre cur ≡ true) ↔ Grows pre cur
unfolding is_scale_out Grows
is_scale_out_iff pre cur = ground arith

-- The same sizes are those of which neither is the larger.
sizes_iff : (pre cur : TiDbCluster) → SameSizes pre cur ↔ (¬ (Grows cur pre) × ¬ (Grows pre cur))
unfolding SameSizes Grows
sizes_iff pre cur = ground arith

is_host_in_iff : (host : Str) (hosts : List Str) → (is_host_in host hosts ≡ true) ↔ In host hosts
unfolding is_host_in
is_host_in_iff host [] = ground arith
is_host_in_iff host (other ∷ hosts) =
    ground (arith, str_eq_iff host other, is_host_in_iff host hosts)

Shares-∷ :
    (host : Str) (pre cur : List Str) → Shares (host ∷ pre) cur ↔ (In host cur ⊎ Shares pre cur)
Shares-∷ host pre cur = (of_first, of_some)
  where
    of_first : Shares (host ∷ pre) cur → In host cur ⊎ Shares pre cur
    of_first (h, inl e, m) = inl (subst (λ x. In x cur) e m)
    of_first (h, inr n, m) = inr (h, n, m)

    of_some : In host cur ⊎ Shares pre cur → Shares (host ∷ pre) cur
    of_some (inl m) = (host, inl refl, m)
    of_some (inr (h, n, m)) = (h, inr n, m)

shares_host_iff : (pre cur : List Str) → (shares_host pre cur ≡ true) ↔ Shares pre cur
unfolding shares_host
shares_host_iff [] cur = ground arith
shares_host_iff (host ∷ pre) cur =
    ground (arith, Shares-∷ host pre cur, is_host_in_iff host cur, shares_host_iff pre cur)

check_host_stays_iff :
    {A : Type 0} (host : A → Str) (pre cur : Slice A)
    → (check_host_stays host pre cur ≡ ok tt) ↔ Stays host pre cur
unfolding check_host_stays Stays
check_host_stays_iff host none none = ground arith
check_host_stays_iff host none (some cur) = ground (arith, shares_host_iff [] (map host cur))
check_host_stays_iff host (some pre) none = ground (arith, shares_host_iff (map host pre) [])
check_host_stays_iff host (some pre) (some cur) =
    ground (arith, shares_host_iff (map host pre) (map host cur))

check_hosts_stay_iff :
    (pre cur : TiDbCluster) → (check_hosts_stay pre cur ≡ ok tt) ↔ HostsStay pre cur
unfolding check_hosts_stay HostsStay
check_hosts_stay_iff pre cur =
    let tidb = check_host_stays (λ t. t.host) pre.tidb cur.tidb in
    let pd = check_host_stays (λ t. t.host) pre.pd cur.pd in
    let tikv = check_host_stays (λ t. t.host) pre.tikv cur.tikv in
    ground (
      arith,
      check_iff tidb (do _ ← pd; tikv),
      check_iff pd tikv,
      check_host_stays_iff (λ t. t.host) pre.tidb cur.tidb,
      check_host_stays_iff (λ t. t.host) pre.pd cur.pd,
      check_host_stays_iff (λ t. t.host) pre.tikv cur.tikv,
    )

pub check_simultaneous_iff :
    (pre cur : TiDbCluster)
    → (check_simultaneous_scale_out_and_scale_in pre cur ≡ ok tt)
      ↔ (¬ (Grows cur pre × Grows pre cur) × (SameSizes pre cur → HostsStay pre cur))
unfolding check_simultaneous_scale_out_and_scale_in
check_simultaneous_iff pre cur = ground (
  arith,
  is_scale_in_iff pre cur,
  is_scale_out_iff pre cur,
  sizes_iff pre cur,
  check_hosts_stay_iff pre cur,
)
