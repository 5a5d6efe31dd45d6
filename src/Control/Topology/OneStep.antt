-- ===== src/Control/Topology/OneStep.antt =====
-- What the webhook accepts, and what updateTiDBCluster of
-- controllers/testclustertopology_controller.go then does.
use naglfar.Prelude.{
  ◌+◌, ◌≤◌, false, List, [], ◌∷◌, Str, str_eq_iff, All, ◌≡◌, ◌↔◌, ◌⊎◌, refl, ap, arith,
}
use naglfar.Tiup.Changes.{
  is_upgraded, is_config_modified, some_modified, entry_modified, shrinks, grows,
}
use naglfar.Topology.Components.{elems, tidb_entry_id, pd_entry_id, tikv_entry_id, deep_equal_iff}
use naglfar.Topology.{TiDbCluster, TestClusterTopologyStatus, ServerConfigs-discrete}
use naglfar.Webhook.Topology.Accepted.{IsAllowed, OneKind}
use naglfar.Webhook.Topology.Fields.Laws.{KeepsEntries, KeepsAllEntries}
use naglfar.Webhook.Topology.Scaling.Laws.{SameSizes, Grows}
use naglfar.Webhook.Topology.{one_if}

module _ {A : Type 0} (entry_id host config : A → Str) where
  -- Instances on one host have one key.
  abbrev pub OnePerHost : List A → List A → Type 0
  OnePerHost pres curs =
      All (λ pre. All (λ cur. host pre ≡ host cur → entry_id pre ≡ entry_id cur) curs) pres

  entry_modified-false :
      (pre : A) (curs : List A)
      → All (λ cur. host pre ≡ host cur → entry_id pre ≡ entry_id cur) curs
      → All (λ cur. entry_id pre ≡ entry_id cur → pre ≡ cur) curs
      → entry_modified host config pre curs ≡ false
  unfolding entry_modified
  entry_modified-false pre [] one keeps = refl
  entry_modified-false pre (cur ∷ curs) one keeps =
      let same : host pre ≡ host cur → config pre ≡ config cur =
        λ e. ap config (keeps.0 (one.0 e)) in
      let rest = entry_modified-false pre curs one.1 keeps.1 in
      ground (arith, str_eq_iff (host pre) (host cur), str_eq_iff (config pre) (config cur))

  some_modified-false :
      (pres curs : List A)
      → OnePerHost pres curs
      → KeepsEntries entry_id pres curs
      → some_modified host config pres curs ≡ false
  unfolding some_modified
  some_modified-false [] curs one keeps = refl
  some_modified-false (pre ∷ pres) curs one keeps =
      let first = entry_modified-false pre curs one.0 keeps.0 in
      let rest = some_modified-false pres curs one.1 keeps.1 in ground arith

pub record HasOnePerHost (pre cur : TiDbCluster) : Type 0 where
  pub of_tidb :
      OnePerHost tidb_entry_id (λ t. t.host) (λ t. t.config) (elems pre.tidb) (elems cur.tidb)
  pub of_pd : OnePerHost pd_entry_id (λ t. t.host) (λ t. t.config) (elems pre.pd) (elems cur.pd)
  pub of_tikv :
      OnePerHost tikv_entry_id (λ t. t.host) (λ t. t.config) (elems pre.tikv) (elems cur.tikv)

module _ (status : TestClusterTopologyStatus) (pre cur : TiDbCluster)
    (allowed : IsAllowed status pre cur) (hosts : HasOnePerHost pre cur) where
  config_iff : (is_config_modified pre cur ≡ false) ↔ (pre.server_configs ≡ cur.server_configs)
  unfolding is_config_modified KeepsAllEntries
  config_iff =
      let entries = allowed.entries in
      let tidb =
        some_modified-false tidb_entry_id (λ t. t.host) (λ t. t.config) (elems pre.tidb)
          (elems cur.tidb) hosts.of_tidb entries.0 in
      let pd =
        some_modified-false pd_entry_id (λ t. t.host) (λ t. t.config) (elems pre.pd) (elems cur.pd)
          hosts.of_pd entries.1 in
      let tikv =
        some_modified-false tikv_entry_id (λ t. t.host) (λ t. t.config) (elems pre.tikv)
          (elems cur.tikv) hosts.of_tikv entries.2 in
      ground (arith, deep_equal_iff ServerConfigs-discrete pre.server_configs cur.server_configs)

  upgrade_iff : (is_upgraded pre cur ≡ false) ↔ (pre.version.version ≡ cur.version.version)
  unfolding is_upgraded
  upgrade_iff = ground (arith, str_eq_iff pre.version.version cur.version.version)

  size_iff : ((shrinks pre cur ≡ false) × (grows pre cur ≡ false)) ↔ SameSizes pre cur
  unfolding shrinks grows SameSizes
  size_iff = ground arith

  one_way : (shrinks pre cur ≡ false) ⊎ (grows pre cur ≡ false)
  unfolding shrinks grows Grows
  one_way = let direction = allowed.one_direction in ground arith

  -- After an update that the webhook allows, at most one of the four steps of updateTiDBCluster is due,
  -- if instances on one host have one key.
  pub update_steps-bound :
      one_if (is_upgraded pre cur)
        + one_if (is_config_modified pre cur)
        + one_if (shrinks pre cur)
        + one_if (grows pre cur)
      ≤ 1
  unfolding OneKind
  update_steps-bound =
      let kind = allowed.one_kind in ground (arith, upgrade_iff, config_iff, size_iff, one_way)
