-- ===== src/Webhook/Topology.antt =====
-- api/v1/testclustertopology_webhook.go: which topologies are accepted.
pub mod Fields
pub mod Scaling
pub mod Accepted
pub mod Created
use naglfar.Prelude.{
  ℕ, ◌+◌, Bool, true, false, not, ◌&&◌, ◌||◌, List, [], ◌∷◌, ◌++◌, Option, none, some, Str, codes,
  str_eq, Outcome, ok, err, failure, ◌>>=◌, ltb, if◌then◌else◌,
}
use naglfar.Topology.Components.{elems, deep_equal}
use naglfar.Topology.{
  TiDbCluster, TestClusterTopology, TestClusterTopologyStatus, ServerConfigs,
  ServerConfigs-discrete,
}
use naglfar.Webhook.Topology.Fields.{
  Differ, check_unsupported_components_changed, check_immutable_field_changed, Required,
  get_empty_required_fields,
}
use naglfar.Webhook.Topology.Scaling.{
  is_scale, is_scale_in, check_simultaneous_scale_out_and_scale_in,
}

-- What the code leaves to a library or to Go: the comparison of two components, and the order in which
-- the map of the required fields is visited.
pub record Choices : Type 0 where
  pub differ : Differ
  pub order : List Required

abbrev pub one_if : Bool → ℕ
one_if b = if b then 1 else 0

abbrev pub is_set {ℓ} : {A : Type ℓ} → Option A → Bool
is_set none = false
is_set (some a) = true

unfoldable pub count_cluster_num : TestClusterTopology → ℕ
count_cluster_num tct =
    one_if (is_set tct.spec.flink_cluster)
    + one_if (is_set tct.spec.tidb_cluster)
    + one_if (is_set tct.spec.dm_cluster)

unfoldable pub is_server_config_modified : ServerConfigs → ServerConfigs → Bool
is_server_config_modified pre cur = not (deep_equal ServerConfigs-discrete pre cur)

unfoldable pub is_upgrade : TiDbCluster → TiDbCluster → Bool
is_upgrade pre cur = not (str_eq pre.version.version cur.version.version)

unfoldable pub check_at_most_one_kind_updation : TiDbCluster → TiDbCluster → Outcome (Unit {0})
unfolding is_server_config_modified is_upgrade
check_at_most_one_kind_updation pre cur =
    if ltb 1 (
      one_if (is_scale pre cur)
      + one_if (is_server_config_modified pre.server_configs cur.server_configs)
      + one_if (is_upgrade pre cur))
    then err (
        failure (
          codes
            "only one of [upgrade, modify serverConfigs, scale-in/out] can be executed at a time"))
    else ok tt

unfoldable pub check_upgrade_policy : TiDbCluster → Outcome (Unit {0})
check_upgrade_policy cur =
    if str_eq cur.upgrade_policy (codes "force") || str_eq cur.upgrade_policy []
    then ok tt
    else err (failure (codes "upgradePolicy must be `force` or empty"))

unfoldable pub check_version_download_url_modified : TiDbCluster → TiDbCluster → Outcome (Unit {0})
check_version_download_url_modified pre cur =
    if not (str_eq pre.version.pd_download_url cur.version.pd_download_url)
      || (not (str_eq pre.version.tidb_download_url cur.version.tidb_download_url)
          || not (str_eq pre.version.tikv_download_url cur.version.tikv_download_url))
    then err (failure (codes "don't support update downLoadURL"))
    else ok tt

-- %v of a list of strings
join_words : List Str → Str
join_words [] = []
join_words (w ∷ []) = w
join_words (w ∷ v ∷ ws) = w ++ (b' ' ∷ join_words (v ∷ ws))

show_list : List Str → Str
unfolding join_words
show_list ws = b'[' ∷ (join_words ws ++ (b']' ∷ []))

unfoldable pub must_be_empty : List Str → Outcome (Unit {0})
unfolding show_list
must_be_empty [] = ok tt
must_be_empty (tip ∷ tips) = err (failure (codes "you must fill " ++ show_list (tip ∷ tips)))

abbrev pub is_empty : {A : Type 0} → List A → Bool
is_empty [] = true
is_empty (x ∷ xs) = false

-- The lists are those of the new object's status.
unfoldable pub check_migration :
    TestClusterTopologyStatus → TiDbCluster → TiDbCluster → Outcome (Unit {0})
unfolding show_list
check_migration status pre cur =
    let pending = elems status.tidb_cluster_info.pending_offline_list in
    let offline = elems status.tidb_cluster_info.offline_list in
    if is_scale_in pre cur && (not (is_empty pending) || not (is_empty offline))
    then err (
        failure (
          codes "you must wait scale-in tikvs "
          ++ (show_list pending
              ++ (b',' ∷ (show_list offline ++ codes " complete the region migration")))))
    else ok tt

module _ (choices : Choices) where
  create_tidb : Option TiDbCluster → Outcome (Unit {0})
  unfolding must_be_empty
  create_tidb none = ok tt
  create_tidb (some cluster) = must_be_empty (get_empty_required_fields choices.order cluster)

  unfoldable pub validate_create : TestClusterTopology → Outcome (Unit {0})
  unfolding create_tidb count_cluster_num
  validate_create r =
      if ltb 1 (count_cluster_num r)
      then err (failure (codes "only one cluster can be created at a time"))
      else create_tidb r.spec.tidb_cluster

  unfoldable pub validate_change :
      TestClusterTopologyStatus → TiDbCluster → TiDbCluster → Outcome (Unit {0})
  unfolding check_at_most_one_kind_updation check_upgrade_policy check_version_download_url_modified
      must_be_empty check_migration
  validate_change status pre cur = do
    _ ← check_unsupported_components_changed pre cur
    _ ← check_at_most_one_kind_updation pre cur
    _ ← check_upgrade_policy cur
    _ ← check_immutable_field_changed choices.differ pre cur
    _ ← check_version_download_url_modified pre cur
    _ ← check_simultaneous_scale_out_and_scale_in pre cur
    _ ← must_be_empty (get_empty_required_fields choices.order cur)
    check_migration status pre cur

  validate_tidb_update :
      TestClusterTopologyStatus → Option TiDbCluster → Option TiDbCluster → Outcome (Unit {0})
  unfolding validate_change
  validate_tidb_update status none cur = ok tt
  validate_tidb_update status (some pre) none = ok tt
  validate_tidb_update status (some pre) (some cur) = validate_change status pre cur

  -- r is the new object, tct the old one.
  unfoldable pub validate_update : TestClusterTopology → TestClusterTopology → Outcome (Unit {0})
  unfolding validate_tidb_update
  validate_update r tct =
      validate_tidb_update r.status tct.status.pre_tidb_cluster r.spec.tidb_cluster
