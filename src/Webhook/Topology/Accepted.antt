-- ===== src/Webhook/Topology/Accepted.antt =====
-- What ValidateUpdate of api/v1/testclustertopology_webhook.go accepts, described without the code.
use mathlib.Core.Option.{some_inj}
use naglfar.Prelude.{
  true, List, [], ◌∷◌, Option, none, some, Str, codes, str_eq_iff, Outcome, ok, check_iff, ◌>>=◌,
  ◌≡◌, ◌≢◌, ◌↔◌, ◌⊎◌, refl, subst, arith,
}
use naglfar.Topology.Components.{elems, deep_equal_iff}
use naglfar.Topology.{
  TiDbCluster, TestClusterTopology, TestClusterTopologyStatus, ServerConfigs-discrete,
}
use naglfar.Webhook.Topology.{
  Choices, is_server_config_modified, is_upgrade, check_at_most_one_kind_updation,
  check_upgrade_policy, check_version_download_url_modified, must_be_empty, is_empty,
  check_migration, validate_change, validate_tidb_update, validate_update,
}
use naglfar.Webhook.Topology.Fields.{
  check_unsupported_components_changed, check_immutable_field_changed, get_empty_required_fields,
}
use naglfar.Webhook.Topology.Fields.Laws.{
  SameUnsupported, check_unsupported_iff, IsFaithfulDiffer, KeepsAllEntries, check_immutable_iff,
}
use naglfar.Webhook.Topology.Fields.Tips.{
  IsComplete, NamesDirectories, get_empty_required_fields_iff,
}
use naglfar.Webhook.Topology.Scaling.{check_simultaneous_scale_out_and_scale_in}
use naglfar.Webhook.Topology.Scaling.Laws.{
  SameSizes, Grows, HostsStay, is_scale_iff, is_scale_in_iff, check_simultaneous_iff,
}

-- Two of the three stay: the numbers of components, the server configurations, the version.
unfoldable pub OneKind : TiDbCluster → TiDbCluster → Type 0
OneKind pre cur =
    (SameSizes pre cur × (pre.server_configs ≡ cur.server_configs))
    ⊎ (SameSizes pre cur × (pre.version.version ≡ cur.version.version))
    ⊎ ((pre.server_configs ≡ cur.server_configs) × (pre.version.version ≡ cur.version.version))

unfoldable pub SameUrls : TiDbCluster → TiDbCluster → Type 0
SameUrls pre cur =
    (pre.version.pd_download_url ≡ cur.version.pd_download_url)
    × (pre.version.tidb_download_url ≡ cur.version.tidb_download_url)
    × (pre.version.tikv_download_url ≡ cur.version.tikv_download_url)

-- No store is still moving its regions away.
unfoldable pub IsSettled : TestClusterTopologyStatus → Type 0
IsSettled status =
    (elems status.tidb_cluster_info.pending_offline_list ≡ [])
    × (elems status.tidb_cluster_info.offline_list ≡ [])

pub record IsAllowed (status : TestClusterTopologyStatus) (pre cur : TiDbCluster) : Type 0 where
  pub unsupported : SameUnsupported pre cur
  pub one_kind : OneKind pre cur
  pub policy : (cur.upgrade_policy ≡ codes "force") ⊎ (cur.upgrade_policy ≡ [])
  pub entries : KeepsAllEntries pre cur
  pub urls : SameUrls pre cur
  pub one_direction : ¬ (Grows cur pre × Grows pre cur)
  pub hosts : SameSizes pre cur → HostsStay pre cur
  pub directories : (cur.global ≢ none) ⊎ NamesDirectories cur
  pub settled : Grows cur pre → IsSettled status

OneKind-iff :
    (pre cur : TiDbCluster) → (check_at_most_one_kind_updation pre cur ≡ ok tt) ↔ OneKind pre cur
unfolding check_at_most_one_kind_updation is_server_config_modified is_upgrade OneKind
OneKind-iff pre cur = ground (
  arith,
  is_scale_iff pre cur,
  deep_equal_iff ServerConfigs-discrete pre.server_configs cur.server_configs,
  str_eq_iff pre.version.version cur.version.version,
)

policy_iff :
    (cur : TiDbCluster)
    → (check_upgrade_policy cur ≡ ok tt)
      ↔ ((cur.upgrade_policy ≡ codes "force") ⊎ (cur.upgrade_policy ≡ []))
unfolding check_upgrade_policy
policy_iff cur =
    ground (arith, str_eq_iff cur.upgrade_policy (codes "force"), str_eq_iff cur.upgrade_policy [])

urls_iff :
    (pre cur : TiDbCluster)
    → (check_version_download_url_modified pre cur ≡ ok tt) ↔ SameUrls pre cur
unfolding check_version_download_url_modified SameUrls
urls_iff pre cur = ground (
  arith,
  str_eq_iff pre.version.pd_download_url cur.version.pd_download_url,
  str_eq_iff pre.version.tidb_download_url cur.version.tidb_download_url,
  str_eq_iff pre.version.tikv_download_url cur.version.tikv_download_url,
)

pub must_be_empty_iff : (tips : List Str) → (must_be_empty tips ≡ ok tt) ↔ (tips ≡ [])
unfolding must_be_empty
must_be_empty_iff [] = ground arith
must_be_empty_iff (tip ∷ tips) = ground arith

is_empty_iff : (xs : List Str) → (is_empty xs ≡ true) ↔ (xs ≡ [])
is_empty_iff [] = ground arith
is_empty_iff (x ∷ xs) = ground arith

migration_iff :
    (status : TestClusterTopologyStatus) (pre cur : TiDbCluster)
    → (check_migration status pre cur ≡ ok tt) ↔ (Grows cur pre → IsSettled status)
unfolding check_migration IsSettled
migration_iff status pre cur = ground (
  arith,
  is_scale_in_iff pre cur,
  is_empty_iff (elems status.tidb_cluster_info.pending_offline_list),
  is_empty_iff (elems status.tidb_cluster_info.offline_list),
)

eight_checks :
    (a b c d e f g h : Outcome (Unit {0}))
    → ((do _ ← a; _ ← b; _ ← c; _ ← d; _ ← e; _ ← f; _ ← g; h) ≡ ok tt) ↔ (
        (a ≡ ok tt)
        × (b ≡ ok tt)
        × (c ≡ ok tt)
        × (d ≡ ok tt)
        × (e ≡ ok tt)
        × (f ≡ ok tt)
        × (g ≡ ok tt)
        × (h ≡ ok tt))
eight_checks a b c d e f g h = ground (
  arith,
  check_iff a (do _ ← b; _ ← c; _ ← d; _ ← e; _ ← f; _ ← g; h),
  check_iff b (do _ ← c; _ ← d; _ ← e; _ ← f; _ ← g; h),
  check_iff c (do _ ← d; _ ← e; _ ← f; _ ← g; h),
  check_iff d (do _ ← e; _ ← f; _ ← g; h),
  check_iff e (do _ ← f; _ ← g; h),
  check_iff f (do _ ← g; h),
  check_iff g h,
)

module _ (choices : Choices) (faithful : IsFaithfulDiffer choices.differ)
    (complete : IsComplete choices.order) where
  directories_iff :
      (cur : TiDbCluster)
      → (must_be_empty (get_empty_required_fields choices.order cur) ≡ ok tt)
        ↔ ((cur.global ≢ none) ⊎ NamesDirectories cur)
  directories_iff cur = ground (
    arith,
    must_be_empty_iff (get_empty_required_fields choices.order cur),
    get_empty_required_fields_iff choices.order complete cur,
  )

  change_iff :
      (status : TestClusterTopologyStatus) (pre cur : TiDbCluster)
      → (validate_change choices status pre cur ≡ ok tt) ↔ IsAllowed status pre cur
  unfolding validate_change
  change_iff status pre cur =
      let checks =
        eight_checks (check_unsupported_components_changed pre cur)
          (check_at_most_one_kind_updation pre cur) (check_upgrade_policy cur)
          (check_immutable_field_changed choices.differ pre cur)
          (check_version_download_url_modified pre cur)
          (check_simultaneous_scale_out_and_scale_in pre cur)
          (must_be_empty (get_empty_required_fields choices.order cur))
          (check_migration status pre cur) in
      (
        λ k.
            let (a, b, c, d, e, f, g, h) = checks.0 k in
            let direction = (check_simultaneous_iff pre cur).0 f in
            record {
              unsupported = (check_unsupported_iff pre cur).0 a;
              one_kind = (OneKind-iff pre cur).0 b;
              policy = (policy_iff cur).0 c;
              entries = (check_immutable_iff choices.differ faithful pre cur).0 d;
              urls = (urls_iff pre cur).0 e;
              one_direction = direction.0;
              hosts = direction.1;
              directories = (directories_iff cur).0 g;
              settled = (migration_iff status pre cur).0 h;
            },
        λ k. checks.1 (
          (check_unsupported_iff pre cur).1 k.unsupported,
          (OneKind-iff pre cur).1 k.one_kind,
          (policy_iff cur).1 k.policy,
          (check_immutable_iff choices.differ faithful pre cur).1 k.entries,
          (urls_iff pre cur).1 k.urls,
          (check_simultaneous_iff pre cur).1 (k.one_direction, k.hosts),
          (directories_iff cur).1 k.directories,
          (migration_iff status pre cur).1 k.settled,
        ),
      )

  update_iff :
      (status : TestClusterTopologyStatus) (before after : Option TiDbCluster)
      → (validate_tidb_update choices status before after ≡ ok tt) ↔ (
          (pre cur : TiDbCluster) → before ≡ some pre → after ≡ some cur → IsAllowed status pre cur)
  unfolding validate_tidb_update
  update_iff status none after = (λ _. λ pre cur e. absurd cc, λ _. refl)
  update_iff status (some pre) none = (λ _. λ p cur e e'. absurd cc, λ _. refl)
  update_iff status (some pre) (some cur) = (
    λ h p c e e'.
        subst (λ x. IsAllowed status x c) (some_inj.0 e)
          (subst (λ x. IsAllowed status pre x) (some_inj.0 e') ((change_iff status pre cur).0 h)),
    λ h. (change_iff status pre cur).1 (h pre cur refl refl),
  )

  -- ValidateUpdate accepts a new object exactly when its TiDB cluster, if it has one and the status of
  -- the old object remembers the cluster before, is allowed after that one: at most one of the sizes, the server
  -- configurations and the version changes; nothing both grows and shrinks; with the same sizes some
  -- host of each kind stays; components that cannot be updated, download URLs and the fields of a
  -- component that keeps its key stay; the policy is one of two; the directories are known; and nothing
  -- shrinks while a store is going offline. The library that compares components is faithful and the map of required fields is visited in full.
  pub validate_update_iff :
      (r tct : TestClusterTopology)
      → (validate_update choices r tct ≡ ok tt) ↔ (
          (pre cur : TiDbCluster)
          → tct.status.pre_tidb_cluster ≡ some pre
          → r.spec.tidb_cluster ≡ some cur
          → IsAllowed r.status pre cur)
  unfolding validate_update
  validate_update_iff r tct = update_iff r.status tct.status.pre_tidb_cluster r.spec.tidb_cluster
