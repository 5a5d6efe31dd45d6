-- ===== src/Webhook/Topology/Fields.antt =====
-- api/v1/testclustertopology_webhook.go: the fields that must be filled and those that must not change.
pub mod Laws
pub mod Tips
use naglfar.Prelude.{
  ℕ, suc, Bool, not, ◌||◌, List, [], ◌∷◌, ◌++◌, Option, none, some, Str, codes, str_eq, Outcome, ok,
  err, failure, ◌>>=◌, if◌then◌else◌,
}
use naglfar.Machine.Cores.{print_nat}
use naglfar.Topology.Components.{
  TiDbSpec, PdSpec, TiKvSpec, tidb_entry_id, pd_entry_id, tikv_entry_id, Slice, elems, deep_equal,
  DrainerSpec-discrete, PumpSpec-discrete, PrometheusSpec-discrete, GrafanaSpec-discrete,
}
use naglfar.Topology.{TiDbCluster, Global, Global-discrete}

-- One of the two is nil and the other not, or an element differs.
pub Option-discrete : {A : Type 0} → Discrete A → Discrete (Option A)
Option-discrete same = hlevel same

pub Slice-discrete : {A : Type 0} → Discrete A → Discrete (Slice A)
Slice-discrete same = hlevel same

unfoldable pub unsupported_components_changed : TiDbCluster → TiDbCluster → Bool
unsupported_components_changed pre cur =
    not (deep_equal (Option-discrete Global-discrete) pre.global cur.global)
    || (not (deep_equal (Slice-discrete DrainerSpec-discrete) pre.drainer cur.drainer)
        || (not (deep_equal (Slice-discrete PumpSpec-discrete) pre.pump cur.pump)
            || (not (deep_equal (Slice-discrete PrometheusSpec-discrete) pre.monitor cur.monitor)
                || (not (str_eq pre.control cur.control)
                    || not (
                        deep_equal (Slice-discrete GrafanaSpec-discrete) pre.grafana
                          cur.grafana)))))

unfoldable pub check_unsupported_components_changed : TiDbCluster → TiDbCluster → Outcome (Unit {0})
check_unsupported_components_changed pre cur =
    if unsupported_components_changed pre cur
    then err (failure (codes "update unsupport components"))
    else ok tt

-- diff.Diff of github.com/r3labs/diff: the changes, as texts.
pub record Differ : Type 0 where
  pub diff_tidb : TiDbSpec → TiDbSpec → Outcome (List Str)
  pub diff_pd : PdSpec → PdSpec → Outcome (List Str)
  pub diff_tikv : TiKvSpec → TiKvSpec → Outcome (List Str)

-- The text of the error without its changelog.
unfoldable pub no_changes : Str → List Str → Outcome (Unit {0})
no_changes field [] = ok tt
no_changes field (change ∷ changelog) =
    err (failure (codes "immutable field " ++ (field ++ codes " is changed")))

module _ {A : Type 0} (field : Str) (entry_id : A → Str) (diff : A → A → Outcome (List Str)) where
  check_entries : A → List A → Outcome (Unit {0})
  unfolding no_changes
  check_entries pre [] = ok tt
  check_entries pre (cur ∷ curs) =
      let rest = check_entries pre curs in
      if str_eq (entry_id pre) (entry_id cur)
      then (do changelog ← diff pre cur; _ ← no_changes field changelog; rest)
      else rest

  unfoldable pub check_all_entries : List A → List A → Outcome (Unit {0})
  unfolding check_entries
  check_all_entries [] curs = ok tt
  check_all_entries (pre ∷ pres) curs = do _ ← check_entries pre curs; check_all_entries pres curs

unfoldable pub check_immutable_field_changed :
    Differ → TiDbCluster → TiDbCluster → Outcome (Unit {0})
check_immutable_field_changed differ pre cur = do
  _ ←
      check_all_entries (codes "TiDB") tidb_entry_id differ.diff_tidb (elems pre.tidb)
        (elems cur.tidb)
  _ ← check_all_entries (codes "PD") pd_entry_id differ.diff_pd (elems pre.pd) (elems cur.pd)
  check_all_entries (codes "TiKV") tikv_entry_id differ.diff_tikv (elems pre.tikv) (elems cur.tikv)

-- The keys of the map of required fields.
pub data Required : Type 0 where
  of_tidb of_pd of_tikv : Required

tip : Str → ℕ → Str → Str
tip key index field =
    codes "spec.tidbCluster." ++ (key ++ (b'[' ∷ (print_nat index ++ (codes "]." ++ field))))

module _ {A : Type 0} (key : Str) where
  tips_of_fields : List (Str × (A → Str)) → ℕ → A → List Str
  unfolding tip
  tips_of_fields [] index component = []
  tips_of_fields ((name, field) ∷ fields) index component =
      let rest = tips_of_fields fields index component in
      if str_eq (field component) [] then tip key index name ∷ rest else rest

  tips_of : List (Str × (A → Str)) → ℕ → List A → List Str
  unfolding tips_of_fields
  tips_of fields index [] = []
  tips_of fields index (component ∷ components) =
      tips_of_fields fields index component ++ tips_of fields (suc index) components

-- checkMaps
abbrev pub tidb_required : List (Str × (TiDbSpec → Str))
tidb_required = (codes "DeployDir", λ t. t.deploy_dir) ∷ []

abbrev pub pd_required : List (Str × (PdSpec → Str))
pd_required = (codes "DeployDir", λ t. t.deploy_dir) ∷ (codes "DataDir", λ t. t.data_dir) ∷ []

abbrev pub tikv_required : List (Str × (TiKvSpec → Str))
tikv_required = (codes "DeployDir", λ t. t.deploy_dir) ∷ (codes "DataDir", λ t. t.data_dir) ∷ []

required_tips : TiDbCluster → Required → List Str
unfolding tips_of
required_tips cur Required.of_tidb = tips_of (codes "tidb") tidb_required 0 (elems cur.tidb)
required_tips cur Required.of_pd = tips_of (codes "pd") pd_required 0 (elems cur.pd)
required_tips cur Required.of_tikv = tips_of (codes "tikv") tikv_required 0 (elems cur.tikv)

-- The keys in the order in which the map is visited.
all_tips : List Required → TiDbCluster → List Str
unfolding required_tips
all_tips [] cur = []
all_tips (key ∷ keys) cur = required_tips cur key ++ all_tips keys cur

tips_without : List Required → TiDbCluster → Option Global → List Str
unfolding all_tips
tips_without order cur none = all_tips order cur
tips_without order cur (some global) = []

unfoldable pub get_empty_required_fields : List Required → TiDbCluster → List Str
unfolding tips_without
get_empty_required_fields order cur = tips_without order cur cur.global
