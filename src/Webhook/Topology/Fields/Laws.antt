-- ===== src/Webhook/Topology/Fields/Laws.antt =====
-- When the tests of fields in api/v1/testclustertopology_webhook.go pass.
use naglfar.Prelude.{
  List, [], ◌∷◌, Str, str_eq_iff, All, codes, Outcome, ok, err, panic, unfinished, check_iff, ◌>>=◌,
  ◌≡◌, ◌↔◌, arith,
}
use naglfar.Topology.Components.{
  tidb_entry_id, pd_entry_id, tikv_entry_id, elems, deep_equal_iff, DrainerSpec-discrete,
  PumpSpec-discrete, PrometheusSpec-discrete, GrafanaSpec-discrete,
}
use naglfar.Topology.{TiDbCluster, Global-discrete}
use naglfar.Webhook.Topology.Fields.{
  Option-discrete, Slice-discrete, unsupported_components_changed,
  check_unsupported_components_changed, Differ, no_changes, check_entries, check_all_entries,
  check_immutable_field_changed,
}

unfoldable pub SameUnsupported : TiDbCluster → TiDbCluster → Type 0
SameUnsupported pre cur =
    (pre.global ≡ cur.global)
    × (pre.drainer ≡ cur.drainer)
    × (pre.pump ≡ cur.pump)
    × (pre.monitor ≡ cur.monitor)
    × (pre.control ≡ cur.control)
    × (pre.grafana ≡ cur.grafana)

pub check_unsupported_iff :
    (pre cur : TiDbCluster)
    → (check_unsupported_components_changed pre cur ≡ ok tt) ↔ SameUnsupported pre cur
unfolding check_unsupported_components_changed unsupported_components_changed SameUnsupported
check_unsupported_iff pre cur = ground (
  arith,
  deep_equal_iff (Option-discrete Global-discrete) pre.global cur.global,
  deep_equal_iff (Slice-discrete DrainerSpec-discrete) pre.drainer cur.drainer,
  deep_equal_iff (Slice-discrete PumpSpec-discrete) pre.pump cur.pump,
  deep_equal_iff (Slice-discrete PrometheusSpec-discrete) pre.monitor cur.monitor,
  str_eq_iff pre.control cur.control,
  deep_equal_iff (Slice-discrete GrafanaSpec-discrete) pre.grafana cur.grafana,
)

-- Documented of diff.Diff: without an error, and without a change exactly for equal values.
abbrev pub IsFaithful : {A : Type 0} → (A → A → Outcome (List Str)) → Type 0
IsFaithful {A} diff = (a b : A) → (diff a b ≡ ok []) ↔ (a ≡ b)

pub record IsFaithfulDiffer (differ : Differ) : Type 0 where
  pub on_tidb : IsFaithful differ.diff_tidb
  pub on_pd : IsFaithful differ.diff_pd
  pub on_tikv : IsFaithful differ.diff_tikv

changed_iff :
    (field : Str) (o : Outcome (List Str)) (rest : Outcome (Unit {0}))
    → ((do changelog ← o; _ ← no_changes field changelog; rest) ≡ ok tt)
      ↔ ((o ≡ ok []) × (rest ≡ ok tt))
unfolding no_changes
changed_iff field (ok []) rest = ground arith
changed_iff field (ok (change ∷ changelog)) rest = ground arith
changed_iff field (err e) rest = ground arith
changed_iff field panic rest = ground arith
changed_iff field unfinished rest = ground arith

module _ {A : Type 0} (entry_id : A → Str) where
  -- A component that keeps its key is not changed.
  abbrev pub KeepsEntries : List A → List A → Type 0
  KeepsEntries pres curs =
      All (λ pre. All (λ cur. entry_id pre ≡ entry_id cur → pre ≡ cur) curs) pres

  module _ (field : Str) (diff : A → A → Outcome (List Str)) (faithful : IsFaithful diff) where
    check_entries_iff :
        (pre : A) (curs : List A)
        → (check_entries field entry_id diff pre curs ≡ ok tt)
          ↔ All (λ cur. entry_id pre ≡ entry_id cur → pre ≡ cur) curs
    unfolding check_entries
    check_entries_iff pre [] = ground arith
    check_entries_iff pre (cur ∷ curs) =
        let rest = check_entries field entry_id diff pre curs in
        ground (
          arith,
          str_eq_iff (entry_id pre) (entry_id cur),
          changed_iff field (diff pre cur) rest,
          faithful pre cur,
          check_entries_iff pre curs,
        )

    pub check_all_entries_iff :
        (pres curs : List A)
        → (check_all_entries field entry_id diff pres curs ≡ ok tt) ↔ KeepsEntries pres curs
    unfolding check_all_entries
    check_all_entries_iff [] curs = ground arith
    check_all_entries_iff (pre ∷ pres) curs = ground (
      arith,
      check_iff (check_entries field entry_id diff pre curs)
          (check_all_entries field entry_id diff pres curs),
      check_entries_iff pre curs,
      check_all_entries_iff pres curs,
    )

unfoldable pub KeepsAllEntries : TiDbCluster → TiDbCluster → Type 0
KeepsAllEntries pre cur =
    KeepsEntries tidb_entry_id (elems pre.tidb) (elems cur.tidb)
    × KeepsEntries pd_entry_id (elems pre.pd) (elems cur.pd)
    × KeepsEntries tikv_entry_id (elems pre.tikv) (elems cur.tikv)

pub check_immutable_iff :
    (differ : Differ) (faithful : IsFaithfulDiffer differ) (pre cur : TiDbCluster)
    → (check_immutable_field_changed differ pre cur ≡ ok tt) ↔ KeepsAllEntries pre cur
unfolding check_immutable_field_changed KeepsAllEntries
check_immutable_iff differ faithful pre cur =
    let tidb =
      check_all_entries (codes "TiDB") tidb_entry_id differ.diff_tidb (elems pre.tidb)
        (elems cur.tidb) in
    let pd =
      check_all_entries (codes "PD") pd_entry_id differ.diff_pd (elems pre.pd) (elems cur.pd) in
    let tikv =
      check_all_entries (codes "TiKV") tikv_entry_id differ.diff_tikv (elems pre.tikv)
        (elems cur.tikv) in
    ground (
      arith,
      check_iff tidb (do _ ← pd; tikv),
      check_iff pd tikv,
      check_all_entries_iff tidb_entry_id (codes "TiDB") differ.diff_tidb faithful.on_tidb
          (elems pre.tidb) (elems cur.tidb),
      check_all_entries_iff pd_entry_id (codes "PD") differ.diff_pd faithful.on_pd (elems pre.pd)
          (elems cur.pd),
      check_all_entries_iff tikv_entry_id (codes "TiKV") differ.diff_tikv faithful.on_tikv
          (elems pre.tikv) (elems cur.tikv),
    )
