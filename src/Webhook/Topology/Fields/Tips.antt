-- ===== src/Webhook/Topology/Fields/Tips.antt =====
-- When getEmptyRequiredFields of api/v1/testclustertopology_webhook.go has nothing to report.
use naglfar.Prelude.{
  ℕ, suc, List, [], ◌∷◌, ◌++◌, Option, none, some, Str, str_eq_iff, In, All, codes, ◌≡◌, ◌≢◌, ◌↔◌,
  ◌⊎◌, inl, inr, refl, sym, subst, All-iff, All-In, arith,
}
use naglfar.Topology.Components.{elems}
use naglfar.Topology.{TiDbCluster, Global}
use naglfar.Webhook.Topology.Fields.{
  Required, tidb_required, pd_required, tikv_required, tips_of_fields, tips_of, required_tips,
  all_tips, tips_without, get_empty_required_fields,
}

append_empty_iff : (xs ys : List Str) → ((xs ++ ys) ≡ []) ↔ ((xs ≡ []) × (ys ≡ []))
append_empty_iff [] ys = ground arith
append_empty_iff (x ∷ xs) ys = ground arith

module _ {A : Type 0} (key : Str) where
  abbrev pub Filled : List (Str × (A → Str)) → A → Type 0
  Filled fields component = All (λ field. field.1 component ≢ []) fields

  tips_of_fields_iff :
      (fields : List (Str × (A → Str))) (index : ℕ) (component : A)
      → (tips_of_fields key fields index component ≡ []) ↔ Filled fields component
  unfolding tips_of_fields
  tips_of_fields_iff [] index component = ground arith
  tips_of_fields_iff ((name, field) ∷ fields) index component =
      ground (arith, str_eq_iff (field component) [], tips_of_fields_iff fields index component)

  tips_of_iff :
      (fields : List (Str × (A → Str))) (index : ℕ) (components : List A)
      → (tips_of key fields index components ≡ []) ↔ All (Filled fields) components
  unfolding tips_of
  tips_of_iff fields index [] = ground arith
  tips_of_iff fields index (component ∷ components) = ground (
    arith,
    append_empty_iff (tips_of_fields key fields index component)
        (tips_of key fields (suc index) components),
    tips_of_fields_iff fields index component,
    tips_of_iff fields (suc index) components,
  )

-- Every key stands in the order in which the map is visited.
abbrev pub IsComplete : List Required → Type 0
IsComplete order = (key : Required) → In key order

all_tips_iff :
    (order : List Required) (cur : TiDbCluster)
    → (all_tips order cur ≡ []) ↔ All (λ key. required_tips cur key ≡ []) order
unfolding all_tips
all_tips_iff [] cur = ground arith
all_tips_iff (key ∷ keys) cur =
    ground
      (arith, append_empty_iff (required_tips cur key) (all_tips keys cur), all_tips_iff keys cur)

at_key :
    (P : Required → Type 0) (order : List Required) (key : Required)
    → In key order
    → All P order
    → P key
at_key P [] key m h = absurd m
at_key P (first ∷ order) key (inl e) h = subst P (sym e) h.0
at_key P (first ∷ order) key (inr m) h = at_key P order key m h.1

-- Without a global section, each component names its directories.
unfoldable pub NamesDirectories : TiDbCluster → Type 0
NamesDirectories cur =
    All (λ t. t.deploy_dir ≢ []) (elems cur.tidb)
    × All (λ t. (t.deploy_dir ≢ []) × (t.data_dir ≢ [])) (elems cur.pd)
    × All (λ t. (t.deploy_dir ≢ []) × (t.data_dir ≢ [])) (elems cur.tikv)

tidb_iff :
    (cur : TiDbCluster)
    → (required_tips cur Required.of_tidb ≡ []) ↔ All (λ t. t.deploy_dir ≢ []) (elems cur.tidb)
unfolding required_tips
tidb_iff cur = ground (
  arith,
  tips_of_iff (codes "tidb") tidb_required 0 (elems cur.tidb),
  All-iff {P = Filled (codes "tidb") tidb_required} {Q = λ t. t.deploy_dir ≢ []} (elems cur.tidb)
      (λ t. ground arith),
)

pd_iff :
    (cur : TiDbCluster)
    → (required_tips cur Required.of_pd ≡ [])
      ↔ All (λ t. (t.deploy_dir ≢ []) × (t.data_dir ≢ [])) (elems cur.pd)
unfolding required_tips
pd_iff cur = ground (
  arith,
  tips_of_iff (codes "pd") pd_required 0 (elems cur.pd),
  All-iff {P = Filled (codes "pd") pd_required} {Q = λ t. (t.deploy_dir ≢ []) × (t.data_dir ≢ [])}
      (elems cur.pd) (λ t. ground arith),
)

tikv_iff :
    (cur : TiDbCluster)
    → (required_tips cur Required.of_tikv ≡ [])
      ↔ All (λ t. (t.deploy_dir ≢ []) × (t.data_dir ≢ [])) (elems cur.tikv)
unfolding required_tips
tikv_iff cur = ground (
  arith,
  tips_of_iff (codes "tikv") tikv_required 0 (elems cur.tikv),
  All-iff {P = Filled (codes "tikv") tikv_required}
      {Q = λ t. (t.deploy_dir ≢ []) × (t.data_dir ≢ [])} (elems cur.tikv) (λ t. ground arith),
)

each_key_iff :
    (cur : TiDbCluster) → ((key : Required) → required_tips cur key ≡ []) ↔ NamesDirectories cur
unfolding NamesDirectories
each_key_iff cur = (of_each, to_each)
  where
    of_each : ((key : Required) → required_tips cur key ≡ []) → NamesDirectories cur
    of_each h = (
      (tidb_iff cur).0 (h Required.of_tidb),
      (pd_iff cur).0 (h Required.of_pd),
      (tikv_iff cur).0 (h Required.of_tikv),
    )

    to_each : NamesDirectories cur → (key : Required) → required_tips cur key ≡ []
    to_each (tidb, pd, tikv) Required.of_tidb = (tidb_iff cur).1 tidb
    to_each (tidb, pd, tikv) Required.of_pd = (pd_iff cur).1 pd
    to_each (tidb, pd, tikv) Required.of_tikv = (tikv_iff cur).1 tikv

tips_without_iff :
    (order : List Required) (complete : IsComplete order) (cur : TiDbCluster)
    (global : Option Global)
    → (tips_without order cur global ≡ []) ↔ ((global ≢ none) ⊎ NamesDirectories cur)
unfolding tips_without
tips_without_iff order complete cur none = (
  λ h. inr (
      (each_key_iff cur).0
        (λ key. at_key _ order key (complete key) ((all_tips_iff order cur).0 h))),
  λ h. elim h [
    | inl k ↦ absurd (k refl)
    | inr k ↦ (all_tips_iff order cur).1 (All-In order ((each_key_iff cur).1 k))
  ],
)
tips_without_iff order complete cur (some global) = ground arith

pub get_empty_required_fields_iff :
    (order : List Required) (complete : IsComplete order) (cur : TiDbCluster)
    → (get_empty_required_fields order cur ≡ []) ↔ ((cur.global ≢ none) ⊎ NamesDirectories cur)
unfolding get_empty_required_fields
get_empty_required_fields_iff order complete cur = tips_without_iff order complete cur cur.global
