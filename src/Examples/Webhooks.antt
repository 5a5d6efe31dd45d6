-- ===== src/Examples/Webhooks.antt =====
-- The webhook and the nodes of a scale-in, on concrete clusters.
use naglfar.Prelude.{
  ◌+◌, ◌≤◌, List, Str, true, [], ◌∷◌, some, codes, Outcome, ok, length, ◌≡◌, ◌≢◌, ◌↔◌, inl, inr, ap,
  refl, if◌then◌else◌, arith,
}
use naglfar.Examples.Clusters.{three_stores, two_stores, topology}
use naglfar.Tiup.Changes.{shrinks}
use naglfar.Tiup.Nodes.{get_scale_in_node}
use naglfar.Tiup.Nodes.Scaling.{HasDistinctEntries, get_scale_in_node-bound}
use naglfar.Topology.Components.{
  elems, deep_equal, deep_equal_iff, TiDbSpec-discrete, PdSpec-discrete, TiKvSpec-discrete,
}
use naglfar.Topology.{TiDbCluster}
use naglfar.Webhook.Topology.Accepted.{IsAllowed, validate_update_iff}
use naglfar.Webhook.Topology.Created.{OneCluster, HasDirectories, validate_create_iff}
use naglfar.Webhook.Topology.Fields.Laws.{IsFaithful, IsFaithfulDiffer}
use naglfar.Webhook.Topology.Fields.Tips.{IsComplete}
use naglfar.Webhook.Topology.Fields.{Required}
use naglfar.Webhook.Topology.{Choices, validate_create, validate_update}

abbrev one_change : {A : Type 0} → Discrete A → A → A → Outcome (List Str)
one_change same a b = if deep_equal same a b then ok [] else ok (codes "changed" ∷ [])

one_change-IsFaithful : {A : Type 0} (same : Discrete A) → IsFaithful (one_change same)
one_change-IsFaithful same a b = ground (arith, deep_equal_iff same a b)

abbrev plain : Choices
plain = record {
  differ = record {
    diff_tidb = one_change TiDbSpec-discrete;
    diff_pd = one_change PdSpec-discrete;
    diff_tikv = one_change TiKvSpec-discrete;
  };
  order = Required.of_tidb ∷ Required.of_pd ∷ Required.of_tikv ∷ [];
}

plain-IsFaithfulDiffer : IsFaithfulDiffer plain.differ
plain-IsFaithfulDiffer = record {
  on_tidb = one_change-IsFaithful TiDbSpec-discrete;
  on_pd = one_change-IsFaithful PdSpec-discrete;
  on_tikv = one_change-IsFaithful TiKvSpec-discrete;
}

plain-IsComplete : IsComplete plain.order
plain-IsComplete Required.of_tidb = inl refl
plain-IsComplete Required.of_pd = inr (inl refl)
plain-IsComplete Required.of_tikv = inr (inr (inl refl))

validate_update_iff_example : (validate_update plain topology topology ≡ ok tt) ↔ (
    (pre cur : TiDbCluster)
    → topology.status.pre_tidb_cluster ≡ some pre
    → topology.spec.tidb_cluster ≡ some cur
    → IsAllowed topology.status pre cur)
validate_update_iff_example =
    validate_update_iff plain plain-IsFaithfulDiffer plain-IsComplete topology topology

validate_create_iff_example :
    (validate_create plain topology ≡ ok tt)
    ↔ (OneCluster topology × HasDirectories topology.spec.tidb_cluster)
validate_create_iff_example = validate_create_iff plain plain-IsComplete topology

n1≢n2 : codes "n1" ≢ codes "n2"
n1≢n2 e = absurd (ground arith)

n1≢n3 : codes "n1" ≢ codes "n3"
n1≢n3 e = absurd (ground arith)

n2≢n3 : codes "n2" ≢ codes "n3"
n2≢n3 e = absurd (ground arith)

three_stores-HasDistinctEntries : HasDistinctEntries three_stores
three_stores-HasDistinctEntries = record {
  of_tidb = (λ m. m, tt);
  of_pd = (λ m. m, tt);
  of_tikv = (
    λ m. elim m [
      | inl e ↦ n1≢n2 (ap (λ t. t.host) e)
      | inr k ↦ elim k [ inl e ↦ n1≢n3 (ap (λ t. t.host) e) | inr f ↦ f ]
    ],
    (λ m. elim m [ inl e ↦ n2≢n3 (ap (λ t. t.host) e) | inr f ↦ f ], (λ m. m, tt)),
  );
}

get_scale_in_node-bound_example :
    (length (elems three_stores.tidb)
        + length (elems three_stores.pd)
        + length (elems three_stores.tikv)
      ≤ length (get_scale_in_node [] three_stores two_stores)
        + (length (elems two_stores.tidb)
            + length (elems two_stores.pd)
            + length (elems two_stores.tikv)))
    × (shrinks three_stores two_stores ≡ true → get_scale_in_node [] three_stores two_stores ≢ [])
get_scale_in_node-bound_example =
    get_scale_in_node-bound [] three_stores two_stores three_stores-HasDistinctEntries
