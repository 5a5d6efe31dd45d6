-- ===== src/Tiup/Changes.antt =====
-- pkg/tiup/cluster/deploy.go: what an update changes.
use naglfar.Prelude.{
  Bool, true, false, not, ◌&&◌, ◌||◌, List, [], ◌∷◌, ◌++◌, Str, codes, str_eq, length, ltb,
  if◌then◌else◌,
}
use naglfar.Topology.Components.{
  elems, deep_equal, TiDbSpec-discrete, PdSpec-discrete, TiKvSpec-discrete,
}
use naglfar.Topology.{TiDbCluster, ServerConfigs-discrete, TiDbCluster-discrete}
use naglfar.Webhook.Topology.Fields.{Slice-discrete}

unfoldable pub is_upgraded : TiDbCluster → TiDbCluster → Bool
is_upgraded pre cur = not (str_eq pre.version.version cur.version.version)

module _ {A : Type 0} (host config : A → Str) where
  -- The loops over the instances before and after, which end at the first difference.
  unfoldable pub entry_modified : A → List A → Bool
  entry_modified pre [] = false
  entry_modified pre (cur ∷ curs) =
      if str_eq (host pre) (host cur) && not (str_eq (config pre) (config cur))
      then true
      else entry_modified pre curs

  unfoldable pub some_modified : List A → List A → Bool
  unfolding entry_modified
  some_modified [] curs = false
  some_modified (pre ∷ pres) curs =
      if entry_modified pre curs then true else some_modified pres curs

unfoldable pub is_config_modified : TiDbCluster → TiDbCluster → Bool
is_config_modified pre cur =
    not (deep_equal ServerConfigs-discrete pre.server_configs cur.server_configs)
    || (some_modified (λ t. t.host) (λ t. t.config) (elems pre.tidb) (elems cur.tidb)
        || (some_modified (λ t. t.host) (λ t. t.config) (elems pre.pd) (elems cur.pd)
            || some_modified (λ t. t.host) (λ t. t.config) (elems pre.tikv) (elems cur.tikv)))

unfoldable pub is_cluster_config_modified : TiDbCluster → TiDbCluster → Bool
is_cluster_config_modified pre cur = not (deep_equal TiDbCluster-discrete pre cur)

unfoldable pub shrinks : TiDbCluster → TiDbCluster → Bool
shrinks pre cur =
    ltb (length (elems cur.tidb)) (length (elems pre.tidb))
    || (ltb (length (elems cur.pd)) (length (elems pre.pd))
        || ltb (length (elems cur.tikv)) (length (elems pre.tikv)))

unfoldable pub grows : TiDbCluster → TiDbCluster → Bool
grows pre cur =
    ltb (length (elems pre.tidb)) (length (elems cur.tidb))
    || (ltb (length (elems pre.pd)) (length (elems cur.pd))
        || ltb (length (elems pre.tikv)) (length (elems cur.tikv)))

-- The roles whose configuration or instances differ.
unfoldable pub diff_tidb_cluster_config : TiDbCluster → TiDbCluster → List Str
diff_tidb_cluster_config pre cur =
    let tidb =
      not (str_eq pre.server_configs.tidb cur.server_configs.tidb)
      || not (deep_equal (Slice-discrete TiDbSpec-discrete) pre.tidb cur.tidb) in
    let pd =
      not (str_eq pre.server_configs.pd cur.server_configs.pd)
      || not (deep_equal (Slice-discrete PdSpec-discrete) pre.pd cur.pd) in
    let tikv =
      not (str_eq pre.server_configs.tikv cur.server_configs.tikv)
      || not (deep_equal (Slice-discrete TiKvSpec-discrete) pre.tikv cur.tikv) in
    (if tidb then codes "tidb" ∷ [] else [])
    ++ ((if pd then codes "pd" ∷ [] else []) ++ (if tikv then codes "tikv" ∷ [] else []))
