-- ===== src/Manager/VlanConfig/Removed.antt =====
-- A VLAN configuration that has been removed is no cluster network's source of the MTU.
use network_controller_harve.Common.{
  ◌≡◌, ◌≢◌, sym, ◌∙◌, ap, false, List, [], ◌∷◌, Option, none, some, Bytes, ◌==◌, bytes_eq,
  bytes_iff, arith, find, get, or_empty, ok, >>=-eq-ok, Bool-cases, inl, inr,
}
use network_controller_harve.Objects.{
  ClusterNetwork, VlanConfig, mgmt, key_cluster_network_label, key_mtu_source_vlan_config,
}
use network_controller_harve.Env.{Env, equals}
use network_controller_harve.Manager.VlanConfig.{
  Action, unchanged, find_candidate, replace_source, remove_source, on_vlan_config_remove,
}
use network_controller_harve.Manager.VlanConfig.Annotated.{
  after, IsTakenOver, replace_source-IsTakenOver,
}

-- The cluster network is there, and its annotation does not name the configuration.
abbrev pub IsFreeOf : Bytes → Option ClusterNetwork → Type 0
IsFreeOf removed none = ⊥
IsFreeOf removed (some cn) = find key_mtu_source_vlan_config cn.annotations ≢ some removed

IsFreeOf-taken_over :
    (removed : Bytes) (vcs : List VlanConfig) (cn : Option ClusterNetwork)
    → IsTakenOver removed vcs cn
    → IsFreeOf removed cn
IsFreeOf-taken_over removed vcs none h = h
IsFreeOf-taken_over removed vcs (some cn) (inl (gone, mtu, chosen)) = λ e. cc
IsFreeOf-taken_over removed vcs (some cn) (inr (vc, source, eligible, mtu)) = λ e.
    let p : some vc.name ≡ some removed = sym source ∙ e in
    let q : vc.name ≡ removed = cc in ground (arith, bytes_iff vc.name removed)

module _ (env : Env) where
  IsFreeOf-remove_source :
      (vc : VlanConfig) (cn : ClusterNetwork) (a : Action)
      → remove_source env vc cn ≡ ok a
      → IsFreeOf vc.name (after a (some cn))
  unfolding remove_source
  IsFreeOf-remove_source vc cn a h =
      elim (Bool-cases (get key_mtu_source_vlan_config cn.annotations == vc.name)) [
        | inr other ↦
            let p : ok unchanged ≡ ok a = simp other at h in
            let q : unchanged ≡ a = cc in
            rw (sym q) (λ e. ground (
              arith,
              bytes_iff (get key_mtu_source_vlan_config cn.annotations) vc.name,
              ap or_empty e,
            ))
        | inl own ↦
            let (vcs, el, r) =
              >>=-eq-ok
                (env.list_vlan_configs (equals key_cluster_network_label vc.cluster_network ∷ [])) _
                (simp own at h) in
            let q : replace_source cn (find_candidate vc.name vcs none) ≡ a = cc in
            rw (sym q)
              (IsFreeOf-taken_over vc.name vcs _ (replace_source-IsTakenOver vc.name cn vcs))
      ]

  -- Whenever `OnVlanConfigRemove` succeeds for a configuration of a cluster network other than
  -- `mgmt` that the cache holds, the cluster network, as the handler leaves it, does not name the
  -- removed configuration as the source of its MTU.
  pub on_vlan_config_remove_sound :
      (vc : VlanConfig) (cn : ClusterNetwork) (a : Action)
      → vc.cluster_network ≢ mgmt
      → env.get_cluster_network vc.cluster_network ≡ ok cn
      → on_vlan_config_remove env vc ≡ ok a
      → IsFreeOf vc.name (after a (some cn))
  unfolding on_vlan_config_remove
  on_vlan_config_remove_sound vc cn a other found h =
      let e : (vc.cluster_network == mgmt) ≡ false =
        ground (arith, bytes_iff vc.cluster_network mgmt) in
      IsFreeOf-remove_source vc cn a (simp (e, found) at h)
