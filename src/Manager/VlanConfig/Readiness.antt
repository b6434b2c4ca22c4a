-- ===== src/Manager/VlanConfig/Readiness.antt =====
-- When a cluster network is marked as not ready.
use network_controller_harve.Common.{
  ◌≡◌, ◌≢◌, false, List, [], ◌∷◌, Bytes, ◌==◌, bytes_eq, bytes_iff, arith, ltb, length, ok,
  >>=-eq-ok, if◌then◌else◌, Bool-cases, inl, inr,
}
use network_controller_harve.Objects.{
  ClusterNetwork, VlanStatus, is_false, mgmt, key_cluster_network_label,
}
use network_controller_harve.Env.{Env, equals}
use network_controller_harve.Manager.VlanConfig.{
  unchanged, update_cn, unready_by, is_other, says_false, set_cluster_network_unready,
}

-- No status is left, or only the named one.
abbrev pub IsLast : Bytes → List VlanStatus → Type 0
IsLast name [] = Unit {0}
IsLast name (one ∷ []) = one.name ≡ name
IsLast name (one ∷ two ∷ rest) = ⊥

IsLast-tests :
    (name : Bytes) (statuses : List VlanStatus)
    → ltb 1 (length statuses) ≡ false
    → is_other statuses name ≡ false
    → IsLast name statuses
IsLast-tests name [] few own = tt
IsLast-tests name (one ∷ []) few own = ground (arith, bytes_iff one.name name)
IsLast-tests name (one ∷ two ∷ rest) few own = absurd (ground arith)

module _ (env : Env) where
  -- What holds when a write marks the cluster network as not ready.
  abbrev pub IsUnreadied : VlanStatus → ClusterNetwork → Type 0
  IsUnreadied vs new =
      (vs.cluster_network ≢ mgmt)
      × ((statuses : List VlanStatus) × (env.list_vlan_statuses
              (equals key_cluster_network_label vs.cluster_network ∷ [])
            ≡ ok statuses)
          × IsLast vs.name statuses)
      × ((cn : ClusterNetwork) × (env.get_cluster_network vs.cluster_network ≡ ok cn)
          × (says_false cn.ready ≡ false)
          × (new ≡ record cn { ready = is_false }))

  written :
      (cn new : ClusterNetwork)
      → (if says_false cn.ready then unchanged else update_cn (record cn { ready = is_false }))
        ≡ update_cn new
      → (says_false cn.ready ≡ false) × (new ≡ record cn { ready = is_false })
  written cn new h = elim (Bool-cases (says_false cn.ready)) [
    | inl e ↦ let p : unchanged ≡ update_cn new = simp e at h in absurd cc
    | inr e ↦
        let p : update_cn (record cn { ready = is_false }) ≡ update_cn new = simp e at h in (e, cc)
  ]

  by_statuses :
      (vs : VlanStatus) (statuses : List VlanStatus) (new : ClusterNetwork)
      → unready_by env vs statuses ≡ ok (update_cn new)
      → IsLast vs.name statuses
        × ((cn : ClusterNetwork) × (env.get_cluster_network vs.cluster_network ≡ ok cn)
            × (says_false cn.ready ≡ false)
            × (new ≡ record cn { ready = is_false }))
  by_statuses vs statuses new h = elim (Bool-cases (ltb 1 (length statuses))) [
    | inl many ↦ let p : ok unchanged ≡ ok (update_cn new) = simp many at h in absurd cc
    | inr few ↦ elim (Bool-cases (is_other statuses vs.name)) [
      | inl other ↦ absurd (ground arith)
      | inr own ↦
          let (cn, e, r) =
            >>=-eq-ok (env.get_cluster_network vs.cluster_network) _ (simp (few, own) at h) in
          let (was, is) = written cn new cc in
          (IsLast-tests vs.name statuses few own, (cn, e, was, is))
    ]
  ]

  -- If `SetClusterNetworkUnready` writes a cluster network, that is not `mgmt`, the cache lists no
  -- status on it but the removed one, and the write only marks as not ready a cluster network that
  -- was not marked so.
  set_cluster_network_unready_sound :
      (vs : VlanStatus) (new : ClusterNetwork)
      → set_cluster_network_unready env vs ≡ ok (update_cn new)
      → IsUnreadied vs new
  unfolding set_cluster_network_unready
  set_cluster_network_unready_sound vs new h = elim (Bool-cases (vs.cluster_network == mgmt)) [
    | inl e ↦ let p : ok unchanged ≡ ok (update_cn new) = simp e at h in absurd cc
    | inr e ↦
        let (statuses, el, r) =
          >>=-eq-ok
            (env.list_vlan_statuses (equals key_cluster_network_label vs.cluster_network ∷ [])) _
            (simp e at h) in
        let (last, rest) = by_statuses vs statuses new r in
        (λ is. ground (arith, bytes_iff vs.cluster_network mgmt), (statuses, el, last), rest)
  ]
