-- ===== src/Webhook/ClusterNetwork/Admitted.antt =====
-- What the admission of a cluster network's operation ensures.
use network_controller_harve.Common.{
  ◌≡◌, refl, ◌≢◌, ◌↔◌, ◌⊎◌, inl, inr, true, false, List, [], ◌∷◌, Option, none, some, Bytes, ◌==◌,
  bytes_eq, bytes_iff, arith, ltb, length, ok, Result, Error, ◌>>=◌, >>=-eq-ok, >>-eq-ok, refuse_if,
  for_each, All, ℤ, Bool-cases, if◌then◌else◌, still_vmis, mgmt_delete, still_vlan_configs, ◌∙◌, ap,
}
use network_controller_harve.Objects.{
  ClusterNetwork, VlanConfig, Nad, mgmt, key_cluster_network_label,
}
use network_controller_harve.Mtu.{get_mtu_from_vlan_config, mtu_default_to, are_equal_mtus}
use network_controller_harve.Mtu.Laws.{are_equal_mtus_iff}
use network_controller_harve.Env.{Env, SetLaws, equals}
use network_controller_harve.Nads.{list_nads_on_cluster_network, first_active_system_nad}
use network_controller_harve.Vmis.{indexed, vmi_names_who_use_nads}
use network_controller_harve.Vmis.Using.{unused_of_names}
use network_controller_harve.Webhook.ClusterNetwork.{
  annotated_mtu, check_mtu_of, refuse_system_nad, check_mtu_of_updated, check_mgmt_unused,
  check_mtu_of_updated_mgmt, update, delete,
}

nil_of_refuse {ℓ} :
    {A : Type ℓ} (xs : List A) (e : Error) → refuse_if (ltb 0 (length xs)) e ≡ ok tt → xs ≡ []
nil_of_refuse [] e h = refl
nil_of_refuse (x ∷ xs) e h = ground arith

-- An active VLAN configuration has the MTU, 0 standing for 1500.
abbrev pub AgreesOn : ℤ → VlanConfig → Type 0
AgreesOn mtu vc =
    (vc.deleting ≡ true) ⊎ (mtu_default_to (get_mtu_from_vlan_config vc) ≡ mtu_default_to mtu)

check_mtu_of_iff : (mtu : ℤ) (vc : VlanConfig) → (check_mtu_of mtu vc ≡ ok tt) ↔ AgreesOn mtu vc
check_mtu_of_iff mtu vc = (
  λ h. ground (arith, are_equal_mtus_iff (get_mtu_from_vlan_config vc) mtu),
  λ h. ground (arith, are_equal_mtus_iff (get_mtu_from_vlan_config vc) mtu),
)

check_mtus_iff :
    (mtu : ℤ) (vcs : List VlanConfig)
    → (for_each (check_mtu_of mtu) vcs ≡ ok tt) ↔ All (AgreesOn mtu) vcs
check_mtus_iff mtu [] = (λ h. tt, λ h. refl)
check_mtus_iff mtu (vc ∷ vcs) = (
  λ h.
      let (a, b) = >>-eq-ok (check_mtu_of mtu vc) _ h in
      ((check_mtu_of_iff mtu vc).0 a, (check_mtus_iff mtu vcs).0 b),
  λ h. rw ((check_mtu_of_iff mtu vc).1 h.0) ((check_mtus_iff mtu vcs).1 h.1),
)

module _ (env : Env) where
  abbrev pub vlan_configs_of : Bytes → Result (List VlanConfig)
  vlan_configs_of cn = env.list_vlan_configs (equals key_cluster_network_label cn ∷ [])

  -- A deletion is admitted exactly if the cluster network is not `mgmt` and the caches list neither
  -- a VLAN configuration nor a network attachment on it.
  delete_iff :
      (cn : ClusterNetwork)
      → (delete env cn ≡ ok tt) ↔ (
          (cn.name ≢ mgmt)
          × (vlan_configs_of cn.name ≡ ok [])
          × (list_nads_on_cluster_network env cn.name ≡ ok []))
  unfolding delete
  delete_iff cn = (
    λ h.
        let (a, r1) = >>-eq-ok (refuse_if (cn.name == mgmt) mgmt_delete) _ h in
        let (vcs, ev, r2) = >>=-eq-ok (vlan_configs_of cn.name) _ r1 in
        let (b, r3) = >>-eq-ok (refuse_if (ltb 0 (length vcs)) still_vlan_configs) _ r2 in
        let (nads, en, c) = >>=-eq-ok (list_nads_on_cluster_network env cn.name) _ r3 in
        (
          λ e. ground (arith, bytes_iff cn.name mgmt),
          ev ∙ ap ok (nil_of_refuse vcs _ b),
          en ∙ ap ok (nil_of_refuse nads _ c),
        ),
    λ h.
        let other : (cn.name == mgmt) ≡ false = ground (arith, bytes_iff cn.name mgmt) in
        rw (other, h.1, h.2) refl,
  )

  -- For a cluster network other than `mgmt` that is not being deleted, an update is admitted
  -- exactly if its annotation gives a valid MTU and every active VLAN configuration that the cache
  -- lists on it has that MTU, where 0 stands for 1500.
  pub update_iff :
      (old_cn new_cn : ClusterNetwork)
      → new_cn.name ≢ mgmt
      → new_cn.deleting ≡ false
      → (update env old_cn new_cn ≡ ok tt) ↔ (
          (mtu : ℤ) × (vcs : List VlanConfig) × (annotated_mtu new_cn ≡ ok mtu)
          × (vlan_configs_of new_cn.name ≡ ok vcs)
          × All (AgreesOn mtu) vcs)
  unfolding update check_mtu_of_updated check_mtu_of_updated_mgmt
  update_iff old_cn new_cn other active =
      let e : (new_cn.name == mgmt) ≡ false = ground (arith, bytes_iff new_cn.name mgmt) in
      (
        λ h.
            let h' : (annotated_mtu new_cn >>= λ m.
            vlan_configs_of new_cn.name >>= λ vcs. for_each (check_mtu_of m) vcs)
                ≡ ok tt =
              (>>-eq-ok _ _ (simp (active, e) at h)).0 in
            let (mtu, em, r) = >>=-eq-ok (annotated_mtu new_cn) _ h' in
            let (vcs, ev, c) = >>=-eq-ok (vlan_configs_of new_cn.name) _ r in
            (mtu, vcs, em, ev, (check_mtus_iff mtu vcs).0 c),
        λ h. simp (active, e, h.2, h.3, (check_mtus_iff h.0 h.1).1 h.4),
      )

  -- No network attachment of the cluster network is used.
  abbrev pub IsUnused : Bytes → Type 0
  IsUnused cn =
      (nads : List Nad) × (list_nads_on_cluster_network env cn ≡ ok nads)
      × (first_active_system_nad nads ≡ none)
      × All (λ nad. indexed env env.vmis_by_network nad ≡ ok []) nads

  nil_of_system : (o : Option Nad) → refuse_system_nad o ≡ ok tt → o ≡ none
  nil_of_system none h = refl
  nil_of_system (some nad) h = cc

  check_mgmt_unused-IsUnused :
      SetLaws env → (cn : ClusterNetwork) → check_mgmt_unused env cn ≡ ok tt → IsUnused cn.name
  unfolding check_mgmt_unused
  check_mgmt_unused-IsUnused laws cn h =
      let (nads, en, r1) = >>=-eq-ok (list_nads_on_cluster_network env cn.name) _ h in
      let (a, r2) = >>-eq-ok (refuse_system_nad (first_active_system_nad nads)) _ r1 in
      let (names, ev, b) = >>=-eq-ok (vmi_names_who_use_nads env nads false none) _ r2 in
      (
        nads,
        en,
        nil_of_system _ a,
        unused_of_names env laws nads (ev ∙ ap ok (nil_of_refuse names still_vmis b)),
      )

  mgmt_branch :
      (old_cn new_cn : ClusterNetwork)
      → new_cn.name ≡ mgmt
      → new_cn.deleting ≡ false
      → update env old_cn new_cn ≡ ok tt
      → (annotated_mtu new_cn >>= λ new_mtu. annotated_mtu old_cn >>= λ old_mtu.
          if are_equal_mtus old_mtu new_mtu then ok tt else check_mgmt_unused env new_cn)
        ≡ ok tt
  unfolding update check_mtu_of_updated check_mtu_of_updated_mgmt
  mgmt_branch old_cn new_cn is_mgmt active h =
      let e : (new_cn.name == mgmt) ≡ true = (bytes_iff new_cn.name mgmt).1 is_mgmt in
      simp (active, e) at h

  -- An admitted update of `mgmt` that is not being deleted either keeps the MTU, 0 standing for
  -- 1500, or finds every network attachment of it unused: no active system network is on the
  -- list, and no running machine uses one.
  pub update-mgmt_sound :
      SetLaws env
      → (old_cn new_cn : ClusterNetwork) → new_cn.name ≡ mgmt
      → new_cn.deleting ≡ false
      → update env old_cn new_cn ≡ ok tt
      → (old_mtu : ℤ) × (new_mtu : ℤ) × (annotated_mtu old_cn ≡ ok old_mtu)
        × (annotated_mtu new_cn ≡ ok new_mtu)
        × ((mtu_default_to old_mtu ≡ mtu_default_to new_mtu) ⊎ IsUnused new_cn.name)
  update-mgmt_sound laws old_cn new_cn is_mgmt active h =
      let (new_mtu, en, r1) =
        >>=-eq-ok (annotated_mtu new_cn) _ (mgmt_branch old_cn new_cn is_mgmt active h) in
      let (old_mtu, eo, r2) = >>=-eq-ok (annotated_mtu old_cn) _ r1 in
      (
        old_mtu,
        new_mtu,
        eo,
        en,
        elim (Bool-cases (are_equal_mtus old_mtu new_mtu)) [
          | inl same ↦ inl ((are_equal_mtus_iff old_mtu new_mtu).0 same)
          | inr changed ↦ inr (check_mgmt_unused-IsUnused laws new_cn (rw changed at r2))
        ],
      )
