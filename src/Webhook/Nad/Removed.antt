-- ===== src/Webhook/Nad/Removed.antt =====
-- What the webhook has established of a network whose deletion it admits.
use network_controller_harve.Webhook.Nad.Admitted.{check_vmi_sound}
use network_controller_harve.Common.{
  nil-length, ◌≡◌, ◌≢◌, ◌⊎◌, ◌∙◌, ap, inl, inr, true, false, List, [], ◌∷◌, Bytes, ◌==◌, bytes_eq,
  bytes_iff, int_eq, int_iff, arith, ℤ, pos, ok, >>=-eq-ok, >>-eq-ok, refuse_if-eq-ok, for_each,
  All, if◌then◌else◌, Bool-cases, still_vms, none,
}
use network_controller_harve.Objects.{Nad, NetConf, HostNetworkConfig, key_cluster_network_label}
use network_controller_harve.NetConf.{is_kube_ovn_cni, get_vlan_id}
use network_controller_harve.Env.{Env}
use network_controller_harve.Nads.{decode_nad_config, get_nad_label, is_overlay_nad}
use network_controller_harve.Vmis.{vmi_names_who_use_nad, vm_names_who_use_nad}
use network_controller_harve.Webhook.Nad.{
  check_vmi, check_vm, check_underlay, check_if_vm_exists_for_overlay_nads,
  check_overlay_vms_using_cluster_network, delete_bridge, delete,
}

module _ (env : Env) where
  unused_vm : (nad : Nad) → check_vm env nad ≡ ok tt → vm_names_who_use_nad env nad ≡ ok []
  unfolding check_vm
  unused_vm nad h =
      let (xs, e, r) = >>=-eq-ok (vm_names_who_use_nad env nad) _ h in
      e ∙ ap ok (nil-length xs (refuse_if-eq-ok _ still_vms r))

  -- No overlay network of the list is used by a machine.
  abbrev pub AreOverlaysUnused : List Nad → Type 0
  AreOverlaysUnused nads =
      All (λ nad. (is_overlay_nad nad ≡ false) ⊎ (vm_names_who_use_nad env nad ≡ ok [])) nads

  overlays_unused :
      (nads : List Nad)
      → for_each (λ nad. if is_overlay_nad nad then check_vm env nad else ok tt) nads ≡ ok tt
      → AreOverlaysUnused nads
  overlays_unused [] h = tt
  overlays_unused (nad ∷ nads) h =
      let (a, b) = >>-eq-ok (if is_overlay_nad nad then check_vm env nad else ok tt) _ h in
      (
        elim (Bool-cases (is_overlay_nad nad)) [
          | inl overlay ↦ inr (unused_vm nad (simp overlay at a))
          | inr other ↦ inl other
        ],
        overlays_unused nads b,
      )

  -- The host network configuration is not the active underlay on this VLAN, or no machine uses an
  -- overlay network.
  abbrev pub IsNotNeeded : Bytes → ℤ → HostNetworkConfig → Type 0
  IsNotNeeded label vlan_id hnc =
      ((hnc.cluster_network ≢ label)
        ⊎ ((hnc.deleting ≡ true) ⊎ ((hnc.underlay ≡ false) ⊎ (pos hnc.vlan_id ≢ vlan_id))))
      ⊎ ((nads : List Nad) × (env.list_nads [] [] ≡ ok nads) × AreOverlaysUnused nads)

  not_needed :
      (label : Bytes) (vlan_id : ℤ) (hnc : HostNetworkConfig)
      → check_underlay env label vlan_id hnc ≡ ok tt
      → IsNotNeeded label vlan_id hnc
  unfolding check_if_vm_exists_for_overlay_nads
  not_needed label vlan_id hnc h = elim (Bool-cases (hnc.cluster_network == label)) [
    | inr e ↦ inl (inl (λ is. ground (arith, bytes_iff hnc.cluster_network label)))
    | inl e ↦ elim (Bool-cases hnc.deleting) [
      | inl gone ↦ inl (inr (inl gone))
      | inr active ↦ elim (Bool-cases hnc.underlay) [
        | inr plain ↦ inl (inr (inr (inl plain)))
        | inl under ↦ elim (Bool-cases (pos hnc.vlan_id == vlan_id)) [
          | inr other ↦
              inl (inr (inr (inr (λ is. ground (arith, int_iff (pos hnc.vlan_id) vlan_id)))))
          | inl same ↦
              let (nads, en, r) =
                >>=-eq-ok (env.list_nads [] []) _ (simp (e, active, under, same) at h) in
              inr (nads, en, overlays_unused nads r)
        ]
      ]
    ]
  ]

  All-IsNotNeeded :
      (label : Bytes) (vlan_id : ℤ) (hncs : List HostNetworkConfig)
      → for_each (check_underlay env label vlan_id) hncs ≡ ok tt
      → All (IsNotNeeded label vlan_id) hncs
  All-IsNotNeeded label vlan_id [] h = tt
  All-IsNotNeeded label vlan_id (hnc ∷ hncs) h =
      let (a, b) = >>-eq-ok (check_underlay env label vlan_id hnc) _ h in
      (not_needed label vlan_id hnc a, All-IsNotNeeded label vlan_id hncs b)

  -- An admitted deletion of a bridge network finds no VMI and no VM that uses it; and where it has
  -- a VLAN id, every host network configuration on its cluster network that is the active underlay
  -- on that VLAN is one while no machine uses an overlay network.
  pub delete_sound :
      (nad : Nad) (nc : NetConf)
      → delete env nad ≡ ok tt
      → decode_nad_config env nad ≡ ok nc
      → is_kube_ovn_cni nc ≡ false
      → (vmi_names_who_use_nad env nad false none ≡ ok [])
        × (vm_names_who_use_nad env nad ≡ ok [])
        × ((get_vlan_id nc ≡ pos 0)
            ⊎ ((hncs : List HostNetworkConfig) × (env.list_host_network_configs ≡ ok hncs)
                × All
                    (IsNotNeeded (get_nad_label nad key_cluster_network_label) (get_vlan_id nc))
                    hncs))
  unfolding delete delete_bridge check_overlay_vms_using_cluster_network
  delete_sound nad nc h ed bridge =
      let r = simp (ed, bridge) at h in
      let (a, r1) = >>-eq-ok (check_vmi env nad) _ r in
      let (b, c) = >>-eq-ok (check_vm env nad) _ r1 in
      (
        check_vmi_sound env nad a,
        unused_vm nad b,
        elim (Bool-cases (get_vlan_id nc == pos 0)) [
          | inl z ↦ inl ((int_iff (get_vlan_id nc) (pos 0)).0 z)
          | inr nz ↦
              let (hncs, eh, d) = >>=-eq-ok env.list_host_network_configs _ (simp nz at c) in
              inr (hncs, eh, All-IsNotNeeded _ _ hncs d)
        ],
      )
