-- ===== src/Webhook/Nad/Admitted.antt =====
-- What the webhook has established of a network that it admits.
use network_controller_harve.Common.{
  not-false, nil-length, ℕ, ◌≡◌, refl, ◌↔◌, ◌⊎◌, inl, inr, true, false, not, ◌&&◌, List, [], ◌∷◌,
  none, Bytes, ◌!=◌, bytes_eq, bytes_beq, bytes_iff, get, find, ℤ, arith, ok, >>-eq-ok, >>=-eq-ok,
  refuse_if, refuse_if-eq-ok, Bool-cases, label_mismatch, mtu_differs, provider_mismatch,
  kubeovn_disabled, type_changed, bridge_changed, system_params_changed, still_vmis, All, any, ap,
  sym, ◌∙◌,
}
use network_controller_harve.Objects.{
  Nad, NetConf, ClusterNetwork, key_uplink_mtu, key_network_route, key_cluster_network_label,
}
use network_controller_harve.Bridge.{get_bridge_name_prefix}
use network_controller_harve.Bridge.Names.{IsBridgeOf, get_bridge_name_prefix-eq-ok}
use network_controller_harve.Mtu.{mtu_default_to}
use network_controller_harve.Mtu.Laws.{are_equal_mtus_iff}
use network_controller_harve.NetConf.{is_vlan_config_valid, is_kube_ovn_cni, is_bridge_cni}
use network_controller_harve.NetConf.Valid.{IsVlanConfig, is_vlan_config_valid_iff}
use network_controller_harve.NetConf.Dump.{NoNil}
use network_controller_harve.Env.{Env}
use network_controller_harve.Vlan.{VlanIdSet}
use network_controller_harve.Vlan.Count.{IsWell}
use network_controller_harve.Nads.{
  decode_nad_config, get_nad_label, get_nad_name_from_provider, new_from_nad_list,
  is_system_network_nad,
}
use network_controller_harve.Nads.VidSet.{IsUsable, nad_carries, new_from_nad_list_lem}
use network_controller_harve.Vmis.{vmi_names_who_use_nad}
use network_controller_harve.Webhook.Nad.{
  target_mtu, check_bridge_config, check_nad_config, check_route, check_vmi, check_system_network,
  check_vlan_overlap_with_sn, check_provider, check_nad_types, check_nad_config_bridge_name, create,
  update, update_changed,
}

label_iff :
    (cn label : Bytes) → ((label != [] && cn != label) ≡ false) ↔ ((label ≡ []) ⊎ (cn ≡ label))
label_iff cn label = (
  λ h. ground (arith, bytes_iff label [], bytes_iff cn label),
  λ h. ground (arith, bytes_iff label [], bytes_iff cn label),
)

module _ (env : Env) where
  -- A bridge's configuration fits its cluster network and its label.
  abbrev pub FitsBridge : NetConf → Bytes → Type 0
  FitsBridge nc label =
      IsVlanConfig nc
      × ((cn_name : Bytes) × IsBridgeOf cn_name nc.br_name
          × ((label ≡ []) ⊎ (cn_name ≡ label))
          × ((cn : ClusterNetwork) × (env.get_cluster_network cn_name ≡ ok cn)
              × ((mtu : ℤ) × (target_mtu env (find key_uplink_mtu cn.annotations) label ≡ ok mtu)
                  × (mtu_default_to mtu ≡ mtu_default_to nc.mtu))))

  -- `checkNadConfig` accepts a bridge's configuration exactly if `IsVlanConfigValid` holds of it,
  -- the bridge name is that of a cluster network that exists and that the label, if there is one,
  -- names, and the MTU is the target MTU, where 0 stands for 1500.
  check_bridge_config_iff :
      (nc : NetConf) (label : Bytes)
      → (check_bridge_config env nc label ≡ ok tt) ↔ FitsBridge nc label
  unfolding check_bridge_config
  check_bridge_config_iff nc label = (
    λ h.
        let (a, r1) = >>-eq-ok (is_vlan_config_valid nc) _ h in
        let (cn_name, eb, r2) = >>=-eq-ok (get_bridge_name_prefix nc.br_name) _ r1 in
        let (b, r3) = >>-eq-ok (refuse_if (label != [] && cn_name != label) label_mismatch) _ r2 in
        let (cn, ec, r4) = >>=-eq-ok (env.get_cluster_network cn_name) _ r3 in
        let (mtu, em, c) =
          >>=-eq-ok (target_mtu env (find key_uplink_mtu cn.annotations) label) _ r4 in
        (
          (is_vlan_config_valid_iff nc).0 a,
          (
            cn_name,
            (get_bridge_name_prefix-eq-ok nc.br_name cn_name).0 eb,
            (label_iff cn_name label).0 (refuse_if-eq-ok _ label_mismatch b),
            (
              cn,
              ec,
              (
                mtu,
                em,
                (are_equal_mtus_iff mtu nc.mtu).0 (not-false _ (refuse_if-eq-ok _ mtu_differs c)),
              ),
            ),
          ),
        ),
    λ h.
        let (valid, (cn_name, bridge, labelled, (cn, ec, (mtu, em, same)))) = h in
        simp (
          (is_vlan_config_valid_iff nc).1 valid,
          (get_bridge_name_prefix-eq-ok nc.br_name cn_name).1 bridge,
          (label_iff cn_name label).1 labelled,
          ec,
          em,
          (are_equal_mtus_iff mtu nc.mtu).1 same,
        ),
  )

  -- An admitted network's configuration decodes, and a bridge's fits.
  create-admits :
      (nad : Nad)
      → create env nad ≡ ok tt
      → (nc : NetConf) × (decode_nad_config env nad ≡ ok nc)
        × (((is_kube_ovn_cni nc ≡ true) × (env.subnet_enabled ≡ true))
            ⊎ FitsBridge nc (get_nad_label nad key_cluster_network_label))
  unfolding create check_nad_config
  create-admits nad h =
      let (nc, ed, r1) = >>=-eq-ok (decode_nad_config env nad) _ h in
      let (a, r2) = >>-eq-ok (check_vlan_overlap_with_sn env nad nc) _ r1 in
      let (b, r3) =
        >>-eq-ok (refuse_if (is_kube_ovn_cni nc && not env.subnet_enabled) kubeovn_disabled) _ r2 in
      let (c, d) = >>-eq-ok (check_nad_config env nc nad) _ r3 in
      let allowed = refuse_if-eq-ok _ kubeovn_disabled b in
      (
        nc,
        ed,
        elim (Bool-cases (is_kube_ovn_cni nc)) [
          | inl e ↦ inl (e, ground arith)
          | inr e ↦ inr ((check_bridge_config_iff nc _).0 (simp e at c))
        ],
      )

  overlay_no_bridge : (nc : NetConf) → is_kube_ovn_cni nc ≡ true → is_bridge_cni nc ≡ false
  unfolding is_kube_ovn_cni is_bridge_cni bytes_beq
  overlay_no_bridge nc h = let e = (bytes_iff nc.cni_type _).0 h in rw e refl

  -- The decoded configuration, if there is one, has no nil trunk item.
  abbrev pub HasNoNil : Nad → Type 0
  HasNoNil nad = (nc : NetConf) → decode_nad_config env nad ≡ ok nc → NoNil nc.vlan_trunk

  admitted-IsUsable : (nad : Nad) → create env nad ≡ ok tt → HasNoNil nad → IsUsable env nad
  admitted-IsUsable nad h there =
      let (nc, ed, fits) = create-admits nad h in
      inr (
        nc,
        ed,
        elim fits [
          | inl overlay ↦ inl (overlay_no_bridge nc overlay.0)
          | inr bridge ↦ inr ((is_vlan_config_valid_iff nc).1 bridge.0, there nc ed)
        ],
      )

  admitted-All :
      (nads : List Nad)
      → All (λ nad. (create env nad ≡ ok tt) × HasNoNil nad) nads
      → All (IsUsable env) nads
  admitted-All [] h = tt
  admitted-All (nad ∷ nads) h = (admitted-IsUsable nad h.0.0 h.0.1, admitted-All nads h.1)

  -- The networks that the webhook's `Create` admits, if none has a nil trunk item, are ones of
  -- which `NewVlanIDSetFromNadList` makes a well-formed trunk set, of exactly the ids in
  -- [1, 4094] that the active bridge networks carry.
  pub new_from_nad_list-create :
      (nads : List Nad)
      → All (λ nad. (create env nad ≡ ok tt) × HasNoNil nad) nads
      → (t : VlanIdSet) × (new_from_nad_list env nads ≡ ok t)
        × IsWell t
        × (t.is_trunk_mode ≡ true)
        × ((j : ℕ) → t.vid_set j ≡ any (λ nad. nad_carries env nad j) nads)
  new_from_nad_list-create nads h = new_from_nad_list_lem env nads (admitted-All nads h)

  -- An overlay network's provider names the network, and a bridge's configuration fits.
  abbrev pub FitsAgain : NetConf → Nad → Type 0
  FitsAgain nc nad =
      ((is_kube_ovn_cni nc ≡ true)
        × (get_nad_name_from_provider nc.provider ≡ ok (nad.name, nad.namespace)))
      ⊎ ((is_kube_ovn_cni nc ≡ false) × FitsBridge nc (get_nad_label nad key_cluster_network_label))

  check_provider-eq-ok :
      (nad : Nad) (names : Bytes × Bytes)
      → check_provider nad names ≡ ok tt
      → names ≡ (nad.name, nad.namespace)
  check_provider-eq-ok nad (name, namespace) h =
      let passed = refuse_if-eq-ok _ provider_mismatch h in
      let e : name ≡ nad.name = sym ((bytes_iff nad.name name).0 (ground (arith, passed))) in
      let f : namespace ≡ nad.namespace =
        sym ((bytes_iff nad.namespace namespace).0 (ground (arith, passed))) in
      λ i. (e i, f i)

  -- `checkNadConfig` accepts a configuration only if it fits.
  check_nad_config-FitsAgain :
      (nc : NetConf) (nad : Nad) → check_nad_config env nc nad ≡ ok tt → FitsAgain nc nad
  unfolding check_nad_config
  check_nad_config-FitsAgain nc nad h = elim (Bool-cases (is_kube_ovn_cni nc)) [
    | inl overlay ↦
        let (names, found, r) =
          >>=-eq-ok (get_nad_name_from_provider nc.provider) _ (simp overlay at h) in
        inl (overlay, found ∙ ap ok (check_provider-eq-ok nad names r))
    | inr bridge ↦ inr (bridge, (check_bridge_config_iff nc _).0 (simp bridge at h))
  ]

  -- What holds of an update that changes the configuration, and is admitted.
  abbrev pub IsKept : NetConf → NetConf → Nad → Type 0
  IsKept old_nc new_nc nad =
      (old_nc.cni_type ≡ new_nc.cni_type)
      × (old_nc.br_name ≡ new_nc.br_name)
      × (vmi_names_who_use_nad env nad false none ≡ ok [])
      × (is_system_network_nad nad ≡ false)
      × FitsAgain new_nc nad

  pub check_vmi_sound :
      (nad : Nad) → check_vmi env nad ≡ ok tt → vmi_names_who_use_nad env nad false none ≡ ok []
  unfolding check_vmi
  check_vmi_sound nad h =
      let (xs, e, r) = >>=-eq-ok (vmi_names_who_use_nad env nad false none) _ h in
      e ∙ ap ok (nil-length xs (refuse_if-eq-ok _ still_vmis r))

  update_changed_sound :
      (old_nc new_nc : NetConf) (nad : Nad)
      → update_changed env old_nc new_nc nad ≡ ok tt
      → IsKept old_nc new_nc nad
  unfolding update_changed check_nad_types check_nad_config_bridge_name check_system_network
  update_changed_sound old_nc new_nc nad h =
      let (a, r1) = >>-eq-ok (check_vlan_overlap_with_sn env nad new_nc) _ h in
      let (b, r2) = >>-eq-ok (check_nad_types old_nc new_nc) _ r1 in
      let (c, r3) = >>-eq-ok (check_nad_config_bridge_name old_nc new_nc) _ r2 in
      let (d, r4) = >>-eq-ok (check_nad_config env new_nc nad) _ r3 in
      let (e, f) = >>-eq-ok (check_vmi env nad) _ r4 in
      let same_type = refuse_if-eq-ok _ type_changed b in
      let same_bridge = refuse_if-eq-ok _ bridge_changed c in
      (
        ground (arith, bytes_iff old_nc.cni_type new_nc.cni_type),
        ground (arith, bytes_iff old_nc.br_name new_nc.br_name),
        check_vmi_sound nad e,
        refuse_if-eq-ok _ system_params_changed f,
        check_nad_config-FitsAgain new_nc nad d,
      )

  -- An admitted update of a network that is not being deleted, which changes the configuration,
  -- keeps the CNI type and the bridge; the provider of an overlay network names the network, and the
  -- configuration of a bridge has valid VLAN ids, the bridge of a cluster network that exists and
  -- that the label, if there is one, names, and the target MTU, 0 standing for 1500. The
  -- cache names no VMI that uses the network, and it is no system network.
  pub update_sound :
      (old_nad new_nad : Nad) (old_nc new_nc : NetConf)
      → update env old_nad new_nad ≡ ok tt
      → new_nad.deleting ≡ false
      → decode_nad_config env old_nad ≡ ok old_nc
      → decode_nad_config env new_nad ≡ ok new_nc
      → env.same_conf new_nc old_nc ≡ false
      → IsKept old_nc new_nc new_nad
  unfolding update
  update_sound old_nad new_nad old_nc new_nc h active eo en changed =
      let r = simp (active, en, eo) at h in
      let (a, b) = >>-eq-ok (check_route env (get key_network_route new_nad.annotations)) _ r in
      update_changed_sound old_nc new_nc new_nad (simp changed at b)
