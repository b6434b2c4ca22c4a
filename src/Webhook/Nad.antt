-- ===== src/Webhook/Nad.antt =====
-- Admission of network attachments: pkg/webhook/nad/validator.go.
pub mod Mutator
pub mod Mutated
pub mod Admitted
pub mod Storage
pub mod Removed
use network_controller_harve.Common.{
  ℕ, Bool, true, false, not, ◌||◌, ◌&&◌, List, [], ◌∷◌, Option, none, some, Bytes, ◌==◌, ◌!=◌,
  bytes_eq, nat_eq, int_eq, ltb, length, get, find, ℤ, pos, Result, ok, err, ◌>>=◌, ◌>>◌, refuse_if,
  for_each, Check, if◌then◌else◌, still_vmis, still_vms, still_subnets, mtu_differs, reserved_vlan,
  kubeovn_disabled, provider_mismatch, label_mismatch, type_changed, bridge_changed,
  system_params_changed,
}
use network_controller_harve.Objects.{
  Nad, NetConf, ClusterNetwork, VlanConfig, Subnet, HostNetworkConfig, key_cluster_network_label,
  key_network_route, key_uplink_mtu, exclusive_vlan_storage_network_label, value_true,
}
use network_controller_harve.Bridge.{get_bridge_name_prefix}
use network_controller_harve.Mtu.{
  default_mtu, is_valid_mtu, are_equal_mtus, get_mtu_from_string, get_mtu_from_vlan_config,
}
use network_controller_harve.NetConf.{
  is_vlan_config_valid, is_kube_ovn_cni, is_vlan_overlapping, get_vlan_id,
}
use network_controller_harve.Env.{Env, equals}
use network_controller_harve.Nads.{
  decode_nad_config, get_nad_label, get_nad_name_from_provider, get_provider_from_nad,
  is_overlay_nad, is_system_network_nad,
}
use network_controller_harve.Vmis.{vmi_names_who_use_nad, vm_names_who_use_nad}
use network_controller_harve.Layer3.{new_layer3}

-- `nad.Name != nadName || nad.Namespace != nadNamespace`
abbrev pub check_provider : Nad → Bytes × Bytes → Check
check_provider nad (name, namespace) =
    refuse_if (nad.name != name || nad.namespace != namespace) provider_mismatch

-- `if mtu != 0 { targetMTU = mtu }`
abbrev pub unless_zero : ℤ → ℤ
unless_zero mtu = if mtu != pos 0 then mtu else default_mtu

-- The target MTU by the VLAN configurations: the first one's, if that is valid and not 0.
abbrev pub mtu_of_first : List VlanConfig → ℤ
mtu_of_first [] = default_mtu
mtu_of_first (vc ∷ vcs) =
    let mtu = get_mtu_from_vlan_config vc in
    if is_valid_mtu mtu && mtu != pos 0 then mtu else default_mtu

-- `checkNadTypes` and `checkNadConfigBridgeName`; the configurations are never nil here.
unfoldable pub check_nad_types : NetConf → NetConf → Check
check_nad_types old_nc new_nc = refuse_if (old_nc.cni_type != new_nc.cni_type) type_changed

unfoldable pub check_nad_config_bridge_name : NetConf → NetConf → Check
check_nad_config_bridge_name old_nc new_nc =
    refuse_if (old_nc.br_name != new_nc.br_name) bridge_changed

-- `checkSystemNetwork`
unfoldable pub check_system_network : Nad → Check
check_system_network nad = refuse_if (is_system_network_nad nad) system_params_changed

module _ (env : Env) where
  -- The target MTU of a network: that of the annotation of its cluster network, or else that of
  -- the VLAN configurations with the cluster network of the label.
  unfoldable pub target_mtu : Option Bytes → Bytes → Result ℤ
  target_mtu (some s) label = get_mtu_from_string s >>= λ mtu. ok (unless_zero mtu)
  target_mtu none label =
      env.list_vlan_configs (equals key_cluster_network_label label ∷ []) >>= λ vcs.
      ok (mtu_of_first vcs)

  -- The part of `checkNadConfig` for a bridge.
  unfoldable pub check_bridge_config : NetConf → Bytes → Check
  check_bridge_config nc label = do
    is_vlan_config_valid nc
    cn_name ← get_bridge_name_prefix nc.br_name
    refuse_if (label != [] && cn_name != label) label_mismatch
    cn ← env.get_cluster_network cn_name
    mtu ← target_mtu (find key_uplink_mtu cn.annotations) label
    refuse_if (not (are_equal_mtus mtu nc.mtu)) mtu_differs

  -- `checkNadConfig`
  unfoldable pub check_nad_config : NetConf → Nad → Check
  check_nad_config nc nad =
      if is_kube_ovn_cni nc
      then (get_nad_name_from_provider nc.provider >>= λ names. check_provider nad names)
      else check_bridge_config nc (get_nad_label nad key_cluster_network_label)

  -- `checkRoute`
  unfoldable pub check_route : Bytes → Check
  check_route config = new_layer3 env config >>= λ c. ok tt

  -- `checkVmi`
  unfoldable pub check_vmi : Nad → Check
  check_vmi nad = vmi_names_who_use_nad env nad false none >>= λ names.
      refuse_if (ltb 0 (length names)) still_vmis

  -- `checkVM`
  unfoldable pub check_vm : Nad → Check
  check_vm nad =
      vm_names_who_use_nad env nad >>= λ names. refuse_if (ltb 0 (length names)) still_vms

  -- `checkSubnetsUsingNAD`
  unfoldable pub check_subnets_using_nad : Nad → Check
  check_subnets_using_nad nad = do
    subnets ← env.list_subnets
    provider ← get_provider_from_nad nad.name nad.namespace
    for_each (λ subnet. refuse_if (subnet.provider == provider) still_subnets) subnets

  -- `checkifVMExistsForOverlayNADs`
  unfoldable pub check_if_vm_exists_for_overlay_nads : Check
  check_if_vm_exists_for_overlay_nads = do
    nads ← env.list_nads [] []
    for_each (λ nad. if is_overlay_nad nad then check_vm nad else ok tt) nads

  -- One round of the loop of `checkOverlayVMsUsingClusterNetwork`.
  abbrev pub check_underlay : Bytes → ℤ → HostNetworkConfig → Check
  check_underlay label vlan_id hnc =
      if hnc.cluster_network != label
      then ok tt
      else if hnc.deleting
      then ok tt
      else if hnc.underlay && pos hnc.vlan_id == vlan_id
      then check_if_vm_exists_for_overlay_nads
      else ok tt

  -- `checkOverlayVMsUsingClusterNetwork`
  unfoldable pub check_overlay_vms_using_cluster_network : Nad → ℤ → Check
  check_overlay_vms_using_cluster_network nad vlan_id = if vlan_id == pos 0 then ok tt else do
    hncs ← env.list_host_network_configs
    for_each (check_underlay (get_nad_label nad key_cluster_network_label) vlan_id) hncs

  -- The end of `checkVlanOverlapWithSN`, with the storage networks that hold a VLAN exclusively.
  abbrev pub check_storage : NetConf → List Nad → Check
  check_storage nc [] = ok tt
  check_storage nc (sn ∷ sns) = do
    sn_conf ← decode_nad_config env sn
    overlapping ← is_vlan_overlapping nc sn_conf
    refuse_if overlapping reserved_vlan

  -- `checkVlanOverlapWithSN`
  unfoldable pub check_vlan_overlap_with_sn : Nad → NetConf → Check
  check_vlan_overlap_with_sn nad nc =
      if is_system_network_nad nad || is_kube_ovn_cni nc
      then ok tt
      else env.list_nads [] (equals exclusive_vlan_storage_network_label value_true ∷ []) >>= λ sns.
          check_storage nc sns

  -- `Validator.Create`
  unfoldable pub create : Nad → Check
  create nad = do
    nc ← decode_nad_config env nad
    check_vlan_overlap_with_sn nad nc
    refuse_if (is_kube_ovn_cni nc && not env.subnet_enabled) kubeovn_disabled
    check_nad_config nc nad
    check_route (get key_network_route nad.annotations)

  -- The part of `Validator.Update` that a changed configuration goes through.
  unfoldable pub update_changed : NetConf → NetConf → Nad → Check
  update_changed old_nc new_nc new_nad = do
    check_vlan_overlap_with_sn new_nad new_nc
    check_nad_types old_nc new_nc
    check_nad_config_bridge_name old_nc new_nc
    check_nad_config new_nc new_nad
    check_vmi new_nad
    check_system_network new_nad

  -- `Validator.Update`
  unfoldable pub update : Nad → Nad → Check
  update old_nad new_nad = if new_nad.deleting then ok tt else do
    new_nc ← decode_nad_config env new_nad
    old_nc ← decode_nad_config env old_nad
    check_route (get key_network_route new_nad.annotations)
    if env.same_conf new_nc old_nc then ok tt else update_changed old_nc new_nc new_nad

  -- The part of `Validator.Delete` for a bridge.
  unfoldable pub delete_bridge : NetConf → Nad → Check
  delete_bridge nc nad = do
    check_vmi nad
    check_vm nad
    check_overlay_vms_using_cluster_network nad (get_vlan_id nc)

  -- `Validator.Delete`
  unfoldable pub delete : Nad → Check
  delete nad = do
    nc ← decode_nad_config env nad
    if is_kube_ovn_cni nc
        then (if not env.subnet_enabled then ok tt else check_subnets_using_nad nad)
        else delete_bridge nc nad
