-- ===== src/Webhook/ClusterNetwork.antt =====
-- Admission of cluster networks: pkg/webhook/clusternetwork/validator.go. An operation answers
-- `ok tt` where the code returns nil.
pub mod Admitted
use network_controller_harve.Common.{
  ℕ, Bool, true, false, not, List, [], ◌∷◌, Option, none, some, Bytes, ◌==◌, ◌!=◌, bytes_eq, ltb,
  length, find, ℤ, Result, ok, err, ◌>>=◌, ◌>>◌, refuse_if, for_each, Check, if◌then◌else◌,
  annotation_not_allowed, mgmt_delete, still_vlan_configs, still_nads, still_vmis, still_system_nad,
  mtu_differs,
}
use network_controller_harve.Objects.{
  ClusterNetwork, VlanConfig, Nad, key_uplink_mtu, key_cluster_network_label, mgmt,
}
use network_controller_harve.Bridge.{is_cluster_network_name_valid}
use network_controller_harve.Mtu.{
  default_mtu, get_mtu_from_string, get_mtu_from_vlan_config, are_equal_mtus,
}
use network_controller_harve.Env.{Env, equals}
use network_controller_harve.Nads.{list_nads_on_cluster_network, first_active_system_nad}
use network_controller_harve.Vmis.{vmi_names_who_use_nads}

abbrev pub is_found : Option Bytes → Bool
is_found none = false
is_found (some v) = true

-- `checkMTUOfNewClusterNetwork`
unfoldable pub check_mtu_of_new : ClusterNetwork → Check
check_mtu_of_new cn =
    refuse_if (is_found (find key_uplink_mtu cn.annotations)) annotation_not_allowed

-- `newMtu := DefaultMTU; if mtuStr, ok := …; ok { … }`
abbrev pub mtu_of_annotation : Option Bytes → Result ℤ
mtu_of_annotation none = ok default_mtu
mtu_of_annotation (some s) = get_mtu_from_string s

-- The MTU that the annotation of a cluster network gives it.
unfoldable pub annotated_mtu : ClusterNetwork → Result ℤ
annotated_mtu cn = mtu_of_annotation (find key_uplink_mtu cn.annotations)

-- One round of the loop over the VLAN configurations.
abbrev pub check_mtu_of : ℤ → VlanConfig → Check
check_mtu_of new_mtu vc =
    if vc.deleting
    then ok tt
    else refuse_if (not (are_equal_mtus (get_mtu_from_vlan_config vc) new_mtu)) mtu_differs

-- `if nad := FilterFirstActiveSystemNetworkNad(nads); nad != nil`
abbrev pub refuse_system_nad : Option Nad → Check
refuse_system_nad none = ok tt
refuse_system_nad (some nad) = err still_system_nad

module _ (env : Env) where
  -- `CnValidator.Create`
  unfoldable pub create : ClusterNetwork → Check
  create cn = is_cluster_network_name_valid cn.name >> check_mtu_of_new cn

  -- `checkMTUOfUpdatedClusterNetwork`
  unfoldable pub check_mtu_of_updated : ClusterNetwork → Check
  check_mtu_of_updated new_cn = if new_cn.name == mgmt then ok tt else do
    new_mtu ← annotated_mtu new_cn
    vcs ← env.list_vlan_configs (equals key_cluster_network_label new_cn.name ∷ [])
    for_each (check_mtu_of new_mtu) vcs

  -- The end of `checkMTUOfUpdatedMgmtClusterNetwork`, where the MTU changes.
  unfoldable pub check_mgmt_unused : ClusterNetwork → Check
  check_mgmt_unused new_cn = do
    nads ← list_nads_on_cluster_network env new_cn.name
    refuse_system_nad (first_active_system_nad nads)
    names ← vmi_names_who_use_nads env nads false none
    refuse_if (ltb 0 (length names)) still_vmis

  -- `checkMTUOfUpdatedMgmtClusterNetwork`
  unfoldable pub check_mtu_of_updated_mgmt : ClusterNetwork → ClusterNetwork → Check
  check_mtu_of_updated_mgmt old_cn new_cn = if new_cn.name != mgmt then ok tt else do
    new_mtu ← annotated_mtu new_cn
    old_mtu ← annotated_mtu old_cn
    if are_equal_mtus old_mtu new_mtu then ok tt else check_mgmt_unused new_cn

  -- `CnValidator.Update`
  unfoldable pub update : ClusterNetwork → ClusterNetwork → Check
  update old_cn new_cn =
      if new_cn.deleting
      then ok tt
      else check_mtu_of_updated new_cn >> check_mtu_of_updated_mgmt old_cn new_cn

  -- `CnValidator.Delete`
  unfoldable pub delete : ClusterNetwork → Check
  delete cn = do
    refuse_if (cn.name == mgmt) mgmt_delete
    vcs ← env.list_vlan_configs (equals key_cluster_network_label cn.name ∷ [])
    refuse_if (ltb 0 (length vcs)) still_vlan_configs
    nads ← list_nads_on_cluster_network env cn.name
    refuse_if (ltb 0 (length nads)) still_nads
