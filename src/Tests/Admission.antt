-- ===== src/Tests/Admission.antt =====
-- Admission: the theorems at the objects and the caches of the tests.
use mathlib.Core.Path.{subst}
use network_controller_harve.Common.{
  ◌⊎◌, sym, ◌∙◌, ℕ, ◌≡◌, refl, ◌↔◌, true, false, ◌&&◌, List, [], ◌∷◌, some, Bytes, codes, any,
  nat_eq, int_eq, bytes_eq, bytes_beq, lookup, ℤ, ok, All, string_eq, atoi, has_suffix, join,
  has_prefix,
}
use network_controller_harve.Objects.{Nad, Vmi, VlanConfig, ClusterNetwork, key_uplink_mtu, mgmt}
use network_controller_harve.Vlan.{VlanIdSet}
use network_controller_harve.Vlan.Count.{IsWell}
use network_controller_harve.Bridge.{get_bridge_name_prefix, is_bridge_name_valid}
use network_controller_harve.Mtu.{
  mtu_default_to, are_equal_mtus, is_valid_mtu, get_mtu_from_string, get_mtu_from_vlan_config,
}
use network_controller_harve.NetConf.{
  is_vlan_config_valid, is_valid, is_kube_ovn_cni, is_vlan_overlapping, has_trunk_vlan_id,
  has_trunk_item, get_vlan_id,
}
use network_controller_harve.NetConf.Dump.{carries, NoNil}
use network_controller_harve.Env.{Env}
use network_controller_harve.Nads.{
  decode_nad_config, new_from_nad_list, list_nads_on_cluster_network, first_active_system_nad,
  get_nad_label, is_system_network_nad,
}
use network_controller_harve.Nads.VidSet.{nad_carries}
use network_controller_harve.Vmis.{
  name_list, indexed, who_use_nad, who_use_nads, vmi_names_who_use_nad, vmi_names_who_use_nads,
}
use network_controller_harve.Vmis.Using.{NoneOnNodes}
use network_controller_harve.Layer3.{new_layer3}
use network_controller_harve.Webhook.ClusterNetwork.{annotated_mtu}
use network_controller_harve.Webhook.ClusterNetwork.Admitted.{
  IsUnused, update-mgmt_sound, AgreesOn, vlan_configs_of, update_iff,
}
use network_controller_harve.Webhook.VlanConfig.{
  get_match_nodes, check_vmi, check_overlaps, overlap_loop, validate_mtu, get_affected_nodes,
  check_network_nads_attached, is_user_request_for_mgmt, is_cluster_network_label_valid,
  status_name, create, update, delete,
}
use network_controller_harve.Webhook.VlanConfig.Admitted.{IsCreatable, create_iff}
use network_controller_harve.Webhook.VlanConfig.Machines.{
  IsVacated, update_strands_no_machine, delete_strands_no_machine,
}
use network_controller_harve.Webhook.Nad.{check_bridge_config, target_mtu}
use network_controller_harve.Webhook.Nad.Admitted.{
  HasNoNil, IsKept, new_from_nad_list-create, update_sound,
}
use network_controller_harve.Webhook.Nad.Storage.{create-storage}
use network_controller_harve.Tests.{
  env_of, tagged, trunked, storage, tagged_nad, trunk_nad, storage_nad, vc1, vc1_smaller, vc2, net,
  bare,
}
use network_controller_harve.Tests.Laws.{laws_of}
use network_controller_harve.Webhook.ClusterNetwork as Cn
use network_controller_harve.Webhook.Nad as Attachment

abbrev caches : Env
caches = env_of (tagged_nad ∷ trunk_nad ∷ []) (vc1 ∷ vc2 ∷ [])

update_iff_example : (Cn.update caches net net ≡ ok tt) ↔ (
    (mtu : ℤ) × (vcs : List VlanConfig) × (annotated_mtu net ≡ ok mtu)
    × (vlan_configs_of caches net.name ≡ ok vcs)
    × All (AgreesOn mtu) vcs)
update_iff_example = update_iff caches net net (λ e. cc) refl

abbrev old_mgmt : ClusterNetwork
old_mgmt = bare mgmt

abbrev new_mgmt : ClusterNetwork
new_mgmt = record old_mgmt {
  meta = record old_mgmt.meta { annotations = some ((key_uplink_mtu, codes "9000") ∷ []) };
}

mgmt_updated : Cn.update caches old_mgmt new_mgmt ≡ ok tt
unfolding Cn.update Cn.check_mtu_of_updated bytes_beq Cn.check_mtu_of_updated_mgmt annotated_mtu
    lookup get_mtu_from_string atoi is_valid_mtu are_equal_mtus Cn.check_mgmt_unused
    list_nads_on_cluster_network first_active_system_nad vmi_names_who_use_nads who_use_nads
mgmt_updated = refl

update-mgmt_sound_example :
    (old_mtu : ℤ) × (new_mtu : ℤ) × (annotated_mtu old_mgmt ≡ ok old_mtu)
    × (annotated_mtu new_mgmt ≡ ok new_mtu)
    × ((mtu_default_to old_mtu ≡ mtu_default_to new_mtu) ⊎ IsUnused caches new_mgmt.name)
update-mgmt_sound_example =
    update-mgmt_sound caches (laws_of (tagged_nad ∷ trunk_nad ∷ []) (vc1 ∷ vc2 ∷ [])) old_mgmt
      new_mgmt refl refl mgmt_updated

create_iff_example : (create caches (some false) vc1 ≡ ok tt) ↔ IsCreatable caches (some false) vc1
create_iff_example = create_iff caches (some false) vc1

vc1_updated : update caches (some false) vc1 vc1_smaller ≡ ok tt
unfolding update is_user_request_for_mgmt bytes_beq is_cluster_network_label_valid lookup
    validate_mtu is_valid_mtu get_mtu_from_vlan_config are_equal_mtus get_match_nodes check_overlaps
    check_vmi get_affected_nodes list_nads_on_cluster_network vmi_names_who_use_nads who_use_nads
    who_use_nad indexed has_prefix join first_active_system_nad is_system_network_nad name_list
    check_network_nads_attached overlap_loop status_name
vc1_updated = refl

update_strands_no_machine_example :
    (old_nodes : List Bytes) × (new_nodes : List Bytes) × (get_match_nodes caches vc1
      ≡ ok old_nodes)
    × (get_match_nodes caches vc1_smaller ≡ ok new_nodes)
    × ((nads : List Nad)
        → list_nads_on_cluster_network caches vc1.cluster_network ≡ ok nads
        → All
            (λ nad.
              (vmis : List Vmi)
              → indexed caches caches.vmis_by_network nad ≡ ok vmis
              → All
                  (λ vmi.
                    ¬ IsVacated caches
                      (laws_of (tagged_nad ∷ trunk_nad ∷ []) (vc1 ∷ vc2 ∷ []))
                      vc1
                      vc1_smaller
                      old_nodes
                      new_nodes
                      vmi.node_name)
                  vmis)
            nads)
update_strands_no_machine_example =
    update_strands_no_machine caches (laws_of (tagged_nad ∷ trunk_nad ∷ []) (vc1 ∷ vc2 ∷ []))
      (some false) vc1 vc1_smaller refl vc1_updated

abbrev unused : Env
unused = env_of (tagged_nad ∷ []) (vc1 ∷ vc2 ∷ [])

vc1_deleted : delete unused (some false) vc1 ≡ ok tt
unfolding delete is_user_request_for_mgmt bytes_beq get_match_nodes lookup check_vmi
    list_nads_on_cluster_network vmi_names_who_use_nads who_use_nads who_use_nad indexed
    check_network_nads_attached first_active_system_nad is_system_network_nad name_list has_prefix
vc1_deleted = refl

delete_strands_no_machine_example :
    (nodes : List Bytes) × (get_match_nodes unused vc1 ≡ ok nodes)
    × ((nads : List Nad)
        → list_nads_on_cluster_network unused vc1.cluster_network ≡ ok nads
        → All (NoneOnNodes unused nodes) nads)
delete_strands_no_machine_example =
    delete_strands_no_machine unused (laws_of (tagged_nad ∷ []) (vc1 ∷ vc2 ∷ [])) (some false) vc1
      vc1_deleted

-- The cache of networks holds the storage network of VLAN 100.
abbrev stored : Env
stored = env_of (storage_nad ∷ []) (vc1 ∷ vc2 ∷ [])

decoded_trunk : decode_nad_config stored trunk_nad ≡ ok trunked
unfolding decode_nad_config bytes_beq
decoded_trunk = refl

decoded_tagged : decode_nad_config stored tagged_nad ≡ ok tagged
unfolding decode_nad_config bytes_beq
decoded_tagged = refl

decoded_storage : decode_nad_config stored storage_nad ≡ ok storage
unfolding decode_nad_config bytes_beq
decoded_storage = refl

trunk_created : Attachment.create stored trunk_nad ≡ ok tt
unfolding Attachment.create decode_nad_config bytes_beq Attachment.check_vlan_overlap_with_sn
    is_system_network_nad is_kube_ovn_cni lookup is_vlan_overlapping has_trunk_vlan_id
    has_trunk_item get_vlan_id Attachment.check_nad_config check_bridge_config is_vlan_config_valid
    is_valid get_bridge_name_prefix is_bridge_name_valid has_suffix atoi has_prefix new_layer3
    are_equal_mtus get_mtu_from_string is_valid_mtu get_nad_label Attachment.check_route target_mtu
trunk_created = refl

trunk-HasNoNil : HasNoNil stored trunk_nad
trunk-HasNoNil nc e =
    let p : ok trunked ≡ ok nc = sym decoded_trunk ∙ e in
    let q : trunked ≡ nc = cc in subst (λ c. NoNil c.vlan_trunk) q ((λ h. cc), tt)

new_from_nad_list-create_example :
    (t : VlanIdSet) × (new_from_nad_list stored (trunk_nad ∷ []) ≡ ok t)
    × IsWell t
    × (t.is_trunk_mode ≡ true)
    × ((j : ℕ) → t.vid_set j ≡ any (λ nad. nad_carries stored nad j) (trunk_nad ∷ []))
new_from_nad_list-create_example =
    new_from_nad_list-create stored (trunk_nad ∷ []) ((trunk_created, trunk-HasNoNil), tt)

abbrev retagged : Nad
retagged = record tagged_nad { config = codes "trunk" }

decoded_retagged : decode_nad_config stored retagged ≡ ok trunked
unfolding decode_nad_config bytes_beq
decoded_retagged = refl

changed : stored.same_conf trunked tagged ≡ false
unfolding bytes_beq
changed = refl

trunk_updated : Attachment.update stored tagged_nad retagged ≡ ok tt
unfolding Attachment.update Attachment.update_changed Attachment.check_nad_types
    Attachment.check_nad_config_bridge_name Attachment.check_system_network Attachment.check_vmi
    vmi_names_who_use_nad who_use_nad indexed name_list decode_nad_config bytes_beq
    Attachment.check_vlan_overlap_with_sn is_system_network_nad is_kube_ovn_cni lookup
    is_vlan_overlapping has_trunk_vlan_id has_trunk_item get_vlan_id Attachment.check_nad_config
    check_bridge_config is_vlan_config_valid is_valid get_bridge_name_prefix is_bridge_name_valid
    has_suffix atoi has_prefix new_layer3 are_equal_mtus get_mtu_from_string is_valid_mtu
    get_nad_label Attachment.check_route target_mtu
trunk_updated = refl

update_sound_example : IsKept stored tagged trunked retagged
update_sound_example =
    update_sound stored tagged_nad retagged tagged trunked trunk_updated refl decoded_tagged
      decoded_retagged changed

create-storage_example : (carries trunked 100 && carries storage 100) ≡ false
unfolding lookup is_kube_ovn_cni bytes_beq is_system_network_nad
create-storage_example =
    create-storage stored trunk_nad storage_nad [] trunked storage trunk_created decoded_trunk refl
      refl ((λ e. cc), tt) refl decoded_storage refl 100
