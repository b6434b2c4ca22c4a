-- ===== src/Tests/Removal.antt =====
-- Deletions: the theorems at the objects and the caches of the tests.
use network_controller_harve.Common.{
  ◌≡◌, refl, ◌⊎◌, false, true, List, [], ◌∷◌, codes, none, ok, pos, All, bytes_beq,
}
use network_controller_harve.Objects.{
  HostNetworkConfig, VlanStatus, is_true, key_cluster_network_label,
}
use network_controller_harve.NetConf.{is_kube_ovn_cni, get_vlan_id}
use network_controller_harve.Env.{Env}
use network_controller_harve.Nads.{decode_nad_config, get_nad_label}
use network_controller_harve.Vmis.{
  vmi_names_who_use_nad, vm_names_who_use_nad, who_use_nad, indexed, name_list,
}
use network_controller_harve.Webhook.Nad.{
  delete, delete_bridge, check_vmi, check_vm, check_overlay_vms_using_cluster_network,
}
use network_controller_harve.Webhook.Nad.Removed.{IsNotNeeded, delete_sound}
use network_controller_harve.Tests.Hosts.{hnc_of}
use network_controller_harve.Tests.{env_of, meta_of, tagged, tagged_nad, on_net}

abbrev caches : Env
caches = record (env_of (tagged_nad ∷ []) []) {
  list_host_network_configs = ok (hnc_of (codes "h1") 10 false ∷ hnc_of (codes "h2") 30 true ∷ []);
}

decoded : decode_nad_config caches tagged_nad ≡ ok tagged
unfolding decode_nad_config bytes_beq
decoded = refl

no_overlay : is_kube_ovn_cni tagged ≡ false
unfolding is_kube_ovn_cni bytes_beq
no_overlay = refl

deleted : delete caches tagged_nad ≡ ok tt
unfolding delete decode_nad_config bytes_beq is_kube_ovn_cni delete_bridge check_vmi check_vm
    check_overlay_vms_using_cluster_network vmi_names_who_use_nad vm_names_who_use_nad who_use_nad
    indexed name_list get_vlan_id get_nad_label network_controller_harve.Common.lookup
    network_controller_harve.Webhook.Nad.check_if_vm_exists_for_overlay_nads
    network_controller_harve.Nads.is_overlay_nad
deleted = refl

delete_sound_example :
    (vmi_names_who_use_nad caches tagged_nad false none ≡ ok [])
    × (vm_names_who_use_nad caches tagged_nad ≡ ok [])
    × ((get_vlan_id tagged ≡ pos 0)
        ⊎ ((hncs : List HostNetworkConfig) × (caches.list_host_network_configs ≡ ok hncs)
            × All
                (IsNotNeeded caches
                  (get_nad_label tagged_nad key_cluster_network_label)
                  (get_vlan_id tagged))
                hncs))
delete_sound_example = delete_sound caches tagged_nad tagged deleted decoded no_overlay

abbrev status : VlanStatus
status = record {
  meta = meta_of (codes "net-n1") on_net [];
  cluster_network = codes "net";
  vlan_config = codes "vc1";
  node = codes "n1";
  ready = is_true;
}
