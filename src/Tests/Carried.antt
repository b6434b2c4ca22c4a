-- ===== src/Tests/Carried.antt =====
-- A node with a host network's sub-interface, and the theorems about it.
use network_controller_harve.Common.{
  ◌≡◌, refl, true, [], ◌∷◌, some, codes, bytes_beq, ok, arith, inl, inr,
}
use network_controller_harve.Vlan.{VlanIdSet, new_vlan_id_set}
use network_controller_harve.Network.Areas.{get_vlan, fetch_bridge}
use network_controller_harve.Network.Ports.{to_vlan_id_set}
use network_controller_harve.Bridge.{
  generate_bridge_name, generate_bond_name, vlan_device, device_prefix,
}
use network_controller_harve.Agent.ClusterNetwork.{wanted, on_change}
use network_controller_harve.Agent.ClusterNetwork.Carried.{on_change-carries}
use network_controller_harve.Tests.{net}
use network_controller_harve.Tests.Nodes.{
  State, node, bridge, bond, net_vlan, caches, port_laws, works, by_name, user_link, value_of,
  listed_value,
}

abbrev with_sub : State
with_sub = (bridge ∷ bond ∷ user_link ∷ [], 40 ∷ 50 ∷ [])

found : get_vlan node (codes "net") with_sub ≡ ok net_vlan
unfolding get_vlan fetch_bridge by_name bytes_beq generate_bridge_name generate_bond_name
found = refl

abbrev wants : VlanIdSet
wants = value_of (wanted caches node (codes "net") with_sub)

abbrev has : VlanIdSet
has = listed_value (to_vlan_id_set node bond with_sub)

needs_eq : wanted caches node (codes "net") with_sub ≡ ok wants
unfolding wanted network_controller_harve.Nads.vlan_id_set_of_cluster_network
    network_controller_harve.Nads.list_nads_on_cluster_network
    network_controller_harve.Nads.new_from_nad_list network_controller_harve.Nads.add_nads
    network_controller_harve.Common.lookup bytes_beq network_controller_harve.Nads.add_nad
    network_controller_harve.Nads.decode_nad_config network_controller_harve.NetConf.is_bridge_cni
    network_controller_harve.NetConf.dump_vlan_id_set
    network_controller_harve.Vlan.new_from_single_vid network_controller_harve.Vlan.append
    new_vlan_id_set network_controller_harve.Network.Ports.get_manual_vlans
needs_eq = refl

has_eq : to_vlan_id_set node bond with_sub ≡ ok (some has)
unfolding to_vlan_id_set network_controller_harve.Network.Ports.set_vids
    network_controller_harve.Vlan.set_uint16_vid
has_eq = refl

named : user_link.name ≡ vlan_device (codes "net") 7
unfolding vlan_device device_prefix network_controller_harve.Common.itoa_ℕ
named = refl

on_change-carries_example : port_laws.port (on_change caches node net with_sub).0 7 ≡ true
on_change-carries_example =
    on_change-carries caches node net net_vlan bond with_sub wants has
      (bridge ∷ bond ∷ user_link ∷ []) 7 port_laws works refl found refl needs_eq has_eq
      ((λ e. omega (arith, e)), ((λ e. omega (arith, e)), ((λ e. omega (arith, e)), tt)))
      (omega arith) (omega arith) refl (inr (inr (inl named)))
