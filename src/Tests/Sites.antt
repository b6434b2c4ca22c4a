-- ===== src/Tests/Sites.antt =====
-- A host network on a node, and the theorems about it.
use network_controller_harve.Common.{
  ◌≡◌, refl, true, List, [], ◌∷◌, none, some, Bytes, codes, bytes_beq, ok, err, link_not_found,
  no_address, Effect,
}
use network_controller_harve.Objects.{HostNetworkConfig, Node, is_false, is_true, key_underlay_intf}
use network_controller_harve.Env.{Env}
use network_controller_harve.Requests.{
  Request, Log, Server, patch_node_status, enqueue_cluster_network,
}
use network_controller_harve.Bridge.{br_vlan_device, generate_bridge_name, generate_bond_name}
use network_controller_harve.Network.Areas.{get_vlan, fetch_bridge, get_bridge_link}
use network_controller_harve.Network.SubInterfaces.{sub_interface}
use network_controller_harve.Agent.HostNetworkConfig.{
  on_change, on_remove, manager_of, match_node, interface_exists,
}
use network_controller_harve.Agent.HostNetworkConfig.Leases.{Dhcp, LeaseManager}
use network_controller_harve.Agent.HostNetworkConfig.Removed.{on_remove-gone}
use network_controller_harve.Tests.{meta_of}
use network_controller_harve.Tests.Hosts.{h1}
use network_controller_harve.Tests.Nodes.{
  State, node, bridge, bond, net_vlan, caches, up, by_name, without, less, link_laws,
}

abbrev dhcp : Dhcp State
dhcp = record {
  Client = Bytes;
  Lease = Bytes;
  new_client = λ name s. ok name;
  request = λ client s. (s, ok (codes "lease"));
  renew = λ client lease s. (s, ok lease);
  release = λ client lease s. s;
  subnet_mask = λ lease. some (255 ∷ 255 ∷ 255 ∷ 0 ∷ []);
  mask_size = λ mask. (24, 32);
  your_ip = λ lease. codes "10.0.0.7";
}

abbrev accepting : Server
accepting request = ok tt

abbrev here : Node
here = record { meta = meta_of (codes "n5") [] ((key_underlay_intf, codes "mgmt-br") ∷ []) }

abbrev on_site : Env
on_site = record caches { get_node = λ name. ok here }

-- A static host network without an address for the node.
abbrev static : HostNetworkConfig
static = record h1 { vlan_id = 7; mode = codes "static" }

abbrev Managers : Type 0
Managers = List (Bytes × LeaseManager node dhcp)

abbrev run : State → Effect ((State × Managers) × Log)
run s = on_change on_site node dhcp accepting (codes "n5") (codes "mgmt-br") static ((s, []), [])

abbrev unready : Request
unready =
    patch_node_status (codes "h1") (codes "n5") (record {
      cluster_network = codes "net";
      vlan_id = 7;
      mode = codes "static";
      ready = is_false;
    })

abbrev with_device : State
with_device = (sub_interface bridge 7 ∷ bridge ∷ bond ∷ [], 7 ∷ 40 ∷ 50 ∷ [])

-- The first run makes the sub-interface, and fails for want of an address.
first :
    run up
    ≡ (((with_device, []), enqueue_cluster_network (codes "net") ∷ unready ∷ []), err no_address)
unfolding on_change match_node interface_exists get_vlan fetch_bridge by_name bytes_beq
    generate_bridge_name generate_bond_name get_bridge_link br_vlan_device
    network_controller_harve.Network.Ports.add_bridge_vlan
    network_controller_harve.Network.SubInterfaces.create_sub_interface
    network_controller_harve.Network.SubInterfaces.get_sub_interface
    network_controller_harve.Network.SubInterfaces.add_sub_interface
    network_controller_harve.Agent.HostNetworkConfig.Status.wake_up_cluster_network
    network_controller_harve.Agent.HostNetworkConfig.Status.update_ready_status
    network_controller_harve.Agent.HostNetworkConfig.Status.set_per_node_status
    network_controller_harve.Agent.HostNetworkConfig.find_matching_ip
    network_controller_harve.Agent.HostNetworkConfig.manager_of
    network_controller_harve.Agent.HostNetworkConfig.set_address
    network_controller_harve.Agent.HostNetworkConfig.stop_lease_manager
    network_controller_harve.Webhook.HostNetworkConfig.ip_of network_controller_harve.Common.itoa_ℕ
    network_controller_harve.Agent.HostNetworkConfig.Status.add_node_annotation
first = refl

abbrev told : Log
told =
    patch_node_status (codes "h1") (codes "n5") (record {
      cluster_network = codes "net";
      vlan_id = 7;
      mode = codes "static";
      ready = is_true;
    })
    ∷ []

-- The next run finds the sub-interface, and reports that the configuration is in effect, although
-- the node has no address still.
second : run with_device ≡ (((with_device, []), told), ok tt)
unfolding on_change match_node interface_exists get_vlan fetch_bridge by_name bytes_beq
    br_vlan_device generate_bridge_name generate_bond_name get_bridge_link
    network_controller_harve.Common.itoa_ℕ
    network_controller_harve.Agent.HostNetworkConfig.Status.add_node_annotation
    network_controller_harve.Common.lookup
    network_controller_harve.Agent.HostNetworkConfig.Status.set_per_node_status
second = refl

found : get_vlan node (codes "net") with_device ≡ ok net_vlan
unfolding get_vlan fetch_bridge by_name bytes_beq generate_bridge_name generate_bond_name
    br_vlan_device
found = refl

linked : get_bridge_link node (codes "net") with_device ≡ ok bridge
unfolding get_bridge_link by_name bytes_beq generate_bridge_name br_vlan_device
linked = refl

abbrev cleaned : State
cleaned = (bridge ∷ bond ∷ [], 40 ∷ 50 ∷ [])

removed :
    on_remove on_site node dhcp accepting
      (codes "n5")
      (codes "mgmt-br")
      static
      ((with_device, []), [])
    ≡ (((cleaned, []), enqueue_cluster_network (codes "net") ∷ []), ok tt)
unfolding on_remove network_controller_harve.Agent.HostNetworkConfig.remove_interface get_vlan
    fetch_bridge by_name bytes_beq br_vlan_device generate_bridge_name generate_bond_name
    get_bridge_link network_controller_harve.Network.Ports.del_bridge_vlan
    network_controller_harve.Network.SubInterfaces.del_sub_interface
    network_controller_harve.Agent.HostNetworkConfig.stop_lease_manager manager_of
    network_controller_harve.Common.itoa_ℕ
    network_controller_harve.Agent.HostNetworkConfig.Status.wake_up_cluster_network without less
removed = refl

on_remove-gone_example :
    (by_name (br_vlan_device (codes "net-br") 7) (bridge ∷ bond ∷ []) ≡ err link_not_found)
    × (manager_of {M = LeaseManager node dhcp} (br_vlan_device (codes "net-br") 7) [] ≡ none)
on_remove-gone_example =
    on_remove-gone node link_laws on_site dhcp accepting (codes "n5") (codes "mgmt-br") static
      net_vlan bridge with_device cleaned [] [] [] (enqueue_cluster_network (codes "net") ∷ [])
      found linked removed
