-- ===== src/Tests/Uplinks.antt =====
-- The removal of a cluster network from a node, and the theorem at it.
use network_controller_harve.Common.{
  ◌≡◌, refl, true, false, [], ◌∷◌, none, some, codes, bytes_eq, bytes_beq, nat_eq, if◌then◌else◌,
  ok, err, link_not_found,
}
use network_controller_harve.Env.{Env}
use network_controller_harve.Network.Areas.{fetch_bridge, get_vlan, teardown}
use network_controller_harve.Bridge.{generate_bridge_name, generate_bond_name}
use network_controller_harve.Objects.{Node, VlanStatus, is_true}
use network_controller_harve.Requests.{Server, update_node, delete_vlan_status, IsIn}
use network_controller_harve.Agent.VlanConfig.{remove_vlan}
use network_controller_harve.Agent.VlanConfig.Removed.{IsCleared, remove_vlan-IsCleared}
use network_controller_harve.Tests.Nodes.{node, link_laws, makes_none, up, caches, by_name, without}

abbrev accepting : Server
accepting request = ok tt

abbrev labelled_node : Node
labelled_node = record {
  meta = record {
    name = codes "node1";
    namespace = [];
    labels = some (("net-label", codes "true") ∷ []);
    annotations = none;
    deleting = false;
  };
}

abbrev one_node : Env
one_node = record caches { get_node = λ name. ok labelled_node }

abbrev net_status : VlanStatus
net_status = record {
  meta = record {
    name = codes "net-node1";
    namespace = [];
    labels = none;
    annotations = none;
    deleting = false;
  };
  cluster_network = codes "net";
  vlan_config = codes "net-config";
  node = codes "node1";
  ready = is_true;
}

abbrev forgotten : Node
forgotten = record labelled_node { meta = record labelled_node.meta { labels = some [] } }

removed :
    remove_vlan one_node node accepting (codes "node1") (λ name. "net-label") net_status (up, [])
    ≡ (
      (([], 40 ∷ 50 ∷ []), update_node forgotten ∷ delete_vlan_status (codes "net-node1") ∷ []),
      ok tt,
    )
unfolding remove_vlan bytes_beq get_vlan fetch_bridge by_name generate_bridge_name
    generate_bond_name teardown without network_controller_harve.Agent.VlanConfig.remove_node_label
    network_controller_harve.Agent.VlanConfig.delete_status
    network_controller_harve.Agent.VlanConfig.reconcile_host_network
    network_controller_harve.Agent.VlanConfig.enqueue_on network_controller_harve.Common.lookup
    network_controller_harve.Common.remove network_controller_harve.Network.Ports.set_no_master
    network_controller_harve.Network.Bonds.remove_link
    network_controller_harve.Network.Bonds.remove_bond
    network_controller_harve.Network.Bonds.get_slaves network_controller_harve.Network.Bonds.recover
    network_controller_harve.Network.Bonds.slaves_of network_controller_harve.Network.Bonds.retry
    network_controller_harve.Network.Bonds.retry_on_kernel_conflict
    network_controller_harve.Network.Bonds.set_link_up network_controller_harve.Requests.each
removed = refl

remove_vlan-IsCleared_example :
    IsCleared node (codes "net") up ([], 40 ∷ 50 ∷ [])
    × IsIn
        (delete_vlan_status (codes "net-node1"))
        (update_node forgotten ∷ delete_vlan_status (codes "net-node1") ∷ [])
    × (accepting (delete_vlan_status (codes "net-node1")) ≡ ok tt)
remove_vlan-IsCleared_example =
    remove_vlan-IsCleared one_node node link_laws makes_none accepting (codes "node1")
      (λ name. "net-label") net_status up ([], 40 ∷ 50 ∷ []) []
      (update_node forgotten ∷ delete_vlan_status (codes "net-node1") ∷ []) removed
