-- ===== src/Objects.antt =====
-- The Kubernetes objects that the program reads and writes, with the fields that it uses:
-- pkg/apis/network.harvesterhci.io/v1beta1, and of the other objects what the code reads.
-- Constants of pkg/utils/labels.go, consts.go and mgmt.go.
use network_controller_harve.Common.{ℕ, String, Bool, Option, List, ℤ, Bytes, codes, GoMap, Dict}

abbrev pub key_vlan_label : String
key_vlan_label = "network.harvesterhci.io/vlan-id"

abbrev pub key_cluster_network_label : String
key_cluster_network_label = "network.harvesterhci.io/clusternetwork"

abbrev pub key_network_type : String
key_network_type = "network.harvesterhci.io/type"

abbrev pub key_network_ready : String
key_network_ready = "network.harvesterhci.io/ready"

abbrev pub key_network_route : String
key_network_route = "network.harvesterhci.io/route"

abbrev pub key_mtu_source_vlan_config : String
key_mtu_source_vlan_config = "network.harvesterhci.io/mtu-source-vc"

abbrev pub key_uplink_mtu : String
key_uplink_mtu = "network.harvesterhci.io/uplink-mtu"

abbrev pub key_matched_nodes : String
key_matched_nodes = "network.harvesterhci.io/matched-nodes"

abbrev pub key_vlan_id_set_str : String
key_vlan_id_set_str = "network.harvesterhci.io/vlan-id-set-str"

abbrev pub key_vlan_id_set_str_hash : String
key_vlan_id_set_str_hash = "network.harvesterhci.io/vlan-id-set-str-hash"

abbrev pub storage_network_annotation : String
storage_network_annotation = "storage-network.settings.harvesterhci.io"

abbrev pub rwx_network_annotation : String
rwx_network_annotation = "rwx-network.settings.harvesterhci.io"

abbrev pub exclusive_vlan_storage_network_label : String
exclusive_vlan_storage_network_label = "storage-network.settings.harvesterhci.io/exclusivevlan"

abbrev pub storage_network_prefix : Bytes
storage_network_prefix = codes "storagenetwork-"

abbrev pub rwx_network_prefix : Bytes
rwx_network_prefix = codes "rwx-network-"

abbrev pub value_true : Bytes
value_true = codes "true"

abbrev pub value_false : Bytes
value_false = codes "false"

abbrev pub key_vlan_config_label : String
key_vlan_config_label = "network.harvesterhci.io/vlanconfig"

abbrev pub key_node_label : String
key_node_label = "network.harvesterhci.io/node"

abbrev pub witness_node_label_key : String
witness_node_label_key = "node-role.harvesterhci.io/witness"

abbrev pub mgmt_label_key : String
mgmt_label_key = "network.harvesterhci.io/mgmt"

abbrev pub key_underlay_intf : String
key_underlay_intf = "ovn.kubernetes.io/tunnel_interface"

abbrev pub key_vlan_dhcp_server_ip : String
key_vlan_dhcp_server_ip = "network.harvesterhci.io/vlan-dhcp-server-ip"

abbrev pub mgmt : Bytes
mgmt = codes "mgmt"

abbrev pub harvester_system : Bytes
harvester_system = codes "harvester-system"

-- `metav1.ObjectMeta`; `deleting` says that the deletion timestamp is set.
pub record ObjectMeta : Type 0 where
  pub name : Bytes
  pub namespace : Bytes
  pub labels : GoMap
  pub annotations : GoMap
  pub deleting : Bool

-- `NetworkAttachmentDefinition`
pub record Nad : Type 0 where
  pub meta : ObjectMeta
  pub open meta use *
  pub config : Bytes

-- The condition `Ready` of a status: `condition.Cond` reads an absent one as neither.
pub data Ready : Type 0 where
  is_true is_false unset : Ready

-- `LinkAttrs`; a nil hardware address is `none`.
pub record LinkAttrs : Type 0 where
  pub mtu : ℤ
  pub tx_q_len : ℤ
  pub hardware_addr : Option Bytes

-- `BondOptions`
pub record BondOptions : Type 0 where
  pub mode : Bytes
  pub miimon : ℤ

-- `Uplink`
pub record Uplink : Type 0 where
  pub nics : List Bytes
  pub link_attrs : Option LinkAttrs
  pub bond_options : Option BondOptions

-- `VlanConfig`
pub record VlanConfig : Type 0 where
  pub meta : ObjectMeta
  pub open meta use *
  pub cluster_network : Bytes
  pub uplink : Uplink
  pub node_selector : Dict

-- `ClusterNetwork`
pub record ClusterNetwork : Type 0 where
  pub meta : ObjectMeta
  pub open meta use *
  pub ready : Ready

-- `VlanStatus`; the fields of its status.
pub record VlanStatus : Type 0 where
  pub meta : ObjectMeta
  pub open meta use *
  pub cluster_network : Bytes
  pub vlan_config : Bytes
  pub node : Bytes
  pub ready : Ready

-- `VirtualMachineInstance`, and `VirtualMachine` with an empty node name.
pub record Vmi : Type 0 where
  pub meta : ObjectMeta
  pub open meta use *
  pub node_name : Bytes

-- `VlanTrunk`; a nil pointer is `none`.
pub record VlanTrunk : Type 0 where
  pub min_id : Option ℤ
  pub max_id : Option ℤ
  pub id : Option ℤ

-- `NetConf`. Of the embedded CNI configuration the code reads `Type`; the rest is kept as a text.
-- The items of `VlanTrunk` are pointers, which a `null` in the JSON leaves nil.
pub record NetConf : Type 0 where
  pub cni_type : Bytes
  pub cni_rest : Bytes
  pub br_name : Bytes
  pub is_gw : Bool
  pub is_default_gw : Bool
  pub force_address : Bool
  pub ip_masq : Bool
  pub mtu : ℤ
  pub hairpin_mode : Bool
  pub promisc_mode : Bool
  pub vlan : ℤ
  pub provider : Bytes
  pub vlan_trunk : List (Option VlanTrunk)

-- `metav1.LabelSelector`: the labels, and the expressions with their key, operator and values.
pub record LabelSelector : Type 0 where
  pub match_labels : Dict
  pub match_expressions : List (String × Bytes × List Bytes)

-- What the status of a host network configuration holds for one node.
pub record NodeStatus : Type 0 where
  pub cluster_network : Bytes
  pub vlan_id : ℕ
  pub mode : Bytes
  pub ready : Ready

-- `HostNetworkConfig`. The id is a uint16; `host_ips` and `node_status` are maps by node name, of
-- which a nil `node_status` is `none`.
pub record HostNetworkConfig : Type 0 where
  pub meta : ObjectMeta
  pub open meta use *
  pub cluster_network : Bytes
  pub vlan_id : ℕ
  pub underlay : Bool
  pub mode : Bytes
  pub host_ips : List (Bytes × Bytes)
  pub node_selector : Option LabelSelector
  pub ready : Ready
  pub node_status : Option (List (Bytes × NodeStatus))

-- `LinkState`, and `LinkStatus`
pub data LinkState : Type 0 where
  link_up link_down link_unknown : LinkState

pub record LinkStatus : Type 0 where
  pub name : Bytes
  pub index : ℕ
  pub kind : Bytes
  pub mac : Bytes
  pub promiscuous : Bool
  pub state : LinkState
  pub master_index : ℕ

-- `LinkMonitor`: its selector of nodes and its rules, and the links by node name, of which a nil map
-- is `none`.
pub record LinkMonitor : Type 0 where
  pub meta : ObjectMeta
  pub open meta use *
  pub node_selector : Dict
  pub type_rule : Bytes
  pub name_rule : Bytes
  pub link_status : Option (List (Bytes × List LinkStatus))

-- `Node` of Kubernetes
pub record Node : Type 0 where
  pub meta : ObjectMeta
  pub open meta use *

-- A kube-ovn `Subnet`; `in_use` says that its status counts an IPv4 address in use.
pub record Subnet : Type 0 where
  pub meta : ObjectMeta
  pub open meta use *
  pub provider : Bytes
  pub vpc : Bytes
  pub enable_dhcp : Bool
  pub in_use : Bool

-- A `Job` that finds out a route: the annotations of its pods, the image and the DHCP server of its
-- container, the cluster network to which its pods are bound, and whether its restart policy, its
-- service account and its limit of retries are set.
pub record Job : Type 0 where
  pub meta : ObjectMeta
  pub open meta use *
  pub pod_annotations : GoMap
  pub container : Option (Bytes × Bytes)
  pub bound_to : Option Bytes
  pub completed : Bool

-- `Layer3NetworkConf`
pub record Layer3Conf : Type 0 where
  pub mode : Bytes
  pub cidr : Bytes
  pub gateway : Bytes
  pub server_ip_addr : Bytes
  pub connectivity : Bytes
  pub outdated : Bool
