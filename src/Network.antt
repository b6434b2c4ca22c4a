-- ===== src/Network.antt =====
-- The links of a node, and netlink: what pkg/network uses of github.com/vishvananda/netlink.
pub mod Ports
pub mod Areas
pub mod Bonds
pub mod SubInterfaces
pub mod Monitor
use network_controller_harve.Common.{
  ℕ, Bool, true, false, List, Option, Bytes, ℤ, Result, Effect, Check, Error, ok, err, link_failure,
  codes,
}

pub data OperState : Type 0 where
  oper_up oper_down oper_other : OperState

-- `netlink.Bond`, beside the attributes of its link
pub record BondAttrs : Type 0 where
  pub mode : ℤ
  pub miimon : ℤ

-- `netlink.Link` with its attributes; `bond` is there if the link is a `netlink.Bond`,
-- and `vlan_id` if it is a `netlink.Vlan`.
pub record Link : Type 0 where
  pub name : Bytes
  pub index : ℕ
  pub master_index : ℕ
  pub parent_index : ℕ
  pub kind : Bytes
  pub mtu : ℤ
  pub tx_q_len : ℤ
  pub hardware_addr : Bytes
  pub oper_state : OperState
  pub flag_up : Bool
  pub promisc : ℕ
  pub vlan_filtering : Option Bool
  pub bond : Option BondAttrs
  pub vlan_id : Option ℕ

abbrev pub kind_bridge : Bytes
kind_bridge = codes "bridge"

abbrev pub kind_bond : Bytes
kind_bond = codes "bond"

abbrev pub kind_vlan : Bytes
kind_vlan = codes "vlan"

abbrev pub kind_macvlan : Bytes
kind_macvlan = codes "macvlan"

-- The flags `self` and `master` of a VLAN filter entry.
pub data Side : Type 0 where
  self master : Side

-- The functions of the package, over the state of the node's links. An operation that fails may
-- have changed the state.
pub record Netlink : Type 1 where
  pub State : Type 0
  pub link_by_name : Bytes → State → Result Link
  pub link_list : State → Result (List Link)
  -- `BridgeVlanList`: the ids of the entries, by the index of the link
  pub bridge_vlan_list : State → Result (ℕ → Option (List ℕ))
  pub bridge_vlan_add : Link → ℕ → Side → State → Effect State
  pub bridge_vlan_del : Link → ℕ → Side → State → Effect State
  pub link_add : Link → State → Effect State
  pub link_del : Link → State → Effect State
  pub link_set_up : Link → State → Effect State
  pub link_set_down : Link → State → Effect State
  pub link_set_master : Link → Link → State → Effect State
  pub link_set_no_master : Link → State → Effect State
  pub link_set_bond_slave : Link → Link → State → Effect State
  pub set_promisc_on : Link → State → Effect State
  pub set_vlan_filtering : Link → State → Effect State
  -- the addresses of a link: `ParseAddr`, `AddrReplace`, `AddrList` and `AddrDel`, and `IP.Equal`
  pub Addr : Type 0
  pub parse_addr : Bytes → Result Addr
  pub same_ip : Addr → Addr → Bool
  pub addr_replace : Link → Addr → State → Effect State
  pub addr_list : Link → State → Result (List Addr)
  pub addr_del : Link → Addr → State → Effect State
  -- the text of a hardware address, and of the mode of a bond
  pub mac_text : Bytes → Bytes
  pub bond_mode_text : ℤ → Bytes
  -- whether the link's encapsulation is that of a loopback device, and `regexp.MatchString`
  pub is_loopback : Link → Bool
  pub match_string : Bytes → Bytes → Result Bool
  -- `StringToBondMode`
  pub string_to_bond_mode : Bytes → ℤ
  -- whether the error of `LinkAdd` says that the link exists
  pub is_exist : Error → Bool
  -- whether the text of an error names a conflict in the kernel
  pub is_conflict : Error → Bool

-- `fmt.Errorf("… %v …", err)`, which hides what the error was.
abbrev pub hidden : Check → Check
hidden (ok done) = ok done
hidden (err e) = err link_failure

abbrev pub is_link_not_found : Error → Bool
is_link_not_found Error.link_not_found = true
is_link_not_found _ = false
