-- ===== src/Agent/VlanConfig/Links.antt =====
-- The bond of a VLAN configuration and the bridge above it: `setUplink`, and the first half of
-- `setupVLAN`, of pkg/controller/agent/vlanconfig/controller.go.
use network_controller_harve.Common.{
  false, List, [], ◌++◌, Option, none, some, Bytes, ◌!=◌, bytes_eq, int_eq, ℤ, pos, negsuc, Result,
  ok, err, Effect, and_then, if◌then◌else◌,
}
use network_controller_harve.Objects.{VlanConfig, Uplink, LinkAttrs, BondOptions}
use network_controller_harve.Bridge.{bond_suffix}
use network_controller_harve.Network.{Netlink, Link, BondAttrs, OperState, kind_bond}
use network_controller_harve.Network.Bonds.{
  fetch_bond, ensure_bond, ensure_with, get_slaves, default_value_miimon,
}
use network_controller_harve.Network.Areas.{setup}

module _ (nl : Netlink) where
  -- The attributes of `setUplink`; a length of -1 keeps that of the link.
  abbrev pub mtu_given : Option LinkAttrs → ℤ
  mtu_given none = pos 0
  mtu_given (some attrs) = attrs.mtu

  abbrev pub tx_q_len_given : Option LinkAttrs → ℤ
  tx_q_len_given none = negsuc 0
  tx_q_len_given (some attrs) = attrs.tx_q_len

  abbrev pub hardware_addr_given : Option LinkAttrs → Bytes
  hardware_addr_given none = []
  hardware_addr_given (some attrs) = addr_in attrs.hardware_addr
    where
      addr_in : Option Bytes → Bytes
      addr_in none = []
      addr_in (some addr) = addr

  abbrev pub mode_given : Option BondOptions → ℤ
  mode_given none = pos 1
  mode_given (some options) =
      if options.mode != [] then nl.string_to_bond_mode options.mode else pos 1

  abbrev pub miimon_given : Option BondOptions → ℤ
  miimon_given none = default_value_miimon
  miimon_given (some options) =
      if options.miimon != negsuc 0 then options.miimon else default_value_miimon

  abbrev pub bond_attrs : Uplink → BondAttrs
  bond_attrs uplink = record {
    mode = mode_given uplink.bond_options;
    miimon = miimon_given uplink.bond_options;
  }

  abbrev pub bond_link : Bytes → Uplink → Link
  bond_link cn_name uplink = record {
    name = cn_name ++ bond_suffix;
    index = 0;
    master_index = 0;
    parent_index = 0;
    kind = kind_bond;
    mtu = mtu_given uplink.link_attrs;
    tx_q_len = tx_q_len_given uplink.link_attrs;
    hardware_addr = hardware_addr_given uplink.link_attrs;
    oper_state = OperState.oper_other;
    flag_up = false;
    promisc = 0;
    vlan_filtering = none;
    bond = some (bond_attrs uplink);
    vlan_id = none;
  }

  abbrev pub setup_fetched : Bytes → List Bytes → Result Link → nl.State → Effect nl.State
  setup_fetched cn_name nics (err e) s = (s, err e)
  setup_fetched cn_name nics (ok l) s =
      and_then (ensure_with nl l nics (get_slaves nl l.index s) s) (λ t. setup nl cn_name l t)

  -- `setUplink`, and `Vlan.Setup` with the bond that its `ensureBond` fetched
  unfoldable pub setup_links : VlanConfig → nl.State → Effect nl.State
  setup_links vc s =
      let link = bond_link vc.cluster_network vc.uplink in
      and_then (ensure_bond nl link (bond_attrs vc.uplink) s)
        (λ t. setup_fetched vc.cluster_network vc.uplink.nics (fetch_bond nl link.name t) t)
