-- ===== src/Mgmt.antt =====
-- The management network of a node: pkg/utils/mgmt.go and bondInterface.go.
use network_controller_harve.Common.{
  Bool, not, ◌||◌, ◌&&◌, List, [], ◌++◌, Option, none, some, Bytes, codes, ◌==◌, ◌!=◌, bytes_eq,
  int_eq, nat_eq, ℤ, pos, negsuc, any, all, keep, map, ◌>>=◌, length, Result, ok, err,
  if◌then◌else◌, not_a_bond_device,
}
use network_controller_harve.Objects.{VlanConfig, LinkAttrs, BondOptions, mgmt}
use network_controller_harve.Bridge.{bond_suffix}
use network_controller_harve.Network.{Netlink, Link, BondAttrs}

-- `GetMgmtVlanConfigName`
abbrev pub mgmt_vlan_config_name : Bytes → Bytes
mgmt_vlan_config_name node_name = codes "mgmt-vlanconfig-" ++ node_name

-- `MgmtBondInterfaceInfo`
pub record MgmtInfo : Type 0 where
  pub mtu : ℤ
  pub bond_mode : Bytes
  pub slave_names : List Bytes

-- `compareStringSlices`
unfoldable pub compare_string_slices : List Bytes → List Bytes → Bool
compare_string_slices a b = length a == length b && all (λ v. any (λ w. w == v) a) b

abbrev pub or_default_attrs : Option LinkAttrs → LinkAttrs
or_default_attrs none = record { mtu = pos 0; tx_q_len = negsuc 0; hardware_addr = none }
or_default_attrs (some attrs) = attrs

abbrev pub or_default_options : Option BondOptions → BondOptions
or_default_options none = record { mode = []; miimon = negsuc 0 }
or_default_options (some options) = options

-- `BuildUpdatedVlanConfig`: the configuration as it is left, and whether the code says that it has
-- changed.
unfoldable pub build_updated_vlan_config : VlanConfig → MgmtInfo → VlanConfig × Bool
build_updated_vlan_config vc info =
    let attrs = or_default_attrs vc.uplink.link_attrs in
    let options = or_default_options vc.uplink.bond_options in
    let same_nics = compare_string_slices vc.uplink.nics info.slave_names in
    (
      record vc {
        uplink = record {
          nics = if same_nics then vc.uplink.nics else info.slave_names;
          link_attrs = some (record attrs { mtu = info.mtu });
          bond_options = some (record options { mode = info.bond_mode });
        };
      },
      attrs.mtu != info.mtu || options.mode != info.bond_mode || not same_nics,
    )

module _ (nl : Netlink) where
  abbrev pub require_bond : Option BondAttrs → Result BondAttrs
  require_bond none = err not_a_bond_device
  require_bond (some bond) = ok bond

  -- `GetMgmtBondInfo`
  unfoldable pub get_mgmt_bond_info : nl.State → Result MgmtInfo
  get_mgmt_bond_info s = do
    l ← nl.link_by_name (mgmt ++ bond_suffix) s
    bond ← require_bond l.bond
    links ← nl.link_list s
    ok (record {
      mtu = l.mtu;
      bond_mode = nl.bond_mode_text bond.mode;
      slave_names = map (λ (x : Link). x.name) (keep (λ x. x.master_index == l.index) links);
    })
