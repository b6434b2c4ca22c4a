-- ===== src/Agent/VlanConfig/Management.antt =====
-- The VLAN configuration of `mgmt` that an agent makes on its start:
-- pkg/controller/agent/vlanconfig/controller.go.
use network_controller_harve.Common.{
  Option, Bool, true, false, [], ◌∷◌, none, some, Bytes, negsuc, Result, ok, err, Effect, Check,
  if◌then◌else◌, nil_dereference, is_not_found, is_already_exists,
}
use network_controller_harve.Objects.{
  VlanConfig, Uplink, LinkAttrs, BondOptions, mgmt, key_cluster_network_label,
}
use network_controller_harve.Mgmt.{
  MgmtInfo, mgmt_vlan_config_name, get_mgmt_bond_info, build_updated_vlan_config,
}
use network_controller_harve.Env.{Env}
use network_controller_harve.Requests.{Log, Server, send, create_vlan_config, update_vlan_config}
use network_controller_harve.Network.{Netlink}

abbrev pub no_uplink_given : Uplink
no_uplink_given = record { nics = []; link_attrs = none; bond_options = none }

-- The configuration without any field but its name.
abbrev pub empty_vlan_config : Bytes → VlanConfig
empty_vlan_config node_name = record {
  meta = record {
    name = mgmt_vlan_config_name node_name;
    namespace = [];
    labels = none;
    annotations = none;
    deleting = false;
  };
  cluster_network = [];
  uplink = no_uplink_given;
  node_selector = [];
}

-- The configuration that is made of the parameters of the management bond.
abbrev pub mgmt_vlan_config : Bytes → MgmtInfo → VlanConfig
mgmt_vlan_config node_name info = record {
  meta = record {
    name = mgmt_vlan_config_name node_name;
    namespace = [];
    labels = some ((key_cluster_network_label, mgmt) ∷ []);
    annotations = none;
    deleting = false;
  };
  cluster_network = mgmt;
  uplink = record {
    nics = info.slave_names;
    link_attrs = some (record { mtu = info.mtu; tx_q_len = negsuc 0; hardware_addr = none });
    bond_options = some (record { mode = info.bond_mode; miimon = negsuc 0 });
  };
  node_selector = [];
}

-- What is logged of a configuration that was made: the MTU, the mode and the slaves, of which the
-- first two are behind pointers.
abbrev pub logged : Uplink → Check
logged uplink = read uplink.link_attrs uplink.bond_options
  where
    read : Option LinkAttrs → Option BondOptions → Check
    read none options = err nil_dereference
    read (some attrs) none = err nil_dereference
    read (some attrs) (some options) = ok tt

abbrev pub after_create : VlanConfig → Check → Check
after_create vc (ok done) = logged vc.uplink
after_create vc (err e) = if is_already_exists e then ok tt else err e

module _ (env : Env) (nl : Netlink) (server : Server) (node_name : Bytes) where
  -- `createMgmtVlanConfig`, with the reads of its last log line
  unfoldable pub create_mgmt_vlan_config : VlanConfig → Log → Effect Log
  create_mgmt_vlan_config vc log =
      let (next, r) = send server (create_vlan_config vc) log in (next, after_create vc r)

  abbrev pub send_changed : VlanConfig × Bool → Log → Effect Log
  send_changed (vc, true) log = send server (update_vlan_config vc) log
  send_changed (vc, false) log = (log, ok tt)

  abbrev pub update_existing : MgmtInfo → Result VlanConfig → Log → Effect Log
  update_existing info (ok existing) log =
      send_changed (build_updated_vlan_config existing info) log
  update_existing info (err e) log =
      if is_not_found e
      then create_mgmt_vlan_config (mgmt_vlan_config node_name info) log
      else (log, err e)

  -- `createOrUpdateMgmtVlanConfig`
  unfoldable pub create_or_update_with : MgmtInfo → Log → Effect Log
  create_or_update_with info log =
      update_existing info (env.get_vlan_config (mgmt_vlan_config_name node_name)) log

  abbrev pub create_or_update_found : Result MgmtInfo → Log → Effect Log
  create_or_update_found (err e) log = create_mgmt_vlan_config (empty_vlan_config node_name) log
  create_or_update_found (ok info) log = create_or_update_with info log

  -- `CreateOrUpdateMgmtVlanConfig`
  unfoldable pub create_or_update_mgmt : nl.State → Log → Effect Log
  create_or_update_mgmt s log = create_or_update_found (get_mgmt_bond_info nl s) log

  abbrev pub unless_disabled : Check → nl.State → Log → Effect Log
  unless_disabled (err e) s log = (log, err e)
  unless_disabled (ok done) s log = create_or_update_mgmt s log

  -- `initialize`, with the answer of `DisableBridgeNF`, which writes a parameter of the kernel
  unfoldable pub initialize : Check → nl.State → Log → Effect Log
  initialize disabled s log = unless_disabled disabled s log
