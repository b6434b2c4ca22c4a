-- ===== src/Bridge.antt =====
-- The names of the bridges, bonds and VLAN devices of a cluster network: pkg/utils/bridge.go, and
-- pkg/utils/clusternetwork.go.
pub mod Names
use network_controller_harve.Common.{
  ℕ, ◌+◌, ◌-◌, ◌%◌, ◌^◌, Bool, true, false, not, Option, none, some, List, [], ◌∷◌, ◌++◌, ltb, leb,
  length, take, if◌then◌else◌, Bytes, codes, has_suffix, itoa_ℕ, Result, ok, err, ◌>>=◌, ◌>>◌,
  refuse_if, Check, bridge_name_short, bad_interface, has_prefix, bridge_name_long,
  bridge_name_suffix, name_too_long,
}

abbrev pub bridge_suffix : Bytes
bridge_suffix = codes "-br"

abbrev pub bond_suffix : Bytes
bond_suffix = codes "-bo"

abbrev pub len_of_bridge_suffix : ℕ
len_of_bridge_suffix = 3

abbrev pub max_device_name_len : ℕ
max_device_name_len = 15

abbrev pub max_cluster_network_name_len : ℕ
max_cluster_network_name_len = max_device_name_len - len_of_bridge_suffix

-- `IsBridgeNameValid`, `CheckBridgeName`: the Boolean result is that of `err == nil`.
unfoldable pub is_bridge_name_valid : Bytes → Check
is_bridge_name_valid br_name = do
  refuse_if (leb (length br_name) len_of_bridge_suffix) bridge_name_short
  refuse_if (ltb max_device_name_len (length br_name)) bridge_name_long
  refuse_if (not (has_suffix br_name bridge_suffix)) bridge_name_suffix

-- `GetClusterNetworkFromBridgeName`, `GetBridgeNamePrefix`
unfoldable pub get_bridge_name_prefix : Bytes → Result Bytes
get_bridge_name_prefix br_name =
    is_bridge_name_valid br_name >> ok (take (length br_name - len_of_bridge_suffix) br_name)

-- `generateName`
unfoldable pub generate_name : Bytes → Bytes → ℕ → Bytes
generate_name prefix suffix len_of_suffix =
    let max_prefix_len = max_device_name_len - len_of_suffix in
    if ltb max_prefix_len (length prefix)
    then take max_prefix_len prefix ++ suffix
    else prefix ++ suffix

-- `GenerateBridgeName`
unfoldable pub generate_bridge_name : Bytes → Bytes
unfolding generate_name
generate_bridge_name prefix = generate_name prefix bridge_suffix len_of_bridge_suffix

-- `GenerateBondName`
unfoldable pub generate_bond_name : Bytes → Bytes
unfolding generate_name
generate_bond_name prefix = generate_name prefix bond_suffix 3

-- `GetClusterNetworkDevicePrefix`
unfoldable pub device_prefix : Bytes → Bytes
device_prefix cn_name = cn_name ++ bridge_suffix ++ b'.' ∷ []

-- `GetClusterNetworkVlanDevice`; the id is a uint16.
unfoldable pub vlan_device : Bytes → ℕ → Bytes
unfolding device_prefix
vlan_device cn_name vlan_id = device_prefix cn_name ++ itoa_ℕ (vlan_id % 2 ^ 16)

-- `GetClusterNetworkBrVlanDevice`
unfoldable pub br_vlan_device : Bytes → ℕ → Bytes
br_vlan_device br_name vlan_id = br_name ++ b'.' ∷ itoa_ℕ (vlan_id % 2 ^ 16)

-- `IsHostNetworkIntfNameValid`
unfoldable pub is_host_network_intf_name_valid : Bytes → ℕ → Check
is_host_network_intf_name_valid cn vlan_id =
    refuse_if (ltb max_device_name_len (length (vlan_device cn vlan_id))) name_too_long

abbrev pub prefixed : ℕ → Option Bytes → Option Bytes
prefixed c none = none
prefixed c (some s) = some (c ∷ s)

-- `strings.Cut`, of which the text before the separator is used; `none` where it is not found.
unfoldable pub cut : Bytes → Bytes → Option Bytes
cut [] sep = if has_prefix [] sep then some [] else none
cut (c ∷ s) sep =
    let rest = cut s sep in if has_prefix (c ∷ s) sep then some [] else prefixed c rest

abbrev pub found_prefix : Option Bytes → Result Bytes
found_prefix none = err bad_interface
found_prefix (some name) = ok name

-- `GetClusterNetworkName` of pkg/utils/clusternetwork.go
unfoldable pub cluster_network_of_intf : Bytes → Result Bytes
cluster_network_of_intf iface = found_prefix (cut iface bridge_suffix)

-- `IsClusterNetworkNameValid`
unfoldable pub is_cluster_network_name_valid : Bytes → Check
is_cluster_network_name_valid nm =
    refuse_if (ltb max_cluster_network_name_len (length nm)) name_too_long
