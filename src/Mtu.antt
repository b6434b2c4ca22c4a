-- ===== src/Mtu.antt =====
-- MTU values of uplinks, annotations and networks: pkg/utils/mtu.go and consts.go.
pub mod Laws
use network_controller_harve.Common.{
  ℕ, Bool, Option, none, some, ◌||◌, ◌&&◌, not, if◌then◌else◌, leb_ℤ, ◌==◌, int_eq, ℤ, pos, Bytes,
  atoi, Result, ok, err, not_an_integer, mtu_out_of_range,
}
use network_controller_harve.Objects.{VlanConfig, Uplink, LinkAttrs}

abbrev pub default_mtu : ℤ
default_mtu = pos 1500

abbrev pub max_mtu : ℤ
max_mtu = pos 9000

abbrev pub min_mtu : ℤ
min_mtu = pos 576

-- `IsValidMTU`
unfoldable pub is_valid_mtu : ℤ → Bool
is_valid_mtu mtu = mtu == pos 0 || (leb_ℤ min_mtu mtu && leb_ℤ mtu max_mtu)

-- `IsDefaultMTU`
unfoldable pub is_default_mtu : ℤ → Bool
is_default_mtu mtu = mtu == default_mtu

-- `AreEqualMTUs`
unfoldable pub are_equal_mtus : ℤ → ℤ → Bool
are_equal_mtus a b = a == b || (a == pos 0 && b == default_mtu || a == default_mtu && b == pos 0)

-- What `GetMTUFromString` does with the integer that `Atoi` gives.
abbrev pub checked_mtu : Bytes → Option ℤ → Result ℤ
checked_mtu s none = err (not_an_integer s)
checked_mtu s (some mtu) = if not (is_valid_mtu mtu) then err mtu_out_of_range else ok mtu

-- `GetMTUFromString`
unfoldable pub get_mtu_from_string : Bytes → Result ℤ
get_mtu_from_string s = checked_mtu s (atoi s)

abbrev pub mtu_of_attrs : Option LinkAttrs → ℤ
mtu_of_attrs none = pos 0
mtu_of_attrs (some attrs) = attrs.mtu

-- `GetMTUFromVlanConfig`; its callers never give nil.
unfoldable pub get_mtu_from_vlan_config : VlanConfig → ℤ
get_mtu_from_vlan_config vc = mtu_of_attrs vc.uplink.link_attrs

-- `MTUDefaultTo`
unfoldable pub mtu_default_to : ℤ → ℤ
mtu_default_to mtu = if mtu == pos 0 then default_mtu else mtu
