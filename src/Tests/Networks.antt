-- ===== src/Tests/Networks.antt =====
-- Names, MTUs and configurations of networks: the theorems at the objects of the tests.
use network_controller_harve.Common.{
  ℕ, ◌≡◌, refl, ◌↔◌, false, [], ◌∷◌, some, Bytes, codes, nat_eq, int_eq, bytes_eq, bytes_beq, arith,
  lookup, ok, get,
}
use network_controller_harve.Objects.{Nad, Layer3Conf, key_network_route}
use network_controller_harve.Vlan.{VlanIdSet}
use network_controller_harve.Vlan.Count.{IsWell}
use network_controller_harve.Vlan.Set.{holds}
use network_controller_harve.Bridge.Names.{get_bridge_name_prefix-eq-ok}
use network_controller_harve.NetConf.{
  is_vlan_config_valid, is_valid, dump_vlan_id_set, l2_vlan_network, get_cluster_network_name,
  get_network_type, is_kube_ovn_cni, is_bridge_cni,
}
use network_controller_harve.NetConf.Valid.{IsVlanConfig, is_vlan_config_valid_iff}
use network_controller_harve.NetConf.Dump.{carries, dump_vlan_id_set-carries}
use network_controller_harve.Nads.{
  decode_nad_config, get_nad_name_from_provider, get_provider_from_nad,
}
use network_controller_harve.Nads.Provider.{get_nad_name_from_provider-get_provider_from_nad}
use network_controller_harve.Layer3.{auto}
use network_controller_harve.Tests.{
  env_of, tagged, trunked, with_nil, tagged_nad, trunk_nad, encode_route,
}

is_vlan_config_valid_iff_example : (is_vlan_config_valid trunked ≡ ok tt) ↔ IsVlanConfig trunked
is_vlan_config_valid_iff_example = is_vlan_config_valid_iff trunked

trunked_valid : is_vlan_config_valid trunked ≡ ok tt
unfolding is_vlan_config_valid is_valid
trunked_valid = refl

pub tagged_valid : is_vlan_config_valid tagged ≡ ok tt
unfolding is_vlan_config_valid is_valid
tagged_valid = refl

with_nil_valid : is_vlan_config_valid with_nil ≡ ok tt
unfolding is_vlan_config_valid is_valid
with_nil_valid = refl

dump_vlan_id_set-carries_example :
    (t : VlanIdSet) × (dump_vlan_id_set tagged ≡ ok t)
    × IsWell t
    × ((j : ℕ) → holds t j ≡ carries tagged j)
dump_vlan_id_set-carries_example = dump_vlan_id_set-carries tagged tagged_valid tt

tagged_name : get_cluster_network_name tagged ≡ ok (codes "net")
unfolding get_cluster_network_name is_kube_ovn_cni is_bridge_cni bytes_beq
tagged_name =
    (get_bridge_name_prefix-eq-ok (codes "net-br") (codes "net")).1 (refl, omega arith, omega arith)

tagged_type : get_network_type tagged ≡ ok l2_vlan_network
unfolding get_network_type is_kube_ovn_cni is_bridge_cni bytes_beq
tagged_type = refl

pub decoded_trunk : decode_nad_config (env_of [] []) trunk_nad ≡ ok trunked
unfolding decode_nad_config bytes_beq
decoded_trunk = refl

get_nad_name_from_provider-get_provider_from_nad_example :
    (provider : Bytes) × (get_provider_from_nad (codes "n1") (codes "ns") ≡ ok provider)
    × (get_nad_name_from_provider provider ≡ ok (codes "n1", codes "ns"))
get_nad_name_from_provider-get_provider_from_nad_example =
    get_nad_name_from_provider-get_provider_from_nad (codes "n1") (codes "ns") (λ e. cc) (λ e. cc)
      ((λ e. absurd (omega arith)), ((λ e. absurd (omega arith)), tt))
      ((λ e. absurd (omega arith)), ((λ e. absurd (omega arith)), tt))

abbrev route : Layer3Conf
route = record {
  mode = auto;
  cidr = [];
  gateway = [];
  server_ip_addr = [];
  connectivity = [];
  outdated = false;
}

abbrev with_route : Nad
with_route = record tagged_nad {
  meta = record tagged_nad.meta {
    annotations = some ((key_network_route, encode_route route) ∷ []);
  };
}

route_text : get key_network_route with_route.annotations ≡ encode_route route
unfolding lookup
route_text = refl
