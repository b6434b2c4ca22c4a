-- ===== src/Nads.antt =====
-- Network attachment definitions: the functions of pkg/utils/nad.go on the objects.
pub mod VidSet
pub mod Provider
pub mod Mode
use network_controller_harve.Common.{
  Bool, true, false, not, ◌||◌, ◌&&◌, List, [], ◌∷◌, ◌++◌, Option, none, some, Bytes, codes, ◌==◌,
  bytes_eq, pos, nat_eq, GoMap, get, find, is_nil, put, String, has_prefix, split_from, length, ltb,
  Result, ok, err, ◌>>=◌, if◌then◌else◌, bad_json, provider_empty, provider_short, nil_dereference,
}
use network_controller_harve.Objects.{
  Nad, NetConf, key_cluster_network_label, key_network_type, key_vlan_label, harvester_system,
  storage_network_annotation, storage_network_prefix, rwx_network_annotation, rwx_network_prefix,
  value_true,
}
use network_controller_harve.Vlan.{VlanIdSet, new_vlan_id_set, append}
use network_controller_harve.NetConf.{is_bridge_cni, dump_vlan_id_set, type_text, overlay_network}
use network_controller_harve.Env.{Env, Selector, equals}

-- `GetNadLabel`
unfoldable pub get_nad_label : Nad → String → Bytes
get_nad_label nad key = get key nad.labels

-- `SetNadLabel`
unfoldable pub set_nad_label : Nad → String → Bytes → Nad
set_nad_label nad key value = record nad {
  meta = record nad.meta { labels = put key value nad.labels };
}

-- `IsOverlayNad`
unfoldable pub is_overlay_nad : Nad → Bool
is_overlay_nad nad = get key_network_type nad.labels == type_text overlay_network

-- `IsVlanNad`
unfoldable pub is_vlan_nad : Nad → Bool
is_vlan_nad nad = not (
    nad.config == []
    || (get key_vlan_label nad.labels == []
        || (get key_network_type nad.labels == []
            || get key_cluster_network_label nad.labels == [])))

-- The local function `isMatch` of `IsSystemNetworkNad`.
abbrev pub is_match : Nad → String → Bytes → Bool
is_match nad annotation prefix =
    get annotation nad.annotations == value_true || has_prefix nad.name prefix

-- `IsSystemNetworkNad`
unfoldable pub is_system_network_nad : Nad → Bool
is_system_network_nad nad =
    nad.namespace == harvester_system
    && (is_match nad storage_network_annotation storage_network_prefix
        || is_match nad rwx_network_annotation rwx_network_prefix)

-- `FilterFirstActiveSystemNetworkNad`
unfoldable pub first_active_system_nad : List Nad → Option Nad
first_active_system_nad [] = none
first_active_system_nad (nad ∷ nads) =
    let rest = first_active_system_nad nads in
    if not nad.deleting && is_system_network_nad nad then some nad else rest

-- The configuration of an empty text.
abbrev pub empty_conf : NetConf
empty_conf = record {
  cni_type = [];
  cni_rest = [];
  br_name = [];
  is_gw = false;
  is_default_gw = false;
  force_address = false;
  ip_masq = false;
  mtu = pos 0;
  hairpin_mode = false;
  promisc_mode = false;
  vlan = pos 0;
  provider = [];
  vlan_trunk = [];
}

abbrev pub decoded : Option NetConf → Result NetConf
decoded none = err bad_json
decoded (some nc) = ok nc

-- `GetNadNameFromProvider`: the name and the namespace.
abbrev pub first_two : List Bytes → Result (Bytes × Bytes)
first_two [] = err provider_short
first_two (a ∷ []) = err provider_short
first_two (a ∷ b ∷ []) = err provider_short
first_two (a ∷ b ∷ c ∷ rest) = ok (a, b)

unfoldable pub get_nad_name_from_provider : Bytes → Result (Bytes × Bytes)
get_nad_name_from_provider provider =
    if provider == [] then err provider_empty else first_two (split_from b'.' [] provider)

-- `GetProviderFromNad`
unfoldable pub get_provider_from_nad : Bytes → Bytes → Result Bytes
get_provider_from_nad nad_name nad_namespace =
    if nad_name == []
    then err provider_empty
    else ok (
        nad_name
        ++ b'.'
          ∷ ((if nad_namespace == [] then codes "default" else nad_namespace) ++ codes ".ovn"))

module _ (env : Env) where
  -- `DecodeNadConfigToNetConf`
  unfoldable pub decode_nad_config : Nad → Result NetConf
  decode_nad_config nad =
      if nad.config == [] then ok empty_conf else decoded (env.decode_net_conf nad.config)

  -- One round of the loop of `NewVlanIDSetFromNadList`.
  unfoldable pub add_nad : Nad → VlanIdSet → Result VlanIdSet
  add_nad nad vis = if nad.deleting then ok vis else do
    nc ← decode_nad_config nad
    if not (is_bridge_cni nc) then ok vis else dump_vlan_id_set nc >>= λ tmp. append vis (some tmp)

  unfoldable pub add_nads : List Nad → VlanIdSet → Result VlanIdSet
  add_nads [] vis = ok vis
  add_nads (nad ∷ nads) vis = add_nad nad vis >>= λ v. add_nads nads v

  -- `NewVlanIDSetFromNadList`
  unfoldable pub new_from_nad_list : List Nad → Result VlanIdSet
  new_from_nad_list nads = add_nads nads new_vlan_id_set

  -- `ListNadsOnClusterNetwork`
  unfoldable pub list_nads_on_cluster_network : Bytes → Result (List Nad)
  list_nads_on_cluster_network cn_name =
      env.list_nads [] (equals key_cluster_network_label cn_name ∷ [])

  -- `GeVlanIDSetFromClusterNetwork`
  unfoldable pub vlan_id_set_of_cluster_network : Bytes → Result VlanIdSet
  vlan_id_set_of_cluster_network cn_name =
      list_nads_on_cluster_network cn_name >>= λ nads. new_from_nad_list nads
