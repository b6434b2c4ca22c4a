-- ===== src/Webhook/Nad/Mutator.antt =====
-- Mutation of network attachments: pkg/webhook/nad/mutator.go.
use network_controller_harve.Common.{
  ◌||◌, ◌&&◌, List, [], ◌∷◌, ◌++◌, Option, none, some, Bytes, ◌==◌, ◌!=◌, bytes_eq, nat_eq, int_eq,
  length, get, find, put, delete, entries, GoMap, ℤ, pos, Result, ok, err, ◌>>=◌, Check,
  if◌then◌else◌,
}
use network_controller_harve.Objects.{
  Nad, NetConf, VlanConfig, Node, Ready, is_true, key_cluster_network_label, key_network_type,
  key_network_ready, key_vlan_label, key_uplink_mtu, key_underlay_intf, value_true, value_false,
  mgmt,
}
use network_controller_harve.Bridge.{get_bridge_name_prefix, cluster_network_of_intf}
use network_controller_harve.Mtu.{
  default_mtu, is_valid_mtu, are_equal_mtus, get_mtu_from_string, get_mtu_from_vlan_config,
}
use network_controller_harve.NetConf.{
  is_kube_ovn_cni, set_network_info_to_labels, type_text, overlay_network,
}
use network_controller_harve.Env.{Env, equals}
use network_controller_harve.Nads.{decode_nad_config}
use network_controller_harve.Layer3.{outdate_nad, outdate_when_mode_changes}
use network_controller_harve.Webhook.Patch.{
  Patch, replace_labels, replace_annotations, replace_config,
}

-- `if mtu != 0 { targetMTU = mtu }`
abbrev pub or_default : ℤ → ℤ
or_default mtu = if mtu != pos 0 then mtu else default_mtu

-- The MTU of the first VLAN configuration, where that is valid and not 0.
abbrev pub first_mtu : List VlanConfig → ℤ
first_mtu [] = default_mtu
first_mtu (vc ∷ vcs) =
    if is_valid_mtu (get_mtu_from_vlan_config vc) && get_mtu_from_vlan_config vc != pos 0
    then get_mtu_from_vlan_config vc
    else default_mtu

abbrev pub ready_text : Ready → Bytes
ready_text is_true = value_true
ready_text Ready.is_false = value_false
ready_text Ready.unset = value_false

-- The labels of a kube-ovn network.
abbrev pub overlay_labels : Bytes → GoMap → GoMap
overlay_labels cn_name labels = delete key_vlan_label (
    put key_cluster_network_label cn_name
      (put key_network_ready value_true (put key_network_type (type_text overlay_network) labels)))

-- The loop of `getClusterNetworkFromNodeAnnotation`; the cache holds no nil node.
unfoldable pub cluster_network_of_nodes : List Node → Result Bytes
cluster_network_of_nodes [] = ok mgmt
cluster_network_of_nodes (node ∷ nodes) =
    let rest = cluster_network_of_nodes nodes in
    if node.deleting || get key_underlay_intf node.annotations == []
    then rest
    else cluster_network_of_intf (get key_underlay_intf node.annotations)

module _ (env : Env) where
  -- `getClusterNetworkFromNodeAnnotation`
  unfoldable pub cluster_network_from_node_annotation : Result Bytes
  cluster_network_from_node_annotation = env.list_nodes [] >>= cluster_network_of_nodes

  -- The end of `ensureLabels` for a bridge.
  abbrev pub with_ready : GoMap × Check → Result Patch
  with_ready (labels, err e) = err e
  with_ready (labels, ok done) = do
    cn ← env.get_cluster_network (get key_cluster_network_label labels)
    ok (replace_labels (put key_network_ready (ready_text cn.ready) labels) ∷ [])

  -- `ensureLabels`
  unfoldable pub ensure_labels : Nad → NetConf → Result Patch
  ensure_labels nad new_conf =
      let labels = some (entries nad.labels) in
      if is_kube_ovn_cni new_conf
      then (do
        overlay_cn ← cluster_network_from_node_annotation
        ok (replace_labels (overlay_labels overlay_cn labels) ∷ []))
      else with_ready (set_network_info_to_labels new_conf labels)

  abbrev pub changed_annotations : Option GoMap → Patch
  changed_annotations none = []
  changed_annotations (some annotations) = replace_annotations annotations ∷ []

  -- `tagRouteOutdated`
  unfoldable pub tag_route_outdated : Nad → Nad → NetConf → NetConf → Result Patch
  tag_route_outdated old_nad new_nad old_conf new_conf =
      if is_kube_ovn_cni new_conf || length (entries new_nad.annotations) == 0
      then ok []
      else if old_conf.vlan != new_conf.vlan
      then (do
        annotations ← outdate_nad env new_nad (some new_conf)
        ok (replace_annotations annotations ∷ []))
      else (do
        annotations ← outdate_when_mode_changes env old_nad new_nad
        ok (changed_annotations annotations))

  -- The target MTU of `patchMTU`.
  unfoldable pub mtu_of_cluster_network : Bytes → Option Bytes → Result ℤ
  mtu_of_cluster_network cn_name (some text) =
      get_mtu_from_string text >>= λ mtu. ok (or_default mtu)
  mtu_of_cluster_network cn_name none = do
    vcs ← env.list_vlan_configs (equals key_cluster_network_label cn_name ∷ [])
    ok (first_mtu vcs)

  -- The end of `patchMTU`.
  abbrev pub patch_with : ℤ → NetConf → Bytes → Result Patch
  patch_with target nc config =
      if are_equal_mtus target nc.mtu
      then ok []
      else do new_config ← env.set_mtu config target; ok (replace_config new_config ∷ [])

  -- `patchMTU`
  unfoldable pub patch_mtu : Nad → Result Patch
  patch_mtu nad = do
    nc ← decode_nad_config env nad
    if is_kube_ovn_cni nc then ok [] else do
      cn_name ← get_bridge_name_prefix nc.br_name
      cn ← env.get_cluster_network cn_name
      target ← mtu_of_cluster_network cn_name (find key_uplink_mtu cn.annotations)
      patch_with target nc nad.config

  -- `Mutator.Create`
  unfoldable pub create : Nad → Result Patch
  create nad = patch_mtu nad

  -- `Mutator.Update`
  unfoldable pub update : Nad → Nad → Result Patch
  update old_nad new_nad = if new_nad.deleting then ok [] else do
    old_conf ← decode_nad_config env old_nad
    new_conf ← decode_nad_config env new_nad
    patch ← ensure_labels new_nad new_conf
    annotation_patch ← tag_route_outdated old_nad new_nad old_conf new_conf
    ok (patch ++ annotation_patch)
